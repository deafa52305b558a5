-- ===== src/Batch/Outcome.antt =====
-- How a Batch of motion_policy/batch.py ends, and what its result says.
use auto_weaver.Prelude.{
  ℕ, String, ◌≡◌, ◌≢◌, refl, ◌∙◌, Bool, true, false, ◌||◌, Option, none, some, List, [], ◌∷◌, arith,
  eq_iff, ◌==◌, string_eq, if◌then◌else◌,
}
use auto_weaver.Dict
use auto_weaver.Dict.{Dict, get-put}
use auto_weaver.Value.{Value, Exn, ok}
use auto_weaver.Blackboard.{Blackboard, read}
use auto_weaver.Tree.{Handed, Node}
use auto_weaver.Tree.Walk.Calm.{IsIdle, IsLive, halt-IsIdle}
use auto_weaver.Batch.{
  Batch, Run, BatchState, ready, running, exited, errored, BatchResult, TraceEvent, collect_from,
  collect_exports, finalized, enter_exit, tick_batch, kill_batch, kill_unless, is_leaving,
  halt_main, abort, abort_at, abort_result, final_status_of, inside, finalize_unless, set_exiting,
}

-- After EXITED a batch is done: `tick`, `kill` and `_abort` change nothing, raise nothing, and
-- `tick` returns the final status of the result.
exited_fixed :
    (tracer : TraceEvent → Option Exn) (s : Run)
    → s.batch.state ≡ exited
    → ((d : ℕ) (h : Handed) → tick_batch tracer d h s ≡ (ok (final_status_of s.batch.result), s))
      × (kill_batch tracer s ≡ (ok tt, s))
      × ((exn_text : Exn → String) (e : Option Exn) (message : String)
          → abort tracer exn_text e message s ≡ (ok tt, s))
unfolding tick_batch kill_batch abort
exited_fixed tracer s x = (λ d h. rw x refl, rw x refl, λ exn_text e message. rw x refl)

if_reason :
    (x : Bool) (p : BatchResult) (message : String)
    → (if x then p else record p { message = message }).reason ≡ p.reason
if_reason true p message = refl
if_reason false p message = refl

abort_result-some :
    (exn_text : Exn → String) {e : Option Exn} (x : Exn) (message : String) (b : Batch)
    → e ≡ some x
    → ((abort_result exn_text e message b).reason ≡ errored)
      × ((abort_result exn_text e message b).exception ≡ some x)
unfolding abort_result
abort_result-some exn_text {e} x message b q = rw q (refl, refl)

abort_result-none :
    (exn_text : Exn → String) {e : Option Exn} (p : BatchResult) (message : String) (b : Batch)
    → e ≡ none
    → b.pending_result ≡ some p
    → (abort_result exn_text e message b).reason ≡ p.reason
unfolding abort_result
abort_result-none exn_text {e} p message b q h =
    rw (q, abort_result, h) (if_reason (message == "") p message)

-- `_abort` of a batch that had not exited raises nothing, whatever the halts of its trees and the
-- tracer raise, and leaves it EXITED with a result; with an exception that is ERRORED and carries it,
-- and without one a reason that was already decided stays.
pub abort_exits :
    (tracer : TraceEvent → Option Exn) (exn_text : Exn → String) (e : Option Exn) (message : String)
    (s : Run)
    → s.batch.state ≢ exited
    → let (x, s') = abort tracer exn_text e message s in
      let b = s'.batch in
      (x ≡ ok tt)
      × ((r : BatchResult) × (b.result ≡ some r)
          × (b.state ≡ exited)
          × ((y : Exn) → e ≡ some y → (r.reason ≡ errored) × (r.exception ≡ some y))
          × ((p : BatchResult) → e ≡ none → s.batch.pending_result ≡ some p → r.reason ≡ p.reason))
unfolding abort
abort_exits tracer exn_text e message s n = go s.batch.state n
  where
    go :
        (x : BatchState)
        → x ≢ exited
        → let (a, s') = abort_at tracer exn_text x e message s in
          let b = s'.batch in
          (a ≡ ok tt)
          × ((r : BatchResult) × (b.result ≡ some r)
              × (b.state ≡ exited)
              × ((y : Exn) → e ≡ some y → (r.reason ≡ errored) × (r.exception ≡ some y))
              × ((p : BatchResult)
                  → e ≡ none
                  → s.batch.pending_result ≡ some p
                  → r.reason ≡ p.reason))
    go exited ne = absurd (ne refl)
    go ready ne = (
      refl,
      (
        _,
        refl,
        refl,
        λ y q. abort_result-some exn_text y message s.batch q,
        λ p q r. abort_result-none exn_text p message s.batch q r,
      ),
    )
    go running ne = (
      refl,
      (
        _,
        refl,
        refl,
        λ y q. abort_result-some exn_text y message s.batch q,
        λ p q r. abort_result-none exn_text p message s.batch q r,
      ),
    )

exiting-enter_exit :
    (tracer : TraceEvent → Option Exn) (r : BatchResult) (s : Run)
    → (enter_exit tracer r s).1.batch.exiting ≡ true
unfolding enter_exit finalized
exiting-enter_exit tracer r s = go s.batch.teardown_tree
  where
    go : (t : Option Node) → (finalize_unless tracer t (set_exiting r s)).1.batch.exiting ≡ true
    go none = refl
    go (some t) = refl

tree-enter_exit :
    (tracer : TraceEvent → Option Exn) (r : BatchResult) (s : Run)
    → (enter_exit tracer r s).1.batch.tree ≡ s.batch.tree
unfolding enter_exit finalized
tree-enter_exit tracer r s = go s.batch.teardown_tree
  where
    go :
        (t : Option Node) → (finalize_unless tracer t (set_exiting r s)).1.batch.tree ≡ s.batch.tree
    go none = refl
    go (some t) = refl

is_leaving_of : (b : Batch) → b.exiting ≡ true → is_leaving b ≡ true
is_leaving_of b e = ground arith

kill_unless_leaves :
    (tracer : TraceEvent → Option Exn) (x : Bool) (s : Run)
    → is_leaving s.batch ≡ x
    → is_leaving (kill_unless tracer x s).1.batch ≡ true
kill_unless_leaves tracer true s e = e
kill_unless_leaves tracer false s e =
    is_leaving_of (kill_unless tracer false s).1.batch (exiting-enter_exit tracer _ (halt_main s))

-- A second `kill` changes nothing, whatever the first one raised.
kill_twice :
    (tracer : TraceEvent → Option Exn) (s : Run)
    → (kill_batch tracer (kill_batch tracer s).1).1 ≡ (kill_batch tracer s).1
unfolding kill_batch
kill_twice tracer s = rw (kill_unless_leaves tracer (is_leaving s.batch) s refl) refl

-- `kill` leaves the main tree at rest, if it was between two ticks, none of its leaves raises when
-- halted, and the batch was not leaving already.
kill_rests :
    (tracer : TraceEvent → Option Exn) (s : Run)
    → is_leaving s.batch ≡ false
    → IsLive s.batch.tree
    → IsIdle (kill_batch tracer s).1.batch.tree
unfolding kill_batch
kill_rests tracer s l h = rw l (
    rw (tree-enter_exit tracer _ (halt_main s))
      (unfold halt_main in (halt-IsIdle s.batch.tree (inside s) h).1))

abbrev pub declared : String → List String → Bool
declared k [] = false
declared k (j ∷ rest) = j == k || declared k rest

get-collect_from :
    (keys : List String) (b : Blackboard) (out : Dict String Value) (k : String)
    → Dict.get (collect_from keys b out) k ≡ (
        if declared k keys
        then elim (read b k) [ none ↦ Dict.get out k | some v ↦ some v ]
        else Dict.get out k)
unfolding collect_from
get-collect_from [] b out k = refl
get-collect_from (j ∷ rest) b out k =
    get-collect_from rest b (add (read b j)) k ∙ later (read b j) refl
  where
    add : Option Value → Dict String Value
    add o = elim o [ none ↦ out | some v ↦ Dict.put out j v ]

    later :
        (o : Option Value)
        → read b j ≡ o
        → (if declared k rest
            then elim (read b k) [ none ↦ Dict.get (add o) k | some v ↦ some v ]
            else Dict.get (add o) k)
          ≡ (if j == k || declared k rest
              then elim (read b k) [ none ↦ Dict.get out k | some v ↦ some v ]
              else Dict.get out k)
    later none e = ground (arith, eq_iff j k)
    later (some v) e = ground (arith, eq_iff j k, get-put out j k v)

-- The exported part of a result holds the value of each declared key that the blackboard has, and
-- nothing else: a declared key that was never written is absent.
get-collect_exports :
    (b : Batch) (k : String)
    → Dict.get (collect_exports b) k ≡ (if declared k b.export then read b.blackboard k else none)
unfolding collect_exports Dict.get
get-collect_exports b k = ground (arith, get-collect_from b.export b.blackboard [] k)
