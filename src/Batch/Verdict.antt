-- ===== src/Batch/Verdict.antt =====
-- What one tick of a running Batch of motion_policy/batch.py decides.
use auto_weaver.Prelude.{
  ℕ, ◌+◌, String, ◌≡◌, refl, sym, ◌⊎◌, inl, inr, Bool, true, false, Option, none, some, ltb,
}
use auto_weaver.Value.{Exn, ok}
use auto_weaver.Exec.{Exec, pure, ◌>>◌}
use auto_weaver.Tree.{Status, success, failure, idle, Handed, Node, Base}
use auto_weaver.Tree.Walk.{tick}
use auto_weaver.Batch.{
  inside, outside, Batch, Run, BatchState, running, exited, ExitReason, completed, errored,
  BatchResult, TraceEvent, TeardownOutcome, tick_start, tick_end, finalize, finalized, enter_exit,
  tick_main, after_main, build_failure_result, tick_batch, tick_batch_at, tick_running, trace,
  trace_tick, trace_slow, trace_failure, finalize_unless, failure_result,
}
use auto_weaver.Batch.Failure.{collect_failure_info}
use auto_weaver.Batch.Raised.{IsNodeOf, HasRaised, collect_failure_info-HasRaised}
use mathlib.Core.Path.{subst}

-- the batch `b` is leaving, with a result as given
pub HasDecided : ExitReason → Status → Option Exn → Option String → Batch → Type 0
HasDecided reason status exception node b =
    (b.exiting ≡ true)
    × ((o : BatchResult) × (b.pending_result ≡ some o)
        × (o.reason ≡ reason)
        × (o.final_status ≡ status)
        × (o.exception ≡ exception)
        × (o.failed_node ≡ node)
        × (b.teardown_tree ≡ none → (b.state ≡ exited) × (b.result ≡ some o)))

-- A tree that failed: if a node of it, at any depth, holds an exception, the batch is ERRORED with the
-- exception and the name of such a node, and FAILED if none does.
pub HasFailed : Node → Batch → Type 0
HasFailed n b =
    ((c : Base) × IsNodeOf c n
      × ((e : Exn) × (c.exception ≡ some e) × HasDecided errored failure (some e) (some c.name) b))
    ⊎ (((c : Base) → IsNodeOf c n → c.exception ≡ none)
        × HasDecided ExitReason.failed failure none none b)

-- what the batch decides, by the status that its main tree returned
pub HasVerdict : Status → Node → Batch → Batch → Type 0
HasVerdict success n b b' = HasDecided completed success none none b'
HasVerdict failure n b b' = HasFailed n b'
HasVerdict _ n b b' = (b'.exiting ≡ b.exiting) × (b'.state ≡ b.state) × (b'.result ≡ b.result)

failed-HasFailed :
    (n : Node) (o : Option (Exn × String)) (b : Batch)
    → HasRaised (λ c. IsNodeOf c n) o
    → (let r = failure_result o failure in
        HasDecided r.reason r.final_status r.exception r.failed_node b)
    → HasFailed n b
unfolding HasFailed
failed-HasFailed n none b h d = inr (h, d)
failed-HasFailed n (some (e, name)) b (c, m, x, q) d =
    inl (c, m, (e, x, subst (λ y. HasDecided errored failure (some e) (some y) b) (sym q) d))

module _ (tracer : TraceEvent → Option Exn) (quiet : (e : TraceEvent) → tracer e ≡ none) where
  trace_quiet : (e : TraceEvent) (s : Run) → trace tracer e s ≡ (ok tt, s)
  trace_quiet e s = rw (quiet e) refl

  trace_slow_quiet :
      (x : Bool) (d budget : ℕ) (s : Run) → trace_slow tracer x d budget s ≡ (ok tt, s)
  trace_slow_quiet true d budget s = trace_quiet _ s
  trace_slow_quiet false d budget s = refl

  trace_tick_quiet : (d : ℕ) (st : Status) (s : Run) → trace_tick tracer d st s ≡ (ok tt, s)
  unfolding trace_tick
  trace_tick_quiet d st s =
      rw (quiet (tick_end s.batch.tick_seq d st))
        (trace_slow_quiet (ltb s.batch.slow_tick_budget d) d s.batch.slow_tick_budget s)

  ended :
      (s : Run) (r : BatchResult)
      → s.batch.pending_result ≡ some r
      → s.batch.exiting ≡ true
      → ((finalize tracer TeardownOutcome.not_given s).0 ≡ ok tt)
        × HasDecided r.reason r.final_status r.exception r.failed_node
            (finalize tracer TeardownOutcome.not_given s).1.batch
  unfolding finalize finalized HasDecided
  ended s r p e =
      rw (quiet _, p, e) (refl, (refl, (_, refl, refl, refl, refl, refl, λ _. (refl, refl))))

  enter_exit-HasDecided :
      (r : BatchResult) (s : Run)
      → ((enter_exit tracer r s).0 ≡ ok tt)
        × HasDecided r.reason r.final_status r.exception r.failed_node
            (enter_exit tracer r s).1.batch
  unfolding enter_exit HasDecided
  enter_exit-HasDecided r s = go s.batch.teardown_tree
    where
      go :
          (t : Option Node)
          → let (x, s') = finalize_unless tracer t (record s {
            batch = record s.batch { teardown_tree = t; pending_result = some r; exiting = true };
          }) in
            (x ≡ ok tt) × HasDecided r.reason r.final_status r.exception r.failed_node s'.batch
      go none =
          ended
            (record s {
              batch = record s.batch {
                teardown_tree = none;
                pending_result = some r;
                exiting = true;
              };
            })
            r refl refl
      go (some t) = (refl, (refl, (r, refl, refl, refl, refl, refl, λ e. absurd (cc))))

  tick_main_quiet :
      (d : ℕ) (h : Handed) (s : Run)
      → let t = tick s.batch.tree h (inside s) in
        tick_main tracer d h s
        ≡ (ok t.0, outside (record s.batch { tree = t.1; tick_seq = s.batch.tick_seq + 1 }) t.2)
  unfolding tick_main trace_tick
  tick_main_quiet d h s =
      let b : Batch = record s.batch { tick_seq = s.batch.tick_seq + 1 } in
      let t = tick b.tree h (inside s) in
      let r : Run = outside (record b { tree = t.1 }) t.2 in
      rw (quiet (tick_start b.tick_seq)) (rw (trace_tick_quiet d t.0 r) refl)

  trace_failure_quiet :
      (o : Option (Exn × String)) (s : Run) → trace_failure tracer o s ≡ (ok tt, s)
  trace_failure_quiet none s = refl
  trace_failure_quiet (some (e, node)) s = trace_quiet _ s

  build_failure_quiet :
      (s : Run)
      → build_failure_result tracer failure s
        ≡ (ok (failure_result (collect_failure_info s.batch.tree) failure), s)
  unfolding build_failure_result
  build_failure_quiet s = rw (trace_failure_quiet (collect_failure_info s.batch.tree) s) refl

  after_main-HasVerdict :
      (st : Status) (b : Batch) (s : Run)
      → s.batch.exiting ≡ b.exiting
      → s.batch.state ≡ b.state
      → s.batch.result ≡ b.result
      → ((after_main tracer st s).0 ≡ ok tt)
        × HasVerdict st s.batch.tree b (after_main tracer st s).1.batch
  unfolding after_main HasVerdict
  after_main-HasVerdict success b s p q r = enter_exit-HasDecided _ s
  after_main-HasVerdict failure b s p q r =
      let o = collect_failure_info s.batch.tree in
      let (x, y) = enter_exit-HasDecided (failure_result o failure) s in
      rw (build_failure_quiet s)
        (x, failed-HasFailed s.batch.tree o _ (collect_failure_info-HasRaised s.batch.tree) y)
  after_main-HasVerdict idle b s p q r = (refl, (p, q, r))
  after_main-HasVerdict Status.running b s p q r = (refl, (p, q, r))

  returns :
      (m : Exec Run Unit) (st : Status) (s : Run)
      → (m s).0 ≡ ok tt
      → (m >> pure st) s ≡ (ok st, (m s).1)
  returns m st s e = rw e refl

  tick_running-HasVerdict :
      (d : ℕ) (h : Handed) (s : Run) (y : Bool)
      → y ≡ false
      → let t = tick s.batch.tree h (inside s) in
        let (r, s') = tick_running tracer d h y s in
        (r ≡ ok t.0) × HasVerdict t.0 t.1 s.batch s'.batch
  tick_running-HasVerdict d h s y q =
      let t = tick s.batch.tree h (inside s) in
      let s' : Run = outside (record s.batch { tree = t.1; tick_seq = s.batch.tick_seq + 1 }) t.2 in
      let (u, v) = after_main-HasVerdict t.0 s.batch s' refl refl refl in
      rw (q, tick_main_quiet d h s, returns (after_main tracer t.0) t.0 s' u) (refl, v)

  tick_batch_at-HasVerdict :
      (d : ℕ) (h : Handed) (s : Run) (x : BatchState)
      → x ≡ running
      → s.batch.exiting ≡ false
      → let t = tick s.batch.tree h (inside s) in
        let (r, s') = tick_batch_at tracer x d h s in
        (r ≡ ok t.0) × HasVerdict t.0 t.1 s.batch s'.batch
  unfolding tick_batch_at
  tick_batch_at-HasVerdict d h s x p q = rw p (tick_running-HasVerdict d h s s.batch.exiting q)

-- A tick of a RUNNING batch that is not leaving, when the tracer raises nothing, ticks the main tree
-- once and returns its status. SUCCESS decides COMPLETED; FAILURE decides ERRORED if a node of the
-- tree, at any depth, holds an exception, with that exception and the name of the node, and FAILED if
-- none does; any other status decides nothing. A batch without a
-- teardown tree is EXITED with the decided result at once.
pub tick_verdict :
    (tracer : TraceEvent → Option Exn) (d : ℕ) (h : Handed) (s : Run)
    → ((e : TraceEvent) → tracer e ≡ none)
    → s.batch.state ≡ running
    → s.batch.exiting ≡ false
    → let t = tick s.batch.tree h (inside s) in
      let (r, s') = tick_batch tracer d h s in (r ≡ ok t.0) × HasVerdict t.0 t.1 s.batch s'.batch
unfolding tick_batch
tick_verdict tracer d h s quiet p e = tick_batch_at-HasVerdict tracer quiet d h s s.batch.state p e
