-- ===== src/Batch/Lifecycle.antt =====
-- READY, RUNNING, EXITED: the life of a Batch in motion_policy/batch.py.
use auto_weaver.Prelude.{
  ℕ, ◌+◌, String, ◌≡◌, ◌≢◌, refl, Bool, true, false, Option, none, some, arith,
}
use auto_weaver.Value.{Exn}
use auto_weaver.Blackboard.{Blackboard}
use auto_weaver.Exec.{pure, after_bind}
use auto_weaver.Tree.{Status, success, failure, idle, Handed, Node}
use auto_weaver.Tree.Walk.{tick}
use auto_weaver.Batch.{
  inside, outside, tick_start, batch_begin, tick_exiting, is_leaving, Batch, Run, BatchState, ready,
  running, exited, BatchResult, TraceEvent, TeardownOutcome, finalized, finalize, enter_exit,
  tick_main, tick_teardown, after_main, after_teardown, build_failure_result, tick_batch,
  tick_batch_at, tick_running, kill_batch, kill_unless, halt_main, abort, abort_at, abort_steps,
  trace, trace_tick,
}

-- The contract of the states: there is a result exactly in EXITED, a batch that is exiting without
-- having exited has a provisional result and a teardown tree. (A batch that is killed before its
-- first tick is exiting while READY.)
pub record IsConsistent (b : Batch) : Type 0 where
  pub result_exited : b.state ≡ exited → b.result ≢ none
  pub exited_result : b.state ≢ exited → b.result ≡ none
  pub leaving :
      b.state ≢ exited → b.exiting ≡ true → (b.pending_result ≢ none) × (b.teardown_tree ≢ none)

abbrev HasConsistent : Run → Type 0
HasConsistent s = IsConsistent s.batch

finalized-IsConsistent : (o : TeardownOutcome) (b : Batch) → IsConsistent (finalized o b)
unfolding finalized
finalized-IsConsistent o b = ground arith

halt_main-IsConsistent : (s : Run) → HasConsistent s → HasConsistent (halt_main s)
unfolding halt_main
halt_main-IsConsistent s h = ground arith

module _ (tracer : TraceEvent → Option Exn) where
  enter_exit-IsConsistent :
      (r : BatchResult) (s : Run) → HasConsistent s → HasConsistent (enter_exit tracer r s).1
  unfolding enter_exit finalized
  enter_exit-IsConsistent r s h = ground arith

  trace-IsConsistent :
      (e : TraceEvent) (s : Run) → HasConsistent s → HasConsistent (trace tracer e s).1
  trace-IsConsistent e s h = h

  finalize-IsConsistent : (o : TeardownOutcome) (s : Run) → HasConsistent (finalize tracer o s).1
  unfolding finalize
  finalize-IsConsistent o s = finalized-IsConsistent o s.batch

  build_failure_result-run : (s : Run) (st : Status) → (build_failure_result tracer st s).1 ≡ s
  unfolding build_failure_result
  build_failure_result-run s st = ground arith

  after_main-IsConsistent :
      (st : Status) (s : Run) → HasConsistent s → HasConsistent (after_main tracer st s).1
  unfolding after_main build_failure_result
  after_main-IsConsistent success s h = enter_exit-IsConsistent _ s h
  after_main-IsConsistent failure s h =
      after_bind HasConsistent (build_failure_result tracer failure) (λ r. enter_exit tracer r) s
        (rw (build_failure_result-run s failure) h)
        λ r _.
          enter_exit-IsConsistent r (build_failure_result tracer failure s).1
            (rw (build_failure_result-run s failure) h)
  after_main-IsConsistent idle s h = h
  after_main-IsConsistent Status.running s h = h

  after_teardown-IsConsistent :
      (st : Status) (s : Run) → HasConsistent s → HasConsistent (after_teardown tracer st s).1
  unfolding after_teardown
  after_teardown-IsConsistent success s h = finalize-IsConsistent _ s
  after_teardown-IsConsistent failure s h = finalize-IsConsistent _ s
  after_teardown-IsConsistent idle s h = h
  after_teardown-IsConsistent Status.running s h = h

  trace_tick-batch : (d : ℕ) (st : Status) (s : Run) → (trace_tick tracer d st s).1 ≡ s
  unfolding trace_tick
  trace_tick-batch d st s = ground arith

  -- the trees, the blackboard and the count of ticks do not matter
  retold :
      (n : Node) (t : Option Node) (q : ℕ) (bb : Blackboard) (b : Batch)
      → (b.teardown_tree ≢ none → t ≢ none)
      → IsConsistent b
      → IsConsistent (record b { tree = n; teardown_tree = t; tick_seq = q; blackboard = bb })
  retold n t q bb b k c = record {
    result_exited = c.result_exited;
    exited_result = c.exited_result;
    leaving = λ x y. ((c.leaving x y).0, k (c.leaving x y).1);
  }

  tick_main-IsConsistent :
      (d : ℕ) (h : Handed) (s : Run) → HasConsistent s → HasConsistent (tick_main tracer d h s).1
  unfolding tick_main
  tick_main-IsConsistent d h s c =
      let b : Batch = record s.batch { tick_seq = s.batch.tick_seq + 1 } in
      let r : Run = record s { batch = b } in
      let c' : IsConsistent b =
        retold b.tree b.teardown_tree b.tick_seq b.blackboard s.batch (λ k. k) c in
      after_bind HasConsistent (trace tracer (tick_start b.tick_seq)) _ r c' λ _ _.
        let t = tick b.tree h (inside r) in
        let r' : Run = outside (record b { tree = t.1 }) t.2 in
        let c'' : IsConsistent r'.batch =
          retold t.1 b.teardown_tree b.tick_seq t.2.blackboard b (λ k. k) c' in
        after_bind HasConsistent (trace_tick tracer d t.0) (λ _. pure t.0) r'
          (rw (trace_tick-batch d t.0 r') c'') λ _ _. rw (trace_tick-batch d t.0 r') c''

  tick_teardown-IsConsistent :
      (d : ℕ) (h : Handed) (n : Node) (s : Run)
      → HasConsistent s
      → HasConsistent (tick_teardown tracer d h n s).1
  unfolding tick_teardown
  tick_teardown-IsConsistent d h n s c =
      let b : Batch = record s.batch { tick_seq = s.batch.tick_seq + 1 } in
      let r : Run = record s { batch = b } in
      let c' : IsConsistent b =
        retold b.tree b.teardown_tree b.tick_seq b.blackboard s.batch (λ k. k) c in
      after_bind HasConsistent (trace tracer (tick_start b.tick_seq)) _ r c' λ _ _.
        let t = tick n h (inside r) in
        let r' : Run = outside (record b { teardown_tree = some t.1 }) t.2 in
        let c'' : IsConsistent r'.batch =
          retold b.tree (some t.1) b.tick_seq t.2.blackboard b (λ _ e. cc) c' in
        after_bind HasConsistent (trace_tick tracer d t.0) (λ _. pure t.0) r'
          (rw (trace_tick-batch d t.0 r') c'') λ _ _. rw (trace_tick-batch d t.0 r') c''

  tick_exiting-IsConsistent :
      (d : ℕ) (h : Handed) (t : Option Node) (s : Run)
      → HasConsistent s
      → HasConsistent (tick_exiting tracer d h t s).1
  tick_exiting-IsConsistent d h none s c =
      after_bind HasConsistent (finalize tracer TeardownOutcome.not_given) _ s
        (finalize-IsConsistent _ s) λ _ _. finalize-IsConsistent _ s
  tick_exiting-IsConsistent d h (some n) s c =
      after_bind HasConsistent (tick_teardown tracer d h n) _ s
        (tick_teardown-IsConsistent d h n s c)
        λ st _.
          let s' : Run = (tick_teardown tracer d h n s).1 in
          let c' : HasConsistent (after_teardown tracer st s').1 =
            after_teardown-IsConsistent st s' (tick_teardown-IsConsistent d h n s c) in
          after_bind HasConsistent (after_teardown tracer st) (λ _. pure st) s' c' λ _ _. c'

  tick_running-IsConsistent :
      (d : ℕ) (h : Handed) (x : Bool) (s : Run)
      → HasConsistent s
      → HasConsistent (tick_running tracer d h x s).1
  tick_running-IsConsistent d h true s c = tick_exiting-IsConsistent d h s.batch.teardown_tree s c
  tick_running-IsConsistent d h false s c =
      after_bind HasConsistent (tick_main tracer d h) _ s (tick_main-IsConsistent d h s c) λ st _.
        let s' : Run = (tick_main tracer d h s).1 in
        let c' : HasConsistent (after_main tracer st s').1 =
          after_main-IsConsistent st s' (tick_main-IsConsistent d h s c) in
        after_bind HasConsistent (after_main tracer st) (λ _. pure st) s' c' λ _ _. c'

  tick_batch_at-IsConsistent :
      (x : BatchState) (d : ℕ) (h : Handed) (s : Run)
      → s.batch.state ≡ x
      → HasConsistent s
      → HasConsistent (tick_batch_at tracer x d h s).1
  unfolding tick_batch_at
  tick_batch_at-IsConsistent exited d h s e c = c
  tick_batch_at-IsConsistent running d h s e c = tick_running-IsConsistent d h s.batch.exiting s c
  tick_batch_at-IsConsistent ready d h s e c =
      let s' : Run = record s { batch = record s.batch { state = running } } in
      let c' : HasConsistent s' = record {
        result_exited = λ q. absurd (cc);
        exited_result = λ n. c.exited_result (λ q. cc);
        leaving = λ n x. c.leaving (λ q. cc) x;
      } in
      after_bind HasConsistent (trace tracer (batch_begin s.batch.name)) _ s' c'
        λ _ _. tick_running-IsConsistent d h s.batch.exiting s' c'

  kill_batch-IsConsistent : (s : Run) → HasConsistent s → HasConsistent (kill_batch tracer s).1
  unfolding kill_batch
  kill_batch-IsConsistent s h = go (is_leaving s.batch)
    where
      go : (x : Bool) → HasConsistent (kill_unless tracer x s).1
      go true = h
      go false = enter_exit-IsConsistent _ (halt_main s) (halt_main-IsConsistent s h)

left-IsConsistent : (b : Batch) → b.state ≡ exited → b.result ≢ none → IsConsistent b
left-IsConsistent b e r = record {
  result_exited = λ _. r;
  exited_result = λ n. absurd (n e);
  leaving = λ n. absurd (n e);
}

abort_at-IsConsistent :
    (tracer : TraceEvent → Option Exn) (exn_text : Exn → String) (x : BatchState) (e : Option Exn)
    (message : String) (s : Run)
    → s.batch.state ≡ x
    → IsConsistent s.batch
    → IsConsistent (abort_at tracer exn_text x e message s).1.batch
unfolding abort_steps
abort_at-IsConsistent tracer exn_text exited e message s q c = c
abort_at-IsConsistent tracer exn_text ready e message s q c = left-IsConsistent _ refl (λ n. cc)
abort_at-IsConsistent tracer exn_text running e message s q c = left-IsConsistent _ refl (λ n. cc)

-- `tick`, `kill` and `_abort` keep this, whether they return or the tracer makes them raise: a batch
-- has a result exactly in EXITED, and one that is exiting without having exited has a provisional
-- result and a teardown tree.
pub calls-IsConsistent :
    (tracer : TraceEvent → Option Exn) (s : Run)
    → IsConsistent s.batch
    → ((d : ℕ) (h : Handed) → IsConsistent (tick_batch tracer d h s).1.batch)
      × IsConsistent (kill_batch tracer s).1.batch
      × ((exn_text : Exn → String) (e : Option Exn) (message : String)
          → IsConsistent (abort tracer exn_text e message s).1.batch)
unfolding tick_batch abort
calls-IsConsistent tracer s c = (
  λ d h. tick_batch_at-IsConsistent tracer s.batch.state d h s refl c,
  kill_batch-IsConsistent tracer s c,
  λ exn_text e message. abort_at-IsConsistent tracer exn_text s.batch.state e message s refl c,
)
