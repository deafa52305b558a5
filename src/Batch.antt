-- ===== src/Batch.antt =====
-- motion_policy/batch.py: one run of a tree, from READY over RUNNING to EXITED. The tracer is a
-- parameter: each of its callbacks may raise.
pub mod Failure
pub mod Raised
pub mod Lifecycle
pub mod Outcome
pub mod Verdict
use Prim.Native.String.{◌++◌ as string_append}
use auto_weaver.Prelude.{
  ℕ, suc, ◌+◌, String, Bool, true, false, Option, none, some, List, [], ◌∷◌, ltb, ◌==◌, string_eq,
  if◌then◌else◌, ◌≡◌,
}
use auto_weaver.Dict
use auto_weaver.Dict.{Dict}
use auto_weaver.Value.{Value, Exn, Result, ok, err}
use auto_weaver.Exec.{Exec, gets, modify, pure, lift, ◌>>=◌, ◌>>◌}
use auto_weaver.Blackboard.{Blackboard, read, has_key}
use auto_weaver.WorldBoard.{Snapshot}
use auto_weaver.Tree.{Status, success, failure, idle, World, Handed, Node, base_of}
use auto_weaver.Tree.Walk.{tick, halt}
use Failure.{collect_failure_info}

pub data BatchState : Type 0 where
  ready running exited : BatchState

pub data ExitReason : Type 0 where
  completed failed errored killed : ExitReason

pub data TeardownOutcome : Type 0 where
  not_given succeeded failed aborted : TeardownOutcome

pub record BatchResult : Type 0 where
  pub reason : ExitReason
  pub message : String
  pub exception : Option Exn
  pub failed_node : Option String
  pub final_status : Status
  pub teardown_outcome : TeardownOutcome
  pub exported : Dict String Value

-- `BatchResult(reason=…)`, the other fields at their defaults
abbrev pub result_of : ExitReason → BatchResult
result_of reason = record {
  reason = reason;
  message = "";
  exception = none;
  failed_node = none;
  final_status = idle;
  teardown_outcome = TeardownOutcome.not_given;
  exported = [];
}

-- `BatchResult.success`
unfoldable pub is_success : BatchResult → Bool
is_success r = elim r.reason [ completed ↦ true | _ ↦ false ]

-- `BatchResult.teardown_ok`
unfoldable pub teardown_ok : BatchResult → Bool
teardown_ok r = elim r.teardown_outcome [ not_given ↦ true | succeeded ↦ true | _ ↦ false ]

pub record BatchInfo : Type 0 where
  pub id : ℕ
  pub batch_no : Option String

pub record Batch : Type 0 where
  pub id : ℕ
  pub batch_no : Option String
  pub name : String
  pub tree : Node
  pub teardown_tree : Option Node
  pub export : List String
  pub slow_tick_budget : ℕ
  pub blackboard : Blackboard
  pub state : BatchState
  pub tick_seq : ℕ
  pub exiting : Bool
  pub pending_result : Option BatchResult
  pub result : Option BatchResult

abbrev pub info : Batch → BatchInfo
info b = record { id = b.id; batch_no = b.batch_no }

-- A batch while one of its methods runs, with the process around it. The blackboard of `world` is
-- not read: the trees of a batch see the batch's own.
pub record Run : Type 0 where
  pub batch : Batch
  pub world : World

pub data TraceEvent : Type 0 where
  batch_begin : String → TraceEvent
  tick_start : ℕ → TraceEvent
  tick_end : ℕ → ℕ → Status → TraceEvent
  slow_tick : ℕ → ℕ → TraceEvent
  node_exception : String → Exn → TraceEvent
  batch_finish : String → BatchResult → TraceEvent

-- `_collect_exports`: a declared key that is absent from the blackboard stays absent.
unfoldable pub collect_from : List String → Blackboard → Dict String Value → Dict String Value
collect_from [] b out = out
collect_from (key ∷ rest) b out =
    collect_from rest b (elim (read b key) [ none ↦ out | some v ↦ Dict.put out key v ])

unfoldable pub collect_exports : Batch → Dict String Value
unfolding collect_from
collect_exports b = collect_from b.export b.blackboard []

-- `self._pending_result or BatchResult(...)`
abbrev pub pending_or : Option BatchResult → BatchResult → BatchResult
pending_or none d = d
pending_or (some r) d = r

abbrev pub set_batch : (Batch → Batch) → Run → Run
set_batch f s = record s { batch = f s.batch }

-- a tree of the batch is walked over the batch's own blackboard
abbrev pub inside : Run → World
inside s = record s.world { blackboard = s.batch.blackboard }

abbrev pub outside : Batch → World → Run
outside b w = record { batch = record b { blackboard = w.blackboard }; world = w }

-- `try: tree.halt() except Exception`: what the halt did before it raised stays
unfoldable pub halt_main : Run → Run
halt_main s =
    let (x, n, w) = halt s.batch.tree (inside s) in outside (record s.batch { tree = n }) w

abbrev pub halt_option : Option Node → Run → Run
halt_option none s = s
halt_option (some t) s =
    let (x, n, w) = halt t (inside s) in outside (record s.batch { teardown_tree = some n }) w

unfoldable pub halt_teardown : Run → Run
halt_teardown s = halt_option s.batch.teardown_tree s

-- The fields that `_finalize` sets before it calls the tracer.
unfoldable pub finalized : TeardownOutcome → Batch → Batch
finalized outcome b =
    let r : BatchResult = record (pending_or b.pending_result (result_of killed)) {
      teardown_outcome = outcome;
      exported = collect_exports b;
    } in
    record b { pending_result = some r; result = some r; state = exited }

abbrev pub outcome_without_run : Option Node → TeardownOutcome
outcome_without_run none = TeardownOutcome.not_given
outcome_without_run (some t) = aborted

-- the result that `_abort` starts from; `exn_text` is the type and the text of an exception
unfoldable pub abort_result : (Exn → String) → Option Exn → String → Batch → BatchResult
abort_result exn_text (some e) message b = record (result_of errored) {
  message = if message == "" then string_append "batch tick raised " (exn_text e) else message;
  exception = some e;
  final_status = (base_of b.tree).status;
}
abort_result exn_text none message b =
    let r : BatchResult =
      pending_or b.pending_result (record (result_of killed) {
        message = "killed";
        final_status = (base_of b.tree).status;
      }) in
    if message == "" then r else record r { message = message }

abbrev pub failure_result : Option (Exn × String) → Status → BatchResult
failure_result none status = record (result_of ExitReason.failed) {
  message = "Tree returned FAILURE";
  final_status = status;
}
failure_result (some (e, node)) status = record (result_of errored) {
  message = string_append "node '" (string_append node "' raised");
  exception = some e;
  failed_node = some node;
  final_status = status;
}

abbrev pub final_status_of : Option BatchResult → Status
final_status_of none = idle
final_status_of (some r) = r.final_status

abbrev is_exited : BatchState → Bool
is_exited exited = true
is_exited _ = false

-- `self._state is EXITED or self._exiting`
abbrev pub is_leaving : Batch → Bool
is_leaving b = if is_exited b.state then true else b.exiting

abbrev pub set_exiting : BatchResult → Run → Run
set_exiting result = set_batch (λ b. record b { pending_result = some result; exiting = true })

module _ (tracer : TraceEvent → Option Exn) where
  abbrev pub trace : TraceEvent → Exec Run Unit
  trace event s = (elim (tracer event) [ none ↦ ok tt | some e ↦ err e ], s)

  unfoldable pub finalize : TeardownOutcome → Exec Run Unit
  unfolding finalized
  finalize outcome = do
    modify (set_batch (finalized outcome))
    b ← gets (λ s. s.batch)
    trace (batch_finish b.name (pending_or b.result (result_of killed)))

  abbrev pub finalize_unless : Option Node → Exec Run Unit
  finalize_unless none = finalize TeardownOutcome.not_given
  finalize_unless (some t) = pure tt

  unfoldable pub enter_exit : BatchResult → Exec Run Unit
  unfolding finalize
  enter_exit result = do
    modify (set_exiting result)
    teardown ← gets (λ s. s.batch.teardown_tree)
    finalize_unless teardown

  abbrev pub trace_slow : Bool → ℕ → ℕ → Exec Run Unit
  trace_slow true duration budget = trace (slow_tick duration budget)
  trace_slow false duration budget = pure tt

  -- the tracer's share of `_tick_tree`, once the tree was ticked
  unfoldable pub trace_tick : ℕ → Status → Exec Run Unit
  trace_tick duration status = do
    b ← gets (λ s. s.batch)
    trace (tick_end b.tick_seq duration status)
    trace_slow (ltb b.slow_tick_budget duration) duration b.slow_tick_budget

  -- `_tick_tree(self.tree, …)`. `duration` is what the clock measures for the tick of the tree.
  unfoldable pub tick_main : ℕ → Handed → Exec Run Status
  unfolding trace_tick
  tick_main duration h = do
    modify (set_batch (λ b. record b { tick_seq = b.tick_seq + 1 }))
    b ← gets (λ s. s.batch)
    trace (tick_start b.tick_seq)
    status ← λ s.
        let (st, n, w) = tick s.batch.tree h (inside s) in
        (ok st, outside (record s.batch { tree = n }) w)
    trace_tick duration status
    pure status

  -- `_tick_tree(self.teardown_tree, …)`
  unfoldable pub tick_teardown : ℕ → Handed → Node → Exec Run Status
  unfolding trace_tick
  tick_teardown duration h t = do
    modify (set_batch (λ b. record b { tick_seq = b.tick_seq + 1 }))
    b ← gets (λ s. s.batch)
    trace (tick_start b.tick_seq)
    status ← λ s.
        let (st, n, w) = tick t h (inside s) in
        (ok st, outside (record s.batch { teardown_tree = some n }) w)
    trace_tick duration status
    pure status

  abbrev pub trace_failure : Option (Exn × String) → Exec Run Unit
  trace_failure none = pure tt
  trace_failure (some (e, node)) = trace (node_exception node e)

  unfoldable pub build_failure_result : Status → Exec Run BatchResult
  build_failure_result status = do
    found ← gets (λ s. collect_failure_info s.batch.tree)
    trace_failure found
    pure (failure_result found status)

  -- what follows the tick of the teardown tree
  unfoldable pub after_teardown : Status → Exec Run Unit
  unfolding finalize
  after_teardown success = finalize succeeded
  after_teardown failure = finalize TeardownOutcome.failed
  after_teardown _ = pure tt

  -- what follows the tick of the main tree
  unfoldable pub after_main : Status → Exec Run Unit
  unfolding enter_exit build_failure_result
  after_main success = enter_exit (record (result_of completed) { final_status = success })
  after_main failure = do result ← build_failure_result failure; enter_exit result
  after_main _ = pure tt

  abbrev pub tick_exiting : ℕ → Handed → Option Node → Exec Run Status
  tick_exiting duration h none = do
    finalize TeardownOutcome.not_given
    gets (λ s. final_status_of s.batch.result)
  tick_exiting duration h (some t) = do
    status ← tick_teardown duration h t
    after_teardown status
    pure status

  abbrev pub tick_running : ℕ → Handed → Bool → Exec Run Status
  tick_running duration h true = do t ← gets (λ s. s.batch.teardown_tree); tick_exiting duration h t
  tick_running duration h false = do status ← tick_main duration h; after_main status; pure status

  -- `Batch.tick`, by the state
  unfoldable pub tick_batch_at : BatchState → ℕ → Handed → Exec Run Status
  unfolding tick_main tick_teardown after_teardown after_main finalize
  tick_batch_at exited duration h = gets (λ s. final_status_of s.batch.result)
  tick_batch_at ready duration h = do
    modify (set_batch (λ b. record b { state = running }))
    b ← gets (λ s. s.batch)
    trace (batch_begin b.name)
    tick_running duration h b.exiting
  tick_batch_at running duration h = do e ← gets (λ s. s.batch.exiting); tick_running duration h e

  unfoldable pub tick_batch : ℕ → Handed → Exec Run Status
  unfolding tick_batch_at
  tick_batch duration h s = tick_batch_at s.batch.state duration h s

  abbrev pub kill_unless : Bool → Exec Run Unit
  kill_unless true = pure tt
  kill_unless false = do
    status ← gets (λ s. (base_of s.batch.tree).status)
    modify halt_main
    enter_exit (record (result_of killed) { message = "killed"; final_status = status })

  -- `Batch.kill`
  unfoldable pub kill_batch : Exec Run Unit
  unfolding enter_exit halt_main
  kill_batch s = kill_unless (is_leaving s.batch) s

-- `try: … except BaseException: log`: what the step did before it raised stays
abbrev pub guarded : Exec Run Unit → Exec Run Unit
guarded step s = (ok tt, (step s).1)

abbrev pub raise_option : Option Exn → Result (Unit {0})
raise_option none = ok tt
raise_option (some e) = err e

abbrev pub halt_raises : Option Node → Run → Option Exn
halt_raises none s = none
halt_raises (some t) s = (halt t (inside s)).0

-- the halts of `_abort`, with what they raise
unfoldable pub halt_main_step : Exec Run Unit
unfolding halt_main
halt_main_step s = (raise_option (halt s.batch.tree (inside s)).0, halt_main s)

unfoldable pub halt_teardown_step : Exec Run Unit
unfolding halt_teardown
halt_teardown_step s = (raise_option (halt_raises s.batch.teardown_tree s), halt_teardown s)

abbrev pub aborted_with : BatchResult → TeardownOutcome → Batch → Batch
aborted_with r outcome b =
    let r' : BatchResult = record r { exported = collect_exports b; teardown_outcome = outcome } in
    record b { pending_result = some r'; exiting = true; result = some r'; state = exited }

module _ (tracer : TraceEvent → Option Exn) (exn_text : Exn → String) where
  -- what `_abort` does once it has a result
  unfoldable pub abort_steps : BatchResult → TeardownOutcome → Exec Run Unit
  unfolding halt_main_step halt_teardown_step collect_exports
  abort_steps r outcome = do
    guarded halt_main_step
    guarded halt_teardown_step
    modify (set_batch (aborted_with r outcome))
    guarded (λ s. trace tracer (batch_finish s.batch.name (pending_or s.batch.result r)) s)

  abbrev pub abort_at : BatchState → Option Exn → String → Exec Run Unit
  abort_at exited e message s = (ok tt, s)
  abort_at _ e message s =
      abort_steps (abort_result exn_text e message s.batch)
        (outcome_without_run s.batch.teardown_tree) s

  -- `Batch._abort`
  unfoldable pub abort : Option Exn → String → Exec Run Unit
  unfolding abort_result abort_steps
  abort e message s = abort_at s.batch.state e message s
