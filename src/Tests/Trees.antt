-- ===== src/Tests/Trees.antt =====
-- Runs of motion_policy/nodes/ and motion_policy/batch.py.
use auto_weaver.Prelude.{
  ℕ, String, ◌≡◌, ◌≢◌, refl, inl, true, false, Option, none, some, [], ◌∷◌, string_eq,
}
use auto_weaver.Value.{Exn, ok, int, runtime_error}
use auto_weaver.Blackboard
use auto_weaver.Blackboard.{read}
use auto_weaver.WorldBoard
use auto_weaver.Tree.{
  Status, success, failure, idle, TickContext, World, Handed, Base, Device, condition, action, wait,
  sequence, Node, leaf, control, decorator, nil, cons, base_of, nothing_handed, timeout, retry,
}
use auto_weaver.Tree.Walk.{tick, halt}
use auto_weaver.Tree.Walk.Attempts.{fresh, ticks, last_fails, retry_gives_up}
use auto_weaver.Tree.Walk.Calm.{IsIdle, IsLive, halt_rests}
use auto_weaver.Tree.Walk.Quiet.{IsSettled, IsSettled-idle}
use auto_weaver.Tree.Walk.Quiet.Ticks.{tick_settles}
use auto_weaver.Tree.Operators.{append, then_node, or_node, chains_assoc}
use auto_weaver.Batch.{
  Batch, Run, ready, running, exited, ExitReason, errored, BatchResult, TraceEvent, inside,
  tick_batch, kill_batch, abort, result_of,
}
use auto_weaver.Batch.Lifecycle.{IsConsistent, calls-IsConsistent}
use auto_weaver.Batch.Verdict.{HasVerdict, tick_verdict}
use auto_weaver.Batch.Outcome.{abort_exits}

abbrev base : String → Base
base name = record { name = name; status = idle; handed = nothing_handed; exception = none }

-- an arm that moves until it is told to stop
abbrev arm : Device
arm = record {
  on_start = λ h w. (ok Status.running, some 8, w);
  on_running = λ g h w. (ok Status.running, g, w);
  halt_goal = λ g. none;
}

-- a Timeout over a Sequence of a check and a move
abbrev plan : Node
plan = decorator (base "limit") (timeout 10 none) (
    control (base "seq") (sequence 0) false (
      cons (leaf (base "check") (condition (λ h w. ok true)))
        (cons (leaf (base "move") (action arm none)) nil)))

abbrev start : World
start = record {
  blackboard = Blackboard.new;
  world_board = WorldBoard.new 3 0;
  next_request = 0;
  halted_goals = [];
}

abbrev at : ℕ → Handed
at now = record { snapshot = none; ctx = some (record { tick_id = now; timestamp = now; dt = 1 }) }

plan-IsIdle : IsIdle plan
unfolding IsIdle
plan-IsIdle = (refl, (refl, ((refl, tt), ((refl, λ n. refl), tt))))

-- the tree after its first tick
abbrev moving : Status × Node × World
moving = tick plan (at 0) start

moving-IsSettled : IsSettled moving.1
moving-IsSettled = (tick_settles plan (at 0) start (IsSettled-idle plan plan-IsIdle)).0

tick_settles_example :
    let (s, n', w') = tick moving.1 (at 20) moving.2 in
    IsSettled n' × (s ≢ Status.running → IsIdle n')
tick_settles_example = tick_settles moving.1 (at 20) moving.2 moving-IsSettled

-- the first tick starts the move; at 20 the time is up, and the goal of the move is halted
moves : moving.0 ≡ Status.running
unfolding tick auto_weaver.Tree.Decorator.start_decorator auto_weaver.Tree.Decorator.after_child
    auto_weaver.Tree.Leaf.start_leaf auto_weaver.Tree.Leaf.check_condition
moves = refl

stops : (tick moving.1 (at 20) moving.2).2.halted_goals ≡ 8 ∷ []
unfolding tick auto_weaver.Tree.Decorator.start_decorator auto_weaver.Tree.Decorator.after_child
    auto_weaver.Tree.Leaf.start_leaf auto_weaver.Tree.Leaf.check_condition
    auto_weaver.Tree.Decorator.resume_decorator halt auto_weaver.Tree.Leaf.halt_leaf
stops = refl

halt_rests_example : ((halt plan start).0 ≡ none) × IsIdle (halt plan start).1
unfolding IsLive
halt_rests_example =
    halt_rests plan start (inl refl, (inl refl, ((inl refl, tt), ((inl refl, λ n. refl), tt))))

-- a tracer that raises nothing
abbrev quiet : TraceEvent → Option Exn
quiet e = none

abbrev batch : Batch
batch = record {
  id = 1;
  batch_no = none;
  name = "pick";
  tree = plan;
  teardown_tree = none;
  export = "pose" ∷ "grip" ∷ [];
  slow_tick_budget = 5;
  blackboard = record { contents = ("pose", int 7) ∷ []; writers = []; types = [] };
  state = ready;
  tick_seq = 0;
  exiting = false;
  pending_result = none;
  result = none;
}

abbrev new_run : Run
new_run = record { batch = batch; world = start }

batch-IsConsistent : IsConsistent batch
batch-IsConsistent = record {
  result_exited = λ q. absurd (cc);
  exited_result = λ _. refl;
  leaving = λ n q. absurd (cc);
}

calls-IsConsistent_example :
    ((d : ℕ) (h : Handed) → IsConsistent (tick_batch quiet d h new_run).1.batch)
    × IsConsistent (kill_batch quiet new_run).1.batch
    × ((exn_text : Exn → String) (e : Option Exn) (message : String)
        → IsConsistent (abort quiet exn_text e message new_run).1.batch)
calls-IsConsistent_example = calls-IsConsistent quiet new_run batch-IsConsistent

-- a tracer that raises at every event
abbrev broken : TraceEvent → Option Exn
broken e = some runtime_error

abort_exits_example :
    let (x, s') = abort broken (λ e. "error") (some runtime_error) "" new_run in
    let b = s'.batch in
    (x ≡ ok tt)
    × ((r : BatchResult) × (b.result ≡ some r)
        × (b.state ≡ exited)
        × ((y : Exn) → some runtime_error ≡ some y → (r.reason ≡ errored) × (r.exception ≡ some y))
        × ((p : BatchResult) → some runtime_error ≡ none → none ≡ some p → r.reason ≡ p.reason))
abort_exits_example = abort_exits broken (λ e. "error") (some runtime_error) "" new_run (λ q. cc)

abbrev over : Run
over = record {
  batch = record batch { state = exited; result = some (result_of ExitReason.killed) };
  world = start;
}

abbrev begun : Run
begun = record new_run { batch = record batch { state = running } }

tick_verdict_example :
    let t = tick plan (at 3) (inside begun) in
    let (r, s') = tick_batch quiet 1 (at 3) begun in
    (r ≡ ok t.0) × HasVerdict t.0 t.1 begun.batch s'.batch
tick_verdict_example = tick_verdict quiet 1 (at 3) begun (λ e. refl) refl refl

-- three attempts at a check that never holds
abbrev stubborn : Node
stubborn = decorator (base "again") (retry 3 0) (leaf (base "check") (condition (λ h w. ok false)))

retry_gives_up_example :
    ticks (at 0 ∷ at 1 ∷ at 2 ∷ []) stubborn start ≡ Status.running ∷ Status.running ∷ failure ∷ []
unfolding last_fails
retry_gives_up_example =
    retry_gives_up stubborn (at 0 ∷ at 1 ∷ at 2 ∷ []) start
      (fresh 0 (base "again") (base "check") (λ h w. ok false) refl refl (λ h w. refl))

abbrev check : String → Node
check name = leaf (base name) (condition (λ h w. ok true))

chains_assoc_example :
    (then_node (then_node plan (check "a")) (then_node (check "b") plan)
      ≡ then_node plan (then_node (check "a") (then_node (check "b") plan)))
    × (or_node (or_node plan (check "a")) (then_node (check "b") plan)
        ≡ or_node plan (or_node (check "a") (then_node (check "b") plan)))
chains_assoc_example = chains_assoc plan (check "a") (then_node (check "b") plan)

one_sequence :
    then_node (then_node (check "a") (check "b")) (check "c")
    ≡ control
        (base "Sequence")
        (sequence 0)
        false
        (cons (check "a") (cons (check "b") (cons (check "c") nil)))
unfolding then_node append
one_sequence = refl
