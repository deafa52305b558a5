-- ===== src/Tree/Decorator.antt =====
-- The decorators in motion_policy/nodes/decorator/, but for the tick of their child: what each does
-- before it, and what it makes of the child's status.
use auto_weaver.Prelude.{
  ℕ, ◌+◌, ◌-◌, String, Bool, true, false, Option, none, some, List, [], ◌∷◌, leb, ltb, get_elem?,
  length, if◌then◌else◌,
}
use auto_weaver.Value.{Value, Result, ok, err, index_error, type_error}
use auto_weaver.Blackboard
use auto_weaver.Tree.Types.{
  Status, success, failure, running, World, Handed, Base, Decorator, inverter, force_success, retry,
  repeat, timeout, repeat_until, foreach,
}
use auto_weaver.Tree.Leaf.{now, snapshot_of, on_board}
use auto_weaver.WorldBoard.{Snapshot}

-- What a decorator does with its child in this tick: not touch it, halt it, or tick it.
pub data Plan : Type 0 where
  leave stop go : Plan

-- The outcome that stands if the child is not ticked, the attributes, and the world so far.
pub record Before : Type 0 where
  pub plan : Plan
  pub outcome : Result Status
  pub attributes : Decorator
  pub world : World

-- The outcome, the attributes, whether the child is halted, and the world.
pub record After : Type 0 where
  pub outcome : Result Status
  pub attributes : Decorator
  pub halt_child : Bool
  pub world : World

-- `Inverter._invert`
unfoldable pub invert : Status → Status
invert success = failure
invert failure = success
invert s = s

-- `ForceSuccess._force`
unfoldable pub force : Status → Status
force running = running
force _ = success

-- the test of the deadline
abbrev pub expire : Bool → ℕ → ℕ → World → Before
expire true seconds t0 w = record {
  plan = stop;
  outcome = ok failure;
  attributes = timeout seconds none;
  world = w;
}
expire false seconds t0 w = record {
  plan = go;
  outcome = ok running;
  attributes = timeout seconds (some t0);
  world = w;
}

-- `Timeout._check` at a time, up to the tick of the child. The clock is monotonic; a missing start
-- time makes the subtraction raise.
abbrev pub check_at : Result ℕ → ℕ → Option ℕ → World → Before
check_at (err e) seconds start w = record {
  plan = leave;
  outcome = err e;
  attributes = timeout seconds start;
  world = w;
}
check_at (ok t) seconds none w = record {
  plan = leave;
  outcome = err type_error;
  attributes = timeout seconds none;
  world = w;
}
check_at (ok t) seconds (some t0) w = expire (ltb seconds (t - t0)) seconds t0 w

unfoldable pub check_timeout : ℕ → Option ℕ → Handed → World → Before
unfolding now
check_timeout seconds start h w = check_at (now h) seconds start w

abbrev pub start_at : Result ℕ → ℕ → Option ℕ → World → Before
start_at (err e) seconds start w = record {
  plan = leave;
  outcome = err e;
  attributes = timeout seconds start;
  world = w;
}
start_at (ok t) seconds start w = check_at (ok t) seconds (some t) w

-- `Timeout.on_start`
unfoldable pub start_timeout : ℕ → Option ℕ → Handed → World → Before
unfolding now
start_timeout seconds start h w = start_at (now h) seconds start w

-- `ForEach._write_current`; an index out of range would raise
unfoldable pub write_current : String → List Value → ℕ → World → Result (Unit {0}) × World
write_current key items idx w = elim (get_elem? items idx) [
  | none ↦ (err index_error, w)
  | some v ↦ on_board (Blackboard.write key v "foreach") w
]

-- `ForEach.on_start`, up to the tick of the child
unfoldable pub start_foreach : String → List Value → World → Before
unfolding write_current
start_foreach key [] w = record {
  plan = leave;
  outcome = ok success;
  attributes = foreach key [] 0;
  world = w;
}
start_foreach key (v ∷ rest) w =
    let (r, w') = write_current key (v ∷ rest) 0 w in
    record {
      plan = elim r [ ok _ ↦ go | err e ↦ leave ];
      outcome = elim r [ ok _ ↦ ok running | err e ↦ err e ];
      attributes = foreach key (v ∷ rest) 0;
      world = w';
    }

abbrev pub tick_child : Decorator → World → Before
tick_child d w = record { plan = go; outcome = ok running; attributes = d; world = w }

-- `on_start` of a decorator, up to the tick of its child
unfoldable pub start_decorator : Decorator → Base → World → Before
unfolding start_timeout start_foreach
start_decorator (retry most attempt) b w = tick_child (retry most 0) w
start_decorator (repeat count completed) b w = tick_child (repeat count 0) w
start_decorator (timeout seconds start) b w = start_timeout seconds start b.handed w
start_decorator (foreach key items idx) b w = start_foreach key items w
start_decorator d b w = tick_child d w

-- `on_running` of a decorator, up to the tick of its child
unfoldable pub resume_decorator : Decorator → Base → World → Before
unfolding check_timeout
resume_decorator (timeout seconds start) b w = check_timeout seconds start b.handed w
resume_decorator d b w = tick_child d w

abbrev pub returns : Status → Decorator → World → After
returns s d w = record { outcome = ok s; attributes = d; halt_child = false; world = w }

-- `Retry._try`, given the child's status
unfoldable pub after_retry : ℕ → ℕ → Status → World → After
after_retry most attempt success w = returns success (retry most 0) w
after_retry most attempt running w = returns running (retry most attempt) w
after_retry most attempt _ w =
    if leb most (attempt + 1) then returns failure (retry most 0) w else record {
      outcome = ok running;
      attributes = retry most (attempt + 1);
      halt_child = true;
      world = w;
    }

-- `Repeat._run`, given the child's status
unfoldable pub after_repeat : ℕ → ℕ → Status → World → After
after_repeat count completed failure w = returns failure (repeat count 0) w
after_repeat count completed running w = returns running (repeat count completed) w
after_repeat count completed _ w =
    if leb count (completed + 1) then returns success (repeat count 0) w else record {
      outcome = ok running;
      attributes = repeat count (completed + 1);
      halt_child = true;
      world = w;
    }

-- `Timeout._check`, given the child's status
unfoldable pub after_timeout : ℕ → Option ℕ → Status → World → After
after_timeout seconds start running w = returns running (timeout seconds start) w
after_timeout seconds start s w = returns s (timeout seconds none) w

abbrev pub of_test : Result Bool → Result Status
of_test (ok true) = ok success
of_test (ok false) = ok running
of_test (err e) = err e

-- the exit test of RepeatUntil, at the snapshot if there is one
abbrev pub test_at :
    Result Snapshot → (Option Snapshot → Blackboard.Blackboard → Result Bool) → World → After
test_at (err e) cond w = record {
  outcome = err e;
  attributes = repeat_until cond;
  halt_child = false;
  world = w;
}
test_at (ok s) cond w = record {
  outcome = of_test (cond (some s) w.blackboard);
  attributes = repeat_until cond;
  halt_child = false;
  world = w;
}

-- `RepeatUntil._run`, given the child's status. The test reads `self.snapshot`.
unfoldable pub after_repeat_until :
    (Option Snapshot → Blackboard.Blackboard → Result Bool) → Handed → Status → World → After
after_repeat_until cond h failure w = returns failure (repeat_until cond) w
after_repeat_until cond h running w = returns running (repeat_until cond) w
after_repeat_until cond h _ w = test_at (snapshot_of h) cond w

-- `ForEach._handle`, given the child's status
unfoldable pub after_foreach : String → List Value → ℕ → Status → World → After
unfolding write_current
after_foreach key items idx failure w = returns failure (foreach key items idx) w
after_foreach key items idx running w = returns running (foreach key items idx) w
after_foreach key items idx _ w =
    if leb (length items) (idx + 1)
    then returns success (foreach key items (idx + 1)) w
    else (let (r, w') = write_current key items (idx + 1) w in
        record {
          outcome = elim r [ ok _ ↦ ok running | err e ↦ err e ];
          attributes = foreach key items (idx + 1);
          halt_child = false;
          world = w';
        })

-- What a decorator makes of the status that its child's tick returned
unfoldable pub after_child : Decorator → Base → Status → World → After
unfolding after_retry after_repeat after_timeout after_repeat_until after_foreach
after_child inverter b s w = returns (invert s) inverter w
after_child force_success b s w = returns (force s) force_success w
after_child (retry most attempt) b s w = after_retry most attempt s w
after_child (repeat count completed) b s w = after_repeat count completed s w
after_child (timeout seconds start) b s w = after_timeout seconds start s w
after_child (repeat_until cond) b s w = after_repeat_until cond b.handed s w
after_child (foreach key items idx) b s w = after_foreach key items idx s w

-- `reset` of a decorator, in its own attributes
unfoldable pub reset_decorator : Decorator → Decorator
reset_decorator (retry most attempt) = retry most 0
reset_decorator (repeat count completed) = repeat count 0
reset_decorator (timeout seconds start) = timeout seconds none
reset_decorator (foreach key items idx) = foreach key items 0
reset_decorator d = d
