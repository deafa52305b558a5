-- ===== src/Tests/Clocks.antt =====
-- Runs of worker/clock.py.
use auto_weaver.Prelude.{
  ℕ, ◌≡◌, refl, true, false, none, some, [], ◌∷◌, ◌++◌, ◌==◌, nat_eq, string_eq, if◌then◌else◌,
}
use auto_weaver.Dict
use auto_weaver.Dict.{Dict}
use auto_weaver.Value.{runtime_error}
use auto_weaver.Blackboard
use auto_weaver.WorldBoard
use auto_weaver.Tree.{idle, TickContext, World, wait, leaf, nothing_handed}
use auto_weaver.Batch.{Batch, ready}
use auto_weaver.Clock.{
  Environment, Worker, Clock, submit, kill, tick_once, shutdown, tick_workers, attach_worker,
  unattached, running,
}
use auto_weaver.Clock.Slot.{IsSlot, free, calls-IsSlot}
use auto_weaver.Clock.Workers.{HasTicked, tick_workers-HasTicked}

abbrev world : World
world = record {
  blackboard = Blackboard.new;
  world_board = WorldBoard.new 3 0;
  next_request = 0;
  halted_goals = [];
}

-- Workers whose hooks raise nothing but `on_tick` of "cam"; the tracer raises at every event.
abbrev env : Environment
env = record {
  hook = λ h name w. (none, w);
  declare = λ name w. (none, w);
  on_tick = λ name ctx w. (if name == "cam" then some runtime_error else none, w);
  on_batch_start = λ name i w. (none, w);
  drain_pools = λ w. w;
  receive = λ n v b e. (none, b, e);
  tracer = λ e. some runtime_error;
  exn_text = λ e. "error";
}

abbrev pause : Batch
pause = record {
  id = 1;
  batch_no = none;
  name = "pause";
  tree =
      leaf (record { name = "wait"; status = idle; handed = nothing_handed; exception = none })
        (wait 3 none);
  teardown_tree = none;
  export = [];
  slow_tick_budget = 5;
  blackboard = Blackboard.new;
  state = ready;
  tick_seq = 0;
  exiting = false;
  pending_result = none;
  result = none;
}

abbrev cam : Worker
cam = record { name = "cam"; lifecycle = running; mode_ok = true }

abbrev new_arm : Worker
new_arm = record { name = "arm"; lifecycle = unattached; mode_ok = true }

abbrev clock : Clock
clock = record {
  heap = [];
  batches = [];
  staff = (5, cam) ∷ [];
  workers = 5 ∷ [];
  world = world;
  stopped = false;
  tick_id = 0;
  last_tick_ts = none;
}

-- with the batch `pause`
abbrev busy : Clock
busy = record clock { heap = (1, pause) ∷ []; batches = 1 ∷ [] }

calls-IsSlot_example :
    ((b : Batch) → IsSlot (submit env b clock).1)
    × ((id : ℕ) → IsSlot (kill env id clock))
    × ((now d : ℕ) → IsSlot (tick_once env now d clock).1)
    × ((shutdown env clock).batches ≡ [])
calls-IsSlot_example = calls-IsSlot env clock (free refl)

submitted : (submit env pause clock).1.batches ≡ 1 ∷ []
unfolding submit Dict.get
submitted = refl

abbrev ctx : TickContext
ctx = record { tick_id = 0; timestamp = 4; dt = 1 }

tick_workers-HasTicked_example :
    HasTicked env ctx
      (tick_workers env ctx [] clock).world
      cam
      (Dict.get (tick_workers env ctx ([] ++ 5 ∷ []) clock).staff 5)
unfolding Dict.get
tick_workers-HasTicked_example = tick_workers-HasTicked env ctx [] [] 5 cam clock refl refl refl

attached : (attach_worker env 6 new_arm clock).1.workers ≡ 5 ∷ 6 ∷ []
unfolding attach_worker
attached = refl
