-- ===== src/Clock.antt =====
-- worker/clock.py: the tick source, its batches and its workers. Calls from several threads are
-- serialised by its locks, so that a call is one step here. A worker's hooks, its receivers and
-- the drain of the async pools are parameters; `KeyboardInterrupt` and `SystemExit` are left out.
pub mod Slot
pub mod Workers
use auto_weaver.Prelude.{
  ℕ, zero, suc, ◌+◌, ◌-◌, String, Bool, true, false, Option, none, some, List, [], ◌∷◌, ◌++◌,
  nat_beq, nat_eq, ◌==◌, if◌then◌else◌, keep, not,
}
use auto_weaver.Dict
use auto_weaver.Dict.{Dict}
use auto_weaver.Value.{Value, Exn, Result, ok, err, runtime_error, value_error}
use auto_weaver.Exec.{Exec, gets, modify, raise_if, ◌>>=◌, ◌>>◌, raised_if}
use auto_weaver.WorldBoard
use auto_weaver.WorldBoard.{Receiver}
use auto_weaver.Tree.{TickContext, World, Handed}
use auto_weaver.Batch.{
  Batch, BatchState, BatchInfo, info, Run, TraceEvent, tick_batch, kill_batch, abort,
}

-- worker/base.py, `WorkerState`
pub data WorkerState : Type 0 where
  unattached attached running paused stopped faulted : WorkerState

pub data Hook : Type 0 where
  on_attach on_start on_pause on_resume on_stop on_detach : Hook

-- What the program around the clock does: each hook of a worker, by its name, may change the world
-- and may raise. `declare` is `_declare_framework_state`.
pub record Environment : Type 0 where
  pub hook : Hook → String → World → Option Exn × World
  pub declare : String → World → Option Exn × World
  pub on_tick : String → TickContext → World → Option Exn × World
  pub on_batch_start : String → BatchInfo → World → Option Exn × World
  pub drain_pools : World → World
  pub receive : Receiver (Unit {0})
  pub tracer : TraceEvent → Option Exn
  pub exn_text : Exn → String

-- `mode_ok`: the worker's `async_pool_config.mode` is "shared" or "dedicated".
pub record Worker : Type 0 where
  pub name : String
  pub lifecycle : WorkerState
  pub mode_ok : Bool

-- Batches and workers are objects that the callers hold too: the clock keeps their numbers, and
-- `heap` and `staff` hold what the numbers stand for. A handle has the number of its batch.
pub record Clock : Type 0 where
  pub heap : Dict ℕ Batch
  pub batches : List ℕ
  pub staff : Dict ℕ Worker
  pub workers : List ℕ
  pub world : World
  pub stopped : Bool
  pub tick_id : ℕ
  pub last_tick_ts : Option ℕ

abbrev pub is_ready : BatchState → Bool
is_ready BatchState.ready = true
is_ready _ = false

abbrev pub has_exited : BatchState → Bool
has_exited BatchState.exited = true
has_exited _ = false

abbrev pub is_empty : List ℕ → Bool
is_empty [] = true
is_empty (x ∷ xs) = false

-- `list.remove(id)`, with a missing item ignored
abbrev pub remove_first : ℕ → List ℕ → List ℕ
remove_first id [] = []
remove_first id (j ∷ rest) = let rest' = remove_first id rest in if j == id then rest else j ∷ rest'

-- `_detach`
unfoldable pub detach : ℕ → Clock → Clock
detach id c = record c { batches = remove_first id c.batches }

-- a batch after one of its methods ran
abbrev pub store : ℕ → Run → Clock → Clock
store id s c = record c { heap = Dict.put c.heap id s.batch; world = s.world }

-- `_reap_if_exited`, for a batch whose state is known
abbrev pub reap : BatchState → ℕ → Clock → Clock
reap BatchState.exited id c = detach id c
reap _ id c = c

abbrev pub set_state : ℕ → Worker → WorkerState → Clock → Clock
set_state id w s c = record c { staff = Dict.put c.staff id (record w { lifecycle = s }) }

abbrev pub member : ℕ → List ℕ → Bool
member id [] = false
member id (j ∷ rest) = if j == id then true else member id rest

-- a batch whose tick raised is forced out and detached; one that exited is reaped
abbrev pub after_batch : {A : Type 0} → Environment → Result A → ℕ → Run → Clock → Clock
after_batch env (ok st) id s c = reap s.batch.state id (store id s c)
after_batch env (err e) id s c =
    detach id (store id (abort env.tracer env.exn_text (some e) "" s).1 c)

abbrev pub after_on_tick : Option Exn → ℕ → Worker → Clock → Clock
after_on_tick none id w c = c
after_on_tick (some e) id w c = set_state id w faulted c

-- `self._batches.append(batch)`
abbrev pub enter : Batch → Clock → Clock
enter b c = record c { heap = Dict.put c.heap b.id b; batches = c.batches ++ b.id ∷ [] }

abbrev pub after_start : Option Exn → ℕ → Worker → Exec Clock Unit
after_start none id w c = (ok tt, c)
after_start (some e) id w c = (err e, set_state id w faulted c)

-- `now - self._last_tick_ts`, or 0 on the first tick; the clock is monotonic
abbrev pub elapsed : ℕ → Option ℕ → ℕ
elapsed now none = 0
elapsed now (some t) = now - t

abbrev pub force_exit_at : Environment → BatchState → ℕ → Batch → Clock → Clock
force_exit_at env BatchState.exited id b c = c
force_exit_at env _ id b c =
    store id
      (abort env.tracer env.exn_text none "clock shut down before the teardown tree ran"
        (record { batch = b; world = c.world })).1
      c

abbrev pub force_exit : Environment → ℕ → Option Batch → Clock → Clock
force_exit env id none c = c
force_exit env id (some b) c = force_exit_at env b.state id b c

module _ (env : Environment) where
  -- one round of `_broadcast_batch_start`, by the state of the worker
  unfoldable pub announce : WorkerState → BatchInfo → ℕ → Worker → Exec Clock Unit
  announce faulted i id w c = (ok tt, c)
  announce _ i id w c =
      let (x, world) = env.on_batch_start w.name i c.world in
      after_start x id w (record c { world = world })

  abbrev pub announce_option : BatchInfo → ℕ → Option Worker → Exec Clock Unit
  announce_option i id none c = (ok tt, c)
  announce_option i id (some w) c = announce w.lifecycle i id w c

  -- `_broadcast_batch_start`: the first worker that raises ends the loop.
  unfoldable pub broadcast : BatchInfo → List ℕ → Exec Clock Unit
  unfolding announce
  broadcast i [] = λ c. (ok tt, c)
  broadcast i (id ∷ rest) = do
    w ← gets (λ c. Dict.get c.staff id)
    announce_option i id w
    broadcast i rest

  unfoldable pub submit : Batch → Exec Clock Unit
  unfolding broadcast
  submit b = do
    raise_if (not (is_ready b.state)) runtime_error
    free ← gets (λ c. is_empty c.batches)
    raise_if (not free) runtime_error
    workers ← gets (λ c. c.workers)
    broadcast (info b) workers
    modify (enter b)

  -- `kill` of an attached handle: what the batch raises is logged
  abbrev pub kill_option : ℕ → Option Batch → Clock → Clock
  kill_option id none c = c
  kill_option id (some b) c =
      let s = (kill_batch env.tracer (record { batch = b; world = c.world })).1 in
      reap s.batch.state id (store id s c)

  unfoldable pub kill : ℕ → Clock → Clock
  unfolding detach
  kill id c = if member id c.batches then kill_option id (Dict.get c.heap id) c else c

  -- `try: worker.hook() except BaseException: log`
  abbrev pub call_hook : Hook → String → Clock → Clock
  call_hook h name c = record c { world = (env.hook h name c.world).1 }

  -- the body of the `try` in `attach_worker`: three calls, the first that raises ends it
  unfoldable pub bring_up : String → World → Option Exn × World
  bring_up name w0 =
      let (x, w1) = env.declare name w0 in
      let (y, w2) = env.hook on_attach name w1 in
      let (z, w3) = env.hook on_start name w2 in
      elim x [ some e ↦ (some e, w1) | none ↦ elim y [ some e ↦ (some e, w2) | none ↦ (z, w3) ] ]

  abbrev pub finish_attach : Option Exn → ℕ → Worker → Exec Clock Unit
  finish_attach none id w c =
      let c' = set_state id w running c in (ok tt, record c' { workers = c'.workers ++ id ∷ [] })
  finish_attach (some e) id w c = (err e, call_hook on_stop w.name (set_state id w faulted c))

  unfoldable pub attach_at : WorkerState → Bool → ℕ → Worker → Exec Clock Unit
  unfolding bring_up
  attach_at unattached true id w c =
      let (x, world) = bring_up w.name c.world in finish_attach x id w (record c { world = world })
  attach_at unattached false id w c = (err value_error, c)
  attach_at _ m id w c = (err runtime_error, c)

  unfoldable pub attach_worker : ℕ → Worker → Exec Clock Unit
  unfolding attach_at
  attach_worker id w c = attach_at w.lifecycle w.mode_ok id w c

  -- The background threads, and the timeout with which they are joined, are not modelled.
  unfoldable pub detach_worker : ℕ → Worker → Clock → Clock
  detach_worker id w c =
      let c1 : Clock = record c { workers = remove_first id c.workers } in
      let c2 : Clock = set_state id w stopped (call_hook on_stop w.name c1) in
      set_state id w unattached (call_hook on_detach w.name c2)

  unfoldable pub pause_worker : ℕ → Worker → Clock → Clock
  pause_worker id w c = elim w.lifecycle [
    | running ↦ set_state id w paused (call_hook on_pause w.name c)
    | _ ↦ c
  ]

  unfoldable pub resume_worker : ℕ → Worker → Clock → Clock
  resume_worker id w c = elim w.lifecycle [
    | paused ↦ set_state id w running (call_hook on_resume w.name c)
    | _ ↦ c
  ]

  abbrev pub tick_option : ℕ → Handed → ℕ → Option Batch → Clock → Clock
  tick_option duration h id none c = c
  tick_option duration h id (some b) c =
      let (r, s) = tick_batch env.tracer duration h (record { batch = b; world = c.world }) in
      after_batch env r id s c

  -- step 3 of `tick_once`
  unfoldable pub tick_batches : ℕ → TickContext → List ℕ → Clock → Clock
  unfolding detach
  tick_batches duration ctx [] c = c
  tick_batches duration ctx (id ∷ rest) c =
      let h : Handed = record { snapshot = some c.world.world_board.current; ctx = some ctx } in
      tick_batches duration ctx rest (tick_option duration h id (Dict.get c.heap id) c)

  abbrev pub tick_worker_at : WorkerState → TickContext → ℕ → Worker → Clock → Clock
  tick_worker_at running ctx id w c =
      let (x, world) = env.on_tick w.name ctx c.world in
      after_on_tick x id w (record c { world = world })
  tick_worker_at _ ctx id w c = c

  abbrev pub tick_worker : TickContext → ℕ → Option Worker → Clock → Clock
  tick_worker ctx id none c = c
  tick_worker ctx id (some w) c = tick_worker_at w.lifecycle ctx id w c

  -- step 4 of `tick_once`
  unfoldable pub tick_workers : TickContext → List ℕ → Clock → Clock
  tick_workers ctx [] c = c
  tick_workers ctx (id ∷ rest) c =
      tick_workers ctx rest (tick_worker ctx id (Dict.get c.staff id) c)

  -- step 2 of `tick_once`: what the receivers raise is logged
  abbrev pub deliver : World → World
  deliver w = record w { world_board = (WorldBoard.deliver_notes env.receive w.world_board tt).1 }

  -- `now` is `time.monotonic()`, `duration` what a batch measures for its tick.
  unfoldable pub tick_once : ℕ → ℕ → Clock → TickContext × Clock
  unfolding tick_batches tick_workers
  tick_once now duration c =
      let ctx : TickContext = record {
        tick_id = c.tick_id;
        timestamp = now;
        dt = elapsed now c.last_tick_ts;
      } in
      let c1 : Clock = record c {
        last_tick_ts = some now;
        tick_id = c.tick_id + 1;
        world = deliver (env.drain_pools c.world);
      } in
      let c2 = tick_batches duration ctx c1.batches c1 in (ctx, tick_workers ctx c2.workers c2)

  unfoldable pub detach_all : List ℕ → Clock → Clock
  unfolding detach_worker
  detach_all [] c = c
  detach_all (id ∷ rest) c =
      detach_all rest (elim (Dict.get c.staff id) [ none ↦ c | some w ↦ detach_worker id w c ])

  -- the loop of `shutdown` over the batches
  unfoldable pub end_batches : List ℕ → Clock → Clock
  unfolding kill
  end_batches [] c = c
  end_batches (id ∷ rest) c =
      let c' = kill id c in end_batches rest (force_exit env id (Dict.get c'.heap id) c')

  unfoldable pub shutdown : Clock → Clock
  unfolding detach_all end_batches
  shutdown c =
      let batches = c.batches in
      let c' = end_batches batches (detach_all c.workers (record c { stopped = true })) in
      record c' { batches = [] }
