-- ===== src/Clock/Workers.antt =====
-- The workers of worker/clock.py: `attach_worker`, and the last step of `tick_once`.
use auto_weaver.Prelude.{
  ℕ, ◌≡◌, ◌≢◌, refl, sym, ap, ◌∙◌, ◌⊎◌, inl, inr, Bool, true, false, Option, none, some, List, [],
  ◌∷◌, ◌++◌, ◌==◌, nat_eq, nat_beq_iff, if◌then◌else◌, Bool-cases, arith,
}
use mathlib.Core.Path.{subst}
use auto_weaver.Dict
use auto_weaver.Dict.{Dict, get-put, beq_self}
use auto_weaver.Value.{Exn, Result, ok, err}
use auto_weaver.Tree.{TickContext, World}
use auto_weaver.Clock.{
  Environment, Worker, WorkerState, Clock, unattached, running, faulted, attach_worker, attach_at,
  finish_attach, bring_up, after_on_tick, member, tick_worker, tick_worker_at, tick_workers,
}

-- Over a step of the clock, a worker is as it was, or it was RUNNING and is FAULTED.
pub data IsTicked (before after : Option Worker) : Type 0 where
  same : after ≡ before → IsTicked before after
  broken :
      (w : Worker)
      → before ≡ some w
      → w.lifecycle ≡ running
      → after ≡ some (record w { lifecycle = faulted })
      → IsTicked before after

lifecycle_of : Option Worker → WorkerState
lifecycle_of none = unattached
lifecycle_of (some w) = w.lifecycle

broken_again :
    (w w' : Worker) → some (record w { lifecycle = faulted }) ≡ some w' → w'.lifecycle ≢ running
unfolding lifecycle_of
broken_again w w' p q = let e : faulted ≡ w'.lifecycle = ap lifecycle_of p in cc

IsTicked-then : (x y z : Option Worker) → IsTicked x y → IsTicked y z → IsTicked x z
IsTicked-then x y z (same p) (same q) = same (q ∙ p)
IsTicked-then x y z (same p) (broken w q r s) = broken w (sym p ∙ q) r s
IsTicked-then x y z (broken w p r s) (same q) = broken w p r (q ∙ s)
IsTicked-then x y z (broken w p r s) (broken w' p' r' s') =
    absurd (broken_again w w' (sym s ∙ p') r')

breaks :
    (id j : ℕ) (w : Worker) (staff staff' : Dict ℕ Worker)
    → ((id == j) ≡ true) ⊎ ((id == j) ≡ false)
    → Dict.get staff' j
      ≡ (if id == j then some (record w { lifecycle = faulted }) else Dict.get staff j)
    → Dict.get staff id ≡ some w
    → w.lifecycle ≡ running
    → IsTicked (Dict.get staff j) (Dict.get staff' j)
breaks id j w staff staff' (inl p) g e r =
    broken w (ap (Dict.get staff) (sym ((nat_beq_iff id j).0 p)) ∙ e) r (g ∙ rw p refl)
breaks id j w staff staff' (inr p) g e r = same (g ∙ rw p refl)

module _ (env : Environment) where
  after_on_tick-IsTicked :
      (x : Option Exn) (id : ℕ) (w : Worker) (c : Clock) (j : ℕ)
      → Dict.get c.staff id ≡ some w
      → w.lifecycle ≡ running
      → IsTicked (Dict.get c.staff j) (Dict.get (after_on_tick x id w c).staff j)
  after_on_tick-IsTicked none id w c j e r = same refl
  after_on_tick-IsTicked (some x) id w c j e r =
      let f = record w { lifecycle = faulted } in
      breaks id j w c.staff (Dict.put c.staff id f) (Bool-cases (id == j)) (get-put c.staff id j f)
        e r

  tick_worker_at-IsTicked :
      (x : WorkerState) (ctx : TickContext) (id : ℕ) (w : Worker) (c : Clock) (j : ℕ)
      → Dict.get c.staff id ≡ some w
      → w.lifecycle ≡ x
      → IsTicked (Dict.get c.staff j) (Dict.get (tick_worker_at env x ctx id w c).staff j)
  tick_worker_at-IsTicked running ctx id w c j e r =
      let t = env.on_tick w.name ctx c.world in
      after_on_tick-IsTicked t.0 id w (record c { world = t.1 }) j e r
  tick_worker_at-IsTicked unattached ctx id w c j e r = same refl
  tick_worker_at-IsTicked WorkerState.attached ctx id w c j e r = same refl
  tick_worker_at-IsTicked WorkerState.paused ctx id w c j e r = same refl
  tick_worker_at-IsTicked WorkerState.stopped ctx id w c j e r = same refl
  tick_worker_at-IsTicked faulted ctx id w c j e r = same refl

  tick_worker-IsTicked :
      (ctx : TickContext) (id : ℕ) (w : Option Worker) (c : Clock) (j : ℕ)
      → Dict.get c.staff id ≡ w
      → IsTicked (Dict.get c.staff j) (Dict.get (tick_worker env ctx id w c).staff j)
  tick_worker-IsTicked ctx id none c j e = same refl
  tick_worker-IsTicked ctx id (some w) c j e =
      tick_worker_at-IsTicked w.lifecycle ctx id w c j e refl

-- Ticking the workers changes no worker but one that was RUNNING, which is FAULTED.
tick_workers-IsTicked :
    (env : Environment) (ctx : TickContext) (ids : List ℕ) (c : Clock) (j : ℕ)
    → IsTicked (Dict.get c.staff j) (Dict.get (tick_workers env ctx ids c).staff j)
unfolding tick_workers
tick_workers-IsTicked env ctx [] c j = same refl
tick_workers-IsTicked env ctx (id ∷ rest) c j =
    let c' = tick_worker env ctx id (Dict.get c.staff id) c in
    IsTicked-then _ _ _ (tick_worker-IsTicked env ctx id (Dict.get c.staff id) c j refl)
      (tick_workers-IsTicked env ctx rest c' j)

-- A worker after a step of the clock, by what its `on_tick` does in a world: it is called if the worker
-- is RUNNING, and FAULTED is what a call that raises makes of it.
pub data HasTicked (env : Environment) (ctx : TickContext) (world : World) (w : Worker)
    : Option Worker → Type 0 where
  resting : w.lifecycle ≢ running → HasTicked env ctx world w (some w)
  returned :
      w.lifecycle ≡ running
      → (env.on_tick w.name ctx world).0 ≡ none
      → HasTicked env ctx world w (some w)
  raised :
      (e : Exn)
      → w.lifecycle ≡ running
      → (env.on_tick w.name ctx world).0 ≡ some e
      → HasTicked env ctx world w (some (record w { lifecycle = faulted }))

module _ (env : Environment) (ctx : TickContext) where
  -- a step on another worker
  after_on_tick-other :
      (x : Option Exn) (id : ℕ) (w : Worker) (c : Clock) (j : ℕ)
      → (id == j) ≡ false
      → Dict.get (after_on_tick x id w c).staff j ≡ Dict.get c.staff j
  after_on_tick-other none id w c j n = refl
  after_on_tick-other (some e) id w c j n =
      get-put c.staff id j (record w { lifecycle = faulted }) ∙ rw n refl

  tick_worker-other :
      (id : ℕ) (o : Option Worker) (c : Clock) (j : ℕ)
      → (id == j) ≡ false
      → Dict.get (tick_worker env ctx id o c).staff j ≡ Dict.get c.staff j
  tick_worker-other id none c j n = refl
  tick_worker-other id (some w) c j n = go w.lifecycle
    where
      go :
          (x : WorkerState)
          → Dict.get (tick_worker_at env x ctx id w c).staff j ≡ Dict.get c.staff j
      go running =
          let t = env.on_tick w.name ctx c.world in
          after_on_tick-other t.0 id w (record c { world = t.1 }) j n
      go unattached = refl
      go WorkerState.attached = refl
      go WorkerState.paused = refl
      go WorkerState.stopped = refl
      go faulted = refl

  tick_workers-others :
      (ids : List ℕ) (c : Clock) (j : ℕ)
      → member j ids ≡ false
      → Dict.get (tick_workers env ctx ids c).staff j ≡ Dict.get c.staff j
  unfolding tick_workers
  tick_workers-others [] c j n = refl
  tick_workers-others (id ∷ ids) c j n = elim (Bool-cases (id == j)) [
    | inl e ↦ absurd (ground (arith, n, e))
    | inr e ↦
        tick_workers-others ids (tick_worker env ctx id (Dict.get c.staff id) c) j
          (ground (arith, n, e))
        ∙ tick_worker-other id (Dict.get c.staff id) c j e
  ]

  tick_workers-append :
      (ids more : List ℕ) (c : Clock)
      → tick_workers env ctx (ids ++ more) c
        ≡ tick_workers env ctx more (tick_workers env ctx ids c)
  unfolding tick_workers
  tick_workers-append [] more c = refl
  tick_workers-append (id ∷ ids) more c =
      tick_workers-append ids more (tick_worker env ctx id (Dict.get c.staff id) c)

  after_on_tick-HasTicked :
      (x : Option Exn) (id : ℕ) (w : Worker) (c : Clock) (world : World)
      → Dict.get c.staff id ≡ some w
      → w.lifecycle ≡ running
      → (env.on_tick w.name ctx world).0 ≡ x
      → HasTicked env ctx world w (Dict.get (after_on_tick x id w c).staff id)
  after_on_tick-HasTicked none id w c world e r q = rw e (returned r q)
  after_on_tick-HasTicked (some x) id w c world e r q =
      rw (get-put c.staff id id (record w { lifecycle = faulted }), beq_self id) (raised x r q)

  tick_worker_at-HasTicked :
      (x : WorkerState) (id : ℕ) (w : Worker) (c : Clock)
      → Dict.get c.staff id ≡ some w
      → w.lifecycle ≡ x
      → HasTicked env ctx c.world w (Dict.get (tick_worker_at env x ctx id w c).staff id)
  tick_worker_at-HasTicked running id w c e r =
      let t = env.on_tick w.name ctx c.world in
      after_on_tick-HasTicked t.0 id w (record c { world = t.1 }) c.world e r refl
  tick_worker_at-HasTicked unattached id w c e r = rw e (resting (λ q. cc))
  tick_worker_at-HasTicked WorkerState.attached id w c e r = rw e (resting (λ q. cc))
  tick_worker_at-HasTicked WorkerState.paused id w c e r = rw e (resting (λ q. cc))
  tick_worker_at-HasTicked WorkerState.stopped id w c e r = rw e (resting (λ q. cc))
  tick_worker_at-HasTicked faulted id w c e r = rw e (resting (λ q. cc))

-- Ticking the workers, each in the world that those before it left: a worker of the list is as it was
-- if it is not RUNNING, or if its `on_tick` returns, and is FAULTED if it raises; whatever the `on_tick`
-- of the others do, before it and after it.
pub tick_workers-HasTicked :
    (env : Environment) (ctx : TickContext) (before after : List ℕ) (id : ℕ) (w : Worker)
    (c : Clock)
    → Dict.get c.staff id ≡ some w
    → member id before ≡ false
    → member id after ≡ false
    → HasTicked env ctx
        (tick_workers env ctx before c).world
        w
        (Dict.get (tick_workers env ctx (before ++ id ∷ after) c).staff id)
unfolding tick_workers
tick_workers-HasTicked env ctx before after id w c e b a =
    let c1 : Clock = tick_workers env ctx before c in
    let here : Dict.get c1.staff id ≡ some w = tick_workers-others env ctx before c id b ∙ e in
    let c2 : Clock = tick_worker env ctx id (Dict.get c1.staff id) c1 in
    let one : c2 ≡ tick_worker_at env w.lifecycle ctx id w c1 =
      ap (λ o. tick_worker env ctx id o c1) here in
    let all : Dict.get (tick_workers env ctx (before ++ id ∷ after) c).staff id
        ≡ Dict.get (tick_worker_at env w.lifecycle ctx id w c1).staff id =
      ap (λ x. Dict.get x.staff id) (tick_workers-append env ctx before (id ∷ after) c)
      ∙ tick_workers-others env ctx after c2 id a
      ∙ ap (λ x. Dict.get x.staff id) one in
    subst (HasTicked env ctx c1.world w) (sym all)
      (tick_worker_at-HasTicked env ctx w.lifecycle id w c1 here refl)

-- What `attach_worker` left, when the start of the worker raised `x` or nothing.
pub HasAttached : Option Exn → ℕ → Worker → List ℕ → Result (Unit {0}) → Clock → Type 0
HasAttached none id w workers r c' =
    (r ≡ ok tt)
    × (c'.workers ≡ workers ++ id ∷ [])
    × (Dict.get c'.staff id ≡ some (record w { lifecycle = running }))
HasAttached (some e) id w workers r c' =
    (r ≡ err e)
    × (c'.workers ≡ workers)
    × (Dict.get c'.staff id ≡ some (record w { lifecycle = faulted }))

finish_attach-HasAttached :
    (env : Environment) (x : Option Exn) (id : ℕ) (w : Worker) (c : Clock)
    → let (r, c') = finish_attach env x id w c in HasAttached x id w c.workers r c'
unfolding HasAttached
finish_attach-HasAttached env none id w c = (refl, refl, rw (get-put, beq_self id))
finish_attach-HasAttached env (some e) id w c = (refl, refl, rw (get-put, beq_self id))

attach_at-HasAttached :
    (env : Environment) (x : WorkerState) (m : Bool) (id : ℕ) (w : Worker) (c : Clock)
    → x ≡ unattached
    → m ≡ true
    → let (r, c') = attach_at env x m id w c in
      HasAttached (bring_up env w.name c.world).0 id w c.workers r c'
unfolding attach_at
attach_at-HasAttached env x m id w c p q =
    let t = bring_up env w.name c.world in
    rw (p, q) (finish_attach-HasAttached env t.0 id w (record c { world = t.1 }))

-- A worker that is UNATTACHED and whose pool mode is valid is then among the clock's workers and RUNNING if its start raised nothing; otherwise the
-- call raises the same, the worker is FAULTED, and the clock's workers are as they were.
attach_worker-HasAttached :
    (env : Environment) (id : ℕ) (w : Worker) (c : Clock)
    → w.lifecycle ≡ unattached
    → w.mode_ok ≡ true
    → let (r, c') = attach_worker env id w c in
      HasAttached (bring_up env w.name c.world).0 id w c.workers r c'
unfolding attach_worker
attach_worker-HasAttached env id w c p q =
    attach_at-HasAttached env w.lifecycle w.mode_ok id w c p q
