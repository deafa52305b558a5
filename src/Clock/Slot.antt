-- ===== src/Clock/Slot.antt =====
-- The one slot for a running Batch in worker/clock.py: `submit`, `kill`, `tick_once`, `shutdown`.
use auto_weaver.Prelude.{
  ℕ, ◌+◌, ◌≡◌, ◌≢◌, refl, sym, ap, ◌∙◌, ◌⊎◌, inl, inr, Bool, true, false, not, Option, none, some,
  List, [], ◌∷◌, arith, nat_eq, nat_beq_iff, if◌then◌else◌,
}
use auto_weaver.Dict
use auto_weaver.Dict.{Dict, get-put, beq_self}
use auto_weaver.Value.{Exn, Result, ok, err, runtime_error}
use auto_weaver.Exec.{Exec, ◌>>=◌, raise_if, raised_if, after_bind}
use auto_weaver.Tree.{TickContext, Handed}
use auto_weaver.Batch.{
  Batch, BatchState, ready, exited, BatchInfo, info, BatchResult, errored, Run, tick_batch,
}
use auto_weaver.Clock.{
  Environment, Worker, unattached, attached, running, paused, stopped, faulted, is_ready, is_empty,
  after_start, enter, WorkerState, Clock, announce, announce_option, broadcast, submit, kill,
  kill_option, detach, reap, store, member, after_batch, tick_option, tick_batches, tick_worker,
  tick_workers, tick_once, tick_worker_at, deliver, after_on_tick, shutdown,
}

-- The slot is free, or holds one batch that is in the heap and has not exited.
pub data IsSlot (c : Clock) : Type 0 where
  free : c.batches ≡ [] → IsSlot c
  taken :
      (id : ℕ) (b : Batch)
      → c.batches ≡ id ∷ []
      → Dict.get c.heap id ≡ some b
      → b.state ≢ exited
      → IsSlot c

-- the batch that holds the slot is updated, and leaves it if it has exited
reap-IsSlot :
    (id : ℕ) (s : Run) (c : Clock)
    → c.batches ≡ id ∷ []
    → IsSlot (reap s.batch.state id (store id s c))
unfolding detach
reap-IsSlot id s c e = go s.batch.state refl
  where
    found : Dict.get (Dict.put c.heap id s.batch) id ≡ some s.batch
    found = rw (get-put, beq_self id)

    go : (x : BatchState) → s.batch.state ≡ x → IsSlot (reap x id (store id s c))
    go exited q = free (rw (e, beq_self id))
    go ready q = taken id s.batch e found (λ f. cc)
    go BatchState.running q = taken id s.batch e found (λ f. cc)

after_batch-IsSlot :
    {A : Type 0} (env : Environment) (r : Result A) (id : ℕ) (s : Run) (c : Clock)
    → c.batches ≡ id ∷ []
    → IsSlot (after_batch env r id s c)
unfolding detach
after_batch-IsSlot env (ok st) id s c e = reap-IsSlot id s c e
after_batch-IsSlot env (err x) id s c e = free (rw (e, beq_self id))

-- the two fields that the slot is read from
keeps_IsSlot : (c c' : Clock) → c'.batches ≡ c.batches → c'.heap ≡ c.heap → IsSlot c → IsSlot c'
keeps_IsSlot c c' p q (free e) = free (p ∙ e)
keeps_IsSlot c c' p q (taken id b e f n) = taken id b (p ∙ e) (rw (q, f)) n

-- what starts a batch does to the clock
IsSame : Clock → Clock → Type 0
IsSame c c' = (c'.batches ≡ c.batches) × (c'.heap ≡ c.heap) × (c'.workers ≡ c.workers)

after_start-IsSame :
    (x : Option Exn) (id : ℕ) (w : Worker) (c : Clock) → IsSame c (after_start x id w c).1
unfolding IsSame
after_start-IsSame none id w c = (refl, refl, refl)
after_start-IsSame (some e) id w c = (refl, refl, refl)

IsSame-then : (c c' c'' : Clock) → IsSame c c' → IsSame c' c'' → IsSame c c''
unfolding IsSame
IsSame-then c c' c'' (p, q, r) (p', q', r') = (p' ∙ p, q' ∙ q, r' ∙ r)

same-IsSlot : (c c' : Clock) → IsSame c c' → IsSlot c → IsSlot c'
unfolding IsSame
same-IsSlot c c' (p, q, r) h = keeps_IsSlot c c' p q h

is_ready_live : (x : BatchState) → not (is_ready x) ≡ false → x ≢ exited
is_ready_live ready p = λ q. cc
is_ready_live exited p = λ q. cc
is_ready_live BatchState.running p = λ q. cc

empty_of : (l : List ℕ) → not (is_empty l) ≡ false → l ≡ []
empty_of [] p = refl
empty_of (x ∷ xs) p = absurd (cc)

raised_ok : (x : Bool) (e : Exn) (a : Unit) → raised_if x e ≡ ok a → x ≡ false
raised_ok true e a p = absurd (cc)
raised_ok false e a p = refl

enter-IsSlot :
    (b : Batch) (c : Clock) → not (is_ready b.state) ≡ false → c.batches ≡ [] → IsSlot (enter b c)
enter-IsSlot b c e f =
    taken b.id b (rw f refl) (rw (get-put, beq_self b.id)) (is_ready_live b.state e)

module _ (env : Environment) where
  announce-IsSame :
      (x : WorkerState) (i : BatchInfo) (id : ℕ) (w : Worker) (c : Clock)
      → IsSame c (announce env x i id w c).1
  unfolding announce IsSame
  announce-IsSame faulted i id w c = (refl, refl, refl)
  announce-IsSame unattached i id w c = after_start-IsSame _ id w _
  announce-IsSame attached i id w c = after_start-IsSame _ id w _
  announce-IsSame running i id w c = after_start-IsSame _ id w _
  announce-IsSame paused i id w c = after_start-IsSame _ id w _
  announce-IsSame stopped i id w c = after_start-IsSame _ id w _

  announce_option-IsSame :
      (i : BatchInfo) (id : ℕ) (w : Option Worker) (c : Clock)
      → IsSame c (announce_option env i id w c).1
  unfolding IsSame
  announce_option-IsSame i id none c = (refl, refl, refl)
  announce_option-IsSame i id (some w) c = announce-IsSame w.lifecycle i id w c

  broadcast-IsSame : (i : BatchInfo) (ids : List ℕ) (c : Clock) → IsSame c (broadcast env i ids c).1
  unfolding broadcast
  broadcast-IsSame i [] c = unfold IsSame in (refl, refl, refl)
  broadcast-IsSame i (id ∷ rest) c =
      let m = announce_option env i id (Dict.get c.staff id) in
      let h = announce_option-IsSame i id (Dict.get c.staff id) c in
      after_bind (IsSame c) m (λ _. broadcast env i rest) c h
        λ a _.
          IsSame-then c (m c).1 (broadcast env i rest (m c).1).1 h (broadcast-IsSame i rest (m c).1)

  submit-IsSlot : (b : Batch) (c : Clock) → IsSlot c → IsSlot (submit env b c).1
  unfolding submit
  submit-IsSlot b c h =
      after_bind IsSlot (raise_if (not (is_ready b.state)) runtime_error) _ c h λ _ e.
        after_bind IsSlot (raise_if (not (is_empty c.batches)) runtime_error) _ c h λ _ f.
          let m = broadcast env (info b) c.workers in
          let k = broadcast-IsSame (info b) c.workers c in
          after_bind IsSlot m _ c (same-IsSlot c (m c).1 k h) λ _ _.
            enter-IsSlot b (m c).1 (raised_ok _ _ _ e)
              (unfold IsSame in k.0 ∙ empty_of c.batches (raised_ok _ _ _ f))

  kill_option-IsSlot :
      (id : ℕ) (b : Option Batch) (c : Clock)
      → c.batches ≡ id ∷ []
      → IsSlot c
      → IsSlot (kill_option env id b c)
  kill_option-IsSlot id none c e h = h
  kill_option-IsSlot id (some b) c e h = reap-IsSlot id _ c e

  member_one : (id j : ℕ) → member id (j ∷ []) ≡ true → j ≡ id
  member_one id j p = ground (arith, nat_beq_iff j id)

  kill_if-IsSlot :
      (x : Bool) (id : ℕ) (c : Clock)
      → member id c.batches ≡ x
      → IsSlot c
      → IsSlot (if x then kill_option env id (Dict.get c.heap id) c else c)
  kill_if-IsSlot false id c p h = h
  kill_if-IsSlot true id c p (free e) = absurd (cc)
  kill_if-IsSlot true id c p (taken j b e f n) =
      kill_option-IsSlot id (Dict.get c.heap id) c
        (e ∙ ap (λ k. k ∷ []) (member_one id j (ap (member id) (sym e) ∙ p))) (taken j b e f n)

  kill-IsSlot : (id : ℕ) (c : Clock) → IsSlot c → IsSlot (kill env id c)
  unfolding kill
  kill-IsSlot id c h = kill_if-IsSlot (member id c.batches) id c refl h

  tick_option-IsSlot :
      (d : ℕ) (h : Handed) (id : ℕ) (b : Option Batch) (c : Clock)
      → c.batches ≡ id ∷ []
      → IsSlot c
      → IsSlot (tick_option env d h id b c)
  tick_option-IsSlot d h id none c e k = k
  tick_option-IsSlot d h id (some b) c e k =
      let t = tick_batch env.tracer d h (record { batch = b; world = c.world }) in
      after_batch-IsSlot env t.0 id t.1 c e

  tick_list-IsSlot :
      (d : ℕ) (ctx : TickContext) (l : List ℕ) (c : Clock)
      → c.batches ≡ l
      → IsSlot c
      → IsSlot (tick_batches env d ctx l c)
  unfolding tick_batches
  tick_list-IsSlot d ctx [] c e h = h
  tick_list-IsSlot d ctx (id ∷ []) c e h =
      tick_option-IsSlot d (record { snapshot = some c.world.world_board.current; ctx = some ctx })
        id (Dict.get c.heap id) c e h
  tick_list-IsSlot d ctx (id ∷ j ∷ l) c e (free f) = absurd (cc)
  tick_list-IsSlot d ctx (id ∷ j ∷ l) c e (taken k b f g n) = absurd (cc)

  after_on_tick-IsSame :
      (x : Option Exn) (id : ℕ) (w : Worker) (c : Clock) → IsSame c (after_on_tick x id w c)
  unfolding IsSame
  after_on_tick-IsSame none id w c = (refl, refl, refl)
  after_on_tick-IsSame (some e) id w c = (refl, refl, refl)

  tick_worker_at-IsSame :
      (x : WorkerState) (ctx : TickContext) (id : ℕ) (w : Worker) (c : Clock)
      → IsSame c (tick_worker_at env x ctx id w c)
  unfolding IsSame
  tick_worker_at-IsSame running ctx id w c = unfold IsSame in after_on_tick-IsSame _ id w _
  tick_worker_at-IsSame unattached ctx id w c = (refl, refl, refl)
  tick_worker_at-IsSame attached ctx id w c = (refl, refl, refl)
  tick_worker_at-IsSame paused ctx id w c = (refl, refl, refl)
  tick_worker_at-IsSame stopped ctx id w c = (refl, refl, refl)
  tick_worker_at-IsSame faulted ctx id w c = (refl, refl, refl)

  tick_worker-IsSame :
      (ctx : TickContext) (id : ℕ) (w : Option Worker) (c : Clock)
      → IsSame c (tick_worker env ctx id w c)
  tick_worker-IsSame ctx id none c = unfold IsSame in (refl, refl, refl)
  tick_worker-IsSame ctx id (some w) c = tick_worker_at-IsSame w.lifecycle ctx id w c

  tick_workers-IsSame :
      (ctx : TickContext) (ids : List ℕ) (c : Clock) → IsSame c (tick_workers env ctx ids c)
  unfolding tick_workers
  tick_workers-IsSame ctx [] c = unfold IsSame in (refl, refl, refl)
  tick_workers-IsSame ctx (id ∷ rest) c =
      IsSame-then c _ _ (tick_worker-IsSame ctx id (Dict.get c.staff id) c)
        (tick_workers-IsSame ctx rest (tick_worker env ctx id (Dict.get c.staff id) c))

  tick_once-IsSlot : (now d : ℕ) (c : Clock) → IsSlot c → IsSlot (tick_once env now d c).1
  unfolding tick_once
  tick_once-IsSlot now d c h =
      let ctx : TickContext = (tick_once env now d c).0 in
      let c1 : Clock = record c {
        last_tick_ts = some now;
        tick_id = c.tick_id + 1;
        world = deliver env (env.drain_pools c.world);
      } in
      let c2 = tick_batches env d ctx c1.batches c1 in
      same-IsSlot c2 (tick_workers env ctx c2.workers c2) (tick_workers-IsSame ctx c2.workers c2)
        (tick_list-IsSlot d ctx c1.batches c1 refl (keeps_IsSlot c c1 refl refl h))

-- At most one batch is attached to a clock, it is in the heap, and it has not exited: `submit`,
-- `kill` and `tick_once` keep this, whatever the workers, the receivers and the tracer do, and
-- `shutdown` leaves no batch.
pub calls-IsSlot :
    (env : Environment) (c : Clock)
    → IsSlot c
    → ((b : Batch) → IsSlot (submit env b c).1)
      × ((id : ℕ) → IsSlot (kill env id c))
      × ((now d : ℕ) → IsSlot (tick_once env now d c).1)
      × ((shutdown env c).batches ≡ [])
unfolding shutdown
calls-IsSlot env c h = (
  λ b. submit-IsSlot env b c h,
  λ id. kill-IsSlot env id c h,
  λ now d. tick_once-IsSlot env now d c h,
  refl,
)

refuse :
    (x : Bool) (f : Unit → Exec Clock Unit) (c : Clock)
    → f tt c ≡ (err runtime_error, c)
    → (raise_if x runtime_error >>= f) c ≡ (err runtime_error, c)
refuse true f c e = refl
refuse false f c e = e

refuse_taken :
    (l : List ℕ) (f : Unit → Exec Clock Unit) (c : Clock)
    → l ≢ []
    → (raise_if (not (is_empty l)) runtime_error >>= f) c ≡ (err runtime_error, c)
refuse_taken [] f c n = absurd (n refl)
refuse_taken (x ∷ l) f c n = refl

-- `submit` on a clock that has a batch, or of a batch that is not READY, raises and changes nothing.
submit_refused :
    (env : Environment) (b : Batch) (c : Clock)
    → (is_ready b.state ≡ false) ⊎ (c.batches ≢ [])
    → submit env b c ≡ (err runtime_error, c)
unfolding submit
submit_refused env b c (inl p) = rw p refl
submit_refused env b c (inr p) = refuse (not (is_ready b.state)) _ c (refuse_taken c.batches _ c p)

-- The slot is free, and the batch has ended with the exception.
pub HasBroken : Exn → ℕ → Clock → Type 0
HasBroken x id c =
    (c.batches ≡ [])
    × ((b : Batch) × (o : BatchResult) × (Dict.get c.heap id ≡ some b)
        × (b.state ≡ exited)
        × (b.result ≡ some o)
        × (o.reason ≡ errored)
        × (o.exception ≡ some x))
