-- ===== src/Tree/Walk/Quiet/Timers.antt =====
-- The invariant at the decorators: a RUNNING Timeout has its start time and a tick context.
use auto_weaver.Prelude.{
  ℕ, ◌+◌, ◌-◌, ◌≡◌, refl, sym, ◌∙◌, ◌≢◌, inl, inr, ◌⊎◌, Option, none, some, [], ◌∷◌, arith, Bool,
  true, false, leb, ltb, if◌then◌else◌, length,
}
use auto_weaver.Value.{Exn, Result, ok, err}
use auto_weaver.Tree.Types.{
  Status, success, failure, running, idle, World, Base, Handed, TickContext, Decorator, inverter,
  force_success, retry, repeat, timeout, repeat_until, foreach, Node,
}
use auto_weaver.Tree.Leaf.{time_of, snapshot_of}
use auto_weaver.WorldBoard.{Snapshot}
use auto_weaver.Blackboard.{Blackboard}
use auto_weaver.Tree.Decorator.{
  Plan, leave, stop, go, Before, After, expire, start_at, check_at, test_at, start_decorator,
  resume_decorator, after_child, invert, force,
}
use auto_weaver.Tree.Walk.{
  halt, hand, or_raised, finish_decorator, finish_halting, finish_after, after_tick, follow_plan,
  tick_decorator, enter_decorator,
}
use auto_weaver.Tree.Walk.Calm.{IsBetween, IsIdle, halt-IsIdle}
use auto_weaver.Tree.Walk.Quiet.{IsSettled, IsReady, IsCalm, IsSettled-idle, IsLive-settled}

handed_ctx :
    (given old : Option TickContext)
    → ((c : TickContext) × (old ≡ some c))
    → (c : TickContext) × (elim given as (λ _. Option TickContext) [ none ↦ old | some c ↦ some c ]
        ≡ some c)
handed_ctx none old h = h
handed_ctx (some c) old h = (c, refl)

-- what was handed in an earlier tick stays
pub IsReady-hand : (h : Handed) (b : Base) (d : Decorator) → IsReady d b → IsReady d (hand h b)
IsReady-hand h b (timeout n s) r = (r.0, handed_ctx h.ctx b.handed.ctx r.1)
IsReady-hand h b inverter r = tt
IsReady-hand h b _ r = tt

-- What a decorator may plan: to tick the child only with what a Timeout needs, and otherwise to end.
pub record IsSound (b : Base) (p : Before) : Type 0 where
  pub ready : p.plan ≡ go → IsReady p.attributes b
  pub ends : p.plan ≢ go → p.outcome ≢ ok running

expire-IsSound :
    (x : Bool) (n t : ℕ) (b : Base) (w : World)
    → ((c : TickContext) × (b.handed.ctx ≡ some c))
    → IsSound b (expire x n t w) × ((expire x n t w).plan ≢ leave)
expire-IsSound true n t b w c = (record { ready = λ e. absurd (cc); ends = λ e f. cc }, λ e. cc)
expire-IsSound false n t b w c =
    (record { ready = λ e. ((t, refl), c); ends = λ e. absurd (e refl) }, λ e. cc)

start_at-IsSound :
    (x : Option TickContext) (n : ℕ) (s : Option ℕ) (b : Base) (w : World)
    → b.handed.ctx ≡ x
    → IsSound b (start_at (time_of x) n s w)
start_at-IsSound none n s b w e = record { ready = λ q. absurd (cc); ends = λ q f. cc }
start_at-IsSound (some c) n s b w e =
    (expire-IsSound (ltb n (c.timestamp - c.timestamp)) n c.timestamp b w (c, e)).0

check_at-IsSound :
    (x : Option TickContext) (n : ℕ) (s : Option ℕ) (b : Base) (w : World)
    → b.handed.ctx ≡ x
    → IsReady (timeout n s) b
    → IsSound b (check_at (time_of x) n s w) × ((check_at (time_of x) n s w).plan ≢ leave)
check_at-IsSound none n s b w e r = absurd (let (c, q) = r.1 in cc)
check_at-IsSound (some c) n none b w e r = absurd (let (t, q) = r.0 in cc)
check_at-IsSound (some c) n (some t) b w e r =
    expire-IsSound (ltb n (c.timestamp - t)) n t b w (c, e)

start_decorator-IsSound : (d : Decorator) (b : Base) (w : World) → IsSound b (start_decorator d b w)
unfolding start_decorator
start_decorator-IsSound (timeout n s) b w = start_at-IsSound b.handed.ctx n s b w refl
start_decorator-IsSound (foreach key [] i) b w = record { ready = λ e. tt; ends = λ e. λ f. cc }
start_decorator-IsSound (foreach key (v ∷ rest) i) b w = record {
  ready = λ e. tt;
  ends = ground arith;
}
start_decorator-IsSound inverter b w = record { ready = λ e. tt; ends = λ e. absurd (e refl) }
start_decorator-IsSound _ b w = record { ready = λ e. tt; ends = λ e. absurd (e refl) }

-- a RUNNING decorator that is ready never leaves its child as it is
resume_decorator-IsSound :
    (d : Decorator) (b : Base) (w : World)
    → IsReady d b
    → IsSound b (resume_decorator d b w) × ((resume_decorator d b w).plan ≢ leave)
unfolding resume_decorator
resume_decorator-IsSound (timeout n s) b w r = check_at-IsSound b.handed.ctx n s b w refl r
resume_decorator-IsSound inverter b w r =
    (record { ready = λ e. tt; ends = λ e. absurd (e refl) }, λ e. cc)
resume_decorator-IsSound _ b w r =
    (record { ready = λ e. tt; ends = λ e. absurd (e refl) }, λ e. cc)

-- A child that is RUNNING keeps its decorator RUNNING, ready, and is not halted.
after_child-running :
    (d : Decorator) (b : Base) (w : World)
    → IsReady d b
    → let a = after_child d b running w in
      (a.outcome ≡ ok running) × (a.halt_child ≡ false) × IsReady a.attributes b
unfolding after_child invert force
after_child-running (timeout n s) b w r = (refl, refl, r)
after_child-running inverter b w r = (refl, refl, tt)
after_child-running _ b w r = (refl, refl, tt)

if_IsReady :
    (b : Base) (x : Bool) (p q : After)
    → IsReady p.attributes b
    → IsReady q.attributes b
    → IsReady (if x then p else q).attributes b
if_IsReady b true p q hp hq = hp
if_IsReady b false p q hp hq = hq

test_at-IsReady :
    (r : Result Snapshot) (f : Option Snapshot → Blackboard → Result Bool) (b : Base) (w : World)
    → IsReady (test_at r f w).attributes b
test_at-IsReady (ok s) f b w = tt
test_at-IsReady (err e) f b w = tt

-- No Timeout stays RUNNING once its child has ended.
after_child-IsReady :
    (d : Decorator) (b : Base) (s : Status) (w : World)
    → s ≢ running
    → (after_child d b s w).outcome ≡ ok running
    → IsReady (after_child d b s w).attributes b
unfolding after_child
after_child-IsReady (timeout n t) b running w ne e = absurd (ne refl)
after_child-IsReady (timeout n t) b success w ne e = cc
after_child-IsReady (timeout n t) b failure w ne e = cc
after_child-IsReady (timeout n t) b idle w ne e = cc
after_child-IsReady inverter b s w ne e = tt
after_child-IsReady force_success b s w ne e = tt
after_child-IsReady (retry m a) b running w ne e = absurd (ne refl)
after_child-IsReady (retry m a) b success w ne e = tt
after_child-IsReady (retry m a) b _ w ne e = if_IsReady b (leb m (a + 1)) _ _ tt tt
after_child-IsReady (repeat m a) b running w ne e = absurd (ne refl)
after_child-IsReady (repeat m a) b failure w ne e = tt
after_child-IsReady (repeat m a) b _ w ne e = if_IsReady b (leb m (a + 1)) _ _ tt tt
after_child-IsReady (repeat_until f) b running w ne e = absurd (ne refl)
after_child-IsReady (repeat_until f) b failure w ne e = tt
after_child-IsReady (repeat_until f) b _ w ne e = test_at-IsReady (snapshot_of b.handed) f b w
after_child-IsReady (foreach k l i) b running w ne e = absurd (ne refl)
after_child-IsReady (foreach k l i) b failure w ne e = tt
after_child-IsReady (foreach k l i) b _ w ne e = if_IsReady b (leb (length l) (i + 1)) _ _ tt tt

IsReady-status :
    (d : Decorator) (b : Base) (s : Status) → IsReady d b → IsReady d (record b { status = s })
IsReady-status (timeout n t) b s r = r
IsReady-status inverter b s r = tt
IsReady-status _ b s r = tt

-- The end of a decorator's tick.
IsCalm-finish_decorator :
    (b : Base) (o : Result Status) (d : Decorator) (c : Node) (w : World)
    → IsSettled c
    → (o ≢ ok running → IsIdle c)
    → (o ≡ ok running → IsReady d b)
    → IsCalm (finish_decorator b o d c w)
unfolding IsSettled IsIdle
IsCalm-finish_decorator b (err x) d c w h i r =
    let calm : IsIdle c = i (λ q. cc) in
    record { settled = (inl refl, λ _. calm, λ q. cc, h); rests = λ _. (refl, calm) }
IsCalm-finish_decorator b (ok running) d c w h i r = record {
  settled = (inr refl, λ q. cc, λ _. IsReady-status d b running (r refl), h);
  rests = λ n. absurd (n refl);
}
IsCalm-finish_decorator b (ok success) d c w h i r =
    let calm : IsIdle c = i (λ q. cc) in
    record { settled = (inl refl, λ _. calm, λ q. cc, h); rests = λ _. (refl, calm) }
IsCalm-finish_decorator b (ok failure) d c w h i r =
    let calm : IsIdle c = i (λ q. cc) in
    record { settled = (inl refl, λ _. calm, λ q. cc, h); rests = λ _. (refl, calm) }
IsCalm-finish_decorator b (ok idle) d c w h i r =
    let calm : IsIdle c = i (λ q. cc) in
    record { settled = (inl refl, λ _. calm, λ q. cc, h); rests = λ _. (refl, calm) }

or_raised_ne : (x : Option Exn) (o : Result Status) → x ≡ none → or_raised x o ≡ o
or_raised_ne none o e = refl
or_raised_ne (some x) o e = cc

IsCalm-finish_halting :
    (b : Base) (o : Result Status) (d : Decorator) (c : Node) (w : World)
    → IsSettled c
    → (o ≡ ok running → IsReady d b)
    → IsCalm (finish_halting b o d c w)
IsCalm-finish_halting b o d c w h r =
    let (none_raised, calm) = halt-IsIdle c w (IsLive-settled c h) in
    let same : or_raised (halt c w).0 o ≡ o = or_raised_ne (halt c w).0 o none_raised in
    IsCalm-finish_decorator b (or_raised (halt c w).0 o) d (halt c w).1 (halt c w).2
      (IsSettled-idle (halt c w).1 calm) (λ _. calm) λ e. r (sym same ∙ e)

IsCalm-finish_after :
    (x : Bool) (b : Base) (a : After) (c : Node)
    → a.halt_child ≡ x
    → IsSettled c
    → (a.outcome ≢ ok running → IsIdle c)
    → (a.outcome ≡ ok running → IsReady a.attributes b)
    → IsCalm (finish_after x b a c)
IsCalm-finish_after true b a c e h i r =
    IsCalm-finish_halting b a.outcome a.attributes c a.world h r
IsCalm-finish_after false b a c e h i r =
    IsCalm-finish_decorator b a.outcome a.attributes c a.world h i r

pub Status-running : (s : Status) → (s ≡ running) ⊎ (s ≢ running)
Status-running running = inl refl
Status-running success = inr (λ e. cc)
Status-running failure = inr (λ e. cc)
Status-running idle = inr (λ e. cc)

IsCalm-after_tick :
    (b : Base) (d : Decorator) (t : Status × Node × World)
    → IsReady d b
    → IsCalm t
    → IsCalm (after_tick b d t)
unfolding after_tick
IsCalm-after_tick b d (s, c, w) r h = elim (Status-running s) [
  | inl e ↦
      let (out, keep, ready) = after_child-running d b w r in
      rw e (
        IsCalm-finish_after (after_child d b running w).halt_child b (after_child d b running w) c
          refl h.settled (λ n. absurd (n out)) (λ _. ready))
  | inr n ↦
      IsCalm-finish_after (after_child d b s w).halt_child b (after_child d b s w) c refl h.settled
        (λ _. h.rests n) (after_child-IsReady d b s w n)
]

IsCalm-follow_plan :
    (p : Plan) (b : Base) (q : Before) (c : Node) (t : Status × Node × World)
    → q.plan ≡ p
    → IsSound b q
    → (p ≡ leave → IsIdle c)
    → IsSettled c
    → IsCalm t
    → IsCalm (follow_plan p b q c t)
unfolding follow_plan
IsCalm-follow_plan go b q c t e s i h k = IsCalm-after_tick b q.attributes t (s.ready e) k
IsCalm-follow_plan stop b q c t e s i h k =
    IsCalm-finish_halting b q.outcome q.attributes c q.world h λ o. absurd (s.ends (λ f. cc) o)
IsCalm-follow_plan leave b q c t e s i h k =
    IsCalm-finish_decorator b q.outcome q.attributes c q.world h (λ _. i refl)
      λ o. absurd (s.ends (λ f. cc) o)

-- A decorator's tick keeps the invariant, if the tick of its child does.
pub IsCalm-tick_decorator :
    (s : Status) (b : Base) (d : Decorator) (c : Node) (w : World) (t : Status × Node × World)
    → IsBetween s
    → (s ≡ idle → IsIdle c)
    → (s ≡ running → IsReady d b)
    → IsSettled c
    → IsCalm t
    → IsCalm (tick_decorator s b d (enter_decorator s d b w) c w t)
unfolding tick_decorator
IsCalm-tick_decorator idle b d c w t l i r h k =
    let q : Before = start_decorator d b w in
    IsCalm-follow_plan q.plan b q c t refl (start_decorator-IsSound d b w) (λ _. i refl) h k
IsCalm-tick_decorator running b d c w t l i r h k =
    let q : Before = resume_decorator d b w in
    let (sound, stays) = resume_decorator-IsSound d b w (r refl) in
    IsCalm-follow_plan q.plan b q c t refl sound (λ e. absurd (stays e)) h k
IsCalm-tick_decorator success b d c w t l i r h k = absurd (ground arith)
IsCalm-tick_decorator failure b d c w t l i r h k = absurd (ground arith)
