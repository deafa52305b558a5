-- ===== src/Tree/Walk/Quiet/Rounds.antt =====
-- The invariant over the children of a control node.
use auto_weaver.Prelude.{
  ℕ, suc, ◌+◌, ◌≡◌, refl, ap, ◌∙◌, ◌≢◌, inl, inr, Option, none, some, arith, Bool, true, false, leb,
  ltb, if◌then◌else◌,
}
use auto_weaver.Value.{Exn, Result, ok, err}
use auto_weaver.Tree.Types.{
  Status, success, failure, running, idle, World, Base, Control, sequence, fallback, premise,
  parallel, Node, leaf, control, decorator, Nodes, nil, cons, base_of,
}
use auto_weaver.Tree.Walk.{
  Round, Tally, halt_all, halt_if_running, halt_running, raised_or, halt_rest, behind, judged,
  judge_parallel, count_nodes, count_status, finish_control, next_in_sequence, next_in_fallback,
  next_in_premise,
}
use auto_weaver.Tree.Walk.Calm.{
  IsBetween, IsIdle, AreIdle, AreLive, halt-IsIdle, halt_all-AreIdle, next_halt-AreIdle,
}
use auto_weaver.Tree.Walk.Quiet.{
  IsSettled, AreSettled, PrefixIdle, index_of, IsCalm, AreSettled-idle, AreLive-settled,
  IsLive-settled, IsIdle-settled,
}

-- What a round leaves: settled children, all IDLE unless the outcome is RUNNING.
pub record IsRested (r : Round) : Type 0 where
  pub settled : AreSettled r.children
  pub rests : r.outcome ≢ ok running → AreIdle r.children

-- A round that returns RUNNING stands at the child at `pos + j`, and those before it are IDLE.
abbrev pub StandsAt : (ℕ → Control) → ℕ → Round → Type 0
StandsAt K pos r =
    r.outcome ≡ ok running → (j : ℕ) × (r.attributes ≡ K (pos + j)) × PrefixIdle j r.children

raised_or_ne : (x : Option Exn) (s : Status) → s ≢ running → raised_or x s ≢ ok running
raised_or_ne none s n e = n (cc)
raised_or_ne (some x) s n e = cc

module _ (c : Node) (cs : Nodes) (w : World) where
  -- a round that stops at `c` and halts those behind it
  pub IsRested-halt_rest :
      (s : Status) (k : Control) → IsIdle c → AreLive cs → IsRested (halt_rest s k c cs w)
  unfolding IsIdle
  IsRested-halt_rest s k i l =
      let calm : AreIdle (cons c (halt_all cs w).1) = (i, (halt_all-AreIdle cs w l).1) in
      record { settled = AreSettled-idle (cons c (halt_all cs w).1) calm; rests = λ _. calm }

  pub IsRested-pause :
      (k : Control)
      → IsSettled c
      → AreSettled cs
      → IsRested (record { outcome = ok running; attributes = k; children = cons c cs; world = w })
  unfolding IsSettled
  IsRested-pause k h hs = record { settled = (h, hs); rests = λ n. absurd (n refl) }

pub IsRested-behind :
    (c : Node) (r : Round) → IsIdle c → IsSettled c → IsRested r → IsRested (behind c r)
unfolding IsSettled IsIdle
IsRested-behind c r i h hr = record { settled = (h, hr.settled); rests = λ n. (i, hr.rests n) }

pub StandsAt-behind :
    (K : ℕ → Control) (pos : ℕ) (c : Node) (r : Round)
    → IsIdle c
    → StandsAt K (suc pos) r
    → StandsAt K pos (behind c r)
StandsAt-behind K pos c r i h e =
    let (j, a, p) = h e in
    let shift : suc pos + j ≡ pos + suc j = omega arith in (suc j, a ∙ ap K shift, (i, p))

StandsAt-pause :
    (K : ℕ → Control) (pos : ℕ) (cs : Nodes) (w : World)
    → StandsAt K pos (record { outcome = ok running; attributes = K pos; children = cs; world = w })
StandsAt-pause K pos cs w e = let same : pos ≡ pos + 0 = omega arith in (0, ap K same, tt)

module _ (pos : ℕ) (c : Node) (cs : Nodes) (w : World) (rest : Round) where
  pub sequence-IsRested :
      (s : Status)
      → IsSettled c
      → (s ≢ running → IsIdle c)
      → AreSettled cs
      → IsRested rest
      → IsRested (next_in_sequence s pos c cs w rest)
  unfolding next_in_sequence
  sequence-IsRested failure h i hs hr =
      IsRested-halt_rest c cs w failure (sequence 0) (i (λ e. cc)) (AreLive-settled cs hs)
  sequence-IsRested running h i hs hr = IsRested-pause c cs w (sequence pos) h hs
  sequence-IsRested success h i hs hr = IsRested-behind c rest (i (λ e. cc)) h hr
  sequence-IsRested idle h i hs hr = IsRested-behind c rest (i (λ e. cc)) h hr

  pub sequence-StandsAt :
      (s : Status)
      → (s ≢ running → IsIdle c)
      → StandsAt sequence (suc pos) rest
      → StandsAt sequence pos (next_in_sequence s pos c cs w rest)
  unfolding next_in_sequence
  sequence-StandsAt failure i h e = absurd (raised_or_ne (halt_all cs w).0 failure (λ e. cc) e)
  sequence-StandsAt running i h e = StandsAt-pause sequence pos (cons c cs) w e
  sequence-StandsAt success i h e = StandsAt-behind sequence pos c rest (i (λ e. cc)) h e
  sequence-StandsAt idle i h e = StandsAt-behind sequence pos c rest (i (λ e. cc)) h e

  pub fallback-IsRested :
      (s : Status)
      → IsSettled c
      → (s ≢ running → IsIdle c)
      → AreSettled cs
      → IsRested rest
      → IsRested (next_in_fallback s pos c cs w rest)
  unfolding next_in_fallback
  fallback-IsRested success h i hs hr =
      IsRested-halt_rest c cs w success (fallback 0) (i (λ e. cc)) (AreLive-settled cs hs)
  fallback-IsRested running h i hs hr = IsRested-pause c cs w (fallback pos) h hs
  fallback-IsRested failure h i hs hr = IsRested-behind c rest (i (λ e. cc)) h hr
  fallback-IsRested idle h i hs hr = IsRested-behind c rest (i (λ e. cc)) h hr

  pub fallback-StandsAt :
      (s : Status)
      → (s ≢ running → IsIdle c)
      → StandsAt fallback (suc pos) rest
      → StandsAt fallback pos (next_in_fallback s pos c cs w rest)
  unfolding next_in_fallback
  fallback-StandsAt success i h e = absurd (raised_or_ne (halt_all cs w).0 success (λ e. cc) e)
  fallback-StandsAt running i h e = StandsAt-pause fallback pos (cons c cs) w e
  fallback-StandsAt failure i h e = StandsAt-behind fallback pos c rest (i (λ e. cc)) h e
  fallback-StandsAt idle i h e = StandsAt-behind fallback pos c rest (i (λ e. cc)) h e

  pub premise-IsRested :
      (s : Status)
      → IsSettled c
      → (s ≢ running → IsIdle c)
      → AreSettled cs
      → IsRested rest
      → IsRested (next_in_premise s c cs w rest)
  unfolding next_in_premise
  premise-IsRested failure h i hs hr =
      IsRested-halt_rest c cs w failure premise (i (λ e. cc)) (AreLive-settled cs hs)
  premise-IsRested running h i hs hr = IsRested-pause c cs w premise h hs
  premise-IsRested success h i hs hr = IsRested-behind c rest (i (λ e. cc)) h hr
  premise-IsRested idle h i hs hr = IsRested-behind c rest (i (λ e. cc)) h hr

-- a child that is RUNNING is halted, one that is IDLE is so throughout
halt_if_running-IsIdle :
    (s : Status) (c : Node) (w : World)
    → (base_of c).status ≡ s
    → IsBetween s
    → IsSettled c
    → ((halt_if_running s c w).0 ≡ none) × IsIdle (halt_if_running s c w).1
halt_if_running-IsIdle running c w e b h = halt-IsIdle c w (IsLive-settled c h)
halt_if_running-IsIdle idle c w e b h = (refl, IsIdle-settled c h e)
halt_if_running-IsIdle success c w e b h = absurd (ground arith)
halt_if_running-IsIdle failure c w e b h = absurd (ground arith)

IsBetween-settled : (c : Node) → IsSettled c → IsBetween (base_of c).status
unfolding IsSettled
IsBetween-settled (leaf b l) h = h.0
IsBetween-settled (control b k e cs) h = h.0
IsBetween-settled (decorator b d c) h = h.0

halt_running-idle :
    (cs : Nodes) (w : World)
    → AreSettled cs
    → ((halt_running cs w).0 ≡ none) × AreIdle (halt_running cs w).1
unfolding halt_running IsSettled IsIdle
halt_running-idle nil w h = (refl, tt)
halt_running-idle (cons c cs) w h =
    let t : Option Exn × Node × World = halt_if_running (base_of c).status c w in
    let one = halt_if_running-IsIdle (base_of c).status c w refl (IsBetween-settled c h.0) h.0 in
    let rest = halt_running-idle cs t.2 h.1 in
    next_halt-AreIdle t.0 t.1 cs t.2 (halt_running cs t.2) one.0 one.1 rest.0 rest.1

IsRested-judged :
    (s : Status) (n : ℕ) (cs : Nodes) (w : World) → AreSettled cs → IsRested (judged s n cs w)
IsRested-judged s n cs w h =
    let calm = (halt_running-idle cs w h).1 in
    record { settled = AreSettled-idle (halt_running cs w).1 calm; rests = λ _. calm }

if_both : (P : Round → Type 0) (b : Bool) (x y : Round) → P x → P y → P (if b then x else y)
if_both P true x y p q = p
if_both P false x y p q = q

pub IsRested-judge_parallel :
    (n : ℕ) (t : Tally) → AreSettled t.children → IsRested (judge_parallel n t)
unfolding judge_parallel
IsRested-judge_parallel n t h =
    if_both IsRested (leb n t.successes) _ _ (IsRested-judged success n t.children t.world h) (
      if_both IsRested (ltb (count_nodes t.children) (t.failures + n)) _ _
        (IsRested-judged failure n t.children t.world h)
        (record { settled = h; rests = λ m. absurd (m refl) }))

-- The end of a control node's tick.
pub IsCalm-finish_control :
    (b : Base) (e : Bool) (o : Result Status) (k : Control) (cs : Nodes) (w : World)
    → AreSettled cs
    → (o ≢ ok running → AreIdle cs)
    → (o ≡ ok running → PrefixIdle (index_of k) cs)
    → IsCalm (finish_control b e (record { outcome = o; attributes = k; children = cs; world = w }))
unfolding IsSettled IsIdle
IsCalm-finish_control b e (err x) k cs w h i p =
    let calm : AreIdle cs = i (λ q. cc) in
    record { settled = (inl refl, λ _. calm, λ q. cc, h); rests = λ _. (refl, calm) }
IsCalm-finish_control b e (ok running) k cs w h i p = record {
  settled = (inr refl, λ q. cc, λ _. p refl, h);
  rests = λ n. absurd (n refl);
}
IsCalm-finish_control b e (ok success) k cs w h i p =
    let calm : AreIdle cs = i (λ q. cc) in
    record { settled = (inl refl, λ _. calm, λ q. cc, h); rests = λ _. (refl, calm) }
IsCalm-finish_control b e (ok failure) k cs w h i p =
    let calm : AreIdle cs = i (λ q. cc) in
    record { settled = (inl refl, λ _. calm, λ q. cc, h); rests = λ _. (refl, calm) }
IsCalm-finish_control b e (ok idle) k cs w h i p =
    let calm : AreIdle cs = i (λ q. cc) in
    record { settled = (inl refl, λ _. calm, λ q. cc, h); rests = λ _. (refl, calm) }

pub attributes-next_in_premise :
    (s : Status) (c : Node) (cs : Nodes) (w : World) (rest : Round)
    → rest.attributes ≡ premise
    → (next_in_premise s c cs w rest).attributes ≡ premise
unfolding next_in_premise
attributes-next_in_premise failure c cs w rest h = refl
attributes-next_in_premise running c cs w rest h = refl
attributes-next_in_premise success c cs w rest h = h
attributes-next_in_premise idle c cs w rest h = h

pub attributes-judge_parallel : (n : ℕ) (t : Tally) → (judge_parallel n t).attributes ≡ parallel n
unfolding judge_parallel
attributes-judge_parallel n t =
    if_both (λ r. r.attributes ≡ parallel n) (leb n t.successes) _ _ refl
      (if_both (λ r. r.attributes ≡ parallel n) (ltb (count_nodes t.children) (t.failures + n)) _ _
        refl refl)

pub children-count_status : (s : Status) (t : Tally) → (count_status s t).children ≡ t.children
children-count_status success t = refl
children-count_status failure t = refl
children-count_status running t = refl
children-count_status idle t = refl
