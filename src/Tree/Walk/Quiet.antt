-- ===== src/Tree/Walk/Quiet.antt =====
-- A tick that ends a tree leaves no node of it RUNNING: the invariant of
-- motion_policy/nodes/node.py, control/ and decorator/ between two ticks.
pub mod Rounds
pub mod Timers
pub mod Ticks
use auto_weaver.Prelude.{
  ℕ, zero, suc, ◌+◌, ◌≡◌, refl, sym, ap, ◌⊎◌, inl, inr, ◌≢◌, Option, none, some, arith, Bool, true,
  false, ◌∙◌,
}
use auto_weaver.Value.{Exn, Result, ok, err}
use auto_weaver.Tree.Types.{
  Status, success, failure, running, idle, World, Base, Handed, Leaf, Control, sequence, fallback,
  premise, parallel, Decorator, Node, leaf, control, decorator, Nodes, nil, cons, base_of,
  TickContext,
}
use auto_weaver.Tree.Walk.Calm.{IsBetween, IsQuiet, IsIdle, AreIdle, IsLive, AreLive}

-- The attributes of a decorator that is RUNNING: a Timeout has its start time, and a tick context.
abbrev pub IsReady : Decorator → Base → Type 0
IsReady (Decorator.timeout seconds start) b =
    ((t : ℕ) × (start ≡ some t)) × ((c : TickContext) × (b.handed.ctx ≡ some c))
IsReady _ b = Unit

-- The first `n` of the children are IDLE throughout.
abbrev pub PrefixIdle : ℕ → Nodes → Type 0
PrefixIdle zero cs = Unit
PrefixIdle (suc n) nil = Unit
PrefixIdle (suc n) (cons c cs) = IsIdle c × PrefixIdle n cs

abbrev pub index_of : Control → ℕ
index_of (sequence i) = i
index_of (fallback i) = i
index_of _ = 0

-- The invariant between two ticks: every node is IDLE or RUNNING, no leaf raises when halted, below
-- an IDLE node all is IDLE, before the index of a RUNNING Sequence or Fallback all is IDLE, and a
-- RUNNING Timeout has what it compares.
unfoldable mutual
  pub IsSettled : Node → Type 0
  IsSettled (leaf b l) = IsBetween b.status × IsQuiet l
  IsSettled (control b k e cs) =
      IsBetween b.status
      × (b.status ≡ idle → AreIdle cs)
      × (b.status ≡ running → PrefixIdle (index_of k) cs)
      × AreSettled cs
  IsSettled (decorator b d c) =
      IsBetween b.status
      × (b.status ≡ idle → IsIdle c)
      × (b.status ≡ running → IsReady d b)
      × IsSettled c

  pub AreSettled : Nodes → Type 0
  AreSettled nil = Unit
  AreSettled (cons c cs) = IsSettled c × AreSettled cs

mutual
  unfolding IsSettled IsLive

  pub IsLive-settled : (n : Node) → IsSettled n → IsLive n
  IsLive-settled (leaf b l) h = h
  IsLive-settled (control b k e cs) h = (h.0, AreLive-settled cs h.3)
  IsLive-settled (decorator b d c) h = (h.0, IsLive-settled c h.3)

  pub AreLive-settled : (cs : Nodes) → AreSettled cs → AreLive cs
  AreLive-settled nil h = tt
  AreLive-settled (cons c cs) h = (IsLive-settled c h.0, AreLive-settled cs h.1)

pub PrefixIdle-idle : (n : ℕ) (cs : Nodes) → AreIdle cs → PrefixIdle n cs
unfolding IsIdle
PrefixIdle-idle zero cs h = tt
PrefixIdle-idle (suc n) nil h = tt
PrefixIdle-idle (suc n) (cons c cs) h = (h.0, PrefixIdle-idle n cs h.1)

pub not_both : {s : Status} {A : Type 0} → s ≡ idle → s ≡ running → A
not_both i r = absurd (cc)

mutual
  unfolding IsSettled IsIdle

  pub IsSettled-idle : (n : Node) → IsIdle n → IsSettled n
  IsSettled-idle (leaf b l) h = (inl h.0, h.1)
  IsSettled-idle (control b k e cs) h =
      (inl h.0, λ _. h.1, λ r. not_both h.0 r, AreSettled-idle cs h.1)
  IsSettled-idle (decorator b d c) h =
      (inl h.0, λ _. h.1, λ r. not_both h.0 r, IsSettled-idle c h.1)

  pub AreSettled-idle : (cs : Nodes) → AreIdle cs → AreSettled cs
  AreSettled-idle nil h = tt
  AreSettled-idle (cons c cs) h = (IsSettled-idle c h.0, AreSettled-idle cs h.1)

-- a settled node that is IDLE is IDLE throughout
pub IsIdle-settled : (n : Node) → IsSettled n → (base_of n).status ≡ idle → IsIdle n
unfolding IsSettled IsIdle
IsIdle-settled (leaf b l) h i = (i, h.1)
IsIdle-settled (control b k e cs) h i = (i, h.1 i)
IsIdle-settled (decorator b d c) h i = (i, h.1 i)

-- What a tick leaves: a settled node, and one that is IDLE throughout unless the tick returned
-- RUNNING.
pub record IsCalm (t : Status × Node × World) : Type 0 where
  pub settled : IsSettled t.1
  pub rests : t.0 ≢ running → IsIdle t.1
