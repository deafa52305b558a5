-- ===== src/Tree/Walk/Calm.antt =====
-- Which trees are at rest. `halt` brings a tree there.
use auto_weaver.Prelude.{ℕ, ◌≡◌, refl, ◌⊎◌, inl, inr, Option, none, some, arith}
use auto_weaver.Tree.Types.{
  Status, success, failure, running, idle, World, Base, Leaf, action, Node, leaf, control,
  decorator, Nodes, nil, cons,
}
use auto_weaver.Value.{Exn}
use auto_weaver.Tree.Leaf.{halt_leaf}
use auto_weaver.Tree.Walk.{
  halt, halt_all, halt_at_leaf, close_leaf, close_base, halted_base, next_halt,
}

-- The status between two ticks: `tick` leaves no other.
abbrev pub IsBetween : Status → Type 0
IsBetween s = (s ≡ idle) ⊎ (s ≡ running)

-- No `on_halted` of the leaf raises: its device halts every goal.
abbrev pub IsQuiet : Leaf → Type 0
IsQuiet (action d g) = (n : ℕ) → d.halt_goal n ≡ none
IsQuiet _ = Unit

-- Every node of the tree is IDLE, and no leaf raises when it is halted.
unfoldable mutual
  pub IsIdle : Node → Type 0
  IsIdle (leaf b l) = (b.status ≡ idle) × IsQuiet l
  IsIdle (control b k e cs) = (b.status ≡ idle) × AreIdle cs
  IsIdle (decorator b d c) = (b.status ≡ idle) × IsIdle c

  pub AreIdle : Nodes → Type 0
  AreIdle nil = Unit
  AreIdle (cons c cs) = IsIdle c × AreIdle cs

-- Every node is IDLE or RUNNING, and no leaf raises when it is halted.
unfoldable mutual
  pub IsLive : Node → Type 0
  IsLive (leaf b l) = IsBetween b.status × IsQuiet l
  IsLive (control b k e cs) = IsBetween b.status × AreLive cs
  IsLive (decorator b d c) = IsBetween b.status × IsLive c

  pub AreLive : Nodes → Type 0
  AreLive nil = Unit
  AreLive (cons c cs) = IsLive c × AreLive cs

halt_leaf-IsQuiet :
    (l : Leaf) (w : World) → IsQuiet l → ((halt_leaf l w).0 ≡ none) × IsQuiet (halt_leaf l w).1
unfolding halt_leaf
halt_leaf-IsQuiet (action d none) w q = (refl, q)
halt_leaf-IsQuiet (action d (some g)) w q = rw (q g) (refl, q)
halt_leaf-IsQuiet (Leaf.condition c) w q = (refl, tt)
halt_leaf-IsQuiet _ w q = (refl, tt)

close_leaf-IsIdle :
    (x : Option Exn) (b : Base) (l : Leaf) (w : World)
    → b.status ≡ running
    → x ≡ none
    → IsQuiet l
    → ((close_leaf x b l w).0 ≡ none) × IsIdle (close_leaf x b l w).1
unfolding IsIdle
close_leaf-IsIdle none b l w r e q = rw r (refl, (refl, q))
close_leaf-IsIdle (some x) b l w r e q = cc

halt_at_leaf-IsIdle :
    (s : Status) (b : Base) (l : Leaf) (w : World)
    → b.status ≡ s
    → IsBetween s
    → IsQuiet l
    → ((halt_at_leaf s b l w).0 ≡ none) × IsIdle (halt_at_leaf s b l w).1
unfolding halt_at_leaf IsIdle
halt_at_leaf-IsIdle running b l w e h q =
    let (raised, quiet) = halt_leaf-IsQuiet l w q in
    close_leaf-IsIdle (halt_leaf l w).0 b (halt_leaf l w).1 (halt_leaf l w).2 e raised quiet
halt_at_leaf-IsIdle idle b l w e h q = rw e (refl, (refl, q))
halt_at_leaf-IsIdle success b l w e h q = absurd (ground arith)
halt_at_leaf-IsIdle failure b l w e h q = absurd (ground arith)

halted_idle : (b : Base) → IsBetween b.status → (halted_base b).status ≡ idle
halted_idle b (inl i) = rw i
halted_idle b (inr r) = rw r

pub next_halt-AreIdle :
    (x : Option Exn) (c : Node) (cs : Nodes) (w : World) (rest : Option Exn × Nodes × World)
    → x ≡ none
    → IsIdle c
    → rest.0 ≡ none
    → AreIdle rest.1
    → ((next_halt x c cs w rest).0 ≡ none) × AreIdle (next_halt x c cs w rest).1
unfolding IsIdle
next_halt-AreIdle none c cs w rest e i r j = (r, (i, j))
next_halt-AreIdle (some x) c cs w rest e i r j = cc

close_base-idle :
    (x : Option Exn) (b : Base) → x ≡ none → IsBetween b.status → (close_base x b).status ≡ idle
close_base-idle none b e h = halted_idle b h
close_base-idle (some x) b e h = cc

-- the induction behind `halt_rests`, over nodes and lists of them
mutual
  unfolding halt IsIdle IsLive

  pub halt-IsIdle : (n : Node) (w : World) → IsLive n → ((halt n w).0 ≡ none) × IsIdle (halt n w).1
  halt-IsIdle (leaf b l) w h = halt_at_leaf-IsIdle b.status b l w refl h.0 h.1
  halt-IsIdle (control b k e cs) w h =
      let (raised, calm) = halt_all-AreIdle cs w h.1 in
      (raised, (close_base-idle (halt_all cs w).0 b raised h.0, calm))
  halt-IsIdle (decorator b d c) w h =
      let (raised, calm) = halt-IsIdle c w h.1 in
      (raised, (close_base-idle (halt c w).0 b raised h.0, calm))

  pub halt_all-AreIdle :
      (cs : Nodes) (w : World) → AreLive cs → ((halt_all cs w).0 ≡ none) × AreIdle (halt_all cs w).1
  halt_all-AreIdle nil w h = (refl, tt)
  halt_all-AreIdle (cons c cs) w h =
      let (raised, calm) = halt-IsIdle c w h.0 in
      let (raised', calm') = halt_all-AreIdle cs (halt c w).2 h.1 in
      next_halt-AreIdle (halt c w).0 (halt c w).1 cs (halt c w).2 (halt_all cs (halt c w).2) raised
        calm raised' calm'

-- Halting a tree that is between two ticks, and whose leaves raise nothing when halted, raises
-- nothing and leaves every node IDLE.
pub halt_rests : (n : Node) (w : World) → IsLive n → ((halt n w).0 ≡ none) × IsIdle (halt n w).1
halt_rests n w h = halt-IsIdle n w h
