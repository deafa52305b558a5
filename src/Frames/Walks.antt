-- ===== src/Frames/Walks.antt =====
-- Walks in the graph of frames/frames.py, and what the tables of its search are.
use auto_weaver.Prelude.{
  ℕ, suc, String, ◌≡◌, true, false, Option, none, some, List, [], ◌∷◌, string_eq,
}
use mathlib.Core.List.{Memᴰ}
use auto_weaver.Dict.{Dict, has, put}
use auto_weaver.Frames.{Edge, Adjacency, edges_at, other_end}

-- an edge at `a` leads to `b`
abbrev pub Joined : {M : Type 0} → Adjacency M → String → String → Type 0
Joined {M} adj a b = (edge : Edge M) × Memᴰ edge (edges_at adj a) × (other_end a edge ≡ b)

-- `b` is reached from `a` along edges
pub data Reach {M : Type 0} (adj : Adjacency M) (a : String) : String → Type 0 where
  here : Reach adj a a
  step : (b c : String) → Reach adj a b → Joined adj b c → Reach adj a c

-- The list begins with `a`, ends with `b`, and an edge joins each frame of it to the next.
abbrev pub IsWalk : {M : Type 0} → Adjacency M → String → List String → String → Type 0
IsWalk adj a [] b = ⊥
IsWalk adj a (c ∷ []) b = (a ≡ c) × (c ≡ b)
IsWalk adj a (c ∷ d ∷ rest) b = (a ≡ c) × Joined adj c d × IsWalk adj d (d ∷ rest) b

-- The table `prev` of a search: it begins with the source, and every frame that is added comes
-- along an edge from one that is there.
pub data Grown {M : Type 0} (adj : Adjacency M) (source : String)
    : ℕ → Dict String (Option String) → Type 0 where
  seed : Grown adj source 1 ((source, none) ∷ [])
  grow :
      (n : ℕ) (prev : Dict String (Option String)) (node next : String)
      → Grown adj source n prev
      → has prev node ≡ true
      → has prev next ≡ false
      → Joined adj node next
      → Grown adj source (suc n) (put prev next (some node))
