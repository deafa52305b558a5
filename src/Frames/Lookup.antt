-- ===== src/Frames/Lookup.antt =====
-- When `lookup` of frames/frames.py has a transform.
use mathlib.Core.Path.{subst}
use mathlib.Core.List.{Memᴰ}
use auto_weaver.Prelude.{
  String, ◌≡◌, refl, sym, ap, ◌∙◌, Bool, true, false, ◌&&◌, Option, none, some, List, [], ◌∷◌, inl,
  inr, ◌==◌, string_eq, eq_iff, Bool-cases,
}
use auto_weaver.Dict.{has}
use auto_weaver.Value.{Result, ok, err, frames_disconnected}
use auto_weaver.Frames.{
  Arrays, Transform, fixed, dynamic, Edge, Adjacency, Snapshot, edges_at, find_path,
}
use auto_weaver.Frames.Walks.{Joined, Reach, here, step, IsWalk}
use auto_weaver.Frames.Rebuild.{HasFound, found, nowhere, find_path-HasFound}
use auto_weaver.Frames.Build.{IsGraph, Joined-has}
use auto_weaver.Frames.Hops.{edge_between-IsChosen}
use auto_weaver.Frames.Query.{
  value_or, value_at, edge_value, oriented, hop_over, hop_matrix, along, over_path, lookup,
}

-- The snapshot has a value for every dynamic edge that is required.
abbrev pub IsFed : (N : Arrays) → Adjacency N.Matrix → Snapshot N.Matrix → Type 0
IsFed N adj snapshot =
    (a : String) (edge : Edge N.Matrix)
    → Memᴰ edge (edges_at adj a)
    → (key : String) → edge.transform ≡ dynamic key true
    → (m : N.Matrix) × (value_at N snapshot key ≡ some m)

-- a matrix comes out
abbrev pub HasMatrix : (N : Arrays) → Result N.Matrix → Type 0
HasMatrix N x = (m : N.Matrix) × (x ≡ ok m)

pub walk-Reach :
    {M : Type 0} (adj : Adjacency M) (source a b : String) (path : List String)
    → Reach adj source a
    → IsWalk adj a path b
    → Reach adj source b
walk-Reach adj source a b [] r w = absurd w
walk-Reach adj source a b (c ∷ []) r (e, f) = subst (Reach adj source) (e ∙ f) r
walk-Reach adj source a b (c ∷ d ∷ path) r (e, j, w) =
    walk-Reach adj source d b (d ∷ path) (step c d (subst (Reach adj source) e r) j) w

module _ (N : Arrays) where
  value_or-HasMatrix :
      (o : Option N.Matrix) (required : Bool)
      → (required ≡ true → (m : N.Matrix) × (o ≡ some m))
      → HasMatrix N (value_or N o required)
  value_or-HasMatrix (some m) required h = (m, refl)
  value_or-HasMatrix none true h = let (m, e) = h refl in absurd (cc)
  value_or-HasMatrix none false h = (N.identity, refl)

  edge_value-HasMatrix :
      (t : Transform N.Matrix) (snapshot : Snapshot N.Matrix)
      → ((key : String)
          → t ≡ dynamic key true
          → (m : N.Matrix) × (value_at N snapshot key ≡ some m))
      → HasMatrix N (edge_value N t snapshot)
  edge_value-HasMatrix (fixed m) snapshot h = (m, refl)
  edge_value-HasMatrix (dynamic key required) snapshot h =
      value_or-HasMatrix (value_at N snapshot key) required (λ e. h key (ap (dynamic key) e))

  oriented-HasMatrix :
      (b : Bool) (x : Result N.Matrix) → HasMatrix N x → HasMatrix N (oriented N b x)
  oriented-HasMatrix b (err e) (m, h) = absurd (cc)
  oriented-HasMatrix true (ok n) h = (n, refl)
  oriented-HasMatrix false (ok n) h = (_, refl)

  module _ (adj : Adjacency N.Matrix) (snapshot : Snapshot N.Matrix) (graph : IsGraph adj)
      (fed : IsFed N adj snapshot) where
    hop_matrix-HasMatrix :
        (a b : String) → Joined adj a b → HasMatrix N (hop_matrix N adj snapshot a b)
    unfolding hop_matrix
    hop_matrix-HasMatrix a b j =
        let (edge, e, h) = edge_between-IsChosen adj a b graph j in
        subst (λ o. HasMatrix N (hop_over N o a b snapshot)) (sym e)
          (oriented-HasMatrix (a == edge.child && b == edge.parent)
            (edge_value N edge.transform snapshot)
            (edge_value-HasMatrix edge.transform snapshot (fed a edge h.listed)))

    along-HasMatrix :
        (a b : String) (path : List String) (m : N.Matrix)
        → IsWalk adj a path b
        → HasMatrix N (along N adj snapshot path m)
    unfolding along
    along-HasMatrix a b [] m w = absurd w
    along-HasMatrix a b (c ∷ []) m w = (m, refl)
    along-HasMatrix a b (c ∷ d ∷ path) m (e, j, w) =
        let (hop, h) = hop_matrix-HasMatrix c d j in
        rw h (along-HasMatrix d b (d ∷ path) (N.product hop m) w)

    -- what a search that has ended makes of a lookup
    abbrev HasAnswer : String → String → Option (Result N.Matrix) → Type 0
    HasAnswer source target x =
        (Reach adj source target → (m : N.Matrix) × (x ≡ some (ok m)))
        × (¬ Reach adj source target → x ≡ some (err frames_disconnected))

    over_path-HasAnswer :
        (source target : String) (o : Option (Option (List String)))
        → HasFound adj source target o
        → HasAnswer source target (over_path N adj snapshot o)
    over_path-HasAnswer source target _ (found path w) =
        let (m, e) = along-HasMatrix source target path N.identity w in
        (λ r. (m, ap some e), λ n. absurd (n (walk-Reach adj source source target path here w)))
    over_path-HasAnswer source target _ (nowhere n) = (λ r. absurd (n r), λ _. refl)

-- In a graph with each edge at either end, and with a value for every required edge: between two
-- frames of the graph `lookup` returns a transform exactly if edges connect them, in whatever
-- direction they are stored, and raises `FramesDisconnected` if they do not. The search ends, and no hop
-- of its path is without an edge.
pub lookup_lem :
    (N : Arrays) (adj : Adjacency N.Matrix) (snapshot : Snapshot N.Matrix) (source target : String)
    → IsGraph adj
    → IsFed N adj snapshot
    → has adj source ≡ true
    → has adj target ≡ true
    → let x = lookup N adj target source snapshot in
      (Reach adj source target → (m : N.Matrix) × (x ≡ some (ok m)))
      × (¬ Reach adj source target → x ≡ some (err frames_disconnected))
unfolding lookup
lookup_lem N adj snapshot source target g fed s t = elim (Bool-cases (source == target)) [
  | inl e ↦
      rw (s, t, e)
        (
          λ r. (N.identity, refl),
          λ n. absurd (n (subst (Reach adj source) ((eq_iff source target).0 e) here)),
        )
  | inr e ↦
      rw (s, t, e)
        (over_path-HasAnswer N adj snapshot g fed source target (find_path adj source target)
          (find_path-HasFound adj source target (Joined-has adj g)))
]
