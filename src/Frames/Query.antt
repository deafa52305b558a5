-- ===== src/Frames/Query.antt =====
-- `lookup` of frames/frames.py and what it asks of the edges.
use auto_weaver.Prelude.{
  String, Bool, true, false, not, ◌&&◌, ◌||◌, Option, none, some, List, [], ◌∷◌, ◌==◌, string_eq,
  if◌then◌else◌,
}
use auto_weaver.Dict.{has}
use auto_weaver.Value.{Result, ok, err, frame_not_found, frames_disconnected}
use auto_weaver.Frames.{
  Arrays, Transform, fixed, dynamic, Edge, is_dynamic, Adjacency, Snapshot, edges_at, find_path,
}

abbrev pub joins : {M : Type 0} → String → String → Edge M → Bool
joins a b edge = (edge.parent == a && edge.child == b) || (edge.parent == b && edge.child == a)

-- the loop of `_edge_between`, with the edge chosen so far
unfoldable pub choose :
    {M : Type 0} → String → String → List (Edge M) → Option (Edge M) → Option (Edge M)
choose a b [] chosen = chosen
choose a b (edge ∷ edges) chosen =
    let skipped = choose a b edges chosen in
    let kept = choose a b edges (some edge) in
    if joins a b edge then (if is_dynamic edge.transform then some edge else kept) else skipped

abbrev pub edge_between : {M : Type 0} → Adjacency M → String → String → Option (Edge M)
edge_between adj a b = choose a b (edges_at adj a) none

module _ (N : Arrays) where
  open N use {Matrix, identity, product, rotation, translation, transpose, negated, apply, rigid}

  -- frames/transforms.py, `invert`
  unfoldable pub invert : Matrix → Matrix
  invert m =
      let turned = transpose (rotation m) in rigid turned (apply (negated turned) (translation m))

  abbrev pub value_or : Option Matrix → Bool → Result Matrix
  value_or (some m) required = ok m
  value_or none true = err frames_disconnected
  value_or none false = ok identity

  abbrev pub value_at : Snapshot Matrix → String → Option Matrix
  value_at none key = none
  value_at (some values) key = values key

  -- `_edge_value`
  abbrev pub edge_value : Transform Matrix → Snapshot Matrix → Result Matrix
  edge_value (fixed m) snapshot = ok m
  edge_value (dynamic key required) snapshot = value_or (value_at snapshot key) required

  abbrev pub oriented : Bool → Result Matrix → Result Matrix
  oriented forward (err e) = err e
  oriented true (ok m) = ok m
  oriented false (ok m) = ok (invert m)

  abbrev pub hop_over : Option (Edge Matrix) → String → String → Snapshot Matrix → Result Matrix
  hop_over none a b snapshot = err frames_disconnected
  hop_over (some edge) a b snapshot =
      oriented (a == edge.child && b == edge.parent) (edge_value edge.transform snapshot)

  -- `_hop_matrix`
  unfoldable pub hop_matrix : Adjacency Matrix → Snapshot Matrix → String → String → Result Matrix
  unfolding invert choose
  hop_matrix adj snapshot a b = hop_over (edge_between adj a b) a b snapshot

  abbrev pub carried : Result Matrix → (Matrix → Result Matrix) → Result Matrix
  carried (err e) next = err e
  carried (ok m) next = next m

  -- the loop over the hops of a path
  unfoldable pub along : Adjacency Matrix → Snapshot Matrix → List String → Matrix → Result Matrix
  unfolding hop_matrix
  along adj snapshot [] result = ok result
  along adj snapshot (a ∷ []) result = ok result
  along adj snapshot (a ∷ b ∷ path) result =
      carried (hop_matrix adj snapshot a b) (λ m. along adj snapshot (b ∷ path) (product m result))

  abbrev pub over_path :
      Adjacency Matrix → Snapshot Matrix → Option (Option (List String)) → Option (Result Matrix)
  over_path adj snapshot none = none
  over_path adj snapshot (some none) = some (err frames_disconnected)
  over_path adj snapshot (some (some path)) = some (along adj snapshot path identity)

  -- `none` would be a search that does not end
  unfoldable pub lookup :
      Adjacency Matrix → String → String → Snapshot Matrix → Option (Result Matrix)
  unfolding along find_path
  lookup adj target source snapshot =
      if not (has adj source) || not (has adj target)
      then some (err frame_not_found)
      else if source == target
      then some (ok identity)
      else over_path adj snapshot (find_path adj source target)

  abbrev pub is_matrix : Option (Result Matrix) → Bool
  is_matrix (some (ok m)) = true
  is_matrix _ = false

  abbrev pub can_lookup : Adjacency Matrix → String → String → Snapshot Matrix → Bool
  can_lookup adj target source snapshot = is_matrix (lookup adj target source snapshot)
