-- ===== src/Frames.antt =====
-- frames/frames.py: the graph of coordinate frames, the search for a path in it, and `lookup`. What
-- NumPy does with arrays is the parameter `Arrays`.
pub mod Walks
pub mod Scan
pub mod Rounds
pub mod Rebuild
pub mod Build
pub mod Query
pub mod Hops
pub mod Lookup
pub mod Schema
pub mod Files
use auto_weaver.Prelude.{
  ℕ, zero, suc, ◌+◌, String, Bool, true, false, not, ◌&&◌, ◌||◌, Option, none, some, List, [], ◌∷◌,
  ◌++◌, length, ◌==◌, string_eq, Pair, pair_eq, if◌then◌else◌,
}
use auto_weaver.Dict.{Dict, get, put, has}
use auto_weaver.Value.{Exn, Result, ok, err, value_error, frame_not_found, frames_disconnected}
use auto_weaver.Exec.{Exec, pure, raise, raise_if, modify, ◌>>◌, ◌>>=◌}

-- 4×4 matrices, with the blocks that frames/transforms.py takes them apart into
pub record Arrays : Type 1 where
  pub Matrix : Type 0
  pub Rotation : Type 0
  pub Vector : Type 0
  pub identity : Matrix
  pub product : Matrix → Matrix → Matrix
  pub rotation : Matrix → Rotation
  pub translation : Matrix → Vector
  pub transpose : Rotation → Rotation
  pub negated : Rotation → Rotation
  pub apply : Rotation → Vector → Vector
  pub rigid : Rotation → Vector → Matrix

-- `_Edge`: what its matrix is, or the key that it is read at
pub data Transform (M : Type 0) : Type 0 where
  fixed : M → Transform M
  dynamic : String → Bool → Transform M

pub record Edge (M : Type 0) : Type 0 where
  pub parent : String
  pub child : String
  pub transform : Transform M

abbrev pub is_dynamic : {M : Type 0} → Transform M → Bool
is_dynamic (fixed m) = false
is_dynamic (dynamic key required) = true

abbrev pub Adjacency : Type 0 → Type 0
Adjacency M = Dict String (List (Edge M))

abbrev pub Snapshot : Type 0 → Type 0
Snapshot M = Option (String → Option M)

abbrev pub listed : {A : Type 0} → Option (List A) → List A
listed none = []
listed (some l) = l

abbrev pub edges_at : {M : Type 0} → Adjacency M → String → List (Edge M)
edges_at adj node = listed (get adj node)

-- `prev` and the deque of `_find_path`
pub record Search : Type 0 where
  pub prev : Dict String (Option String)
  pub queue : List String

abbrev pub visit : String → String → Search → Search
visit node next s = record { prev = put s.prev next (some node); queue = s.queue ++ next ∷ [] }

unfoldable pub offer : String → Search → String → Search
offer node s next = if has s.prev next then s else visit node next s

module _ {M : Type 0} where
  -- `_add_edge`
  abbrev pub append_edge : Edge M → String → Adjacency M → Adjacency M
  append_edge edge node adj = put adj node (edges_at adj node ++ edge ∷ [])

  unfoldable pub add_edge : Edge M → Adjacency M → Adjacency M
  add_edge edge adj = append_edge edge edge.child (append_edge edge edge.parent adj)

  -- the end of an edge that is not `node`
  abbrev pub other_end : String → Edge M → String
  other_end node edge = if edge.parent == node then edge.child else edge.parent

  -- the loop over the edges of a node
  unfoldable pub scan : String → Search → List (Edge M) → Search
  unfolding offer
  scan node s [] = s
  scan node s (edge ∷ edges) = scan node (offer node s (other_end node edge)) edges

  -- the loop over the queue, which ends at the target; `none` if the rounds do not suffice
  unfoldable pub search : ℕ → Adjacency M → String → Search → Option Search
  unfolding scan
  search zero adj target s = none
  search (suc fuel) adj target s = elim s.queue [
    | [] ↦ some s
    | node ∷ rest ↦
        let next =
          search fuel adj target (scan node (record s { queue = rest }) (edges_at adj node)) in
        if node == target then some (record s { queue = rest }) else next
  ]

abbrev pub start : String → Search
start source = record { prev = (source, none) ∷ []; queue = source ∷ [] }

-- The way back from a node, in front of the path behind it; `none` for rounds that do not suffice, or
-- a `KeyError`.
unfoldable pub rebuild :
    ℕ → Dict String (Option String) → String → List String → Option (List String)
rebuild zero prev node path = none
rebuild (suc fuel) prev node path = elim (get prev node) [
  | none ↦ none
  | some none ↦ some (node ∷ path)
  | some (some before) ↦ rebuild fuel prev before (node ∷ path)
]

abbrev pub found_path : Option (List String) → Option (Option (List String))
found_path none = none
found_path (some path) = some (some path)

abbrev pub path_to : String → Option Search → Option (Option (List String))
path_to target none = none
path_to target (some s) =
    let back = found_path (rebuild (length s.prev + 1) s.prev target []) in
    if has s.prev target then back else some none

-- `_find_path`
unfoldable pub find_path :
    {M : Type 0} → Adjacency M → String → String → Option (Option (List String))
unfolding search rebuild
find_path adj source target = path_to target (search (length adj + 2) adj target (start source))

-- An entry of the calibration file, as frames/schema.py reads it
pub record FrameEdge (M : Type 0) : Type 0 where
  pub name : String
  pub parent : String
  pub transform : Transform M

-- The attributes of `Frames`
pub record Frames (M : Type 0) : Type 0 where
  pub adj : Adjacency M
  pub dynamic_edges : Dict (Pair String String) (Edge M)

abbrev pub no_frames : {M : Type 0} → Frames M
no_frames = record { adj = []; dynamic_edges = [] }

module _ {M : Type 0} where
  abbrev pub bind_unless : Bool → Edge M → Exec (Frames M) Unit
  bind_unless true edge f = (err value_error, f)
  bind_unless false edge f = (
    ok tt,
    record {
      adj = add_edge edge f.adj;
      dynamic_edges =
          put f.dynamic_edges (record { first = edge.parent; second = edge.child }) edge;
    },
  )

  unfoldable pub bind_dynamic : String → String → String → Bool → Exec (Frames M) Unit
  bind_dynamic parent child state_key required f =
      bind_unless (has f.dynamic_edges (record { first = parent; second = child }))
        (record { parent = parent; child = child; transform = dynamic state_key required }) f

  abbrev pub add_entry : Transform M → FrameEdge M → Exec (Frames M) Unit
  add_entry (fixed m) e f = (
    ok tt,
    record f {
      adj = add_edge (record { parent = e.parent; child = e.name; transform = fixed m }) f.adj;
    },
  )
  add_entry (dynamic state_key required) e f = bind_dynamic e.parent e.name state_key required f

  -- the loop of `Frames.__init__`
  unfoldable pub load : List (FrameEdge M) → Exec (Frames M) Unit
  unfolding bind_dynamic
  load [] = pure tt
  load (e ∷ es) = add_entry e.transform e >> load es
