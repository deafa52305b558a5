-- ===== src/Frames/Schema.antt =====
-- frames/schema.py: the entries of a calibration file. What frames/transforms.py makes of numbers with
-- NumPy is the parameter `Transforms`.
use auto_weaver.Prelude.{
  ℕ, String, Bool, true, false, ◌||◌, Option, none, some, List, [], ◌∷◌, ◌==◌, string_eq,
  if◌then◌else◌,
}
use auto_weaver.Value.{Result, ok, err, value_error}
use auto_weaver.Frames.{Transform, fixed, dynamic, FrameEdge}

-- What `yaml.safe_load` returns; the keys of a mapping are texts, each once, and its numbers are told
-- apart by natural numbers.
mutual
  pub data Yaml : Type 0 where
    null : Yaml
    boolean : Bool → Yaml
    number : ℕ → Yaml
    text : String → Yaml
    sequence : Yamls → Yaml
    mapping : Fields → Yaml

  pub data Yamls : Type 0 where
    nil : Yamls
    cons : Yaml → Yamls → Yamls

  pub data Fields : Type 0 where
    end : Fields
    field : String → Yaml → Fields → Fields

-- `matrix_passthrough`, and `to_mm` with `euler_to_matrix`
pub record Transforms (M : Type 0) : Type 0 where
  pub passthrough : Yaml → Result M
  pub euler : Option Yaml → Yaml → Result M

abbrev pub field_of : Fields → String → Option Yaml
field_of end k = none
field_of (field j v fs) k = if j == k then some v else field_of fs k

abbrev pub has_field : Fields → String → Bool
has_field end k = false
has_field (field j v fs) k = if j == k then true else has_field fs k

abbrev pub is_in : String → List String → Bool
is_in k [] = false
is_in k (j ∷ js) = if j == k then true else is_in k js

-- no key but the known ones
abbrev pub all_known : List String → Fields → Bool
all_known known end = true
all_known known (field k v fs) = if is_in k known then all_known known fs else false

abbrev pub known_fields : List String
known_fields = "name" ∷ "parent" ∷ "xyz" ∷ "rpy" ∷ "matrix" ∷ "dynamic" ∷ []

abbrev pub known_dynamic_fields : List String
known_dynamic_fields = "state_key" ∷ "required" ∷ []

-- a text that is not empty
abbrev pub name_of : Option Yaml → Result String
name_of (some (text s)) = if s == "" then err value_error else ok s
name_of _ = err value_error

abbrev pub required_of : Option Yaml → Result Bool
required_of none = ok false
required_of (some (boolean b)) = ok b
required_of (some _) = err value_error

abbrev pub dynamic_of : {M : Type 0} → Result String → Result Bool → Result (Transform M)
dynamic_of (err e) required = err e
dynamic_of (ok key) (err e) = err e
dynamic_of (ok key) (ok required) = ok (dynamic key required)

-- `_parse_dynamic`
unfoldable pub parse_dynamic : {M : Type 0} → Yaml → Result (Transform M)
parse_dynamic (mapping fs) =
    if all_known known_dynamic_fields fs
    then dynamic_of (name_of (field_of fs "state_key")) (required_of (field_of fs "required"))
    else err value_error
parse_dynamic _ = err value_error

-- a missing key and an explicit `null` are both None
abbrev pub given : Option Yaml → Option Yaml
given (some null) = none
given o = o

abbrev pub fixed_of : {M : Type 0} → Result M → Result (Transform M)
fixed_of (err e) = err e
fixed_of (ok m) = ok (fixed m)

-- neither `xyz` nor `matrix`
abbrev pub is_bare : Option Yaml → Option Yaml → Bool
is_bare none none = true
is_bare _ _ = false

module _ {M : Type 0} where
  abbrev pub edge_of : Result String → Result String → Result (Transform M) → Result (FrameEdge M)
  edge_of (err e) parent t = err e
  edge_of (ok name) (err e) t = err e
  edge_of (ok name) (ok parent) (err e) = err e
  edge_of (ok name) (ok parent) (ok t) = ok (record { name = name; parent = parent; transform = t })

  abbrev pub with_edge :
      Result (FrameEdge M)
      → List String
      → (List String → Result (List (FrameEdge M)))
      → Result (List (FrameEdge M))
  with_edge (err e) seen rest = err e
  with_edge (ok edge) seen rest =
      if is_in edge.name seen then err value_error else rest (edge.name ∷ seen)

  abbrev pub cons_edge :
      Result (FrameEdge M) → Result (List (FrameEdge M)) → Result (List (FrameEdge M))
  cons_edge (err e) r = err e
  cons_edge (ok edge) (err e) = err e
  cons_edge (ok edge) (ok edges) = ok (edge ∷ edges)

module _ {M : Type 0} (T : Transforms M) where
  abbrev pub matrix_or_none : Option Yaml → Yaml → Result M
  matrix_or_none none m = T.passthrough m
  matrix_or_none (some xyz) m = err value_error

  -- `_build_matrix`, by the fields `rpy` and `matrix`
  abbrev pub build_matrix : Option Yaml → Option Yaml → Option Yaml → Result M
  build_matrix xyz none none = err value_error
  build_matrix xyz (some r) (some m) = err value_error
  build_matrix xyz none (some m) = matrix_or_none xyz m
  build_matrix xyz (some r) none = T.euler xyz r

  abbrev pub static_of : Fields → Result (Transform M)
  static_of fs =
      let xyz = given (field_of fs "xyz") in
      if is_bare xyz (field_of fs "matrix")
      then err value_error
      else fixed_of (build_matrix xyz (field_of fs "rpy") (field_of fs "matrix"))

  abbrev pub transform_of : Fields → Option Yaml → Result (Transform M)
  transform_of fs none = static_of fs
  transform_of fs (some block) =
      if has_field fs "rpy" || has_field fs "matrix" || has_field fs "xyz"
      then err value_error
      else parse_dynamic block

  -- `_parse_entry`
  unfoldable pub parse_entry : Fields → Result (FrameEdge M)
  unfolding parse_dynamic
  parse_entry fs =
      if all_known known_fields fs
      then edge_of (name_of (field_of fs "name")) (name_of (field_of fs "parent"))
          (transform_of fs (field_of fs "dynamic"))
      else err value_error

  abbrev pub parse_item : Yaml → Result (FrameEdge M)
  parse_item (mapping fs) = parse_entry fs
  parse_item _ = err value_error

  -- the loop of `load`, with the names seen so far
  unfoldable pub parse_items : Yamls → List String → Result (List (FrameEdge M))
  unfolding parse_entry
  parse_items nil seen = ok []
  parse_items (cons y ys) seen =
      with_edge (parse_item y) seen (λ more. cons_edge (parse_item y) (parse_items ys more))

  abbrev pub load_frames : Option Yaml → Result (List (FrameEdge M))
  load_frames (some (sequence ys)) = parse_items ys []
  load_frames _ = err value_error

  -- `load` of what the file holds
  unfoldable pub load : Yaml → Result (List (FrameEdge M))
  unfolding parse_items
  load (mapping fs) = load_frames (field_of fs "frames")
  load _ = err value_error
