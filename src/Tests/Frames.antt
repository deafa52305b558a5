-- ===== src/Tests/Frames.antt =====
-- Runs of frames/frames.py over transforms along a line: a number in place of a matrix.
use auto_weaver.Prelude.{false, ℕ, ◌+◌, ◌≡◌, refl, true, none, some, List, [], ◌∷◌, string_eq}
use auto_weaver.Dict.{get, put, has}
use auto_weaver.Value.{ok, err, value_error, frame_not_found, frames_disconnected}
use auto_weaver.Frames.{
  Arrays, fixed, dynamic, Adjacency, Snapshot, FrameEdge, no_frames, offer, scan, search, rebuild,
  find_path, add_edge, bind_dynamic, load,
}
use auto_weaver.Frames.Walks.{Reach}
use auto_weaver.Frames.Rebuild.{HasFound, find_path-HasFound}
use auto_weaver.Frames.Build.{IsGraph, load-IsGraph, Joined-has}
use auto_weaver.Frames.Query.{choose, invert, hop_matrix, along, lookup}
use auto_weaver.Frames.Lookup.{lookup_lem}
use auto_weaver.Frames.Schema
use auto_weaver.Frames.Schema.{
  Yaml, Transforms, parse_dynamic, parse_entry, parse_items, end, field, nil, cons,
}
use auto_weaver.Frames.Files.{AreNew, load-AreNew}

-- the inverse of `m` is `100 - m`, and two transforms add up
abbrev arrays : Arrays
arrays = record {
  Matrix = ℕ;
  Rotation = ℕ;
  Vector = ℕ;
  identity = 0;
  product = λ a b. a + b;
  rotation = λ m. m;
  translation = λ m. m;
  transpose = λ r. 100 + r;
  negated = λ r. r;
  apply = λ r v. v;
  rigid = λ r v. r + v;
}

abbrev entries : List (FrameEdge ℕ)
entries =
    record { name = "base"; parent = "world"; transform = fixed 3 }
    ∷ record { name = "flange"; parent = "base"; transform = dynamic "pose" true }
    ∷ record { name = "tool"; parent = "flange"; transform = fixed 20 }
    ∷ []

abbrev cell : Adjacency ℕ
cell = (load entries no_frames).1.adj

abbrev values : Snapshot ℕ
values = some (λ key. some 7)

load_ok : (load entries no_frames).0 ≡ ok tt
unfolding load bind_dynamic has put get
load_ok = refl

bound_twice :
    (bind_dynamic "base" "flange" "other" true (load entries no_frames).1).0 ≡ err value_error
unfolding load bind_dynamic add_edge has put get
bound_twice = refl

path_found : find_path cell "tool" "world" ≡ some (some ("tool" ∷ "flange" ∷ "base" ∷ "world" ∷ []))
unfolding load bind_dynamic add_edge find_path search scan offer rebuild has put get
path_found = refl

tool_in_world : lookup arrays cell "world" "tool" values ≡ some (ok 30)
unfolding load bind_dynamic add_edge find_path search scan offer rebuild lookup along hop_matrix has
    put get choose invert
tool_in_world = refl

not_fed : lookup arrays cell "world" "tool" none ≡ some (err frames_disconnected)
unfolding load bind_dynamic add_edge find_path search scan offer rebuild lookup along hop_matrix has
    put get choose invert
not_fed = refl

unknown_frame : lookup arrays cell "world" "camera" values ≡ some (err frame_not_found)
unfolding load bind_dynamic add_edge lookup has put get
unknown_frame = refl

find_path-HasFound_example : HasFound cell "tool" "world" (find_path cell "tool" "world")
find_path-HasFound_example =
    find_path-HasFound cell "tool" "world" (Joined-has cell (load-IsGraph entries))

load-IsGraph_example : IsGraph cell
load-IsGraph_example = load-IsGraph entries

lookup_lem_example :
    let x = lookup arrays cell "world" "tool" values in
    (Reach cell "tool" "world" → (m : ℕ) × (x ≡ some (ok m)))
    × (¬ Reach cell "tool" "world" → x ≡ some (err frames_disconnected))
unfolding load bind_dynamic add_edge has put get
lookup_lem_example =
    lookup_lem arrays cell values "tool" "world" (load-IsGraph entries)
      (λ a edge m key e. (7, refl)) refl refl

abbrev transforms : Transforms ℕ
transforms = record { passthrough = λ m. ok 5; euler = λ xyz r. ok 3 }

abbrev static_entry : Yaml
static_entry = Yaml.mapping (
    field "name" (Yaml.text "base") (
      field "parent" (Yaml.text "world")
        (field "xyz" (Yaml.sequence nil) (field "rpy" (Yaml.sequence nil) end))))

abbrev live_entry : Yaml
live_entry = Yaml.mapping (
    field "name" (Yaml.text "flange") (
      field "parent" (Yaml.text "base")
        (field "dynamic" (Yaml.mapping (field "state_key" (Yaml.text "pose") end)) end)))

abbrev yamls : List Yaml → Schema.Yamls
yamls [] = nil
yamls (y ∷ ys) = cons y (yamls ys)

abbrev file : List Yaml → Yaml
file ys = Yaml.mapping (field "frames" (Yaml.sequence (yamls ys)) end)

abbrev edges : List (FrameEdge ℕ)
edges =
    record { name = "base"; parent = "world"; transform = fixed 3 }
    ∷ record { name = "flange"; parent = "base"; transform = dynamic "pose" false }
    ∷ []

file_read : Schema.load transforms (file (static_entry ∷ live_entry ∷ [])) ≡ ok edges
unfolding Schema.load parse_items parse_entry parse_dynamic
file_read = refl

named_twice : Schema.load transforms (file (static_entry ∷ static_entry ∷ [])) ≡ err value_error
unfolding Schema.load parse_items parse_entry
named_twice = refl

load-AreNew_example : AreNew [] edges × ((load edges no_frames).0 ≡ ok tt)
load-AreNew_example = load-AreNew transforms (file (static_entry ∷ live_entry ∷ [])) edges file_read
