-- ===== src/Comm.antt =====
-- comm/modbus_primitive.py: the contract of a rig, the steps of an action, and the order of the
-- values of a pose. `F` is the type of floats; `float` of one is itself.
pub mod Engine
pub mod Poses
pub mod Actions
pub mod Ends
pub mod Waits
pub mod Rounds
use Prim.Native.Char.{Char, code}
use Prim.Native.String.{compare, char_at}
use package.text.Mathlib.Text.{is_le}
use auto_weaver.Prelude.{
  ℕ, ◌-◌, String, Bool, true, false, not, ◌&&◌, ◌||◌, Option, none, some, List, [], ◌∷◌, map,
  length, leb, ltb, ◌==◌, nat_eq, string_eq, if◌then◌else◌,
}
use auto_weaver.Dict.{Dict, get, put}
use auto_weaver.Value.{Value, text, to_int, Exn, Result, ok, err, action_step_error, key_error}
use auto_weaver.Exec.{Exec}

-- `RegisterIO`, on a state of the world outside: any call may raise
pub record RegisterIo (F S : Type 0) : Type 0 where
  pub read_u16 : ℕ → Exec S ℕ
  pub write_u16 : ℕ → ℕ → Exec S Unit
  pub read_real32_block : ℕ → ℕ → Exec S (List F)
  pub write_real32_block : ℕ → List F → Exec S Unit

pub record Clock (S : Type 0) : Type 0 where
  pub monotonic : S → ℕ × S
  pub sleep : ℕ → S → S

pub record BlockSpec : Type 0 where
  pub start : ℕ
  pub count : ℕ
  pub order : List String

pub record CommContract : Type 0 where
  pub registers : Dict String ℕ
  pub blocks : Dict String BlockSpec
  pub constants : Dict String ℕ

-- A point of a path as `isinstance` sees it, and what a `values` entry or a parameter is. `symbol` is
-- a string.
pub data Point (F : Type 0) : Type 0 where
  mapping : Dict String F → Point F
  other : Point F

pub data Given (F : Type 0) : Type 0 where
  single : Point F → Given F
  path : List (Point F) → Given F
  symbol : String → Given F

-- The keys that a verb looks up in the mapping of a step, each of which may be absent. A `timeout_s`
-- that is there is a number or null.
pub record Spec (F : Type 0) : Type 0 where
  pub block : Option String
  pub values : Option (Given F)
  pub flags : Option (Dict String Value)
  pub register : Option String
  pub value : Option Value
  pub into : Option String
  pub equals : Option Value
  pub timeout_s : Option (Option ℕ)

-- what a `read` step stores
pub data Reading (F : Type 0) : Type 0 where
  word : ℕ → Reading F
  fields : Dict String F → Reading F

-- a look-up that raises where there is nothing
abbrev pub found {ℓ} : {A : Type ℓ} → Exn → Option A → Result A
found e none = err e
found e (some a) = ok a

abbrev pub register_named : CommContract → String → Result ℕ
register_named c name = found action_step_error (get c.registers name)

abbrev pub block_named : CommContract → String → Result BlockSpec
block_named c name = found action_step_error (get c.blocks name)

-- `CommContract.const`
abbrev pub const : CommContract → Value → Result ℕ
const c (text s) = found action_step_error (get c.constants s)
const c v = to_int v

-- `str.strip` and `str.lower` on ASCII; other characters are kept
abbrev pub is_space : Char → Bool
is_space c = (leb 9 (code c) && leb (code c) 13) || (leb 28 (code c) && leb (code c) 32)

abbrev pub strip_end : String → String
strip_end String.[] = ""
strip_end (String.◌∷◌ c s) =
    let rest = strip_end s in if rest == "" && is_space c then "" else String.◌∷◌ c rest

abbrev pub strip_start : String → String
strip_start String.[] = ""
strip_start (String.◌∷◌ c s) =
    let rest = strip_start s in if is_space c then rest else String.◌∷◌ c s

abbrev pub lower : String → String
lower String.[] = ""
lower (String.◌∷◌ c s) =
    let rest = lower s in
    if leb b'A' (code c) && leb (code c) b'Z'
    then String.◌∷◌ (char_at "abcdefghijklmnopqrstuvwxyz" (code c - b'A')) rest
    else String.◌∷◌ c rest

unfoldable pub normalised : String → String
normalised s = lower (strip_end (strip_start s))

-- `sorted`
abbrev pub insert : String → List String → List String
insert s [] = s ∷ []
insert s (t ∷ ts) = let rest = insert s ts in if is_le (compare s t) then s ∷ t ∷ ts else t ∷ rest

unfoldable pub sorted : List String → List String
sorted [] = []
sorted (s ∷ ss) = insert s (sorted ss)

abbrev pub same_names : List String → List String → Bool
same_names [] [] = true
same_names (s ∷ ss) (t ∷ ts) = s == t && same_names ss ts
same_names _ _ = false

abbrev pub pose_fields : List String
pose_fields = "x" ∷ "y" ∷ "z" ∷ "rx" ∷ "ry" ∷ "rz" ∷ []

abbrev pub is_pose_order : List String → Bool
is_pose_order norm =
    length norm == length pose_fields && same_names (sorted norm) (sorted pose_fields)

module _ {F : Type 0} where
  abbrev pub value_before : Option F → Result (List F) → Result (List F)
  value_before (some v) (ok vs) = ok (v ∷ vs)
  value_before _ _ = err action_step_error

  unfoldable pub values_at : Dict String F → List String → Result (List F)
  values_at d [] = ok []
  values_at d (name ∷ names) = value_before (get d name) (values_at d names)

  -- `_reorder_pose`
  unfoldable pub reorder_pose : Dict String F → List String → Result (List F)
  reorder_pose values order =
      let norm = map normalised order in
      if is_pose_order norm then values_at values norm else err action_step_error

  -- `_block_to_fields`, on the names in lower case
  unfoldable pub zip_fields : List String → List F → Dict String F → Dict String F
  zip_fields (name ∷ names) (v ∷ vs) d = zip_fields names vs (put d name v)
  zip_fields _ _ d = d

  abbrev pub block_to_fields : List F → List String → Dict String F
  block_to_fields raw order = zip_fields (map normalised order) raw []
