-- ===== src/Comm/Poses.antt =====
-- Poses on the wire of comm/modbus_primitive.py.
use auto_weaver.Prelude.{
  String, ◌≡◌, refl, sym, ap, ◌∙◌, Bool, true, false, ◌&&◌, Option, none, some, List, [], ◌∷◌, map,
  length, arith, eq_iff, ◌==◌, nat_eq, string_eq, if◌then◌else◌,
}
use auto_weaver.Dict.{Dict, get, put, get-put}
use auto_weaver.Value.{Result, ok, err, action_step_error}
use auto_weaver.Comm.{
  normalised, sorted, insert, same_names, pose_fields, is_pose_order, values_at, value_before,
  reorder_pose, zip_fields, block_to_fields,
}

-- a name is in a list
abbrev pub is_in : String → List String → Bool
is_in s [] = false
is_in s (t ∷ ts) = if s == t then true else is_in s ts

is_in-insert : (s t : String) (ts : List String) → is_in s (insert t ts) ≡ is_in s (t ∷ ts)
is_in-insert s t [] = refl
is_in-insert s t (u ∷ ts) = ground (arith, is_in-insert s t ts)

is_in-sorted : (s : String) (ts : List String) → is_in s (sorted ts) ≡ is_in s ts
unfolding sorted
is_in-sorted s [] = refl
is_in-sorted s (t ∷ ts) =
    is_in-insert s t (sorted ts) ∙ ap (λ b. if s == t then true else b) (is_in-sorted s ts)

same_names_eq : (ss ts : List String) → same_names ss ts ≡ true → ss ≡ ts
same_names_eq [] [] h = refl
same_names_eq [] (t ∷ ts) h = absurd (cc)
same_names_eq (s ∷ ss) [] h = absurd (cc)
same_names_eq (s ∷ ss) (t ∷ ts) h = ground (arith, eq_iff s t, same_names_eq ss ts, h)

and_true : (a b : Bool) → (a && b) ≡ true → (a ≡ true) × (b ≡ true)
and_true a b h = ground (arith, h)

-- the names of a pose are all in an order that the check accepts
is_in-pose_order :
    (norm : List String) (s : String)
    → is_pose_order norm ≡ true
    → is_in s pose_fields ≡ true
    → is_in s norm ≡ true
is_in-pose_order norm s h f =
    let same : sorted norm ≡ sorted pose_fields =
      same_names_eq (sorted norm) (sorted pose_fields)
        (and_true (length norm == length pose_fields)
          (same_names (sorted norm) (sorted pose_fields)) h).1 in
    sym (is_in-sorted s norm) ∙ ap (is_in s) same ∙ is_in-sorted s pose_fields ∙ f

module _ {F : Type 0} where
  value_before-cases :
      (o : Option F) (r : Result (List F)) (raw : List F)
      → value_before o r ≡ ok raw
      → (v : F) × (vs : List F) × (o ≡ some v) × (r ≡ ok vs) × (raw ≡ v ∷ vs)
  value_before-cases none r raw h = absurd (cc)
  value_before-cases (some v) (err e) raw h = absurd (cc)
  value_before-cases (some v) (ok vs) raw h = (v, vs, refl, refl, (cc))

  -- zipping the names with the values found under them gives each name its value, on top of what
  -- the dict had
  get-zip_fields :
      (pose : Dict String F) (names : List String) (raw : List F) (d : Dict String F) (s : String)
      → values_at pose names ≡ ok raw
      → get (zip_fields names raw d) s ≡ (if is_in s names then get pose s else get d s)
  unfolding values_at zip_fields
  get-zip_fields pose [] raw d s h = refl
  get-zip_fields pose (name ∷ names) [] d s h =
      let (v, vs, e, r, q) = value_before-cases (get pose name) (values_at pose names) [] h in
      absurd (cc)
  get-zip_fields pose (name ∷ names) (u ∷ us) d s h =
      let (v, vs, e, r, q) = value_before-cases (get pose name) (values_at pose names) (u ∷ us) h in
      let same : get pose name ≡ some u = (cc) in
      let rest : values_at pose names ≡ ok us = (cc) in
      get-zip_fields pose names us (put d name u) s rest
      ∙ ground (arith, get-put d name s u, same, eq_iff s name, eq_iff name s)

  reorder_pose-cases :
      (b : Bool) (r : Result (List F)) (raw : List F)
      → (if b then r else err action_step_error) ≡ ok raw
      → (b ≡ true) × (r ≡ ok raw)
  reorder_pose-cases true r raw h = (refl, h)
  reorder_pose-cases false r raw h = absurd (cc)

-- A pose whose values were put into the order of a block, and the block read back into the same
-- order, has in each of the six fields of a pose the value that was written.
fields-reorder_pose :
    {F : Type 0} (pose : Dict String F) (order : List String) (raw : List F) (field : String)
    → reorder_pose pose order ≡ ok raw
    → is_in field pose_fields ≡ true
    → get (block_to_fields raw order) field ≡ get pose field
unfolding reorder_pose
fields-reorder_pose pose order raw field h f =
    let norm = map normalised order in
    let (accepted, found) = reorder_pose-cases (is_pose_order norm) (values_at pose norm) raw h in
    get-zip_fields pose norm raw [] field found
    ∙ ap (λ b. if b then get pose field else get [] field) (is_in-pose_order norm field accepted f)
