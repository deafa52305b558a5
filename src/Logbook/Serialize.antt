-- ===== src/Logbook/Serialize.antt =====
-- logbook/serialize.py.
use auto_weaver.Prelude.{ℕ, suc, String, none, some, leb, ◌==◌, string_eq, if◌then◌else◌}
use auto_weaver.Value.{Result, ok, err}
use auto_weaver.Logbook
use auto_weaver.Logbook.{
  Scalar, null, boolean, number, text, Json, scalar, array, object, Members, end, member, Py, plain,
  path, moment, duration, path_like, bytes, numpy, instance_of, odd_instance, sequence, mapping,
  other, Values, Entries, entry, Python,
}

-- an assignment to a key of an object
unfoldable pub put_member : {F : Type 0} → String → Json F → Members F → Members F
put_member k v end = member k v end
put_member k v (member j w ms) =
    let rest = put_member k v ms in if j == k then member j v ms else member j w rest

module _ {F : Type 0} where
  abbrev pub array_of : Result (Logbook.Items F) → Result (Json F)
  array_of (err e) = err e
  array_of (ok js) = ok (array js)

  -- `except Exception`, with the text that is written instead
  abbrev pub or_text : String → Result (Members F) → Result (Json F)
  or_text s (err e) = ok (scalar (text s))
  or_text s (ok ms) = ok (object ms)

  -- an item in front of those behind it, which are not converted if it raises
  abbrev pub cons_item : Result (Json F) → Result (Logbook.Items F) → Result (Logbook.Items F)
  cons_item (err e) rest = err e
  cons_item (ok j) (err e) = err e
  cons_item (ok j) (ok js) = ok (Logbook.Items.cons j js)

  -- the entries behind one, with its key and its value
  abbrev pub with_member :
      Result String
      → Result (Json F)
      → Members F
      → (Members F → Result (Members F))
      → Result (Members F)
  with_member (err e) r ms rest = err e
  with_member (ok k) (err e) ms rest = err e
  with_member (ok k) (ok j) ms rest = rest (put_member k j ms)

module _ (P : Python) where
  -- `_safe_repr`
  abbrev pub safe_repr : Py P.Number → String
  safe_repr v = elim (P.repr v) [
    | some s ↦ s
    | none ↦ elim (P.unreprable v) [ some s ↦ s | none ↦ "<unreprable>" ]
  ]

  -- `_depth >= _MAX_DEPTH`
  abbrev pub at_depth : ℕ → Py P.Number → Result (Json P.Number) → Result (Json P.Number)
  at_depth depth v r = if leb 24 depth then ok (scalar (text (safe_repr v))) else r

  unfoldable mutual
    unfolding put_member

    pub to_jsonable : ℕ → Py P.Number → Result (Json P.Number)
    to_jsonable depth (plain s) = ok (scalar s)
    to_jsonable depth (path s) = at_depth depth (path s) (ok (scalar (text s)))
    to_jsonable depth (moment s) = at_depth depth (moment s) (ok (scalar (text s)))
    to_jsonable depth (duration t) = at_depth depth (duration t) (ok (scalar (number t)))
    to_jsonable depth (path_like r) = at_depth depth (path_like r) r
    to_jsonable depth (bytes n) = at_depth depth (bytes n) (ok (scalar (text (P.bytes_text n))))
    to_jsonable depth (numpy j) = at_depth depth (numpy j) (ok j)
    to_jsonable depth (instance_of es) =
        at_depth depth (instance_of es)
          (or_text (safe_repr (instance_of es)) (to_members (suc depth) es end))
    to_jsonable depth (odd_instance i) = ok (scalar (text (safe_repr (odd_instance i))))
    to_jsonable depth (sequence vs) =
        at_depth depth (sequence vs) (array_of (to_items (suc depth) vs))
    to_jsonable depth (mapping es) =
        at_depth depth (mapping es)
          (or_text (safe_repr (mapping es)) (to_members (suc depth) es end))
    to_jsonable depth (other i) = ok (scalar (text (safe_repr (other i))))

    pub to_items : ℕ → Values P.Number → Result (Logbook.Items P.Number)
    to_items depth Logbook.Values.nil = ok Logbook.Items.nil
    to_items depth (Logbook.Values.cons v vs) = cons_item (to_jsonable depth v) (to_items depth vs)

    pub to_members : ℕ → Entries P.Number → Members P.Number → Result (Members P.Number)
    to_members depth Logbook.Entries.end ms = ok ms
    to_members depth (entry k v es) ms =
        with_member k (to_jsonable depth v) ms (λ ms'. to_members depth es ms')
