-- ===== src/Logbook/Lossless.antt =====
-- When `to_jsonable` of logbook/serialize.py returns, and what it leaves as it is.
use auto_weaver.Prelude.{
  ℕ, zero, suc, ◌+◌, String, ◌≡◌, refl, sym, ap, ◌∙◌, ◌⊎◌, false, arith, inl, inr, leb, ◌==◌,
  string_eq, eq_iff, Bool-cases,
}
use auto_weaver.Value.{Exn, Result, ok, err}
use auto_weaver.Logbook
use auto_weaver.Logbook.{
  Scalar, Json, scalar, array, object, foreign, Members, end, member, Py, plain, path, moment,
  duration, path_like, bytes, numpy, instance_of, odd_instance, sequence, mapping, other, Values,
  Entries, entry, Python,
}
use auto_weaver.Logbook.Serialize.{
  put_member, array_of, or_text, cons_item, at_depth, to_jsonable, to_items, to_members,
}
use auto_weaver.Logbook.Coerced.{
  has_member, IsPlain, IsSmall, HasRaising, Returned, has-put_member, to_jsonable-Returned,
}

-- what is returned, or else raised for a reason
abbrev HasEnded : {A : Type 0} → (Exn → Type 0) → Result A → Type 0
HasEnded {A} W r = ((a : A) × (r ≡ ok a)) ⊎ ((e : Exn) × (r ≡ err e) × W e)

module _ (P : Python) where
  at_depth-HasEnded :
      {W : Exn → Type 0} (d : ℕ) (v : Py P.Number) (r : Result (Json P.Number))
      → HasEnded W r
      → HasEnded W (at_depth P d v r)
  at_depth-HasEnded d v r h = elim (Bool-cases (leb 24 d)) [
    | inl e ↦ rw e (inl (_, refl))
    | inr e ↦ rw e h
  ]

  or_text-HasEnded :
      {W : Exn → Type 0} (s : String) (r : Result (Members P.Number)) → HasEnded W (or_text s r)
  or_text-HasEnded s (err e) = inl (_, refl)
  or_text-HasEnded s (ok ms) = inl (_, refl)

  array_of-HasEnded :
      {W : Exn → Type 0} (r : Result (Logbook.Items P.Number))
      → HasEnded W r
      → HasEnded W (array_of r)
  array_of-HasEnded r (inl (js, e)) = inl (array js, ap array_of e)
  array_of-HasEnded r (inr (x, e, w)) = inr (x, ap array_of e, w)

  path_like-HasEnded : (r : Result (Json P.Number)) → HasEnded (λ e. r ≡ err e) r
  path_like-HasEnded (ok j) = inl (j, refl)
  path_like-HasEnded (err e) = inr (e, refl, refl)

  cons_item-HasEnded :
      {V W : Exn → Type 0} (r : Result (Json P.Number)) (rest : Result (Logbook.Items P.Number))
      → HasEnded V r
      → HasEnded W rest
      → HasEnded (λ e. V e ⊎ W e) (cons_item r rest)
  cons_item-HasEnded r rest (inr (x, e, v)) h = rw e (inr (x, refl, inl v))
  cons_item-HasEnded r rest (inl (j, e)) (inr (x, f, w)) = rw (e, f) (inr (x, refl, inr w))
  cons_item-HasEnded r rest (inl (j, e)) (inl (js, f)) =
      rw (e, f) (inl (Logbook.Items.cons j js, refl))

  mutual
    unfolding to_jsonable HasRaising

    to_jsonable-HasEnded :
        (d : ℕ) (v : Py P.Number) → HasEnded (λ e. HasRaising e v) (to_jsonable P d v)
    to_jsonable-HasEnded d (plain s) = inl (_, refl)
    to_jsonable-HasEnded d (path s) = at_depth-HasEnded d (path s) _ (inl (_, refl))
    to_jsonable-HasEnded d (moment s) = at_depth-HasEnded d (moment s) _ (inl (_, refl))
    to_jsonable-HasEnded d (duration t) = at_depth-HasEnded d (duration t) _ (inl (_, refl))
    to_jsonable-HasEnded d (path_like r) =
        at_depth-HasEnded d (path_like r) r (path_like-HasEnded r)
    to_jsonable-HasEnded d (bytes m) = at_depth-HasEnded d (bytes m) _ (inl (_, refl))
    to_jsonable-HasEnded d (numpy j) = at_depth-HasEnded d (numpy j) _ (inl (j, refl))
    to_jsonable-HasEnded d (instance_of es) =
        at_depth-HasEnded d (instance_of es) _ (or_text-HasEnded _ (to_members P (suc d) es end))
    to_jsonable-HasEnded d (odd_instance i) = inl (_, refl)
    to_jsonable-HasEnded d (sequence vs) =
        at_depth-HasEnded d (sequence vs) _
          (array_of-HasEnded (to_items P (suc d) vs) (to_items-HasEnded (suc d) vs))
    to_jsonable-HasEnded d (mapping es) =
        at_depth-HasEnded d (mapping es) _ (or_text-HasEnded _ (to_members P (suc d) es end))
    to_jsonable-HasEnded d (other i) = inl (_, refl)

    to_items-HasEnded :
        (d : ℕ) (vs : Values P.Number)
        → HasEnded (λ e. Logbook.Coerced.HaveRaising e vs) (to_items P d vs)
    to_items-HasEnded d Logbook.Values.nil = inl (_, refl)
    to_items-HasEnded d (Logbook.Values.cons v vs) =
        cons_item-HasEnded (to_jsonable P d v) (to_items P d vs) (to_jsonable-HasEnded d v)
          (to_items-HasEnded d vs)

  HasEnded-IsPlain :
      {W : Exn → Type 0} (r : Result (Json P.Number))
      → HasEnded W r
      → Returned (IsPlain 24) r
      → ((j : Json P.Number) × (r ≡ ok j) × IsPlain 24 j) ⊎ ((e : Exn) × (r ≡ err e) × W e)
  HasEnded-IsPlain r (inl (j, e)) h =
      inl (j, e, mathlib.Core.Path.subst (Returned (IsPlain 24)) e h)
  HasEnded-IsPlain r (inr w) h = inr w

  -- Coercing a value returns JSON that nests at most 24 lists and objects and has each key of an object
  -- once, or raises what a `__fspath__` raises that stands in no dict and no dataclass: however deep the
  -- value is, whatever its keys, the fields of its dataclasses and the `repr` of its parts raise, if what
  -- NumPy and `__fspath__` return above that depth is JSON that does not reach below it.
  pub to_jsonable-IsPlain :
      (v : Py P.Number)
      → IsSmall 24 v
      → ((j : Json P.Number) × (to_jsonable P 0 v ≡ ok j) × IsPlain 24 j)
        ⊎ ((e : Exn) × (to_jsonable P 0 v ≡ err e) × HasRaising e v)
  to_jsonable-IsPlain v small =
      HasEnded-IsPlain (to_jsonable P 0 v) (to_jsonable-HasEnded 0 v)
        (to_jsonable-Returned P 0 24 v refl small)

-- the value that is JSON, or a foreign one
unfoldable mutual
  pub of_json : {F : Type 0} → Json F → Py F
  of_json (scalar s) = plain s
  of_json (array js) = sequence (of_items js)
  of_json (object ms) = mapping (of_members ms)
  of_json (foreign i) = other i

  pub of_items : {F : Type 0} → Logbook.Items F → Values F
  of_items Logbook.Items.nil = Logbook.Values.nil
  of_items (Logbook.Items.cons j js) = Logbook.Values.cons (of_json j) (of_items js)

  pub of_members : {F : Type 0} → Members F → Entries F
  of_members end = Logbook.Entries.end
  of_members (member k j ms) = entry (ok k) (of_json j) (of_members ms)

module _ {F : Type 0} where
  abbrev append_members : Members F → Members F → Members F
  append_members end ns = ns
  append_members (member k j ms) ns = member k j (append_members ms ns)

  -- no key of the second is in the first
  abbrev Apart : Members F → Members F → Type 0
  Apart ms end = Unit
  Apart ms (member k j ns) = (has_member k ms ≡ false) × Apart ms ns

  append_members-end : (ms : Members F) → append_members ms end ≡ ms
  append_members-end end = refl
  append_members-end (member k j ms) = ap (member k j) (append_members-end ms)

  -- a new key goes to the end
  append-put_member :
      (ms ns : Members F) (k : String) (j : Json F)
      → has_member k ms ≡ false
      → append_members (put_member k j ms) ns ≡ append_members ms (member k j ns)
  unfolding put_member
  append-put_member end ns k j h = refl
  append-put_member (member i w ms) ns k j h = elim (Bool-cases (i == k)) [
    | inl e ↦ absurd (ground (arith, h, e))
    | inr e ↦ rw e (ap (member i w) (append-put_member ms ns k j (ground (arith, h, e))))
  ]

  Apart-put_member :
      (ms ns : Members F) (k : String) (j : Json F)
      → Apart ms ns
      → has_member k ns ≡ false
      → Apart (put_member k j ms) ns
  Apart-put_member ms end k j h f = tt
  Apart-put_member ms (member i w ns) k j (g, h) f = (
    ground (arith, has-put_member k i j ms, g, f, eq_iff k i, eq_iff i k),
    Apart-put_member ms ns k j h (ground (arith, f)),
  )

  Apart-end : (ns : Members F) → Apart end ns
  Apart-end end = tt
  Apart-end (member k j ns) = (refl, Apart-end ns)

module _ (P : Python) where
  mutual
    unfolding to_jsonable IsPlain of_json

    to_jsonable-of_json_at :
        (d n : ℕ) (j : Json P.Number)
        → d + n ≡ 24
        → IsPlain n j
        → to_jsonable P d (of_json j) ≡ ok j
    to_jsonable-of_json_at d n (scalar s) e h = refl
    to_jsonable-of_json_at d n (foreign i) e h = absurd h
    to_jsonable-of_json_at d zero (array js) e h = absurd h
    to_jsonable-of_json_at d (suc n) (array js) e h =
        let below : leb 24 d ≡ false = ground (arith, e) in
        rw below (ap array_of (to_items-of_items (suc d) n js (omega (arith, e)) h))
    to_jsonable-of_json_at d zero (object ms) e h = absurd h
    to_jsonable-of_json_at d (suc n) (object ms) e h =
        let below : leb 24 d ≡ false = ground (arith, e) in
        rw below (
          ap (or_text _)
            (to_members-of_members (suc d) n ms end (omega (arith, e)) h (Apart-end ms)))

    to_items-of_items :
        (d n : ℕ) (js : Logbook.Items P.Number)
        → d + n ≡ 24
        → Logbook.Coerced.ArePlain n js
        → to_items P d (of_items js) ≡ ok js
    to_items-of_items d n Logbook.Items.nil e h = refl
    to_items-of_items d n (Logbook.Items.cons j js) e h =
        rw (to_jsonable-of_json_at d n j e h.0)
          (ap (cons_item (ok j)) (to_items-of_items d n js e h.1))

    to_members-of_members :
        (d n : ℕ) (ms acc : Members P.Number)
        → d + n ≡ 24
        → Logbook.Coerced.HavePlain n ms
        → Apart acc ms
        → to_members P d (of_members ms) acc ≡ ok (append_members acc ms)
    to_members-of_members d n end acc e h a = ap ok (sym (append_members-end acc))
    to_members-of_members d n (member k j ms) acc e (f, p, h) (g, a) =
        rw (to_jsonable-of_json_at d n j e p) (
          to_members-of_members d n ms (put_member k j acc) e h (Apart-put_member acc ms k j a f)
          ∙ ap ok (append-put_member acc ms k j g))

  -- Coercing loses nothing of a value that came from JSON: it gives back the same JSON, if that nests at
  -- most 24 lists and objects.
  pub to_jsonable-of_json : (j : Json P.Number) → IsPlain 24 j → to_jsonable P 0 (of_json j) ≡ ok j
  to_jsonable-of_json j h = to_jsonable-of_json_at 0 24 j refl h
