-- ===== src/Logbook/Coerced.antt =====
-- What `to_jsonable` of logbook/serialize.py returns.
use auto_weaver.Prelude.{
  ℕ, zero, suc, ◌+◌, String, ◌≡◌, refl, ◌⊎◌, Bool, true, false, inl, inr, arith, leb, ◌==◌,
  string_eq, eq_iff, if◌then◌else◌, Bool-cases,
}
use auto_weaver.Value.{Exn, Result, ok, err}
use auto_weaver.Logbook
use auto_weaver.Logbook.{
  Scalar, text, Json, scalar, array, object, foreign, Members, end, member, Py, plain, path, moment,
  duration, path_like, bytes, numpy, instance_of, odd_instance, sequence, mapping, other, Values,
  Entries, entry, Python,
}
use auto_weaver.Logbook.Serialize.{
  put_member, array_of, or_text, cons_item, with_member, at_depth, to_jsonable, to_items,
  to_members,
}

abbrev pub has_member : {F : Type 0} → String → Members F → Bool
has_member k end = false
has_member k (member j v ms) = if j == k then true else has_member k ms

-- JSON, which nothing in it is foreign to, with at most `n` lists and objects inside each other, whose objects have each key once
unfoldable mutual
  pub IsPlain : {F : Type 0} → ℕ → Json F → Type 0
  IsPlain n (scalar s) = Unit
  IsPlain n (foreign i) = ⊥
  IsPlain zero (array js) = ⊥
  IsPlain (suc n) (array js) = ArePlain n js
  IsPlain zero (object ms) = ⊥
  IsPlain (suc n) (object ms) = HavePlain n ms

  pub ArePlain : {F : Type 0} → ℕ → Logbook.Items F → Type 0
  ArePlain n Logbook.Items.nil = Unit
  ArePlain n (Logbook.Items.cons j js) = IsPlain n j × ArePlain n js

  pub HavePlain : {F : Type 0} → ℕ → Members F → Type 0
  HavePlain n end = Unit
  HavePlain n (member k j ms) = (has_member k ms ≡ false) × IsPlain n j × HavePlain n ms

-- a predicate on what is returned, if anything is
abbrev pub Returned : {A : Type 0} → (A → Type 0) → Result A → Type 0
Returned P (err e) = Unit
Returned P (ok a) = P a

-- What `tolist` and `item` of NumPy and `__fspath__` return is JSON that goes no deeper than `n` levels,
-- from where the value stands; below that depth anything may stand.
unfoldable mutual
  unfolding IsPlain

  pub IsSmall : {F : Type 0} → ℕ → Py F → Type 0
  IsSmall zero v = Unit
  IsSmall (suc n) (numpy j) = IsPlain (suc n) j
  IsSmall (suc n) (path_like r) = Returned (IsPlain (suc n)) r
  IsSmall (suc n) (instance_of es) = HaveSmall n es
  IsSmall (suc n) (sequence vs) = AreSmall n vs
  IsSmall (suc n) (mapping es) = HaveSmall n es
  IsSmall (suc n) _ = Unit

  pub AreSmall : {F : Type 0} → ℕ → Values F → Type 0
  AreSmall n Logbook.Values.nil = Unit
  AreSmall n (Logbook.Values.cons v vs) = IsSmall n v × AreSmall n vs

  pub HaveSmall : {F : Type 0} → ℕ → Entries F → Type 0
  HaveSmall n Logbook.Entries.end = Unit
  HaveSmall n (entry k v es) = IsSmall n v × HaveSmall n es

-- The value is, or has among its items, not counting what stands in dicts and dataclasses, an
-- `os.PathLike` whose `__fspath__` raises `e`.
unfoldable mutual
  pub HasRaising : {F : Type 0} → Exn → Py F → Type 0
  HasRaising e (path_like r) = r ≡ err e
  HasRaising e (sequence vs) = HaveRaising e vs
  HasRaising e _ = ⊥

  pub HaveRaising : {F : Type 0} → Exn → Values F → Type 0
  HaveRaising e Logbook.Values.nil = ⊥
  HaveRaising e (Logbook.Values.cons v vs) = HasRaising e v ⊎ HaveRaising e vs

pub has-put_member :
    {F : Type 0} (k i : String) (j : Json F) (ms : Members F)
    → has_member i (put_member k j ms) ≡ (if k == i then true else has_member i ms)
unfolding put_member
has-put_member k i j end = refl
has-put_member k i j (member l w ms) =
    ground (arith, has-put_member k i j ms, eq_iff k i, eq_iff l k, eq_iff l i)

put_member-HavePlain :
    {F : Type 0} (n : ℕ) (k : String) (j : Json F) (ms : Members F)
    → IsPlain n j
    → HavePlain n ms
    → HavePlain n (put_member k j ms)
unfolding put_member IsPlain
put_member-HavePlain n k j end p h = (refl, p, tt)
put_member-HavePlain n k j (member i w ms) p (f, q, h) = elim (Bool-cases (i == k)) [
  | inl e ↦ rw e (f, p, h)
  | inr e ↦ rw e (
    ground (arith, has-put_member k i j ms, f, e, eq_iff i k, eq_iff k i),
    q,
    put_member-HavePlain n k j ms p h,
  )
]

module _ (P : Python) where
  at_depth-IsPlain :
      (d n : ℕ) (v : Py P.Number) (r : Result (Json P.Number))
      → d + n ≡ 24
      → (¬ n ≡ 0 → Returned (IsPlain n) r)
      → Returned (IsPlain n) (at_depth P d v r)
  unfolding IsPlain
  at_depth-IsPlain d zero v r e h = let full : leb 24 d ≡ true = ground (arith, e) in rw full tt
  at_depth-IsPlain d (suc n) v r e h =
      let below : leb 24 d ≡ false = ground (arith, e) in
      rw below (h (λ q. absurd (omega (arith, q))))

  array_of-IsPlain :
      (n : ℕ) (r : Result (Logbook.Items P.Number))
      → Returned (ArePlain n) r
      → Returned (IsPlain (suc n)) (array_of r)
  unfolding IsPlain
  array_of-IsPlain n (err e) h = tt
  array_of-IsPlain n (ok js) h = h

  or_text-IsPlain :
      (n : ℕ) (s : String) (r : Result (Members P.Number))
      → Returned (HavePlain n) r
      → Returned (IsPlain (suc n)) (or_text s r)
  unfolding IsPlain
  or_text-IsPlain n s (err e) h = tt
  or_text-IsPlain n s (ok ms) h = h

  cons_item-ArePlain :
      (n : ℕ) (r : Result (Json P.Number)) (rest : Result (Logbook.Items P.Number))
      → Returned (IsPlain n) r
      → Returned (ArePlain n) rest
      → Returned (ArePlain n) (cons_item r rest)
  unfolding IsPlain
  cons_item-ArePlain n (err e) rest h k = tt
  cons_item-ArePlain n (ok j) (err e) h k = tt
  cons_item-ArePlain n (ok j) (ok js) h k = (h, k)

  with_member-HavePlain :
      (n : ℕ) (k : Result String) (r : Result (Json P.Number)) (ms : Members P.Number)
      (rest : Members P.Number → Result (Members P.Number))
      → Returned (IsPlain n) r
      → HavePlain n ms
      → ((ms' : Members P.Number) → HavePlain n ms' → Returned (HavePlain n) (rest ms'))
      → Returned (HavePlain n) (with_member k r ms rest)
  with_member-HavePlain n (err e) r ms rest h p f = tt
  with_member-HavePlain n (ok k) (err e) ms rest h p f = tt
  with_member-HavePlain n (ok k) (ok j) ms rest h p f =
      f (put_member k j ms) (put_member-HavePlain n k j ms h p)

  -- what is returned, `n` levels above the limit, nests at most that deep
  mutual
    unfolding to_jsonable IsPlain IsSmall

    pub to_jsonable-Returned :
        (d n : ℕ) (v : Py P.Number)
        → d + n ≡ 24
        → IsSmall n v
        → Returned (IsPlain n) (to_jsonable P d v)
    to_jsonable-Returned d n (plain s) e h = tt
    to_jsonable-Returned d n (path s) e h = at_depth-IsPlain d n (path s) _ e (λ _. tt)
    to_jsonable-Returned d n (moment s) e h = at_depth-IsPlain d n (moment s) _ e (λ _. tt)
    to_jsonable-Returned d n (duration t) e h = at_depth-IsPlain d n (duration t) _ e (λ _. tt)
    to_jsonable-Returned d zero (path_like r) e h =
        at_depth-IsPlain d zero (path_like r) _ e (λ q. absurd (q refl))
    to_jsonable-Returned d (suc n) (path_like r) e h =
        at_depth-IsPlain d (suc n) (path_like r) r e (λ _. h)
    to_jsonable-Returned d n (bytes m) e h = at_depth-IsPlain d n (bytes m) _ e (λ _. tt)
    to_jsonable-Returned d zero (numpy j) e h =
        at_depth-IsPlain d zero (numpy j) _ e (λ q. absurd (q refl))
    to_jsonable-Returned d (suc n) (numpy j) e h =
        at_depth-IsPlain d (suc n) (numpy j) (ok j) e (λ _. h)
    to_jsonable-Returned d zero (instance_of es) e h =
        at_depth-IsPlain d zero (instance_of es) _ e (λ q. absurd (q refl))
    to_jsonable-Returned d (suc n) (instance_of es) e h =
        at_depth-IsPlain d (suc n) (instance_of es) _ e (λ _.
          or_text-IsPlain n _ (to_members P (suc d) es end)
            (members-HavePlain (suc d) n es end (omega (arith, e)) h tt))
    to_jsonable-Returned d n (odd_instance i) e h = tt
    to_jsonable-Returned d zero (sequence vs) e h =
        at_depth-IsPlain d zero (sequence vs) _ e (λ q. absurd (q refl))
    to_jsonable-Returned d (suc n) (sequence vs) e h =
        at_depth-IsPlain d (suc n) (sequence vs) _ e (λ _.
          array_of-IsPlain n (to_items P (suc d) vs)
            (items-ArePlain (suc d) n vs (omega (arith, e)) h))
    to_jsonable-Returned d zero (mapping es) e h =
        at_depth-IsPlain d zero (mapping es) _ e (λ q. absurd (q refl))
    to_jsonable-Returned d (suc n) (mapping es) e h =
        at_depth-IsPlain d (suc n) (mapping es) _ e (λ _.
          or_text-IsPlain n _ (to_members P (suc d) es end)
            (members-HavePlain (suc d) n es end (omega (arith, e)) h tt))
    to_jsonable-Returned d n (other i) e h = tt

    items-ArePlain :
        (d n : ℕ) (vs : Values P.Number)
        → d + n ≡ 24
        → AreSmall n vs
        → Returned (ArePlain n) (to_items P d vs)
    items-ArePlain d n Logbook.Values.nil e h = tt
    items-ArePlain d n (Logbook.Values.cons v vs) e h =
        cons_item-ArePlain n (to_jsonable P d v) (to_items P d vs)
          (to_jsonable-Returned d n v e h.0) (items-ArePlain d n vs e h.1)

    members-HavePlain :
        (d n : ℕ) (es : Entries P.Number) (ms : Members P.Number)
        → d + n ≡ 24
        → HaveSmall n es
        → HavePlain n ms
        → Returned (HavePlain n) (to_members P d es ms)
    members-HavePlain d n Logbook.Entries.end ms e h p = p
    members-HavePlain d n (entry k v es) ms e h p =
        with_member-HavePlain n k (to_jsonable P d v) ms (λ ms'. to_members P d es ms')
          (to_jsonable-Returned d n v e h.0) p (λ ms' p'. members-HavePlain d n es ms' e h.1 p')
