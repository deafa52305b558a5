-- ===== src/Frames/Files.antt =====
-- A calibration file that frames/schema.py reads, and frames/frames.py loads.
use auto_weaver.Prelude.{
  String, ◌≡◌, refl, sym, ◌∙◌, Bool, true, false, Option, some, List, [], ◌∷◌, inl, inr, arith,
  ◌==◌, string_eq, Pair, pair_eq, if◌then◌else◌, Bool-cases,
}
use mathlib.Core.Path.{subst}
use auto_weaver.Dict.{Dict, put, has, has-eq_get, get-put}
use auto_weaver.Value.{Result, ok, err, value_error, Result-cases}
use auto_weaver.Frames
use auto_weaver.Frames.{
  Transform, fixed, dynamic, Edge, FrameEdge, no_frames, bind_unless, bind_dynamic, add_entry,
}
use auto_weaver.Frames.Schema
use auto_weaver.Frames.Schema.{
  Yaml, Yamls, Transforms, is_in, field_of, parse_item, with_edge, cons_edge, parse_items,
  load_frames,
}

-- No name is among those seen, and none comes twice.
abbrev pub AreNew : {M : Type 0} → List String → List (FrameEdge M) → Type 0
AreNew seen [] = Unit
AreNew seen (e ∷ es) = (is_in e.name seen ≡ false) × AreNew (e.name ∷ seen) es

module _ {M : Type 0} (T : Transforms M) where
  cons_edge-cases :
      (edge : FrameEdge M) (r : Result (List (FrameEdge M))) (es : List (FrameEdge M))
      → cons_edge (ok edge) r ≡ ok es
      → (rest : List (FrameEdge M)) × (r ≡ ok rest) × (es ≡ edge ∷ rest)
  cons_edge-cases edge (err e) es h = absurd (cc)
  cons_edge-cases edge (ok rest) es h = (rest, refl, (cc))

  with_edge-cases :
      (edge : FrameEdge M) (seen : List String) (rest : List String → Result (List (FrameEdge M)))
      (es : List (FrameEdge M))
      → with_edge (ok edge) seen rest ≡ ok es
      → (is_in edge.name seen ≡ false) × (rest (edge.name ∷ seen) ≡ ok es)
  with_edge-cases edge seen rest es h = elim (Bool-cases (is_in edge.name seen)) [
    | inl e ↦
        let refused : with_edge (ok edge) seen rest ≡ err value_error = rw e refl in absurd (cc)
    | inr e ↦
        let passed : with_edge (ok edge) seen rest ≡ rest (edge.name ∷ seen) = rw e refl in
        (e, sym passed ∙ h)
  ]

  parse_items-AreNew :
      (ys : Yamls) (seen : List String) (es : List (FrameEdge M))
      → parse_items T ys seen ≡ ok es
      → AreNew seen es
  unfolding parse_items
  parse_items-AreNew Yamls.nil seen es h =
      let none_left : [] ≡ es = (cc) in subst (AreNew seen) none_left tt
  parse_items-AreNew (Yamls.cons y ys) seen es h = elim (Result-cases (parse_item T y)) [
    | inr (x, e) ↦
        let raised : with_edge (parse_item T y) seen
              (λ more. cons_edge (parse_item T y) (parse_items T ys more))
            ≡ err x =
          rw e refl in
        absurd (cc)
    | inl (edge, e) ↦
        let (fresh, rest) =
          with_edge-cases edge seen (λ more. cons_edge (ok edge) (parse_items T ys more)) es
            (subst (λ r. with_edge r seen (λ more. cons_edge r (parse_items T ys more)) ≡ ok es) e
              h) in
        let (tail, found, all) =
          cons_edge-cases edge (parse_items T ys (edge.name ∷ seen)) es rest in
        subst (AreNew seen) (sym all) (fresh, parse_items-AreNew ys (edge.name ∷ seen) tail found)
  ]

-- the dynamic edges so far lead to frames that were seen
abbrev AreSeen : {M : Type 0} → List String → Frames.Frames M → Type 0
AreSeen seen f =
    (p n : String)
    → has f.dynamic_edges (record { first = p; second = n }) ≡ true
    → is_in n seen ≡ true

is_in-cons : (n k : String) (seen : List String) → is_in n seen ≡ true → is_in n (k ∷ seen) ≡ true
is_in-cons n k seen h = ground (arith, h)

has-put_edge :
    {M : Type 0} (d : Dict (Pair String String) (Edge M)) (k j : Pair String String) (v : Edge M)
    → has (put d k v) j ≡ (if k == j then true else has d j)
has-put_edge d k j v = ground (arith, has-eq_get (put d k v) j, has-eq_get d j, get-put d k j v)

-- a dynamic edge to a frame that was not seen is bound
bind_unless-AreSeen :
    {M : Type 0} (b : Bool) (edge : Edge M) (seen : List String) (f : Frames.Frames M)
    → has f.dynamic_edges (record { first = edge.parent; second = edge.child }) ≡ b
    → is_in edge.child seen ≡ false
    → AreSeen seen f
    → ((bind_unless b edge f).0 ≡ ok tt) × AreSeen (edge.child ∷ seen) (bind_unless b edge f).1
bind_unless-AreSeen true edge seen f e n h = let met = h edge.parent edge.child e in absurd (cc)
bind_unless-AreSeen false edge seen f e n h = (
  refl,
  λ p k q. elim (Bool-cases (edge.child == k)) [
    | inl y ↦ ground (arith, y)
    | inr y ↦
        let old =
          has-put_edge f.dynamic_edges (record { first = edge.parent; second = edge.child })
            (record { first = p; second = k }) edge in
        is_in-cons k edge.child seen (h p k (ground (arith, old, q, y)))
  ],
)

add_entry-AreSeen :
    {M : Type 0} (t : Transform M) (e : FrameEdge M) (seen : List String) (f : Frames.Frames M)
    → is_in e.name seen ≡ false
    → AreSeen seen f
    → ((add_entry t e f).0 ≡ ok tt) × AreSeen (e.name ∷ seen) (add_entry t e f).1
unfolding bind_dynamic
add_entry-AreSeen (fixed m) e seen f n h = (refl, λ p k q. is_in-cons k e.name seen (h p k q))
add_entry-AreSeen (dynamic key required) e seen f n h =
    bind_unless-AreSeen (has f.dynamic_edges (record { first = e.parent; second = e.name })) _ seen
      f refl n h

load_from-AreNew :
    {M : Type 0} (es : List (FrameEdge M)) (seen : List String) (f : Frames.Frames M)
    → AreNew seen es
    → AreSeen seen f
    → (Frames.load es f).0 ≡ ok tt
unfolding Frames.load
load_from-AreNew [] seen f n h = refl
load_from-AreNew (e ∷ es) seen f (fresh, n) h =
    let (bound, seen_now) = add_entry-AreSeen e.transform e seen f fresh h in
    rw bound (load_from-AreNew es (e.name ∷ seen) (add_entry e.transform e f).1 n seen_now)

no_edge :
    (M : Type 0) (p n : String)
    → has (no_frames {M = M}).dynamic_edges (record { first = p; second = n }) ≡ true
    → ⊥
unfolding has
no_edge M p n h = cc

load_frames-AreNew :
    {M : Type 0} (T : Transforms M) (o : Option Yaml) (es : List (FrameEdge M))
    → load_frames T o ≡ ok es
    → AreNew [] es
load_frames-AreNew T (some (Yaml.sequence ys)) es h = parse_items-AreNew T ys [] es h
load_frames-AreNew T _ es h = absurd (cc)

-- The entries of a calibration file that is read without an error have names that are all different,
-- and loading them raises nothing: no two of its dynamic edges are the same.
pub load-AreNew :
    {M : Type 0} (T : Transforms M) (raw : Yaml) (es : List (FrameEdge M))
    → Schema.load T raw ≡ ok es
    → AreNew [] es × ((Frames.load es no_frames).0 ≡ ok tt)
unfolding Schema.load
load-AreNew {M = M} T (Yaml.mapping fs) es h =
    let n = load_frames-AreNew T (field_of fs "frames") es h in
    (n, load_from-AreNew es [] no_frames n (λ p k q. absurd (no_edge M p k q)))
load-AreNew {M = M} T _ es h = absurd (cc)
