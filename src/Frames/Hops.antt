-- ===== src/Frames/Hops.antt =====
-- The edge that a hop of frames/frames.py takes.
use mathlib.Core.Path.{subst}
use mathlib.Core.List.{Memᴰ}
use mathlib.Core.List.Memᴰ
use auto_weaver.Prelude.{
  String, ◌≡◌, refl, sym, ap, ◌∙◌, true, false, ◌⊎◌, inl, inr, none, some, List, [], ◌∷◌, arith,
  string_eq, eq_iff, Bool-cases,
}
use auto_weaver.Frames.{Edge, is_dynamic, Adjacency, edges_at, other_end}
use auto_weaver.Frames.Walks.{Joined}
use auto_weaver.Frames.Build.{IsGraph}
use auto_weaver.Frames.Query.{joins, choose, edge_between}

-- What is chosen for a hop from `a` to `b`: an edge of the list that joins the two, and a dynamic one
-- if the list has one that does.
pub record IsChosen {M : Type 0} (a b : String) (edges : List (Edge M)) (edge : Edge M)
    : Type 0 where
  pub listed : Memᴰ edge edges
  pub joined : joins a b edge ≡ true
  pub dynamic_first :
      (other : Edge M)
      → Memᴰ other edges
      → joins a b other ≡ true
      → is_dynamic other.transform ≡ true
      → is_dynamic edge.transform ≡ true

module _ {M : Type 0} (a b : String) where
  -- an edge that does not join the two is passed over
  IsChosen-skip :
      (chosen e edge : Edge M) (edges : List (Edge M))
      → joins a b e ≡ false
      → IsChosen a b (chosen ∷ edges) edge
      → IsChosen a b (chosen ∷ e ∷ edges) edge
  IsChosen-skip chosen e edge edges n h = record {
    listed = elim (Memᴰ.cases_cons h.listed) [
      | inl p ↦ Memᴰ.head p
      | inr m ↦ Memᴰ.tail (Memᴰ.tail m)
    ];
    joined = h.joined;
    dynamic_first = λ o m j d. elim (Memᴰ.cases_cons m) [
      | inl p ↦ h.dynamic_first o (Memᴰ.head p) j d
      | inr k ↦ elim (Memᴰ.cases_cons k) [
        | inl p ↦ let same : joins a b o ≡ joins a b e = ap (joins a b) p in absurd (cc)
        | inr l ↦ h.dynamic_first o (Memᴰ.tail l) j d
      ]
    ];
  }

  -- a static edge gives way to one that comes later
  IsChosen-later :
      (old edge : Edge M) (edges : List (Edge M))
      → (joins a b old ≡ true → is_dynamic old.transform ≡ false)
      → IsChosen a b edges edge
      → IsChosen a b (old ∷ edges) edge
  IsChosen-later old edge edges s h = record {
    listed = Memᴰ.tail h.listed;
    joined = h.joined;
    dynamic_first = λ o m j d. elim (Memᴰ.cases_cons m) [
      | inl p ↦
          let joins_old : joins a b old ≡ true = sym (ap (joins a b) p) ∙ j in
          let same : is_dynamic o.transform ≡ is_dynamic old.transform =
            ap (λ x. is_dynamic x.transform) p in
          let static = s joins_old in absurd (cc)
      | inr k ↦ h.dynamic_first o k j d
    ];
  }

  -- the choice with a static edge chosen so far
  choose-some :
      (edges : List (Edge M)) (chosen : Edge M)
      → joins a b chosen ≡ true
      → is_dynamic chosen.transform ≡ false
      → (edge : Edge M) × (choose a b edges (some chosen) ≡ some edge)
        × IsChosen a b (chosen ∷ edges) edge
  unfolding choose
  choose-some [] chosen j s = (
    chosen,
    refl,
    record {
      listed = Memᴰ.head refl;
      joined = j;
      dynamic_first =
          λ o m k d. subst (λ x. is_dynamic x.transform ≡ true) (Memᴰ.eq_of_singleton m) d;
    },
  )
  choose-some (e ∷ edges) chosen j s = elim (Bool-cases (joins a b e)) [
    | inr n ↦
        let (x, q, h) = choose-some edges chosen j s in
        rw n (x, q, IsChosen-skip chosen e x edges n h)
    | inl y ↦ elim (Bool-cases (is_dynamic e.transform)) [
      | inl d ↦
          rw (y, d)
            (
              e,
              refl,
              record {
                listed = Memᴰ.tail (Memᴰ.head refl);
                joined = y;
                dynamic_first = λ o m k q. d;
              },
            )
      | inr d ↦
          let (x, q, h) = choose-some edges e y d in
          rw (y, d) (x, q, IsChosen-later chosen x (e ∷ edges) (λ _. s) h)
    ]
  ]

  choose-none :
      (edges : List (Edge M)) (one : Edge M)
      → Memᴰ one edges
      → joins a b one ≡ true
      → (edge : Edge M) × (choose a b edges none ≡ some edge) × IsChosen a b edges edge
  unfolding choose
  choose-none [] one m j = absurd (Memᴰ.not-nil m)
  choose-none (e ∷ edges) one m j = elim (Bool-cases (joins a b e)) [
    | inl y ↦ elim (Bool-cases (is_dynamic e.transform)) [
      | inl d ↦
          rw (y, d)
            (e, refl, record { listed = Memᴰ.head refl; joined = y; dynamic_first = λ o m k q. d })
      | inr d ↦ let (x, q, h) = choose-some edges e y d in rw (y, d) (x, q, h)
    ]
    | inr n ↦ elim (Memᴰ.cases_cons m) [
      | inl p ↦ let same : joins a b one ≡ joins a b e = ap (joins a b) p in absurd (cc)
      | inr k ↦
          let (x, q, h) = choose-none edges one k j in
          rw n (x, q, IsChosen-later e x edges (λ y. absurd (cc)) h)
    ]
  ]

joins-other_end :
    {M : Type 0} (a : String) (edge : Edge M)
    → (edge.parent ≡ a) ⊎ (edge.child ≡ a)
    → joins a (other_end a edge) edge ≡ true
joins-other_end a edge t = ground (
  arith,
  t,
  eq_iff edge.parent a,
  eq_iff edge.child a,
  eq_iff edge.child edge.child,
  eq_iff edge.parent edge.parent,
)

pub edge_between-IsChosen :
    {M : Type 0} (adj : Adjacency M) (a b : String)
    → IsGraph adj
    → Joined adj a b
    → (edge : Edge M) × (edge_between adj a b ≡ some edge) × IsChosen a b (edges_at adj a) edge
edge_between-IsChosen adj a b h (edge, m, e) =
    choose-none a b (edges_at adj a) edge m
      (ap (λ x. joins a x edge) (sym e) ∙ joins-other_end a edge (h.touches a edge m))
