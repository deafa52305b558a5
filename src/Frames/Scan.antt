-- ===== src/Frames/Scan.antt =====
-- The loop over the edges of one frame, in the search of frames/frames.py.
use auto_weaver.Prelude.{
  ℕ, suc, String, ◌≡◌, refl, ap, ◌∙◌, true, ◌⊎◌, inl, inr, Option, some, List, [], ◌∷◌, ◌++◌, arith,
  ◌==◌, string_eq, eq_iff, if◌then◌else◌, Bool-cases,
}
use mathlib.Core.Path.{subst}
use mathlib.Core.List.{Memᴰ}
use mathlib.Core.List.Memᴰ
use auto_weaver.Dict.{Dict, has, put, has-eq_get, get-put}
use auto_weaver.Frames.{Edge, Adjacency, other_end, Search, visit, offer, scan}

pub has-put :
    (d : Dict String (Option String)) (k j : String) (v : Option String)
    → has (put d k v) j ≡ (if k == j then true else has d j)
has-put d k j v = ground (arith, has-eq_get d j, has-eq_get (put d k v) j, get-put d k j v)

pub mem-concat : {A : Type 0} (x y : A) (l : List A) → Memᴰ x (l ++ y ∷ []) → Memᴰ x l ⊎ (x ≡ y)
mem-concat x y [] (Memᴰ.head e) = inr e
mem-concat x y [] (Memᴰ.tail m) = absurd (Memᴰ.not-nil m)
mem-concat x y (z ∷ l) (Memᴰ.head e) = inl (Memᴰ.head e)
mem-concat x y (z ∷ l) (Memᴰ.tail m) = elim (mem-concat x y l m) [
  | inl h ↦ inl (Memᴰ.tail h)
  | inr e ↦ inr e
]

pub mem-left : {A : Type 0} (x y : A) (l : List A) → Memᴰ x l → Memᴰ x (l ++ y ∷ [])
mem-left x y [] m = absurd (Memᴰ.not-nil m)
mem-left x y (z ∷ l) (Memᴰ.head e) = Memᴰ.head e
mem-left x y (z ∷ l) (Memᴰ.tail m) = Memᴰ.tail (mem-left x y l m)

pub mem-last : {A : Type 0} (y : A) (l : List A) → Memᴰ y (l ++ y ∷ [])
mem-last y [] = Memᴰ.head refl
mem-last y (z ∷ l) = Memᴰ.tail (mem-last y l)

-- how many of the frames of a graph the search has not met
abbrev pub unseen : {M : Type 0} → Adjacency M → Dict String (Option String) → ℕ
unseen [] prev = 0
unseen ((k, edges) ∷ adj) prev = let rest = unseen adj prev in if has prev k then rest else suc rest

-- What more of the scan leaves: nothing is lost, what is new is in the queue, and what was queued
-- stays in it.
pub record Extends (s t : Search) : Type 0 where
  pub old : (w : String) → has s.prev w ≡ true → has t.prev w ≡ true
  pub new : (w : String) → has t.prev w ≡ true → (has s.prev w ≡ true) ⊎ Memᴰ w t.queue
  pub queued : (w : String) → Memᴰ w s.queue → Memᴰ w t.queue
  pub met : (w : String) → Memᴰ w t.queue → Memᴰ w s.queue ⊎ (has t.prev w ≡ true)

Extends-refl : (s : Search) → Extends s s
Extends-refl s = record {
  old = λ w h. h;
  new = λ w h. inl h;
  queued = λ w m. m;
  met = λ w m. inl m;
}

Extends-trans : (s t u : Search) → Extends s t → Extends t u → Extends s u
Extends-trans s t u h k = record {
  old = λ w p. k.old w (h.old w p);
  new = λ w p. elim (k.new w p) [
    | inl q ↦ elim (h.new w q) [ inl r ↦ inl r | inr m ↦ inr (k.queued w m) ]
    | inr m ↦ inr m
  ];
  queued = λ w m. k.queued w (h.queued w m);
  met = λ w m. elim (k.met w m) [
    | inl n ↦ elim (h.met w n) [ inl r ↦ inl r | inr p ↦ inr (k.old w p) ]
    | inr p ↦ inr p
  ];
}

visit-Extends : (node next : String) (s : Search) → Extends s (visit node next s)
visit-Extends node next s = record {
  old = λ w h. ground (arith, has-put s.prev next w (some node), h);
  new = λ w h. elim (Bool-cases (next == w)) [
    | inl e ↦
        inr
          (subst (λ x. Memᴰ x (s.queue ++ next ∷ [])) ((eq_iff next w).0 e) (mem-last next s.queue))
    | inr n ↦ inl (ground (arith, has-put s.prev next w (some node), h, n))
  ];
  queued = λ w m. mem-left w next s.queue m;
  met = λ w m. elim (mem-concat w next s.queue m) [
    | inl k ↦ inl k
    | inr e ↦ inr (ground (arith, has-put s.prev next w (some node), e, eq_iff next w))
  ];
}

offer-Extends : (node next : String) (s : Search) → Extends s (offer node s next)
unfolding offer
offer-Extends node next s = elim (Bool-cases (has s.prev next)) [
  | inl seen ↦ rw seen (Extends-refl s)
  | inr fresh ↦ rw fresh (visit-Extends node next s)
]

has-offer : (node next : String) (s : Search) → has (offer node s next).prev next ≡ true
unfolding offer
has-offer node next s = ground (arith, has-put s.prev next next (some node), eq_iff next next)

pub scan-Extends :
    {M : Type 0} (node : String) (s : Search) (edges : List (Edge M))
    → Extends s (scan node s edges)
unfolding scan
scan-Extends node s [] = Extends-refl s
scan-Extends node s (edge ∷ edges) =
    let s' = offer node s (other_end node edge) in
    Extends-trans s s' (scan node s' edges) (offer-Extends node (other_end node edge) s)
      (scan-Extends node s' edges)

-- the scan meets the other end of every edge
pub has-scan :
    {M : Type 0} (node : String) (s : Search) (edges : List (Edge M)) (edge : Edge M)
    → Memᴰ edge edges
    → has (scan node s edges).prev (other_end node edge) ≡ true
unfolding scan
has-scan node s [] edge m = absurd (Memᴰ.not-nil m)
has-scan node s (e ∷ edges) edge (Memᴰ.head p) =
    let s' = offer node s (other_end node e) in
    (scan-Extends node s' edges).old (other_end node edge)
      (ap (λ x. has s'.prev (other_end node x)) p ∙ has-offer node (other_end node e) s)
has-scan node s (e ∷ edges) edge (Memᴰ.tail m) =
    has-scan node (offer node s (other_end node e)) edges edge m
