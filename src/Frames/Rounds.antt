-- ===== src/Frames/Rounds.antt =====
-- The loop of the search of frames/frames.py: it ends, and what it has met then.
use mathlib.Core.Path.{subst}
use mathlib.Core.List.{Memᴰ}
use mathlib.Core.List.Memᴰ
use auto_weaver.Prelude.{
  ℕ, zero, suc, ◌+◌, ◌≤◌, ◌<◌, String, ◌≡◌, refl, sym, ap, ◌∙◌, true, false, ◌⊎◌, inl, inr, Option,
  some, List, [], ◌∷◌, arith, length, ◌==◌, string_eq, eq_iff, if◌then◌else◌, Bool-cases,
  length-append,
}
use auto_weaver.Dict.{Dict, has, put}
use auto_weaver.Frames.{Edge, Adjacency, edges_at, other_end, Search, offer, scan, search, start}
use auto_weaver.Frames.Walks.{Joined, Reach, here, step, Grown, seed, grow}
use auto_weaver.Frames.Scan.{has-put, unseen, scan-Extends, has-scan}

unseen-put_le :
    {M : Type 0} (adj : Adjacency M) (prev : Dict String (Option String)) (k : String)
    (v : Option String)
    → unseen adj (put prev k v) ≤ unseen adj prev
unseen-put_le [] prev k v = omega arith
unseen-put_le ((j, es) ∷ adj) prev k v =
    ground (arith, has-put prev k j v, unseen-put_le adj prev k v)

unseen-put :
    {M : Type 0} (adj : Adjacency M) (prev : Dict String (Option String)) (k : String)
    (v : Option String)
    → has adj k ≡ true
    → has prev k ≡ false
    → unseen adj (put prev k v) < unseen adj prev
unfolding has
unseen-put [] prev k v h n = absurd (cc)
unseen-put ((j, es) ∷ adj) prev k v h n = ground (
  arith,
  has-put prev k j v,
  eq_iff j k,
  unseen-put_le adj prev k v,
  unseen-put adj prev k v,
  h,
  n,
)

-- what is left to do
abbrev pub work : {M : Type 0} → Adjacency M → Search → ℕ
work adj s = unseen adj s.prev + length s.queue

offer-work :
    {M : Type 0} (adj : Adjacency M) (node next : String) (s : Search)
    → has adj next ≡ true
    → work adj (offer node s next) ≤ work adj s
unfolding offer
offer-work adj node next s h = elim (Bool-cases (has s.prev next)) [
  | inl seen ↦ rw seen (omega arith)
  | inr fresh ↦ rw fresh (
      omega
        (arith, unseen-put adj s.prev next (some node) h fresh, length-append s.queue (next ∷ [])))
]

scan-work :
    {M : Type 0} (adj : Adjacency M) (node : String) (s : Search) (edges : List (Edge M))
    → ((edge : Edge M) → Memᴰ edge edges → has adj (other_end node edge) ≡ true)
    → work adj (scan node s edges) ≤ work adj s
unfolding scan
scan-work adj node s [] h = omega arith
scan-work adj node s (edge ∷ edges) h =
    let s' = offer node s (other_end node edge) in
    omega (
      arith,
      offer-work adj node (other_end node edge) s (h edge (Memᴰ.head refl)),
      scan-work adj node s' edges (λ e m. h e (Memᴰ.tail m)),
    )

-- a table that has grown to some size
abbrev pub HasGrown : {M : Type 0} → Adjacency M → String → Search → Type 0
HasGrown adj source s = (n : ℕ) × Grown adj source n s.prev

offer-HasGrown :
    {M : Type 0} (adj : Adjacency M) (source node next : String) (s : Search)
    → Joined adj node next
    → has s.prev node ≡ true
    → HasGrown adj source s
    → HasGrown adj source (offer node s next)
unfolding offer
offer-HasGrown adj source node next s j h (n, g) = elim (Bool-cases (has s.prev next)) [
  | inl seen ↦ rw seen (n, g)
  | inr fresh ↦ rw fresh (suc n, grow n s.prev node next g h fresh j)
]

scan-HasGrown :
    {M : Type 0} (adj : Adjacency M) (source node : String) (s : Search) (edges : List (Edge M))
    → ((edge : Edge M) → Memᴰ edge edges → Joined adj node (other_end node edge))
    → has s.prev node ≡ true
    → HasGrown adj source s
    → HasGrown adj source (scan node s edges)
unfolding scan
scan-HasGrown adj source node s [] j h g = g
scan-HasGrown adj source node s (edge ∷ edges) j h g =
    let s' = offer node s (other_end node edge) in
    let step = scan-Extends node s (edge ∷ []) in
    scan-HasGrown adj source node s' edges (λ e m. j e (Memᴰ.tail m)) (step.old node h)
      (offer-HasGrown adj source node (other_end node edge) s (j edge (Memᴰ.head refl)) h g)

-- What a round of the search keeps: what is queued has been met, and so has what an edge joins to a
-- frame that was met and is no longer queued.
pub record IsSearch {M : Type 0} (adj : Adjacency M) (source : String) (s : Search) : Type 0 where
  pub grown : HasGrown adj source s
  pub begun : has s.prev source ≡ true
  pub queued : (w : String) → Memᴰ w s.queue → has s.prev w ≡ true
  pub closed :
      (u v : String) → has s.prev u ≡ true → Joined adj u v → Memᴰ u s.queue ⊎ (has s.prev v ≡ true)

pub IsSearch-start :
    {M : Type 0} (adj : Adjacency M) (source : String) → IsSearch adj source (start source)
unfolding has
IsSearch-start adj source = record {
  grown = (1, seed);
  begun = ground (arith, eq_iff source source);
  queued = λ w m. ground (arith, eq_iff source w, sym (Memᴰ.eq_of_singleton m));
  closed = λ u v h j. inl (Memᴰ.head (ground (arith, eq_iff source u, h)));
}

module _ {M : Type 0} (adj : Adjacency M) (source : String) where
  scan-IsSearch :
      (prev : Dict String (Option String)) (node : String) (rest : List String)
      → IsSearch adj source (record { prev = prev; queue = node ∷ rest })
      → IsSearch adj source (scan node (record { prev = prev; queue = rest }) (edges_at adj node))
  scan-IsSearch prev node rest h =
      let s : Search = record { prev = prev; queue = rest } in
      let e = scan-Extends node s (edges_at adj node) in
      let met_node = h.queued node (Memᴰ.head refl) in
      record {
        grown =
            scan-HasGrown adj source node s (edges_at adj node) (λ edge m. (edge, m, refl)) met_node
              h.grown;
        begun = e.old source h.begun;
        queued = λ w m. elim (e.met w m) [ inl k ↦ e.old w (h.queued w (Memᴰ.tail k)) | inr p ↦ p ];
        closed = λ u v p j. elim (e.new u p) [
          | inl q ↦ elim (h.closed u v q j) [
            | inl m ↦ elim (Memᴰ.cases_cons m) [
              | inl same ↦
                  let (edge, k, other) = subst (λ x. Joined adj x v) same j in
                  inr (
                    ap (has (scan node s (edges_at adj node)).prev) (sym other)
                    ∙ has-scan node s (edges_at adj node) edge k)
              | inr k ↦ inl (e.queued u k)
            ]
            | inr r ↦ inr (e.old v r)
          ]
          | inr m ↦ inl m
        ];
      }

  -- with nothing left to look at, all that is reached was met
  meets-all :
      (s : Search) (v : String)
      → IsSearch adj source s
      → s.queue ≡ []
      → Reach adj source v
      → has s.prev v ≡ true
  meets-all s _ h e here = h.begun
  meets-all s _ h e (step b c r j) = elim (h.closed b c (meets-all s b h e r) j) [
    | inl m ↦ absurd (Memᴰ.not-nil (subst (Memᴰ b) e m))
    | inr p ↦ p
  ]

-- How a search ends: the target has been met, or all that is reached from the source has.
pub record HasSearched {M : Type 0} (adj : Adjacency M) (source target : String) (t : Search)
    : Type 0 where
  pub grown : HasGrown adj source t
  pub decided :
      (has t.prev target ≡ true) ⊎ ((v : String) → Reach adj source v → has t.prev v ≡ true)

module _ {M : Type 0} (adj : Adjacency M) (source target : String)
    (known : (a b : String) → Joined adj a b → has adj b ≡ true) where
  pub search_from :
      (fuel : ℕ) (prev : Dict String (Option String)) (queue : List String)
      → work adj (record { prev = prev; queue = queue }) < fuel
      → IsSearch adj source (record { prev = prev; queue = queue })
      → (t : Search) × (search fuel adj target (record { prev = prev; queue = queue }) ≡ some t)
        × HasSearched adj source target t
  unfolding search
  search_from zero prev queue l h = absurd (omega (arith, l))
  search_from (suc fuel) prev [] l h =
      let s : Search = record { prev = prev; queue = [] } in
      (
        s,
        refl,
        record { grown = h.grown; decided = inr (λ v r. meets-all adj source s v h refl r) },
      )
  search_from (suc fuel) prev (node ∷ rest) l h =
      let s : Search = record { prev = prev; queue = rest } in
      let s' = scan node s (edges_at adj node) in
      let (t, e, r) =
        search_from fuel s'.prev s'.queue
          (omega (
            arith,
            l,
            scan-work adj node s (edges_at adj node)
                (λ edge m. known node (other_end node edge) (edge, m, refl)),
          ))
          (scan-IsSearch adj source prev node rest h) in
      elim (Bool-cases (node == target)) [
        | inl found ↦ (
          s,
          ap (λ b. if b then some s else search fuel adj target s') found,
          record {
            grown = h.grown;
            decided = inl (
                ap (has prev) (sym ((eq_iff node target).0 found))
                ∙ h.queued node (Memᴰ.head refl));
          },
        )
        | inr other ↦ (t, ap (λ b. if b then some s else search fuel adj target s') other ∙ e, r)
      ]
