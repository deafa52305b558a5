-- ===== src/Frames/Build.antt =====
-- The graphs that frames/frames.py builds: each edge stands in the list of either end.
use mathlib.Core.Path.{subst}
use mathlib.Core.List.{Memᴰ}
use mathlib.Core.List.Memᴰ
use auto_weaver.Prelude.{
  String, ◌≡◌, refl, sym, ◌∙◌, Bool, true, false, ◌⊎◌, inl, inr, Option, none, some, List, [], ◌∷◌,
  ◌++◌, arith, ◌==◌, string_eq, pair_eq, eq_iff, if◌then◌else◌, Bool-cases,
}
use auto_weaver.Dict.{has, get, put, get-put, has-eq_get}
use auto_weaver.Exec.{after_bind}
use auto_weaver.Frames
use auto_weaver.Frames.{
  Transform, fixed, dynamic, Edge, Adjacency, edges_at, other_end, append_edge, add_edge, FrameEdge,
  listed, no_frames, bind_unless, bind_dynamic, add_entry, load,
}
use auto_weaver.Frames.Walks.{Joined}
use auto_weaver.Frames.Scan.{mem-concat, mem-left, mem-last}

pub record IsGraph {M : Type 0} (adj : Adjacency M) : Type 0 where
  pub touches :
      (a : String) (edge : Edge M)
      → Memᴰ edge (edges_at adj a)
      → (edge.parent ≡ a) ⊎ (edge.child ≡ a)
  pub returns :
      (a : String) (edge : Edge M)
      → Memᴰ edge (edges_at adj a)
      → Memᴰ edge (edges_at adj (other_end a edge))

edges_at-put :
    {M : Type 0} (adj : Adjacency M) (node k : String) (l : List (Edge M))
    → edges_at (put adj node l) k ≡ (if node == k then l else edges_at adj k)
edges_at-put adj node k l = ground (arith, get-put adj node k l)

module _ {M : Type 0} (edge : Edge M) where
  -- what `append_edge` adds
  mem-append_edge :
      (node k : String) (adj : Adjacency M) (x : Edge M)
      → Memᴰ x (edges_at (append_edge edge node adj) k)
      → Memᴰ x (edges_at adj k) ⊎ (x ≡ edge) × (k ≡ node)
  mem-append_edge node k adj x m = elim (Bool-cases (node == k)) [
    | inl e ↦
        let same : node ≡ k = (eq_iff node k).0 e in
        elim (mem-concat x edge (edges_at adj node) (
          subst (Memᴰ x)
            (ground (arith, edges_at-put adj node k (edges_at adj node ++ edge ∷ []), e)) m)) [
              | inl n ↦ inl (subst (λ j. Memᴰ x (edges_at adj j)) same n)
              | inr p ↦ inr (p, sym same)
            ]
    | inr e ↦ inl (
        subst (Memᴰ x) (ground (arith, edges_at-put adj node k (edges_at adj node ++ edge ∷ []), e))
          m)
  ]

  mem-append_edge_old :
      (node k : String) (adj : Adjacency M) (x : Edge M)
      → Memᴰ x (edges_at adj k)
      → Memᴰ x (edges_at (append_edge edge node adj) k)
  mem-append_edge_old node k adj x m =
      subst (Memᴰ x) (sym (edges_at-put adj node k (edges_at adj node ++ edge ∷ [])))
        (elim (Bool-cases (node == k)) [
          | inl e ↦ rw e (
              mem-left x edge (edges_at adj node)
                (subst (λ j. Memᴰ x (edges_at adj j)) (sym ((eq_iff node k).0 e)) m))
          | inr e ↦ rw e m
        ])

  mem-append_edge_new :
      (node : String) (adj : Adjacency M) → Memᴰ edge (edges_at (append_edge edge node adj) node)
  mem-append_edge_new node adj =
      subst (Memᴰ edge) (sym (edges_at-put adj node node (edges_at adj node ++ edge ∷ [])))
        (rw ((eq_iff node node).1 refl) (mem-last edge (edges_at adj node)))

  mem-add_edge :
      (k : String) (adj : Adjacency M) (x : Edge M)
      → Memᴰ x (edges_at (add_edge edge adj) k)
      → Memᴰ x (edges_at adj k) ⊎ (x ≡ edge) × ((edge.parent ≡ k) ⊎ (edge.child ≡ k))
  unfolding add_edge
  mem-add_edge k adj x m =
      elim (mem-append_edge edge.child k (append_edge edge edge.parent adj) x m) [
        | inl n ↦ elim (mem-append_edge edge.parent k adj x n) [
          | inl o ↦ inl o
          | inr (e, p) ↦ inr (e, inl (sym p))
        ]
        | inr (e, p) ↦ inr (e, inr (sym p))
      ]

  mem-add_edge_old :
      (k : String) (adj : Adjacency M) (x : Edge M)
      → Memᴰ x (edges_at adj k)
      → Memᴰ x (edges_at (add_edge edge adj) k)
  unfolding add_edge
  mem-add_edge_old k adj x m =
      mem-append_edge_old edge.child k (append_edge edge edge.parent adj) x
        (mem-append_edge_old edge.parent k adj x m)

  mem-add_edge_new :
      (k : String) (adj : Adjacency M)
      → (edge.parent ≡ k) ⊎ (edge.child ≡ k)
      → Memᴰ edge (edges_at (add_edge edge adj) k)
  unfolding add_edge
  mem-add_edge_new k adj (inl e) =
      mem-append_edge_old edge.child k (append_edge edge edge.parent adj) edge (
        subst (λ j. Memᴰ edge (edges_at (append_edge edge edge.parent adj) j)) e
          (mem-append_edge_new edge.parent adj))
  mem-add_edge_new k adj (inr e) =
      subst
        (λ j.
          Memᴰ edge (edges_at (append_edge edge edge.child (append_edge edge edge.parent adj)) j))
        e (mem-append_edge_new edge.child (append_edge edge edge.parent adj))

  other_end-touches :
      (a : String) → (edge.parent ≡ other_end a edge) ⊎ (edge.child ≡ other_end a edge)
  other_end-touches a = elim (Bool-cases (edge.parent == a)) [
    | inl e ↦ inr (rw e refl)
    | inr e ↦ inl (rw e refl)
  ]

  add_edge-IsGraph : (adj : Adjacency M) → IsGraph adj → IsGraph (add_edge edge adj)
  add_edge-IsGraph adj h = record {
    touches = λ a x m. elim (mem-add_edge a adj x m) [
      | inl n ↦ h.touches a x n
      | inr (e, t) ↦ subst (λ y. (y.parent ≡ a) ⊎ (y.child ≡ a)) (sym e) t
    ];
    returns = λ a x m. elim (mem-add_edge a adj x m) [
      | inl n ↦ mem-add_edge_old (other_end a x) adj x (h.returns a x n)
      | inr (e, t) ↦
          subst (λ y. Memᴰ y (edges_at (add_edge edge adj) (other_end a y))) (sym e)
            (mem-add_edge_new (other_end a edge) adj (other_end-touches a))
    ];
  }

bind_unless-IsGraph :
    {M : Type 0} (b : Bool) (edge : Edge M) (f : Frames.Frames M)
    → IsGraph f.adj
    → IsGraph (bind_unless b edge f).1.adj
bind_unless-IsGraph true edge f h = h
bind_unless-IsGraph false edge f h = add_edge-IsGraph edge f.adj h

-- Binding a dynamic edge, whether it is refused or not, leaves a graph in which each edge stands in the
-- list of either of its ends, and in no others.
pub bind_dynamic-IsGraph :
    {M : Type 0} (parent child key : String) (required : Bool) (f : Frames.Frames M)
    → IsGraph f.adj
    → IsGraph (bind_dynamic parent child key required f).1.adj
unfolding bind_dynamic
bind_dynamic-IsGraph parent child key required f h =
    bind_unless-IsGraph (has f.dynamic_edges (record { first = parent; second = child })) _ f h

add_entry-IsGraph :
    {M : Type 0} (t : Transform M) (e : FrameEdge M) (f : Frames.Frames M)
    → IsGraph f.adj
    → IsGraph (add_entry t e f).1.adj
add_entry-IsGraph (fixed m) e f h =
    add_edge-IsGraph (record { parent = e.parent; child = e.name; transform = fixed m }) f.adj h
add_entry-IsGraph (dynamic key required) e f h =
    bind_dynamic-IsGraph e.parent e.name key required f h

load_from-IsGraph :
    {M : Type 0} (es : List (FrameEdge M)) (f : Frames.Frames M)
    → IsGraph f.adj
    → IsGraph (load es f).1.adj
unfolding load
load_from-IsGraph [] f h = h
load_from-IsGraph (e ∷ es) f h =
    after_bind (λ f. IsGraph f.adj) (add_entry e.transform e) (λ _. load es) f
      (add_entry-IsGraph e.transform e f h)
      (λ _ _.
        load_from-IsGraph es (add_entry e.transform e f).1 (add_entry-IsGraph e.transform e f h))

-- Whatever entries a calibration file has, the graph that is loaded from it has each edge in the list
-- of either of its ends, and in no others.
pub load-IsGraph : {M : Type 0} (es : List (FrameEdge M)) → IsGraph (load es no_frames).1.adj
unfolding get
load-IsGraph es = load_from-IsGraph es no_frames (record {
  touches = λ a x m. absurd (Memᴰ.not-nil m);
  returns = λ a x m. absurd (Memᴰ.not-nil m);
})

listed-some :
    {A : Type 0} (o : Option (List A)) (x : A)
    → Memᴰ x (listed o)
    → elim o [ none ↦ Bool.false | some _ ↦ true ] ≡ true
listed-some none x m = absurd (Memᴰ.not-nil m)
listed-some (some l) x m = refl

-- a frame that an edge leads to is in the graph
pub Joined-has :
    {M : Type 0} (adj : Adjacency M)
    → IsGraph adj
    → (a b : String) → Joined adj a b
    → has adj b ≡ true
Joined-has adj h a b (edge, m, e) =
    has-eq_get adj b
    ∙ listed-some (get adj b) edge (subst (λ k. Memᴰ edge (edges_at adj k)) e (h.returns a edge m))
