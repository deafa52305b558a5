-- ===== src/Frames/Rebuild.antt =====
-- The way back through the table of a search of frames/frames.py, and what `_find_path` returns.
use mathlib.Core.Path.{subst}
use auto_weaver.Prelude.{
  ℕ, zero, suc, ◌+◌, ◌≤◌, String, ◌≡◌, refl, sym, ◌∙◌, true, false, inl, inr, Option, none, some,
  List, [], ◌∷◌, arith, length, ◌==◌, string_eq, eq_iff, Bool-cases,
}
use auto_weaver.Dict.{Dict, has, get, put, get-put}
use auto_weaver.Frames.{Adjacency, Search, rebuild, found_path, path_to, find_path}
use auto_weaver.Frames.Walks.{Joined, Reach, IsWalk, Grown, seed, grow}
use auto_weaver.Frames.Scan.{has-put, unseen}
use auto_weaver.Frames.Rounds.{HasSearched, IsSearch-start, search_from}

length-put :
    (d : Dict String (Option String)) (k : String) (v : Option String)
    → has d k ≡ false
    → length (put d k v) ≡ suc (length d)
unfolding put has
length-put [] k v h = refl
length-put ((j, w) ∷ d) k v h = ground (arith, length-put d k v, h)

module _ {M : Type 0} (adj : Adjacency M) (source target : String) where
  length-Grown :
      (n : ℕ) (prev : Dict String (Option String)) → Grown adj source n prev → n ≡ length prev
  length-Grown _ _ seed = refl
  length-Grown _ _ (grow n prev node next g h f j) =
      omega (arith, length-Grown n prev g, length-put prev next (some node) f)

  -- the two tables agree on what the first has
  abbrev Agrees : Dict String (Option String) → Dict String (Option String) → Type 0
  Agrees prev d = (k : String) → has prev k ≡ true → get d k ≡ get prev k

  Agrees-put :
      (prev d : Dict String (Option String)) (next : String) (v : Option String)
      → has prev next ≡ false
      → Agrees (put prev next v) d
      → Agrees prev d
  Agrees-put prev d next v f a k h =
      ground (arith, a k, has-put prev next k v, get-put prev next k v, h, f, eq_iff next k)

  -- The way back is a walk.
  abbrev IsBack : Option (List String) → Type 0
  IsBack o = (path : List String) × (o ≡ some path) × IsWalk adj source path target

  rebuild-IsBack :
      (n : ℕ) (prev : Dict String (Option String)) (g : Grown adj source n prev) (fuel : ℕ)
      (d : Dict String (Option String)) (node : String) (path : List String)
      → n ≤ fuel
      → has prev node ≡ true
      → Agrees prev d
      → IsWalk adj node (node ∷ path) target
      → IsBack (rebuild fuel d node path)
  unfolding rebuild get has
  rebuild-IsBack _ _ seed zero d node path l h a w = absurd (omega (arith, l))
  rebuild-IsBack _ _ seed (suc fuel) d node path l h a w =
      let same : source ≡ node = ground (arith, h, eq_iff source node) in
      let first : get d node ≡ some none = a node h ∙ ground (arith, h) in
      rw (first, rebuild)
        (node ∷ path, refl, subst (λ x. IsWalk adj x (node ∷ path) target) (sym same) w)
  rebuild-IsBack _ _ (grow n prev before next g p f j) zero d node path l h a w =
      absurd (omega (arith, l))
  rebuild-IsBack _ _ (grow n prev before next g p f j) (suc fuel) d node path l h a w =
      elim (Bool-cases (next == node)) [
        | inl e ↦
            let same : next ≡ node = (eq_iff next node).0 e in
            let found : get d node ≡ some (some before) =
              a node h ∙ ground (arith, get-put prev next node (some before), e) in
            rw (found, rebuild)
              (rebuild-IsBack n prev g fuel d before (node ∷ path) (omega (arith, l)) p
                (Agrees-put prev d next (some before) f a)
                (refl, subst (Joined adj before) same j, w))
        | inr e ↦
            rebuild-IsBack n prev g (suc fuel) d node path (omega (arith, l))
              (ground (arith, has-put prev next node (some before), h, e))
              (Agrees-put prev d next (some before) f a) w
      ]

-- What a search for a path gives: a walk, or nothing where there is none.
pub data HasFound {M : Type 0} (adj : Adjacency M) (source target : String)
    : Option (Option (List String)) → Type 0 where
  found :
      (path : List String)
      → IsWalk adj source path target
      → HasFound adj source target (some (some path))
  nowhere : ¬ Reach adj source target → HasFound adj source target (some none)

module _ {M : Type 0} (adj : Adjacency M) (source target : String) where
  found_path-HasFound :
      (o : Option (List String))
      → IsBack adj source target o
      → HasFound adj source target (found_path o)
  found_path-HasFound none (path, e, w) = absurd (cc)
  found_path-HasFound (some p) (path, e, w) =
      let same : path ≡ p = (cc) in found p (subst (λ x. IsWalk adj source x target) same w)

  path_to-HasFound :
      (t : Search)
      → HasSearched adj source target t
      → HasFound adj source target (path_to target (some t))
  path_to-HasFound t h =
      let (n, g) = h.grown in
      elim (Bool-cases (has t.prev target)) [
        | inl met ↦ rw met (
            found_path-HasFound (rebuild (length t.prev + 1) t.prev target []) (
              rebuild-IsBack adj source target n t.prev g (length t.prev + 1) t.prev target []
                (omega (arith, length-Grown adj source target n t.prev g)) met (λ k p. refl)
                (refl, refl)))
        | inr unmet ↦ rw unmet (
            nowhere (λ r. elim h.decided [ inl met ↦ cc | inr all ↦ let met = all target r in cc ]))
      ]

unseen-le-length :
    {M : Type 0} (adj : Adjacency M) (prev : Dict String (Option String))
    → unseen adj prev ≤ length adj
unseen-le-length [] prev = omega arith
unseen-le-length ((k, es) ∷ adj) prev = ground (arith, unseen-le-length adj prev)

-- The search for a path ends, and decides whether there is one: it returns a walk from the source to
-- the target, each frame of it joined to the next by an edge of the graph, or `None` where no walk
-- leads to the target; in a graph that has an entry for either end of each edge.
pub find_path-HasFound :
    {M : Type 0} (adj : Adjacency M) (source target : String)
    → ((a b : String) → Joined adj a b → has adj b ≡ true)
    → HasFound adj source target (find_path adj source target)
unfolding find_path
find_path-HasFound adj source target known =
    let (t, e, h) =
      search_from adj source target known (length adj + 2) ((source, none) ∷ []) (source ∷ [])
        (omega (arith, unseen-le-length adj ((source, none) ∷ []))) (IsSearch-start adj source) in
    subst (λ o. HasFound adj source target (path_to target o)) (sym e)
      (path_to-HasFound adj source target t h)
