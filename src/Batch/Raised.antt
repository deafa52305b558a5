-- ===== src/Batch/Raised.antt =====
-- Which node of a tree the failure report of motion_policy/batch.py names.
use auto_weaver.Prelude.{String, ◌≡◌, refl, ap, ◌∙◌, ◌⊎◌, inl, inr, Option, none, some}
use auto_weaver.Value.{Exn}
use auto_weaver.Tree.{Base, Node, leaf, control, decorator, Nodes, nil, cons}
use auto_weaver.Batch.Failure.{own_or, first_of_two, collect_failure_info, collect_in}

-- the attributes `c` are those of a node of the tree, at any depth
unfoldable mutual
  pub IsNodeOf : Base → Node → Type 0
  IsNodeOf c (leaf b l) = c ≡ b
  IsNodeOf c (control b k e cs) = (c ≡ b) ⊎ IsAmong c cs
  IsNodeOf c (decorator b d n) = (c ≡ b) ⊎ IsNodeOf c n

  pub IsAmong : Base → Nodes → Type 0
  IsAmong c nil = ⊥
  IsAmong c (cons n ns) = IsNodeOf c n ⊎ IsAmong c ns

-- Among the nodes of `P` one holds the exception that was found, under the name that was found; or
-- none holds any.
abbrev pub HasRaised : (Base → Type 0) → Option (Exn × String) → Type 0
HasRaised P none = (c : Base) → P c → c.exception ≡ none
HasRaised P (some (e, name)) = (c : Base) × P c × (c.exception ≡ some e) × (c.name ≡ name)

-- a node and those below it
own-HasRaised :
    (P Q : Base → Type 0) (b : Base) (x : Option Exn) (o : Option (Exn × String))
    → b.exception ≡ x
    → Q b
    → ((c : Base) → P c → Q c)
    → ((c : Base) → Q c → (c ≡ b) ⊎ P c)
    → HasRaised P o
    → HasRaised Q (own_or b o)
own-HasRaised P Q b (some e) o x q into out h = rw x (b, q, x, refl)
own-HasRaised P Q b none none x q into out h =
    rw x (λ c m. elim (out c m) [ inl same ↦ ap (λ y. y.exception) same ∙ x | inr p ↦ h c p ])
own-HasRaised P Q b none (some (e, name)) x q into out (c, p, f, n) = rw x (c, into c p, f, n)

two-HasRaised :
    (P Q : Base → Type 0) (x y : Option (Exn × String))
    → HasRaised P x
    → HasRaised Q y
    → HasRaised (λ c. P c ⊎ Q c) (first_of_two x y)
two-HasRaised P Q (some (e, name)) y (c, p, f, n) k = (c, inl p, f, n)
two-HasRaised P Q none none h k = λ c m. elim m [ inl p ↦ h c p | inr q ↦ k c q ]
two-HasRaised P Q none (some (e, name)) h (c, q, f, n) = (c, inr q, f, n)

mutual
  unfolding collect_failure_info IsNodeOf

  pub collect_failure_info-HasRaised :
      (n : Node) → HasRaised (λ c. IsNodeOf c n) (collect_failure_info n)
  collect_failure_info-HasRaised (leaf b l) =
      own-HasRaised (λ c. ⊥) (λ c. c ≡ b) b b.exception none refl refl (λ c m. absurd m)
        (λ c m. inl m) (λ c m. absurd m)
  collect_failure_info-HasRaised (control b k e cs) =
      own-HasRaised (λ c. IsAmong c cs) (λ c. (c ≡ b) ⊎ IsAmong c cs) b b.exception (collect_in cs)
        refl (inl refl) (λ c m. inr m) (λ c m. m) (collect_in-HasRaised cs)
  collect_failure_info-HasRaised (decorator b d n) =
      own-HasRaised (λ c. IsNodeOf c n) (λ c. (c ≡ b) ⊎ IsNodeOf c n) b b.exception
        (collect_failure_info n) refl (inl refl) (λ c m. inr m) (λ c m. m)
        (collect_failure_info-HasRaised n)

  collect_in-HasRaised : (ns : Nodes) → HasRaised (λ c. IsAmong c ns) (collect_in ns)
  collect_in-HasRaised nil = λ c m. absurd m
  collect_in-HasRaised (cons n ns) =
      two-HasRaised (λ c. IsNodeOf c n) (λ c. IsAmong c ns) (collect_failure_info n) (collect_in ns)
        (collect_failure_info-HasRaised n) (collect_in-HasRaised ns)
