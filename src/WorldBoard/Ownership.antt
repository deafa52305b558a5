-- ===== src/WorldBoard/Ownership.antt =====
-- Namespace ownership on the WorldBoard: `declare_state`, `_claim_namespace`, `post_state`.
use auto_weaver.Prelude.{
  ℕ, String, ◌≡◌, ◌≢◌, refl, false, Option, none, some, arith, eq_iff, ◌==◌, string_eq, ◌⊎◌,
  Bool-cases, inl, inr,
}
use auto_weaver.Dict
use auto_weaver.Dict.{get-put}
use auto_weaver.Value.{Value, Ty, Exn, ok, err, value_error}
use auto_weaver.Exec.{lift, raised_if, after_bind, after_continue}
use auto_weaver.WorldBoard.{
  StateMeta, WorldBoard, split_namespace, other_owner, declared_by_other, claim_namespace,
  declare_state, post_state,
}

-- Every declared key lies in a namespace that its writer owns.
pub record IsOwned (b : WorldBoard) : Type 0 where
  pub owner_of :
      (key : String) (m : StateMeta)
      → Dict.get b.state_meta key ≡ some m
      → (p : String × String) × (split_namespace key ≡ ok p)
        × (Dict.get b.namespace_owners p.0 ≡ some m.writer)

-- On a board where every declared key lies in a namespace that its writer owns, two declared keys of
-- one namespace have one writer.
one_writer :
    (b : WorldBoard) (j k : String) (m n : StateMeta) (p q : String × String)
    → IsOwned b
    → Dict.get b.state_meta j ≡ some m
    → Dict.get b.state_meta k ≡ some n
    → split_namespace j ≡ ok p
    → split_namespace k ≡ ok q
    → p.0 ≡ q.0
    → m.writer ≡ n.writer
one_writer b j k m n p q h hj hk sj sk e =
    let (p', sp, op) = h.owner_of j m hj in
    let (q', sq, oq) = h.owner_of k n hk in cc (sp, op, sq, oq, sj, sk, e)

-- claiming keeps every owner that there was
owners-claim_namespace :
    (namespace writer : String) (b : WorldBoard) (j w : String)
    → Dict.get b.namespace_owners j ≡ some w
    → Dict.get (claim_namespace namespace writer b).1.namespace_owners j ≡ some w
unfolding claim_namespace
owners-claim_namespace namespace writer b j w h =
    ground (arith, get-put b.namespace_owners namespace j writer, eq_iff namespace j)

other_owner-false :
    (o : Option String) (writer : String)
    → other_owner o writer ≡ false
    → (o ≡ none) ⊎ (o ≡ some writer)
unfolding other_owner
other_owner-false none writer h = inl refl
other_owner-false (some owner) writer h = inr (ground (arith, eq_iff owner writer))

-- a claim that succeeds leaves the claimer as the owner
owner-claim_namespace :
    (namespace writer : String) (b : WorldBoard)
    → (claim_namespace namespace writer b).0 ≡ ok tt
    → Dict.get (claim_namespace namespace writer b).1.namespace_owners namespace ≡ some writer
unfolding claim_namespace
owner-claim_namespace namespace writer b h = ground (
  arith,
  get-put b.namespace_owners namespace namespace writer,
  eq_iff namespace namespace,
  other_owner-false (Dict.get b.namespace_owners namespace) writer,
)

meta-claim_namespace :
    (namespace writer : String) (b : WorldBoard)
    → (claim_namespace namespace writer b).1.state_meta ≡ b.state_meta
unfolding claim_namespace
meta-claim_namespace namespace writer b = ground arith

-- what a claim does when it raises: nothing
claim_namespace-err :
    (namespace writer : String) (b : WorldBoard) (e : Exn)
    → (claim_namespace namespace writer b).0 ≡ err e
    → claim_namespace namespace writer b ≡ (err value_error, b)
unfolding claim_namespace
claim_namespace-err namespace writer b e h = ground arith

-- A namespace that another writer owns refuses a declaration with `ValueError`, and the board stays
-- as it was.
declare_state_foreign :
    (key : String) (t : Ty) (writer owner : String) (p : String × String) (b : WorldBoard)
    → split_namespace key ≡ ok p
    → Dict.get b.namespace_owners p.0 ≡ some owner
    → owner ≢ writer
    → declare_state key t writer b ≡ (err value_error, b)
unfolding declare_state
declare_state_foreign key t writer owner p b hs ho ne =
    rw (hs, ho) (unfold other_owner in ground (arith, eq_iff owner writer))

record_meta :
    (key : String) (t : Ty) (writer : String) (p : String × String) (b : WorldBoard)
    → split_namespace key ≡ ok p
    → Dict.get b.namespace_owners p.0 ≡ some writer
    → IsOwned b
    → IsOwned (record b {
      state_meta = Dict.put b.state_meta key (record { value_type = t; writer = writer });
    })
record_meta key t writer p b hs ho h = record {
  owner_of = λ j m e. elim (Bool-cases (key == j)) [
    | inl same ↦ (
      p,
      cc (hs, (eq_iff key j).0 same),
      ground (arith, get-put b.state_meta key j (record { value_type = t; writer = writer })),
    )
    | inr other ↦
        h.owner_of j m
          (ground (arith, get-put b.state_meta key j (record { value_type = t; writer = writer })))
  ];
}

claim_namespace-IsOwned :
    (namespace writer : String) (b : WorldBoard)
    → IsOwned b
    → IsOwned (claim_namespace namespace writer b).1
claim_namespace-IsOwned namespace writer b h = record {
  owner_of = λ j m e.
      let (p, sp, op) = h.owner_of j m (cc (e, meta-claim_namespace namespace writer b)) in
      (p, sp, owners-claim_namespace namespace writer b p.0 m.writer op);
}

-- Declaring a state, whether it succeeds or raises, keeps every declared key in a namespace that
-- its writer owns.
pub declare_state-IsOwned :
    (key : String) (t : Ty) (writer : String) (b : WorldBoard)
    → IsOwned b
    → IsOwned (declare_state key t writer b).1
unfolding declare_state
declare_state-IsOwned key t writer b h =
    after_bind IsOwned (lift (split_namespace key)) _ b h λ p good.
      after_bind IsOwned (claim_namespace p.0 writer) _ b (claim_namespace-IsOwned p.0 writer b h)
        λ u claimed.
          let b' : WorldBoard = (claim_namespace p.0 writer b).1 in
          let h' : IsOwned b' = claim_namespace-IsOwned p.0 writer b h in
          after_continue IsOwned
            (raised_if (declared_by_other (Dict.get b'.state_meta key) writer) value_error) _ b' h'
            λ v fine.
              record_meta key t writer p b' good (owner-claim_namespace p.0 writer b claimed) h'

-- A post keeps declarations and owners as they are.
pub post_state_keeps :
    (now : ℕ) (key : String) (value : Value) (writer : String) (b : WorldBoard)
    → ((post_state now key value writer b).1.state_meta ≡ b.state_meta)
      × ((post_state now key value writer b).1.namespace_owners ≡ b.namespace_owners)
unfolding post_state
post_state_keeps now key value writer b = ground arith
