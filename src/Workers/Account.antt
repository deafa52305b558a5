-- ===== src/Workers/Account.antt =====
-- An account of the posts of a Worker of worker/base.py, and the requests that it holds.
use Prim.Native.String.{◌++◌ as string_append}
use package.text.Mathlib.TextLemmas.{append_cancel_left}
use auto_weaver.Prelude.{
  ℕ, String, ◌≡◌, refl, sym, Bool, true, false, List, [], ◌∷◌, ◌++◌, ◌==◌, string_eq, arith, eq_iff,
  append_assoc, append-nil, ◌&&◌,
}
use auto_weaver.Value.{Value, int, text, Result, ok, err}
use auto_weaver.Workers.{Board, key_of}
use auto_weaver.Workers.Motion.{Dispatch}

-- the keys of two fields of a worker
abbrev pub is_key : String → String → String → Bool
is_key name field key = key == key_of name field

pub is_key_same : (name field : String) → is_key name field (key_of name field) ≡ true
is_key_same name field = (eq_iff (key_of name field) (key_of name field)).1 refl

pub is_key_other : (name a b : String) → (a == b) ≡ false → is_key name a (key_of name b) ≡ false
is_key_other name a b n = ground (
  arith,
  eq_iff (key_of name b) (key_of name a),
  eq_iff a b,
  append_cancel_left "." b a,
  append_cancel_left name (string_append "." b) (string_append "." a),
)

-- A post on a board: the key, the value, and whether the board took it.
pub record Post : Type 0 where
  pub key : String
  pub value : Value
  pub taken : Bool

abbrev pub took : {A : Type 0} → Result A → Bool
took (ok a) = true
took (err e) = false

-- The same board, with an account of the posts made on it.
abbrev pub logged : Board → Board
logged B = record {
  State = List Post × B.State;
  post = λ key value writer (log, s).
      let (x, s') = B.post key value writer s in
      (x, (log ++ record { key = key; value = value; taken = took x } ∷ [], s'));
  declare = λ key value_type writer (log, s).
      let (x, s') = B.declare key value_type writer s in (x, (log, s'));
}

-- a dispatch that knows nothing of the account
abbrev pub behind : (B : Board) → Dispatch B → Dispatch (logged B)
behind B dispatch payload (log, s) = let (x, s') = dispatch payload s in (x, (log, s'))

abbrev pub id_in : Value → List ℕ
id_in (int n) = n ∷ []
id_in _ = []

abbrev pub ids_if : Bool → Value → List ℕ
ids_if true v = id_in v
ids_if false v = []

-- The requests whose `last_request_id` the board took, in order.
unfoldable pub requested : String → List Post → List ℕ
requested name [] = []
requested name (p ∷ log) =
    ids_if (p.taken && is_key name "last_request_id" p.key) p.value ++ requested name log

-- The requests for which `last_completed_id` was posted, in order.
unfoldable pub completed : String → List Post → List ℕ
completed name [] = []
completed name (p ∷ log) =
    ids_if (is_key name "last_completed_id" p.key) p.value ++ completed name log

module _ (name : String) where
  pub completed-append :
      (log : List Post) (p : Post)
      → completed name (log ++ p ∷ [])
        ≡ completed name log ++ ids_if (is_key name "last_completed_id" p.key) p.value
  unfolding completed
  completed-append [] p = append-nil _
  completed-append (q ∷ log) p =
      rw (completed-append log p)
        (sym (append_assoc (ids_if (is_key name "last_completed_id" q.key) q.value) _ _))

  pub requested-append :
      (log : List Post) (p : Post)
      → requested name (log ++ p ∷ [])
        ≡ requested name log ++ ids_if (p.taken && is_key name "last_request_id" p.key) p.value
  unfolding requested
  requested-append [] p = append-nil _
  requested-append (q ∷ log) p =
      rw (requested-append log p)
        (sym (append_assoc (ids_if (q.taken && is_key name "last_request_id" q.key) q.value) _ _))

  abbrev pub posted : String → Value → Bool → Post
  posted field v t = record { key = key_of name field; value = v; taken = t }

  pub no_and : (t : Bool) → (t && false) ≡ false
  no_and true = refl
  no_and false = refl

  -- What each kind of post adds to the two lists.
  pub on_completed :
      (n : ℕ) (t : Bool) (log : List Post)
      → let log' = log ++ posted "last_completed_id" (int n) t ∷ [] in
        (completed name log' ≡ completed name log ++ n ∷ [])
        × (requested name log' ≡ requested name log)
  on_completed n t log =
      let p = posted "last_completed_id" (int n) t in
      (
        rw (completed-append log p, is_key_same name "last_completed_id") refl,
        rw
            (
              requested-append log p,
              is_key_other name "last_request_id" "last_completed_id" refl,
              no_and t,
            )
            (append-nil (requested name log)),
      )

  pub on_error :
      (m : String) (t : Bool) (log : List Post)
      → let log' = log ++ posted "last_error" (text m) t ∷ [] in
        (completed name log' ≡ completed name log) × (requested name log' ≡ requested name log)
  on_error m t log =
      let p = posted "last_error" (text m) t in
      (
        rw (completed-append log p, is_key_other name "last_completed_id" "last_error" refl)
            (append-nil (completed name log)),
        rw (requested-append log p, is_key_other name "last_request_id" "last_error" refl, no_and t)
            (append-nil (requested name log)),
      )

  pub and_yes : (t : Bool) → (t && true) ≡ t
  and_yes true = refl
  and_yes false = refl

  pub on_requested :
      (n : ℕ) (t : Bool) (log : List Post)
      → let log' = log ++ posted "last_request_id" (int n) t ∷ [] in
        (completed name log' ≡ completed name log)
        × (requested name log' ≡ requested name log ++ ids_if t (int n))
  on_requested n t log =
      let p = posted "last_request_id" (int n) t in
      (
        rw (completed-append log p, is_key_other name "last_completed_id" "last_request_id" refl)
            (append-nil (completed name log)),
        rw (requested-append log p, is_key_same name "last_request_id", and_yes t) refl,
      )
