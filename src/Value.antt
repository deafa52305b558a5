-- ===== src/Value.antt =====
-- Python values, their types as `isinstance` sees them, and the exceptions that the modelled code
-- raises. A value of a class that the model does not describe is `object`, with its class and its
-- identity as numbers.
use Prim.Native.Char.{code}
use auto_weaver.Prelude.{
  ℕ, ◌+◌, ◌-◌, ◌*◌, Option, none, some, leb, ◌&&◌, if◌then◌else◌, string_eq, String, ◌≡◌, refl, ◌⊎◌,
  inl, inr, Bool, true, false, ◌==◌, nat_eq,
}

mutual
  pub data Value : Type 0 where
    nothing : Value
    int : ℕ → Value
    text : String → Value
    dict : Entries → Value
    object : ℕ → ℕ → Value

  -- the entries of a dict value
  pub data Entries : Type 0 where
    end : Entries
    entry : String → Value → Entries → Entries

-- A type, as registrations and declarations name it. `any` is `object`.
pub data Ty : Type 0 where
  any : Ty
  int_type text_type dict_type : Ty
  class_of : ℕ → Ty

unfoldable pub is_instance : Value → Ty → Bool
is_instance v any = true
is_instance (int n) int_type = true
is_instance (text s) text_type = true
is_instance (dict d) dict_type = true
is_instance (object c i) (class_of k) = c == k
is_instance _ _ = false

-- An `Exception`. `raised` is one of user code, told apart by a number.
pub data Exn : Type 0 where
  value_error permission_error type_error key_error runtime_error index_error : Exn
  action_step_error read_until_timeout : Exn
  frame_not_found frames_disconnected : Exn
  raised : ℕ → Exn

-- What a call returns: a value, or the exception that it raised.
pub data Result {ℓ} (A : Type ℓ) : Type ℓ where
  ok : A → Result A
  err : Exn → Result A

-- the number that decimal digits spell, behind the digits read so far
unfoldable pub digits_from : ℕ → String → Option ℕ
digits_from n String.[] = some n
digits_from n (String.◌∷◌ c s) =
    let d = code c in
    let rest = digits_from (n * 10 + (d - b'0')) s in
    if leb b'0' d && leb d b'9' then rest else none

-- `int(value)`: a number is itself, a text of decimal digits is read, `None`, a dict and an object
-- raise `TypeError`. The signs, blanks and underscores that `int` also accepts in a text are not
-- modelled: such a text counts as no number.
unfoldable pub to_int : Value → Result ℕ
unfolding digits_from
to_int (int n) = ok n
to_int (text s) =
    if s == ""
    then err value_error
    else elim (digits_from 0 s) [ none ↦ err value_error | some n ↦ ok n ]
to_int _ = err type_error

pub Result-cases {ℓ} :
    {A : Type ℓ} (r : Result A) → ((a : A) × (r ≡ ok a)) ⊎ ((e : Exn) × (r ≡ err e))
Result-cases (ok a) = inl (a, refl)
Result-cases (err e) = inr (e, refl)
