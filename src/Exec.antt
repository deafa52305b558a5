-- ===== src/Exec.antt =====
-- Code that changes a state and may raise: the state that it leaves comes with what it returns, and
-- with the exception too, so that a change made ahead of a raise is kept.
use auto_weaver.Prelude.{◌≡◌, refl, Bool, true, false}
use auto_weaver.Value.{Exn, Result, ok, err}

abbrev pub Exec : Type 0 → Type 0 → Type 0
Exec S A = S → Result A × S

module _ {S A : Type 0} where
  abbrev pub pure : A → Exec S A
  pure a s = (ok a, s)

  abbrev pub raise : Exn → Exec S A
  raise e s = (err e, s)

  abbrev pub lift : Result A → Exec S A
  lift r s = (r, s)

  abbrev pub gets : (S → A) → Exec S A
  gets f s = (ok (f s), s)

abbrev pub modify : {S : Type 0} → (S → S) → Exec S Unit
modify f s = (ok tt, f s)

module _ {S A B : Type 0} where
  -- what follows a call that left `s`
  abbrev pub continue : Result A → (A → Exec S B) → Exec S B
  continue (err e) rest s = (err e, s)
  continue (ok a) rest s = rest a s

  abbrev pub ◌>>=◌ : Exec S A → (A → Exec S B) → Exec S B
  (m >>= rest) s = continue (m s).0 rest (m s).1

  infixl 10 ◌>>=◌
  abbrev pub ◌>>◌ : Exec S A → Exec S B → Exec S B
  (m >> next) s = continue (m s).0 (λ _. next) (m s).1

  infixl 10 ◌>>◌

abbrev pub raised_if : Bool → Exn → Result (Unit {0})
raised_if true e = err e
raised_if false e = ok tt

-- `if test: raise e`
abbrev pub raise_if : {S : Type 0} → Bool → Exn → Exec S Unit
raise_if test e s = (raised_if test e, s)

-- What holds after a chain: it holds after the first part, and after the rest if the first part
-- returned.
module _ {κ} {S A B : Type 0} (P : S → Type κ) where
  pub after_continue :
      (r : Result A) (f : A → Exec S B) (s : S)
      → P s
      → ((a : A) → r ≡ ok a → P (f a s).1)
      → P (continue r f s).1
  after_continue (ok a) f s h k = k a refl
  after_continue (err e) f s h k = h

  pub after_bind :
      (m : Exec S A) (f : A → Exec S B) (s : S)
      → P (m s).1
      → ((a : A) → (m s).0 ≡ ok a → P (f a (m s).1).1)
      → P ((m >>= f) s).1
  after_bind m f s h k = after_continue (m s).0 f (m s).1 h k
