-- ===== src/Comm/Actions.antt =====
-- The actions of comm/modbus_primitive.py: their end, their order, and the rounds that they are given.
use mathlib.Core.Path.{fun_ext}
use auto_weaver.Prelude.{
  ℕ, ◌<◌, String, ◌≡◌, refl, sym, ap, ◌∙◌, Bool, true, false, Option, none, some, List, [], ◌∷◌,
  ◌++◌, All, ◌==◌, string_eq, if◌then◌else◌,
}
use auto_weaver.Dict.{Dict}
use auto_weaver.Value.{Result, ok, err}
use auto_weaver.Comm.{RegisterIo, Clock, CommContract, Given, Spec}
use auto_weaver.Comm.Engine.{
  Step, Results, Wait, Waiting, chain, poll, do_read_until, do_write, start_wait, run_verb,
  run_step, run_steps, run_action,
}
use auto_weaver.Comm.Ends.{IsSteady, IsOver}
use auto_weaver.Comm.Waits.{HasDeadline, start_wait-HasDeadline, run_wait-IsOver}

module _ {F S : Type 0} (io : RegisterIo F S) (clock : Clock S) (c : CommContract)
    (interval : ℕ) where
  chain_append :
      {A B C : Type 0} (o : Option (Result A × S)) (f : A → Waiting S B) (g : B → Waiting S C)
      → chain (chain o f) g ≡ chain o (λ a s. chain (f a s) g)
  chain_append none f g = refl
  chain_append (some (err e, s)) f g = refl
  chain_append (some (ok a, s)) f g = refl

-- The steps of an action run one after the other: two lists of steps in a row are the first list, and
-- then the second on the results and in the world that the first left; if the first raises or still
-- waits, that is the outcome, and the second does not begin.
run_steps-append :
    {F S : Type 0} (io : RegisterIo F S) (clock : Clock S) (c : CommContract) (interval fuel : ℕ)
    (steps more : List (Step F)) (params : Dict String (Given F)) (results : Results F) (s : S)
    → run_steps io clock c interval fuel (steps ++ more) params results s
      ≡ chain
          (run_steps io clock c interval fuel steps params results s)
          (λ results s. run_steps io clock c interval fuel more params results s)
unfolding run_steps
run_steps-append io clock c interval fuel [] more params results s = refl
run_steps-append io clock c interval fuel (step ∷ steps) more params results s =
    ap (chain (run_step io clock c interval fuel step params results s)) (
      fun_ext (λ results.
        fun_ext (λ s. run_steps-append io clock c interval fuel steps more params results s)))
    ∙ sym (
        chain_append io clock c interval (run_step io clock c interval fuel step params results s) _
          _)

abbrev Ended : {A : Type 0} → Option A → Type 0
Ended none = ⊥
Ended (some a) = Unit

Ended-some : {A : Type 0} (o : Option A) → Ended o → (a : A) × (o ≡ some a)
Ended-some none h = absurd h
Ended-some (some a) h = (a, refl)

Ended-if : {A : Type 0} (b : Bool) (o p : Option A) → Ended o → Ended p → Ended (if b then o else p)
Ended-if true o p h k = h
Ended-if false o p h k = k

Ended-chain :
    {S A B : Type 0} (o : Option (Result A × S)) (f : A → Waiting S B)
    → Ended o
    → ((a : A) (s : S) → Ended (f a s))
    → Ended (chain o f)
Ended-chain none f h k = h
Ended-chain (some (err e, s)) f h k = tt
Ended-chain (some (ok a, s)) f h k = k a s

-- The timeout of a step, if it has one, is a number below the rounds that it is given.
abbrev pub IsTimed : ℕ → Option (Option ℕ) → Type 0
IsTimed fuel none = Unit
IsTimed fuel (some none) = ⊥
IsTimed fuel (some (some t)) = t < fuel

abbrev pub IsTimedStep : {F : Type 0} → ℕ → Step F → Type 0
IsTimedStep fuel step = All (λ verb. IsTimed fuel verb.1.timeout_s) step

module _ {F S : Type 0} (io : RegisterIo F S) (clock : Clock S) (c : CommContract) (interval : ℕ)
    (st : IsSteady io clock interval) (fuel : ℕ) (some_rounds : 0 < fuel) where
  IsOver-Ended :
      (w : Wait) (s : S) (o : Option (Result (Unit {0}) × S))
      → IsOver io clock interval w s o
      → Ended o
  IsOver-Ended w s none h = h
  IsOver-Ended w s (some r) h = tt

  wait-Ended :
      (t : ℕ) (x : Result Wait) (s : S)
      → t < fuel
      → HasDeadline io clock c interval st t x s
      → Ended (chain (some (x, s)) (λ w. poll io clock c interval fuel w))
  wait-Ended t (err e) s l h = tt
  wait-Ended t (ok w) s l h =
      IsOver-Ended w s (poll io clock c interval fuel w s)
        (run_wait-IsOver io clock c interval st fuel t (ok w) s l h w refl)

  read_until-Ended :
      (o : Option (Option ℕ)) (spec : Spec F) (s : S)
      → spec.timeout_s ≡ o
      → IsTimed fuel o
      → Ended (do_read_until io clock c interval fuel spec s)
  unfolding do_read_until
  read_until-Ended none spec s e l =
      let (x, s') = start_wait io clock c interval spec s in
      wait-Ended 0 x s' some_rounds
        (start_wait-HasDeadline io clock c interval st spec 0 s (λ o r. absurd (cc)))
  read_until-Ended (some none) spec s e l = absurd l
  read_until-Ended (some (some t)) spec s e l =
      let (x, s') = start_wait io clock c interval spec s in
      wait-Ended t x s' l (start_wait-HasDeadline io clock c interval st spec t s (λ o r. (cc)))

  run_verb-Ended :
      (verb : String) (spec : Spec F) (params : Dict String (Given F)) (results : Results F) (s : S)
      → IsTimed fuel spec.timeout_s
      → Ended (run_verb io clock c interval fuel verb spec params results s)
  unfolding run_verb
  run_verb-Ended verb spec params results s l =
      Ended-if (verb == "write") _ _
        (Ended-chain (some (do_write io clock c interval spec params s)) _ tt (λ _ s. tt))
        (Ended-if (verb == "read") _ _ tt (
          Ended-if (verb == "read_until") _ _
            (Ended-chain (do_read_until io clock c interval fuel spec s) _
              (read_until-Ended spec.timeout_s spec s refl l) (λ _ s. tt))
            tt))

  run_step-Ended :
      (step : Step F) (params : Dict String (Given F)) (results : Results F) (s : S)
      → IsTimedStep fuel step
      → Ended (run_step io clock c interval fuel step params results s)
  unfolding run_step
  run_step-Ended [] params results s l = tt
  run_step-Ended ((verb, spec) ∷ []) params results s l =
      run_verb-Ended verb spec params results s l.0
  run_step-Ended ((verb, spec) ∷ next ∷ rest) params results s l = tt

  run_steps-Ended :
      (steps : List (Step F)) (params : Dict String (Given F)) (results : Results F) (s : S)
      → All (IsTimedStep fuel) steps
      → Ended (run_steps io clock c interval fuel steps params results s)
  unfolding run_steps
  run_steps-Ended [] params results s l = tt
  run_steps-Ended (step ∷ steps) params results s (l, ls) =
      Ended-chain (run_step io clock c interval fuel step params results s) _
        (run_step-Ended step params results s l)
        (λ results s. run_steps-Ended steps params results s ls)

-- An action ends, with its results or an exception, on a clock that does not run backwards and that
-- each sleep moves on, if no step of it declares an endless wait: as many rounds for each wait as is
-- more than any timeout are enough.
pub run_action_ends :
    {F S : Type 0} (io : RegisterIo F S) (clock : Clock S) (c : CommContract) (interval : ℕ)
    (st : IsSteady io clock interval) (fuel : ℕ) (steps : List (Step F))
    (params : Dict String (Given F)) (s : S)
    → 0 < fuel
    → All (IsTimedStep fuel) steps
    → (r : Result (Results F) × S) × (run_action io clock c interval fuel steps params s ≡ some r)
unfolding run_action
run_action_ends io clock c interval st fuel steps params s l h =
    Ended-some (run_steps io clock c interval fuel steps params [] s)
      (run_steps-Ended io clock c interval st fuel l steps params [] s h)
