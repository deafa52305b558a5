-- ===== src/Comm/Rounds.antt =====
-- The rounds that the waits of comm/modbus_primitive.py are given do not change what an action does.
use auto_weaver.Prelude.{
  All, ◌<◌, ℕ, zero, suc, ◌≤◌, String, ◌≡◌, refl, Bool, true, false, Option, none, some, List, [],
  ◌∷◌, arith, leb, ◌==◌, nat_eq, string_eq, if◌then◌else◌,
}
use auto_weaver.Dict.{Dict}
use auto_weaver.Value.{Result, ok, err}
use auto_weaver.Comm.Ends.{IsSteady}
use auto_weaver.Comm.Actions.{IsTimedStep, run_action_ends}
use auto_weaver.Comm.{RegisterIo, Clock, CommContract, Given, Spec}
use auto_weaver.Comm.Engine.{
  Step, Results, Wait, Waiting, chain, poll, do_read_until, do_write, start_wait, run_verb,
  run_step, run_steps, run_action, after_read, compare_word, after_miss, check_deadline,
}

-- Where the first is over, the second is over with the same outcome.
abbrev Agrees : {A : Type 0} → Option A → Option A → Type 0
Agrees none p = Unit
Agrees (some a) p = p ≡ some a

Agrees-refl : {A : Type 0} (o : Option A) → Agrees o o
Agrees-refl none = tt
Agrees-refl (some a) = refl

Agrees-eq : {A : Type 0} (o p : Option A) (a : A) → Agrees o p → o ≡ some a → p ≡ some a
Agrees-eq none p a h e = absurd (cc)
Agrees-eq (some b) p a h e = (cc)

Agrees-if :
    {A : Type 0} (b : Bool) (o o' p p' : Option A)
    → Agrees o o'
    → Agrees p p'
    → Agrees (if b then o else p) (if b then o' else p')
Agrees-if true o o' p p' h k = h
Agrees-if false o o' p p' h k = k

Agrees-chain :
    {S A B : Type 0} (o p : Option (Result A × S)) (f g : A → Waiting S B)
    → Agrees o p
    → ((a : A) (s : S) → Agrees (f a s) (g a s))
    → Agrees (chain o f) (chain p g)
Agrees-chain none p f g h k = tt
Agrees-chain (some (err e, s)) p f g h k = rw h (Agrees-refl (some (err e, s)))
Agrees-chain (some (ok a, s)) p f g h k = rw h (k a s)

module _ {F S : Type 0} (io : RegisterIo F S) (clock : Clock S) (c : CommContract)
    (interval : ℕ) where
  check_deadline-Agrees :
      (t : Bool) (f g : Waiting S Unit) (s : S)
      → ((s : S) → Agrees (f s) (g s))
      → Agrees (check_deadline io clock c interval t f s) (check_deadline io clock c interval t g s)
  check_deadline-Agrees true f g s h = refl
  check_deadline-Agrees false f g s h = h (clock.sleep interval s)

  after_miss-Agrees :
      (deadline : Option ℕ) (f g : Waiting S Unit) (s : S)
      → ((s : S) → Agrees (f s) (g s))
      → Agrees
          (after_miss io clock c interval deadline f s)
          (after_miss io clock c interval deadline g s)
  after_miss-Agrees none f g s h = h (clock.sleep interval s)
  after_miss-Agrees (some d) f g s h =
      let (now, s') = clock.monotonic s in check_deadline-Agrees (leb d now) f g s' h

  compare_word-Agrees :
      (t : Bool) (deadline : Option ℕ) (f g : Waiting S Unit) (s : S)
      → ((s : S) → Agrees (f s) (g s))
      → Agrees
          (compare_word io clock c interval t deadline f s)
          (compare_word io clock c interval t deadline g s)
  compare_word-Agrees true deadline f g s h = refl
  compare_word-Agrees false deadline f g s h = after_miss-Agrees deadline f g s h

  after_read-Agrees :
      (x : Result ℕ) (w : Wait) (f g : Waiting S Unit) (s : S)
      → ((s : S) → Agrees (f s) (g s))
      → Agrees (after_read io clock c interval x w f s) (after_read io clock c interval x w g s)
  after_read-Agrees (err e) w f g s h = refl
  after_read-Agrees (ok n) w f g s h = compare_word-Agrees (n == w.expected) w.deadline f g s h

  poll-Agrees :
      (n m : ℕ) (w : Wait) (s : S)
      → n ≤ m
      → Agrees (poll io clock c interval n w s) (poll io clock c interval m w s)
  unfolding poll
  poll-Agrees zero m w s l = tt
  poll-Agrees (suc n) zero w s l = absurd (omega (arith, l))
  poll-Agrees (suc n) (suc m) w s l =
      let (x, s') = io.read_u16 w.register s in
      after_read-Agrees x w _ _ s' (λ s. poll-Agrees n m w s (omega (arith, l)))

  run_verb-Agrees :
      (n m : ℕ) (verb : String) (spec : Spec F) (params : Dict String (Given F))
      (results : Results F) (s : S)
      → n ≤ m
      → Agrees
          (run_verb io clock c interval n verb spec params results s)
          (run_verb io clock c interval m verb spec params results s)
  unfolding run_verb do_read_until
  run_verb-Agrees n m verb spec params results s l =
      Agrees-if (verb == "write") _ _ _ _
        (Agrees-chain (some (do_write io clock c interval spec params s)) _ _ _ refl (λ _ s. refl))
        (Agrees-if (verb == "read") _ _ _ _ refl (
          Agrees-if (verb == "read_until") _ _ _ _
            (Agrees-chain _ _ _ _
              (Agrees-chain (some (start_wait io clock c interval spec s)) _ _ _ refl
                (λ w s. poll-Agrees n m w s l))
              (λ _ s. refl))
            refl))

  run_step-Agrees :
      (n m : ℕ) (step : Step F) (params : Dict String (Given F)) (results : Results F) (s : S)
      → n ≤ m
      → Agrees
          (run_step io clock c interval n step params results s)
          (run_step io clock c interval m step params results s)
  unfolding run_step
  run_step-Agrees n m [] params results s l = refl
  run_step-Agrees n m ((verb, spec) ∷ []) params results s l =
      run_verb-Agrees n m verb spec params results s l
  run_step-Agrees n m ((verb, spec) ∷ next ∷ rest) params results s l = refl

  run_steps-Agrees :
      (n m : ℕ) (steps : List (Step F)) (params : Dict String (Given F)) (results : Results F)
      (s : S)
      → n ≤ m
      → Agrees
          (run_steps io clock c interval n steps params results s)
          (run_steps io clock c interval m steps params results s)
  unfolding run_steps
  run_steps-Agrees n m [] params results s l = refl
  run_steps-Agrees n m (step ∷ steps) params results s l =
      Agrees-chain _ _ _ _ (run_step-Agrees n m step params results s l)
        (λ results s. run_steps-Agrees n m steps params results s l)

-- An action that is over within some rounds for each wait does the same with more rounds: how many
-- rounds are given is of no matter once they are enough.
run_action_more :
    {F S : Type 0} (io : RegisterIo F S) (clock : Clock S) (c : CommContract) (interval : ℕ)
    (n m : ℕ) (steps : List (Step F)) (params : Dict String (Given F)) (s : S)
    (r : Result (Results F) × S)
    → n ≤ m
    → run_action io clock c interval n steps params s ≡ some r
    → run_action io clock c interval m steps params s ≡ some r
unfolding run_action
run_action_more io clock c interval n m steps params s r l e =
    Agrees-eq _ _ r (run_steps-Agrees io clock c interval n m steps params [] s l) e

-- An action that declares no endless wait has one outcome, its results or an exception, on a clock
-- that does not run backwards and that each sleep moves on: it is over with that outcome for every
-- number of rounds for each wait that is more than its timeouts.
pub run_action_settles :
    {F S : Type 0} (io : RegisterIo F S) (clock : Clock S) (c : CommContract) (interval : ℕ)
    (st : IsSteady io clock interval) (fuel : ℕ) (steps : List (Step F))
    (params : Dict String (Given F)) (s : S)
    → 0 < fuel
    → All (IsTimedStep fuel) steps
    → (r : Result (Results F) × S) × ((m : ℕ)
        → fuel ≤ m
        → run_action io clock c interval m steps params s ≡ some r)
run_action_settles io clock c interval st fuel steps params s l h =
    let (r, e) = run_action_ends io clock c interval st fuel steps params s l h in
    (r, λ m more. run_action_more io clock c interval fuel m steps params s r more e)
