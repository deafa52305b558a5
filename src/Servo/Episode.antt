-- ===== src/Servo/Episode.antt =====
-- Episodes of a controller of servo/controller.py: one `step` for each observation, until a decision
-- is terminal.
use auto_weaver.Prelude.{
  ℕ, ◌+◌, ◌≤◌, ◌<◌, ◌≡◌, refl, sym, ap, ◌∙◌, Bool, true, false, Option, some, List, [], ◌∷◌, length,
  arith, leb, nat_eq, if◌then◌else◌,
}
use auto_weaver.Value.{Exn, Result, ok, err}
use auto_weaver.Servo.{
  Arrays, stepping, converged, diverged, exhausted, is_step, ServoDecision, ServoController,
  ServoStep, ibvs_velocity, terminal, first_norm, has_diverged, as_decision, emit, decide, step,
  reset,
}

-- how an episode stands after its observations
pub data End (N : Arrays) : Type 0 where
  unfinished : End N
  decided : ServoDecision N → End N
  failed : Exn → End N

module _ (N : Arrays) where
  open N use {Float, Vector}

  abbrev follow_decision :
      Bool → ServoDecision N → List (ServoDecision N) × End N → List (ServoDecision N) × End N
  follow_decision true d (ds, end) = (d ∷ ds, end)
  follow_decision false d rest = ([], decided d)

  abbrev follow :
      Result (ServoDecision N) → List (ServoDecision N) × End N → List (ServoDecision N) × End N
  follow (err e) rest = ([], failed e)
  follow (ok d) rest = follow_decision (is_step d.outcome) d rest

  -- the commands of an episode, and its end
  unfoldable pub episode :
      List (Vector × Vector) → ServoController N → List (ServoDecision N) × End N
  episode [] k = ([], unfinished)
  episode ((error, features) ∷ seen) k =
      let (d, k') = step N error features k in follow d (episode seen k')

-- A command of an episode whose first error has the norm `e0`: the error is outside the deadband and
-- within the divergence guard, and the iteration is below the cap.
pub record IsCommand (N : Arrays) (deadband : N.Float) (ratio : Option N.Float) (most : ℕ)
    (e0 : N.Float) (d : ServoDecision N) : Type 0 where
  pub outside : N.at_most d.error_norm deadband ≡ false
  pub guarded : has_diverged N ratio e0 d.error_norm ≡ false
  pub capped : d.iteration < most

module _ (N : Arrays) where
  open N use {Float, Vector, Matrix, norm, at_most}

  choice :
      (a b c : Bool) (x y z d : ServoDecision N) (r : Result (ServoDecision N))
      → is_step x.outcome ≡ false
      → is_step y.outcome ≡ false
      → is_step z.outcome ≡ false
      → is_step d.outcome ≡ true
      → (if a then ok x else if b then ok y else if c then ok z else r) ≡ ok d
      → (a ≡ false) × (b ≡ false) × (c ≡ false) × (r ≡ ok d)
  choice true b c x y z d r p q s t h = let same : x ≡ d = (cc) in absurd (cc)
  choice false true c x y z d r p q s t h = let same : y ≡ d = (cc) in absurd (cc)
  choice false false true x y z d r p q s t h = let same : z ≡ d = (cc) in absurd (cc)
  choice false false false x y z d r p q s t h = (refl, refl, refl, h)

  as_decision-same :
      (r : Result (ServoStep N)) (e : Float) (n : ℕ) (d : ServoDecision N)
      → as_decision N r e n ≡ ok d
      → (d.error_norm ≡ e) × (d.iteration ≡ n)
  as_decision-same (err x) e n d h = absurd (cc)
  as_decision-same (ok s) e n d h =
      let same : record {
        outcome = stepping;
        velocity = s.velocity;
        error_norm = e;
        iteration = n;
        clamped = s.clamped;
      }
          ≡ d =
        (cc) in
      (
        sym (ap (λ (x : ServoDecision N). x.error_norm) same),
        sym (ap (λ (x : ServoDecision N). x.iteration) same),
      )

  emit-same :
      (m : Result Matrix) (error : Vector) (k : ServoController N) (d : ServoDecision N)
      → emit N m error k ≡ ok d
      → (d.error_norm ≡ norm error) × (d.iteration ≡ k.iteration)
  emit-same (err e) error k d h = absurd (cc)
  emit-same (ok l) error k d h =
      as_decision-same (ibvs_velocity N error l k.gain k.max_step) (norm error) k.iteration d h

  decide-IsCommand :
      (error features : Vector) (e0 : Float) (k : ServoController N) (d : ServoDecision N)
      → is_step d.outcome ≡ true
      → decide N error features e0 k ≡ ok d
      → IsCommand N k.deadband k.divergence_ratio k.max_iterations e0 d
        × (d.iteration ≡ k.iteration)
  unfolding decide is_step
  decide-IsCommand error features e0 k d t h =
      let e = norm error in
      let (a, b, c, r) =
        choice (at_most e k.deadband) (has_diverged N k.divergence_ratio e0 e)
          (leb k.max_iterations k.iteration) (terminal N converged e k.iteration)
          (terminal N diverged e k.iteration) (terminal N exhausted e k.iteration) d
          (emit N (k.matrix features) error k) refl refl refl t h in
      let (x, n) = emit-same (k.matrix features) error k d r in
      (
        record {
          outside = ap (λ v. at_most v k.deadband) x ∙ a;
          guarded = ap (has_diverged N k.divergence_ratio e0) x ∙ b;
          capped = ground (arith, c, n);
        },
        n,
      )

  follow-cases :
      (P : List (ServoDecision N) × End N → Type 0) (r : Result (ServoDecision N))
      (rest : List (ServoDecision N) × End N)
      → ((e : Exn) → P ([], failed e))
      → ((d : ServoDecision N) → P ([], decided d))
      → ((d : ServoDecision N) → is_step d.outcome ≡ true → r ≡ ok d → P (d ∷ rest.0, rest.1))
      → P (follow N r rest)
  follow-cases P (err e) rest h j l = h e
  follow-cases P (ok d) rest h j l =
      elim (is_step d.outcome) as (λ b. is_step d.outcome ≡ b → P (follow_decision N b d rest)) [
        | true ↦ λ e. l d e refl
        | false ↦ λ e. j d
      ]
        refl

  abbrev pub IsFinished : End N → Type 0
  IsFinished unfinished = ⊥
  IsFinished _ = Unit

  finishes :
      (seen : List (Vector × Vector)) (k : ServoController N)
      → 0 < length seen
      → k.max_iterations ≤ k.iteration + length seen
      → IsFinished (episode N seen k).1
  unfolding episode step
  finishes [] k l m = absurd (omega (arith, l))
  finishes ((error, features) ∷ seen) k l m =
      let e0 = first_norm N k.initial_error_norm (norm error) in
      let k' : ServoController N = record k {
        iteration = k.iteration + 1;
        initial_error_norm = some e0;
      } in
      follow-cases (λ x. IsFinished x.1) (decide N error features e0 k') (episode N seen k')
        (λ e. tt) (λ d. tt)
        (λ d t h.
          let (c, n) = decide-IsCommand error features e0 k' d t h in
          finishes seen k' (omega (arith, c.capped, n, m)) (omega (arith, m)))

-- An episode of a controller that was reset is over by its `max_iterations`-th observation: the error
-- has converged or diverged, the iterations are exhausted, or a step raised.
episode_finishes :
    (N : Arrays) (k : ServoController N) (seen : List (N.Vector × N.Vector))
    → 0 < length seen
    → k.max_iterations ≤ length seen
    → IsFinished N (episode N seen (reset N k)).1
unfolding reset
episode_finishes N k seen l m = finishes N seen (reset N k) l (omega (arith, m))
