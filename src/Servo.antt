-- ===== src/Servo.antt =====
-- servo/controller.py and servo/law.py: the decision of one iteration of a servo loop. Floats, arrays
-- and what NumPy does with them are the parameter `Arrays`; a provider of matrices may raise.
pub mod Episode
use auto_weaver.Prelude.{
  ℕ, zero, suc, ◌+◌, Bool, true, false, not, ◌&&◌, ◌||◌, Option, none, some, leb, ◌==◌, nat_eq,
  if◌then◌else◌,
}
use auto_weaver.Value.{Exn, Result, ok, err, value_error}
use auto_weaver.Exec.{Exec}

-- Python's floats with their comparisons, and NumPy's arrays. `command gain l e` is
-- `-gain * (pinv(l) @ e)`, and `none` as a shape is a matrix that is not 2-D.
pub record Arrays : Type 1 where
  pub Float : Type 0
  pub Vector : Type 0
  pub Matrix : Type 0
  pub at_most : Float → Float → Bool
  pub below : Float → Float → Bool
  pub nought : Float
  pub one : Float
  pub times : Float → Float → Float
  pub over : Float → Float → Float
  pub norm : Vector → Float
  pub size : Vector → ℕ
  pub rows : Matrix → Option ℕ
  pub command : Float → Matrix → Vector → Vector
  pub scale : Vector → Float → Vector
  pub empty : Vector

pub data ServoOutcome : Type 0 where
  stepping converged diverged exhausted : ServoOutcome

unfoldable pub is_step : ServoOutcome → Bool
is_step stepping = true
is_step _ = false

module _ (N : Arrays) where
  open N use {Float, Vector, Matrix}

  pub record ServoStep : Type 0 where
    pub velocity : Vector
    pub error_norm : Float
    pub clamped : Bool

  pub record ServoDecision : Type 0 where
    pub outcome : ServoOutcome
    pub velocity : Vector
    pub error_norm : Float
    pub iteration : ℕ
    pub clamped : Bool

  -- a controller, with the provider of the interaction matrix for the features
  pub record ServoController : Type 0 where
    pub matrix : Vector → Result Matrix
    pub gain : Float
    pub deadband : Float
    pub max_step : Option Float
    pub max_iterations : ℕ
    pub divergence_ratio : Option Float
    pub iteration : ℕ
    pub initial_error_norm : Option Float

module _ (N : Arrays) where
  open N use {Float, Vector, Matrix, at_most, below, nought, one, times, over, norm, size, rows}

  abbrev pub is_some_below : Option Float → Float → (Float → Float → Bool) → Bool
  is_some_below none x test = false
  is_some_below (some a) x test = test a x

  -- `ServoController.__init__`
  unfoldable pub new :
      (Vector → Result Matrix)
      → Float
      → Float
      → Option Float
      → ℕ
      → Option Float
      → Result (ServoController N)
  new matrix gain deadband max_step max_iterations ratio =
      if at_most gain nought
        || below deadband nought
        || is_some_below max_step nought at_most
        || max_iterations == 0
        || is_some_below ratio one at_most
      then err value_error
      else ok (record {
        matrix = matrix;
        gain = gain;
        deadband = deadband;
        max_step = max_step;
        max_iterations = max_iterations;
        divergence_ratio = ratio;
        iteration = 0;
        initial_error_norm = none;
      })

  -- the clamp of `ibvs_velocity`
  abbrev pub clamp_at : Bool → Vector → Float → Vector × Bool
  clamp_at true v most = (N.scale v (over most (norm v)), true)
  clamp_at false v most = (v, false)

  abbrev pub clamp : Option Float → Vector → Vector × Bool
  clamp none v = (v, false)
  clamp (some most) v = clamp_at (below most (norm v)) v most

  abbrev pub has_rows : Option ℕ → ℕ → Bool
  has_rows none n = false
  has_rows (some m) n = m == n

  unfoldable pub ibvs_velocity : Vector → Matrix → Float → Option Float → Result (ServoStep N)
  ibvs_velocity error l gain max_step =
      let (velocity, clamped) = clamp max_step (N.command gain l error) in
      if at_most gain nought
        || is_some_below max_step nought at_most
        || not (has_rows (rows l) (size error))
      then err value_error
      else ok (record { velocity = velocity; error_norm = norm error; clamped = clamped })

  -- `_terminal`
  abbrev pub terminal : ServoOutcome → Float → ℕ → ServoDecision N
  terminal outcome error_norm iteration = record {
    outcome = outcome;
    velocity = N.empty;
    error_norm = error_norm;
    iteration = iteration;
    clamped = false;
  }

  abbrev pub first_norm : Option Float → Float → Float
  first_norm none e = e
  first_norm (some e0) e = e0

  -- the error has grown past the guard
  abbrev pub has_diverged : Option Float → Float → Float → Bool
  has_diverged none e0 e = false
  has_diverged (some ratio) e0 e = below nought e0 && below (times ratio e0) e

  abbrev pub as_decision : Result (ServoStep N) → Float → ℕ → Result (ServoDecision N)
  as_decision (err e) error_norm iteration = err e
  as_decision (ok s) error_norm iteration = ok (record {
    outcome = stepping;
    velocity = s.velocity;
    error_norm = error_norm;
    iteration = iteration;
    clamped = s.clamped;
  })

  -- the control step with the matrix that the provider gave
  abbrev pub emit : Result Matrix → Vector → ServoController N → Result (ServoDecision N)
  emit (err e) error k = err e
  emit (ok l) error k =
      as_decision (ibvs_velocity error l k.gain k.max_step) (norm error) k.iteration

  -- the decision once the iteration and the first error are noted
  unfoldable pub decide : Vector → Vector → Float → ServoController N → Result (ServoDecision N)
  unfolding ibvs_velocity
  decide error features e0 k =
      let e = norm error in
      if at_most e k.deadband
      then ok (terminal converged e k.iteration)
      else if has_diverged k.divergence_ratio e0 e
      then ok (terminal diverged e k.iteration)
      else if leb k.max_iterations k.iteration
      then ok (terminal exhausted e k.iteration)
      else emit (k.matrix features) error k

  unfoldable pub step : Vector → Vector → Exec (ServoController N) (ServoDecision N)
  unfolding decide
  step error features k =
      let e0 = first_norm k.initial_error_norm (norm error) in
      let k' : ServoController N = record k {
        iteration = k.iteration + 1;
        initial_error_norm = some e0;
      } in
      (decide error features e0 k', k')

  unfoldable pub reset : ServoController N → ServoController N
  reset k = record k { iteration = 0; initial_error_norm = none }
