-- ===== src/Tests/Servo.antt =====
-- Runs of servo/controller.py on numbers in place of floats and of vectors.
use auto_weaver.Prelude.{ℕ, ◌*◌, ◌/◌, ◌≡◌, refl, some, List, [], ◌∷◌, length, leb, ltb}
use auto_weaver.Value.{ok}
use auto_weaver.Servo.{Arrays, ServoController, is_step, decide, step, ibvs_velocity, reset}
use auto_weaver.Servo.Episode.{episode}

abbrev arrays : Arrays
arrays = record {
  Float = ℕ;
  Vector = ℕ;
  Matrix = ℕ;
  at_most = leb;
  below = ltb;
  nought = 0;
  one = 1;
  times = λ a b. a * b;
  over = λ a b. a / b;
  norm = λ v. v;
  size = λ v. 1;
  rows = λ m. some 1;
  command = λ gain m e. gain * e;
  scale = λ v a. v * a;
  empty = 0;
}

abbrev controller : ServoController arrays
controller = record {
  matrix = λ features. ok 1;
  gain = 1;
  deadband = 2;
  max_step = some 5;
  max_iterations = 3;
  divergence_ratio = some 3;
  iteration = 2;
  initial_error_norm = some 1;
}

-- errors that shrink too slowly
abbrev slow : List (ℕ × ℕ)
slow = (8, 0) ∷ (6, 0) ∷ (3, 0) ∷ []

two_commands : length (episode arrays slow (reset arrays controller)).0 ≡ 2
unfolding episode step decide ibvs_velocity is_step reset
two_commands = refl
