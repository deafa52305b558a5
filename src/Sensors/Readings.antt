-- ===== src/Sensors/Readings.antt =====
-- The observations that a sensor of sensor/base.py mints, one reading after the other.
use mathlib.Core.Path.{subst}
use auto_weaver.Prelude.{
  ℕ, zero, suc, ◌+◌, ◌≤◌, ◌<◌, String, ◌≡◌, refl, sym, ap, Bool, true, false, Option, none, some,
  List, [], ◌∷◌, arith, ◌==◌, string_eq, if◌then◌else◌,
}
use auto_weaver.Value.{Value, Result, ok, err, value_error}
use auto_weaver.Sensors.{
  Observation, Sensor, Device, Reactions, publish, required_role, build, mint, acquire, acquire_one,
  publish_result, observe,
}

-- What one reading leaves: the role as it was, and a count that did not go back. An observation
-- carries the new count, which is above the old one, and the role.
abbrev pub IsMinted : {W : Type 0} → Sensor × W → Result Observation × (Sensor × W) → Type 0
IsMinted (s, w) (err e, (s', w')) = (s'.role ≡ s.role) × (s.observation_seq ≤ s'.observation_seq)
IsMinted (s, w) (ok o, (s', w')) =
    (s'.role ≡ s.role)
    × (s.observation_seq < o.id)
    × (o.id ≡ s'.observation_seq)
    × (some o.source ≡ s.role)

module _ {W : Type 0} (device : Device W) (reactions : Reactions W) where
  build-IsMinted :
      (x : Result Value) (at : ℕ) (role : String) (payload : Value) (s : Sensor) (w w' : W)
      → s.role ≡ some role
      → IsMinted
          (s, w)
          (build device reactions x at role payload
            (record s { observation_seq = s.observation_seq + 1 }, w'))
  build-IsMinted (err e) at role payload s w w' h = (refl, omega arith)
  build-IsMinted (ok c) at role payload s w w' h = (refl, omega arith, refl, sym h)

  mint-IsMinted :
      (x : Result Value) (role : String) (s : Sensor) (w w' : W)
      → s.role ≡ some role
      → IsMinted (s, w) (mint device reactions x role (s, w'))
  mint-IsMinted (err e) role s w w' h = (refl, omega arith)
  mint-IsMinted (ok payload) role s w w' h =
      let (at, w1) = device.monotonic w' in
      let (x, w2) = device.observation_conditions w1 in build-IsMinted x at role payload s w w2 h

  acquire-IsMinted :
      (x : Result String) (s : Sensor) (w : W)
      → ((role : String) → x ≡ ok role → s.role ≡ some role)
      → IsMinted (s, w) (acquire device reactions x (s, w))
  acquire-IsMinted (err e) s w h = (refl, omega arith)
  acquire-IsMinted (ok role) s w h =
      let (x, w') = device.snapshot w in mint-IsMinted x role s w w' (h role refl)

  named : (b : Bool) (r role : String) → (if b then err value_error else ok r) ≡ ok role → r ≡ role
  named true r role h = absurd (cc)
  named false r role h = (cc)

  required_role-some :
      (o : Option String) (role : String)
      → required_role device reactions o ≡ ok role
      → o ≡ some role
  required_role-some none role h = absurd (cc)
  required_role-some (some r) role h = ap some (named (r == "") r role h)

  publish_result-IsMinted :
      (x : Result Observation) (s s' : Sensor) (w w' : W)
      → IsMinted (s, w) (x, (s', w'))
      → IsMinted (s, w) (publish_result device reactions x (s', w'))
  unfolding publish
  publish_result-IsMinted (err e) s s' w w' h = h
  publish_result-IsMinted (ok o) s s' w w' h = h

  observe-IsMinted : (s : Sensor) (w : W) → IsMinted (s, w) (observe device reactions (s, w))
  unfolding observe acquire_one
  observe-IsMinted s w =
      let (x, (s', w')) = acquire_one device reactions (s, w) in
      publish_result-IsMinted x s s' w w'
        (acquire-IsMinted (required_role device reactions s.role) s w (required_role-some s.role))

  abbrev minted : Result Observation → List Observation → List Observation
  minted (err e) l = l
  minted (ok o) l = o ∷ l

  -- the observations of so many readings in a row
  unfoldable pub observe_times : ℕ → Sensor × W → List Observation
  observe_times zero sw = []
  observe_times (suc n) sw =
      let (x, sw') = observe device reactions sw in minted x (observe_times n sw')

-- Observations of a role whose numbers go up, each above the one before it and the first above a
-- count.
abbrev pub Ascend : Option String → ℕ → List Observation → Type 0
Ascend role count [] = Unit
Ascend role count (o ∷ os) = (count < o.id) × (some o.source ≡ role) × Ascend role o.id os

Ascend-below :
    (role : Option String) (m n : ℕ) (l : List Observation)
    → m ≤ n
    → Ascend role n l
    → Ascend role m l
Ascend-below role m n [] h k = tt
Ascend-below role m n (o ∷ l) h (a, r, k) = (omega (arith, a, h), r, k)

module _ {W : Type 0} (device : Device W) (reactions : Reactions W) where
  minted-Ascend :
      (x : Result Observation) (rest : List Observation) (s s' : Sensor) (w w' : W)
      → IsMinted (s, w) (x, (s', w'))
      → Ascend s'.role s'.observation_seq rest
      → Ascend s.role s.observation_seq (minted device reactions x rest)
  minted-Ascend (err e) rest s s' w w' (r, l) h =
      Ascend-below s.role s.observation_seq s'.observation_seq rest l
        (subst (λ role. Ascend role s'.observation_seq rest) r h)
  minted-Ascend (ok o) rest s s' w w' (r, l, e, p) h = (
    l,
    p,
    subst (λ n. Ascend s.role n rest) (sym e)
        (subst (λ role. Ascend role s'.observation_seq rest) r h),
  )

-- However many readings a sensor takes, and whichever of them fail, the observations that it mints
-- carry its role and numbers that go up, from above the count that it had: no two share a number.
pub observe_times-Ascend :
    {W : Type 0} (device : Device W) (reactions : Reactions W) (n : ℕ) (s : Sensor) (w : W)
    → Ascend s.role s.observation_seq (observe_times device reactions n (s, w))
unfolding observe_times
observe_times-Ascend device reactions zero s w = tt
observe_times-Ascend device reactions (suc n) s w =
    let (x, (s', w')) = observe device reactions (s, w) in
    minted-Ascend device reactions x (observe_times device reactions n (s', w')) s s' w w'
      (observe-IsMinted device reactions s w) (observe_times-Ascend device reactions n s' w')
