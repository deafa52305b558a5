-- ===== src/Sensors.antt =====
-- sensor/base.py, `Sensor`: readings, their observations and the observers. The device and what an
-- observer or a dispatcher does are parameters, and neither changes the sensor. Locks and the
-- acquisition thread are left out: `stream_once` is one round of its loop.
pub mod Readings
pub mod Observers
pub mod Registry
use auto_weaver.Prelude.{
  ℕ, zero, suc, ◌+◌, String, Bool, true, false, ◌&&◌, ◌||◌, not, Option, none, some, List, [], ◌∷◌,
  ◌++◌, ◌==◌, nat_eq, string_eq, if◌then◌else◌,
}
use auto_weaver.Dict.{Dict, get, put}
use auto_weaver.Value.{Value, Exn, Result, ok, err, value_error, runtime_error}
use auto_weaver.Exec.{Exec, pure, raise, lift, gets, raise_if, ◌>>◌, ◌>>=◌}
use auto_weaver.Delivery
use auto_weaver.Delivery.{DropPolicy, ObservationQueue}

pub data ObserverSpeed : Type 0 where
  fast slow : ObserverSpeed

-- A root observation; `projection` is a reference
pub record Observation : Type 0 where
  pub id : ℕ
  pub source : String
  pub captured_at : ℕ
  pub data_read : Value
  pub conditions : Value
  pub projection : Value

-- An entry of the list of observers; the queue is the one of its `QueuedDelivery`.
pub record Entry : Type 0 where
  pub observer : ℕ
  pub speed : ObserverSpeed
  pub delivery : Option (ObservationQueue Observation)

pub record Sensor : Type 0 where
  pub role : Option String
  pub projection : Value
  pub entries : List Entry
  pub has_dispatcher : Bool
  pub observation_seq : ℕ

-- `snapshot`, `time.monotonic` and `_observation_conditions`
pub record Device (W : Type 0) : Type 0 where
  pub snapshot : W → Result Value × W
  pub monotonic : W → ℕ × W
  pub observation_conditions : W → Result Value × W

-- `on_observation`, and the dispatcher given a call of it
pub record Reactions (W : Type 0) : Type 0 where
  pub on_observation : ℕ → Observation → W → Option Exn × W
  pub dispatch : ℕ → Observation → W → Option Exn × W

unfoldable pub has_observer : ℕ → List Entry → Bool
has_observer n [] = false
has_observer n (e ∷ es) = if e.observer == n then true else has_observer n es

abbrev pub queue_of :
    Result (ObservationQueue Observation) → Result (Option (ObservationQueue Observation))
queue_of (err e) = err e
queue_of (ok q) = ok (some q)

-- the arguments `capacity` and `policy`, of which one without the other is refused
abbrev pub delivery_for :
    Option ℕ
    → Option DropPolicy
    → ObserverSpeed
    → Bool
    → Result (Option (ObservationQueue Observation))
delivery_for none none fast has_dispatcher = ok none
delivery_for none none slow true = ok none
delivery_for none none slow false = err runtime_error
delivery_for (some capacity) (some policy) speed has_dispatcher =
    queue_of (Delivery.new capacity policy)
delivery_for _ _ speed has_dispatcher = err value_error

abbrev pub append_entry : Bool → Entry → Sensor → Sensor
append_entry true e s = s
append_entry false e s = record s { entries = s.entries ++ e ∷ [] }

abbrev pub add_with :
    Result (Option (ObservationQueue Observation)) → ℕ → ObserverSpeed → Exec Sensor Unit
add_with (err e) n speed s = (err e, s)
add_with (ok d) n speed s = (
  ok tt,
  append_entry (has_observer n s.entries) (record { observer = n; speed = speed; delivery = d }) s,
)

unfoldable pub add_observer : ℕ → ObserverSpeed → Option ℕ → Option DropPolicy → Exec Sensor Unit
unfolding Delivery.new
add_observer n speed capacity policy s =
    add_with (delivery_for capacity policy speed s.has_dispatcher) n speed s

unfoldable pub without_observer : ℕ → List Entry → List Entry
without_observer n [] = []
without_observer n (e ∷ es) =
    let rest = without_observer n es in if e.observer == n then es else e ∷ rest

unfoldable pub remove_observer : ℕ → Sensor → Sensor
remove_observer n s = record s { entries = without_observer n s.entries }

unfoldable pub set_slow_dispatcher : Bool → Sensor → Sensor
set_slow_dispatcher given s = record s { has_dispatcher = given }

abbrev pub observers_of : List Entry → List ℕ
observers_of [] = []
observers_of (e ∷ es) = e.observer ∷ observers_of es

-- The tally of the queued observers, each by its name
abbrev pub tally : (ℕ → String) → ℕ → ℕ → Dict String ℕ → Dict String ℕ
tally name n zero by = by
tally name n (suc k) by =
    put by (name n) (elim (get by (name n)) [ none ↦ suc k | some m ↦ m + suc k ])

abbrev pub take_entry : Entry → Option (ObservationQueue Observation) → ℕ × Entry
take_entry e none = (0, e)
take_entry e (some q) =
    let (n, q') = Delivery.take_dropped q in (n, record e { delivery = some q' })

unfoldable pub take_dropped_from :
    (ℕ → String) → List Entry → ℕ → Dict String ℕ → (ℕ × Dict String ℕ) × List Entry
unfolding Delivery.take_dropped
take_dropped_from name [] total by = ((total, by), [])
take_dropped_from name (e ∷ es) total by =
    let (k, e') = take_entry e e.delivery in
    let (sums, rest) = take_dropped_from name es (total + k) (tally name e.observer k by) in
    (sums, e' ∷ rest)

unfoldable pub take_dropped : (ℕ → String) → Sensor → (ℕ × Dict String ℕ) × Sensor
take_dropped name s =
    let (sums, entries) = take_dropped_from name s.entries 0 [] in
    (sums, record s { entries = entries })

module _ {W : Type 0} (device : Device W) (reactions : Reactions W) where
  -- one entry of the loop of `_publish`; what an observer or a dispatcher raises is logged
  abbrev pub publish_at :
      Option (ObservationQueue Observation)
      → ObserverSpeed
      → Bool
      → Entry
      → Observation
      → W
      → Entry × W
  publish_at (some q) speed has_dispatcher e o w =
      (record e { delivery = some (Delivery.offer o q).1 }, w)
  publish_at none slow false e o w = (e, w)
  publish_at none slow true e o w = (e, (reactions.dispatch e.observer o w).1)
  publish_at none fast has_dispatcher e o w = (e, (reactions.on_observation e.observer o w).1)

  unfoldable pub publish_to : List Entry → Bool → Observation → W → List Entry × W
  unfolding Delivery.offer
  publish_to [] has_dispatcher o w = ([], w)
  publish_to (e ∷ es) has_dispatcher o w =
      let (e', w') = publish_at e.delivery e.speed has_dispatcher e o w in
      let (es', w'') = publish_to es has_dispatcher o w' in (e' ∷ es', w'')

  unfoldable pub publish : Observation → Sensor × W → Sensor × W
  publish o (s, w) =
      let (entries, w') = publish_to s.entries s.has_dispatcher o w in
      (record s { entries = entries }, w')

  -- the role of `_acquire_one`
  abbrev pub required_role : Option String → Result String
  required_role none = err value_error
  required_role (some role) = if role == "" then err value_error else ok role

  -- the number is taken before the conditions are asked for
  abbrev pub build :
      Result Value → ℕ → String → Value → Sensor × W → Result Observation × (Sensor × W)
  build (err e) at role payload (s, w) = (err e, (s, w))
  build (ok conditions) at role payload (s, w) = (
    ok (record {
      id = s.observation_seq;
      source = role;
      captured_at = at;
      data_read = payload;
      conditions = conditions;
      projection = s.projection;
    }),
    (s, w),
  )

  abbrev pub mint : Result Value → String → Sensor × W → Result Observation × (Sensor × W)
  mint (err e) role (s, w) = (err e, (s, w))
  mint (ok payload) role (s, w) =
      let (at, w') = device.monotonic w in
      let s' : Sensor = record s { observation_seq = s.observation_seq + 1 } in
      let (x, w'') = device.observation_conditions w' in build x at role payload (s', w'')

  abbrev pub acquire : Result String → Sensor × W → Result Observation × (Sensor × W)
  acquire (err e) (s, w) = (err e, (s, w))
  acquire (ok role) (s, w) = let (x, w') = device.snapshot w in mint x role (s, w')

  unfoldable pub acquire_one : Exec (Sensor × W) Observation
  acquire_one (s, w) = acquire (required_role s.role) (s, w)

  abbrev pub publish_result : Result Observation → Sensor × W → Result Observation × (Sensor × W)
  publish_result (err e) sw = (err e, sw)
  publish_result (ok o) sw = (ok o, publish o sw)

  -- `observe`; the check of the role that it makes first is made again by `_acquire_one`
  unfoldable pub observe : Exec (Sensor × W) Observation
  unfolding publish acquire_one
  observe sw = let (x, sw') = acquire_one sw in publish_result x sw'

  -- a round of `_stream_loop` without its pacing: what a reading raises is logged
  unfoldable pub stream_once : Sensor × W → Sensor × W
  unfolding observe
  stream_once sw = (observe sw).1
