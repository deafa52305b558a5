-- ===== src/Tests/Sensors.antt =====
-- Runs of sensor/base.py.
use auto_weaver.Prelude.{
  ℕ, ◌+◌, ◌%◌, ◌≡◌, true, false, none, some, List, [], ◌∷◌, map, ◌==◌, nat_eq, if◌then◌else◌,
}
use auto_weaver.Value.{nothing, int, ok, err, raised}
use auto_weaver.Delivery.{latest_only, drop_oldest}
use auto_weaver.Sensors.{fast, slow, Observation, Entry, Sensor, Device, Reactions, publish_to}
use auto_weaver.Sensors.Readings.{Ascend, observe_times, observe_times-Ascend}
use auto_weaver.Sensors.Observers.{recorded, offered, reactions_of, publish_to_lem}
use auto_weaver.Sensors.Registry.{Call, adds, sets_dispatcher}

-- a device that fails at every third reading, on a world that counts them
abbrev device : {A : Type 0} → Device (A × ℕ)
device = record {
  snapshot = λ (a, n). (if n % 3 == 1 then err (raised 1) else ok (int n), (a, n + 1));
  monotonic = λ (a, n). (n, (a, n));
  observation_conditions = λ (a, n). (ok nothing, (a, n));
}

-- the observer 2 raises
abbrev reactions : {W : Type 0} → Reactions W
reactions = record {
  on_observation = λ n o w. (if n == 2 then some (raised 2) else none, w);
  dispatch = λ n o w. (none, w);
}

abbrev unobserved : Sensor
unobserved = record {
  role = some "nest";
  projection = nothing;
  entries = [];
  has_dispatcher = true;
  observation_seq = 4;
}

observe_times-Ascend_example :
    Ascend (some "nest") 4 (observe_times device reactions 5 (unobserved, (tt, 0)))
observe_times-Ascend_example = observe_times-Ascend device reactions 5 unobserved (tt, 0)

abbrev seen : Observation
seen = record {
  id = 5;
  source = "nest";
  captured_at = 0;
  data_read = nothing;
  conditions = nothing;
  projection = nothing;
}

abbrev watched : List Entry
watched =
    record { observer = 2; speed = fast; delivery = none }
    ∷ record {
      observer = 3;
      speed = slow;
      delivery =
          some (record {
            policy = latest_only;
            capacity = 1;
            items = [];
            dropped = 0;
            closed = false;
          });
    }
    ∷ record { observer = 4; speed = slow; delivery = none }
    ∷ record { observer = 5; speed = fast; delivery = none }
    ∷ []

publish_to_lem_example :
    let (es, (log, w)) = publish_to device (recorded reactions) watched true seen ([], 0) in
    (es ≡ map (λ e. offered seen e.delivery e) watched) × (log ≡ reactions_of watched true)
publish_to_lem_example = publish_to_lem device reactions watched true seen [] 0

abbrev changes : List Call
changes =
    adds 1 fast none none
    ∷ sets_dispatcher false
    ∷ adds 2 slow none none
    ∷ adds 3 slow (some 2) (some drop_oldest)
    ∷ adds 1 fast none none
    ∷ []
