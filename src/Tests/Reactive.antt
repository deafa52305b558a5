-- ===== src/Tests/Reactive.antt =====
-- Runs of reactive/state_machine.py.
use auto_weaver.Prelude.{String, ◌≡◌, refl, true, none, some, List, [], ◌∷◌}
use auto_weaver.Value.{Value, nothing, raised}
use auto_weaver.Reactive.{World, Reactions, first_fired, trigger, notify_transition, call_back}
use auto_weaver.Reactive.Moves.{trigger_all}

-- the handlers do nothing, and the callback raises
abbrev reactions : Reactions Unit
reactions = record {
  handle = λ h event payload w. (none, w);
  call = λ c old new name payload w. (some (raised 1), w);
  time = λ w. nothing;
}

abbrev door : World Unit
door = record {
  machine = record {
    state = "shut";
    transitions =
        record { trigger_name = "open"; source = "shut" ∷ []; dest = "open" }
        ∷ record { trigger_name = "alarm"; source = "*" ∷ []; dest = "locked" }
        ∷ [];
    on_transition = 3 ∷ [];
    name = "door";
    has_bus = true;
    publish_state_changes = true;
  };
  subscribers = ("*", 4 ∷ []) ∷ [];
  rest = tt;
}

abbrev calls : List (String × Value)
calls = ("open", nothing) ∷ ("open", nothing) ∷ ("alarm", nothing) ∷ []

locked : (trigger_all reactions calls door).machine.state ≡ "locked"
unfolding trigger_all trigger first_fired notify_transition call_back
locked = refl
