-- ===== src/Reactive.antt =====
-- reactive/event_bus.py and reactive/state_machine.py. What a handler and a callback do is a parameter:
-- it may raise, and may change the bus, the machine and the rest of the world. A callback of a machine
-- does not register another while they are being called.
pub mod Moves
use auto_weaver.Prelude.{
  ℕ, String, Bool, true, false, not, ◌&&◌, ◌||◌, Option, none, some, List, [], ◌∷◌, ◌++◌, keep,
  ◌==◌, nat_eq, string_eq, if◌then◌else◌,
}
use auto_weaver.Dict.{Dict, get, put, remove}
use auto_weaver.Value.{Value, Entries, end, entry, dict, text, Exn, Result, ok, err}
use auto_weaver.Exec.{Exec, continue, pure, modify, ◌>>◌, ◌>>=◌}

pub record Transition : Type 0 where
  pub trigger_name : String
  pub source : List String
  pub dest : String

-- Handlers and callbacks are numbers.
pub record StateMachine : Type 0 where
  pub state : String
  pub transitions : List Transition
  pub on_transition : List ℕ
  pub name : String
  pub has_bus : Bool
  pub publish_state_changes : Bool

pub record World (E : Type 0) : Type 0 where
  pub machine : StateMachine
  pub subscribers : Dict String (List ℕ)
  pub rest : E

-- `handle` is given the event and its payload, `call` the two states, the trigger and the payload, and
-- `time` is `time.time()`.
pub record Reactions (E : Type 0) : Type 0 where
  pub handle : ℕ → String → Value → World E → Option Exn × World E
  pub call : ℕ → String → String → String → Value → World E → Option Exn × World E
  pub time : World E → Value

abbrev pub handlers_of : Option (List ℕ) → List ℕ
handlers_of none = []
handlers_of (some hs) = hs

abbrev pub put_or_pop : List ℕ → Dict String (List ℕ) → String → Dict String (List ℕ)
put_or_pop [] d event = remove d event
put_or_pop (h ∷ hs) d event = put d event (h ∷ hs)

abbrev pub in_names : String → List String → Bool
in_names s [] = false
in_names s (t ∷ ts) = if s == t then true else in_names s ts

-- a transition that the trigger fires in a state
abbrev pub is_fired_by : Transition → String → String → Bool
is_fired_by t trigger_name state =
    t.trigger_name == trigger_name && (in_names "*" t.source || in_names state t.source)

-- the first of them
unfoldable pub first_fired : List Transition → String → String → Option Transition
first_fired [] trigger_name state = none
first_fired (t ∷ ts) trigger_name state =
    if is_fired_by t trigger_name state then some t else first_fired ts trigger_name state

module _ {E : Type 0} where
  unfoldable pub subscribe : String → ℕ → World E → World E
  subscribe event handler w = record w {
    subscribers = put w.subscribers event (handlers_of (get w.subscribers event) ++ handler ∷ []);
  }

  unfoldable pub unsubscribe : String → ℕ → World E → World E
  unsubscribe event handler w = record w {
    subscribers =
        put_or_pop (keep (λ h. not (h == handler)) (handlers_of (get w.subscribers event)))
          w.subscribers event;
  }

  unfoldable pub add_transition : String → List String → String → World E → World E
  add_transition trigger_name source dest w = record w {
    machine = record w.machine {
      transitions =
          w.machine.transitions
          ++ record { trigger_name = trigger_name; source = source; dest = dest } ∷ [];
    };
  }

  abbrev pub enter_state : String → World E → World E
  enter_state s w = record w { machine = record w.machine { state = s } }

module _ {E : Type 0} (reactions : Reactions E) where
  -- the handlers of one key of `publish`; what one raises is logged
  unfoldable pub call_handlers : List ℕ → String → Value → World E → World E
  call_handlers [] event payload w = w
  call_handlers (h ∷ hs) event payload w =
      call_handlers hs event payload (reactions.handle h event payload w).1

  -- each list is copied when its turn comes
  unfoldable pub publish : String → Value → World E → World E
  publish event payload w =
      let w' = call_handlers (handlers_of (get w.subscribers event)) event payload w in
      call_handlers (handlers_of (get w'.subscribers "*")) event payload w'

  abbrev pub result_of : Option Exn → Result (Unit {0})
  result_of none = ok tt
  result_of (some e) = err e

  -- the callbacks of a transition, of which one that raises ends the loop
  unfoldable pub call_back : List ℕ → String → String → String → Value → Exec (World E) Unit
  call_back [] old new trigger_name payload w = (ok tt, w)
  call_back (c ∷ cs) old new trigger_name payload w =
      let (x, w') = reactions.call c old new trigger_name payload w in
      continue (result_of x) (λ _. call_back cs old new trigger_name payload) w'

  abbrev pub change_of : String → String → String → Value → World E → Value
  change_of old new trigger_name payload w = dict (
      entry "timestamp" (reactions.time w) (
        entry "source" (text w.machine.name) (
          entry "payload"
            (dict (
              entry "old_state" (text old) (
                entry "new_state" (text new)
                  (entry "trigger" (text trigger_name) (entry "data" payload end)))))
            end)))

  abbrev pub publish_if : Bool → Value → World E → World E
  publish_if true change w = publish "STATE:CHANGED" change w
  publish_if false change w = w

  unfoldable pub notify_transition : String → String → String → Value → Exec (World E) Unit
  unfolding publish call_back
  notify_transition old new trigger_name payload w =
      (call_back w.machine.on_transition old new trigger_name payload
          >> modify (λ w.
            publish_if (w.machine.has_bus && w.machine.publish_state_changes)
              (change_of old new trigger_name payload w) w))
        w

  abbrev pub set_unless : Bool → String → Value → Exec (World E) Unit
  set_unless true state payload w = (ok tt, w)
  set_unless false state payload w =
      notify_transition w.machine.state state "STATE:SET" payload (enter_state state w)

  unfoldable pub set_state : String → Value → Exec (World E) Unit
  unfolding notify_transition
  set_state state payload w = set_unless (state == w.machine.state) state payload w

  abbrev pub fire : Option Transition → String → Value → Exec (World E) Bool
  fire none trigger_name payload w = (ok false, w)
  fire (some t) trigger_name payload w =
      (notify_transition w.machine.state t.dest trigger_name payload >> pure true)
        (enter_state t.dest w)

  unfoldable pub trigger : String → Value → Exec (World E) Bool
  unfolding notify_transition
  trigger trigger_name payload w =
      fire (first_fired w.machine.transitions trigger_name w.machine.state) trigger_name payload w
