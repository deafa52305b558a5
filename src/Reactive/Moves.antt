-- ===== src/Reactive/Moves.antt =====
-- The states that a machine of reactive/state_machine.py goes through.
use auto_weaver.Prelude.{ℕ, String, ◌≡◌, true, List, [], ◌∷◌, string_eq}
use auto_weaver.Value.{Value}
use auto_weaver.Exec.{Exec}
use auto_weaver.Reactive.{Transition, World, Reactions, is_fired_by, trigger}

-- a transition of a list
pub data IsIn (t : Transition) : List Transition → Type 0 where
  here : (ts : List Transition) → IsIn t (t ∷ ts)
  later : (u : Transition) (ts : List Transition) → IsIn t ts → IsIn t (u ∷ ts)

-- The second state is reached from the first along declared transitions, each by a trigger of its own
-- and in a state that it declares as a source, or with "*" as a source.
pub data Reaches (ts : List Transition) : String → String → Type 0 where
  stays : (s : String) → Reaches ts s s
  moves :
      (t : Transition) (s u : String)
      → IsIn t ts
      → is_fired_by t t.trigger_name s ≡ true
      → Reaches ts t.dest u
      → Reaches ts s u

-- From the first world to the second the machine moved along its transitions, which stay the same.
abbrev pub HasMoved : {E : Type 0} → World E → World E → Type 0
HasMoved w w' =
    (w'.machine.transitions ≡ w.machine.transitions)
    × Reaches w.machine.transitions w.machine.state w'.machine.state

-- Handlers and callbacks change the machine by its transitions at most.
pub record OnlyMoves {E : Type 0} (reactions : Reactions E) : Type 0 where
  pub handles :
      (h : ℕ) (event : String) (payload : Value) (w : World E)
      → HasMoved w (reactions.handle h event payload w).1
  pub calls :
      (c : ℕ) (old new trigger_name : String) (payload : Value) (w : World E)
      → HasMoved w (reactions.call c old new trigger_name payload w).1

-- the triggers of a list, one after the other, whatever they return or raise
unfoldable pub trigger_all : {E : Type 0} → Reactions E → List (String × Value) → World E → World E
trigger_all reactions [] w = w
trigger_all reactions ((name, payload) ∷ rest) w =
    trigger_all reactions rest (trigger reactions name payload w).1
