-- ===== src/Blackboard/Writers.antt =====
-- The single-writer rule of motion_policy/blackboard.py, over any sequence of calls.
use auto_weaver.Prelude.{
  String, ◌≡◌, ◌≢◌, refl, Bool, true, false, not, ◌||◌, some, List, [], ◌∷◌, All, arith, eq_iff,
  ◌==◌, string_eq, if◌then◌else◌,
}
use auto_weaver.Dict
use auto_weaver.Dict.{get-put}
use auto_weaver.Value.{Value, Ty, Result, ok, err, permission_error, type_error}
use auto_weaver.Blackboard.{
  Blackboard, register_key, write, read, set_initial, clear, reset, owned_by_other, wrong_type,
}

-- What a write returns, by the order of its two checks.
abbrev pub verdict : Bool → Bool → Result (Unit {0})
verdict true wrong = err permission_error
verdict false true = err type_error
verdict false false = ok tt

-- `write` answers by its two checks: the owner first, then the type. Only a write that passes both
-- is visible, at its own key and nowhere else; no write changes a registration.
write_lem :
    (key : String) (value : Value) (writer : String) (b : Blackboard)
    → let foreign = owned_by_other (Dict.get b.writers key) writer in
      let wrong = wrong_type (Dict.get b.types key) value in
      let (r, b') = write key value writer b in
      (r ≡ verdict foreign wrong)
      × ((j : String)
          → read b' j ≡ (
              if not (foreign || wrong)
              then if key == j then some value else read b j
              else read b j))
      × (b'.writers ≡ b.writers)
      × (b'.types ≡ b.types)
unfolding write read
write_lem key value writer b =
    (ground arith, λ j. ground (arith, get-put b.contents key j value), ground arith, ground arith)

-- A call on a blackboard by node `writer`, or from outside the tree.
pub data Op : Type 0 where
  register : String → Ty → String → Op
  put : String → Value → String → Op
  initial : String → Value → Op
  wipe resets : Op

abbrev pub apply : Op → Blackboard → Blackboard
apply (register key t writer) b = (register_key key t writer b).1
apply (put key value writer) b = (write key value writer b).1
apply (initial key value) b = set_initial key value b
apply wipe b = clear b
apply resets b = reset b

unfoldable pub apply_all : List Op → Blackboard → Blackboard
apply_all [] b = b
apply_all (op ∷ ops) b = apply_all ops (apply op b)

-- `op` is no `reset`
abbrev pub IsKept : Op → Type 0
IsKept resets = ⊥
IsKept _ = Unit

-- `op` is no write of `key` by `writer`, no initial value of it, no `clear` and no `reset`
abbrev pub IsForeign : String → String → Op → Type 0
IsForeign key writer (register k t w) = Unit
IsForeign key writer (put k value w) = w ≢ writer
IsForeign key writer (initial k value) = k ≢ key
IsForeign key writer wipe = ⊥
IsForeign key writer resets = ⊥

IsKept-foreign : (key writer : String) (op : Op) → IsForeign key writer op → IsKept op
IsKept-foreign key writer (register k t w) h = tt
IsKept-foreign key writer (put k value w) h = tt
IsKept-foreign key writer (initial k value) h = tt
IsKept-foreign key writer wipe h = absurd h
IsKept-foreign key writer resets h = absurd h

owner-apply :
    (key writer : String) (op : Op) (b : Blackboard)
    → IsKept op
    → Dict.get b.writers key ≡ some writer
    → Dict.get (apply op b).writers key ≡ some writer
unfolding register_key write set_initial clear
owner-apply key writer (register k t w) b n h =
    ground (arith, get-put b.writers k key w, eq_iff k key, eq_iff writer w)
owner-apply key writer (put k value w) b n h = ground arith
owner-apply key writer (initial k value) b n h = h
owner-apply key writer wipe b n h = h
owner-apply key writer resets b n h = absurd n

-- Once a key is registered, no later registration, write, initial value or `clear` changes its
-- owner, until a `reset`.
owner_stable :
    (key writer : String) (ops : List Op) (b : Blackboard)
    → All IsKept ops
    → Dict.get b.writers key ≡ some writer
    → Dict.get (apply_all ops b).writers key ≡ some writer
unfolding apply_all
owner_stable key writer [] b n h = h
owner_stable key writer (op ∷ ops) b n h =
    owner_stable key writer ops (apply op b) n.1 (owner-apply key writer op b n.0 h)

read-apply :
    (key writer : String) (op : Op) (b : Blackboard)
    → IsForeign key writer op
    → Dict.get b.writers key ≡ some writer
    → read (apply op b) key ≡ read b key
unfolding register_key write set_initial clear read
read-apply key writer (register k t w) b f h = ground arith
read-apply key writer (put k value w) b f h =
    ground (arith, get-put b.contents k key value, eq_iff k key, eq_iff writer w)
read-apply key writer (initial k value) b f h =
    ground (arith, get-put b.contents k key value, eq_iff k key)
read-apply key writer wipe b f h = absurd f
read-apply key writer resets b f h = absurd f

-- The value of a registered key survives every sequence of calls that holds no write by its owner,
-- no initial value of that key, no `clear` and no `reset`, whatever other writers try.
pub only_owner_writes :
    (key writer : String) (ops : List Op) (b : Blackboard)
    → Dict.get b.writers key ≡ some writer
    → All (IsForeign key writer) ops
    → read (apply_all ops b) key ≡ read b key
unfolding apply_all
only_owner_writes key writer [] b h f = refl
only_owner_writes key writer (op ∷ ops) b h f =
    rw
      (only_owner_writes key writer ops (apply op b)
        (owner-apply key writer op b (IsKept-foreign key writer op f.0) h) f.1)
      (read-apply key writer op b f.0 h)
