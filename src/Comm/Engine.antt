-- ===== src/Comm/Engine.antt =====
-- `CommEngine` of comm/modbus_primitive.py: the three verbs and the run of an action. Every `read_until`
-- has `fuel` rounds; `none` stands for a wait that is not over by then.
use Prim.Native.Char.{code}
use auto_weaver.Prelude.{
  ℕ, zero, suc, ◌+◌, String, Bool, true, false, Option, none, some, List, [], ◌∷◌, ◌++◌, length,
  leb, ◌==◌, nat_eq, string_eq, if◌then◌else◌,
}
use auto_weaver.Dict.{Dict, get, put}
use auto_weaver.Value.{Value, Result, ok, err, action_step_error, key_error, read_until_timeout}
use auto_weaver.Exec.{Exec, pure, raise, lift, ◌>>=◌, ◌>>◌}
use auto_weaver.Comm.{
  RegisterIo, Clock, BlockSpec, CommContract, Point, mapping, other, Given, single, path, symbol,
  Spec, Reading, word, fields, found, register_named, block_named, const, reorder_pose,
  block_to_fields,
}

-- a step is a mapping of verbs
abbrev pub Step : Type 0 → Type 0
Step F = Dict String (Spec F)

abbrev pub Results : Type 0 → Type 0
Results F = Dict String (Reading F)

-- what may still be waiting
abbrev pub Waiting : Type 0 → Type 0 → Type 0
Waiting S A = S → Option (Result A × S)

module _ {S A B : Type 0} where
  abbrev pub chain : Option (Result A × S) → (A → Waiting S B) → Option (Result B × S)
  chain none next = none
  chain (some (err e, s)) next = some (err e, s)
  chain (some (ok a, s)) next = next a s

abbrev pub name_of_result : Option String → String
name_of_result none = "value"
name_of_result (some into) = into

module _ {F : Type 0} where
  abbrev pub resolve_symbol : String → Dict String (Given F) → Result (Given F)
  resolve_symbol String.[] params = ok (symbol "")
  resolve_symbol (String.◌∷◌ c name) params =
      if code c == b'$'
      then found action_step_error (get params name)
      else ok (symbol (String.◌∷◌ c name))

  -- `_resolve`
  abbrev pub resolve : Given F → Dict String (Given F) → Result (Given F)
  resolve (symbol s) params = resolve_symbol s params
  resolve v params = ok v

  abbrev pub points_of : Given F → List (Point F)
  points_of (single p) = p ∷ []
  points_of (path ps) = ps
  points_of (symbol s) = other ∷ []

  abbrev pub counted : ℕ → Result (List F) → Result (List F)
  counted count (err e) = err e
  counted count (ok ordered) = if length ordered == count then ok ordered else err action_step_error

  abbrev pub order_point : BlockSpec → Point F → Result (List F)
  order_point block other = err action_step_error
  order_point block (mapping values) = counted block.count (reorder_pose values block.order)

  abbrev pub joined : Result (List F) → Result (List F) → Result (List F)
  joined (ok xs) (ok ys) = ok (xs ++ ys)
  joined (ok xs) (err e) = err e
  joined (err e) _ = err e

  abbrev pub order_points : BlockSpec → List (Point F) → Result (List F)
  order_points block [] = ok []
  order_points block (p ∷ ps) = joined (order_point block p) (order_points block ps)

  -- the values that a write of a block sends: an empty path is refused
  unfoldable pub flat_values : BlockSpec → List (Point F) → Result (List F)
  flat_values block [] = err action_step_error
  flat_values block (p ∷ ps) = order_points block (p ∷ ps)

-- a `read_until` that is about to poll
pub record Wait : Type 0 where
  pub register : ℕ
  pub expected : ℕ
  pub deadline : Option ℕ

module _ {F S : Type 0} (io : RegisterIo F S) (clock : Clock S) (c : CommContract)
    (interval : ℕ) where
  unfoldable pub write_block : String → Option (Given F) → Dict String (Given F) → Exec S Unit
  write_block name values params = do
    block ← lift (block_named c name)
    given ← lift (found key_error values)
    points ← lift (resolve given params)
    flat ← lift (flat_values block (points_of points))
    io.write_real32_block block.start flat

  unfoldable pub write_flag : String → Value → Exec S Unit
  write_flag name value = do
    register ← lift (register_named c name)
    number ← lift (const c value)
    io.write_u16 register number

  unfoldable pub write_flags : Dict String Value → Exec S Unit
  write_flags [] = pure tt
  write_flags ((name, value) ∷ flags) = write_flag name value >> write_flags flags

  unfoldable pub write_register : String → Option Value → Exec S Unit
  write_register name value = do
    register ← lift (register_named c name)
    given ← lift (found key_error value)
    number ← lift (const c given)
    io.write_u16 register number

  abbrev pub write_to :
      Option String
      → Option (Dict String Value)
      → Option String
      → Spec F
      → Dict String (Given F)
      → Exec S Unit
  write_to (some name) flags register spec params = write_block name spec.values params
  write_to none (some flags) register spec params = write_flags flags
  write_to none none (some name) spec params = write_register name spec.value
  write_to none none none spec params = raise action_step_error

  unfoldable pub do_write : Spec F → Dict String (Given F) → Exec S Unit
  do_write spec params = write_to spec.block spec.flags spec.register spec params

  unfoldable pub read_block : String → Exec S (Reading F)
  read_block name = do
    block ← lift (block_named c name)
    raw ← io.read_real32_block block.start block.count
    pure (fields (block_to_fields raw block.order))

  unfoldable pub read_register : String → Exec S (Reading F)
  read_register name = do
    register ← lift (register_named c name)
    n ← io.read_u16 register
    pure (word n)

  abbrev pub read_from : Option String → Option String → Exec S (Reading F)
  read_from (some name) register = read_block name
  read_from none (some name) = read_register name
  read_from none none = raise action_step_error

  unfoldable pub do_read : Spec F → Results F → Exec S (Results F)
  do_read spec results = do
    reading ← read_from spec.block spec.register
    pure (put results (name_of_result spec.into) reading)

  abbrev pub deadline_after : Option ℕ → Exec S (Option ℕ)
  deadline_after none s = (ok none, s)
  deadline_after (some timeout) s =
      let (now, s') = clock.monotonic s in (ok (some (now + timeout)), s')

  unfoldable pub start_wait : Spec F → Exec S Wait
  start_wait spec = do
    name ← lift (found key_error spec.register)
    register ← lift (register_named c name)
    value ← lift (found key_error spec.equals)
    expected ← lift (const c value)
    timeout ← lift (found action_step_error spec.timeout_s)
    deadline ← deadline_after timeout
    pure (record { register = register; expected = expected; deadline = deadline })

  abbrev pub check_deadline : Bool → Waiting S Unit → Waiting S Unit
  check_deadline true next s = some (err read_until_timeout, s)
  check_deadline false next s = next (clock.sleep interval s)

  -- a word that is not the expected one
  abbrev pub after_miss : Option ℕ → Waiting S Unit → Waiting S Unit
  after_miss none next s = next (clock.sleep interval s)
  after_miss (some deadline) next s =
      let (now, s') = clock.monotonic s in check_deadline (leb deadline now) next s'

  abbrev pub compare_word : Bool → Option ℕ → Waiting S Unit → Waiting S Unit
  compare_word true deadline next s = some (ok tt, s)
  compare_word false deadline next s = after_miss deadline next s

  abbrev pub after_read : Result ℕ → Wait → Waiting S Unit → Waiting S Unit
  after_read (err e) w next s = some (err e, s)
  after_read (ok last) w next s = compare_word (last == w.expected) w.deadline next s

  -- the loop of `_do_read_until`
  unfoldable pub poll : ℕ → Wait → Waiting S Unit
  poll zero w s = none
  poll (suc fuel) w s =
      let (x, s') = io.read_u16 w.register s in after_read x w (λ s. poll fuel w s) s'

  unfoldable pub do_read_until : ℕ → Spec F → Waiting S Unit
  do_read_until fuel spec s = chain (some (start_wait spec s)) (λ w. poll fuel w)

  -- the handler of a verb
  unfoldable pub run_verb :
      ℕ → String → Spec F → Dict String (Given F) → Results F → Waiting S (Results F)
  run_verb fuel verb spec params results s =
      if verb == "write"
      then chain (some (do_write spec params s)) (λ _ s. some (ok results, s))
      else if verb == "read"
      then some (do_read spec results s)
      else if verb == "read_until"
      then chain (do_read_until fuel spec s) (λ _ s. some (ok results, s))
      else some (err action_step_error, s)

  unfoldable pub run_step : ℕ → Step F → Dict String (Given F) → Results F → Waiting S (Results F)
  run_step fuel ((verb, spec) ∷ []) params results s = run_verb fuel verb spec params results s
  run_step fuel _ params results s = some (err action_step_error, s)

  unfoldable pub run_steps :
      ℕ → List (Step F) → Dict String (Given F) → Results F → Waiting S (Results F)
  run_steps fuel [] params results s = some (ok results, s)
  run_steps fuel (step ∷ steps) params results s =
      chain (run_step fuel step params results s)
        (λ results s. run_steps fuel steps params results s)

  unfoldable pub run_action : ℕ → List (Step F) → Dict String (Given F) → Waiting S (Results F)
  run_action fuel steps params s = run_steps fuel steps params [] s
