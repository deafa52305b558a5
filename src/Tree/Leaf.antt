-- ===== src/Tree/Leaf.antt =====
-- The hooks of the leaves in motion_policy/nodes/leaf/.
use Prim.Native.String.{◌++◌ as string_append}
use auto_weaver.Prelude.{
  ℕ, ◌+◌, ◌-◌, String, Bool, true, false, Option, none, some, leb, ltb, ◌==◌, string_eq,
  if◌then◌else◌, ◌∷◌,
}
use auto_weaver.Value.{
  Value, nothing, int, dict, Entries, end, entry, Exn, Result, ok, err, to_int, runtime_error,
  type_error,
}
use auto_weaver.Exec.{Exec, gets, lift, pure, ◌>>=◌, ◌>>◌}
use auto_weaver.Blackboard
use auto_weaver.WorldBoard
use auto_weaver.WorldBoard.{Snapshot, look_up}
use auto_weaver.Tree.Types.{
  Status, success, failure, running, TickContext, World, Handed, Base, Device, PayloadSpec,
  no_payload, fixed, of_board, of_both, Leaf, condition, wait, wait_for, chalk, notify,
  notify_and_wait, wait_for_advance, action,
}

-- `self.snapshot`, which raises outside a tick
unfoldable pub snapshot_of : Handed → Result Snapshot
snapshot_of h = elim h.snapshot [ none ↦ err runtime_error | some s ↦ ok s ]

-- `self.now`
abbrev pub time_of : Option TickContext → Result ℕ
time_of none = err runtime_error
time_of (some c) = ok c.timestamp

unfoldable pub now : Handed → Result ℕ
now h = time_of h.ctx

-- A call on the blackboard, or on the WorldBoard, that the tree makes.
unfoldable pub on_board : {A : Type 0} → Exec Blackboard.Blackboard A → Exec World A
on_board m w = let (r, b) = m w.blackboard in (r, record w { blackboard = b })

unfoldable pub on_world : {A : Type 0} → Exec WorldBoard.WorldBoard A → Exec World A
on_world m w = let (r, b) = m w.world_board in (r, record w { world_board = b })

-- `SUCCESS if test else other`
abbrev pub status_if : Bool → Status → Status
status_if true other = success
status_if false other = other

-- `Condition.on_start` and `on_running`
unfoldable pub check_condition : (Handed → World → Result Bool) → Handed → Exec World Status
check_condition check h = do
  w ← gets (λ w. w)
  holds ← lift (check h w)
  pure (status_if holds failure)

-- `Wait.on_start`: the start time is set before the test
unfoldable pub start_wait : ℕ → Handed → Result (Status × Option ℕ)
start_wait seconds h = elim (now h) [
  | err e ↦ err e
  | ok t ↦ ok (status_if (leb seconds 0) running, some t)
]

-- `Wait.on_running`; a missing start time makes the subtraction raise `TypeError`. The clock is
-- monotonic, so the difference is not negative.
unfoldable pub resume_wait : ℕ → Option ℕ → Handed → Result (Status × Option ℕ)
resume_wait seconds start h = elim (now h) [
  | err e ↦ err e
  | ok t ↦ elim start [
    | none ↦ err type_error
    | some t0 ↦ if leb seconds (t - t0) then ok (success, none) else ok (running, some t0)
  ]
]

-- `WaitFor._evaluate`
unfoldable pub evaluate_wait_for :
    String → (Option Value → Result Bool) → Handed → Exec World Status
evaluate_wait_for key predicate h = do
  s ← lift (snapshot_of h)
  holds ← lift (predicate (look_up s key))
  pure (status_if holds running)

-- `Chalk.on_start`
unfoldable pub write_chalk :
    String → (Option Snapshot → Option Value → Result Value) → Handed → Exec World Status
write_chalk key fn h = do
  current ← gets (λ w. Blackboard.read w.blackboard key)
  value ← lift (fn h.snapshot current)
  on_board (Blackboard.write key value "chalk")
  pure success

-- `NotifyLeaf.on_start`
unfoldable pub send_note : String → String → Value → String → Exec World Status
send_note target note_name payload sender = do
  on_world (WorldBoard.pass_note target note_name payload sender)
  pure success

-- `next_request_id()` of worker/base.py
unfoldable pub next_request_id : Exec World ℕ
next_request_id w = (ok w.next_request, record w { next_request = w.next_request + 1 })

-- `payload["__request_id__"] = rid`
unfoldable pub set_entry : String → Value → Entries → Entries
set_entry k v end = entry k v end
set_entry k v (entry j u es) = if j == k then entry j v es else entry j u (set_entry k v es)

-- `NotifyAndWait._build_payload`
unfoldable pub build_payload : PayloadSpec → Handed → World → Result Entries
build_payload no_payload h w = ok end
build_payload (fixed es) h w = ok es
build_payload (of_board f) h w = f w.blackboard
build_payload (of_both f) h w = elim (snapshot_of h) [ err e ↦ err e | ok s ↦ f w.blackboard s ]

-- the value of a counter that may be absent or `None`, as an int
unfoldable pub counter : Option Value → Result ℕ
counter none = ok 0
counter (some nothing) = ok 0
counter (some v) = to_int v

-- `NotifyAndWait._evaluate`
unfoldable pub evaluate_request : String → ℕ → Handed → Exec World Status
unfolding counter
evaluate_request target rid h = do
  s ← lift (snapshot_of h)
  last ← lift (counter (look_up s (string_append target ".last_completed_id")))
  pure (status_if (leb rid last) running)

-- `NotifyAndWait.on_start`, given the request id that was allocated
unfoldable pub send_request :
    String → String → PayloadSpec → String → ℕ → Handed → Exec World Status
unfolding build_payload evaluate_request
send_request target note_name spec sender rid h = do
  built ← gets (build_payload spec h)
  payload ← lift built
  on_world (
      WorldBoard.pass_note target note_name (dict (set_entry "__request_id__" (int rid) payload))
        sender)
  evaluate_request target rid h

-- `WaitForAdvance._read_threshold`: a value that is no int counts as 0
unfoldable pub read_threshold : String → World → ℕ
read_threshold bb_key w = elim (Blackboard.read w.blackboard bb_key) [
  | none ↦ 0
  | some v ↦ elim (to_int v) [ ok n ↦ n | err e ↦ 0 ]
]

-- `WaitForAdvance._evaluate`; the writer is the node's name
unfoldable pub evaluate_advance : String → String → String → Handed → Exec World Status
unfolding counter read_threshold
evaluate_advance name state_key bb_key h = do
  s ← lift (snapshot_of h)
  current ← lift (counter (look_up s state_key))
  threshold ← gets (read_threshold bb_key)
  elim (ltb threshold current) [
    | true ↦ on_board (Blackboard.write bb_key (int current) name) >> pure success
    | false ↦ pure running
  ]

abbrev pub waited_status : Result (Status × Option ℕ) → Result Status
waited_status (ok p) = ok p.0
waited_status (err e) = err e

-- an exception leaves the start time as it was
abbrev pub waited_start : Option ℕ → Result (Status × Option ℕ) → Option ℕ
waited_start start (ok p) = p.1
waited_start start (err e) = start

abbrev pub waited : ℕ → Option ℕ → Result (Status × Option ℕ) → World → Result Status × Leaf × World
waited seconds start r w = (waited_status r, wait seconds (waited_start start r), w)

-- `on_start` of a leaf: the outcome, the leaf with its new attributes, and the new world.
unfoldable pub start_leaf : Base → Leaf → World → Result Status × Leaf × World
start_leaf b (condition check) w =
    let (r, w') = check_condition check b.handed w in (r, condition check, w')
start_leaf b (wait seconds start) w = waited seconds start (start_wait seconds b.handed) w
start_leaf b (wait_for key predicate) w =
    let (r, w') = evaluate_wait_for key predicate b.handed w in (r, wait_for key predicate, w')
start_leaf b (chalk key fn) w = let (r, w') = write_chalk key fn b.handed w in (r, chalk key fn, w')
start_leaf b (notify target name payload sender) w =
    let (r, w') = send_note target name payload sender w in
    (r, notify target name payload sender, w')
start_leaf b (notify_and_wait target name spec sender rid) w =
    let rid' = w.next_request in
    let (r, w') =
      (next_request_id >>= λ fresh. send_request target name spec sender fresh b.handed) w in
    (r, notify_and_wait target name spec sender rid', w')
start_leaf b (wait_for_advance state_key bb_key) w =
    let (r, w') = evaluate_advance b.name state_key bb_key b.handed w in
    (r, wait_for_advance state_key bb_key, w')
start_leaf b (action device goal) w =
    let (r, goal', w') = device.on_start b.handed w in (r, action device goal', w')

-- `on_running` of a leaf
unfoldable pub resume_leaf : Base → Leaf → World → Result Status × Leaf × World
resume_leaf b (condition check) w =
    let (r, w') = check_condition check b.handed w in (r, condition check, w')
resume_leaf b (wait seconds start) w = waited seconds start (resume_wait seconds start b.handed) w
resume_leaf b (wait_for key predicate) w =
    let (r, w') = evaluate_wait_for key predicate b.handed w in (r, wait_for key predicate, w')
resume_leaf b (chalk key fn) w = (ok success, chalk key fn, w)
resume_leaf b (notify target name payload sender) w =
    (ok success, notify target name payload sender, w)
resume_leaf b (notify_and_wait target name spec sender rid) w =
    let (r, w') = evaluate_request target rid b.handed w in
    (r, notify_and_wait target name spec sender rid, w')
resume_leaf b (wait_for_advance state_key bb_key) w =
    let (r, w') = evaluate_advance b.name state_key bb_key b.handed w in
    (r, wait_for_advance state_key bb_key, w')
resume_leaf b (action device goal) w =
    let (r, goal', w') = device.on_running goal b.handed w in (r, action device goal', w')

-- after `device.halt(goal)`: a goal whose halt raised is kept
unfoldable pub after_halt_goal : Option Exn → Device → ℕ → World → Option Exn × Leaf × World
after_halt_goal none device goal w =
    (none, action device none, record w { halted_goals = goal ∷ w.halted_goals })
after_halt_goal (some e) device goal w = (some e, action device (some goal), w)

-- `ActionLeaf.on_halted`
unfoldable pub halt_action : Device → Option ℕ → World → Option Exn × Leaf × World
unfolding after_halt_goal
halt_action device none w = (none, action device none, w)
halt_action device (some goal) w = after_halt_goal (device.halt_goal goal) device goal w

-- `on_halted` of a leaf: `Wait` and `ActionLeaf` have one of their own
unfoldable pub halt_leaf : Leaf → World → Option Exn × Leaf × World
unfolding halt_action
halt_leaf (wait seconds start) w = (none, wait seconds none, w)
halt_leaf (action device goal) w = halt_action device goal w
halt_leaf l w = (none, l, w)

-- `reset` of a leaf, in its own attributes
unfoldable pub reset_leaf : Leaf → Leaf
reset_leaf (wait seconds start) = wait seconds none
reset_leaf (notify_and_wait target name spec sender rid) = notify_and_wait target name spec sender 0
reset_leaf (action device goal) = action device none
reset_leaf l = l
