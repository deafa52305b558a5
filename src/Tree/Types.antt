-- ===== src/Tree/Types.antt =====
-- The data of motion_policy/nodes/: the fields of every node class, and the process state that a
-- tick reads and writes. Times are whole numbers of one fixed unit.
use auto_weaver.Prelude.{ℕ, String, Bool, Option, none, List}
use auto_weaver.Value.{Value, Entries, Exn, Result}
use auto_weaver.Blackboard.{Blackboard}
use auto_weaver.WorldBoard.{Snapshot, WorldBoard}

pub data Status : Type 0 where
  success failure running idle : Status

-- worker/base.py, `TickContext`
pub record TickContext : Type 0 where
  pub tick_id : ℕ
  pub timestamp : ℕ
  pub dt : ℕ

-- What the nodes of one tree share: their blackboard, the WorldBoard, the counter of
-- `next_request_id`, and the goals that were halted on devices.
pub record World : Type 0 where
  pub blackboard : Blackboard
  pub world_board : WorldBoard
  pub next_request : ℕ
  pub halted_goals : List ℕ

-- What `tick(snapshot, ctx)` hands down the tree.
pub record Handed : Type 0 where
  pub snapshot : Option Snapshot
  pub ctx : Option TickContext

-- The attributes that `TreeNode.__init__` gives every node.
pub record Base : Type 0 where
  pub name : String
  pub status : Status
  pub handed : Handed
  pub exception : Option Exn

-- A user's subclass of `ActionLeaf`, and its device: `on_start` and `on_running` may raise, and set
-- the goal; `device.halt(goal)` may raise.
pub record Device : Type 0 where
  pub on_start : Handed → World → Result Status × Option ℕ × World
  pub on_running : Option ℕ → Handed → World → Result Status × Option ℕ × World
  pub halt_goal : ℕ → Option Exn

-- The forms of a `NotifyAndWait` payload. Each function may raise.
pub data PayloadSpec : Type 0 where
  no_payload : PayloadSpec
  fixed : Entries → PayloadSpec
  of_board : (Blackboard → Result Entries) → PayloadSpec
  of_both : (Blackboard → Snapshot → Result Entries) → PayloadSpec

-- The leaf classes, with the attributes of their own. What a user supplies is a function.
pub data Leaf : Type 0 where
  condition : (Handed → World → Result Bool) → Leaf
  wait : ℕ → Option ℕ → Leaf
  wait_for : String → (Option Value → Result Bool) → Leaf
  chalk : String → (Option Snapshot → Option Value → Result Value) → Leaf
  notify : String → String → Value → String → Leaf
  notify_and_wait : String → String → PayloadSpec → String → ℕ → Leaf
  wait_for_advance : String → String → Leaf
  action : Device → Option ℕ → Leaf

-- The control classes: `_current_index` of Sequence and Fallback, the threshold of Parallel.
pub data Control : Type 0 where
  sequence fallback : ℕ → Control
  premise : Control
  parallel : ℕ → Control

-- The decorator classes: Retry and Repeat with their limit and counter, Timeout with its seconds
-- and start time, RepeatUntil with its test, ForEach with its key, items and index.
pub data Decorator : Type 0 where
  inverter force_success : Decorator
  retry repeat : ℕ → ℕ → Decorator
  timeout : ℕ → Option ℕ → Decorator
  repeat_until : (Option Snapshot → Blackboard → Result Bool) → Decorator
  foreach : String → List Value → ℕ → Decorator

-- A tree owns its nodes: no node object stands at two places. The `Bool` of a control node is
-- `_was_explicit`.
mutual
  pub data Node : Type 0 where
    leaf : Base → Leaf → Node
    control : Base → Control → Bool → Nodes → Node
    decorator : Base → Decorator → Node → Node

  pub data Nodes : Type 0 where
    nil : Nodes
    cons : Node → Nodes → Nodes

abbrev pub base_of : Node → Base
base_of (leaf b l) = b
base_of (control b k e cs) = b
base_of (decorator b d c) = b

abbrev pub nothing_handed : Handed
nothing_handed = record { snapshot = none; ctx = none }
