-- ===== src/Tree/Operators.antt =====
-- The operators of motion_policy/nodes/node.py that build trees.
use auto_weaver.Prelude.{ℕ, String, ◌≡◌, refl, ap, Bool, true, false, none, if◌then◌else◌}
use auto_weaver.Tree.{
  idle, Base, nothing_handed, Control, sequence, fallback, premise, inverter, force_success, retry,
  repeat, timeout, Node, control, decorator, Nodes, nil, cons,
}

-- the attributes of a node that its class has just made, named after it
abbrev pub made : String → Base
made class = record { name = class; status = idle; handed = nothing_handed; exception = none }

abbrev pub is_sequence : Control → Bool
is_sequence (sequence i) = true
is_sequence _ = false

abbrev pub is_fallback : Control → Bool
is_fallback (fallback i) = true
is_fallback _ = false

unfoldable pub append : Nodes → Nodes → Nodes
append nil ds = ds
append (cons c cs) ds = cons c (append cs ds)

-- `_flatten_children`: a chain that an operator made is its children, any other node is itself
abbrev pub flatten_children : (Control → Bool) → Node → Nodes
flatten_children is_kind (control b k false cs) =
    if is_kind k then cs else cons (control b k false cs) nil
flatten_children is_kind n = cons n nil

-- `a >> b`, and `a & b`
unfoldable pub then_node : Node → Node → Node
then_node a b =
    control (made "Sequence") (sequence 0) false
      (append (flatten_children is_sequence a) (flatten_children is_sequence b))

-- `a | b`
unfoldable pub or_node : Node → Node → Node
or_node a b =
    control (made "Fallback") (fallback 0) false
      (append (flatten_children is_fallback a) (flatten_children is_fallback b))

-- `~a`
abbrev pub invert_node : Node → Node
invert_node a = decorator (made "Inverter") inverter a

abbrev pub premise_node : Node → Node → Node
premise_node a action = control (made "Premise") premise true (cons a (cons action nil))

abbrev pub timeout_node : ℕ → Node → Node
timeout_node seconds a = decorator (made "Timeout") (timeout seconds none) a

abbrev pub retry_node : ℕ → Node → Node
retry_node max_attempts a = decorator (made "Retry") (retry max_attempts 0) a

abbrev pub repeat_node : ℕ → Node → Node
repeat_node count a = decorator (made "Repeat") (repeat count 0) a

abbrev pub force_success_node : Node → Node
force_success_node a = decorator (made "ForceSuccess") force_success a

append_assoc : (bs cs ds : Nodes) → append (append bs cs) ds ≡ append bs (append cs ds)
unfolding append
append_assoc nil cs ds = refl
append_assoc (cons b bs) cs ds = ap (cons b) (append_assoc bs cs ds)

-- A chain of one of the operators is the same tree however it is bracketed, whatever its parts are:
-- also when a part is a chain itself, or a Sequence or a Fallback that was written out.
pub chains_assoc :
    (a b c : Node)
    → (then_node (then_node a b) c ≡ then_node a (then_node b c))
      × (or_node (or_node a b) c ≡ or_node a (or_node b c))
unfolding then_node or_node
chains_assoc a b c = (
  ap (control (made "Sequence") (sequence 0) false) (
      append_assoc (flatten_children is_sequence a) (flatten_children is_sequence b)
        (flatten_children is_sequence c)),
  ap (control (made "Fallback") (fallback 0) false) (
      append_assoc (flatten_children is_fallback a) (flatten_children is_fallback b)
        (flatten_children is_fallback c)),
)
