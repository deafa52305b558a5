-- ===== src/Batch/Failure.antt =====
-- `_collect_failure_info` of motion_policy/batch.py.
use auto_weaver.Prelude.{String, Option, none, some}
use auto_weaver.Value.{Exn}
use auto_weaver.Tree.{Base, Node, leaf, control, decorator, Nodes, nil, cons}

-- the node's own exception, or else what is found below it
abbrev pub own_or : Base → Option (Exn × String) → Option (Exn × String)
own_or b below = elim b.exception [ none ↦ below | some e ↦ some (e, b.name) ]

abbrev pub first_of_two : Option (Exn × String) → Option (Exn × String) → Option (Exn × String)
first_of_two none later = later
first_of_two (some x) later = some x

-- The first node in pre-order that carries an exception.
unfoldable mutual
  pub collect_failure_info : Node → Option (Exn × String)
  collect_failure_info (leaf b l) = own_or b none
  collect_failure_info (control b k e cs) = own_or b (collect_in cs)
  collect_failure_info (decorator b d c) = own_or b (collect_failure_info c)

  pub collect_in : Nodes → Option (Exn × String)
  collect_in nil = none
  collect_in (cons c cs) = first_of_two (collect_failure_info c) (collect_in cs)
