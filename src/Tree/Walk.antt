-- ===== src/Tree/Walk.antt =====
-- `tick`, `halt`, `reset` and `set_blackboard` over a whole tree: motion_policy/nodes/node.py,
-- control/ and decorator/. A hook that raises is caught in `tick` of its own node; only `halt` lets
-- an exception through. `BaseException`s that are no `Exception` are not modelled.
pub mod Attempts
pub mod Calm
pub mod Quiet
use auto_weaver.Prelude.{
  ℕ, zero, suc, ◌+◌, ◌-◌, String, Bool, true, false, Option, none, some, leb, ltb, if◌then◌else◌,
}
use auto_weaver.Value.{Exn, Result, ok, err}
use auto_weaver.WorldBoard.{Snapshot}
use auto_weaver.Tree.Types.{
  Status, success, failure, running, idle, TickContext, World, Handed, nothing_handed, Base, Leaf,
  Control, sequence, fallback, premise, parallel, Decorator, Node, leaf, control, decorator, Nodes,
  nil, cons, base_of,
}
use auto_weaver.Tree.Leaf.{start_leaf, resume_leaf, halt_leaf, reset_leaf}
use auto_weaver.Tree.Decorator.{
  Plan, leave, stop, go, Before, After, start_decorator, resume_decorator, after_child,
  reset_decorator,
}

abbrev pub halted_status : Status → Status
halted_status running = idle
halted_status s = s

-- The fields that `halt` sets once `on_halted`, if it was due, has returned.
abbrev pub halted_base : Base → Base
halted_base b = record b { status = halted_status b.status; handed = nothing_handed }

-- what `on_halted` raises leaves the status RUNNING
abbrev pub close_leaf : Option Exn → Base → Leaf → World → Option Exn × Node × World
close_leaf none b l w = (none, leaf (halted_base b) l, w)
close_leaf (some x) b l w = (some x, leaf b l, w)

-- `TreeNode.halt` of a leaf, by its status
unfoldable pub halt_at_leaf : Status → Base → Leaf → World → Option Exn × Node × World
halt_at_leaf running b l w = let (x, l', w') = halt_leaf l w in close_leaf x b l' w'
halt_at_leaf s b l w = (none, leaf (halted_base b) l, w)

abbrev pub close_base : Option Exn → Base → Base
close_base none b = halted_base b
close_base (some x) b = b

-- One round of a loop that halts children: an exception ends it, and `rest`, the loop over the
-- other children, is read only if there is none.
abbrev pub next_halt :
    Option Exn → Node → Nodes → World → Option Exn × Nodes × World → Option Exn × Nodes × World
next_halt none c cs w (y, cs', w') = (y, cons c cs', w')
next_halt (some x) c cs w rest = (some x, cons c cs, w)

-- `halt`: the children first, in order, then the node itself. An exception ends the walk at once.
unfoldable mutual
  unfolding halt_at_leaf

  pub halt : Node → World → Option Exn × Node × World
  halt (leaf b l) w = halt_at_leaf b.status b l w
  halt (control b k e cs) w =
      let (x, cs', w') = halt_all cs w in (x, control (close_base x b) k e cs', w')
  halt (decorator b d c) w = let (x, c', w') = halt c w in (x, decorator (close_base x b) d c', w')

  pub halt_all : Nodes → World → Option Exn × Nodes × World
  halt_all nil w = (none, nil, w)
  halt_all (cons c cs) w = let (x, c', w') = halt c w in next_halt x c' cs w' (halt_all cs w')

abbrev pub halt_if_running : Status → Node → World → Option Exn × Node × World
halt_if_running running c w = halt c w
halt_if_running s c w = (none, c, w)

-- `Parallel._halt_running`
unfoldable pub halt_running : Nodes → World → Option Exn × Nodes × World
halt_running nil w = (none, nil, w)
halt_running (cons c cs) w =
    let (x, c', w') = halt_if_running (base_of c).status c w in
    next_halt x c' cs w' (halt_running cs w')

-- What a control node's round over its children gives: the outcome, the attributes, the children
-- and the world.
pub record Round : Type 0 where
  pub outcome : Result Status
  pub attributes : Control
  pub children : Nodes
  pub world : World

abbrev pub raised_or : Option Exn → Status → Result Status
raised_or none s = ok s
raised_or (some e) s = err e

-- the end of a round that halts the children behind the current one
abbrev pub halt_rest : Status → Control → Node → Nodes → World → Round
halt_rest s k c cs w =
    let (x, cs', w') = halt_all cs w in
    record { outcome = raised_or x s; attributes = k; children = cons c cs'; world = w' }

abbrev pub behind : Node → Round → Round
behind c r = record r { children = cons c r.children }

-- The counts of a Parallel round.
pub record Tally : Type 0 where
  pub successes : ℕ
  pub failures : ℕ
  pub children : Nodes
  pub world : World

abbrev pub count_status : Status → Tally → Tally
count_status success t = record t { successes = t.successes + 1 }
count_status failure t = record t { failures = t.failures + 1 }
count_status _ t = t

abbrev pub count_nodes : Nodes → ℕ
count_nodes nil = 0
count_nodes (cons c cs) = suc (count_nodes cs)

-- a verdict of Parallel, with the children that are still RUNNING halted
abbrev pub judged : Status → ℕ → Nodes → World → Round
judged s threshold cs w =
    let (x, cs', w') = halt_running cs w in
    record { outcome = raised_or x s; attributes = parallel threshold; children = cs'; world = w' }

-- `Parallel._tick_all`, after the loop: `len - threshold` is not truncated in the source
unfoldable pub judge_parallel : ℕ → Tally → Round
judge_parallel threshold t =
    if leb threshold t.successes
    then judged success threshold t.children t.world
    else if ltb (count_nodes t.children) (t.failures + threshold)
    then judged failure threshold t.children t.world
    else record {
      outcome = ok running;
      attributes = parallel threshold;
      children = t.children;
      world = t.world;
    }

-- The end of `tick`: an exception becomes FAILURE and is kept, and a status other than RUNNING is
-- reset. `outcome` is `none` if the status was neither IDLE nor RUNNING.
abbrev pub status_after : Base → Option (Result Status) → Status
status_after b none = b.status
status_after b (some (ok s)) = s
status_after b (some (err e)) = failure

abbrev pub exception_after : Base → Option (Result Status) → Option Exn
exception_after b (some (err e)) = some e
exception_after b _ = b.exception

-- `reset` of a status other than RUNNING, in the fields that every node has
abbrev pub reset_base : Status → Base → Base
reset_base running b = b
reset_base s b = record b { status = idle; handed = nothing_handed }

abbrev pub settle : Base → Option (Result Status) → Base
settle b r =
    let s = status_after b r in
    reset_base s (record b { status = s; exception = exception_after b r })

-- `reset` of a control node, in its own attributes
abbrev pub reset_control : Control → Control
reset_control (sequence i) = sequence 0
reset_control (fallback i) = fallback 0
reset_control k = k

-- attributes that are reset unless the node is still RUNNING
abbrev pub kept : {A : Type 0} → Status → (A → A) → A → A
kept running reset a = a
kept _ reset a = reset a

-- `tick(snapshot, ctx)` keeps what was handed before where it is given nothing.
abbrev pub hand : Handed → Base → Base
hand h b = record b {
  handed = record {
    snapshot = elim h.snapshot [ none ↦ b.handed.snapshot | some s ↦ some s ];
    ctx = elim h.ctx [ none ↦ b.handed.ctx | some c ↦ some c ];
  };
}

-- a leaf after its hook
abbrev pub finish_leaf : Base → Result Status × Leaf × World → Status × Node × World
finish_leaf b (r, l, w) =
    let s = status_after b (some r) in (s, leaf (settle b (some r)) (kept s reset_leaf l), w)

-- by the status on entry: `on_start`, `on_running`, or no hook
unfoldable pub tick_leaf : Status → Base → Leaf → World → Status × Node × World
tick_leaf idle b l w = finish_leaf b (start_leaf b l w)
tick_leaf running b l w = finish_leaf b (resume_leaf b l w)
tick_leaf s b l w = (s, leaf (settle b none) (reset_leaf l), w)

-- a control node after its round
abbrev pub finish_control : Base → Bool → Round → Status × Node × World
finish_control b e r =
    let s = status_after b (some r.outcome) in
    (
      s,
      control (settle b (some r.outcome)) (kept s reset_control r.attributes) e r.children,
      r.world,
    )

-- a decorator that does not tick its child, or after its own part
abbrev pub finish_decorator :
    Base → Result Status → Decorator → Node → World → Status × Node × World
finish_decorator b r d c w =
    let s = status_after b (some r) in
    (s, decorator (settle b (some r)) (kept s reset_decorator d) c, w)

abbrev pub or_raised : Option Exn → Result Status → Result Status
or_raised none r = r
or_raised (some e) r = err e

-- a decorator whose own part asks for a halt of the child
abbrev pub finish_halting : Base → Result Status → Decorator → Node → World → Status × Node × World
finish_halting b r d c w = let (x, c', w') = halt c w in finish_decorator b (or_raised x r) d c' w'

abbrev pub finish_after : Bool → Base → After → Node → Status × Node × World
finish_after true b a c = finish_halting b a.outcome a.attributes c a.world
finish_after false b a c = finish_decorator b a.outcome a.attributes c a.world

unfoldable pub after_tick : Base → Decorator → Status × Node × World → Status × Node × World
after_tick b d (s, c, w) = let a = after_child d b s w in finish_after a.halt_child b a c

abbrev pub index_on_entry : Status → ℕ → ℕ
index_on_entry idle i = 0
index_on_entry _ i = i

-- by the status on entry; `round` is read only if a hook runs
unfoldable pub tick_control :
    Status → Base → Control → Bool → Nodes → World → Round → Status × Node × World
tick_control idle b k e cs w round = finish_control b e round
tick_control running b k e cs w round = finish_control b e round
tick_control s b k e cs w round = (s, control (settle b none) (reset_control k) e cs, w)

abbrev pub enter_decorator : Status → Decorator → Base → World → Before
enter_decorator idle d b w = start_decorator d b w
enter_decorator _ d b w = resume_decorator d b w

-- `ticked` is the child's tick, read only where the plan is to tick it
unfoldable pub follow_plan :
    Plan → Base → Before → Node → Status × Node × World → Status × Node × World
unfolding after_tick
follow_plan go b p c ticked = after_tick b p.attributes ticked
follow_plan stop b p c ticked = finish_halting b p.outcome p.attributes c p.world
follow_plan leave b p c ticked = finish_decorator b p.outcome p.attributes c p.world

-- by the status on entry
unfoldable pub tick_decorator :
    Status
    → Base
    → Decorator
    → Before
    → Node
    → World
    → Status × Node × World
    → Status × Node × World
unfolding follow_plan
tick_decorator idle b d p c w ticked = follow_plan p.plan b p c ticked
tick_decorator running b d p c w ticked = follow_plan p.plan b p c ticked
tick_decorator s b d p c w ticked = (s, decorator (settle b none) (reset_decorator d) c, w)

-- One round of `Sequence._tick_children`: `s` is what the child at `pos` returned, and `rest` is the
-- loop from `pos + 1` on, read only if the loop goes on.
unfoldable pub next_in_sequence : Status → ℕ → Node → Nodes → World → Round → Round
next_in_sequence failure pos c cs w rest = halt_rest failure (sequence 0) c cs w
next_in_sequence running pos c cs w rest = record {
  outcome = ok running;
  attributes = sequence pos;
  children = cons c cs;
  world = w;
}
next_in_sequence s pos c cs w rest = behind c rest

-- One round of `Fallback._tick_children`
unfoldable pub next_in_fallback : Status → ℕ → Node → Nodes → World → Round → Round
next_in_fallback success pos c cs w rest = halt_rest success (fallback 0) c cs w
next_in_fallback running pos c cs w rest = record {
  outcome = ok running;
  attributes = fallback pos;
  children = cons c cs;
  world = w;
}
next_in_fallback s pos c cs w rest = behind c rest

-- One round of `Premise._tick_from_start`
unfoldable pub next_in_premise : Status → Node → Nodes → World → Round → Round
next_in_premise failure c cs w rest = halt_rest failure premise c cs w
next_in_premise running c cs w rest = record {
  outcome = ok running;
  attributes = premise;
  children = cons c cs;
  world = w;
}
next_in_premise s c cs w rest = behind c rest

unfoldable mutual
  unfolding tick_leaf tick_control tick_decorator judge_parallel next_in_sequence next_in_fallback
      next_in_premise

  pub tick : Node → Handed → World → Status × Node × World
  tick (leaf b l) h w = tick_leaf b.status (hand h b) l w
  tick (control b (sequence i) e cs) h w =
      let b' = hand h b in
      tick_control b.status b' (sequence i) e cs w
        (run_sequence (index_on_entry b.status i) 0 cs b'.handed w)
  tick (control b (fallback i) e cs) h w =
      let b' = hand h b in
      tick_control b.status b' (fallback i) e cs w
        (run_fallback (index_on_entry b.status i) 0 cs b'.handed w)
  tick (control b premise e cs) h w =
      let b' = hand h b in tick_control b.status b' premise e cs w (run_premise cs b'.handed w)
  tick (control b (parallel n) e cs) h w =
      let b' = hand h b in
      tick_control b.status b' (parallel n) e cs w (judge_parallel n (tick_all cs b'.handed w))
  tick (decorator b d c) h w =
      let b' = hand h b in
      let p = enter_decorator b.status d b' w in
      tick_decorator b.status b' d p c w (tick c b'.handed p.world)

  -- `Sequence._tick_children`: `skip` children are behind the index, `pos` is the position.
  pub run_sequence : ℕ → ℕ → Nodes → Handed → World → Round
  run_sequence skip pos nil h w = record {
    outcome = ok success;
    attributes = sequence 0;
    children = nil;
    world = w;
  }
  run_sequence (suc skip) pos (cons c cs) h w = behind c (run_sequence skip (suc pos) cs h w)
  run_sequence zero pos (cons c cs) h w =
      let (s, c', w') = tick c h w in
      next_in_sequence s pos c' cs w' (run_sequence zero (suc pos) cs h w')

  -- `Fallback._tick_children`
  pub run_fallback : ℕ → ℕ → Nodes → Handed → World → Round
  run_fallback skip pos nil h w = record {
    outcome = ok failure;
    attributes = fallback 0;
    children = nil;
    world = w;
  }
  run_fallback (suc skip) pos (cons c cs) h w = behind c (run_fallback skip (suc pos) cs h w)
  run_fallback zero pos (cons c cs) h w =
      let (s, c', w') = tick c h w in
      next_in_fallback s pos c' cs w' (run_fallback zero (suc pos) cs h w')

  -- `Premise._tick_from_start`
  pub run_premise : Nodes → Handed → World → Round
  run_premise nil h w = record {
    outcome = ok success;
    attributes = premise;
    children = nil;
    world = w;
  }
  run_premise (cons c cs) h w =
      let (s, c', w') = tick c h w in next_in_premise s c' cs w' (run_premise cs h w')

  -- the loop of `Parallel._tick_all`
  pub tick_all : Nodes → Handed → World → Tally
  tick_all nil h w = record { successes = 0; failures = 0; children = nil; world = w }
  tick_all (cons c cs) h w =
      let (s, c', w') = tick c h w in
      let rest = tick_all cs h w' in
      count_status s (record rest { children = cons c' rest.children })
