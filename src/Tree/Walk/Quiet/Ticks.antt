-- ===== src/Tree/Walk/Quiet/Ticks.antt =====
-- The invariant over whole ticks of a tree.
use auto_weaver.Prelude.{ℕ, zero, suc, ◌+◌, ◌≡◌, refl, ap, ◌∙◌, ◌≢◌, inl, inr, arith}
use auto_weaver.Value.{Result, ok, err}
use auto_weaver.Tree.Types.{
  Status, success, failure, running, idle, World, Base, Handed, Leaf, wait, action, Control,
  sequence, fallback, premise, parallel, Node, leaf, control, decorator, Nodes, nil, cons,
}
use auto_weaver.Tree.Leaf.{start_leaf, resume_leaf, reset_leaf}
use auto_weaver.Tree.Walk.{
  Round, Tally, hand, tick, run_sequence, run_fallback, run_premise, tick_all, tick_leaf,
  tick_control, finish_leaf, index_on_entry, judge_parallel, enter_decorator,
}
use auto_weaver.Tree.Walk.Calm.{IsBetween, IsQuiet, IsIdle}
use auto_weaver.Tree.Walk.Quiet.{IsSettled, AreSettled, IsCalm, PrefixIdle, index_of}
use auto_weaver.Tree.Walk.Quiet.Rounds.{
  IsRested, StandsAt, IsRested-behind, StandsAt-behind, sequence-IsRested, sequence-StandsAt,
  fallback-IsRested, fallback-StandsAt, premise-IsRested, IsRested-judge_parallel,
  attributes-next_in_premise, attributes-judge_parallel, children-count_status,
  IsCalm-finish_control,
}
use auto_weaver.Tree.Walk.Quiet.Timers.{IsCalm-tick_decorator, IsReady-hand}

start_leaf-IsQuiet : (b : Base) (l : Leaf) (w : World) → IsQuiet l → IsQuiet (start_leaf b l w).1
unfolding start_leaf
start_leaf-IsQuiet b (action d g) w q = q
start_leaf-IsQuiet b (wait n s) w q = tt
start_leaf-IsQuiet b _ w q = tt

resume_leaf-IsQuiet : (b : Base) (l : Leaf) (w : World) → IsQuiet l → IsQuiet (resume_leaf b l w).1
unfolding resume_leaf
resume_leaf-IsQuiet b (action d g) w q = q
resume_leaf-IsQuiet b (wait n s) w q = tt
resume_leaf-IsQuiet b _ w q = tt

reset_leaf-IsQuiet : (l : Leaf) → IsQuiet l → IsQuiet (reset_leaf l)
unfolding reset_leaf
reset_leaf-IsQuiet (action d g) q = q
reset_leaf-IsQuiet (wait n s) q = tt
reset_leaf-IsQuiet _ q = tt

IsCalm-finish_leaf :
    (b : Base) (r : Result Status) (l : Leaf) (w : World)
    → IsQuiet l
    → IsCalm (finish_leaf b (r, l, w))
unfolding IsSettled IsIdle
IsCalm-finish_leaf b (ok running) l w q = record {
  settled = (inr refl, q);
  rests = λ n. absurd (n refl);
}
IsCalm-finish_leaf b (ok success) l w q = record {
  settled = (inl refl, reset_leaf-IsQuiet l q);
  rests = λ n. (refl, reset_leaf-IsQuiet l q);
}
IsCalm-finish_leaf b (ok failure) l w q = record {
  settled = (inl refl, reset_leaf-IsQuiet l q);
  rests = λ n. (refl, reset_leaf-IsQuiet l q);
}
IsCalm-finish_leaf b (ok idle) l w q = record {
  settled = (inl refl, reset_leaf-IsQuiet l q);
  rests = λ n. (refl, reset_leaf-IsQuiet l q);
}
IsCalm-finish_leaf b (err e) l w q = record {
  settled = (inl refl, reset_leaf-IsQuiet l q);
  rests = λ n. (refl, reset_leaf-IsQuiet l q);
}

IsCalm-tick_leaf :
    (s : Status) (b : Base) (l : Leaf) (w : World)
    → IsBetween s
    → IsQuiet l
    → IsCalm (tick_leaf s b l w)
unfolding tick_leaf
IsCalm-tick_leaf idle b l w h q =
    IsCalm-finish_leaf b (start_leaf b l w).0 (start_leaf b l w).1 (start_leaf b l w).2
      (start_leaf-IsQuiet b l w q)
IsCalm-tick_leaf running b l w h q =
    IsCalm-finish_leaf b (resume_leaf b l w).0 (resume_leaf b l w).1 (resume_leaf b l w).2
      (resume_leaf-IsQuiet b l w q)
IsCalm-tick_leaf success b l w h q = absurd (ground arith)
IsCalm-tick_leaf failure b l w h q = absurd (ground arith)

IsCalm-tick_control :
    (s : Status) (b : Base) (k : Control) (e : _) (cs : Nodes) (w : World) (r : Round)
    → IsBetween s
    → IsRested r
    → (r.outcome ≡ ok running → PrefixIdle (index_of r.attributes) r.children)
    → IsCalm (tick_control s b k e cs w r)
unfolding tick_control
IsCalm-tick_control idle b k e cs w r h c p =
    IsCalm-finish_control b e r.outcome r.attributes r.children r.world c.settled c.rests p
IsCalm-tick_control running b k e cs w r h c p =
    IsCalm-finish_control b e r.outcome r.attributes r.children r.world c.settled c.rests p
IsCalm-tick_control success b k e cs w r h c p = absurd (ground arith)
IsCalm-tick_control failure b k e cs w r h c p = absurd (ground arith)

-- the prefix at which a round starts
entry_prefix :
    (s : Status) (i : ℕ) (cs : Nodes)
    → IsBetween s
    → (s ≡ running → PrefixIdle i cs)
    → PrefixIdle (index_on_entry s i) cs
entry_prefix idle i cs h p = tt
entry_prefix running i cs h p = p refl
entry_prefix success i cs h p = absurd (ground arith)
entry_prefix failure i cs h p = absurd (ground arith)

-- where a round over all the children stands is its index
stands_prefix :
    (K : ℕ → Control) (r : Round)
    → ((i : ℕ) → index_of (K i) ≡ i)
    → StandsAt K 0 r
    → r.outcome ≡ ok running
    → PrefixIdle (index_of r.attributes) r.children
stands_prefix K r named h e =
    let (j, a, p) = h e in
    let same : index_of r.attributes ≡ j = ap index_of a ∙ named (0 + j) ∙ omega arith in rw same p

attributes-run_premise :
    (cs : Nodes) (h : Handed) (w : World) → (run_premise cs h w).attributes ≡ premise
unfolding tick
attributes-run_premise nil h w = refl
attributes-run_premise (cons c cs) h w =
    let t = tick c h w in
    attributes-next_in_premise t.0 t.1 cs t.2 (run_premise cs h t.2)
      (attributes-run_premise cs h t.2)

mutual
  unfolding tick IsSettled IsIdle

  -- A tick keeps the invariant.
  pub tick-IsCalm : (n : Node) (h : Handed) (w : World) → IsSettled n → IsCalm (tick n h w)
  tick-IsCalm (leaf b l) h w s = IsCalm-tick_leaf b.status (hand h b) l w s.0 s.1
  tick-IsCalm (control b (sequence i) e cs) h w s =
      let b' : Base = hand h b in
      let j : ℕ = index_on_entry b.status i in
      let both = sequence-calm j 0 cs b'.handed w s.3 (entry_prefix b.status i cs s.0 s.2) in
      IsCalm-tick_control b.status b' (sequence i) e cs w (run_sequence j 0 cs b'.handed w) s.0
        both.0 (stands_prefix sequence (run_sequence j 0 cs b'.handed w) (λ _. refl) both.1)
  tick-IsCalm (control b (fallback i) e cs) h w s =
      let b' : Base = hand h b in
      let j : ℕ = index_on_entry b.status i in
      let both = fallback-calm j 0 cs b'.handed w s.3 (entry_prefix b.status i cs s.0 s.2) in
      IsCalm-tick_control b.status b' (fallback i) e cs w (run_fallback j 0 cs b'.handed w) s.0
        both.0 (stands_prefix fallback (run_fallback j 0 cs b'.handed w) (λ _. refl) both.1)
  tick-IsCalm (control b premise e cs) h w s =
      let b' : Base = hand h b in
      let r : Round = run_premise cs b'.handed w in
      IsCalm-tick_control b.status b' premise e cs w r s.0 (premise-calm cs b'.handed w s.3)
        (λ _. rw (attributes-run_premise cs b'.handed w) tt)
  tick-IsCalm (control b (parallel n) e cs) h w s =
      let b' : Base = hand h b in
      let t : Tally = tick_all cs b'.handed w in
      IsCalm-tick_control b.status b' (parallel n) e cs w (judge_parallel n t) s.0
        (IsRested-judge_parallel n t (tick_all-settled cs b'.handed w s.3))
        (λ _. rw (attributes-judge_parallel n t) tt)
  tick-IsCalm (decorator b d c) h w s =
      let b' : Base = hand h b in
      let w' : World = (enter_decorator b.status d b' w).world in
      IsCalm-tick_decorator b.status b' d c w (tick c b'.handed w') s.0 s.1
        (λ r. IsReady-hand h b d (s.2 r)) s.3 (tick-IsCalm c b'.handed w' s.3)

  sequence-calm :
      (skip pos : ℕ) (cs : Nodes) (h : Handed) (w : World)
      → AreSettled cs
      → PrefixIdle skip cs
      → IsRested (run_sequence skip pos cs h w)
        × StandsAt sequence pos (run_sequence skip pos cs h w)
  sequence-calm zero pos nil h w s p = (record { settled = tt; rests = λ _. tt }, λ e. cc)
  sequence-calm (suc skip) pos nil h w s p = (record { settled = tt; rests = λ _. tt }, λ e. cc)
  sequence-calm (suc skip) pos (cons c cs) h w s p =
      let (rested, stands) = sequence-calm skip (suc pos) cs h w s.1 p.1 in
      let r : Round = run_sequence skip (suc pos) cs h w in
      (IsRested-behind c r p.0 s.0 rested, StandsAt-behind sequence pos c r p.0 stands)
  sequence-calm zero pos (cons c cs) h w s p =
      let t = tick c h w in
      let one : IsCalm t = tick-IsCalm c h w s.0 in
      let (rested, stands) = sequence-calm zero (suc pos) cs h t.2 s.1 tt in
      let r : Round = run_sequence zero (suc pos) cs h t.2 in
      (
        sequence-IsRested pos t.1 cs t.2 r t.0 one.settled one.rests s.1 rested,
        sequence-StandsAt pos t.1 cs t.2 r t.0 one.rests stands,
      )

  fallback-calm :
      (skip pos : ℕ) (cs : Nodes) (h : Handed) (w : World)
      → AreSettled cs
      → PrefixIdle skip cs
      → IsRested (run_fallback skip pos cs h w)
        × StandsAt fallback pos (run_fallback skip pos cs h w)
  fallback-calm zero pos nil h w s p = (record { settled = tt; rests = λ _. tt }, λ e. cc)
  fallback-calm (suc skip) pos nil h w s p = (record { settled = tt; rests = λ _. tt }, λ e. cc)
  fallback-calm (suc skip) pos (cons c cs) h w s p =
      let (rested, stands) = fallback-calm skip (suc pos) cs h w s.1 p.1 in
      let r : Round = run_fallback skip (suc pos) cs h w in
      (IsRested-behind c r p.0 s.0 rested, StandsAt-behind fallback pos c r p.0 stands)
  fallback-calm zero pos (cons c cs) h w s p =
      let t = tick c h w in
      let one : IsCalm t = tick-IsCalm c h w s.0 in
      let (rested, stands) = fallback-calm zero (suc pos) cs h t.2 s.1 tt in
      let r : Round = run_fallback zero (suc pos) cs h t.2 in
      (
        fallback-IsRested pos t.1 cs t.2 r t.0 one.settled one.rests s.1 rested,
        fallback-StandsAt pos t.1 cs t.2 r t.0 one.rests stands,
      )

  premise-calm :
      (cs : Nodes) (h : Handed) (w : World) → AreSettled cs → IsRested (run_premise cs h w)
  premise-calm nil h w s = record { settled = tt; rests = λ _. tt }
  premise-calm (cons c cs) h w s =
      let t = tick c h w in
      let one : IsCalm t = tick-IsCalm c h w s.0 in
      premise-IsRested 0 t.1 cs t.2 (run_premise cs h t.2) t.0 one.settled one.rests s.1
        (premise-calm cs h t.2 s.1)

  tick_all-settled :
      (cs : Nodes) (h : Handed) (w : World) → AreSettled cs → AreSettled (tick_all cs h w).children
  tick_all-settled nil h w s = tt
  tick_all-settled (cons c cs) h w s =
      let t = tick c h w in
      let rest : Tally = tick_all cs h t.2 in
      rw (children-count_status t.0 (record rest { children = cons t.1 rest.children }))
        ((tick-IsCalm c h w s.0).settled, tick_all-settled cs h t.2 s.1)

-- A tick of a tree that is between two ticks keeps it so, with each node IDLE or RUNNING and no
-- RUNNING node below an IDLE one; and a tick that returns anything but RUNNING leaves every node of
-- the tree IDLE: no leaf is abandoned while it runs. No `on_halted` in the tree raises, here.
pub tick_settles :
    (n : Node) (h : Handed) (w : World)
    → IsSettled n
    → let (s, n', w') = tick n h w in IsSettled n' × (s ≢ running → IsIdle n')
tick_settles n h w s = let calm = tick-IsCalm n h w s in (calm.settled, calm.rests)
