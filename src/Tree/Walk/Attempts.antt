-- ===== src/Tree/Walk/Attempts.antt =====
-- How often a Retry of motion_policy/nodes/decorator/retry.py ticks a child that fails.
use auto_weaver.Prelude.{ℕ, ◌+◌, ◌≡◌, refl, Bool, true, false, List, [], ◌∷◌, arith, leb, length}
use auto_weaver.Value.{Result, ok}
use auto_weaver.Tree.Types.{
  Status, failure, running, idle, World, Base, Handed, condition, retry, Node, leaf, decorator,
}
use auto_weaver.Tree.Leaf.{start_leaf, check_condition, reset_leaf}
use auto_weaver.Tree.Decorator.{resume_decorator, start_decorator, after_child, after_retry}
use auto_weaver.Tree.Walk.{
  tick, halt, tick_leaf, tick_decorator, follow_plan, after_tick, halt_at_leaf,
}

-- A Retry that has seen `k` failures of its child, a Condition that does not hold, since it started:
-- it runs, or it is about to start.
pub data IsTrying (most : ℕ) : ℕ → Node → Type 0 where
  trying :
      (k : ℕ) (b lb : Base) (check : Handed → World → Result Bool)
      → b.status ≡ running
      → lb.status ≡ idle
      → ((h : Handed) (w : World) → check h w ≡ ok false)
      → IsTrying most k (decorator b (retry most k) (leaf lb (condition check)))
  fresh :
      (k : ℕ) (b lb : Base) (check : Handed → World → Result Bool)
      → b.status ≡ idle
      → lb.status ≡ idle
      → ((h : Handed) (w : World) → check h w ≡ ok false)
      → IsTrying most 0 (decorator b (retry most k) (leaf lb (condition check)))

-- the statuses that one tick after the other returns
unfoldable pub ticks : List Handed → Node → World → List Status
ticks [] n w = []
ticks (h ∷ rest) n w = let (s, n', w') = tick n h w in s ∷ ticks rest n' w'

-- RUNNING at every tick but the last, which is FAILURE
unfoldable pub last_fails : List Handed → List Status
last_fails [] = []
last_fails (h ∷ []) = failure ∷ []
last_fails (h ∷ j ∷ rest) = running ∷ last_fails (j ∷ rest)

retry_again :
    (most k : ℕ) (n : Node) (h : Handed) (w : World)
    → IsTrying most k n
    → leb most (k + 1) ≡ false
    → let (s, n', w') = tick n h w in (s ≡ running) × IsTrying most (k + 1) n'
unfolding tick tick_decorator start_decorator resume_decorator follow_plan tick_leaf start_leaf
    check_condition after_tick after_child after_retry halt halt_at_leaf reset_leaf
retry_again most _ n h w (trying k b lb check p q r) l =
    rw (p, q, r _ _, l) (refl, trying (k + 1) _ _ check refl refl r)
retry_again most _ n h w (fresh k b lb check p q r) l =
    rw (p, q, r _ _, l) (refl, trying 1 _ _ check refl refl r)

retry_fails :
    (most k : ℕ) (n : Node) (h : Handed) (w : World)
    → IsTrying most k n
    → leb most (k + 1) ≡ true
    → (tick n h w).0 ≡ failure
unfolding tick tick_decorator start_decorator resume_decorator follow_plan tick_leaf start_leaf
    check_condition after_tick after_child after_retry reset_leaf
retry_fails most _ n h w (trying k b lb check p q r) l = rw (p, q, r _ _, l) refl
retry_fails most _ n h w (fresh k b lb check p q r) l = rw (p, q, r _ _, l) refl

retry_from :
    (most k : ℕ) (n : Node) (hs : List Handed) (w : World)
    → IsTrying most k n
    → length hs + k ≡ most
    → ticks hs n w ≡ last_fails hs
unfolding ticks last_fails
retry_from most k n [] w i e = refl
retry_from most k n (h ∷ []) w i e = rw (retry_fails most k n h w i (ground arith)) refl
retry_from most k n (h ∷ j ∷ rest) w i e =
    let (s, n', w') = tick n h w in
    let (p, i') = retry_again most k n h w i (ground arith) in
    rw (p, retry_from most (k + 1) n' (j ∷ rest) w' i' (omega arith)) refl

-- A Retry over a Condition that never holds and never raises gives up: of as many ticks as it has
-- attempts, each returns RUNNING but the last, which returns FAILURE, whatever was handed down.
pub retry_gives_up :
    (n : Node) (hs : List Handed) (w : World)
    → IsTrying (length hs) 0 n
    → ticks hs n w ≡ last_fails hs
retry_gives_up n hs w i = retry_from (length hs) 0 n hs w i (omega arith)
