-- ===== src/WorldBoard/History.antt =====
-- Snapshots and the rolling history of motion_policy/world_board.py: `_commit`, `post_state`,
-- `history`, `values_of`.
use auto_weaver.Prelude.{
  ℕ, zero, suc, ◌+◌, ◌-◌, ◌≤◌, String, ◌≡◌, refl, not, some, List, [], ◌∷◌, ◌++◌, arith, ◌==◌,
  string_eq, if◌then◌else◌, length, drop, length-append, length-drop,
}
use auto_weaver.Dict
use auto_weaver.Dict.{get-put}
use auto_weaver.Value.{Value, ok, is_instance, permission_error, type_error}
use auto_weaver.Exec.{lift, raised_if, after_bind, after_continue}
use auto_weaver.WorldBoard.{
  Snapshot, WorldBoard, new, append_bounded, commit, post_state, require_meta, read_state,
}

-- The sequence numbers of a list of snapshots run up from `k` in steps of one.
abbrev pub IsRun : ℕ → List Snapshot → Type 0
IsRun k [] = Unit
IsRun k (s ∷ l) = (s.seq ≡ k) × IsRun (k + 1) l

-- The history is no longer than its size, and holds the newest snapshots with no gap.
pub record IsWindow (b : WorldBoard) : Type 0 where
  pub short : length b.history ≤ b.history_size
  pub within : length b.history ≤ b.seq + 1
  pub current_seq : b.current.seq ≡ b.seq
  pub unbroken : IsRun (b.seq + 1 - length b.history) b.history

IsRun-append :
    (k n : ℕ) (l : List Snapshot) (s : Snapshot)
    → IsRun k l
    → s.seq ≡ n
    → k + length l ≡ n
    → IsRun k (l ++ s ∷ [])
IsRun-append k n [] s h e p = (omega arith, tt)
IsRun-append k n (t ∷ l) s h e p = (h.0, IsRun-append (k + 1) n l s h.1 e (omega arith))

IsRun-drop : (d k : ℕ) (l : List Snapshot) → IsRun k l → d ≤ length l → IsRun (k + d) (drop d l)
IsRun-drop zero k l h p = let e : k + 0 ≡ k = omega arith in rw e h
IsRun-drop (suc d) k [] h p = tt
IsRun-drop (suc d) k (s ∷ l) h p =
    let e : k + suc d ≡ k + 1 + d = omega arith in rw e (IsRun-drop d (k + 1) l h.1 (omega arith))

length-append_bounded :
    (size : ℕ) (l : List Snapshot) (s : Snapshot)
    → length (append_bounded size l s) ≡ length l + 1 - (length l + 1 - size)
unfolding append_bounded
length-append_bounded size l s = omega (
  arith,
  length-drop {0} (length (l ++ s ∷ []) - size) (l ++ s ∷ []),
  length-append {0} l (s ∷ []),
)

IsRun-append_bounded :
    (size n : ℕ) (l : List Snapshot) (s : Snapshot)
    → IsRun (n - length l) l
    → s.seq ≡ n
    → length l ≤ n
    → IsRun (n + 1 - length (append_bounded size l s)) (append_bounded size l s)
IsRun-append_bounded size n l s h e p =
    let d : ℕ = length (l ++ s ∷ []) - size in
    let start : n + 1 - length (append_bounded size l s) ≡ n - length l + d =
      omega (arith, length-append_bounded size l s, length-append {0} l (s ∷ [])) in
    rw start (
      unfold append_bounded in
      IsRun-drop d (n - length l) (l ++ s ∷ [])
        (IsRun-append (n - length l) n l s h e (omega arith)) (omega arith))

commit-IsWindow :
    (now : ℕ) (key : String) (value : Value) (writer : String) (b : WorldBoard)
    → IsWindow b
    → IsWindow (commit now key value writer b)
unfolding commit
commit-IsWindow now key value writer b h =
    let s : Snapshot = (commit now key value writer b).current in
    record {
      short = omega (arith, length-append_bounded b.history_size b.history s, h.short);
      within = omega (arith, length-append_bounded b.history_size b.history s, h.within);
      current_seq = refl;
      unbroken =
          IsRun-append_bounded b.history_size (b.seq + 1) b.history s h.unbroken refl h.within;
    }

-- A new board has a history of at most its size, without a gap.
pub new-IsWindow : (size now : ℕ) → IsWindow (new size now)
unfolding new append_bounded
new-IsWindow zero now = record {
  short = omega arith;
  within = omega arith;
  current_seq = refl;
  unbroken = tt;
}
new-IsWindow (suc size) now =
    let e : 1 - suc size ≡ 0 = omega arith in
    rw e (record {
      short = omega arith;
      within = omega arith;
      current_seq = refl;
      unbroken = (omega arith, tt);
    })

-- A post, accepted or not, keeps the history within its size and its sequence numbers without a
-- gap up to that of the current snapshot.
pub post_state-IsWindow :
    (now : ℕ) (key : String) (value : Value) (writer : String) (b : WorldBoard)
    → IsWindow b
    → IsWindow (post_state now key value writer b).1
unfolding post_state
post_state-IsWindow now key value writer b h =
    after_bind IsWindow (lift (require_meta (Dict.get b.state_meta key))) _ b h λ m _.
      after_continue IsWindow (raised_if (not (m.writer == writer)) permission_error) _ b h λ _ _.
        after_continue IsWindow (raised_if (not (is_instance value m.value_type)) type_error) _ b h
          λ _ _. commit-IsWindow now key value writer b h

-- A post that returns is read back at its key; every other key reads as before, also one that was
-- never posted. The snapshots that were in the history stay there unchanged, in order, but for the
-- oldest that no longer fit.
pub post_state_lem :
    (now : ℕ) (key : String) (value : Value) (writer : String) (b : WorldBoard)
    → (post_state now key value writer b).0 ≡ ok tt
    → let b' = (post_state now key value writer b).1 in
      ((j : String) → read_state b' j ≡ (if key == j then some value else read_state b j))
      × (b'.history ≡ append_bounded b.history_size b.history b'.current)
      × (b'.current.writer ≡ some writer)
      × (b'.current.changed_key ≡ some key)
unfolding post_state read_state
post_state_lem now key value writer b h = (
  λ j. ground (arith, get-put b.current.contents key j value),
  ground arith,
  ground arith,
  ground arith,
)
