-- ===== src/Comm/Waits.antt =====
-- How the waits of comm/modbus_primitive.py end.
use mathlib.Core.Path.{subst}
use auto_weaver.Prelude.{
  ℕ, zero, suc, ◌+◌, ◌≤◌, ◌<◌, ◌≡◌, ◌≢◌, refl, sym, ap, ◌∙◌, Bool, true, false, Option, none, some,
  arith, leb, ◌==◌, nat_eq, string_eq,
}
use auto_weaver.Value.{key_error, action_step_error, Exn, Result, ok, err}
use auto_weaver.Exec.{Exec, continue, pure, ◌>>=◌}
use auto_weaver.Comm.{found, register_named, const, RegisterIo, Clock, CommContract, Spec}
use auto_weaver.Comm.Engine.{
  Wait, Waiting, deadline_after, chain, check_deadline, after_miss, compare_word, after_read, poll,
  do_read_until, start_wait,
}
use auto_weaver.Comm.Ends.{IsSteady, seen, failed, expired, in_time, IsOver}

module _ {F S : Type 0} (io : RegisterIo F S) (clock : Clock S) (c : CommContract)
    (interval : ℕ) where
  check_deadline-IsOver :
      (t : Bool) (w : Wait) (next : Waiting S Unit) (s : S) (n deadline : ℕ)
      → leb deadline (clock.monotonic (io.read_u16 w.register s).1).0 ≡ t
      → (io.read_u16 w.register s).0 ≡ ok n
      → n ≢ w.expected
      → w.deadline ≡ some deadline
      → ((clock.monotonic (io.read_u16 w.register s).1).0 < deadline
          → IsOver io clock interval w s
              (next (clock.sleep interval (clock.monotonic (io.read_u16 w.register s).1).1)))
      → IsOver io clock interval w s (
          check_deadline io clock c interval t next
            (clock.monotonic (io.read_u16 w.register s).1).1)
  check_deadline-IsOver true w next s n deadline e r u d h =
      expired s n deadline r u d (ground (arith, e))
  check_deadline-IsOver false w next s n deadline e r u d h = h (ground (arith, e))

  compare_word-IsOver :
      (t : Bool) (w : Wait) (next : Waiting S Unit) (s : S) (n : ℕ)
      → (n == w.expected) ≡ t
      → (io.read_u16 w.register s).0 ≡ ok n
      → (n ≢ w.expected
          → IsOver io clock interval w s
              (after_miss io clock c interval w.deadline next (io.read_u16 w.register s).1))
      → IsOver io clock interval w s
          (compare_word io clock c interval t w.deadline next (io.read_u16 w.register s).1)
  compare_word-IsOver true w next s n e r h = seen s (r ∙ ap ok (ground (arith, e)))
  compare_word-IsOver false w next s n e r h = h (ground (arith, e))

  after_read-IsOver :
      (x : Result ℕ) (w : Wait) (next : Waiting S Unit) (s : S)
      → (io.read_u16 w.register s).0 ≡ x
      → ((n : ℕ)
          → (io.read_u16 w.register s).0 ≡ ok n
          → n ≢ w.expected
          → IsOver io clock interval w s
              (after_miss io clock c interval w.deadline next (io.read_u16 w.register s).1))
      → IsOver io clock interval w s
          (after_read io clock c interval x w next (io.read_u16 w.register s).1)
  after_read-IsOver (err e) w next s r h = failed s e r
  after_read-IsOver (ok n) w next s r h =
      compare_word-IsOver (n == w.expected) w next s n refl r (h n r)

  in_time-IsOver :
      (o : Option (Result (Unit {0}) × S)) (w : Wait) (s : S) (n deadline : ℕ)
      → (io.read_u16 w.register s).0 ≡ ok n
      → n ≢ w.expected
      → w.deadline ≡ some deadline
      → (clock.monotonic (io.read_u16 w.register s).1).0 < deadline
      → IsOver io clock interval w
          (clock.sleep interval (clock.monotonic (io.read_u16 w.register s).1).1)
          o
      → IsOver io clock interval w s o
  in_time-IsOver none w s n deadline r u d l h = h
  in_time-IsOver (some (x, s')) w s n deadline r u d l h = in_time s s' x n deadline r u d l h

  -- a miss before the deadline `d` is followed by the wait after the sleep
  after_miss-IsOver :
      (o : Option ℕ) (w : Wait) (next : Waiting S Unit) (s : S) (n d : ℕ)
      → o ≡ some d
      → (io.read_u16 w.register s).0 ≡ ok n
      → n ≢ w.expected
      → w.deadline ≡ some d
      → (let (now, later) = clock.monotonic (io.read_u16 w.register s).1 in
          now < d
          → IsOver io clock interval w
              (clock.sleep interval later)
              (next (clock.sleep interval later)))
      → IsOver io clock interval w s
          (after_miss io clock c interval o next (io.read_u16 w.register s).1)
  after_miss-IsOver none w next s n d e r u q h = absurd (cc)
  after_miss-IsOver (some d') w next s n d e r u q h =
      let (now, later) = clock.monotonic (io.read_u16 w.register s).1 in
      let same : d' ≡ d = (cc) in
      check_deadline-IsOver (leb d' now) w next s n d' refl r u (q ∙ ap some (sym same)) (λ l.
        in_time-IsOver (next (clock.sleep interval later)) w s n d r u q (omega (arith, l, same))
          (h (omega (arith, l, same))))

  passing :
      (st : IsSteady io clock interval) (register : ℕ) (s : S)
      → let (now, later) = clock.monotonic (io.read_u16 register s).1 in
        (st.now s ≤ now) × (st.now s < st.now (clock.sleep interval later))
  passing st register s =
      let read = (io.read_u16 register s).1 in
      let (now, later) = clock.monotonic read in
      (
        omega (arith, st.reads read, st.polls register s),
        omega (arith, st.polls register s, st.asks read, st.sleeps later),
      )

  -- A wait with a deadline is over after as many rounds as there is time, and one more.
  poll-IsOver :
      (st : IsSteady io clock interval) (k : ℕ) (w : Wait) (s : S) (d : ℕ)
      → w.deadline ≡ some d
      → d ≤ st.now s + k
      → IsOver io clock interval w s (poll io clock c interval (suc k) w s)
  unfolding poll
  poll-IsOver st zero w s d e l =
      after_read-IsOver (io.read_u16 w.register s).0 w (λ s. none) s refl
        (λ n r u.
          after_miss-IsOver w.deadline w (λ s. none) s n d e r u e
            (λ early. absurd (omega (arith, early, l, (passing st w.register s).0))))
  poll-IsOver st (suc k) w s d e l =
      let next : Waiting S Unit = λ s. poll io clock c interval (suc k) w s in
      let later = (clock.monotonic (io.read_u16 w.register s).1).1 in
      after_read-IsOver (io.read_u16 w.register s).0 w next s refl (λ n r u.
        after_miss-IsOver w.deadline w next s n d e r u e (λ early.
          poll-IsOver st k w (clock.sleep interval later) d e
            (omega (arith, l, (passing st w.register s).1))))

  -- a wait with a deadline at most `t` from now, unless its start raised
  abbrev pub HasDeadline : IsSteady io clock interval → ℕ → Result Wait → S → Type 0
  HasDeadline st t (err e) s = Unit
  HasDeadline st t (ok w) s = (d : ℕ) × (w.deadline ≡ some d) × (d ≤ st.now s + t)

  after_lift :
      {A : Type 0} (st : IsSteady io clock interval) (t : ℕ) (r : Result A) (f : A → Exec S Wait)
      (s : S)
      → ((a : A) → r ≡ ok a → HasDeadline st t (f a s).0 (f a s).1)
      → HasDeadline st t (continue r f s).0 (continue r f s).1
  after_lift st t (err e) f s h = tt
  after_lift st t (ok a) f s h = h a refl

  -- the wait that starts with what was looked up
  abbrev waits_for : ℕ → ℕ → Option ℕ → Exec S Wait
  waits_for register expected timeout = do
    deadline ← deadline_after io clock c interval timeout
    pure (record { register = register; expected = expected; deadline = deadline })

  waits_for-HasDeadline :
      (st : IsSteady io clock interval) (t : ℕ) (register expected : ℕ) (timeout : Option ℕ) (s : S)
      → timeout ≡ some t
      → HasDeadline st t
          (waits_for register expected timeout s).0
          (waits_for register expected timeout s).1
  waits_for-HasDeadline st t register expected none s e = absurd (cc)
  waits_for-HasDeadline st t register expected (some t') s e =
      let same : t' ≡ t = (cc) in
      ((clock.monotonic s).0 + t', refl, omega (arith, st.reads s, st.asks s, same))

  found-some : {A : Type 0} (e : Exn) (o : Option A) (a : A) → found e o ≡ ok a → o ≡ some a
  found-some e none a h = absurd (cc)
  found-some e (some b) a h = (cc)

  pub start_wait-HasDeadline :
      (st : IsSteady io clock interval) (spec : Spec F) (t : ℕ) (s : S)
      → ((o : Option ℕ) → spec.timeout_s ≡ some o → o ≡ some t)
      → HasDeadline st t
          (start_wait io clock c interval spec s).0
          (start_wait io clock c interval spec s).1
  unfolding start_wait
  start_wait-HasDeadline st spec t s e =
      after_lift st t (found key_error spec.register) _ s (λ name _.
        after_lift st t (register_named c name) _ s (λ register _.
          after_lift st t (found key_error spec.equals) _ s (λ value _.
            after_lift st t (const c value) _ s (λ expected _.
              after_lift st t (found action_step_error spec.timeout_s) _ s (λ timeout r.
                waits_for-HasDeadline st t register expected timeout s
                  (e timeout (found-some action_step_error spec.timeout_s timeout r)))))))

  pub run_wait-IsOver :
      (st : IsSteady io clock interval) (fuel t : ℕ) (x : Result Wait) (s : S)
      → t < fuel
      → HasDeadline st t x s
      → (w : Wait) → x ≡ ok w
      → IsOver io clock interval w s (chain (some (x, s)) (λ w. poll io clock c interval fuel w))
  run_wait-IsOver st zero t x s l h w e = absurd (omega (arith, l))
  run_wait-IsOver st (suc k) t (err y) s l h w e = absurd (cc)
  run_wait-IsOver st (suc k) t (ok v) s l (d, q, b) w e =
      let same : v ≡ w = (cc) in
      subst (λ u. IsOver io clock interval u s (poll io clock c interval (suc k) v s)) same
        (poll-IsOver st k v s d q (omega (arith, l, b)))

-- A `read_until` with a timeout of `t` that got as far as polling and is given more than `t` rounds is
-- over, on a clock that does not run backwards and that each sleep moves on: the word read last is the
-- expected one, or the last read raised, or `ReadUntilTimeout` is raised on a word that is not the
-- expected one, once the deadline has come.
pub timed_wait-IsOver :
    {F S : Type 0} (io : RegisterIo F S) (clock : Clock S) (c : CommContract) (interval : ℕ)
    (st : IsSteady io clock interval) (spec : Spec F) (fuel t : ℕ) (s : S) (w : Wait)
    → spec.timeout_s ≡ some (some t)
    → t < fuel
    → (start_wait io clock c interval spec s).0 ≡ ok w
    → IsOver io clock interval w
        (start_wait io clock c interval spec s).1
        (do_read_until io clock c interval fuel spec s)
unfolding do_read_until
timed_wait-IsOver io clock c interval st spec fuel t s w e l h =
    let (x, s') = start_wait io clock c interval spec s in
    run_wait-IsOver io clock c interval st fuel t x s' l
      (start_wait-HasDeadline io clock c interval st spec t s (λ o r. (cc))) w h
