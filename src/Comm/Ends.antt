-- ===== src/Comm/Ends.antt =====
-- What the waits of comm/modbus_primitive.py may end in, and the clocks that they need.
use auto_weaver.Prelude.{ℕ, ◌≤◌, ◌<◌, ◌≡◌, ◌≢◌, Option, none, some, nat_eq, string_eq}
use auto_weaver.Value.{Exn, Result, ok, err, read_until_timeout}
use auto_weaver.Comm.{RegisterIo, Clock}
use auto_weaver.Comm.Engine.{Wait}

-- A clock that does not run backwards, neither by itself nor over a read, and that a sleep moves on.
pub record IsSteady {F S : Type 0} (io : RegisterIo F S) (clock : Clock S) (interval : ℕ)
    : Type 0 where
  pub now : S → ℕ
  pub reads : (s : S) → (clock.monotonic s).0 ≡ now s
  pub asks : (s : S) → now s ≤ now (clock.monotonic s).1
  pub polls : (register : ℕ) (s : S) → now s ≤ now (io.read_u16 register s).1
  pub sleeps : (s : S) → now s < now (clock.sleep interval s)

-- How a wait ends that polls from a first state on: the word read is the expected one, the read
-- raises, the deadline has come, or none of these and the wait ends so after a sleep.
pub data Ends {F S : Type 0} (io : RegisterIo F S) (clock : Clock S) (interval : ℕ) (w : Wait)
    : S → Result (Unit {0}) → S → Type 0 where
  seen :
      (s : S)
      → (io.read_u16 w.register s).0 ≡ ok w.expected
      → Ends io clock interval w s (ok tt) (io.read_u16 w.register s).1
  failed :
      (s : S) (e : Exn)
      → (io.read_u16 w.register s).0 ≡ err e
      → Ends io clock interval w s (err e) (io.read_u16 w.register s).1
  expired :
      (s : S) (n deadline : ℕ)
      → (io.read_u16 w.register s).0 ≡ ok n
      → n ≢ w.expected
      → w.deadline ≡ some deadline
      → deadline ≤ (clock.monotonic (io.read_u16 w.register s).1).0
      → Ends io clock interval w s
          (err read_until_timeout)
          (clock.monotonic (io.read_u16 w.register s).1).1
  in_time :
      (s s' : S) (x : Result (Unit {0})) (n deadline : ℕ)
      → (io.read_u16 w.register s).0 ≡ ok n
      → n ≢ w.expected
      → w.deadline ≡ some deadline
      → (clock.monotonic (io.read_u16 w.register s).1).0 < deadline
      → Ends io clock interval w
          (clock.sleep interval (clock.monotonic (io.read_u16 w.register s).1).1)
          x
          s'
      → Ends io clock interval w s x s'
  endless :
      (s s' : S) (x : Result (Unit {0})) (n : ℕ)
      → (io.read_u16 w.register s).0 ≡ ok n
      → n ≢ w.expected
      → w.deadline ≡ none
      → Ends io clock interval w (clock.sleep interval (io.read_u16 w.register s).1) x s'
      → Ends io clock interval w s x s'

-- The wait is over.
abbrev pub IsOver :
    {F S : Type 0} (io : RegisterIo F S) (clock : Clock S)
    → ℕ
    → Wait
    → S
    → Option (Result (Unit {0}) × S)
    → Type 0
IsOver io clock interval w s none = ⊥
IsOver io clock interval w s (some (x, s')) = Ends io clock interval w s x s'
