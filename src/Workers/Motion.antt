-- ===== src/Workers/Motion.antt =====
-- worker/motion.py, `MotionWorker`: one motion in flight, with its completion seen on later ticks.
-- The user's dispatch functions are parameters, and so are the texts of numbers and exceptions. A
-- dispatch does not touch the pending request.
pub mod Served
pub mod Requests
use Prim.Native.String.{◌++◌ as string_append}
use auto_weaver.Prelude.{
  ℕ, zero, suc, ◌+◌, String, Bool, true, false, Option, none, some, leb, if◌then◌else◌,
}
use auto_weaver.Value.{Value, int, text, Exn, Result, ok, err}
use auto_weaver.Exec.{Exec, ◌>>=◌, ◌>>◌, pure, modify}
use auto_weaver.Workers.{Board, key_of, pop_request_id, try_post}

-- The fields of `MotionWorker.__init__`
pub record Motion : Type 0 where
  pub pending : Option ℕ
  pub move_started : Bool
  pub idle_ticks : ℕ

-- `_clear_pending`, and the state after `__init__`
abbrev pub cleared : Motion
cleared = record { pending = none; move_started = false; idle_ticks = 0 }

-- a worker with the board it writes on
pub record Run (B : Board) : Type 0 where
  pub motion : Motion
  pub board : B.State

-- A motion note's `dispatch`: it may raise, and may change the board.
abbrev pub Dispatch : Board → Type 0
Dispatch B = Value → B.State → Option Exn × B.State

-- What a worker of a subclass has: its name, its `no_op_tick_threshold`, and the texts that `str` and
-- `repr` make for its messages.
pub record Settings : Type 0 where
  pub name : String
  pub no_op_tick_threshold : ℕ
  pub str : ℕ → String
  pub repr : Exn → String

module _ (B : Board) (w : Settings) where
  abbrev pub set_motion : Motion → Run B → Run B
  set_motion m r = record r { motion = m }

  -- `_write_completion`
  unfoldable pub write_completion : ℕ → Run B → Run B
  write_completion rid r = record r {
    board = try_post B w.name "last_completed_id" (int rid) r.board;
  }

  abbrev pub write_error : String → Run B → Run B
  write_error message r = record r { board = try_post B w.name "last_error" (text message) r.board }

  -- `_write_completion`, then `_clear_pending`
  abbrev pub complete : ℕ → Run B → Run B
  complete rid r = set_motion cleared (write_completion rid r)

  abbrev pub busy_at : Option ℕ → Bool → Run B → Run B
  busy_at (some rid) false r =
      set_motion (record r.motion { move_started = true; idle_ticks = 0 }) r
  busy_at _ started r = r

  unfoldable pub note_busy_started : Run B → Run B
  note_busy_started r = busy_at r.motion.pending r.motion.move_started r

  abbrev pub completion_at : Option ℕ → Bool → Run B → Run B
  completion_at (some rid) true r = complete rid r
  completion_at _ started r = r

  unfoldable pub note_completion : Run B → Run B
  unfolding write_completion
  note_completion r = completion_at r.motion.pending r.motion.move_started r

  abbrev pub error_message : ℕ → String → String
  error_message rid message =
      string_append "motion error during request rid="
        (string_append (w.str rid) (string_append ": " message))

  abbrev pub error_at : Option ℕ → String → Run B → Run B
  error_at none message r = r
  error_at (some rid) message r = complete rid (write_error (error_message rid message) r)

  unfoldable pub note_error : String → Run B → Run B
  unfolding write_completion
  note_error message r = error_at r.motion.pending message r

  abbrev pub grace : Bool → ℕ → Run B → Run B
  grace true rid r = complete rid r
  grace false rid r = r

  abbrev pub idle_at : Option ℕ → Bool → ℕ → Run B → Run B
  idle_at (some rid) false (suc most) r =
      let ticks = r.motion.idle_ticks + 1 in
      grace (leb (suc most) ticks) rid (set_motion (record r.motion { idle_ticks = ticks }) r)
  idle_at _ started most r = r

  unfoldable pub note_idle_tick : Run B → Run B
  unfolding write_completion
  note_idle_tick r = idle_at r.motion.pending r.motion.move_started w.no_op_tick_threshold r

  abbrev pub complete_pending : Option ℕ → Run B → Run B
  complete_pending none r = r
  complete_pending (some rid) r = complete rid r

  unfoldable pub cancel_pending : Run B → Run B
  unfolding write_completion
  cancel_pending r = complete_pending r.motion.pending r

  -- the post of `last_request_id`; its exception is not caught
  abbrev pub post_request : Option ℕ → Exec (Run B) Unit
  post_request none r = (ok tt, r)
  post_request (some rid) r =
      let (x, b) = B.post (key_of w.name "last_request_id") (int rid) w.name r.board in
      (x, record r { board = b })

  -- a request that its dispatch did not accept
  abbrev pub complete_failed : Option ℕ → Run B → Run B
  complete_failed none r = set_motion cleared r
  complete_failed (some rid) r = complete rid r

  abbrev pub after_dispatch : Option Exn → Option ℕ → Run B → Run B
  after_dispatch none rid r = set_motion (record cleared { pending = rid }) r
  after_dispatch (some e) rid r = complete_failed rid (write_error (w.repr e) r)

  abbrev pub call_dispatch : Dispatch B → Option ℕ → Value → Run B → Run B
  call_dispatch dispatch rid payload r =
      let (x, b) = dispatch payload r.board in after_dispatch x rid (record r { board = b })

  -- the receiver that `_wrap_async_dispatch` returns
  unfoldable pub receive : Dispatch B → Value → Exec (Run B) Unit
  unfolding pop_request_id cancel_pending
  receive dispatch payload =
      let (rid, rest) = pop_request_id payload in
      post_request rid >> modify (λ r. call_dispatch dispatch rid rest (cancel_pending r))
