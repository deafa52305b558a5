-- ===== src/Workers/Perception.antt =====
-- worker/perception.py, `PerceptionWorker`: a note is done when its handler returns. The handlers and
-- `repr` are parameters.
pub mod Protocol
use auto_weaver.Prelude.{ℕ, String, Option, none, some}
use auto_weaver.Value.{Value, int, text, Exn, Result, ok, err}
use auto_weaver.Exec.{Exec, ◌>>=◌, ◌>>◌, modify}
use auto_weaver.Clock.{WorkerState, faulted}
use auto_weaver.Workers.{Board, key_of, pop_request_id, try_post}

pub record Run (B : Board) : Type 0 where
  pub lifecycle : WorkerState
  pub current_request : Option ℕ
  pub board : B.State

-- `user_on_receive`
abbrev pub Handler : Board → Type 0
Handler B = Value → B.State → Option Exn × B.State

module _ (B : Board) (name : String) (repr : Exn → String) where
  -- the post of `last_request_id`, whose exception is not caught, and `_current_request_id`
  abbrev pub begin_request : Option ℕ → Exec (Run B) Unit
  begin_request none r = (ok tt, r)
  begin_request (some rid) r =
      let (x, b) = B.post (key_of name "last_request_id") (int rid) name r.board in
      (x, record r { board = b })

  abbrev pub set_current : Option ℕ → Run B → Run B
  set_current none r = r
  set_current (some rid) r = record r { current_request = some rid }

  abbrev pub finish_request : Option ℕ → Run B → Run B
  finish_request none r = r
  finish_request (some rid) r = record r {
    board = try_post B name "last_completed_id" (int rid) r.board;
  }

  abbrev pub fault : Exn → Run B → Run B
  fault e r = record r {
    current_request = none;
    board = try_post B name "last_error" (text (repr e)) r.board;
    lifecycle = faulted;
  }

  abbrev pub after_handler : Option Exn → Option ℕ → Run B → Run B
  after_handler none rid r = record (finish_request rid r) { current_request = none }
  after_handler (some e) rid r = fault e r

  abbrev pub call_handler : Handler B → Option ℕ → Value → Run B → Run B
  call_handler handler rid payload r =
      let (x, b) = handler payload r.board in after_handler x rid (record r { board = b })

  -- the receiver that `_wrap_note_receiver` returns
  unfoldable pub receive : Handler B → Value → Exec (Run B) Unit
  unfolding pop_request_id
  receive handler payload =
      let (rid, rest) = pop_request_id payload in
      begin_request rid >> modify (λ r. call_handler handler rid rest (set_current rid r))
