-- ===== src/Workers/Motion/Requests.antt =====
-- Which requests a MotionWorker of worker/motion.py completes, and in which order.
use auto_weaver.Workers.Motion.Served.{
  IsServed, waiting, busy_at-IsServed, completion_at-IsServed, idle_at-IsServed,
  complete_pending-IsServed, error_at-IsServed, received_as,
}
use auto_weaver.Workers.Account.{logged, behind, completed, requested}
use auto_weaver.Prelude.{String, ◌≡◌, refl, List, [], ◌∷◌, ◌++◌, string_eq}
use auto_weaver.Value.{Value}
use auto_weaver.Workers.{Board, pop_request_id}
use auto_weaver.Workers.Motion.{
  cleared, Run, Dispatch, Settings, cancel_pending, note_busy_started, note_completion,
  note_idle_tick, note_error, receive,
}

-- A call on a MotionWorker: an edge that its `on_tick` reports, a cancellation, or a motion note with
-- the dispatch that it is registered with.
pub data Call (B : Board) : Type 0 where
  busy_started completion idle_tick cancel : Call B
  error : String → Call B
  note : Dispatch B → Value → Call B

-- the call on a board with an account; what a receiver raises is logged by the board
abbrev pub perform : (B : Board) → Settings → Call B → Run (logged B) → Run (logged B)
perform B w busy_started r = note_busy_started (logged B) w r
perform B w completion r = note_completion (logged B) w r
perform B w idle_tick r = note_idle_tick (logged B) w r
perform B w cancel r = cancel_pending (logged B) w r
perform B w (error m) r = note_error (logged B) w m r
perform B w (note dispatch payload) r = (receive (logged B) w (behind B dispatch) payload r).1

unfoldable pub perform_all :
    (B : Board) → Settings → List (Call B) → Run (logged B) → Run (logged B)
perform_all B w [] r = r
perform_all B w (c ∷ cs) r = perform_all B w cs (perform B w c r)

perform-IsServed :
    (B : Board) (w : Settings) (c : Call B) (r : Run (logged B))
    → IsServed B w r
    → IsServed B w (perform B w c r)
unfolding note_busy_started note_completion note_idle_tick cancel_pending note_error receive
perform-IsServed B w busy_started r h =
    busy_at-IsServed B w r.motion.pending r.motion.move_started r h
perform-IsServed B w completion r h =
    completion_at-IsServed B w r.motion.pending r.motion.move_started r refl h
perform-IsServed B w idle_tick r h =
    idle_at-IsServed B w r.motion.pending r.motion.move_started w.no_op_tick_threshold r refl h
perform-IsServed B w cancel r h = (complete_pending-IsServed B w r.motion.pending r refl h)
perform-IsServed B w (error m) r h = error_at-IsServed B w r.motion.pending m r refl h
perform-IsServed B w (note dispatch payload) r h =
    let (rid, rest) = pop_request_id payload in received_as B w dispatch rid rest r h

perform_all-IsServed :
    (B : Board) (w : Settings) (cs : List (Call B)) (r : Run (logged B))
    → IsServed B w r
    → IsServed B w (perform_all B w cs r)
unfolding perform_all
perform_all-IsServed B w [] r h = h
perform_all-IsServed B w (c ∷ cs) r h =
    perform_all-IsServed B w cs (perform B w c r) (perform-IsServed B w c r h)

start-IsServed :
    (B : Board) (w : Settings) (s : B.State)
    → IsServed B w (record { motion = cleared; board = ([], s) })
unfolding IsServed completed requested
start-IsServed B w s = refl

-- Over any sequence of edges, errors, cancellations and motion notes, from a worker with nothing
-- pending, `last_completed_id` is posted once for each request whose `last_request_id` the board took,
-- in the same order, but for the one that is pending: also where a dispatch raises, a new motion comes
-- before the old one is done, or the board refuses a post of `last_completed_id`.
pub requests_served :
    (B : Board) (w : Settings) (cs : List (Call B)) (s : B.State)
    → let r = perform_all B w cs (record { motion = cleared; board = ([], s) }) in
      completed w.name r.board.0 ++ waiting r.motion.pending ≡ requested w.name r.board.0
unfolding IsServed
requests_served B w cs s =
    let start : Run (logged B) = record { motion = cleared; board = ([], s) } in
    perform_all-IsServed B w cs start (start-IsServed B w s)
