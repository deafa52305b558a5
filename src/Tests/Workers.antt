-- ===== src/Tests/Workers.antt =====
-- Runs of worker/motion.py and worker/perception.py on a WorldBoard.
use auto_weaver.Prelude.{ℕ, ◌≡◌, refl, none, some, List, [], ◌∷◌, ◌++◌}
use auto_weaver.Dict
use auto_weaver.Value.{is_instance, Value, end, entry, dict, int, raised}
use auto_weaver.WorldBoard
use auto_weaver.WorldBoard.{WorldBoard}
use auto_weaver.Clock.{running}
use auto_weaver.Workers.{Board, world_board, declare_framework_state, pop_request_id}
use auto_weaver.Workers.Account.{completed, requested, logged, behind}
use auto_weaver.Workers.Motion
use auto_weaver.Workers.Motion.{Settings, cleared}
use auto_weaver.Workers.Motion.Served.{waiting}
use auto_weaver.Workers.Motion.Requests.{
  Call, note, busy_started, idle_tick, error, perform_all, requests_served,
}
use auto_weaver.Workers.Perception
use auto_weaver.Workers.Perception.Protocol.{HasHandled, outcome, receive-HasHandled}

abbrev board : Board
board = world_board (λ n. n)

-- the board once "arm" was attached
abbrev attached : WorldBoard
attached = (declare_framework_state board "arm" (WorldBoard.new 3 0)).1

abbrev arm : Settings
arm = record { name = "arm"; no_op_tick_threshold = 2; str = λ n. "n"; repr = λ e. "e" }

abbrev asked : ℕ → Value
asked n = dict (entry "__request_id__" (int n) end)

-- a motion that is accepted, and one that is refused
abbrev go : Motion.Dispatch board
go payload b = (none, b)

abbrev refuse : Motion.Dispatch board
refuse payload b = (some (raised 1), b)

-- the second request comes before the first is done, the third is refused, the fourth needs no move
abbrev shift : List (Call board)
shift =
    note go (asked 1)
    ∷ busy_started
    ∷ note go (asked 2)
    ∷ error "stuck"
    ∷ note refuse (asked 3)
    ∷ note go (asked 4)
    ∷ idle_tick
    ∷ idle_tick
    ∷ note go (asked 5)
    ∷ []

requests_served_example :
    let r = perform_all board arm shift (record { motion = cleared; board = ([], attached) }) in
    completed "arm" r.board.0 ++ waiting r.motion.pending ≡ requested "arm" r.board.0
requests_served_example = requests_served board arm shift attached

abbrev camera : Perception.Run (logged board)
camera = record { lifecycle = running; current_request = none; board = ([], attached) }

receive-HasHandled_example :
    HasHandled board "arm"
      (outcome board "arm"
        (λ e. "e")
        refuse
        (pop_request_id (asked 7)).0
        (pop_request_id (asked 7)).1
        camera)
      (pop_request_id (asked 7)).0
      camera
      (Perception.receive (logged board) "arm" (λ e. "e") (behind board refuse) (asked 7) camera).1
unfolding pop_request_id WorldBoard.post_state Dict.get declare_framework_state
    WorldBoard.declare_state WorldBoard.split_namespace WorldBoard.new Dict.put is_instance
receive-HasHandled_example = receive-HasHandled board "arm" (λ e. "e") refuse (asked 7) camera refl
