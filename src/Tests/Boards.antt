-- ===== src/Tests/Boards.antt =====
-- Runs of motion_policy/blackboard.py and motion_policy/world_board.py.
use auto_weaver.Prelude.{
  ℕ, suc, String, ◌≡◌, ◌≢◌, refl, false, none, some, List, [], ◌∷◌, ◌==◌, string_eq, pair_eq,
  if◌then◌else◌, arith, eq_iff,
}
use auto_weaver.Dict
use auto_weaver.Dict.{Dict}
use auto_weaver.Value.{is_instance, ok, err, value_error, int, int_type, any, permission_error}
use auto_weaver.Blackboard
use auto_weaver.Blackboard.{Blackboard, write, read, owned_by_other, wrong_type}
use auto_weaver.Blackboard.Writers.{Op, put, register, apply_all, only_owner_writes}
use auto_weaver.WorldBoard
use auto_weaver.WorldBoard.{
  WorldBoard, Snapshot, StateMeta, NoteAcceptor, PendingNote, Receiver, declare_state, post_state,
  read_state, append_bounded, pass_note, deliver_notes, values_of, split_namespace,
}
use auto_weaver.WorldBoard.Ownership.{IsOwned, declare_state-IsOwned}
use auto_weaver.WorldBoard.History.{IsWindow, new-IsWindow, post_state-IsWindow, post_state_lem}
use auto_weaver.WorldBoard.Notes.{calls_of, logged, KeepsAcceptors, deliver_notes_calls}

apart : (a b : String) → (a == b) ≡ false → a ≢ b
apart a b p e = ground (arith, eq_iff a b)

-- "pose" belongs to node "see", holds 7, and takes integers
abbrev seen : Blackboard
seen = record {
  contents = ("pose", int 7) ∷ [];
  writers = ("pose", "see") ∷ [];
  types = ("pose", int_type) ∷ [];
}

refused : (write "pose" (int 3) "grip" seen).0 ≡ err permission_error
unfolding Blackboard.write Blackboard.owned_by_other Dict.get
refused = refl

abbrev attempts : List Op
attempts = put "pose" (int 3) "grip" ∷ register "pose" any "grip" ∷ []

only_owner_writes_example : read (apply_all attempts seen) "pose" ≡ read seen "pose"
unfolding Dict.get
only_owner_writes_example =
    only_owner_writes "pose" "see" attempts seen refl (apart "grip" "see" refl, (tt, tt))

-- a board with two states of one Worker and a receiver of notes
abbrev board : WorldBoard
board = record {
  state_meta =
      ("cam.pose", record { value_type = int_type; writer = "cam" })
      ∷ ("cam.count", record { value_type = int_type; writer = "cam" })
      ∷ [];
  namespace_owners = ("cam", "cam") ∷ [];
  note_acceptors =
      (record { first = "arm"; second = "go" }, record { payload_type = any; on_receive = 4 }) ∷ [];
  pending_notes = record { namespace = "arm"; name = "go"; payload = int 1; sender = "tree" } ∷ [];
  seq = 0;
  current = record { seq = 0; ts = 0; contents = []; changed_key = none; writer = none };
  history = record { seq = 0; ts = 0; contents = []; changed_key = none; writer = none } ∷ [];
  history_size = 3;
}

split_pose : split_namespace "cam.pose" ≡ ok ("cam", "pose")
unfolding WorldBoard.split_namespace WorldBoard.split_dot
split_pose = refl

split_count : split_namespace "cam.count" ≡ ok ("cam", "count")
unfolding WorldBoard.split_namespace WorldBoard.split_dot
split_count = refl

abbrev fresh : WorldBoard
fresh = record board { state_meta = []; namespace_owners = [] }

fresh-IsOwned : IsOwned fresh
unfolding Dict.get
fresh-IsOwned = record { owner_of = λ key m e. cc }

declare_state-IsOwned_example : IsOwned (declare_state "cam.pose" int_type "cam" fresh).1
declare_state-IsOwned_example = declare_state-IsOwned "cam.pose" int_type "cam" fresh fresh-IsOwned

-- the states of `board`, declared one after the other
abbrev declared : WorldBoard
declared =
    (declare_state "cam.count" int_type "cam" (declare_state "cam.pose" int_type "cam" fresh).1).1

declared-IsOwned : IsOwned declared
declared-IsOwned =
    declare_state-IsOwned "cam.count" int_type "cam"
      (declare_state "cam.pose" int_type "cam" fresh).1
      (declare_state-IsOwned "cam.pose" int_type "cam" fresh fresh-IsOwned)

abbrev cam_meta : StateMeta
cam_meta = record { value_type = int_type; writer = "cam" }

declared_pose : Dict.get declared.state_meta "cam.pose" ≡ some cam_meta
unfolding Dict.get Dict.put declare_state WorldBoard.claim_namespace WorldBoard.split_namespace
    WorldBoard.split_dot WorldBoard.other_owner WorldBoard.declared_by_other
declared_pose = refl

declared_count : Dict.get declared.state_meta "cam.count" ≡ some cam_meta
unfolding Dict.get Dict.put declare_state WorldBoard.claim_namespace WorldBoard.split_namespace
    WorldBoard.split_dot WorldBoard.other_owner WorldBoard.declared_by_other
declared_count = refl

post_state-IsWindow_example :
    IsWindow (post_state 5 "cam.pose" (int 1) "cam" (WorldBoard.new 3 0)).1
post_state-IsWindow_example =
    post_state-IsWindow 5 "cam.pose" (int 1) "cam" (WorldBoard.new 3 0) (new-IsWindow 3 0)

accepted : (post_state 5 "cam.pose" (int 1) "cam" board).0 ≡ ok tt
unfolding post_state WorldBoard.require_meta Dict.get is_instance
accepted = refl

post_state_lem_example :
    let b' = (post_state 5 "cam.pose" (int 1) "cam" board).1 in
    ((j : String)
      → read_state b' j ≡ (if "cam.pose" == j then some (int 1) else read_state board j))
    × (b'.history ≡ append_bounded 3 board.history b'.current)
    × (b'.current.writer ≡ some "cam")
    × (b'.current.changed_key ≡ some "cam.pose")
post_state_lem_example = post_state_lem 5 "cam.pose" (int 1) "cam" board accepted

-- receivers that raise, and count
abbrev stubborn : Receiver ℕ
stubborn n v b e = (some value_error, b, suc e)

stubborn-KeepsAcceptors : KeepsAcceptors stubborn
stubborn-KeepsAcceptors n v b e = refl

deliver_notes_calls_example :
    (deliver_notes (logged stubborn) board ([], 0)).2.0
    ≡ calls_of board.note_acceptors board.pending_notes
deliver_notes_calls_example = deliver_notes_calls stubborn stubborn-KeepsAcceptors board 0

abbrev arm_go : NoteAcceptor
arm_go = record { payload_type = any; on_receive = 4 }
