-- ===== src/WorldBoard.antt =====
-- motion_policy/world_board.py: the process-wide state with its snapshots and history, and the
-- notes passed to Workers. The lock serialises single calls, so a call is one step here.
pub mod History
pub mod Ownership
pub mod Notes
use Prim.Native.Char.{Char, code}
use auto_weaver.Prelude.{
  ℕ, suc, ◌+◌, ◌-◌, String, Bool, true, false, not, ◌||◌, Option, none, some, List, [], ◌∷◌, ◌++◌,
  ltb, leb, ◌&&◌, ◌==◌, string_eq, nat_eq, pair_eq, Pair, if◌then◌else◌, length, drop, keep, map,
}
use auto_weaver.Dict
use auto_weaver.Dict.{Dict}
use auto_weaver.Value.{
  Value, Ty, is_instance, Exn, Result, ok, err, value_error, key_error, permission_error,
  type_error,
}
use auto_weaver.Exec.{Exec, gets, lift, raise, pure, modify, raise_if, ◌>>=◌, ◌>>◌}

-- `ts` is a monotonic time in some fixed unit.
pub record Snapshot : Type 0 where
  pub seq : ℕ
  pub ts : ℕ
  pub contents : Dict String Value
  pub changed_key : Option String
  pub writer : Option String

-- `snapshot.get(key)`
unfoldable pub look_up : Snapshot → String → Option Value
look_up s key = Dict.get s.contents key

pub record StateMeta : Type 0 where
  pub value_type : Ty
  pub writer : String

-- `on_receive` is the number of a receiver; what it does is a parameter of `deliver_notes`.
pub record NoteAcceptor : Type 0 where
  pub payload_type : Ty
  pub on_receive : ℕ

pub record PendingNote : Type 0 where
  pub namespace : String
  pub name : String
  pub payload : Value
  pub sender : String

abbrev pub Address : Type 0
Address = Pair String String

pub record WorldBoard : Type 0 where
  pub state_meta : Dict String StateMeta
  pub namespace_owners : Dict String String
  pub note_acceptors : Dict Address NoteAcceptor
  pub pending_notes : List PendingNote
  pub seq : ℕ
  pub current : Snapshot
  pub history : List Snapshot
  pub history_size : ℕ

-- `deque(maxlen=size).append(s)`: the oldest items are dropped past the size.
unfoldable pub append_bounded {ℓ} : {A : Type ℓ} → ℕ → List A → A → List A
append_bounded size xs x = let all = xs ++ x ∷ [] in drop (length all - size) all

unfoldable pub new : ℕ → ℕ → WorldBoard
unfolding append_bounded
new history_size now =
    let empty : Snapshot = record {
      seq = 0;
      ts = now;
      contents = [];
      changed_key = none;
      writer = none;
    } in
    record {
      state_meta = [];
      namespace_owners = [];
      note_acceptors = [];
      pending_notes = [];
      seq = 0;
      current = empty;
      history = append_bounded history_size [] empty;
      history_size = history_size;
    }

-- `key.split(".", 1)`: what stands before the first dot and after it; `none` if there is no dot.
unfoldable pub split_dot : String → Option (String × String)
split_dot String.[] = none
split_dot (String.◌∷◌ c s) =
    if code c == b'.'
    then some (String.[], s)
    else elim (split_dot s) [ none ↦ none | some p ↦ some (String.◌∷◌ c p.0, p.1) ]

unfoldable pub split_namespace : String → Result (String × String)
unfolding split_dot
split_namespace key = elim (split_dot key) [
  | none ↦ err value_error
  | some p ↦ if p.0 == "" || p.1 == "" then err value_error else ok p
]

-- `owner is not None and owner != writer`
unfoldable pub other_owner : Option String → String → Bool
other_owner none writer = false
other_owner (some owner) writer = not (owner == writer)

unfoldable pub claim_namespace : String → String → Exec WorldBoard Unit
unfolding other_owner
claim_namespace namespace writer = do
  owner ← gets (λ b. Dict.get b.namespace_owners namespace)
  raise_if (other_owner owner writer) value_error
  modify λ b. elim owner [
    | none ↦ record b { namespace_owners = Dict.put b.namespace_owners namespace writer }
    | some _ ↦ b
  ]

unfoldable pub declared_by_other : Option StateMeta → String → Bool
declared_by_other none writer = false
declared_by_other (some m) writer = not (m.writer == writer)

unfoldable pub declare_state : String → Ty → String → Exec WorldBoard Unit
unfolding claim_namespace declared_by_other
declare_state key value_type writer = do
  parts ← lift (split_namespace key)
  claim_namespace parts.0 writer
  existing ← gets (λ b. Dict.get b.state_meta key)
  raise_if (declared_by_other existing writer) value_error
  modify λ b. record b {
    state_meta = Dict.put b.state_meta key (record { value_type = value_type; writer = writer });
  }

-- `now` is what `time.monotonic()` returns.
unfoldable pub commit : ℕ → String → Value → String → WorldBoard → WorldBoard
commit now key value writer b =
    let s : Snapshot = record {
      seq = b.seq + 1;
      ts = now;
      contents = Dict.put b.current.contents key value;
      changed_key = some key;
      writer = some writer;
    } in
    record b { seq = b.seq + 1; current = s; history = append_bounded b.history_size b.history s }

unfoldable pub require_meta : Option StateMeta → Result StateMeta
require_meta none = err key_error
require_meta (some m) = ok m

unfoldable pub post_state : ℕ → String → Value → String → Exec WorldBoard Unit
unfolding require_meta commit
post_state now key value writer = do
  found ← gets (λ b. Dict.get b.state_meta key)
  meta ← lift (require_meta found)
  raise_if (not (meta.writer == writer)) permission_error
  raise_if (not (is_instance value meta.value_type)) type_error
  modify (commit now key value writer)

unfoldable pub read_state : WorldBoard → String → Option Value
read_state b key = Dict.get b.current.contents key

-- `"." in name`
unfoldable pub has_dot : String → Bool
has_dot String.[] = false
has_dot (String.◌∷◌ c s) = if code c == b'.' then true else has_dot s

unfoldable pub accept_notes : String → String → Ty → ℕ → Exec WorldBoard Unit
unfolding has_dot
accept_notes namespace name payload_type on_receive = do
  raise_if (has_dot name) value_error
  let key : Address = record { first = namespace; second = name }
  taken ← gets (λ b. Dict.has b.note_acceptors key)
  raise_if taken value_error
  modify λ b. record b {
    note_acceptors =
        Dict.put b.note_acceptors key
          (record { payload_type = payload_type; on_receive = on_receive });
  }

unfoldable pub require_acceptor : Option NoteAcceptor → Result NoteAcceptor
require_acceptor none = err key_error
require_acceptor (some a) = ok a

unfoldable pub pass_note : String → String → Value → String → Exec WorldBoard Unit
unfolding require_acceptor
pass_note namespace name payload sender = do
  found ← gets (λ b. Dict.get b.note_acceptors (record { first = namespace; second = name }))
  acceptor ← lift (require_acceptor found)
  raise_if (not (is_instance payload acceptor.payload_type)) type_error
  modify λ b. record b {
    pending_notes =
        b.pending_notes
        ++ record { namespace = namespace; name = name; payload = payload; sender = sender } ∷ [];
  }

-- What a receiver does to the board and to the rest of the process, `E`, and whether it raises.
abbrev pub Receiver {ℓ} : Type ℓ → Type ℓ
Receiver E = ℕ → Value → WorldBoard → E → Option Exn × WorldBoard × E

module _ {ℓ} {E : Type ℓ} (receive : Receiver E) where
  -- a note with no receiver is dropped
  unfoldable pub call_receiver :
      Option NoteAcceptor → Value → WorldBoard → E → Option Exn × WorldBoard × E
  call_receiver none payload b e = (none, b, e)
  call_receiver (some a) payload b e = receive a.on_receive payload b e

  -- One round of the loop of `deliver_notes`: the receiver is looked up at that moment.
  unfoldable pub deliver_one : PendingNote → WorldBoard → E → Option Exn × WorldBoard × E
  unfolding call_receiver
  deliver_one note b e =
      call_receiver
        (Dict.get b.note_acceptors (record { first = note.namespace; second = note.name }))
        note.payload b e

  unfoldable pub deliver_loop :
      List PendingNote → List Exn → WorldBoard → E → List Exn × WorldBoard × E
  deliver_loop [] errors b e = (errors, b, e)
  deliver_loop (note ∷ rest) errors b e =
      let (x, b', e') = deliver_one note b e in
      deliver_loop rest (elim x [ none ↦ errors | some exn ↦ errors ++ exn ∷ [] ]) b' e'

  -- The list holds what is raised at the end: nothing, the one error, or a group of them.
  unfoldable pub deliver_notes : WorldBoard → E → List Exn × WorldBoard × E
  unfolding deliver_loop deliver_one
  deliver_notes b e = deliver_loop b.pending_notes [] (record b { pending_notes = [] }) e

unfoldable pub accepted_notes : WorldBoard → List Address
accepted_notes b = Dict.keys b.note_acceptors

abbrev pub changed : String → Snapshot → Bool
changed key s = elim s.changed_key [ none ↦ false | some k ↦ k == key ]

unfoldable pub history_of : WorldBoard → String → List Snapshot
history_of b key = keep (changed key) b.history

-- `snaps[-n:]`: for `n = 0` that slice is the whole list.
unfoldable pub last_of {ℓ} : {A : Type ℓ} → Option ℕ → List A → List A
last_of none xs = xs
last_of (some n) xs = if n == 0 then xs else drop (length xs - n) xs

-- `s.data[key]` is `none` where Python would raise `KeyError`.
unfoldable pub values_of : WorldBoard → String → Option ℕ → List (Option Value)
unfolding history_of last_of
values_of b key n = map (λ s. Dict.get s.contents key) (last_of n (history_of b key))

unfoldable pub changed_between : WorldBoard → String → ℕ → ℕ → List Snapshot
unfolding history_of
changed_between b key t0 t1 = keep (λ s. leb t0 s.ts && leb s.ts t1) (history_of b key)

unfoldable pub declared_states : WorldBoard → List String
declared_states b = Dict.keys b.state_meta

unfoldable pub namespace_owner : WorldBoard → String → Option String
namespace_owner b namespace = Dict.get b.namespace_owners namespace
