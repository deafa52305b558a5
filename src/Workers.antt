-- ===== src/Workers.antt =====
-- worker/base.py: what a Worker posts on the WorldBoard. The board is an interface, which the
-- WorldBoard fills, so that the same code can run on a board that keeps an account.
pub mod Account
pub mod Motion
pub mod Perception
use Prim.Native.String.{◌++◌ as string_append}
use package.text.Mathlib.Text.{starts_with}
use auto_weaver.Prelude.{
  ℕ, ◌+◌, String, Bool, true, false, not, Option, none, some, ◌==◌, nat_eq, string_eq,
  if◌then◌else◌, ◌&&◌,
}
use auto_weaver.Value.{
  Value, Entries, end, entry, dict, int, text, Ty, int_type, text_type, Exn, Result, ok, err,
  value_error,
}
use auto_weaver.Exec.{Exec, raise_if, ◌>>◌}
use auto_weaver.WorldBoard
use auto_weaver.WorldBoard.{WorldBoard}

-- A board that a Worker writes on: `post_state` and `declare_state`, with key, value and writer.
pub record Board : Type 1 where
  pub State : Type 0
  pub post : String → Value → String → Exec State Unit
  pub declare : String → Ty → String → Exec State Unit

-- The WorldBoard, with the time at which the snapshot of each number is taken.
abbrev pub world_board : (ℕ → ℕ) → Board
world_board clock = record {
  State = WorldBoard;
  post = λ key value writer b. WorldBoard.post_state (clock (b.seq + 1)) key value writer b;
  declare = WorldBoard.declare_state;
}

-- `f"{self.name}.{field}"`
abbrev pub key_of : String → String → String
key_of name field = string_append name (string_append "." field)

-- `_pop_request_id`: the number under the reserved key of a dict, and the payload without it. A
-- value there that is no int is popped too.
unfoldable pub pop_entry : Entries → Option Value × Entries
pop_entry end = (none, end)
pop_entry (entry k v es) =
    let (found, rest) = pop_entry es in
    if k == "__request_id__" then (some v, es) else (found, entry k v rest)

abbrev pub as_id : Option Value → Option ℕ
as_id (some (int n)) = some n
as_id _ = none

unfoldable pub pop_request_id : Value → Option ℕ × Value
unfolding pop_entry
pop_request_id (dict es) = let (found, rest) = pop_entry es in (as_id found, dict rest)
pop_request_id v = (none, v)

module _ (B : Board) (name : String) where
  open B use {State, post, declare}

  -- `_require_namespace`
  unfoldable pub require_namespace : String → Exec State Unit
  require_namespace key = raise_if (not (starts_with key (string_append name "."))) value_error

  unfoldable pub declare_state : String → Ty → Exec State Unit
  unfolding require_namespace
  declare_state key value_type = do require_namespace key; declare key value_type name

  unfoldable pub write_state : String → Value → Exec State Unit
  unfolding require_namespace
  write_state key value = do require_namespace key; post key value name

  unfoldable pub declare_framework_state : Exec State Unit
  declare_framework_state = do
    declare (key_of name "last_request_id") int_type name
    declare (key_of name "last_completed_id") int_type name
    declare (key_of name "last_error") text_type name
    post (key_of name "last_request_id") (int 0) name
    post (key_of name "last_completed_id") (int 0) name
    post (key_of name "last_error") (text "") name

  -- a post whose exception is logged
  abbrev pub try_post : String → Value → State → State
  try_post field value s = (post (key_of name field) value name s).1
