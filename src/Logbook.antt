-- ===== src/Logbook.antt =====
-- logbook/: the values that go into a row, and what Python and the standard library do with them,
-- which is the parameter `Python`.
pub mod Serialize
pub mod Coerced
pub mod Lossless
pub mod Writer
pub mod Watched
pub mod Backlog
pub mod Book
pub mod Attachments
pub mod Scribe
pub mod Closing
pub mod Ledgers
pub mod Calls
pub mod Kept
pub mod Threads
pub mod Accounts
pub mod Rows
pub mod Root
pub mod Sweep
pub mod Summary
use auto_weaver.Prelude.{ℕ, String, Bool, Option, List}
use auto_weaver.Value.{Result}

-- `None`, a bool, a number or a text, over the type of the numbers
pub data Scalar (F : Type 0) : Type 0 where
  null : Scalar F
  boolean : Bool → Scalar F
  number : F → Scalar F
  text : String → Scalar F

-- A value that `to_jsonable` may return: JSON, or `foreign`, a value that `json.dumps` refuses, such as a
-- complex number, told apart by a number.
mutual
  pub data Json (F : Type 0) : Type 0 where
    scalar : Scalar F → Json F
    array : Items F → Json F
    object : Members F → Json F
    foreign : ℕ → Json F

  pub data Items (F : Type 0) : Type 0 where
    nil : Items F
    cons : Json F → Items F → Items F

  pub data Members (F : Type 0) : Type 0 where
    end : Members F
    member : String → Json F → Members F → Members F

-- The values that `to_jsonable` tells apart. A path comes with its `as_posix()`, a time with its
-- `isoformat()`, another `os.PathLike` with what its `__fspath__` raises or returns, a text or (foreign)
-- bytes, bytes with their length, an array or scalar of NumPy with its `tolist()` or `item()`, in which
-- values may be foreign, and a dataclass with its `asdict()`, which may raise. What is left is told apart
-- by a number.
mutual
  pub data Py (F : Type 0) : Type 0 where
    plain : Scalar F → Py F
    path : String → Py F
    moment : String → Py F
    duration : F → Py F
    path_like : Result (Json F) → Py F
    bytes : ℕ → Py F
    numpy : Json F → Py F
    instance_of : Entries F → Py F
    odd_instance : ℕ → Py F
    sequence : Values F → Py F
    mapping : Entries F → Py F
    other : ℕ → Py F

  pub data Values (F : Type 0) : Type 0 where
    nil : Values F
    cons : Py F → Values F → Values F

  -- the entries of a dict, with what `str` makes of a key
  pub data Entries (F : Type 0) : Type 0 where
    end : Entries F
    entry : Result String → Py F → Entries F → Entries F

-- what is asked of an object of any type; `none` where its code raises
pub record Python : Type 1 where
  pub Number : Type 0
  pub of_nat : ℕ → Number
  pub plus : Number → Number → Number
  pub minus : Number → Number → Number
  pub rounded : Number → ℕ → Number
  pub repr : Py Number → Option String
  pub unreprable : Py Number → Option String
  pub bytes_text : ℕ → String
  pub str : Py Number → Result String
  pub path_name : String → String
  pub attachment_path : String → ℕ → String → String
