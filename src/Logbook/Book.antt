-- ===== src/Logbook/Book.antt =====
-- logbook/book.py and logbook/scribe.py: a run's book and its scribes. A scribe is found by its ledger.
-- What the files and the clocks do in a call is the parameter `Moment`.
use auto_weaver.Prelude.{
  ℕ, ◌+◌, String, Bool, true, false, Option, none, some, List, [], ◌∷◌, ◌++◌, ◌==◌, string_eq,
  if◌then◌else◌,
}
use auto_weaver.Dict.{Dict, get, put}
use auto_weaver.Value.{Result, ok, err, value_error, key_error}
use auto_weaver.Exec.{Exec, pure, lift, modify, raise_if, ◌>>=◌, ◌>>◌}
use auto_weaver.Delivery.{DropPolicy}
use auto_weaver.Logbook.{Py}
use auto_weaver.Logbook.Writer.{AttachmentWriter}

abbrev pub Row : Type 0 → Type 0
Row F = Dict String (Py F)

-- `_opened`: the file is not None.
pub record Scribe (F : Type 0) : Type 0 where
  pub defaults : Row F
  pub seq : ℕ
  pub dropped_attachments : ℕ
  pub opened : Bool

pub record Logbook (F : Type 0) : Type 0 where
  pub t0_mono : F
  pub t0_wall : F
  pub row_tags : Row F
  pub context : Row F
  pub scribes : Dict String (Scribe F)
  pub counts : Dict String (Dict String ℕ)
  pub summary : Row F
  pub attachment_capacity : Option ℕ
  pub attachment_policy : DropPolicy
  pub attachments : Option AttachmentWriter
  pub files : Dict String (List (Row F))
  pub closed : Bool
  pub summary_file : Option (Row F)

-- what the clocks read, and what `json.dumps`, `open`, `write` and `flush` do, in one call
pub record Moment (F : Type 0) : Type 0 where
  pub mono : F
  pub wall : F
  pub dumped : Row F → Result (Unit {0})
  pub opening : Result (Unit {0})
  pub writing : Result (Unit {0})
  pub flushing : Result (Unit {0})

-- `dict.update`
unfoldable pub update : {V : Type 0} → Dict String V → Dict String V → Dict String V
update d [] = d
update d ((k, v) ∷ more) = update (put d k v) more

abbrev pub kinds_of : Option (Dict String ℕ) → Dict String ℕ
kinds_of none = []
kinds_of (some kinds) = kinds

-- `sum(kinds.values())`
abbrev pub total : Dict String ℕ → ℕ
total [] = 0
total ((k, n) ∷ d) = n + total d

abbrev pub count_of : Option ℕ → ℕ
count_of none = 0
count_of (some n) = n

module _ {F : Type 0} where
  abbrev pub scribe_of : String → Option (Scribe F) → Result (Scribe F)
  scribe_of ledger none = err key_error
  scribe_of ledger (some s) = ok s

  abbrev pub put_scribe : String → Scribe F → Logbook F → Logbook F
  put_scribe ledger s b = record b { scribes = put b.scribes ledger s }

  abbrev pub kept_scribe : Option (Scribe F) → Row F → Scribe F
  kept_scribe none defaults = record {
    defaults = defaults;
    seq = 0;
    dropped_attachments = 0;
    opened = false;
  }
  kept_scribe (some s) defaults = s

  -- `__init__` in a run directory without ledgers
  abbrev pub open_book : F → F → Row F → Row F → Option ℕ → DropPolicy → Logbook F
  open_book mono wall tags context capacity policy = record {
    t0_mono = mono;
    t0_wall = wall;
    row_tags = tags;
    context = context;
    scribes = [];
    counts = [];
    summary = [];
    attachment_capacity = capacity;
    attachment_policy = policy;
    attachments = none;
    files = [];
    closed = false;
    summary_file = none;
  }

  -- `scribe`, which returns the scribe that there is
  unfoldable pub scribe : String → Row F → Logbook F → Logbook F
  scribe ledger defaults b = put_scribe ledger (kept_scribe (get b.scribes ledger) defaults) b

  unfoldable pub set_context : Row F → Logbook F → Logbook F
  set_context pairs b = record b { context = pairs }

  unfoldable pub update_context : Row F → Logbook F → Logbook F
  update_context pairs b = record b { context = update b.context pairs }

  abbrev pub find_scribe : String → Exec (Logbook F) (Scribe F)
  find_scribe ledger b = (scribe_of ledger (get b.scribes ledger), b)

  -- the number of a row
  unfoldable pub next_seq : String → Exec (Logbook F) ℕ
  next_seq ledger = do
    s ← find_scribe ledger
    modify (put_scribe ledger (record s { seq = s.seq + 1 }))
    pure (s.seq + 1)

  abbrev pub lines_of : Option (List (Row F)) → List (Row F)
  lines_of none = []
  lines_of (some ls) = ls

  abbrev pub write_line : String → Row F → Logbook F → Logbook F
  write_line ledger row b = record b {
    files = put b.files ledger (lines_of (get b.files ledger) ++ row ∷ []);
  }

  abbrev pub open_unless : Bool → Moment F → String → Scribe F → Exec (Logbook F) Unit
  open_unless true at ledger s = pure tt
  open_unless false at ledger s =
      lift at.opening >> modify (put_scribe ledger (record s { opened = true }))

  -- the locked part of `_write` that appends the line
  unfoldable pub append_line : Moment F → String → Row F → Exec (Logbook F) Unit
  append_line at ledger row = do
    s ← find_scribe ledger
    open_unless s.opened at ledger s
    lift at.writing
    modify (write_line ledger row)
    lift at.flushing

  unfoldable pub count : String → String → Logbook F → Logbook F
  count ledger kind b =
      let kinds = kinds_of (get b.counts ledger) in
      record b { counts = put b.counts ledger (put kinds kind (count_of (get kinds kind) + 1)) }

abbrev pub is_reserved : String → Bool
is_reserved k =
    if k == "duration_s"
    then true
    else if k == "rows"
    then true
    else if k == "kinds"
    then true
    else k == "attachments"

abbrev pub any_reserved : {F : Type 0} → Row F → Bool
any_reserved [] = false
any_reserved ((k, v) ∷ d) = if is_reserved k then true else any_reserved d

unfoldable pub summarise : {F : Type 0} → Row F → Exec (Logbook F) Unit
unfolding update
summarise fields = do
  raise_if (any_reserved fields) value_error
  modify (λ b. record b { summary = update b.summary fields })

unfoldable pub take_dropped_attachments : {F : Type 0} → String → Exec (Logbook F) ℕ
take_dropped_attachments ledger = do
  s ← find_scribe ledger
  modify (put_scribe ledger (record s { dropped_attachments = 0 }))
  pure s.dropped_attachments

-- `Scribe.close`: what it raises is logged
unfoldable pub close_scribe : {F : Type 0} → String → Exec (Logbook F) Unit
close_scribe ledger = do
  s ← find_scribe ledger
  modify (put_scribe ledger (record s { opened = false }))
