-- ===== src/Logbook/Root.antt =====
-- logbook/root.py, the sweep of old runs, and the counter of batches of logbook/identity.py.
use auto_weaver.Prelude.{
  ℕ, ◌+◌, String, Bool, Option, none, some, List, [], ◌∷◌, ◌++◌, ◌==◌, string_eq, if◌then◌else◌,
}
use auto_weaver.Value.{Result, ok, err}

-- the part of `datetime` that names and compares the runs, and what is asked of the days to keep: whether
-- `float(days) <= 0`, and the time that many days before another
pub record Dates : Type 1 where
  pub Time : Type 0
  pub Days : Type 0
  pub not_positive : Days → Bool
  pub days_before : Days → Time → Time
  pub strptime : String → Option Time
  pub strftime : Time → String
  pub not_before : Time → Time → Bool

-- An entry of the directory `runs`: whether it is a directory, the bytes under it, and what removing it
-- does.
pub record RunEntry : Type 0 where
  pub name : String
  pub is_dir : Bool
  pub size : ℕ
  pub removal : Result (Unit {0})

pub record Sweep : Type 0 where
  pub deleted : List String
  pub freed_bytes : ℕ
  pub kept : ℕ
  pub skipped : List String
  pub failed : List String

abbrev pub no_sweep : Sweep
no_sweep = record { deleted = []; freed_bytes = 0; kept = 0; skipped = []; failed = [] }

module _ (D : Dates) where
  abbrev pub same_name : String → Option D.Time → Option D.Time
  same_name name none = none
  same_name name (some t) = if D.strftime t == name then some t else none

  unfoldable pub parse_run_stamp : String → Option D.Time
  parse_run_stamp name = same_name name (D.strptime name)

  abbrev pub removed : Result (Unit {0}) → RunEntry → Sweep → Sweep
  removed (err e) entry s = record s { failed = s.failed ++ entry.name ∷ [] }
  removed (ok t) entry s = record s {
    deleted = s.deleted ++ entry.name ∷ [];
    freed_bytes = s.freed_bytes + entry.size;
  }

  abbrev pub sweep_dated : D.Time → Option D.Time → RunEntry → Sweep → Sweep
  sweep_dated cutoff none entry s = record s { skipped = s.skipped ++ entry.name ∷ [] }
  sweep_dated cutoff (some t) entry s =
      if D.not_before t cutoff
      then record s { kept = s.kept + 1 }
      else removed entry.removal entry s

  -- one round of the loop over the entries
  unfoldable pub sweep_entry : D.Time → RunEntry → Sweep → Sweep
  unfolding parse_run_stamp
  sweep_entry cutoff entry s =
      if entry.is_dir then sweep_dated cutoff (parse_run_stamp entry.name) entry s else s

  unfoldable pub sweep_all : D.Time → List RunEntry → Sweep → Sweep
  unfolding sweep_entry
  sweep_all cutoff [] s = s
  sweep_all cutoff (entry ∷ entries) s = sweep_all cutoff entries (sweep_entry cutoff entry s)

  -- the sweep of the directory `runs`, if there is one
  abbrev pub sweep_runs : D.Time → Option (List RunEntry) → Sweep
  sweep_runs cutoff none = no_sweep
  sweep_runs cutoff (some entries) = sweep_all cutoff entries no_sweep

  -- `prune_old_runs`, for the days to keep, which may be None; the entries are `none` if there is no
  -- directory `runs`
  unfoldable pub prune_old_runs : Option D.Days → D.Time → Option (List RunEntry) → Sweep
  unfolding sweep_all
  prune_old_runs none now entries = no_sweep
  prune_old_runs (some days) now entries =
      if D.not_positive days then no_sweep else sweep_runs (D.days_before days now) entries

-- What a counter file reads as: it may be missing, or fail to be read.
abbrev pub CounterFile : Type 0
CounterFile = Option (Result ℕ)

abbrev pub stored_batch : CounterFile → ℕ
stored_batch none = 0
stored_batch (some (err e)) = 0
stored_batch (some (ok n)) = n

abbrev pub persisted : Result (Unit {0}) → ℕ → CounterFile → CounterFile
persisted (err e) batch file = file
persisted (ok t) batch file = some (ok batch)

-- `resolve_batch`: the batch, and the file that it leaves. A write that fails is taken to leave the file
-- as it was.
unfoldable pub resolve_batch : String → Result (Unit {0}) → CounterFile → ℕ × CounterFile
resolve_batch mode saved file =
    let batch = stored_batch file in
    if mode == "external" then (batch, file) else (batch + 1, persisted saved (batch + 1) file)
