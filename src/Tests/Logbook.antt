-- ===== src/Tests/Logbook.antt =====
-- Runs of logbook/ on natural numbers in place of floats.
use mathlib.Core.List.{Memᴰ}
use auto_weaver.Prelude.{
  ℕ, ◌+◌, ◌-◌, String, ◌≡◌, refl, ◌⊎◌, true, false, none, some, List, [], ◌∷◌, ◌++◌, length,
  string_eq, nat_eq, if◌then◌else◌,
}
use auto_weaver.Dict.{get, put, has}
use auto_weaver.Value.{Exn, Result, ok, err, runtime_error}
use auto_weaver.Delivery.{drop_newest, latest_only}
use auto_weaver.Delivery
use auto_weaver.Logbook
use auto_weaver.Logbook.{
  Scalar, null, number, text, Json, scalar, array, object, Members, member, Py, plain, path,
  path_like, sequence, mapping, other, Values, Entries, entry, Python,
}
use auto_weaver.Logbook.Serialize.{to_jsonable}
use auto_weaver.Logbook.Coerced.{IsPlain, IsSmall, HasRaising}
use auto_weaver.Logbook.Lossless.{of_json, to_jsonable-IsPlain, to_jsonable-of_json}
use auto_weaver.Logbook.Book
use auto_weaver.Logbook.Book.{
  Row, Scribe, Moment, kinds_of, open_book, update, scribe, next_seq, append_line, count,
  set_context, count_of, is_reserved,
}
use auto_weaver.Logbook.Scribe.{stamp, coerced, first_row, write}
use auto_weaver.Logbook.Ledgers.{lines, kinds}
use auto_weaver.Logbook.Threads.{
  Request, Desk, Call, opens, writes, begins, goes_on, sets_context, closes, finishes, after_calls,
}
use auto_weaver.Logbook.Rows.{narrowest, write-HasAppended}
use auto_weaver.Logbook.Writer.{
  Job, AttachmentWriter, new_writer, submit, round, rounds, stop, close,
}
use auto_weaver.Logbook.Watched.{Event, submits, runs, watch_rounds, watch_all, watched}
use auto_weaver.Logbook.Backlog.{writer_accounts}
use auto_weaver.Logbook.Closing
use auto_weaver.Logbook.Summary.{value_in, value_within, rows_of, count_value, close-HasSummary}
use auto_weaver.Logbook.Root.{
  Dates, RunEntry, parse_run_stamp, sweep_entry, sweep_all, prune_old_runs, resolve_batch,
}
use auto_weaver.Logbook.Sweep.{IsOld, dirs, prune_old_runs-deleted}

abbrev python : Python
python = record {
  Number = ℕ;
  of_nat = λ n. n;
  plus = λ a b. a + b;
  minus = λ a b. a - b;
  rounded = λ a digits. a;
  repr = λ v. none;
  unreprable = λ v. some "<unreprable>";
  bytes_text = λ n. "<bytes>";
  str = λ v. ok "kind";
  path_name = λ path. path;
  attachment_path = λ dir seq name. name;
}

-- a list with a path in it, an object whose `repr` raises, and a `__fspath__` that returns
abbrev odd : Py ℕ
odd = sequence (
    Logbook.Values.cons (path "/data") (
      Logbook.Values.cons (other 3)
        (Logbook.Values.cons (path_like (ok (scalar (text "/tmp")))) Logbook.Values.nil)))

to_jsonable-IsPlain_example :
    ((j : Json ℕ) × (to_jsonable python 0 odd ≡ ok j) × IsPlain 24 j)
    ⊎ ((e : Exn) × (to_jsonable python 0 odd ≡ err e) × HasRaising e odd)
unfolding IsSmall IsPlain
to_jsonable-IsPlain_example = to_jsonable-IsPlain python odd (tt, (tt, (tt, tt)))

odd_coerced :
    to_jsonable python 0 odd
    ≡ ok (
        array (
          Logbook.Items.cons (scalar (text "/data")) (
            Logbook.Items.cons
              (scalar (text "<unreprable>"))
              (Logbook.Items.cons (scalar (text "/tmp")) Logbook.Items.nil))))
unfolding to_jsonable
odd_coerced = refl

-- `os.fspath` is not guarded: what it raises comes out
fspath_raises : to_jsonable python 0 (path_like (err runtime_error)) ≡ err runtime_error
unfolding to_jsonable
fspath_raises = refl

abbrev pose : Json ℕ
pose = object (member "x" (scalar (number 3)) (member "tags" (array Logbook.Items.nil) Members.end))

to_jsonable-of_json_example : to_jsonable python 0 (of_json pose) ≡ ok pose
unfolding IsPlain
to_jsonable-of_json_example = to_jsonable-of_json python pose (refl, tt, (refl, tt, tt))

abbrev moment : Moment ℕ
moment = record {
  mono = 15;
  wall = 105;
  dumped = λ row. ok tt;
  opening = ok tt;
  writing = ok tt;
  flushing = ok tt;
}

-- a line that is written, with a flush that fails
abbrev unflushed : Moment ℕ
unflushed = record moment { flushing = err runtime_error }

abbrev phase : String → Row ℕ
phase s = ("phase", plain (text s)) ∷ []

abbrev read_request : Request python
read_request = record {
  ledger = "plc";
  kind = plain (text "read");
  at = none;
  attachments = [];
  fields = [];
}

-- two threads write: the second has its number before the first has its line
abbrev calls : List (Call python)
calls =
    opens "plc" (phase "idle")
    ∷ writes unflushed read_request
    ∷ begins read_request
    ∷ sets_context (phase "pick")
    ∷ begins read_request
    ∷ goes_on 1 moment
    ∷ goes_on 0 moment
    ∷ goes_on 0 moment
    ∷ closes "plc"
    ∷ finishes (λ row. ok tt) 20 []
    ∷ []

abbrev tags : Row ℕ
tags = ("batch", plain (number 7)) ∷ []

abbrev ended : Desk python
ended =
    after_calls python calls
      (record { book = open_book 10 100 tags [] none drop_newest; under_way = [] })

abbrev open_plc : Book.Logbook ℕ
open_plc = scribe "plc" (phase "idle") (open_book 10 100 tags (phase "pick") none drop_newest)

abbrev idle : Scribe ℕ
idle = record { defaults = phase "idle"; seq = 0; dropped_attachments = 0; opened = false }

write-HasAppended_example :
    let b' = write python moment "plc" (plain (text "read")) none [] (phase "place") open_plc in
    (row : Row ℕ) × (lines b' "plc" ≡ lines open_plc "plc" ++ row ∷ [])
    × (get (first_row python (0 + 1) (stamp python moment none open_plc) "read") "seq"
        ≡ some (plain (number (0 + 1))))
    × (get (first_row python (0 + 1) (stamp python moment none open_plc) "read") "kind"
        ≡ some (plain (text "read")))
    × (get (kinds b' "plc") "read" ≡ some (count_of (get (kinds open_plc "plc") "read") + 1))
    × ((k : String)
        → get row k
          ≡ narrowest (get (phase "place") k) (
              narrowest (get (phase "idle") k) (
                narrowest (get (phase "pick") k) (
                  narrowest (get open_plc.row_tags k) (
                    get (first_row python (0 + 1) (stamp python moment none open_plc) "read") k)))))
unfolding scribe get put coerced to_jsonable of_json has
write-HasAppended_example =
    write-HasAppended python moment "plc" "read" (plain (text "read")) none (phase "place")
      (phase "pick") (phase "idle") (phase "place") idle open_plc refl refl refl refl refl
      (λ row. refl) refl refl refl (refl, tt) (refl, tt) (refl, tt) (refl, tt)

-- a time is its name, and is before the cutoff unless it is the cutoff; 30 days ago is one day
abbrev dates : Dates
dates = record {
  Time = String;
  Days = ℕ;
  not_positive = λ days. nat_eq.beq days 0;
  days_before = λ days now. if nat_eq.beq days 30 then "20260201_000000" else now;
  strptime = λ name. some name;
  strftime = λ t. t;
  not_before = λ t cutoff. string_eq.beq t cutoff;
}

abbrev old_runs : List RunEntry
old_runs =
    record { name = "20260101_000000"; is_dir = true; size = 335; removal = ok tt }
    ∷ record { name = "20260201_000000"; is_dir = true; size = 12; removal = ok tt }
    ∷ record { name = "notes"; is_dir = false; size = 1; removal = ok tt }
    ∷ []

prune_old_runs-deleted_example :
    let s = prune_old_runs dates (some 30) "20260303_000000" (some old_runs) in
    ((name : String)
      → Memᴰ name s.deleted
      → (days : ℕ) × (some 30 ≡ some days)
        × (dates.not_positive days ≡ false)
        × ((e : RunEntry) × Memᴰ e old_runs
            × (name ≡ e.name)
            × IsOld dates (dates.days_before days "20260303_000000") e))
    × ((days : ℕ)
        → some 30 ≡ some days
        → dates.not_positive days ≡ false
        → length s.deleted + s.kept + length s.skipped + length s.failed ≡ dirs old_runs)
prune_old_runs-deleted_example = prune_old_runs-deleted dates (some 30) "20260303_000000" old_runs

one_deleted :
    (prune_old_runs dates (some 30) "20260303_000000" (some old_runs)).deleted
    ≡ "20260101_000000" ∷ []
unfolding prune_old_runs sweep_all sweep_entry parse_run_stamp
one_deleted = refl

none_deleted : (prune_old_runs dates (some 0) "20260303_000000" (some old_runs)).deleted ≡ []
unfolding prune_old_runs
none_deleted = refl

next_batch : resolve_batch "startup_increment" (ok tt) (some (ok 4)) ≡ (5, some (ok 5))
unfolding resolve_batch
next_batch = refl

batch_of_plant : resolve_batch "external" (ok tt) (some (ok 4)) ≡ (4, some (ok 4))
unfolding resolve_batch
batch_of_plant = refl

abbrev job : Job
job = record {
  path = "000001_frame.png";
  attachment = record { filename = "frame.png"; subdir = ""; payload = 1 };
}

abbrev new_queue : AttachmentWriter
new_queue = record {
  queue = record { policy = drop_newest; capacity = 2; items = []; dropped = 0; closed = false };
  written = 0;
  abandoned = [];
  stopped = false;
}

-- one written, one whose write raises, two abandoned, one dropped
abbrev events : List Event
events =
    submits job
    ∷ submits job
    ∷ submits job
    ∷ runs (ok tt)
    ∷ runs (err runtime_error)
    ∷ submits job
    ∷ submits job
    ∷ Event.closes []
    ∷ []

writer_accounts_example :
    let s = watch_all events (watched new_queue) in
    s.account.offered
    ≡ s.writer.written
      + s.failed
      + length s.writer.queue.items
      + s.writer.queue.dropped
      + s.account.reported
unfolding new_writer Delivery.new
writer_accounts_example = writer_accounts 2 drop_newest new_queue events refl (λ q. cc)

five_offered : (watch_all events (watched new_queue)).account.offered ≡ 5
unfolding watch_all watch_rounds submit round Delivery.take Delivery.offer stop rounds close
    Delivery.close Delivery.abandon
five_offered = refl

abbrev contributed : Book.Logbook ℕ
contributed = record open_plc {
  summary = ("hairs", plain (number 12)) ∷ ("rows", plain null) ∷ [];
  counts = ("plc", ("read", 2) ∷ ("fault", 1) ∷ []) ∷ [];
}

close-HasSummary_example :
    let b' = Closing.close python (λ row. ok tt) 20 [] contributed in
    (row : Row ℕ) × (b'.summary_file ≡ some row)
    × ((rows : Entries ℕ) × (get row "rows" ≡ some (mapping rows))
        × ((l : String) → value_in l rows ≡ rows_of python (get contributed.counts l)))
    × ((tally : Entries ℕ) × (get row "kinds" ≡ some (mapping tally))
        × ((l k : String)
            → value_within l k tally
              ≡ count_value python (get (kinds_of (get contributed.counts l)) k)))
    × ((k : String) → is_reserved k ≡ false → get row k ≡ get contributed.summary k)
    × (b'.files ≡ contributed.files)
    × ((other : Row ℕ → Result (Unit {0})) (later : ℕ) (more : List (Result (Unit {0})))
        → Closing.close python other later more b' ≡ b')
unfolding scribe
close-HasSummary_example =
    close-HasSummary python (λ row. ok tt) 20 [] contributed refl (λ row. refl)
