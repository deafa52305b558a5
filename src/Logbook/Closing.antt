-- ===== src/Logbook/Closing.antt =====
-- `close` and the summary of logbook/book.py.
use auto_weaver.Prelude.{ℕ, String, Bool, true, false, Option, none, some, List, [], ◌∷◌, string_eq}
use auto_weaver.Dict.{Dict, put, keys}
use auto_weaver.Value.{Result, ok, err}
use auto_weaver.Logbook.{
  boolean, number, text, Py, plain, sequence, mapping, Values, Entries, entry, Python,
}
use auto_weaver.Logbook.Writer
use auto_weaver.Logbook.Writer.{Job, AttachmentWriter}
use auto_weaver.Logbook.Book.{Row, Logbook, update, total, close_scribe}

abbrev pub close_writer :
    List (Result (Unit {0})) → Option AttachmentWriter → Bool × Option AttachmentWriter
close_writer during none = (true, none)
close_writer during (some w) = let r = Writer.close during w in (r.0, some r.1)

abbrev pub close_scribes : {F : Type 0} → List String → Logbook F → Logbook F
close_scribes [] b = b
close_scribes (ledger ∷ ledgers) b = close_scribes ledgers (close_scribe ledger b).1

module _ (P : Python) where
  abbrev pub int : ℕ → Py P.Number
  int n = plain (number (P.of_nat n))

  -- the dict of the rows of each ledger
  abbrev pub rows_entries : Dict String (Dict String ℕ) → Entries P.Number
  rows_entries [] = Entries.end
  rows_entries ((ledger, kinds) ∷ d) = entry (ok ledger) (int (total kinds)) (rows_entries d)

  abbrev pub kinds_entries : Dict String ℕ → Entries P.Number
  kinds_entries [] = Entries.end
  kinds_entries ((kind, n) ∷ d) = entry (ok kind) (int n) (kinds_entries d)

  abbrev pub counts_entries : Dict String (Dict String ℕ) → Entries P.Number
  counts_entries [] = Entries.end
  counts_entries ((ledger, kinds) ∷ d) =
      entry (ok ledger) (mapping (kinds_entries kinds)) (counts_entries d)

  abbrev pub path_values : List Job → Values P.Number
  path_values [] = Values.nil
  path_values (job ∷ jobs) = Values.cons (plain (text (P.path_name job.path))) (path_values jobs)

  abbrev pub abandoned_entry : List Job → Entries P.Number
  abandoned_entry [] = Entries.end
  abandoned_entry (job ∷ jobs) =
      entry (ok "abandoned") (sequence (path_values (job ∷ jobs))) Entries.end

  abbrev pub put_attachments : Option AttachmentWriter → Bool → Row P.Number → Row P.Number
  put_attachments none drained row = row
  put_attachments (some w) drained row = put row "attachments" (
      mapping (
        entry (ok "written") (int w.written) (
          entry (ok "dropped") (int w.queue.dropped)
            (entry (ok "drained") (plain (boolean drained)) (abandoned_entry w.abandoned)))))

  -- what the framework adds to the fields of the business
  abbrev pub own_summary : P.Number → Logbook P.Number → Row P.Number
  own_summary mono b =
      ("duration_s", plain (number (P.rounded (P.minus mono b.t0_mono) 3)))
      ∷ ("rows", mapping (rows_entries b.counts))
      ∷ ("kinds", mapping (counts_entries b.counts))
      ∷ []

  abbrev pub saved_summary : Result (Unit {0}) → Row P.Number → Logbook P.Number → Logbook P.Number
  saved_summary (err e) row b = b
  saved_summary (ok t) row b = record b { summary_file = some row }

  -- `_write_summary`; what is raised is logged
  unfoldable pub write_summary :
      (Row P.Number → Result (Unit {0})) → P.Number → Bool → Logbook P.Number → Logbook P.Number
  unfolding update
  write_summary saved mono drained b =
      let row = put_attachments b.attachments drained (update b.summary (own_summary mono b)) in
      saved_summary (saved row) row b

  abbrev pub close_unless :
      Bool
      → (Row P.Number → Result (Unit {0}))
      → P.Number
      → List (Result (Unit {0}))
      → Logbook P.Number
      → Logbook P.Number
  close_unless true saved mono during b = b
  close_unless false saved mono during b =
      let r = close_writer during b.attachments in
      let ledgers = keys b.scribes in
      write_summary saved mono r.0
        (close_scribes ledgers (record b { closed = true; attachments = r.1 }))

  unfoldable pub close :
      (Row P.Number → Result (Unit {0}))
      → P.Number
      → List (Result (Unit {0}))
      → Logbook P.Number
      → Logbook P.Number
  unfolding write_summary
  close saved mono during b = close_unless b.closed saved mono during b
