-- ===== src/Logbook/Attachments.antt =====
-- The attachments of a row in logbook/scribe.py, and the writer that they share in logbook/book.py.
use auto_weaver.Prelude.{
  ℕ, ◌+◌, String, Bool, true, false, Option, none, some, List, [], ◌∷◌, ◌++◌, length, string_eq,
}
use auto_weaver.Dict.{Dict, put}
use auto_weaver.Value.{Result, ok, err, runtime_error}
use auto_weaver.Exec.{Exec, pure, modify, ◌>>=◌, ◌>>◌}
use auto_weaver.Delivery.{DropPolicy}
use auto_weaver.Logbook.{text, plain, sequence, mapping, Values, Entries, entry, Python}
use auto_weaver.Logbook.Writer.{Attachment, AttachmentWriter, new_writer, submit}
use auto_weaver.Logbook.Book.{Row, Logbook, put_scribe, find_scribe}

abbrev pub open_writer : Option AttachmentWriter → Option ℕ → DropPolicy → Result AttachmentWriter
open_writer (some w) capacity policy = ok w
open_writer none none policy = err runtime_error
open_writer none (some n) policy = new_writer n policy

-- one round of the loop over the attachments: what was written, and what was dropped
abbrev pub noted :
    Bool → String → String → Dict String String × List String → Dict String String × List String
noted true filename path (written, dropped) = (put written filename path, dropped)
noted false filename path (written, dropped) = (written, dropped ++ filename ∷ [])

module _ {F : Type 0} where
  -- the property `attachments`
  unfoldable pub attachment_writer : Exec (Logbook F) AttachmentWriter
  attachment_writer = do
    w ← λ b. (open_writer b.attachments b.attachment_capacity b.attachment_policy, b)
    modify (λ b. record b { attachments = some w })
    pure w

module _ (P : Python) where
  unfoldable pub submit_attachment : ℕ → Attachment → Exec (Logbook P.Number) (Bool × String)
  unfolding attachment_writer
  submit_attachment seq a = do
    w ← attachment_writer
    let path = P.attachment_path a.subdir seq a.filename
    let r = submit (record { path = path; attachment = a }) w
    modify (λ b. record b { attachments = some r.1 })
    pure (r.0, path)

  unfoldable pub submit_all :
      ℕ
      → List Attachment
      → Dict String String × List String
      → Exec (Logbook P.Number) (Dict String String × List String)
  unfolding submit_attachment
  submit_all seq [] acc = pure acc
  submit_all seq (a ∷ rest) acc = do
    r ← submit_attachment seq a
    submit_all seq rest (noted r.0 a.filename r.1 acc)

  abbrev pub text_entries : Dict String String → Entries P.Number
  text_entries [] = Entries.end
  text_entries ((k, s) ∷ d) = entry (ok k) (plain (text s)) (text_entries d)

  abbrev pub text_values : List String → Values P.Number
  text_values [] = Values.nil
  text_values (s ∷ ss) = Values.cons (plain (text s)) (text_values ss)

  abbrev pub put_written : Dict String String → Row P.Number → Row P.Number
  put_written [] row = row
  put_written (w ∷ written) row = put row "attachments" (mapping (text_entries (w ∷ written)))

  abbrev pub put_dropped : List String → Row P.Number → Row P.Number
  put_dropped [] row = row
  put_dropped (s ∷ dropped) row =
      put row "attachments_dropped" (sequence (text_values (s ∷ dropped)))

  abbrev pub count_dropped : String → List String → Exec (Logbook P.Number) Unit
  count_dropped ledger [] = pure tt
  count_dropped ledger (name ∷ names) = do
    s ← find_scribe ledger
    modify (
        put_scribe ledger
          (record s { dropped_attachments = s.dropped_attachments + length (name ∷ names) }))

  -- the part of `_write` on the attachments
  unfoldable pub attach :
      String → ℕ → List Attachment → Row P.Number → Exec (Logbook P.Number) (Row P.Number)
  unfolding submit_all
  attach ledger seq [] row = pure row
  attach ledger seq (a ∷ rest) row = do
    r ← submit_all seq (a ∷ rest) ([], [])
    count_dropped ledger r.1
    pure (put_dropped r.1 (put_written r.0 row))
