-- ===== src/Logbook/Scribe.antt =====
-- `write` of logbook/scribe.py.
use auto_weaver.Prelude.{ℕ, String, Option, none, some, List, [], ◌∷◌, string_eq}
use auto_weaver.Dict.{put}
use auto_weaver.Value.{Result, ok, err}
use auto_weaver.Exec.{Exec, pure, lift, gets, modify, ◌>>=◌, ◌>>◌}
use auto_weaver.Logbook.{number, text, Json, Py, plain, Python}
use auto_weaver.Logbook.Serialize.{to_jsonable}
use auto_weaver.Logbook.Lossless.{of_json}
use auto_weaver.Logbook.Writer.{Attachment}
use auto_weaver.Logbook.Book.{
  Row, Logbook, Moment, update, find_scribe, next_seq, append_line, count,
}
use auto_weaver.Logbook.Attachments.{attach}

module _ (P : Python) where
  abbrev pub coerced_value : Result (Json P.Number) → Result (Py P.Number)
  coerced_value (err e) = err e
  coerced_value (ok j) = ok (of_json j)

  abbrev pub coerced_entry :
      String → Result (Py P.Number) → Result (Row P.Number) → Result (Row P.Number)
  coerced_entry k (err e) rest = err e
  coerced_entry k (ok v) (err e) = err e
  coerced_entry k (ok v) (ok row) = ok ((k, v) ∷ row)

  -- `{k: to_jsonable(v) for k, v in d.items()}`
  unfoldable pub coerced : Row P.Number → Result (Row P.Number)
  coerced [] = ok []
  coerced ((k, v) ∷ d) = coerced_entry k (coerced_value (to_jsonable P 0 v)) (coerced d)

  abbrev pub kind_text : Py P.Number → Result String
  kind_text (plain (text s)) = ok s
  kind_text v = P.str v

  -- `at` and `now`
  abbrev pub stamp : Moment P.Number → Option P.Number → Logbook P.Number → Row P.Number
  stamp m (some mono) b =
      ("t", plain (number (P.rounded (P.minus mono b.t0_mono) 4)))
      ∷ ("wall", plain (number (P.rounded (P.plus b.t0_wall (P.minus mono b.t0_mono)) 4)))
      ∷ []
  stamp m none b =
      ("t", plain (number (P.rounded (P.minus m.mono b.t0_mono) 4)))
      ∷ ("wall", plain (number (P.rounded m.wall 4)))
      ∷ []

  -- the dict that a row begins with
  abbrev pub first_row : ℕ → Row P.Number → String → Row P.Number
  first_row seq times kind =
      put (update (("seq", plain (number (P.of_nat seq))) ∷ []) times) "kind" (plain (text kind))

  unfoldable pub layered :
      Row P.Number → Row P.Number → Row P.Number → Row P.Number → Row P.Number → Row P.Number
  unfolding update
  layered first tags context defaults fields =
      update (update (update (update first tags) context) defaults) fields

  -- `_write` up to the line
  unfoldable pub build_row :
      Moment P.Number
      → String
      → ℕ
      → String
      → Option P.Number
      → Row P.Number
      → Exec (Logbook P.Number) (Row P.Number)
  unfolding layered coerced
  build_row m ledger seq kind at fields = do
    times ← gets (stamp m at)
    tags ← gets (λ b. b.row_tags)
    context ← λ b. (coerced b.context, b)
    s ← find_scribe ledger
    defaults ← lift (coerced s.defaults)
    own ← lift (coerced fields)
    pure (layered (first_row seq times kind) tags context defaults own)

  -- `_write` once the row has its number, up to the line; the text of the kind goes on
  unfoldable pub put_row :
      Moment P.Number
      → String
      → Py P.Number
      → Option P.Number
      → List Attachment
      → Row P.Number
      → ℕ
      → Exec (Logbook P.Number) String
  unfolding build_row attach append_line
  put_row m ledger kind at attachments fields seq = do
    name ← lift (kind_text kind)
    row ← build_row m ledger seq name at fields
    whole ← attach P ledger seq attachments row
    lift (m.dumped whole)
    append_line m ledger whole
    pure name

  -- `_write`: the lock is held for the number and for the line, and the tally has a lock of its own, so
  -- that other threads may call between these three steps
  unfoldable pub write_row :
      Moment P.Number
      → String
      → Py P.Number
      → Option P.Number
      → List Attachment
      → Row P.Number
      → Exec (Logbook P.Number) Unit
  unfolding next_seq put_row count
  write_row m ledger kind at attachments fields = do
    seq ← next_seq ledger
    name ← put_row m ledger kind at attachments fields seq
    modify (count ledger name)

  -- `Scribe.write`, which logs what is raised
  unfoldable pub write :
      Moment P.Number
      → String
      → Py P.Number
      → Option P.Number
      → List Attachment
      → Row P.Number
      → Logbook P.Number
      → Logbook P.Number
  unfolding write_row
  write m ledger kind at attachments fields b = (write_row m ledger kind at attachments fields b).1
