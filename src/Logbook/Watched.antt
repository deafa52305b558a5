-- ===== src/Logbook/Watched.antt =====
-- Runs of a writer of logbook/attachment.py, with the account of the calls on its queue.
use auto_weaver.Prelude.{ℕ, ◌+◌, Bool, true, false, Option, some, List, [], ◌∷◌}
use auto_weaver.Value.{Result, err}
use auto_weaver.Delivery
use auto_weaver.Delivery.{
  DropPolicy, latest_only, ObservationQueue, Account, offers, takes, takes_dropped, abandons,
  opening,
}
use auto_weaver.Logbook.Writer.{Job, AttachmentWriter, submit, round, take_dropped, close}

-- what happens to a writer: a call, or a round of its thread
pub data Event : Type 0 where
  submits : Job → Event
  runs : Result (Unit {0}) → Event
  reports : Event
  closes : List (Result (Unit {0})) → Event

-- A writer, with the account of the calls on its queue, and how many writes raised.
pub record Watched : Type 0 where
  pub writer : AttachmentWriter
  pub account : Account Job
  pub failed : ℕ

abbrev pub fails : Result (Unit {0}) → Option Job → ℕ
fails (err e) (some job) = 1
fails _ _ = 0

abbrev pub watch_unless : Bool → Result (Unit {0}) → Watched → Watched
watch_unless true saved s = record s { writer = round saved s.writer }
watch_unless false saved s = record {
  writer = round saved s.writer;
  account = Delivery.step takes s.account;
  failed = s.failed + fails saved (Delivery.take s.writer.queue).0;
}

abbrev pub watch_round : Result (Unit {0}) → Watched → Watched
watch_round saved s = watch_unless s.writer.stopped saved s

unfoldable pub watch_rounds : List (Result (Unit {0})) → Watched → Watched
watch_rounds [] s = s
watch_rounds (saved ∷ more) s = watch_rounds more (watch_round saved s)

abbrev pub watch : Event → Watched → Watched
watch (submits job) s = record s {
  writer = (submit job s.writer).1;
  account = Delivery.step (offers job) s.account;
}
watch (runs saved) s = watch_round saved s
watch reports s = record s {
  writer = (take_dropped s.writer).1;
  account = Delivery.step takes_dropped s.account;
}
watch (closes during) s =
    let s' = watch_rounds during s in
    record s' {
      writer = (close during s.writer).1;
      account = Delivery.step abandons (Delivery.step Delivery.closes s'.account);
    }

unfoldable pub watch_all : List Event → Watched → Watched
watch_all [] s = s
watch_all (e ∷ es) s = watch_all es (watch e s)

abbrev pub watched : AttachmentWriter → Watched
watched w = record { writer = w; account = opening w.queue; failed = 0 }
