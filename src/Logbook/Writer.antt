-- ===== src/Logbook/Writer.antt =====
-- `AttachmentWriter` of logbook/attachment.py. A round of its thread is one step: what comes between
-- the take and the write of a job is left out.
use auto_weaver.Prelude.{
  ℕ, ◌+◌, String, Bool, true, false, Option, none, some, List, [], ◌∷◌, ◌++◌, length, ◌==◌, nat_eq,
}
use auto_weaver.Value.{Result, ok, err}
use auto_weaver.Delivery
use auto_weaver.Delivery.{ObservationQueue, DropPolicy}

-- An attachment's payload is told apart by a number.
pub record Attachment : Type 0 where
  pub filename : String
  pub subdir : String
  pub payload : ℕ

-- The path is taken from the run directory.
pub record Job : Type 0 where
  pub path : String
  pub attachment : Attachment

-- `stopped` is the event `_stop`, and the path of an abandoned job is kept with the job.
pub record AttachmentWriter : Type 0 where
  pub queue : ObservationQueue Job
  pub written : ℕ
  pub abandoned : List Job
  pub stopped : Bool

abbrev pub made : Result (ObservationQueue Job) → Result AttachmentWriter
made (err e) = err e
made (ok q) = ok (record { queue = q; written = 0; abandoned = []; stopped = false })

unfoldable pub new_writer : ℕ → DropPolicy → Result AttachmentWriter
new_writer capacity policy = made (Delivery.new capacity policy)

unfoldable pub submit : Job → AttachmentWriter → Bool × AttachmentWriter
submit job w = let r = Delivery.offer job w.queue in (r.0, record w { queue = r.1 })

-- a job that is taken, and what its write does; what it raises is logged
abbrev pub after_take :
    Result (Unit {0}) → Option Job × ObservationQueue Job → AttachmentWriter → AttachmentWriter
after_take saved (none, q) w = record w { queue = q }
after_take (ok t) (some job, q) w = record w { queue = q; written = w.written + 1 }
after_take (err e) (some job, q) w = record w { queue = q }

abbrev pub round_unless : Bool → Result (Unit {0}) → AttachmentWriter → AttachmentWriter
round_unless true saved w = w
round_unless false saved w = after_take saved (Delivery.take w.queue) w

-- one round of `_loop`
unfoldable pub round : Result (Unit {0}) → AttachmentWriter → AttachmentWriter
round saved w = round_unless w.stopped saved w

unfoldable pub rounds : List (Result (Unit {0})) → AttachmentWriter → AttachmentWriter
unfolding round
rounds [] w = w
rounds (saved ∷ more) w = rounds more (round saved w)

unfoldable pub take_dropped : AttachmentWriter → ℕ × AttachmentWriter
take_dropped w = let r = Delivery.take_dropped w.queue in (r.0, record w { queue = r.1 })

-- the part of `close` behind the drain
unfoldable pub stop : AttachmentWriter → AttachmentWriter
stop w =
    let r = Delivery.abandon (Delivery.close w.queue) in
    record w { queue = r.1; abandoned = w.abandoned ++ r.0; stopped = true }

-- `close`, with what the thread does while it drains, and whether the queue is empty then
unfoldable pub close : List (Result (Unit {0})) → AttachmentWriter → Bool × AttachmentWriter
unfolding rounds stop
close during w = let w' = rounds during w in (length w'.queue.items == 0, stop w')
