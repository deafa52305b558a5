-- ===== src/Logbook/Backlog.antt =====
-- What becomes of the attachments that logbook/attachment.py is given.
use auto_weaver.Prelude.{
  Bool, true, false, ℕ, ◌+◌, ◌≡◌, ◌≢◌, refl, sym, ap, ◌∙◌, Option, none, some, List, [], ◌∷◌, arith,
  length,
}
use mathlib.Core.Path.{subst}
use auto_weaver.Value.{Result, ok, err}
use auto_weaver.Delivery
use auto_weaver.Delivery.{
  DropPolicy, latest_only, drop_newest, drop_oldest, ObservationQueue, Account, offers, takes,
  takes_dropped, abandons, opening,
}
use auto_weaver.Delivery.Policy.{hand_out-queue, step_policy, new_policy}
use auto_weaver.Delivery.Accounts.{
  IsBalanced, step-IsBalanced, StartsBalanced, IsBalanced-of, new-StartsBalanced,
}
use auto_weaver.Logbook.Writer.{
  Job, AttachmentWriter, made, new_writer, submit, after_take, round, rounds, take_dropped, stop,
  close,
}
use auto_weaver.Logbook.Watched.{
  Event, submits, runs, reports, closes, Watched, fails, watch_unless, watch_round, watch_rounds,
  watch, watch_all, watched,
}

-- The account is that of the writer's queue, and what was taken was written or failed.
record IsTallied (p : DropPolicy) (s : Watched) : Type 0 where
  kept : s.account.queue.policy ≡ p
  same : s.account.queue ≡ s.writer.queue
  balance : IsBalanced s.account
  tally : s.account.taken ≡ s.writer.written + s.failed

abbrev counted : Option Job → ℕ
counted none = 0
counted (some job) = 1

hand_out-taken :
    (o : Option Job) (a : Account Job) → (Delivery.hand_out o a).taken ≡ a.taken + counted o
hand_out-taken none a = omega arith
hand_out-taken (some job) a = refl

after_take-queue :
    (saved : Result (Unit {0})) (o : Option Job) (q : ObservationQueue Job) (w : AttachmentWriter)
    → (after_take saved (o, q) w).queue ≡ q
after_take-queue saved none q w = refl
after_take-queue (ok t) (some job) q w = refl
after_take-queue (err e) (some job) q w = refl

after_take-written :
    (saved : Result (Unit {0})) (o : Option Job) (q : ObservationQueue Job) (w : AttachmentWriter)
    → (after_take saved (o, q) w).written + fails saved o ≡ w.written + counted o
after_take-written (ok t) none q w = refl
after_take-written (err e) none q w = refl
after_take-written (ok t) (some job) q w = omega arith
after_take-written (err e) (some job) q w = omega arith

-- a round of a writer that is not stopped
runs-IsTallied :
    {p : DropPolicy} (saved : Result (Unit {0})) (s : Watched)
    → s.writer.stopped ≡ false
    → IsTallied p s
    → IsTallied p (watch_unless false saved s)
unfolding round
runs-IsTallied saved s r h =
    let x = Delivery.take s.writer.queue in
    let going : round saved s.writer ≡ after_take saved x s.writer = rw r refl in
    let one : (Delivery.take s.account.queue).0 ≡ x.0 = ap (λ q. (Delivery.take q).0) h.same in
    record {
      same =
          hand_out-queue (Delivery.take s.account.queue).0 _
          ∙ ap (λ q. (Delivery.take q).1) h.same
          ∙ sym (after_take-queue saved x.0 x.1 s.writer)
          ∙ ap (λ w. w.queue) (sym going);
      kept = step_policy takes s.account ∙ h.kept;
      balance = step-IsBalanced takes s.account h.balance;
      tally = omega (
        arith,
        h.tally,
        hand_out-taken (Delivery.take s.account.queue).0
            (record s.account { queue = (Delivery.take s.account.queue).1 }),
        ap counted one,
        after_take-written saved x.0 x.1 s.writer,
        ap (λ w. w.written) going,
      );
    }

round-IsTallied :
    {p : DropPolicy} (saved : Result (Unit {0})) (b : Bool) (s : Watched)
    → s.writer.stopped ≡ b
    → IsTallied p s
    → IsTallied p (watch_unless b saved s)
unfolding round
round-IsTallied saved true s r h = record {
  kept = h.kept;
  same = rw r h.same;
  balance = h.balance;
  tally = rw r h.tally;
}
round-IsTallied saved false s r h = runs-IsTallied saved s r h

rounds-IsTallied :
    {p : DropPolicy} (during : List (Result (Unit {0}))) (s : Watched)
    → IsTallied p s
    → IsTallied p (watch_rounds during s)
unfolding watch_rounds
rounds-IsTallied [] s h = h
rounds-IsTallied (saved ∷ more) s h =
    rounds-IsTallied more (watch_round saved s) (round-IsTallied saved s.writer.stopped s refl h)

writer-watch_unless :
    (b : Bool) (saved : Result (Unit {0})) (s : Watched)
    → (watch_unless b saved s).writer ≡ round saved s.writer
writer-watch_unless true saved s = refl
writer-watch_unless false saved s = refl

writer-watch_rounds :
    (during : List (Result (Unit {0}))) (s : Watched)
    → (watch_rounds during s).writer ≡ rounds during s.writer
unfolding watch_rounds rounds
writer-watch_rounds [] s = refl
writer-watch_rounds (saved ∷ more) s =
    writer-watch_rounds more (watch_round saved s)
    ∙ ap (rounds more) (writer-watch_unless s.writer.stopped saved s)

-- the end of a close
stop-IsTallied :
    {p : DropPolicy} (s : Watched)
    → IsTallied p s
    → IsTallied p (record s {
      writer = stop s.writer;
      account = Delivery.step abandons (Delivery.step Delivery.closes s.account);
    })
unfolding stop Delivery.abandon Delivery.close
stop-IsTallied s h = record {
  kept = h.kept;
  same = ap (λ q. (Delivery.abandon (Delivery.close q)).1) h.same;
  balance = step-IsBalanced abandons _ (step-IsBalanced Delivery.closes s.account h.balance);
  tally = h.tally;
}

watch-IsTallied :
    {p : DropPolicy} (e : Event) (s : Watched) → IsTallied p s → IsTallied p (watch e s)
unfolding submit take_dropped close
watch-IsTallied (submits job) s h = record {
  kept = step_policy (offers job) s.account ∙ h.kept;
  same = ap (λ q. (Delivery.offer job q).1) h.same;
  balance = step-IsBalanced (offers job) s.account h.balance;
  tally = h.tally;
}
watch-IsTallied (runs saved) s h = round-IsTallied saved s.writer.stopped s refl h
watch-IsTallied reports s h = record {
  kept = step_policy takes_dropped s.account ∙ h.kept;
  same = ap (λ q. (Delivery.take_dropped q).1) h.same;
  balance = step-IsBalanced takes_dropped s.account h.balance;
  tally = h.tally;
}
watch-IsTallied {p = p} (closes during) s h =
    subst
      (λ w. IsTallied p (record (watch_rounds during s) {
        writer = stop w;
        account =
            Delivery.step abandons (Delivery.step Delivery.closes (watch_rounds during s).account);
      }))
      (writer-watch_rounds during s)
      (stop-IsTallied (watch_rounds during s) (rounds-IsTallied during s h))

watch_all-IsTallied :
    {p : DropPolicy} (es : List Event) (s : Watched) → IsTallied p s → IsTallied p (watch_all es s)
unfolding watch_all
watch_all-IsTallied [] s h = h
watch_all-IsTallied (e ∷ es) s h = watch_all-IsTallied es (watch e s) (watch-IsTallied e s h)

made-IsTallied :
    (p : DropPolicy) (r : Result (ObservationQueue Job)) (w : AttachmentWriter)
    → StartsBalanced r
    → ((q : ObservationQueue Job) → r ≡ ok q → q.policy ≡ p)
    → made r ≡ ok w
    → IsTallied p (watched w)
made-IsTallied p (err e) w b k h = absurd (cc)
made-IsTallied p (ok q) w b k h =
    let same : record { queue = q; written = 0; abandoned = []; stopped = false } ≡ w = (cc) in
    subst (λ x. IsTallied p (watched x)) same
      (record {
        kept = k q refl;
        same = refl;
        balance = IsBalanced-of (ok q) q refl b;
        tally = refl;
      })

-- Whatever is submitted to a new writer, whichever writes of its thread raise, and whenever it is closed:
-- unless its policy is LATEST_ONLY, the attachments that were submitted while it was open are those
-- written, those whose write raised, those still queued, and those counted as dropped, reported or not,
-- the ones abandoned at the close among them.
pub writer_accounts :
    (capacity : ℕ) (policy : DropPolicy) (w : AttachmentWriter) (es : List Event)
    → new_writer capacity policy ≡ ok w
    → policy ≢ latest_only
    → let s = watch_all es (watched w) in
      s.account.offered
      ≡ s.writer.written
        + s.failed
        + length s.writer.queue.items
        + s.writer.queue.dropped
        + s.account.reported
unfolding new_writer
writer_accounts capacity policy w es e n =
    let h : IsTallied policy (watch_all es (watched w)) = watch_all-IsTallied es (watched w) (
      made-IsTallied policy (Delivery.new capacity policy) w
        (new-StartsBalanced Job capacity policy) (new_policy capacity policy) e) in
    let items = ap (λ q. length q.items) h.same in
    let dropped = ap (λ q. q.dropped) h.same in
    omega (arith, h.balance.balanced (λ q. n (sym h.kept ∙ q)), h.tally, items, dropped)
