-- ===== src/Pools/Accounts.antt =====
-- The callbacks of a pool of worker/async_pool.py over any interleaving of its threads.
use auto_weaver.Prelude.{
  ℕ, zero, suc, ◌+◌, ◌≡◌, refl, sym, ap, ◌∙◌, Bool, true, false, ◌&&◌, Option, none, some, List, [],
  ◌∷◌, ◌++◌, arith, ◌==◌, nat_eq, if◌then◌else◌, append-nil, append_assoc,
}
use auto_weaver.Value.{Value, Result, ok, err}
use auto_weaver.Pools.{
  Job, PendingCallback, submit, submit_at, queued, callback_for, finish, next_of, drain_next, close,
}
use auto_weaver.Pools.Steps.{
  Event, submits, finishes, drains, closes, cancels, Account, pick, end_job, cancel_job, accept,
  called_now, perform, perform_all, opening,
}

-- a callback with its argument, under the name of the job's worker; none for none
abbrev pub called_with : Job → Result Value → Option ℕ → List PendingCallback
called_with job x none = []
called_with job x (some f) = record { callback = f; arg = x; worker_name = job.name } ∷ []

-- what a job asked for when it was submitted: `on_done` is called with the value that it returns, and
-- `on_error` with the exception that it raises
unfoldable pub answer : Job → Result Value → List PendingCallback
answer job (ok v) = called_with job (ok v) job.on_done
answer job (err e) = called_with job (err e) job.on_error

-- The callbacks of jobs that ended, in the order in which they ended: `on_done` with the result or
-- `on_error` with the exception, and nothing where the one that is due was not given.
unfoldable pub due : List (Job × Result Value) → List PendingCallback
unfolding answer
due [] = []
due ((job, x) ∷ rest) = answer job x ++ due rest

answer-queued : (job : Job) (x : Result Value) → queued (callback_for job x) job x ≡ answer job x
unfolding answer
answer-queued job (ok v) = go job.on_done
  where
    go : (o : Option ℕ) → queued o job (ok v) ≡ called_with job (ok v) o
    go none = refl
    go (some f) = refl
answer-queued job (err e) = go job.on_error
  where
    go : (o : Option ℕ) → queued o job (err e) ≡ called_with job (err e) o
    go none = refl
    go (some f) = refl

-- how many jobs with a number a list has
abbrev pub count : ℕ → List Job → ℕ
count n [] = 0
count n (job ∷ jobs) = let rest = count n jobs in if job.id == n then suc rest else rest

abbrev pub jobs_of : List (Job × Result Value) → List Job
jobs_of [] = []
jobs_of ((job, x) ∷ rest) = job ∷ jobs_of rest

-- Every accepted job is still there, has ended or was cancelled, each once, and the callbacks called
-- and those still queued are the ones that are due.
pub record IsAccounted (a : Account) : Type 0 where
  pub callbacks : a.called ++ a.pool.pending ≡ due a.finished
  pub jobs :
      (n : ℕ)
      → count n a.accepted
        ≡ count n a.pool.jobs + count n (jobs_of a.finished) + count n a.cancelled

due-append :
    (l : List (Job × Result Value)) (job : Job) (x : Result Value)
    → due (l ++ (job, x) ∷ []) ≡ due l ++ queued (callback_for job x) job x
unfolding due
due-append [] job x = append-nil _ ∙ sym (answer-queued job x)
due-append ((j, y) ∷ l) job x = rw (due-append l job x) (sym (append_assoc (answer j y) _ _))

count-append : (n : ℕ) (l : List Job) (job : Job) → count n (l ++ job ∷ []) ≡ count n (job ∷ l)
count-append n [] job = refl
count-append n (j ∷ l) job = ground (arith, count-append n l job)

jobs_of-append :
    (l : List (Job × Result Value)) (job : Job) (x : Result Value)
    → jobs_of (l ++ (job, x) ∷ []) ≡ jobs_of l ++ job ∷ []
jobs_of-append [] job x = refl
jobs_of-append ((j, y) ∷ l) job x = ap (λ k. j ∷ k) (jobs_of-append l job x)

-- what a picked job leaves
count-picked : ℕ → Option Job → ℕ → ℕ
count-picked n none m = m
count-picked n (some job) m = if job.id == n then suc m else m

count-picked_if :
    (n : ℕ) (o : Option Job) (b : Bool) (m : ℕ)
    → (if b then suc (count-picked n o m) else count-picked n o m)
      ≡ count-picked n o (if b then suc m else m)
unfolding count-picked
count-picked_if n none b m = refl
count-picked_if n (some job) b m = ground arith

count-pick :
    (n i : ℕ) (l : List Job) → count n l ≡ count-picked n (pick i l).0 (count n (pick i l).1)
unfolding pick count-picked
count-pick n i [] = refl
count-pick n zero (job ∷ l) = refl
count-pick n (suc i) (job ∷ l) =
    let (found, rest) = pick i l in
    ap (λ m. if job.id == n then suc m else m) (count-pick n i l)
    ∙ count-picked_if n found (job.id == n) (count n rest)

submit-IsAccounted :
    (c : Bool) (job : Job) (a : Account)
    → IsAccounted a
    → IsAccounted
        (record a { pool = (submit_at c job a.pool).1; accepted = accept c job a.accepted })
submit-IsAccounted true job a h = record { callbacks = h.callbacks; jobs = h.jobs }
submit-IsAccounted false job a h = record {
  callbacks = h.callbacks;
  jobs =
      λ n. ground (arith, h.jobs n, count-append n a.accepted job, count-append n a.pool.jobs job);
}

finish-IsAccounted :
    (o : Option Job) (rest : List Job) (x : Result Value) (a : Account)
    → ((n : ℕ) → count n a.pool.jobs ≡ count-picked n o (count n rest))
    → IsAccounted a
    → IsAccounted (end_job o rest x a)
unfolding finish count-picked
finish-IsAccounted none rest x a e h = h
finish-IsAccounted (some job) rest x a e h = record {
  callbacks =
      sym (append_assoc a.called a.pool.pending (queued (callback_for job x) job x))
      ∙ ap (λ l. l ++ queued (callback_for job x) job x) h.callbacks
      ∙ sym (due-append a.finished job x);
  jobs = λ n. ground (
    arith,
    h.jobs n,
    e n,
    count-append n (jobs_of a.finished) job,
    ap (count n) (jobs_of-append a.finished job x),
  );
}

cancel-IsAccounted :
    (o : Option Job) (rest : List Job) (a : Account)
    → ((n : ℕ) → count n a.pool.jobs ≡ count-picked n o (count n rest))
    → IsAccounted a
    → IsAccounted (cancel_job o rest a)
unfolding count-picked
cancel-IsAccounted none rest a e h = h
cancel-IsAccounted (some job) rest a e h = record {
  callbacks = h.callbacks;
  jobs = λ n. ground (arith, h.jobs n, e n, count-append n a.cancelled job);
}

drain-IsAccounted :
    (q : List PendingCallback) (a : Account)
    → a.pool.pending ≡ q
    → IsAccounted a
    → IsAccounted (record a {
      pool = (next_of q a.pool).1;
      called = called_now (next_of q a.pool).0 a.called;
    })
drain-IsAccounted [] a e h = record { callbacks = h.callbacks; jobs = h.jobs }
drain-IsAccounted (c ∷ q) a e h = record {
  callbacks = append_assoc a.called (c ∷ []) q ∙ ap (λ l. a.called ++ l) (sym e) ∙ h.callbacks;
  jobs = h.jobs;
}

perform-IsAccounted : (e : Event) (a : Account) → IsAccounted a → IsAccounted (perform e a)
unfolding submit drain_next close
perform-IsAccounted (submits job) a h = submit-IsAccounted a.pool.closed job a h
perform-IsAccounted (finishes i x) a h =
    let (found, rest) = pick i a.pool.jobs in
    finish-IsAccounted found rest x a (λ n. count-pick n i a.pool.jobs) h
perform-IsAccounted drains a h = drain-IsAccounted a.pool.pending a refl h
perform-IsAccounted closes a h = record { callbacks = h.callbacks; jobs = h.jobs }
perform-IsAccounted (cancels i) a h =
    let (found, rest) = pick i a.pool.jobs in
    let after = cancel-IsAccounted found rest a (λ n. count-pick n i a.pool.jobs) h in
    elim (a.pool.closed && a.pool.owns_executor)
      as (λ b. IsAccounted (if b then cancel_job found rest a else a)) [ true ↦ after | false ↦ h ]

perform_all-IsAccounted :
    (es : List Event) (a : Account) → IsAccounted a → IsAccounted (perform_all es a)
unfolding perform_all
perform_all-IsAccounted [] a h = h
perform_all-IsAccounted (e ∷ es) a h =
    perform_all-IsAccounted es (perform e a) (perform-IsAccounted e a h)

-- Over any interleaving of submits, jobs that end in any order, rounds of the drain, closing and
-- cancelling, from a new pool: every accepted job is still running, has ended or was cancelled,
-- once, and the callbacks that were called, followed by those in the queue, are the one that is due
-- for each ended job, in the order in which the jobs ended.
pub pool-IsAccounted : (owns : Bool) (es : List Event) → IsAccounted (perform_all es (opening owns))
unfolding due
pool-IsAccounted owns es =
    perform_all-IsAccounted es (opening owns) (record { callbacks = refl; jobs = λ n. omega arith })
