-- ===== src/Pools/Steps.antt =====
-- The steps of the threads around a pool of worker/async_pool.py, with an account of what they did.
use auto_weaver.Prelude.{
  ℕ, zero, suc, Bool, true, false, ◌&&◌, Option, none, some, List, [], ◌∷◌, ◌++◌, nat_eq,
  if◌then◌else◌,
}
use auto_weaver.Value.{Value, Result}
use auto_weaver.Pools.{Job, PendingCallback, AsyncPool, new_pool, submit, finish, drain_next, close}

-- A step of one of the threads: a call of `submit`, the end of the job at a place of the list with
-- its outcome, a round of the drain, `close`, or the cancelling of a job of a closed pool with an
-- executor of its own.
pub data Event : Type 0 where
  submits : Job → Event
  finishes : ℕ → Result Value → Event
  drains closes : Event
  cancels : ℕ → Event

-- A pool with an account: the jobs that `submit` accepted, those that ended with their outcomes, those
-- that were cancelled, and the callbacks that were called, in order.
pub record Account : Type 0 where
  pub pool : AsyncPool
  pub accepted : List Job
  pub finished : List (Job × Result Value)
  pub cancelled : List Job
  pub called : List PendingCallback

-- the job at a place, and the others
unfoldable pub pick : ℕ → List Job → Option Job × List Job
pick i [] = (none, [])
pick zero (job ∷ jobs) = (some job, jobs)
pick (suc i) (job ∷ jobs) = let (found, rest) = pick i jobs in (found, job ∷ rest)

abbrev pub end_job : Option Job → List Job → Result Value → Account → Account
end_job none jobs x a = a
end_job (some job) jobs x a = record a {
  pool = finish job x (record a.pool { jobs = jobs });
  finished = a.finished ++ (job, x) ∷ [];
}

abbrev pub cancel_job : Option Job → List Job → Account → Account
cancel_job none jobs a = a
cancel_job (some job) jobs a = record a {
  pool = record a.pool { jobs = jobs };
  cancelled = a.cancelled ++ job ∷ [];
}

abbrev pub accept : Bool → Job → List Job → List Job
accept true job jobs = jobs
accept false job jobs = jobs ++ job ∷ []

abbrev pub called_now : Option PendingCallback → List PendingCallback → List PendingCallback
called_now none cs = cs
called_now (some c) cs = cs ++ c ∷ []

abbrev pub perform : Event → Account → Account
perform (submits job) a = record a {
  pool = (submit job a.pool).1;
  accepted = accept a.pool.closed job a.accepted;
}
perform (finishes i x) a = let (found, rest) = pick i a.pool.jobs in end_job found rest x a
perform drains a =
    let (c, p) = drain_next a.pool in record a { pool = p; called = called_now c a.called }
perform closes a = record a { pool = close a.pool }
perform (cancels i) a =
    let (found, rest) = pick i a.pool.jobs in
    if a.pool.closed && a.pool.owns_executor then cancel_job found rest a else a

unfoldable pub perform_all : List Event → Account → Account
perform_all [] a = a
perform_all (e ∷ es) a = perform_all es (perform e a)

abbrev pub opening : Bool → Account
opening owns = record {
  pool = new_pool owns;
  accepted = [];
  finished = [];
  cancelled = [];
  called = [];
}
