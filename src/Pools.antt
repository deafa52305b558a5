-- ===== src/Pools.antt =====
-- worker/async_pool.py: jobs that run in threads, and the queue of their callbacks. A callback is a
-- number; what it does is a parameter. The executor of the standard library is seen by the jobs that
-- it has accepted and that have neither finished nor been cancelled.
pub mod Steps
pub mod Accounts
use auto_weaver.Prelude.{
  ℕ, zero, suc, ◌+◌, String, Bool, true, false, ◌&&◌, ◌||◌, Option, none, some, List, [], ◌∷◌, ◌++◌,
  ◌==◌, nat_eq, string_eq, if◌then◌else◌,
}
use auto_weaver.Value.{Value, Exn, Result, ok, err, runtime_error, value_error}
use auto_weaver.Exec.{Exec, pure, raise, ◌>>◌, ◌>>=◌}

-- What `submit` was given: the job by its number, its callbacks and the name of its worker.
pub record Job : Type 0 where
  pub id : ℕ
  pub on_done : Option ℕ
  pub on_error : Option ℕ
  pub name : String

-- `_PendingCallback`: the argument is a result or an exception
pub record PendingCallback : Type 0 where
  pub callback : ℕ
  pub arg : Result Value
  pub worker_name : String

pub record AsyncPool : Type 0 where
  pub owns_executor : Bool
  pub jobs : List Job
  pub pending : List PendingCallback
  pub closed : Bool

abbrev pub new_pool : Bool → AsyncPool
new_pool owns = record { owns_executor = owns; jobs = []; pending = []; closed = false }

abbrev pub submit_at : Bool → Job → Exec AsyncPool Unit
submit_at true job p = (err runtime_error, p)
submit_at false job p = (ok tt, record p { jobs = p.jobs ++ job ∷ [] })

unfoldable pub submit : Job → Exec AsyncPool Unit
submit job p = submit_at p.closed job p

abbrev pub queued : Option ℕ → Job → Result Value → List PendingCallback
queued none job x = []
queued (some f) job x = record { callback = f; arg = x; worker_name = job.name } ∷ []

abbrev pub callback_for : Job → Result Value → Option ℕ
callback_for job (ok v) = job.on_done
callback_for job (err e) = job.on_error

-- `runner` once `fn` has returned or raised
unfoldable pub finish : Job → Result Value → AsyncPool → AsyncPool
finish job x p = record p { pending = p.pending ++ queued (callback_for job x) job x }

-- What a callback does to the world: what it raises is logged.
abbrev pub Callbacks : Type 0 → Type 0
Callbacks W = ℕ → Result Value → W → Option Exn × W

module _ {W : Type 0} (call : Callbacks W) where
  -- the loop of `drain_main_thread_callbacks` over what is queued
  unfoldable pub drain_queue : List PendingCallback → W → W
  drain_queue [] w = w
  drain_queue (c ∷ cs) w = drain_queue cs (call c.callback c.arg w).1

  unfoldable pub drain : AsyncPool → W → AsyncPool × W
  drain p w = (record p { pending = [] }, drain_queue p.pending w)

-- one round of that loop
abbrev pub next_of : List PendingCallback → AsyncPool → Option PendingCallback × AsyncPool
next_of [] p = (none, p)
next_of (c ∷ cs) p = (some c, record p { pending = cs })

unfoldable pub drain_next : AsyncPool → Option PendingCallback × AsyncPool
drain_next p = next_of p.pending p

unfoldable pub close : AsyncPool → AsyncPool
close p = record p { closed = true }

-- `AsyncPoolRegistry`: the pools by number, in the order of their registration
pub record Registry : Type 0 where
  pub pools : List ℕ
  pub made : ℕ
  pub heap : ℕ → AsyncPool

abbrev pub set_pool : ℕ → AsyncPool → Registry → Registry
set_pool n p r = record r { heap = λ m. if m == n then p else r.heap m }

abbrev pub owns_of : String → Result Bool
owns_of mode =
    if mode == "shared" then ok false else if mode == "dedicated" then ok true else err value_error

abbrev pub register_pool : Result Bool → Exec Registry ℕ
register_pool (err e) r = (err e, r)
register_pool (ok owns) r = (
  ok r.made,
  set_pool r.made (new_pool owns) (record r { pools = r.pools ++ r.made ∷ []; made = r.made + 1 }),
)

unfoldable pub make_pool : String → Exec Registry ℕ
make_pool mode r = register_pool (owns_of mode) r

unfoldable pub remove_first : ℕ → List ℕ → List ℕ
remove_first n [] = []
remove_first n (m ∷ ms) = let rest = remove_first n ms in if m == n then ms else m ∷ rest

abbrev pub close_pool : ℕ → Registry → Registry
close_pool n r = set_pool n (close (r.heap n)) r

unfoldable pub remove : ℕ → Registry → Registry
remove n r = close_pool n (record r { pools = remove_first n r.pools })

unfoldable pub close_all : List ℕ → Registry → Registry
close_all [] r = r
close_all (n ∷ ns) r = close_all ns (close_pool n r)

unfoldable pub shutdown : Registry → Registry
shutdown r = close_all r.pools (record r { pools = [] })

module _ {W : Type 0} (call : Callbacks W) where
  unfoldable pub drain_pools : List ℕ → Registry → W → Registry × W
  unfolding drain
  drain_pools [] r w = (r, w)
  drain_pools (n ∷ ns) r w =
      let (p, w') = drain call (r.heap n) w in drain_pools ns (set_pool n p r) w'

  unfoldable pub drain_all : Registry → W → Registry × W
  drain_all r w = drain_pools r.pools r w
