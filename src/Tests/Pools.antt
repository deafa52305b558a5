-- ===== src/Tests/Pools.antt =====
-- Runs of worker/async_pool.py.
use auto_weaver.Prelude.{ℕ, ◌+◌, ◌≡◌, refl, true, some, List, [], ◌∷◌, map}
use auto_weaver.Value.{int, ok, err, raised}
use auto_weaver.Pools.{Job, PendingCallback, submit, finish, drain_next, close}
use auto_weaver.Pools.Steps.{
  Event, submits, finishes, drains, closes, cancels, perform_all, opening, pick,
}
use auto_weaver.Pools.Accounts.{IsAccounted, pool-IsAccounted}

abbrev job : ℕ → Job
job n = record { id = n; on_done = some (n + n); on_error = some (n + n + 1); name = "cam" }

-- the second job ends first, the third is cancelled, the fourth is refused
abbrev busy : List Event
busy =
    submits (job 1)
    ∷ submits (job 2)
    ∷ submits (job 3)
    ∷ finishes 1 (err (raised 7))
    ∷ drains
    ∷ closes
    ∷ submits (job 4)
    ∷ finishes 0 (ok (int 5))
    ∷ cancels 0
    ∷ drains
    ∷ drains
    ∷ []

pool-IsAccounted_example : IsAccounted (perform_all busy (opening true))
pool-IsAccounted_example = pool-IsAccounted true busy

called_in_order :
    map (λ (c : PendingCallback). c.callback) (perform_all busy (opening true)).called ≡ 5 ∷ 2 ∷ []
unfolding perform_all pick submit finish drain_next close
called_in_order = refl
