-- ===== src/Tests/Queues.antt =====
-- Runs of sensor/delivery.py.
use auto_weaver.Prelude.{ℕ, ◌≡◌, refl, false, List, [], ◌∷◌, ◌++◌}
use auto_weaver.Delivery
use auto_weaver.Delivery.{
  DropPolicy, latest_only, drop_newest, drop_oldest, ObservationQueue, Call, offers, takes,
  takes_dropped, abandons, closes, Account, run, opening, offer, take, take_dropped, abandon, close,
}
use auto_weaver.Delivery.Accounts.{IsBalanced, queue_balances}
use auto_weaver.Delivery.Order.{accepted_kept}

abbrev two_places : DropPolicy → ObservationQueue ℕ
two_places p = record { policy = p; capacity = 2; items = []; dropped = 0; closed = false }

-- four offers, of which a queue with two places drops two
abbrev burst : List (Call ℕ)
burst = offers 1 ∷ offers 2 ∷ offers 3 ∷ takes ∷ offers 4 ∷ offers 5 ∷ takes_dropped ∷ []

queue_balances_example : IsBalanced (run burst (opening (two_places drop_oldest)))
unfolding Delivery.new
queue_balances_example = queue_balances 2 drop_oldest (two_places drop_oldest) burst refl

accepted_kept_example :
    let a = run burst (opening (two_places drop_newest)) in a.out ++ a.queue.items ≡ a.accepted
accepted_kept_example = accepted_kept (two_places drop_newest) burst refl refl

keeps_first : (run burst (opening (two_places drop_newest))).accepted ≡ 1 ∷ 2 ∷ 4 ∷ []
unfolding run offer take take_dropped
keeps_first = refl

keeps_last : (run burst (opening (two_places drop_oldest))).queue.items ≡ 4 ∷ 5 ∷ []
unfolding run offer take take_dropped
keeps_last = refl
