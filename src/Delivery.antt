-- ===== src/Delivery.antt =====
-- sensor/delivery.py, `ObservationQueue`: the bounded queue between a producer and one consumer. Its
-- lock serialises the calls, so a call is one step. `take` stands for the moment at which it stops
-- waiting: an item is there, or the time is up or the queue closed.
pub mod Accounts
pub mod Order
pub mod Policy
use auto_weaver.Prelude.{
  ℕ, zero, suc, ◌+◌, Bool, true, false, Option, none, some, List, [], ◌∷◌, ◌++◌, length, drop, ltb,
  if◌then◌else◌,
}
use auto_weaver.Value.{Result, ok, err, value_error}

pub data DropPolicy : Type 0 where
  latest_only drop_newest drop_oldest : DropPolicy

pub record ObservationQueue {ℓ} (A : Type ℓ) : Type ℓ where
  pub policy : DropPolicy
  pub capacity : ℕ
  pub items : List A
  pub dropped : ℕ
  pub closed : Bool

abbrev pub capacity_of : DropPolicy → ℕ → ℕ
capacity_of latest_only n = 1
capacity_of _ n = n

module _ {ℓ} {A : Type ℓ} where
  -- the constructor; `int(capacity)` of what is no number is left out
  unfoldable pub new : ℕ → DropPolicy → Result (ObservationQueue A)
  new zero policy = err value_error
  new (suc n) policy = ok (record {
    policy = policy;
    capacity = capacity_of policy (suc n);
    items = [];
    dropped = 0;
    closed = false;
  })

  -- an offer to a full queue
  abbrev pub offer_full : DropPolicy → A → ObservationQueue A → Bool × ObservationQueue A
  offer_full latest_only x q = (true, record q { items = x ∷ [] })
  offer_full drop_oldest x q =
      (true, record q { items = drop 1 q.items ++ x ∷ []; dropped = q.dropped + 1 })
  offer_full drop_newest x q = (false, record q { dropped = q.dropped + 1 })

  -- an offer to an open queue, by whether it has room
  abbrev pub offer_open : Bool → A → ObservationQueue A → Bool × ObservationQueue A
  offer_open true x q = (true, record q { items = q.items ++ x ∷ [] })
  offer_open false x q = offer_full q.policy x q

  abbrev pub offer_unless : Bool → A → ObservationQueue A → Bool × ObservationQueue A
  offer_unless true x q = (false, q)
  offer_unless false x q = offer_open (ltb (length q.items) q.capacity) x q

  unfoldable pub offer : A → ObservationQueue A → Bool × ObservationQueue A
  offer x q = offer_unless q.closed x q

  abbrev pub pop : List A → ObservationQueue A → Option A × ObservationQueue A
  pop [] q = (none, q)
  pop (x ∷ rest) q = (some x, record q { items = rest })

  unfoldable pub take : ObservationQueue A → Option A × ObservationQueue A
  take q = pop q.items q

  unfoldable pub take_dropped : ObservationQueue A → ℕ × ObservationQueue A
  take_dropped q = (q.dropped, record q { dropped = 0 })

  unfoldable pub abandon : ObservationQueue A → List A × ObservationQueue A
  abandon q = (q.items, record q { items = []; dropped = q.dropped + length q.items })

  unfoldable pub close : ObservationQueue A → ObservationQueue A
  close q = record q { closed = true }

-- a call on a queue
pub data Call {ℓ} (A : Type ℓ) : Type ℓ where
  offers : A → Call A
  takes takes_dropped abandons closes : Call A

-- A queue with an account of the calls so far: what was offered while it was open, which offers
-- returned true, what `take` and `abandon` handed out, how many items `take` did, and the sum of
-- what `take_dropped` returned.
pub record Account {ℓ} (A : Type ℓ) : Type ℓ where
  pub queue : ObservationQueue A
  pub offered : ℕ
  pub accepted : List A
  pub out : List A
  pub taken : ℕ
  pub reported : ℕ

abbrev pub opened : Bool → ℕ → ℕ
opened true n = n
opened false n = n + 1

module _ {ℓ} {A : Type ℓ} where
  abbrev pub accept : Bool → A → List A → List A
  accept true x l = l ++ x ∷ []
  accept false x l = l

  abbrev pub hand_out : Option A → Account A → Account A
  hand_out none a = a
  hand_out (some x) a = record a { out = a.out ++ x ∷ []; taken = a.taken + 1 }

  abbrev pub step : Call A → Account A → Account A
  step (offers x) a =
      let (r, q) = offer x a.queue in
      record a {
        queue = q;
        offered = opened a.queue.closed a.offered;
        accepted = accept r x a.accepted;
      }
  step takes a = let (r, q) = take a.queue in hand_out r (record a { queue = q })
  step takes_dropped a =
      let (n, q) = take_dropped a.queue in record a { queue = q; reported = a.reported + n }
  step abandons a = let (l, q) = abandon a.queue in record a { queue = q; out = a.out ++ l }
  step closes a = record a { queue = close a.queue }

  unfoldable pub run : List (Call A) → Account A → Account A
  run [] a = a
  run (c ∷ cs) a = run cs (step c a)

  abbrev pub opening : ObservationQueue A → Account A
  opening q = record { queue = q; offered = 0; accepted = []; out = []; taken = 0; reported = 0 }
