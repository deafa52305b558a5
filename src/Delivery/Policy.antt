-- ===== src/Delivery/Policy.antt =====
-- The policy of an `ObservationQueue` of sensor/delivery.py, which no call changes.
use auto_weaver.Prelude.{
  ℕ, zero, suc, ◌≡◌, refl, sym, ap, ◌∙◌, Bool, true, false, Option, none, some, List, [], ◌∷◌,
  length, ltb,
}
use auto_weaver.Value.{Result, ok, err}
use auto_weaver.Delivery.{
  DropPolicy, latest_only, drop_newest, drop_oldest, ObservationQueue, Account, Call, offers, takes,
  takes_dropped, abandons, closes, new, offer, offer_full, offer_open, offer_unless, pop, take,
  take_dropped, abandon, close, hand_out, step,
}

module _ {A : Type 0} where
  offer_full_policy :
      (p : DropPolicy) (job : A) (q : ObservationQueue A) → (offer_full p job q).1.policy ≡ q.policy
  offer_full_policy latest_only job q = refl
  offer_full_policy drop_newest job q = refl
  offer_full_policy drop_oldest job q = refl

  offer_open_policy :
      (b : Bool) (job : A) (q : ObservationQueue A) → (offer_open b job q).1.policy ≡ q.policy
  offer_open_policy true job q = refl
  offer_open_policy false job q = offer_full_policy q.policy job q

  offer_unless_policy :
      (b : Bool) (job : A) (q : ObservationQueue A) → (offer_unless b job q).1.policy ≡ q.policy
  offer_unless_policy true job q = refl
  offer_unless_policy false job q = offer_open_policy (ltb (length q.items) q.capacity) job q

  pop_policy : (items : List A) (q : ObservationQueue A) → (pop items q).1.policy ≡ q.policy
  pop_policy [] q = refl
  pop_policy (job ∷ jobs) q = refl

  pub hand_out-queue : (o : Option A) (a : Account A) → (hand_out o a).queue ≡ a.queue
  hand_out-queue none a = refl
  hand_out-queue (some job) a = refl

  -- no call changes the policy of a queue
  pub step_policy : (c : Call A) (a : Account A) → (step c a).queue.policy ≡ a.queue.policy
  unfolding offer take take_dropped abandon close
  step_policy (offers job) a = offer_unless_policy a.queue.closed job a.queue
  step_policy takes a =
      ap (λ q. q.policy) (hand_out-queue (take a.queue).0 _) ∙ pop_policy a.queue.items a.queue
  step_policy takes_dropped a = refl
  step_policy abandons a = refl
  step_policy closes a = refl

  abbrev policy_of : DropPolicy → Result (ObservationQueue A) → DropPolicy
  policy_of p (err e) = p
  policy_of p (ok q) = q.policy

  pub new_policy : (n : ℕ) (p : DropPolicy) (q : ObservationQueue A) → new n p ≡ ok q → q.policy ≡ p
  unfolding new
  new_policy zero p q h = absurd (cc)
  new_policy (suc n) p q h = sym (ap (policy_of p) h)
