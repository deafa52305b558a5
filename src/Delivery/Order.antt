-- ===== src/Delivery/Order.antt =====
-- The order of `ObservationQueue` in sensor/delivery.py under DROP_NEWEST.
use auto_weaver.Prelude.{
  ℕ, ◌≡◌, refl, sym, ap, ◌∙◌, Bool, true, false, List, [], ◌∷◌, ◌++◌, length, ltb, append_assoc,
  append-nil,
}
use auto_weaver.Delivery.{
  DropPolicy, latest_only, drop_newest, drop_oldest, ObservationQueue, offer, offer_full,
  offer_open, offer_unless, pop, take, take_dropped, abandon, close, Call, offers, takes,
  takes_dropped, abandons, closes, Account, step, run, opening, accept, hand_out,
}

-- What came out and then what is queued is what was accepted, in its order.
pub record IsFaithful {ℓ} {A : Type ℓ} (a : Account A) : Type ℓ where
  pub policy : a.queue.policy ≡ drop_newest
  pub faithful : a.out ++ a.queue.items ≡ a.accepted

module _ {ℓ} {A : Type ℓ} where
  offer_full-IsFaithful :
      (p : DropPolicy) (x : A) (a : Account A) (n : ℕ)
      → p ≡ drop_newest
      → IsFaithful a
      → let (r, q) = offer_full p x a.queue in
        IsFaithful (record a { queue = q; offered = n; accepted = accept r x a.accepted })
  offer_full-IsFaithful drop_newest x a n e h = record { policy = h.policy; faithful = h.faithful }
  offer_full-IsFaithful latest_only x a n e h = absurd (cc)
  offer_full-IsFaithful drop_oldest x a n e h = absurd (cc)

  offer_open-IsFaithful :
      (y : Bool) (x : A) (a : Account A) (n : ℕ)
      → IsFaithful a
      → let (r, q) = offer_open y x a.queue in
        IsFaithful (record a { queue = q; offered = n; accepted = accept r x a.accepted })
  offer_open-IsFaithful true x a n h = record {
    policy = h.policy;
    faithful = sym (append_assoc a.out a.queue.items (x ∷ [])) ∙ ap (λ l. l ++ x ∷ []) h.faithful;
  }
  offer_open-IsFaithful false x a n h = offer_full-IsFaithful a.queue.policy x a n h.policy h

  offer_unless-IsFaithful :
      (y : Bool) (x : A) (a : Account A) (n : ℕ)
      → IsFaithful a
      → let (r, q) = offer_unless y x a.queue in
        IsFaithful (record a { queue = q; offered = n; accepted = accept r x a.accepted })
  offer_unless-IsFaithful true x a n h = record { policy = h.policy; faithful = h.faithful }
  offer_unless-IsFaithful false x a n h =
      offer_open-IsFaithful (ltb (length a.queue.items) a.queue.capacity) x a n h

  pop-IsFaithful :
      (l : List A) (a : Account A)
      → a.queue.items ≡ l
      → IsFaithful a
      → let (r, q) = pop l a.queue in IsFaithful (hand_out r (record a { queue = q }))
  pop-IsFaithful [] a e h = h
  pop-IsFaithful (x ∷ l) a e h = record {
    policy = h.policy;
    faithful = append_assoc a.out (x ∷ []) l ∙ ap (λ k. a.out ++ k) (sym e) ∙ h.faithful;
  }

  step-IsFaithful : (c : Call A) (a : Account A) → IsFaithful a → IsFaithful (step c a)
  unfolding offer take take_dropped abandon close
  step-IsFaithful (offers x) a h = offer_unless-IsFaithful a.queue.closed x a _ h
  step-IsFaithful takes a h = pop-IsFaithful a.queue.items a refl h
  step-IsFaithful takes_dropped a h = record { policy = h.policy; faithful = h.faithful }
  step-IsFaithful abandons a h = record {
    policy = h.policy;
    faithful = append-nil (a.out ++ a.queue.items) ∙ h.faithful;
  }
  step-IsFaithful closes a h = record { policy = h.policy; faithful = h.faithful }

  run-IsFaithful : (cs : List (Call A)) (a : Account A) → IsFaithful a → IsFaithful (run cs a)
  unfolding run
  run-IsFaithful [] a h = h
  run-IsFaithful (c ∷ cs) a h = run-IsFaithful cs (step c a) (step-IsFaithful c a h)

-- On a DROP_NEWEST queue that starts empty, after any sequence of calls, each item that was offered
-- and accepted is there once, in the order of the offers: it was handed out by `take`, or removed by
-- `abandon`, which counts it as a drop, or else it is still queued.
pub accepted_kept {ℓ} :
    {A : Type ℓ} (q : ObservationQueue A) (cs : List (Call A))
    → q.policy ≡ drop_newest
    → q.items ≡ []
    → let a = run cs (opening q) in a.out ++ a.queue.items ≡ a.accepted
accepted_kept q cs p e =
    (run-IsFaithful cs (opening q) (record { policy = p; faithful = e })).faithful
