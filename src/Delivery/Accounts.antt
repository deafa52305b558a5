-- ===== src/Delivery/Accounts.antt =====
-- The bound and the drop counter of `ObservationQueue` in sensor/delivery.py.
use auto_weaver.Prelude.{
  ℕ, zero, suc, ◌+◌, ◌-◌, ◌≤◌, ◌≡◌, ◌≢◌, refl, Bool, true, false, List, [], ◌∷◌, ◌++◌, length, drop,
  ltb, arith, length-append, length-drop,
}
use auto_weaver.Value.{Result, ok, err}
use auto_weaver.Delivery.{
  DropPolicy, latest_only, drop_newest, drop_oldest, ObservationQueue, offer, offer_full,
  offer_open, offer_unless, pop, take, take_dropped, abandon, close, Call, offers, takes,
  takes_dropped, abandons, closes, Account, step, run, new, opening, opened, hand_out,
}

-- The queue holds no more than its capacity, and what was offered while it was open is accounted
-- for: taken, still queued, or dropped, whether the drop was reported yet or not. A LATEST_ONLY
-- queue replaces an item without counting it, so for it only the bound is stated.
pub record IsBalanced {ℓ} {A : Type ℓ} (a : Account A) : Type ℓ where
  pub roomy : 1 ≤ a.queue.capacity
  pub bounded : length a.queue.items ≤ a.queue.capacity
  pub single : a.queue.policy ≡ latest_only → a.queue.capacity ≡ 1
  pub balanced :
      a.queue.policy ≢ latest_only
      → a.offered ≡ a.taken + length a.queue.items + a.queue.dropped + a.reported

module _ {ℓ} {A : Type ℓ} where
  offer_full-IsBalanced :
      (p : DropPolicy) (x : A) (a : Account A) (l : List A)
      → a.queue.policy ≡ p
      → a.queue.capacity ≤ length a.queue.items
      → IsBalanced a
      → IsBalanced
          (record a { queue = (offer_full p x a.queue).1; offered = a.offered + 1; accepted = l })
  offer_full-IsBalanced latest_only x a l e f h = record {
    roomy = h.roomy;
    bounded = h.roomy;
    single = h.single;
    balanced = λ m. absurd (m e);
  }
  offer_full-IsBalanced drop_newest x a l e f h = record {
    roomy = h.roomy;
    bounded = h.bounded;
    single = h.single;
    balanced = λ m. omega (arith, h.balanced m);
  }
  offer_full-IsBalanced drop_oldest x a l e f h =
      let k : length (drop 1 a.queue.items ++ x ∷ []) ≡ length a.queue.items - 1 + 1 =
        omega (arith, length-append (drop 1 a.queue.items) (x ∷ []), length-drop 1 a.queue.items) in
      let r = h.roomy in
      let b = h.bounded in
      record {
        roomy = h.roomy;
        bounded = omega arith;
        single = h.single;
        balanced = λ m. omega (arith, h.balanced m);
      }

  offer_open-IsBalanced :
      (y : Bool) (x : A) (a : Account A) (l : List A)
      → ltb (length a.queue.items) a.queue.capacity ≡ y
      → IsBalanced a
      → IsBalanced
          (record a { queue = (offer_open y x a.queue).1; offered = a.offered + 1; accepted = l })
  offer_open-IsBalanced true x a l e h =
      let k : length (a.queue.items ++ x ∷ []) ≡ length a.queue.items + 1 =
        omega (arith, length-append a.queue.items (x ∷ [])) in
      record {
        roomy = h.roomy;
        bounded = ground arith;
        single = h.single;
        balanced = λ m. omega (arith, h.balanced m);
      }
  offer_open-IsBalanced false x a l e h =
      offer_full-IsBalanced a.queue.policy x a l refl (ground arith) h

  offer_unless-IsBalanced :
      (y : Bool) (x : A) (a : Account A) (l : List A)
      → IsBalanced a
      → IsBalanced (record a {
        queue = (offer_unless y x a.queue).1;
        offered = opened y a.offered;
        accepted = l;
      })
  offer_unless-IsBalanced true x a l h = record {
    roomy = h.roomy;
    bounded = h.bounded;
    single = h.single;
    balanced = h.balanced;
  }
  offer_unless-IsBalanced false x a l h =
      offer_open-IsBalanced (ltb (length a.queue.items) a.queue.capacity) x a l refl h

  pop-IsBalanced :
      (l : List A) (a : Account A)
      → a.queue.items ≡ l
      → IsBalanced a
      → let (r, q) = pop l a.queue in IsBalanced (hand_out r (record a { queue = q }))
  pop-IsBalanced [] a e h = h
  pop-IsBalanced (x ∷ l) a e h =
      let k : length a.queue.items ≡ length l + 1 = rw e (omega arith) in
      let b = h.bounded in
      record {
        roomy = h.roomy;
        bounded = omega arith;
        single = h.single;
        balanced = λ m. omega (arith, h.balanced m);
      }

  pub step-IsBalanced : (c : Call A) (a : Account A) → IsBalanced a → IsBalanced (step c a)
  unfolding offer take take_dropped abandon close
  step-IsBalanced (offers x) a h = offer_unless-IsBalanced a.queue.closed x a _ h
  step-IsBalanced takes a h = pop-IsBalanced a.queue.items a refl h
  step-IsBalanced takes_dropped a h = record {
    roomy = h.roomy;
    bounded = h.bounded;
    single = h.single;
    balanced = λ m. omega (arith, h.balanced m);
  }
  step-IsBalanced abandons a h = record {
    roomy = h.roomy;
    bounded = omega arith;
    single = h.single;
    balanced = λ m. omega (arith, h.balanced m);
  }
  step-IsBalanced closes a h = record {
    roomy = h.roomy;
    bounded = h.bounded;
    single = h.single;
    balanced = h.balanced;
  }

  run-IsBalanced : (cs : List (Call A)) (a : Account A) → IsBalanced a → IsBalanced (run cs a)
  unfolding run
  run-IsBalanced [] a h = h
  run-IsBalanced (c ∷ cs) a h = run-IsBalanced cs (step c a) (step-IsBalanced c a h)

-- a queue that a constructor returned starts balanced
pub StartsBalanced {ℓ} : {A : Type ℓ} → Result (ObservationQueue A) → Type ℓ
StartsBalanced (ok q) = IsBalanced (opening q)
StartsBalanced (err e) = Unit

pub new-StartsBalanced {ℓ} :
    (A : Type ℓ) (n : ℕ) (p : DropPolicy) → StartsBalanced {A = A} (new n p)
unfolding new StartsBalanced
new-StartsBalanced A zero p = tt
new-StartsBalanced A (suc n) latest_only = record {
  roomy = omega arith;
  bounded = omega arith;
  single = λ _. refl;
  balanced = λ m. absurd (m refl);
}
new-StartsBalanced A (suc n) drop_newest = record {
  roomy = omega arith;
  bounded = omega arith;
  single = λ e. absurd (cc);
  balanced = λ _. refl;
}
new-StartsBalanced A (suc n) drop_oldest = record {
  roomy = omega arith;
  bounded = omega arith;
  single = λ e. absurd (cc);
  balanced = λ _. refl;
}

same-IsBalanced {ℓ} :
    {A : Type ℓ} (q q' : ObservationQueue A)
    → q ≡ q'
    → IsBalanced (opening q)
    → IsBalanced (opening q')
same-IsBalanced q q' e h = rw⁻¹ e h

pub IsBalanced-of {ℓ} :
    {A : Type ℓ} (r : Result (ObservationQueue A)) (q : ObservationQueue A)
    → r ≡ ok q
    → StartsBalanced r
    → IsBalanced (opening q)
unfolding StartsBalanced
IsBalanced-of (ok q') q e h = same-IsBalanced q' q (cc) h
IsBalanced-of (err x) q e h = absurd (cc)

-- After any sequence of calls on a queue that the constructor made, the queue holds no more than its
-- capacity, a LATEST_ONLY queue no more than one item; and unless it is LATEST_ONLY, what was offered
-- while it was open is what was taken, is queued, or was dropped, reported or not.
pub queue_balances {ℓ} :
    {A : Type ℓ} (n : ℕ) (p : DropPolicy) (q : ObservationQueue A) (cs : List (Call A))
    → new n p ≡ ok q
    → IsBalanced (run cs (opening q))
queue_balances {A} n p q cs e =
    run-IsBalanced cs (opening q) (IsBalanced-of (new n p) q e (new-StartsBalanced A n p))
