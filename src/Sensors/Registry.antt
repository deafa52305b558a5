-- ===== src/Sensors/Registry.antt =====
-- The list of observers of a sensor of sensor/base.py: each observer stands in it once.
use mathlib.Core.Path.{subst}
use auto_weaver.Prelude.{
  ℕ, ◌≡◌, refl, sym, ap, ◌∙◌, Bool, true, false, Option, List, [], ◌∷◌, ◌++◌, arith, ◌==◌, nat_eq,
  if◌then◌else◌,
}
use auto_weaver.Value.{Result, ok, err}
use auto_weaver.Delivery.{DropPolicy, ObservationQueue}
use auto_weaver.Sensors.{
  ObserverSpeed, Observation, Entry, Sensor, has_observer, delivery_for, append_entry, add_with,
  add_observer, without_observer, remove_observer, set_slow_dispatcher,
}

-- a call that changes who observes
pub data Call : Type 0 where
  adds : ℕ → ObserverSpeed → Option ℕ → Option DropPolicy → Call
  removes : ℕ → Call
  sets_dispatcher : Bool → Call

abbrev pub perform : Call → Sensor → Sensor
perform (adds n speed capacity policy) s = (add_observer n speed capacity policy s).1
perform (removes n) s = remove_observer n s
perform (sets_dispatcher given) s = set_slow_dispatcher given s

unfoldable pub perform_all : List Call → Sensor → Sensor
perform_all [] s = s
perform_all (c ∷ cs) s = perform_all cs (perform c s)

abbrev pub IsDistinct : List Entry → Type 0
IsDistinct [] = Unit
IsDistinct (e ∷ es) = (has_observer e.observer es ≡ false) × IsDistinct es

has_observer-append :
    (n : ℕ) (es : List Entry) (e : Entry)
    → has_observer n (es ++ e ∷ []) ≡ (if has_observer n es then true else e.observer == n)
unfolding has_observer
has_observer-append n [] e = ground arith
has_observer-append n (e' ∷ es) e = ground (arith, has_observer-append n es e)

append-IsDistinct :
    (es : List Entry) (e : Entry)
    → IsDistinct es
    → has_observer e.observer es ≡ false
    → IsDistinct (es ++ e ∷ [])
unfolding has_observer
append-IsDistinct [] e d h = (refl, tt)
append-IsDistinct (e' ∷ es) e (a, d) h = (
  ground (arith, has_observer-append e'.observer es e, a, h),
  append-IsDistinct es e d (ground (arith, h)),
)

-- an observer that is not there is not there without another
has_observer-without_observer :
    (n m : ℕ) (es : List Entry)
    → has_observer n es ≡ false
    → has_observer n (without_observer m es) ≡ false
unfolding has_observer without_observer
has_observer-without_observer n m [] h = refl
has_observer-without_observer n m (e ∷ es) h =
    let there : has_observer n es ≡ false → has_observer n (without_observer m es) ≡ false =
      has_observer-without_observer n m es in
    ground (arith, h, there)

without_observer-IsDistinct :
    (n : ℕ) (es : List Entry)
    → IsDistinct es
    → IsDistinct (without_observer n es) × (has_observer n (without_observer n es) ≡ false)
unfolding has_observer without_observer
without_observer-IsDistinct n [] d = (tt, refl)
without_observer-IsDistinct n (e ∷ es) (a, d) =
    let rest = without_observer n es in
    let (b, gone) = without_observer-IsDistinct n es d in
    elim (e.observer == n)
        as (λ b.
          (e.observer == n) ≡ b
          → IsDistinct (if b then es else e ∷ rest)
            × (has_observer n (if b then es else e ∷ rest) ≡ false)) [
              | true ↦ λ q.
                  let same : e.observer ≡ n = ground (arith, q) in
                  (d, ap (λ m. has_observer m es) (sym same) ∙ a)
              | false ↦ λ q.
                  ((has_observer-without_observer e.observer n es a, b), ground (arith, q, gone))
            ]
      refl

append_entry-IsDistinct :
    (b : Bool) (e : Entry) (s : Sensor)
    → has_observer e.observer s.entries ≡ b
    → IsDistinct s.entries
    → IsDistinct (append_entry b e s).entries
append_entry-IsDistinct true e s q d = d
append_entry-IsDistinct false e s q d = append-IsDistinct s.entries e d q

add_with-IsDistinct :
    (x : Result (Option (ObservationQueue Observation))) (n : ℕ) (speed : ObserverSpeed)
    (s : Sensor)
    → IsDistinct s.entries
    → IsDistinct (add_with x n speed s).1.entries
add_with-IsDistinct (err e) n speed s d = d
add_with-IsDistinct (ok q) n speed s d =
    append_entry-IsDistinct (has_observer n s.entries)
      (record { observer = n; speed = speed; delivery = q }) s refl d

perform-IsDistinct :
    (c : Call) (s : Sensor) → IsDistinct s.entries → IsDistinct (perform c s).entries
unfolding add_observer remove_observer set_slow_dispatcher
perform-IsDistinct (adds n speed capacity policy) s d =
    add_with-IsDistinct (delivery_for capacity policy speed s.has_dispatcher) n speed s d
perform-IsDistinct (removes n) s d = (without_observer-IsDistinct n s.entries d).0
perform-IsDistinct (sets_dispatcher given) s d = d

perform_all-IsDistinct :
    (cs : List Call) (s : Sensor) → IsDistinct s.entries → IsDistinct (perform_all cs s).entries
unfolding perform_all
perform_all-IsDistinct [] s d = d
perform_all-IsDistinct (c ∷ cs) s d =
    perform_all-IsDistinct cs (perform c s) (perform-IsDistinct c s d)

-- After any additions, also of the same observer twice, removals and changes of the dispatcher, from a
-- sensor that nobody observes: each observer is in the list once, and one that is removed is not in
-- it any more.
removed_is_gone :
    (cs : List Call) (n : ℕ) (s : Sensor)
    → s.entries ≡ []
    → let s' = perform_all cs s in
      IsDistinct s'.entries × (has_observer n (remove_observer n s').entries ≡ false)
unfolding remove_observer
removed_is_gone cs n s e =
    let d = perform_all-IsDistinct cs s (subst IsDistinct (sym e) tt) in
    (d, (without_observer-IsDistinct n (perform_all cs s).entries d).1)
