-- ===== src/Sensors/Observers.antt =====
-- The observers of a sensor of sensor/base.py.
use auto_weaver.Prelude.{
  ℕ, ◌≡◌, refl, sym, ap, ◌∙◌, Bool, true, false, Option, none, some, List, [], ◌∷◌, ◌++◌, map,
  append-nil, append_assoc,
}
use auto_weaver.Delivery
use auto_weaver.Delivery.{ObservationQueue}
use auto_weaver.Sensors.{
  ObserverSpeed, fast, slow, Observation, Entry, Reactions, Device, publish_at, publish_to,
}

-- a call of an observer, or a hand-over of it to the dispatcher, with its number
pub data Reaction : Type 0 where
  called handed_over : ℕ → Reaction

-- The same observers and dispatcher, with a record of the reactions.
abbrev pub recorded : {W : Type 0} → Reactions W → Reactions (List Reaction × W)
recorded reactions = record {
  on_observation = λ n o (log, w).
      let (x, w') = reactions.on_observation n o w in (x, (log ++ called n ∷ [], w'));
  dispatch = λ n o (log, w).
      let (x, w') = reactions.dispatch n o w in (x, (log ++ handed_over n ∷ [], w'));
}

-- What an entry asks for: a queued observer nothing but its queue, a slow one the dispatcher, a fast
-- one a call.
abbrev pub reaction_of :
    Option (ObservationQueue Observation) → ObserverSpeed → Bool → ℕ → List Reaction
reaction_of (some q) speed has_dispatcher n = []
reaction_of none slow false n = []
reaction_of none slow true n = handed_over n ∷ []
reaction_of none fast has_dispatcher n = called n ∷ []

abbrev pub reactions_of : List Entry → Bool → List Reaction
reactions_of [] has_dispatcher = []
reactions_of (e ∷ es) has_dispatcher =
    reaction_of e.delivery e.speed has_dispatcher e.observer ++ reactions_of es has_dispatcher

abbrev pub offered : Observation → Option (ObservationQueue Observation) → Entry → Entry
offered o none e = e
offered o (some q) e = record e { delivery = some (Delivery.offer o q).1 }

module _ {W : Type 0} (device : Device (List Reaction × W)) (reactions : Reactions W) where
  publish_at_lem :
      (d : Option (ObservationQueue Observation)) (speed : ObserverSpeed) (h : Bool) (e : Entry)
      (o : Observation) (log : List Reaction) (w : W)
      → let (e', (log', w')) = publish_at device (recorded reactions) d speed h e o (log, w) in
        (e' ≡ offered o d e) × (log' ≡ log ++ reaction_of d speed h e.observer)
  publish_at_lem (some q) speed h e o log w = (refl, sym (append-nil log))
  publish_at_lem none slow false e o log w = (refl, sym (append-nil log))
  publish_at_lem none slow true e o log w = (refl, refl)
  publish_at_lem none fast h e o log w = (refl, refl)

-- An observation that is published reaches every observer once, in the order of their registration,
-- whatever observers and dispatchers raise: a fast one by a call, a slow one through the dispatcher if
-- there is one, and one with a queue by an offer to it and by nothing else.
pub publish_to_lem :
    {W : Type 0} (device : Device (List Reaction × W)) (reactions : Reactions W) (es : List Entry)
    (h : Bool) (o : Observation) (log : List Reaction) (w : W)
    → let (es', (log', w')) = publish_to device (recorded reactions) es h o (log, w) in
      (es' ≡ map (λ e. offered o e.delivery e) es) × (log' ≡ log ++ reactions_of es h)
unfolding publish_to
publish_to_lem device reactions [] h o log w = (refl, sym (append-nil log))
publish_to_lem device reactions (e ∷ es) h o log w =
    let (e', (log1, w1)) =
      publish_at device (recorded reactions) e.delivery e.speed h e o (log, w) in
    let (a, b) = publish_at_lem device reactions e.delivery e.speed h e o log w in
    let (c, d) = publish_to_lem device reactions es h o log1 w1 in
    let first = reaction_of e.delivery e.speed h e.observer in
    (
      ap (λ x. x ∷ (publish_to device (recorded reactions) es h o (log1, w1)).0) a
          ∙ ap (λ l. offered o e.delivery e ∷ l) c,
      d ∙ ap (λ l. l ++ reactions_of es h) b ∙ append_assoc log first (reactions_of es h),
    )
