-- ===== src/Delivery/Confirmed.antt =====
-- The consumer over the model of `publishAMQP`: no message is lost on its way to a retry.
use mathlib.Core.Path.{subst}
use huma.Base.{ℕ, ◌≡◌, ◌≢◌, inl, inr, refl, List, [], ◌∷◌, none, arith, ap, ◌∙◌, sym}
use huma.Amqp.{Delivery, Event, handled, processing_observed, acked, nacked}
use huma.Config.Queue.{QueueConfig}
use huma.Publisher.Confirmation.{IsConfirmed}
use huma.Publisher.Solo.{Turns, publish_amqp, job_of}
use huma.Publisher.Solo.Laws.{settles_nothing, handles_nothing, publish_amqp-IsConfirmed}
use huma.Delivery.{
  ack, settlements, returned, Services, retry_publishing, handle_delivery_failure, process_delivery,
}
use huma.Delivery.Verdicts.{HandlerEnd-cases}

-- Services whose `publishAMQP` is the modelled one.
abbrev pub over : Turns → Services → Services
over t s = record s {
  publish_amqp = publish_amqp t;
  settles_nothing = settles_nothing t;
  handles_nothing = handles_nothing t;
}

module _ (t : Turns) (s : Services) (d : Delivery) (q : QueueConfig) where
  -- The newest settlement of the log is an acknowledgement of the delivery, and before it, in what
  -- was logged earlier, stands the confirmation of the retry copy, published with the exchange and
  -- the routing key of the delivery.
  abbrev pub IsPassedOn : List Event → Type 0
  IsPassedOn [] = ⊥
  IsPassedOn (acked tag ∷ earlier) =
      (tag ≡ d.delivery_tag)
      × IsConfirmed (job_of d.delivery_exchange d.delivery_routing_key (retry_publishing d)) earlier
  IsPassedOn (nacked _ _ ∷ _) = ⊥
  IsPassedOn (_ ∷ earlier) = IsPassedOn earlier

  failure_passes :
      (m : List Event)
      → settlements (handle_delivery_failure (over t s) d q m) ≡ ack d.delivery_tag ∷ settlements m
      → IsPassedOn (handle_delivery_failure (over t s) d q m)
  unfolding handle_delivery_failure
  failure_passes m h = ground (
    arith,
    settles_nothing t m d.delivery_exchange d.delivery_routing_key (retry_publishing d),
    publish_amqp-IsConfirmed t m d.delivery_exchange d.delivery_routing_key (retry_publishing d),
  )

  -- When the one settlement of a delivery whose handler failed or panicked is an acknowledgement, the
  -- broker's confirmation of its copy for the retry stands in the log before this acknowledgement.
  pub process_delivery-IsPassedOn :
      (handler : ℕ) (l : List Event)
      → s.answer l handler d ≢ returned none
      → settlements (process_delivery (over t s) handler d q l) ≡ ack d.delivery_tag ∷ settlements l
      → IsPassedOn (process_delivery (over t s) handler d q l)
  unfolding process_delivery
  process_delivery-IsPassedOn handler l bad h = elim (HandlerEnd-cases (s.answer l handler d)) [
    | inl good ↦ absurd (bad good)
    | inr (inl (e, failed)) ↦
        let m = handled handler d ∷ l in
        let same : process_delivery (over t s) handler d q l
            ≡ processing_observed q.name ∷ handle_delivery_failure (over t s) d q m =
          rw (process_delivery, failed) refl in
        subst (λ w. IsPassedOn w) (sym same) (failure_passes m (sym (ap settlements same) ∙ h))
    | inr (inr failed) ↦
        let m = processing_observed q.name ∷ handled handler d ∷ l in
        let same : process_delivery (over t s) handler d q l
            ≡ handle_delivery_failure (over t s) d q m =
          rw (process_delivery, failed) refl in
        subst (λ w. IsPassedOn w) (sym same) (failure_passes m (sym (ap settlements same) ∙ h))
  ]
