-- ===== src/Delivery/Verdicts.antt =====
-- Every delivery that a consumer takes is settled exactly once, by the outcome of its handler.
use mathlib.Core.List.{reverse, reverse-cons, append_assoc}
use huma.Base.{
  Bool-cases, if◌then◌else◌, ◌&&◌, ℕ, ◌≡◌, ◌≢◌, ◌⊎◌, inl, inr, refl, ◌∙◌, ap, true, false, List, [],
  ◌∷◌, ◌++◌, none, some, pos, ◌<ℤ◌, ◌≤ℤ◌, arith, map,
}
use huma.Go.Errors.{Error}
use huma.Amqp.{Delivery, Event, handled, processing_observed, received_inc, heart_beat_msg}
use huma.Config.Queue.{QueueConfig}
use huma.Delivery.{
  Settlement, ack, nack, settlements, HandlerEnd, returned, panicked, Services, retry_publishing,
  delivery_retry_count, handle_delivery_failure, process_delivery, receive_delivery, consume, Input,
  done, messages_closed, heartbeat_due, delivery, is_heartbeat_dummy_message,
}

pub HandlerEnd-cases :
    (r : HandlerEnd)
    → (r ≡ returned none) ⊎ ((e : Error) × (r ≡ returned (some e))) ⊎ (r ≡ panicked)
HandlerEnd-cases (returned none) = inl refl
HandlerEnd-cases (returned (some e)) = inr (inl (e, refl))
HandlerEnd-cases panicked = inr (inr refl)

module _ (s : Services) (d : Delivery) (q : QueueConfig) where
  -- The retry copy was published from the log `m`: the broker confirmed it.
  abbrev pub Republished : List Event → Type 0
  Republished m =
      (s.publish_amqp m d.delivery_exchange d.delivery_routing_key (retry_publishing d)).0 ≡ none

  -- A failed delivery is acknowledged only if its copy was published and retries were left.
  abbrev pub Retried : List Event → List Event → Type 0
  Retried m w =
      (settlements w ≡ ack d.delivery_tag ∷ settlements m)
      × (pos 0 <ℤ q.max_redelivery)
      × (delivery_retry_count d.headers <ℤ q.max_redelivery)
      × Republished m

  -- It is requeued if the queue retries for ever, or the copy could not be published.
  abbrev pub Requeued : List Event → List Event → Type 0
  Requeued m w =
      (settlements w ≡ nack d.delivery_tag true ∷ settlements m)
      × ((q.max_redelivery ≡ pos 0) ⊎ ((pos 0 <ℤ q.max_redelivery) × (¬ Republished m)))

  -- It is dropped, or dead-lettered, if the queue does not retry or its retries are used up.
  abbrev pub Dropped : List Event → List Event → Type 0
  Dropped m w =
      (settlements w ≡ nack d.delivery_tag false ∷ settlements m)
      × ((q.max_redelivery <ℤ pos 0)
          ⊎ ((pos 0 <ℤ q.max_redelivery) × (q.max_redelivery ≤ℤ delivery_retry_count d.headers)))

  abbrev pub Judged : List Event → List Event → Type 0
  Judged m w = Retried m w ⊎ Requeued m w ⊎ Dropped m w

  failure-Judged : (m : List Event) → Judged m (handle_delivery_failure s d q m)
  unfolding handle_delivery_failure
  failure-Judged m =
      ground
        (arith, s.settles_nothing m d.delivery_exchange d.delivery_routing_key (retry_publishing d))

  -- Processing a delivery makes one settlement, of that delivery. It is a plain acknowledgement if
  -- the handler returned nil. Otherwise, after an error or a panic alike, it is an acknowledgement
  -- only if retries were left and the copy with the next count was published and confirmed, a
  -- requeue only if the queue retries for ever or the copy could not be published, and a rejection
  -- without requeue only if the queue does not retry or the retries are used up.
  pub process_delivery-Judged :
      (handler : ℕ) (l : List Event)
      → let w = process_delivery s handler d q l in
        ((s.answer l handler d ≡ returned none)
          × (settlements w ≡ ack d.delivery_tag ∷ settlements l))
        ⊎ ((s.answer l handler d ≢ returned none)
            × ((m : List Event) × (settlements m ≡ settlements l) × Judged m w))
  unfolding process_delivery
  process_delivery-Judged handler l = elim (HandlerEnd-cases (s.answer l handler d)) [
    | inl good ↦ rw (good, process_delivery) (inl (refl, ground arith))
    | inr (inl (e, bad)) ↦
        rw (bad, process_delivery)
          (inr (λ h. cc, (handled handler d ∷ l, refl, failure-Judged (handled handler d ∷ l))))
    | inr (inr bad) ↦
        rw (bad, process_delivery)
          (inr (
            λ h. cc,
            (
              processing_observed q.name ∷ handled handler d ∷ l,
              refl,
              failure-Judged (processing_observed q.name ∷ handled handler d ∷ l),
            ),
          ))
  ]

abbrev pub tag_of : Settlement → ℕ
tag_of (ack t) = t
tag_of (nack t _) = t

abbrev pub tags : List Event → List ℕ
tags l = map tag_of (settlements l)

-- The deliveries that a run of `consume` takes: those before it ends.
abbrev pub taken : List Input → List ℕ
taken [] = []
taken (done ∷ _) = []
taken (messages_closed ∷ _) = []
taken (heartbeat_due ∷ rest) = taken rest
taken (delivery d ∷ rest) = d.delivery_tag ∷ taken rest

module _ (s : Services) (handler : ℕ) (q : QueueConfig) where
  tags-process :
      (d : Delivery) (l : List Event)
      → tags (process_delivery s handler d q l) ≡ d.delivery_tag ∷ tags l
  tags-process d l = ground (arith, process_delivery-Judged s d q handler l)

  tags-receive :
      (d : Delivery) (l : List Event)
      → tags (receive_delivery s handler q d l) ≡ d.delivery_tag ∷ tags l
  unfolding receive_delivery
  tags-receive d l = elim (Bool-cases (q.dummy_message_enabled && is_heartbeat_dummy_message d)) [
    | inl own ↦ rw (own, receive_delivery)
    | inr other ↦ rw (other, receive_delivery) (tags-process d (received_inc q.name ∷ l))
  ]

  tags-heartbeat :
      (l : List Event)
      → tags (if q.dummy_message_enabled then (s.publish_amqp l "" q.name heart_beat_msg).1 else l)
        ≡ tags l
  tags-heartbeat l = ground (arith, s.settles_nothing l "" q.name heart_beat_msg)

  -- The settlements of a consumer are those of the deliveries that it took, in their order, each
  -- once: no delivery is left unsettled, and none is settled twice.
  pub tags-consume :
      (inputs : List Input) (l : List Event)
      → tags (consume s handler q inputs l) ≡ reverse (taken inputs) ++ tags l
  unfolding consume
  tags-consume [] l = refl
  tags-consume (done ∷ rest) l = refl
  tags-consume (messages_closed ∷ rest) l = refl
  tags-consume (heartbeat_due ∷ rest) l =
      tags-consume rest _ ∙ ap (λ t. reverse (taken rest) ++ t) (tags-heartbeat l)
  tags-consume (delivery d ∷ rest) l =
      tags-consume rest (receive_delivery s handler q d l)
      ∙ rw (tags-receive, reverse-cons, append_assoc)
