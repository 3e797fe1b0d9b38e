-- ===== src/Delivery/Spans.antt =====
-- rabbitmqsdk.go, the tracing of a consumer: the span that `consume` starts for a delivery, with the
-- parent that the propagator finds in its headers, and what `processDelivery` records on it.
pub mod Balance
pub mod Parents
use huma.Base.{
  ℕ, zero, suc, ◌+◌, String, ◌≡◌, ◌≢◌, refl, Bool, true, false, List, [], ◌∷◌, ◌++◌, Option, none,
  some, arith, if◌then◌else◌, ◌&&◌, Bool-cases, inl, inr,
}
use huma.Go.Table.{Table, lookup}
use huma.Amqp.{Delivery, Event, received_inc, acked, heart_beat_msg}
use huma.Config.Queue.{QueueConfig}
use huma.Delivery.Retries.{handlings-process}
use huma.Delivery.{
  HandlerEnd, returned, panicked, Services, handlings, retry_count_header,
  is_heartbeat_dummy_message, receive_delivery, consume, process_delivery, Input, done,
  messages_closed, heartbeat_due, delivery,
}

-- OpenTelemetry's TextMapPropagator on the header carrier. A span context has a number. What was
-- injected is extracted, and the header that counts retries is none of the propagator's.
pub record Propagator : Type 0 where
  pub inject : ℕ → Table → Table
  pub extract : Table → Option ℕ
  pub extract-inject : (k : ℕ) (t : Table) → extract (inject k t) ≡ some k
  pub extract_others :
      (t u : Table)
      → ((j : String) → j ≢ retry_count_header → lookup j t ≡ lookup j u)
      → extract t ≡ extract u

-- Start with the parent and the queue; RecordError with SetStatus; End.
pub data SpanEvent : Type 0 where
  span_started : Option ℕ → String → SpanEvent
  error_recorded span_ended : SpanEvent

error_of_handler : HandlerEnd → List SpanEvent
error_of_handler (returned none) = []
error_of_handler (returned (some e)) = error_recorded ∷ []
error_of_handler panicked = error_recorded ∷ []

-- The spans come in their order. `l` is the log when the delivery is received.
module _ (enable_tracing : Bool) (p : Propagator) (s : Services) (handler : ℕ)
    (q : QueueConfig) where
  pub delivery_spans : Delivery → List Event → List SpanEvent
  unfolding error_of_handler
  delivery_spans d l =
      if enable_tracing
      then span_started (p.extract d.headers) q.name
        ∷ (error_of_handler (s.answer (received_inc q.name ∷ l) handler d) ++ span_ended ∷ [])
      else []

  receive_spans : Delivery → List Event → List SpanEvent
  unfolding delivery_spans
  receive_spans d l =
      if q.dummy_message_enabled && is_heartbeat_dummy_message d then [] else delivery_spans d l

  pub consume_spans : List Input → List Event → List SpanEvent
  unfolding receive_spans
  consume_spans [] l = []
  consume_spans (done ∷ rest) l = []
  consume_spans (messages_closed ∷ rest) l = []
  consume_spans (delivery d ∷ rest) l =
      receive_spans d l ++ consume_spans rest (receive_delivery s handler q d l)
  consume_spans (heartbeat_due ∷ rest) l =
      consume_spans rest
        (if q.dummy_message_enabled then (s.publish_amqp l "" q.name heart_beat_msg).1 else l)
