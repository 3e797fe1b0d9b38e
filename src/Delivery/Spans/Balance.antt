-- ===== src/Delivery/Spans/Balance.antt =====
-- Every span of a consumer is ended.
use huma.Base.{
  ℕ, suc, ◌+◌, ◌≡◌, refl, Bool, true, false, List, [], ◌∷◌, ◌++◌, none, some, arith, ◌&&◌,
  Bool-cases, inl, inr,
}
use huma.Amqp.{Delivery, Event, received_inc, heart_beat_msg}
use huma.Config.Queue.{QueueConfig}
use huma.Delivery.Retries.{handlings-process}
use huma.Delivery.{
  HandlerEnd, returned, panicked, Services, handlings, is_heartbeat_dummy_message, receive_delivery,
  consume, Input, done, messages_closed, heartbeat_due, delivery,
}
use huma.Delivery.Spans.{
  Propagator, SpanEvent, span_started, error_recorded, span_ended, error_of_handler, delivery_spans,
  receive_spans, consume_spans,
}

-- How many spans a list starts and ends; `waiting` are the spans that are open before it, and a span
-- is ended before the next one starts.
abbrev pub started : List SpanEvent → ℕ
started [] = 0
started (span_started _ _ ∷ es) = suc (started es)
started (_ ∷ es) = started es

abbrev pub IsNested : Bool → List SpanEvent → Type 0
IsNested open_one [] = open_one ≡ false
IsNested open_one (span_started _ _ ∷ es) = (open_one ≡ false) × IsNested true es
IsNested open_one (error_recorded ∷ es) = (open_one ≡ true) × IsNested true es
IsNested open_one (span_ended ∷ es) = (open_one ≡ true) × IsNested false es

module _ (p : Propagator) (s : Services) (handler : ℕ) (q : QueueConfig) where
  started-append : (es fs : List SpanEvent) → started (es ++ fs) ≡ started es + started fs
  started-append [] fs = omega arith
  started-append (span_started _ _ ∷ es) fs = omega (arith, started-append es fs)
  started-append (error_recorded ∷ es) fs = started-append es fs
  started-append (span_ended ∷ es) fs = started-append es fs

  end-IsNested :
      (r : HandlerEnd) (es : List SpanEvent)
      → IsNested false es
      → IsNested true ((error_of_handler r ++ span_ended ∷ []) ++ es)
  unfolding error_of_handler
  end-IsNested (returned none) es h = (refl, h)
  end-IsNested (returned (some e)) es h = (refl, (refl, h))
  end-IsNested panicked es h = (refl, (refl, h))

  end_started : (r : HandlerEnd) → started (error_of_handler r ++ span_ended ∷ []) ≡ 0
  unfolding error_of_handler
  end_started (returned none) = refl
  end_started (returned (some e)) = refl
  end_started panicked = refl

  receive-IsNested :
      (d : Delivery) (l : List Event) (es : List SpanEvent)
      → IsNested false es
      → IsNested false (receive_spans true p s handler q d l ++ es)
  unfolding receive_spans delivery_spans
  receive-IsNested d l es h =
      elim (Bool-cases (q.dummy_message_enabled && is_heartbeat_dummy_message d)) [
        | inl own ↦ rw (own, receive_spans) h
        | inr other ↦ rw (other, receive_spans) (refl, end-IsNested _ es h)
      ]

  receive_started :
      (d : Delivery) (l : List Event)
      → started (receive_spans true p s handler q d l) + handlings l
        ≡ handlings (receive_delivery s handler q d l)
  unfolding receive_spans delivery_spans receive_delivery
  receive_started d l =
      elim (Bool-cases (q.dummy_message_enabled && is_heartbeat_dummy_message d)) [
        | inl own ↦ rw (own, receive_spans, receive_delivery) (omega arith)
        | inr other ↦
            rw (other, receive_spans, receive_delivery)
              (omega (
                arith,
                end_started (s.answer (received_inc q.name ∷ l) handler d),
                handlings-process s suc handler q d (received_inc q.name ∷ l),
              ))
      ]

  -- With tracing, a consumer starts as many spans as it calls its handler, one for each delivery that
  -- is no heartbeat of its own, and ends each, also after an error or a panic, before it starts the
  -- next one.
  pub consume_spans-IsNested :
      (inputs : List Input) (l : List Event)
      → IsNested false (consume_spans true p s handler q inputs l)
        × (started (consume_spans true p s handler q inputs l) + handlings l
            ≡ handlings (consume s handler q inputs l))
  unfolding consume_spans consume
  consume_spans-IsNested [] l = (refl, omega arith)
  consume_spans-IsNested (done ∷ rest) l = (refl, omega arith)
  consume_spans-IsNested (messages_closed ∷ rest) l = (refl, omega arith)
  consume_spans-IsNested (heartbeat_due ∷ rest) l =
      let (nested, counted) = consume_spans-IsNested rest _ in
      (nested, ground (arith, counted, s.handles_nothing l "" q.name heart_beat_msg))
  consume_spans-IsNested (delivery d ∷ rest) l =
      let l' = receive_delivery s handler q d l in
      let (nested, counted) = consume_spans-IsNested rest l' in
      (
        receive-IsNested d l _ nested,
        omega (
          arith,
          counted,
          receive_started d l,
          started-append (receive_spans true p s handler q d l)
              (consume_spans true p s handler q rest l'),
        ),
      )
