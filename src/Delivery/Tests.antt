-- ===== src/Delivery/Tests.antt =====
-- A delivery whose handler fails, and one whose handler panics, on queues with and without retries.
use huma.Base.{
  Option, true, ap, total, ℕ, suc, ◌+◌, ◌≡◌, ◌≢◌, ◌⊎◌, refl, false, List, [], ◌∷◌, none, some,
  arith,
}
use huma.Go.Errors.{external}
use huma.Go.Table.{Value, Table, other, lookup-insert, str, lookup, insert}
use huma.Amqp.{Publishing, Delivery, Event, heart_beat_msg}
use huma.Config.Tests.{orders}
use huma.Delivery.{
  copy_table, Settlement, ack, nack, settlements, handlings, returned, Services, retry_count_header,
  delivery_retry_count, process_delivery, consume, done, delivery,
}
use huma.Publish.Tests.{quick, client}
use huma.Publish.{Client, publishing_of}
use huma.Message.{zero_message}
use huma.Delivery.Workers.{Move, worked, arrived, message_received, moves}
use huma.Delivery.Workers.Sharing.{count, tags_of, holds, start, moves_settle_each}
use huma.Delivery.Redelivery.{retried}
use huma.Delivery.Spans.{Propagator, SpanEvent, span_started, delivery_spans, consume_spans}
use huma.Delivery.Spans.Balance.{IsNested, started, consume_spans-IsNested}
use huma.Delivery.Spans.Parents.{delivery_spans-retried}
use huma.Publisher.{act}
use huma.Publisher.Progress.{drive}
use huma.Publisher.Solo.{publish_amqp, call}
use huma.Delivery.Confirmed.{over, IsPassedOn, process_delivery-IsPassedOn}
use huma.Delivery.Verdicts.{Judged, process_delivery-Judged, tags}
use huma.Delivery.Retries.{HasUniqueKeys, life, life_bounded}

-- Every handler fails, and every publish is confirmed.
abbrev pub failing : Services
failing = record {
  answer = λ _ _ _. returned (some (external 1));
  refused = λ _ _. none;
  publish_amqp = λ l _ _ _. (none, l);
  settles_nothing = λ l _ _ _. refl;
  handles_nothing = λ l _ _ _. refl;
}

abbrev message : Publishing
message = record heart_beat_msg { headers = ("x-app-id", str "shop") ∷ [] }

abbrev pub first : Delivery
first = record {
  message = message;
  delivery_tag = 1;
  delivery_exchange = "";
  delivery_routing_key = "orders";
}

process_delivery-Judged_example :
    ((failing.answer [] 0 first ≡ returned none)
      × (settlements (process_delivery failing 0 first orders []) ≡ ack 1 ∷ []))
    ⊎ ((failing.answer [] 0 first ≢ returned none)
        × ((m : List Event) × (settlements m ≡ [])
            × Judged failing first orders m (process_delivery failing 0 first orders [])))
process_delivery-Judged_example = process_delivery-Judged failing first orders 0 []

-- The queue allows three redeliveries: the message is processed four times.
life_bounded_example :
    (handlings (life failing suc 0 orders 5 first []) ≡ 4 + 0)
    × ((tag : ℕ) × (rest : List Settlement) × (settlements (life failing suc 0 orders 5 first [])
          ≡ nack tag false ∷ rest))
unfolding delivery_retry_count lookup
life_bounded_example =
    life_bounded failing suc 0 orders (λ l d e. cc) (λ l x k p. refl) 3 5 0 2 first [] (omega arith)
      refl refl refl

-- The retry copy of the first delivery is published on a pool where everything succeeds.
process_delivery-IsPassedOn_example :
    IsPassedOn quick failing first orders (process_delivery (over quick failing) 0 first orders [])
unfolding process_delivery publish_amqp call act drive copy_table lookup insert delivery_retry_count
process_delivery-IsPassedOn_example =
    process_delivery-IsPassedOn quick failing first orders 0 [] (λ e. cc) refl

-- Two goroutines: the first takes the first delivery, the second the second one and settles it.
abbrev shared_work : List Move
shared_work =
    arrived first
    ∷ worked 0 message_received
    ∷ arrived (record first { delivery_tag = 2 })
    ∷ worked 1 message_received
    ∷ worked 1 message_received
    ∷ worked 0 message_received
    ∷ worked 1 message_received
    ∷ worked 1 message_received
    ∷ []

moves_settle_each_example :
    let y = moves failing 0 orders (start 2) shared_work in
    count 2 (tags y.shared.log) + count 2 (tags_of y.shared.messages) + total (holds 2) y.workers
    ≡ count 2 (1 ∷ 2 ∷ [])
moves_settle_each_example = moves_settle_each failing 0 orders 2 shared_work 2

-- A propagator of one header.
abbrev pub span_of : Option Value → Option ℕ
span_of (some (other k)) = some k
span_of _ = none

traceparent-other : "traceparent" ≢ retry_count_header
traceparent-other e = cc e

reads_back :
    (k : ℕ) (t : Table) → span_of (lookup "traceparent" (insert "traceparent" (other k) t)) ≡ some k
reads_back k t = ap span_of (lookup-insert "traceparent" "traceparent" (other k) t)

abbrev propagator : Propagator
propagator = record {
  inject = λ k t. insert "traceparent" (other k) t;
  extract = λ t. span_of (lookup "traceparent" t);
  extract-inject = reads_back;
  extract_others = λ t u h. ap span_of (h "traceparent" traceparent-other);
}

consume_spans-IsNested_example :
    IsNested false (consume_spans true propagator failing 0 orders (delivery first ∷ done ∷ []) [])
    × (started (consume_spans true propagator failing 0 orders (delivery first ∷ done ∷ []) []) + 0
        ≡ handlings (consume failing 0 orders (delivery first ∷ done ∷ []) []))
consume_spans-IsNested_example =
    consume_spans-IsNested propagator failing 0 orders (delivery first ∷ done ∷ []) []

abbrev traced_client : Client
traced_client = record client {
  enable_tracing = true;
  has_span = λ _. true;
  inject = λ _ t. insert "traceparent" (other 9) t;
}

abbrev traced_delivery : Delivery
traced_delivery = record first { message = publishing_of traced_client [] zero_message }

traced_delivery-HasUniqueKeys : HasUniqueKeys traced_delivery.headers
unfolding publishing_of insert lookup
traced_delivery-HasUniqueKeys = (refl, tt)

delivery_spans-retried_example :
    (rest : List SpanEvent) × (delivery_spans true propagator failing 0 orders
        (retried (2 ∷ 3 ∷ []) traced_delivery)
        []
      ≡ span_started (some 9) "orders" ∷ rest)
delivery_spans-retried_example =
    delivery_spans-retried propagator traced_client failing 0 orders 9 zero_message traced_delivery
      (2 ∷ 3 ∷ []) [] [] refl refl refl refl traced_delivery-HasUniqueKeys
