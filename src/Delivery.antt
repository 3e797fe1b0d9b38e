-- ===== src/Delivery.antt =====
-- rabbitmqsdk.go, the consumer's side: what `processDelivery` and `handleDeliveryFailure` do with
-- one delivery, and the loop of `consume`. Logging and tracing spans are left out. Publishing comes
-- in through an interface, since it shares the pool with every other goroutine.
mod Tests
pub mod Verdicts
pub mod Retries
pub mod Confirmed
pub mod Redelivery
pub mod Workers
pub mod Spans
use huma.Base.{
  ℕ, suc, String, Bool, true, false, List, [], ◌∷◌, Option, none, some, ℤ, pos, suc_ℤ, ltb_ℤ, ◌==ℤ◌,
  ◌&&◌, str_eq, if◌then◌else◌, ◌≡◌,
}
use huma.Go.Errors.{Error}
use huma.Go.Table.{Table, Value, int, int32, int64, str, lookup, insert}
use huma.Amqp.{
  Publishing, Delivery, Event, handled, acked, nacked, received_inc, processing_observed, acked_inc,
  nacked_inc, heart_beat_msg,
}
use huma.Config.Queue.{QueueConfig}

-- The settlements of a log, newest first: the tag, and for a Nack whether it requeues.
pub data Settlement : Type 0 where
  ack : ℕ → Settlement
  nack : ℕ → Bool → Settlement

abbrev pub settlements : List Event → List Settlement
settlements [] = []
settlements (acked tag ∷ l) = ack tag ∷ settlements l
settlements (nacked tag requeue ∷ l) = nack tag requeue ∷ settlements l
settlements (_ ∷ l) = settlements l

-- How often a log calls a handler.
abbrev pub handlings : List Event → ℕ
handlings [] = 0
handlings (handled _ _ ∷ l) = suc (handlings l)
handlings (_ ∷ l) = handlings l

-- How a call of a handler ends: it returns an error or nil, or it panics.
pub data HandlerEnd : Type 0 where
  returned : Option Error → HandlerEnd
  panicked : HandlerEnd

-- What the consumer's goroutine relies on. `answer` is the environment's reply to the handler, and
-- `refused` the error of `d.Ack` or `d.Nack`, each by the log so far. `publish_amqp` returns its
-- error and the log that it leaves; the laws say that it settles no delivery and calls no
-- handler.
pub record Services : Type 0 where
  pub answer : List Event → ℕ → Delivery → HandlerEnd
  pub refused : List Event → Event → Option Error
  pub publish_amqp : List Event → String → String → Publishing → Option Error × List Event
  pub settles_nothing :
      (l : List Event) (exchange routing_key : String) (p : Publishing)
      → settlements (publish_amqp l exchange routing_key p).1 ≡ settlements l
  pub handles_nothing :
      (l : List Event) (exchange routing_key : String) (p : Publishing)
      → handlings (publish_amqp l exchange routing_key p).1 ≡ handlings l

abbrev pub retry_count_header : String
retry_count_header = "x-huma-redelivery-count"

-- The type switch; the conversions to `int`, of 64 bits, keep the value.
count_of : Option Value → ℤ
count_of (some (int n)) = n
count_of (some (int32 n)) = n
count_of (some (int64 n)) = n
count_of _ = pos 0

pub delivery_retry_count : Table → ℤ
unfolding count_of
delivery_retry_count headers = count_of (lookup retry_count_header headers)

-- The loop that copies the headers into a new table.
unfoldable pub copy_table : Table → Table → Table
copy_table [] t = t
copy_table ((k, v) ∷ m) t = copy_table m (insert k v t)

-- The copy that is published for a retry. It carries the count, and the fields that are named.
pub retry_publishing : Delivery → Publishing
retry_publishing d = record {
  headers =
      insert retry_count_header (int64 (suc_ℤ (delivery_retry_count d.headers)))
        (copy_table d.headers []);
  content_type = d.content_type;
  content_encoding = d.content_encoding;
  delivery_mode = d.delivery_mode;
  priority = d.priority;
  correlation_id = d.correlation_id;
  reply_to = d.reply_to;
  expiration = d.expiration;
  message_id = d.message_id;
  timestamp = d.timestamp;
  type_name = d.type_name;
  user_id = d.user_id;
  app_id = d.app_id;
  body = d.body;
}

-- Whether a header is the text of the heartbeat: `==` on interface values.
is_heartbeat : Option Value → Bool
is_heartbeat (some (str t)) = str_eq t "heartbeat"
is_heartbeat _ = false

pub is_heartbeat_dummy_message : Delivery → Bool
unfolding is_heartbeat
is_heartbeat_dummy_message d = is_heartbeat (lookup "type" d.headers)

-- What the select of `consume` can receive.
pub data Input : Type 0 where
  done messages_closed heartbeat_due : Input
  delivery : Delivery → Input

module _ (s : Services) where
  open s use {answer, refused, publish_amqp}

  -- d.Ack(false) and d.Nack(false, requeue), and the metric that follows if there is no error.
  settle : Event → Event → List Event → List Event
  settle call metric l = elim (refused l call) [ none ↦ metric ∷ call ∷ l | some e ↦ call ∷ l ]

  give_up : Delivery → QueueConfig → Bool → List Event → List Event
  unfolding settle
  give_up d q requeue = settle (nacked d.delivery_tag requeue) (nacked_inc q.name)

  -- After the retry was published, or not.
  after_retry : Delivery → QueueConfig → Option Error × List Event → List Event
  unfolding settle give_up
  after_retry d q (none, l) = settle (acked d.delivery_tag) (nacked_inc q.name) l
  after_retry d q (some e, l) = give_up d q true l

  pub handle_delivery_failure : Delivery → QueueConfig → List Event → List Event
  unfolding after_retry
  handle_delivery_failure d q l =
      if ltb_ℤ (pos 0) q.max_redelivery
      then (if ltb_ℤ (delivery_retry_count d.headers) q.max_redelivery
          then after_retry d q
              (publish_amqp l d.delivery_exchange d.delivery_routing_key (retry_publishing d))
          else give_up d q false l)
      else give_up d q (q.max_redelivery ==ℤ pos 0) l

  -- The deferred function observes the duration after the body; on a panic it does so before it
  -- treats the failure.
  pub process_delivery : ℕ → Delivery → QueueConfig → List Event → List Event
  unfolding handle_delivery_failure
  process_delivery handler d q l =
      let ran = handled handler d ∷ l in
      elim (answer l handler d) [
        | returned none ↦
            processing_observed q.name ∷ settle (acked d.delivery_tag) (acked_inc q.name) ran
        | returned (some e) ↦ processing_observed q.name ∷ handle_delivery_failure d q ran
        | panicked ↦ handle_delivery_failure d q (processing_observed q.name ∷ ran)
      ]

  -- One turn of the select of `consume` on a delivery. A heartbeat of its own is acknowledged.
  receive_delivery : ℕ → QueueConfig → Delivery → List Event → List Event
  unfolding process_delivery
  receive_delivery handler q d l =
      if q.dummy_message_enabled && is_heartbeat_dummy_message d
      then acked d.delivery_tag ∷ l
      else process_delivery handler d q (received_inc q.name ∷ l)

  -- The loop of `consume`, over what its select receives; it ends with `done` or a closed channel.
  -- Without dummy messages there is no ticker, and its nil channel never fires.
  pub consume : ℕ → QueueConfig → List Input → List Event → List Event
  unfolding receive_delivery
  consume handler q [] l = l
  consume handler q (done ∷ rest) l = l
  consume handler q (messages_closed ∷ rest) l = l
  consume handler q (delivery d ∷ rest) l = consume handler q rest (receive_delivery handler q d l)
  consume handler q (heartbeat_due ∷ rest) l =
      consume handler q rest
        (if q.dummy_message_enabled then (publish_amqp l "" q.name heart_beat_msg).1 else l)
