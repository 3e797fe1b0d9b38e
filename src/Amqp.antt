-- ===== src/Amqp.antt =====
-- What huma exchanges with the AMQP client (github.com/rabbitmq/amqp091-go, not modelled): the
-- fields of its messages that the program reads or writes, and the calls that the program makes,
-- as a log. A channel is the number that names it. What a call answers is up to the environment.
use huma.Base.{ℕ, String, Bool, List, [], ◌∷◌, Option, none}
use huma.Go.Table.{Table, str}

-- amqp091.Publishing. A time is a number, and `none` the zero time.
pub record Publishing : Type 0 where
  pub headers : Table
  pub content_type : String
  pub content_encoding : String
  pub delivery_mode : ℕ
  pub priority : ℕ
  pub correlation_id : String
  pub reply_to : String
  pub expiration : String
  pub message_id : String
  pub timestamp : Option ℕ
  pub type_name : String
  pub user_id : String
  pub app_id : String
  pub body : List ℕ

-- amqp091.Delivery: a message, with the tag by which it is settled and where it was published.
pub record Delivery : Type 0 where
  pub message : Publishing
  pub open message use *
  pub delivery_tag : ℕ
  pub delivery_exchange : String
  pub delivery_routing_key : String

-- A call that changes something outside the program, with what it was called on.
pub data Event : Type 0 where
  -- conn.Channel, ch.Close, ch.PublishWithDeferredConfirmWithContext, a positive confirmation
  opened closed : ℕ → Event
  published : ℕ → String → String → Publishing → Event
  confirmed : ℕ → String → String → Publishing → Event
  -- pool.interrupt
  interrupted : Event
  -- q.Handler, d.Ack(false), d.Nack(false, requeue)
  handled : ℕ → Delivery → Event
  acked : ℕ → Event
  nacked : ℕ → Bool → Event
  -- the Metrics interface, with the queue's name
  received_inc processing_observed acked_inc nacked_inc : String → Event
  publish_success_inc publish_failed_inc : String → Event

-- The package variable `heartBeatMSG`; its body is the text "heartbeat" in ASCII.
abbrev pub heart_beat_msg : Publishing
heart_beat_msg = record {
  headers = ("type", str "heartbeat") ∷ [];
  content_type = "";
  content_encoding = "";
  delivery_mode = 0;
  priority = 0;
  correlation_id = "";
  reply_to = "";
  expiration = "";
  message_id = "";
  timestamp = none;
  type_name = "";
  user_id = "";
  app_id = "";
  body = b'h' ∷ b'e' ∷ b'a' ∷ b'r' ∷ b't' ∷ b'b' ∷ b'e' ∷ b'a' ∷ b't' ∷ [];
}
