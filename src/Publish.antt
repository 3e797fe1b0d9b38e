-- ===== src/Publish.antt =====
-- rabbitmqsdk.go, the application's side of publishing: `Publish`, `BatchPublish` and
-- `PublishWithDelayDLXTTL`. What they rely on is a record; `publishAMQP` is modelled in Publisher.
-- The messages of a batch are taken as separate objects.
pub mod Tests
pub mod Counting
pub mod Confirmed
pub mod Delayed
pub mod Reuse
use huma.Base.{
  ℕ, String, Bool, true, false, ◌&&◌, List, [], ◌∷◌, Option, none, some, str_eq, if◌then◌else◌, suc,
  ◌≡◌,
}
use Prim.Native.String.{◌++◌}
use huma.Go.Errors.{Error, wrap}
use huma.Go.Result.{Result, ok, err}
use huma.Go.Table.{Table}
use huma.Amqp.{Publishing, Event, publish_success_inc, publish_failed_inc}
use huma.Message.{Message, validate, format_duration_to_expiration, table_of}

-- How many publishes a log counts as a success, and as failed.
abbrev pub successes : List Event → ℕ
successes [] = 0
successes (publish_success_inc _ ∷ l) = suc (successes l)
successes (_ ∷ l) = successes l

abbrev pub failures : List Event → ℕ
failures [] = 0
failures (publish_failed_inc _ ∷ l) = suc (failures l)
failures (_ ∷ l) = failures l

-- By the log so far: what `validateContext` returns, the time, and whether the context carries a
-- valid span. `inject` is the OpenTelemetry propagator on the headers, `inject_headers` the hook of
-- the application, which may return a nil table. The laws say that `publishAMQP` counts nothing.
pub record Client : Type 0 where
  pub context : List Event → Option Error
  pub now : List Event → ℕ
  pub enable_tracing : Bool
  pub has_span : List Event → Bool
  pub inject : List Event → Table → Table
  pub inject_headers : Option (List Event → Table → Option Table)
  pub publish_amqp : List Event → String → String → Publishing → Option Error × List Event
  pub counts_no_success :
      (l : List Event) (x k : String) (p : Publishing)
      → successes (publish_amqp l x k p).1 ≡ successes l
  pub counts_no_failure :
      (l : List Event) (x k : String) (p : Publishing)
      → failures (publish_amqp l x k p).1 ≡ failures l

pub choose_queue_name_label : String → String → String
choose_queue_name_label exchange routing_key =
    if str_eq routing_key "" then exchange else routing_key

pub get_delay_queue_name : String → String
get_delay_queue_name queue_name = queue_name ++ ".delay"

-- The headers of the message after the propagator has written its own into them.
traced_headers : Client → List Event → Table → Table
traced_headers c l headers =
    if c.enable_tracing && c.has_span l then c.inject l headers else headers

-- The headers that are sent.
sent_headers : Client → List Event → Table → Table
unfolding traced_headers
sent_headers c l headers =
    let traced = traced_headers c l headers in
    elim c.inject_headers [ none ↦ traced | some hook ↦ table_of (hook l traced) ]

-- The fields of `amqp091.Publishing` that `Publish` sets; the others are zero.
unfoldable pub publishing_of : Client → List Event → Message → Publishing
unfolding sent_headers
publishing_of c l m = record {
  headers = sent_headers c l (table_of m.headers);
  content_type = m.content_type;
  content_encoding = "";
  delivery_mode = 0;
  priority = m.priority;
  correlation_id = "";
  reply_to = "";
  expiration = format_duration_to_expiration m.expiration;
  message_id = m.message_id;
  timestamp = m.timestamp;
  type_name = "";
  user_id = "";
  app_id = "";
  body = m.body;
}

-- From the call of `publishAMQP` on: the metric, and the error that is returned.
count_publish : String → Option Error × List Event → Option Error × List Event
count_publish label (some e, l) =
    (some (wrap "failed to publish msg on rabbitmq" e), publish_failed_inc label ∷ l)
count_publish label (none, l) = (none, publish_success_inc label ∷ l)

publish_valid : Client → String → String → Message → List Event → Option Error × List Event
unfolding count_publish
publish_valid c exchange routing_key m l =
    count_publish (choose_queue_name_label exchange routing_key)
      (c.publish_amqp l exchange routing_key (publishing_of c l m))

pub publish : Client → String → String → Option Message → List Event → Option Error × List Event
unfolding publish_valid
publish c exchange routing_key msg l = elim (c.context l) [
  | some e ↦ (some e, l)
  | none ↦ elim (validate (c.now l) msg) [
    | err e ↦ (some e, l)
    | ok m ↦ publish_valid c exchange routing_key m l
  ]
]

-- The message of the caller after `Publish`: `validate` fills it in, and the propagator writes into
-- its headers. What the hook of the application does to them is the application's.
pub message_after : Client → Option Message → List Event → Option Message
unfolding traced_headers
message_after c msg l = elim (c.context l) [
  | some e ↦ msg
  | none ↦ elim (validate (c.now l) msg) [
    | err e ↦ msg
    | ok m ↦ some (record m { headers = some (traced_headers c l (table_of m.headers)) })
  ]
]

-- The loop of `BatchPublish`.
pub publish_all :
    Client → String → String → List (Option Message) → List Event → Option Error × List Event
publish_all c exchange routing_key [] l = (none, l)
publish_all c exchange routing_key (msg ∷ rest) l =
    let (e, w) = publish c exchange routing_key msg l in
    elim e [ some x ↦ (some x, w) | none ↦ publish_all c exchange routing_key rest w ]

pub batch_publish :
    Client → String → String → List (Option Message) → List Event → Option Error × List Event
unfolding publish_all
batch_publish c exchange routing_key messages l = elim (c.context l) [
  | some e ↦ (some e, l)
  | none ↦ publish_all c exchange routing_key messages l
]

-- It validates the message, which fills it in, before `Publish` does so again.
pub publish_with_delay_dlx_ttl :
    Client → String → Option Message → List Event → Option Error × List Event
unfolding publish
publish_with_delay_dlx_ttl c queue_name msg l = elim (c.context l) [
  | some e ↦ (some e, l)
  | none ↦ elim (validate (c.now l) msg) [
    | err e ↦ (some e, l)
    | ok m ↦ publish c "" (get_delay_queue_name queue_name) (some m) l
  ]
]
