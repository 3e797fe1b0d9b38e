-- ===== src/Delivery/Workers.antt =====
-- rabbitmqsdk.go, the goroutines of one queue: `Start` runs `consume` as often as the queue asks
-- for, all on one channel of deliveries. A step ends wherever another goroutine may act in between;
-- a publish of its own is one step (Publisher has its interleavings).
pub mod Sharing
pub mod Ending
mod Tests
use huma.Base.{
  ℕ, Bool, true, false, List, [], ◌∷◌, ◌++◌, Option, none, some, pos, ltb_ℤ, ◌==ℤ◌, ◌&&◌, get_elem?,
  set, if◌then◌else◌,
}
use huma.Amqp.{
  Delivery, Event, handled, acked, nacked, received_inc, processing_observed, acked_inc, nacked_inc,
  heart_beat_msg,
}
use huma.Config.Queue.{QueueConfig}
use huma.Delivery.{
  HandlerEnd, returned, panicked, Services, settle, delivery_retry_count, retry_publishing,
  is_heartbeat_dummy_message,
}

-- What the goroutines of a queue share: the channel of deliveries, and the log.
pub record Shared : Type 0 where
  pub messages : List Delivery
  pub closed : Bool
  pub log : List Event

-- How a delivery is to be settled: acknowledged after a success, or because its copy for a retry
-- was published; or negatively acknowledged, to be requeued or not.
pub data Verdict : Type 0 where
  succeeded retried : Verdict
  given_up : Bool → Verdict

-- Where a goroutine stands: in the select; before the handler; after it; or before the settlement
-- that it has decided on, with whether the duration is yet to be observed.
pub data Pc : Type 0 where
  selecting stopped : Pc
  handling : Delivery → Pc
  judging : Delivery → HandlerEnd → Pc
  settling : Delivery → Verdict → Bool → Pc

abbrev pub call_of : Delivery → Verdict → Event
call_of d succeeded = acked d.delivery_tag
call_of d retried = acked d.delivery_tag
call_of d (given_up requeue) = nacked d.delivery_tag requeue

abbrev pub metric_of : QueueConfig → Verdict → Event
metric_of q succeeded = acked_inc q.name
metric_of q retried = nacked_inc q.name
metric_of q (given_up _) = nacked_inc q.name

-- The case that the select takes.
pub data Case : Type 0 where
  context_done message_received heartbeat_ticked : Case

module _ (s : Services) where
  open s use {answer, publish_amqp}

  -- What `handleDeliveryFailure` decides, and the log after the copy for a retry, if there is one.
  failure_verdict : Delivery → QueueConfig → List Event → Verdict × List Event
  failure_verdict d q l =
      if ltb_ℤ (pos 0) q.max_redelivery
      then (if ltb_ℤ (delivery_retry_count d.headers) q.max_redelivery
          then (let (e, l') =
                publish_amqp l d.delivery_exchange d.delivery_routing_key (retry_publishing d) in
              (elim e [ none ↦ retried | some _ ↦ given_up true ], l'))
          else (given_up false, l))
      else (given_up (q.max_redelivery ==ℤ pos 0), l)

  module _ (handler : ℕ) (q : QueueConfig) where
    -- The case of the select that receives from `msgs`.
    receive : List Delivery → Shared → Pc × Shared
    receive [] w = (if w.closed then stopped else selecting, w)
    receive (d ∷ rest) w =
        if q.dummy_message_enabled && is_heartbeat_dummy_message d
        then (selecting, record w { messages = rest; log = acked d.delivery_tag ∷ w.log })
        else (handling d, record w { messages = rest; log = received_inc q.name ∷ w.log })

    fail : Delivery → Bool → Shared → Pc × Shared
    unfolding failure_verdict
    fail d observe w =
        let (v, l) = failure_verdict d q w.log in (settling d v observe, record w { log = l })

    pub work : Case → Pc → Shared → Pc × Shared
    unfolding receive fail
    work context_done selecting w = (stopped, w)
    work message_received selecting w = receive w.messages w
    work heartbeat_ticked selecting w = (
      selecting,
      (if q.dummy_message_enabled
          then record w { log = (publish_amqp w.log "" q.name heart_beat_msg).1 }
          else w),
    )
    work c stopped w = (stopped, w)
    work c (handling d) w =
        (judging d (answer w.log handler d), record w { log = handled handler d ∷ w.log })
    work c (judging d (returned none)) w = (settling d succeeded true, w)
    work c (judging d (returned (some e))) w = fail d true w
    work c (judging d panicked) w =
        fail d false (record w { log = processing_observed q.name ∷ w.log })
    work c (settling d v observe) w =
        let l = settle s (call_of d v) (metric_of q v) w.log in
        (selecting, record w { log = if observe then processing_observed q.name ∷ l else l })

-- What happens: a step of the goroutine with a number; the client delivers a message, or closes the
-- channel.
pub data Move : Type 0 where
  worked : ℕ → Case → Move
  arrived : Delivery → Move
  channel_closed : Move

pub record System : Type 0 where
  pub shared : Shared
  pub workers : List Pc

module _ (s : Services) (handler : ℕ) (q : QueueConfig) where
  step_of : Case → ℕ → System → Option Pc → System
  unfolding work
  step_of c i y none = y
  step_of c i y (some pc) =
      let (pc', w) = work s handler q c pc y.shared in
      record { shared = w; workers = set y.workers i pc' }

  pub move : System → Move → System
  unfolding step_of
  move y (worked i c) = step_of c i y (get_elem? y.workers i)
  move y (arrived d) = elim y.shared.closed [
    | true ↦ y
    | false ↦ record y { shared = record y.shared { messages = y.shared.messages ++ d ∷ [] } }
  ]
  move y channel_closed = record y { shared = record y.shared { closed = true } }

  pub moves : System → List Move → System
  unfolding move
  moves y [] = y
  moves y (m ∷ ms) = moves (move y m) ms
