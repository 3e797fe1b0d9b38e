-- ===== src/Kit.antt =====
-- rabbitmqkit.go: the interface of the SDK, and the SDK as a value of it.
use huma.Base.{get_elem?, ℕ, String, List, [], ◌∷◌, Option, none, some}
use huma.Go.Errors.{Error, net_closed}
use huma.Shutdown.{Sdk, Pc, entering, finished, gave_up, System, Move, moves}
use huma.Amqp.{Event}
use huma.Config.Queue.{QueueConfig}
use huma.Message.{Message}
use huma.Publish.{Client, publish, batch_publish, publish_with_delay_dlx_ttl}
use huma.Topology.{Server}
use huma.Start.{Call}
use huma.Reconnect.{Qos, Fixed}
use huma.Session.{Context, qos_called, declare_called, start_called, call}

-- The interface `RabbitMQKit`, over a state: a call returns its error and the state that it leaves.
-- A logger has a number; `none` is a nil one.
pub record Kit (S : Type 0) : Type 0 where
  pub declare_queues : List QueueConfig → S → Option Error × S
  pub publish_one : String → String → Option Message → S → Option Error × S
  pub publish_batch : String → String → List (Option Message) → S → Option Error × S
  pub publish_delayed : String → Option Message → S → Option Error × S
  pub qos : Qos → S → Option Error × S
  pub start_queues : List QueueConfig → S → Option Error × S
  pub shut_down : S → Option Error × S
  pub set_logger : Option ℕ → S → S

-- What the SDK keeps for a reconnect, the log of its publishers, its logger, and the fields that
-- `Shutdown` uses.
pub record SdkState : Type 0 where
  pub fixed : Fixed
  pub log : List Event
  pub logger : ℕ
  pub sdk : Sdk

-- What the environment answers: the context, the error of Qos, the server, the context's error
-- when it is read again, `Consume`, what publishing relies on, and the moves of a call of
-- `Shutdown`, with those of the SDK's goroutines.
pub record Answers : Type 0 where
  pub context : Context
  pub qos : Option Error
  pub server : Server
  pub live : Option Error
  pub consume_refused : List Call → QueueConfig → Option Error
  pub client : Client
  pub shutdown : List Move

-- if logger != nil { s.logger = logger }
unfoldable pub logger_set : Option ℕ → SdkState → SdkState
logger_set none s = s
logger_set (some n) s = record s { logger = n }

with_fixed : SdkState → Option Error × Fixed → Option Error × SdkState
with_fixed s (e, f) = (e, record s { fixed = f })

with_log : SdkState → Option Error × List Event → Option Error × SdkState
with_log s (e, l) = (e, record s { log = l })

-- One caller that enters `Shutdown`.
abbrev pub system_of : Sdk → System
system_of sdk = record { sdk = sdk; callers = entering ∷ [] }

-- What the caller returns; the last line is for one that is still on its way.
result_of : Option Pc → Option Error
result_of (some (finished e)) = e
result_of (some (gave_up e)) = some e
result_of _ = some net_closed

shutdown_called : List Move → SdkState → Option Error × SdkState
unfolding result_of
shutdown_called ms s =
    let y = moves (system_of s.sdk) ms in
    (result_of (get_elem? y.callers 0), record s { sdk = y.sdk })

-- The calls of the SDK as Session, Publish and Shutdown have them.
unfoldable pub sdk_kit : Answers → Kit SdkState
unfolding with_fixed with_log logger_set shutdown_called
sdk_kit a = record {
  declare_queues =
      λ queues s. with_fixed s (call (declare_called a.context queues a.server) s.fixed);
  publish_one =
      λ exchange routing_key msg s. with_log s (publish a.client exchange routing_key msg s.log);
  publish_batch = λ exchange routing_key msgs s.
      with_log s (batch_publish a.client exchange routing_key msgs s.log);
  publish_delayed =
      λ queue_name msg s. with_log s (publish_with_delay_dlx_ttl a.client queue_name msg s.log);
  qos = λ q s. with_fixed s (call (qos_called a.context q a.qos) s.fixed);
  start_queues = λ queues s.
      with_fixed s (call (start_called a.context queues a.live a.consume_refused) s.fixed);
  shut_down = shutdown_called a.shutdown;
  set_logger = logger_set;
}
