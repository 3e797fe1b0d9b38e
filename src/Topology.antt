-- ===== src/Topology.antt =====
-- rabbitmqsdk.go, `DeclareQueues`: the exchanges, queues and bindings that it declares on the
-- consume channel. Logging is left out.
pub mod Plan
mod Tests
pub mod Delay
pub mod Replayed
use Prim.Native.String.{◌++◌}
use huma.Base.{
  ℕ, String, Bool, true, false, ◌&&◌, List, [], ◌∷◌, Option, none, some, str_eq, ℤ, pos, ltb_ℤ,
  ◌==ℤ◌, int32_of, if◌then◌else◌,
}
use mathlib.Core.List.{◌++◌ as append}
use huma.Go.Errors.{Error, wrap}
use huma.Go.Result.{Result, ok, err}
use huma.Go.Table.{Table, str, int32, int64, insert}
use huma.Go.Duration.{milliseconds}
use huma.Go.Exec.{Exec, pure, lift, when, nil_or, ◌>>=◌, ◌>>◌}
use huma.Config.Queue.{QueueConfig, quorum, delay_dlx_ttl, validate}
use huma.Publish.{get_delay_queue_name}

-- ch.ExchangeDeclare (direct and durable, as every call of the program), ch.QueueDeclare with its
-- flags and arguments (a nil table as `none`), and ch.QueueBind of a queue, a key and an exchange.
pub data Declaration : Type 0 where
  exchange_declare : String → Declaration
  queue_declare : String → Bool → Bool → Bool → Bool → Option Table → Declaration
  queue_bind : String → String → String → Declaration

-- By the declarations made so far, newest first: the error of the context, and that of a call.
pub record Server : Type 0 where
  pub context : List Declaration → Option Error
  pub refused : List Declaration → Declaration → Option Error

abbrev args_of : Option Table → Table
args_of none = []
args_of (some t) = t

abbrev pub dlx_name : QueueConfig → String
dlx_name q = q.name ++ ".DLX"

abbrev pub dlq_name : QueueConfig → String
dlq_name q = q.name ++ ".DLQ"

-- if q.RoutingKey == "" { q.RoutingKey = q.Name }
abbrev pub effective_key : QueueConfig → String
effective_key q = if str_eq q.routing_key "" then q.name else q.routing_key

-- The arguments of the queue, from the three places that add to them.
quorum_args : QueueConfig → Option Table → Option Table
quorum_args q args =
    if str_eq q.queue_type quorum
    then some (insert "x-queue-type" (str "quorum") (args_of args))
    else args

dlq_args : QueueConfig → Option Table → Option Table
dlq_args q args =
    if q.enable_dlq
    then some (
        insert "x-dead-letter-routing-key" (str (dlq_name q))
          (insert "x-dead-letter-exchange" (str (dlx_name q)) (args_of args)))
    else args

timeout_args : QueueConfig → Option Table → Option Table
timeout_args q args =
    if ltb_ℤ (pos 0) q.consumer_timeout
    then some (insert "x-consumer-timeout" (int64 (milliseconds q.consumer_timeout)) (args_of args))
    else args

pub queue_args : QueueConfig → Option Table
unfolding quorum_args dlq_args timeout_args
queue_args q = timeout_args q (dlq_args q (quorum_args q none))

-- The arguments of the delay queue.
pub delay_args : QueueConfig → Table
delay_args q =
    let base =
      ("x-message-ttl", int32 (int32_of (milliseconds q.dlx_ttl)))
      ∷ ("x-dead-letter-exchange", str q.exchange)
      ∷ ("x-dead-letter-routing-key", str (effective_key q))
      ∷ [] in
    if str_eq q.queue_type quorum then insert "x-queue-type" (str "quorum") base else base

-- s.declaredQueues = append(s.declaredQueues, queues...), if `store` is set and nothing failed.
keep_declared : Bool → List QueueConfig → List QueueConfig → Result (Unit {0}) → List QueueConfig
keep_declared store queues declared (ok _) = if store then append declared queues else declared
keep_declared store queues declared (err _) = declared

module _ (s : Server) where
  open s use {context, refused}

  -- A call on the channel; its error is wrapped in a text.
  unfoldable pub call : String → Declaration → Exec (List Declaration) (Unit {0})
  call text d ds = elim (refused ds d) [
    | none ↦ (ok tt, d ∷ ds)
    | some e ↦ (err (wrap text e), d ∷ ds)
  ]

  unfoldable pub check_context : Exec (List Declaration) (Unit {0})
  check_context ds = (nil_or (context ds), ds)

  -- The block `if q.EnableDLQ`.
  unfoldable pub declare_dlq : QueueConfig → Exec (List Declaration) (Unit {0})
  unfolding call
  declare_dlq q = do
    call "failed to declare DLX" (exchange_declare (dlx_name q))
    call "failed to declare DLQ" (queue_declare (dlq_name q) true false false false none)
    call "failed to bind DLQ to DLX" (queue_bind (dlq_name q) (dlq_name q) (dlx_name q))

  -- The block `if q.IsDelayQueue`, whose switch has one case.
  declare_delay : QueueConfig → Exec (List Declaration) (Unit {0})
  unfolding call
  declare_delay q = do
    call "failed to declare DLX+TTL exchange" (exchange_declare q.exchange)
    call "failed to declare DLX+TTL delay queue"
        (queue_declare (get_delay_queue_name q.name) true false false false (some (delay_args q)))

  -- One round of the loop.
  unfoldable pub declare_queue : QueueConfig → Exec (List Declaration) (Unit {0})
  unfolding call check_context declare_dlq declare_delay
  declare_queue q = do
    check_context
    lift (validate q)
    when q.enable_dlq (declare_dlq q)
    when (q.is_delay_queue && q.delay_strategy ==ℤ delay_dlx_ttl) (declare_delay q)
    call "failed to declare a queue"
        (queue_declare q.name q.durable q.auto_delete q.exclusive q.no_wait (queue_args q))
    when q.is_delay_queue
        (call "failed to bind a delayed queue" (queue_bind q.name (effective_key q) q.exchange))

  unfoldable pub declare_each : List QueueConfig → Exec (List Declaration) (Unit {0})
  declare_each [] = pure tt
  declare_each (q ∷ qs) = declare_queue q >> declare_each qs

  -- `declareQueuesLocked`: with the queues that the SDK keeps for a reconnect.
  unfoldable pub declare_queues_locked :
      List QueueConfig
      → Bool
      → List QueueConfig
      → List Declaration
      → Result (Unit {0}) × List QueueConfig × List Declaration
  unfolding declare_each keep_declared
  declare_queues_locked queues store declared ds =
      let (r, ds') = declare_each queues ds in (r, keep_declared store queues declared r, ds')
