-- ===== src/Config/Queue.antt =====
-- types.go and `QueueConfig.validate` of rabbitmqsdk.go: the configuration of a queue.
pub mod Validity
use huma.Base.{
  ℕ, String, Bool, true, false, not, ◌&&◌, ◌||◌, Option, str_eq, ℤ, pos, negsuc, ltb_ℤ, leb_ℤ,
  ◌==ℤ◌, if◌then◌else◌,
}
use huma.Go.Errors.{
  name_required, unsupported_queue_type, redelivery_below_minus_one, frequency_negative,
  quorum_not_durable, quorum_auto_delete, quorum_exclusive, exchange_required, unsupported_strategy,
  ttl_out_of_range,
}
use huma.Go.Result.{Result, ok, refuse, ◌>>=◌, ◌>>◌}
use huma.Go.Duration.{milliseconds}

-- The named constants of `QueueType` and `DelayStrategy`.
abbrev pub classic : String
classic = "classic"

abbrev pub quorum : String
quorum = "quorum"

abbrev pub delay_dlx_ttl : ℤ
delay_dlx_ttl = pos 0

pub record QueueConfig : Type 0 where
  pub name : String
  pub queue_type : String
  pub handler : Option ℕ
  pub num_workers : ℤ
  pub is_delay_queue : Bool
  pub delay_strategy : ℤ
  pub dlx_ttl : ℤ
  pub max_redelivery : ℤ
  pub exchange : String
  pub routing_key : String
  pub durable : Bool
  pub auto_delete : Bool
  pub consumer_tag : String
  pub exclusive : Bool
  pub no_wait : Bool
  pub consumer_timeout : ℤ
  pub enable_dlq : Bool
  pub process_timeout : ℤ
  pub dummy_message_enabled : Bool
  pub dummy_message_frequency : ℤ

-- The block `if q.QueueType == Quorum`.
validate_quorum : QueueConfig → Result (Unit {0})
validate_quorum q =
    if str_eq q.queue_type quorum
    then (do
      refuse (not q.durable) (quorum_not_durable q.name)
      refuse q.auto_delete (quorum_auto_delete q.name)
      refuse q.exclusive (quorum_exclusive q.name)
      ok tt)
    else ok tt

-- The block `if q.IsDelayQueue`.
validate_delay : QueueConfig → Result (Unit {0})
validate_delay q =
    if q.is_delay_queue
    then (do
      refuse (str_eq q.exchange "") (exchange_required q.name)
      refuse (not (q.delay_strategy ==ℤ delay_dlx_ttl)) (unsupported_strategy q.name)
      refuse
          (q.delay_strategy ==ℤ delay_dlx_ttl
            && (leb_ℤ q.dlx_ttl (pos 0) || ltb_ℤ (pos 2147483647) (milliseconds q.dlx_ttl)))
          (ttl_out_of_range q.name)
      ok tt)
    else ok tt

unfoldable pub validate : QueueConfig → Result (Unit {0})
unfolding validate_quorum validate_delay
validate q = do
  refuse (str_eq q.name "") name_required
  refuse
      (not (str_eq q.queue_type "")
        && not (str_eq q.queue_type classic)
        && not (str_eq q.queue_type quorum))
      (unsupported_queue_type q.name q.queue_type)
  refuse (ltb_ℤ q.max_redelivery (negsuc 0)) (redelivery_below_minus_one q.name)
  refuse (ltb_ℤ q.dummy_message_frequency (pos 0)) (frequency_negative q.name)
  validate_quorum q
  validate_delay q
