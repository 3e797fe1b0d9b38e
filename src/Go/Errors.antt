-- ===== src/Go/Errors.antt =====
-- Go's error values as the program makes and reads them. A nil error is `none`. A constructor
-- stands for each text of `errors.New` and `fmt.Errorf`; `wrap` is a text with `%w`.
use huma.Base.{String, Bool, true, false, ◌||◌, Option, none, some, ℕ}

pub data Error : Type 0 where
  -- NewSDK
  context_nil address_required reconnect_delay_negative dial_timeout_negative : Error
  pool_sizes_negative pool_wait_negative max_below_initial : Error
  -- QueueConfig.validate and Start, with the queue's name
  name_required : Error
  unsupported_queue_type : String → String → Error
  redelivery_below_minus_one frequency_negative quorum_not_durable : String → Error
  quorum_auto_delete quorum_exclusive exchange_required : String → Error
  unsupported_strategy ttl_out_of_range handler_required workers_not_positive : String → Error
  -- Message.validate, publishAMQP and the publisher pool
  message_nil pool_unavailable pool_closed negatively_acknowledged : Error
  -- the sentinels `amqp091.ErrClosed` and `net.ErrClosed`
  amqp_closed net_closed : Error
  -- any other value that comes from outside the package
  external : ℕ → Error
  -- fmt.Errorf("text: %w", err) and errors.Join of two errors
  wrap : String → Error → Error
  join : Error → Error → Error

-- errors.Join, which drops nil errors and is nil if nothing is left.
unfoldable pub errors_join : Option Error → Option Error → Option Error
errors_join none e = e
errors_join (some e) none = some e
errors_join (some e) (some f) = some (join e f)

-- errors.Join(err, e) for an err that is not nil.
abbrev pub join_with : Error → Option Error → Error
join_with e none = e
join_with e (some f) = join e f

-- errors.Is(err, amqp091.ErrClosed): the sentinel anywhere in the tree.
unfoldable pub is_amqp_closed : Error → Bool
is_amqp_closed amqp_closed = true
is_amqp_closed (wrap _ e) = is_amqp_closed e
is_amqp_closed (join e f) = is_amqp_closed e || is_amqp_closed f
is_amqp_closed _ = false
