-- ===== src/Session/Tests.antt =====
-- Qos is set, a queue is declared and started, and a second `SetQos` is refused.
use huma.Base.{arith, ◌≡◌, ◌≢◌, Option, inl, inr, refl, false, List, [], ◌∷◌, none, some, pos}
use huma.Go.Errors.{Error, external}
use huma.Config.Queue.{QueueConfig, validate}
use huma.Config.Queue.Validity.{IsWellFormed, validate_iff}
use huma.Start.Consumers.{AllStartable}
use huma.Config.Tests.{orders}
use huma.Topology.{
  Server, declare_queues_locked, declare_each, declare_queue, declare_dlq, call as server_call,
  check_context,
}
use huma.Start.{
  Call, start_with_store_queues_flag, check_queues, check_queue, start_checked, start_queues,
  start_queue, call_consume, start_workers,
}
use huma.Reconnect.{Qos, Fixed, reconnect}
use huma.Reconnect.Resources.{Sound}
use huma.Reconnect.Stages.{IsReplayed}
use huma.Reconnect.Tests.{willing, unreachable, lost}
use huma.Session.{
  validate_context, Context, AppCall, qos_called, declare_called, start_called, call, calls,
}
use huma.Session.Replay.{asked, IsSettled, reconnect-asked}

abbrev pub live : Context
live = record { is_nil = false; error = none }

abbrev pub ten : Qos
ten = record { prefetch_count = pos 10; prefetch_size = pos 0; is_global = false }

abbrev pub new_sdk : Fixed
new_sdk = record {
  qos_configured = false;
  qos = record { prefetch_count = pos 0; prefetch_size = pos 0; is_global = false };
  declared_queues = [];
  queues = [];
  publisher_pool_size = 2;
  publisher_max_pool_size = pos 4;
}

abbrev willing_server : Server
willing_server = record { context = λ _. none; refused = λ _ _. none }

abbrev history : List AppCall
history =
    qos_called live ten none
    ∷ declare_called live (orders ∷ []) willing_server
    ∷ start_called live (orders ∷ []) none (λ _ _. none)
    ∷ qos_called live ten (some (external 1))
    ∷ []

history-IsSettled : IsSettled history new_sdk
unfolding call declare_queues_locked declare_each declare_queue declare_dlq server_call
    check_context start_with_store_queues_flag check_queues check_queue start_checked start_queues
    start_queue call_consume start_workers validate
history-IsSettled = (inl refl, (inl refl, (inl refl, (inr tt, tt))))

reconnect-asked_example :
    Sound
      (IsReplayed (asked history new_sdk))
      (reconnect (calls history new_sdk) (unreachable ∷ willing ∷ []) lost)
reconnect-asked_example =
    reconnect-asked history new_sdk (unreachable ∷ willing ∷ []) lost history-IsSettled
      (inr (1, refl, refl))

pub live_valid : validate_context live ≡ none
unfolding validate_context
live_valid = refl

orders-IsWellFormed : IsWellFormed orders
unfolding validate
orders-IsWellFormed = (validate_iff orders).0 refl

pub orders-AllStartable : AllStartable (orders ∷ [])
orders-AllStartable =
    (record { well_formed = orders-IsWellFormed; handled = λ h. cc; staffed = omega arith }, tt)

-- The first `Start` fails on `Consume`.
abbrev refusing : List Call → QueueConfig → Option Error
refusing _ _ = some (external 1)

first_fails : (call (start_called live (orders ∷ []) none refusing) new_sdk).0 ≢ none
unfolding call start_with_store_queues_flag check_queues check_queue start_checked start_queues
    start_queue call_consume start_workers validate
first_fails h = cc
