-- ===== src/Reconnect/Tests.antt =====
-- A connection that is lost, a first dial that fails, and a second round that succeeds.
use huma.Base.{List, ◌≡◌, ◌⊎◌, inr, refl, true, false, [], ◌∷◌, none, some, pos}
use huma.Go.Errors.{external}
use huma.Go.Result.{ok, err}
use huma.Config.Tests.{orders}
use huma.Config.Queue.{validate}
use huma.Pool.{new_publisher_channel_pool, add_channel, add_channels}
use huma.Topology.{
  declare_queues_locked, declare_each, declare_queue, declare_dlq, call, check_context,
}
use huma.Start.{
  check_queues, check_queue, start_checked, start_queues, start_queue, call_consume, start_workers,
  start_with_store_queues_flag,
}
use huma.Reconnect.{Fixed, State, Round, dialed, stopped, reconnected, reconnect}
use huma.Reconnect.Resources.{Sound}
use huma.Reconnect.Stages.{IsReplayed}
use huma.Reconnect.Replay.{reconnect-Sound}
use huma.Reconnect.Monitor.{
  Notice, channel_ended, conn_notice, watched, loop_ended, moves, idle, IsSingle, moves-IsSingle,
}
use huma.Reconnect.Progress.{IsAnswered, reconnect_ends}

abbrev settings : Fixed
settings = record {
  qos_configured = true;
  qos = record { prefetch_count = pos 10; prefetch_size = pos 0; is_global = false };
  declared_queues = orders ∷ [];
  queues = orders ∷ [];
  publisher_pool_size = 2;
  publisher_max_pool_size = pos 4;
}

abbrev pub willing : Round
willing = record {
  done = false;
  dial = ok 2;
  canceled = false;
  open_channel = ok 7;
  qos = none;
  server = record { context = λ _. none; refused = λ _ _. none };
  broker = record { open_channel = λ n. ok n; confirm = λ _. none; close_channel = λ _. none };
  context = none;
  consume_refused = λ _ _. none;
  timer_fired = true;
}

abbrev pub unreachable : Round
unreachable = record willing { dial = err (external 1) }

abbrev pub lost : State
lost = record { conn = some 1; channel = some 5; publisher_pool = none; log = dialed 1 ∷ [] }

abbrev lost_notices : List Notice
lost_notices = channel_ended ∷ conn_notice (some (external 2)) ∷ []

reconnect-Sound_example :
    Sound (IsReplayed settings) (reconnect settings (unreachable ∷ willing ∷ []) lost)
reconnect-Sound_example =
    reconnect-Sound settings (unreachable ∷ willing ∷ []) lost (inr (1, refl, refl))

willing-IsAnswered : IsAnswered settings willing
unfolding declare_queues_locked declare_each declare_queue declare_dlq call check_context
    new_publisher_channel_pool add_channel add_channels start_with_store_queues_flag check_queues
    check_queue start_checked start_queues start_queue call_consume start_workers validate
willing-IsAnswered = record {
  alive = refl;
  conn = 2;
  dialing = refl;
  still_alive = refl;
  channel = 7;
  opening = refl;
  setting = refl;
  declaring = refl;
  pooling = refl;
  starting = refl;
}

reconnect_ends_example :
    ((reconnect settings (unreachable ∷ willing ∷ []) lost).0 ≡ reconnected)
    ⊎ ((reconnect settings (unreachable ∷ willing ∷ []) lost).0 ≡ stopped)
reconnect_ends_example =
    reconnect_ends settings (unreachable ∷ []) willing [] lost willing-IsAnswered

-- A connection is lost while the flag is clear, and its successor before the flag is clear again.
moves-IsSingle_example :
    IsSingle (moves (watched lost_notices ∷ watched lost_notices ∷ loop_ended ∷ []) idle)
moves-IsSingle_example =
    moves-IsSingle (watched lost_notices ∷ watched lost_notices ∷ loop_ended ∷ []) idle refl
