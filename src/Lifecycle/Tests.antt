-- ===== src/Lifecycle/Tests.antt =====
-- An SDK whose connection is lost once and replaced, and then shut down by one of two callers.
use huma.Base.{int64_of, int32_of, get_elem?, ◌≡◌, refl, false, List, [], ◌∷◌, none, some, pos}
use huma.Go.Errors.{errors_join, is_amqp_closed}
use huma.Go.Result.{Result, ok}
use huma.Go.Errors.{external}
use huma.Config.Tests.{plain}
use huma.Config.Sdk.{new_sdk_settings}
use huma.Metrics.Tests.{table, taken}
use huma.Opening.Tests.{env}
use huma.Opening.{Sdk as OpenedSdk, new_sdk}
use huma.Pool.{new_publisher_channel_pool, add_channel, add_channels, close_pool, drain}
use huma.Reconnect.{reconnect, round}
use huma.Reconnect.Tests.{willing, unreachable}
use huma.Shutdown.{entering, finished, move, act}
use huma.Shutdown.Tests.{reply}
use huma.Session.Tests.{live as live_context, ten}
use huma.Session.{qos_called, call}
use huma.Lifecycle.{
  begin, Life, Move, called, reconnects, shut, ended, added, live, lives, open_now,
}
use huma.Lifecycle.Schedule.{AreTimely}
use huma.Lifecycle.Cleanup.{lives-AllClosed}

abbrev schedule : List Move
schedule =
    called (qos_called live_context ten none)
    ∷ reconnects (unreachable ∷ willing ∷ [])
    ∷ shut 1 reply
    ∷ shut 1 reply
    ∷ shut 1 reply
    ∷ added
    ∷ ended
    ∷ ended
    ∷ shut 1 reply
    ∷ shut 1 reply
    ∷ []

abbrev opened : Result OpenedSdk
opened = (new_sdk table env plain (record { log = []; pool_log = []; registry = taken })).0

abbrev opened_sdk : OpenedSdk
opened_sdk = record {
  conn = 1;
  channel = 2;
  publisher_pool = record {
    channels = 4 ∷ 3 ∷ 2 ∷ 1 ∷ 0 ∷ [];
    size = 5;
    max_pool_size = pos 10;
    closed = false;
    chan_closed = false;
    locked = false;
    current_pool_size = pos 5;
  };
  reconnect_interval = pos 5000000000;
  connection_config = record {
    heartbeat = pos 0;
    vhost = "";
    connection_name = "my-service";
    tls_config = none;
    dial_timeout = pos 30000000000;
  };
  connection_url = record {
    scheme = "amqp";
    host = "127.0.0.1:5672";
    username = "guest";
    password = "guest";
  };
  publisher_pool_size = pos 5;
  publisher_pool_wait = pos 20000000;
  publisher_max_pool_size = pos 10;
  metrics = false;
  enable_tracing = false;
  extract_context = none;
  inject_headers = none;
}

opened_ok : opened ≡ ok opened_sdk
unfolding new_sdk new_sdk_settings new_publisher_channel_pool add_channel add_channels int64_of
    int32_of
opened_ok = refl

abbrev end_of : List Move → Life
end_of = lives (
    begin opened_sdk
      (new_sdk table env plain (record { log = []; pool_log = []; registry = taken })).1.log
      (record { conn = some 7; canceled = false; log = [] }) (entering ∷ entering ∷ []))

second_finished : get_elem? (end_of schedule).system.callers 1 ≡ some (finished (some (external 3)))
unfolding new_sdk new_sdk_settings new_publisher_channel_pool add_channel add_channels lives live
    begin reconnect round move act close_pool drain errors_join is_amqp_closed call int64_of
    int32_of
second_finished = refl

schedule_timely :
    AreTimely
      (begin opened_sdk
        (new_sdk table env plain (record { log = []; pool_log = []; registry = taken })).1.log
        (record { conn = some 7; canceled = false; log = [] })
        (entering ∷ entering ∷ []))
      schedule
unfolding new_sdk new_sdk_settings new_publisher_channel_pool add_channel add_channels lives live
    begin reconnect round move act close_pool drain errors_join is_amqp_closed call int64_of
    int32_of
schedule_timely = (tt, (tt, (tt, (tt, (tt, (λ h. cc, (tt, (tt, (tt, (tt, tt))))))))))

lives-AllClosed_example :
    (open_now (end_of schedule) ≡ []) × ((end_of schedule).system.sdk.running ≡ 0)
lives-AllClosed_example =
    lives-AllClosed table env plain taken opened_sdk
      (record { conn = some 7; canceled = false; log = [] }) (entering ∷ entering ∷ []) schedule 1
      (some (external 3)) opened_ok (refl, (refl, tt)) schedule_timely second_finished
