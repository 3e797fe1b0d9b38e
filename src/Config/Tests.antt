-- ===== src/Config/Tests.antt =====
-- A queue with retries, a delay queue, and the smallest configuration of the SDK.
use huma.Base.{◌≡◌, ◌↔◌, refl, true, false, none, some, pos, int64_of}
use huma.Go.Result.{ok}
use huma.Go.Duration.{milliseconds}
use huma.Config.Queue.{QueueConfig, validate}
use huma.Config.Queue.Validity.{IsWellFormed, validate_iff}
use huma.Config.Sdk.{SdkConfig, Settings, new_sdk_settings}

abbrev pub orders : QueueConfig
orders = record {
  name = "orders";
  queue_type = "";
  handler = some 0;
  num_workers = pos 2;
  is_delay_queue = false;
  delay_strategy = pos 0;
  dlx_ttl = pos 0;
  max_redelivery = pos 3;
  exchange = "";
  routing_key = "";
  durable = true;
  auto_delete = false;
  consumer_tag = "";
  exclusive = false;
  no_wait = false;
  consumer_timeout = pos 0;
  enable_dlq = true;
  process_timeout = pos 0;
  dummy_message_enabled = false;
  dummy_message_frequency = pos 0;
}

abbrev pub delayed : QueueConfig
delayed = record orders { is_delay_queue = true; exchange = "later"; dlx_ttl = pos 10000000000 }

delayed_ok : validate delayed ≡ ok tt
unfolding validate milliseconds
delayed_ok = refl

pub delayed-IsWellFormed : IsWellFormed delayed
delayed-IsWellFormed = (validate_iff delayed).0 delayed_ok

validate_iff_example : (validate delayed ≡ ok tt) ↔ IsWellFormed delayed
validate_iff_example = validate_iff delayed

abbrev pub plain : SdkConfig
plain = record {
  addr = "127.0.0.1:5672";
  vhost = "";
  username = "guest";
  password = "guest";
  heartbeat = pos 0;
  dial_timeout = pos 0;
  connection_name = "my-service";
  reconnect_delay = pos 0;
  tls_config = none;
  enable_metrics = false;
  metrics_namespace = "";
  metrics_registerer = none;
  publisher_pool_size = pos 0;
  publisher_max_pool_size = pos 0;
  publisher_pool_wait = pos 0;
  enable_tracing = false;
  metric_label_name = "";
  metric_label_value = none;
  inject_headers = none;
  extract_context = none;
}

abbrev pub plain_settings : Settings
plain_settings = record {
  pool_size = pos 5;
  pool_max_size = pos 10;
  pool_wait = pos 20000000;
  reconnect_delay = pos 5000000000;
  dial_timeout = pos 30000000000;
  scheme = "amqp";
  namespace = "huma";
}

plain_ok : new_sdk_settings false plain ≡ ok plain_settings
unfolding new_sdk_settings int64_of
plain_ok = refl
