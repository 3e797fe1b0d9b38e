-- ===== src/Examples/Settings.antt =====
-- The configurations of the examples. A field that a composite literal leaves out is zero.
use huma.Base.{String, ℤ, true, false, List, [], ◌∷◌, none, some, pos}
use huma.Config.Queue.{QueueConfig, delay_dlx_ttl}
use huma.Config.Sdk.{SdkConfig}

abbrev zero_config : SdkConfig
zero_config = record {
  addr = "";
  vhost = "";
  username = "";
  password = "";
  heartbeat = pos 0;
  dial_timeout = pos 0;
  connection_name = "";
  reconnect_delay = pos 0;
  tls_config = none;
  enable_metrics = false;
  metrics_namespace = "";
  metrics_registerer = none;
  publisher_pool_size = pos 0;
  publisher_max_pool_size = pos 0;
  publisher_pool_wait = pos 0;
  enable_tracing = false;
  metric_label_name = "";
  metric_label_value = none;
  inject_headers = none;
  extract_context = none;
}

abbrev guest_config : SdkConfig
guest_config = record zero_config {
  addr = "127.0.0.1:5672";
  username = "guest";
  password = "guest";
}

abbrev pub basic_config : SdkConfig
basic_config = record guest_config { connection_name = "huma-example" }

abbrev pub delay_config : SdkConfig
delay_config = record guest_config { connection_name = "huma-dlq-delay-example" }

-- The hooks are functions of the example, by numbers.
abbrev pub metrics_config : SdkConfig
metrics_config = record guest_config {
  connection_name = "huma-metrics-example";
  enable_metrics = true;
  metrics_namespace = "huma_example";
  metric_label_name = "app_id";
  metric_label_value = some 1;
  inject_headers = some 2;
  extract_context = some 3;
}

abbrev pub tracing_config : SdkConfig
tracing_config = record guest_config {
  connection_name = "huma-tracing-example";
  enable_tracing = true;
}

abbrev zero_queue : QueueConfig
zero_queue = record {
  name = "";
  queue_type = "";
  handler = none;
  num_workers = pos 0;
  is_delay_queue = false;
  delay_strategy = pos 0;
  dlx_ttl = pos 0;
  max_redelivery = pos 0;
  exchange = "";
  routing_key = "";
  durable = false;
  auto_delete = false;
  consumer_tag = "";
  exclusive = false;
  no_wait = false;
  consumer_timeout = pos 0;
  enable_dlq = false;
  process_timeout = pos 0;
  dummy_message_enabled = false;
  dummy_message_frequency = pos 0;
}

-- Durable, with a handler and five seconds for it.
abbrev timed_queue : QueueConfig
timed_queue = record zero_queue {
  durable = true;
  handler = some 1;
  num_workers = pos 1;
  process_timeout = pos 5000000000;
}

abbrev pub basic_queues : List QueueConfig
basic_queues = record timed_queue { name = "huma.example"; num_workers = pos 2 } ∷ []

abbrev pub orders_queue : QueueConfig
orders_queue = record timed_queue {
  name = "huma.orders";
  enable_dlq = true;
  max_redelivery = pos 3;
  num_workers = pos 2;
}

abbrev pub scheduled_queue : QueueConfig
scheduled_queue = record timed_queue {
  name = "huma.scheduled";
  exchange = "huma.scheduled.exchange";
  routing_key = "huma.scheduled";
  is_delay_queue = true;
  delay_strategy = delay_dlx_ttl;
  dlx_ttl = pos 10000000000;
}

abbrev pub delay_queues : List QueueConfig
delay_queues = orders_queue ∷ scheduled_queue ∷ []

abbrev pub metrics_queues : List QueueConfig
metrics_queues = record timed_queue { name = "huma.metrics.example" } ∷ []

abbrev pub tracing_queues : List QueueConfig
tracing_queues = record timed_queue { name = "huma.tracing.example" } ∷ []

-- http.Server as the metrics example makes it; its handler serves Prometheus's metrics under one path.
pub record HttpServer : Type 0 where
  pub addr : String
  pub metrics_path : String
  pub read_header_timeout : ℤ
  pub read_timeout : ℤ
  pub write_timeout : ℤ
  pub idle_timeout : ℤ

abbrev pub metrics_server : HttpServer
metrics_server = record {
  addr = ":2112";
  metrics_path = "/metrics";
  read_header_timeout = pos 5000000000;
  read_timeout = pos 10000000000;
  write_timeout = pos 30000000000;
  idle_timeout = pos 60000000000;
}
