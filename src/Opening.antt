-- ===== src/Opening.antt =====
-- rabbitmqsdk.go, `NewSDK` after its checks: the connection, the channel, the publisher pool, the
-- metrics and the monitor, and what is closed again when one of them fails. The text of
-- the URL is built by net/url, so the model keeps its parts.
pub mod Tests
pub mod Outcome
pub mod Cleanup
use huma.Base.{
  ℕ, String, Bool, true, false, List, [], ◌∷◌, Option, none, some, ℤ, pos_part, if◌then◌else◌,
}
use huma.Go.Errors.{Error, wrap, join_with}
use huma.Go.Result.{Result, ok, err}
use huma.Amqp.{Event}
use huma.Config.Sdk.{SdkConfig, Settings, new_sdk_settings}
use huma.Metrics.{Registry, new_prometheus_metrics}
use huma.Pool.{Pool, World, Broker, close_pool, new_publisher_channel_pool}

-- What `NewSDK` does, with the numbers that name connections and channels: DialConfig, Channel,
-- Close of both, `cancel`, and the goroutine of `monitorConnection`.
pub data Step : Type 0 where
  dialed channel_opened conn_closed channel_closed : ℕ → Step
  canceled : Step
  monitored : ℕ → ℕ → Step

-- The calls, newest first, those on the pool's channels apart; and the registry of the metrics.
pub record State (S : Type 0) : Type 0 where
  pub log : List Step
  pub pool_log : List Event
  pub registry : S

-- The parts of the URL: scheme, host, user and password.
pub record Url : Type 0 where
  pub scheme : String
  pub host : String
  pub username : String
  pub password : String

-- amqp091.Config, with the timeout that its `Dial` uses (Connection.antt). The clone of the TLS
-- configuration has the name of the original.
pub record ClientConfig : Type 0 where
  pub heartbeat : ℤ
  pub vhost : String
  pub connection_name : String
  pub tls_config : Option ℕ
  pub dial_timeout : ℤ

pub url_of : SdkConfig → Settings → Url
url_of cfg t = record {
  scheme = t.scheme;
  host = cfg.addr;
  username = cfg.username;
  password = cfg.password;
}

pub client_config_of : SdkConfig → Settings → ClientConfig
client_config_of cfg t = record {
  heartbeat = cfg.heartbeat;
  vhost = cfg.vhost;
  connection_name = cfg.connection_name;
  tls_config = cfg.tls_config;
  dial_timeout = t.dial_timeout;
}

-- What the environment answers; DialConfig may use all of the URL and of the configuration.
pub record Environment : Type 0 where
  pub ctx_nil : Bool
  pub dial : Url → ClientConfig → Result ℕ
  pub open_channel : Result ℕ
  pub broker : Broker
  pub close_channel : Option Error
  pub close_conn : Option Error

-- The fields of the new SDK; `metrics` tells Prometheus's from the ones that do nothing.
pub record Sdk : Type 0 where
  pub conn : ℕ
  pub channel : ℕ
  pub publisher_pool : Pool
  pub reconnect_interval : ℤ
  pub connection_config : ClientConfig
  pub connection_url : Url
  pub publisher_pool_size : ℤ
  pub publisher_pool_wait : ℤ
  pub publisher_max_pool_size : ℤ
  pub metrics : Bool
  pub enable_tracing : Bool
  pub extract_context : Option ℕ
  pub inject_headers : Option ℕ

sdk_of : SdkConfig → Settings → ℕ → ℕ → Pool → Sdk
unfolding url_of client_config_of
sdk_of cfg t c ch p = record {
  conn = c;
  channel = ch;
  publisher_pool = p;
  reconnect_interval = t.reconnect_delay;
  connection_config = client_config_of cfg t;
  connection_url = url_of cfg t;
  publisher_pool_size = t.pool_size;
  publisher_pool_wait = t.pool_wait;
  publisher_max_pool_size = t.pool_max_size;
  metrics = cfg.enable_metrics;
  enable_tracing = cfg.enable_tracing;
  extract_context = cfg.extract_context;
  inject_headers = cfg.inject_headers;
}

module _ {S : Type 0} (registry : Registry S) (env : Environment) (cfg : SdkConfig) where
  open env use {ctx_nil, dial, open_channel, broker, close_channel, close_conn}

  -- return nil, errors.Join(err, ch.Close(), conn.Close()), after `cancel()`
  close_both : Error → ℕ → ℕ → State S → Result Sdk × State S
  close_both e ch c s = (
    err (join_with (join_with e close_channel) close_conn),
    record s { log = conn_closed c ∷ channel_closed ch ∷ canceled ∷ s.log },
  )

  start_monitor : Settings → ℕ → ℕ → Pool → State S → Result Sdk × State S
  start_monitor t ch c p s = (ok (sdk_of cfg t c ch p), record s { log = monitored ch c ∷ s.log })

  -- The metrics, and the end. `w` is the pool, with the calls on its channels.
  make_metrics : Bool → Settings → ℕ → ℕ → World → State S → Result Sdk × State S
  unfolding close_both start_monitor sdk_of
  make_metrics false t ch c w s = start_monitor t ch c w.pool s
  make_metrics true t ch c w s =
      let (e, registered) = new_prometheus_metrics registry s.registry in
      let s' = record s { registry = registered } in
      elim e [
        | none ↦ start_monitor t ch c w.pool s'
        | some x ↦
            let (pool_error, v) = close_pool broker w in
            close_both (join_with x pool_error) ch c (record s' { pool_log = v.log })
      ]

  make_pool : Settings → ℕ → ℕ → State S → Result Sdk × State S
  unfolding make_metrics
  make_pool t ch c s =
      let (e, w) =
        new_publisher_channel_pool broker (pos_part t.pool_size) t.pool_max_size s.pool_log in
      let s' = record s { pool_log = w.log } in
      elim e [
        | some x ↦ close_both (wrap "initialize publisher pool" x) ch c s'
        | none ↦ make_metrics cfg.enable_metrics t ch c w s'
      ]

  make_channel : Settings → ℕ → State S → Result Sdk × State S
  unfolding make_pool
  make_channel t c s = elim open_channel [
    | err e ↦ (err (join_with e close_conn), record s { log = conn_closed c ∷ canceled ∷ s.log })
    | ok ch ↦ make_pool t ch c (record s { log = channel_opened ch ∷ s.log })
  ]

  make_conn : Settings → State S → Result Sdk × State S
  unfolding make_channel url_of client_config_of
  make_conn t s = elim (dial (url_of cfg t) (client_config_of cfg t)) [
    | err e ↦ (err e, record s { log = canceled ∷ s.log })
    | ok c ↦ make_channel t c (record s { log = dialed c ∷ s.log })
  ]

  unfoldable pub new_sdk : State S → Result Sdk × State S
  unfolding make_conn
  new_sdk s = elim (new_sdk_settings ctx_nil cfg) [ err e ↦ (err e, s) | ok t ↦ make_conn t s ]
