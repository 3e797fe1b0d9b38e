-- ===== src/Config/Sdk.antt =====
-- types.go, `SDKConfig`, and the part of `NewSDK` (rabbitmqsdk.go) that reads it: the checks and
-- the defaults. Durations are integers, in nanoseconds.
pub mod Bounds
use huma.Base.{
  ℕ, String, Bool, true, false, not, ◌&&◌, ◌||◌, Option, none, some, str_eq, ℤ, pos, ltb_ℤ, ◌==ℤ◌,
  double_ℤ, int64_of, if◌then◌else◌,
}
use huma.Go.Errors.{
  context_nil, address_required, reconnect_delay_negative, dial_timeout_negative,
  pool_sizes_negative, pool_wait_negative, max_below_initial,
}
use huma.Go.Result.{Result, ok, refuse, ◌>>=◌, ◌>>◌}
use huma.Go.Duration.{second, millisecond}

-- The TLS configuration, the registerer and the hooks are pointers, interfaces and functions.
pub record SdkConfig : Type 0 where
  pub addr : String
  pub vhost : String
  pub username : String
  pub password : String
  pub heartbeat : ℤ
  pub dial_timeout : ℤ
  pub connection_name : String
  pub reconnect_delay : ℤ
  pub tls_config : Option ℕ
  pub enable_metrics : Bool
  pub metrics_namespace : String
  pub metrics_registerer : Option ℕ
  pub publisher_pool_size : ℤ
  pub publisher_max_pool_size : ℤ
  pub publisher_pool_wait : ℤ
  pub enable_tracing : Bool
  pub metric_label_name : String
  pub metric_label_value : Option ℕ
  pub inject_headers : Option ℕ
  pub extract_context : Option ℕ

abbrev pub default_publisher_pool_size : ℤ
default_publisher_pool_size = pos 5

abbrev pub default_publisher_pool_wait : ℤ
default_publisher_pool_wait = pos 20000000

abbrev pub default_reconnect_delay : ℤ
default_reconnect_delay = pos 5000000000

abbrev pub default_dial_timeout : ℤ
default_dial_timeout = pos 30000000000

-- What `NewSDK` takes from the configuration before and after it dials.
pub record Settings : Type 0 where
  pub pool_size : ℤ
  pub pool_max_size : ℤ
  pub pool_wait : ℤ
  pub reconnect_delay : ℤ
  pub dial_timeout : ℤ
  pub scheme : String
  pub namespace : String

-- x := cfg.X; if x == 0 { x = d }
or_default : ℤ → ℤ → ℤ
or_default x d = if x ==ℤ pos 0 then d else x

scheme_of : Option ℕ → String
scheme_of none = "amqp"
scheme_of (some _) = "amqps"

-- The checks of `NewSDK`, in their order; `ctx_nil` is the test `ctx == nil`.
check_config : Bool → SdkConfig → Result (Unit {0})
check_config ctx_nil cfg = do
  refuse ctx_nil context_nil
  refuse (str_eq cfg.addr "") address_required
  refuse (ltb_ℤ cfg.reconnect_delay (pos 0)) reconnect_delay_negative
  refuse (ltb_ℤ cfg.dial_timeout (pos 0)) dial_timeout_negative
  refuse (ltb_ℤ cfg.publisher_pool_size (pos 0) || ltb_ℤ cfg.publisher_max_pool_size (pos 0))
      pool_sizes_negative
  refuse (ltb_ℤ cfg.publisher_pool_wait (pos 0)) pool_wait_negative
  ok tt

unfoldable pub new_sdk_settings : Bool → SdkConfig → Result Settings
unfolding or_default scheme_of check_config
new_sdk_settings ctx_nil cfg = do
  check_config ctx_nil cfg
  let pool_size = or_default cfg.publisher_pool_size default_publisher_pool_size
  let pool_max_size = or_default cfg.publisher_max_pool_size (int64_of (double_ℤ pool_size))
  refuse (ltb_ℤ pool_max_size pool_size) max_below_initial
  ok (record {
    pool_size = pool_size;
    pool_max_size = pool_max_size;
    pool_wait = or_default cfg.publisher_pool_wait default_publisher_pool_wait;
    reconnect_delay = or_default cfg.reconnect_delay default_reconnect_delay;
    dial_timeout = or_default cfg.dial_timeout default_dial_timeout;
    scheme = scheme_of cfg.tls_config;
    namespace = if str_eq cfg.metrics_namespace "" then "huma" else cfg.metrics_namespace;
  })
