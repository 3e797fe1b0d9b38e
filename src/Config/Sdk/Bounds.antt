-- ===== src/Config/Sdk/Bounds.antt =====
-- What `NewSDK` guarantees of the settings it goes on with.
use huma.Base.{◌≡◌, Bool, arith, pos, ◌≤ℤ◌}
use huma.Go.Result.{ok}
use huma.Config.Sdk.{SdkConfig, Settings, check_config, new_sdk_settings}

pub record IsUsable (s : Settings) : Type 0 where
  pub has_channels : pos 1 ≤ℤ s.pool_size
  pub room : s.pool_size ≤ℤ s.pool_max_size
  pub waits : pos 1 ≤ℤ s.pool_wait
  pub delays : pos 1 ≤ℤ s.reconnect_delay
  pub dials : pos 1 ≤ℤ s.dial_timeout

-- Settings that are accepted have at least one publisher channel, room for all of them, and
-- positive times.
pub new_sdk_settings-IsUsable :
    (ctx_nil : Bool) (cfg : SdkConfig) {s : Settings}
    → new_sdk_settings ctx_nil cfg ≡ ok s
    → IsUsable s
unfolding new_sdk_settings check_config
new_sdk_settings-IsUsable ctx_nil cfg h = ground arith
