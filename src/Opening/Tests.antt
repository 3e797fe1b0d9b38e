-- ===== src/Opening/Tests.antt =====
-- `NewSDK` with metrics, on a registry where one of them is registered already.
use huma.Base.{Bool, true, false, [], none}
use huma.Go.Result.{ok}
use huma.Config.Sdk.{SdkConfig}
use huma.Config.Tests.{plain}
use huma.Metrics.{Collector}
use huma.Metrics.Tests.{taken}
use huma.Opening.{State, Environment}

abbrev cfg : SdkConfig
cfg = record plain { enable_metrics = true }

abbrev pub env : Environment
env = record {
  ctx_nil = false;
  dial = λ u config. ok 1;
  open_channel = ok 2;
  broker = record { open_channel = λ n. ok n; confirm = λ _. none; close_channel = λ _. none };
  close_channel = none;
  close_conn = none;
}

abbrev pub begin : State (Collector → Bool)
begin = record { log = []; pool_log = []; registry = taken }
