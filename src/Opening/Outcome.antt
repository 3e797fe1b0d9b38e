-- ===== src/Opening/Outcome.antt =====
-- What `NewSDK` may have done when it returns, for settings that it accepts.
use huma.Base.{ℕ, ◌≡◌, ◌⊎◌, Bool, true, false, List, [], ◌∷◌, pos_part, int32_of, remove}
use huma.Go.Errors.{Error}
use huma.Go.Result.{Result, ok, err}
use huma.Config.Sdk.{SdkConfig, Settings}
use huma.Metrics.{Collector, Registry}
use huma.Pool.Opening.{opens, closes, IsFilled}
use huma.Opening.{
  Step, dialed, channel_opened, conn_closed, channel_closed, canceled, monitored, State,
  Environment, url_of, client_config_of, Sdk,
}

-- What a log leaves open, and whether it cancels the context.
abbrev pub open_conns : List Step → List ℕ
open_conns [] = []
open_conns (dialed c ∷ l) = c ∷ open_conns l
open_conns (conn_closed c ∷ l) = remove c (open_conns l)
open_conns (_ ∷ l) = open_conns l

abbrev pub open_channels : List Step → List ℕ
open_channels [] = []
open_channels (channel_opened c ∷ l) = c ∷ open_channels l
open_channels (channel_closed c ∷ l) = remove c (open_channels l)
open_channels (_ ∷ l) = open_channels l

abbrev pub was_canceled : List Step → Bool
was_canceled [] = false
was_canceled (canceled ∷ l) = true
was_canceled (_ ∷ l) = was_canceled l

module _ {S : Type 0} (registry : Registry S) (env : Environment) (cfg : SdkConfig) where
  open registry use {holds}

  -- Nothing is left open, and the registry holds what it held.
  pub record IsUndone (start : S) (s : State S) : Type 0 where
    pub conns_closed : open_conns s.log ≡ []
    pub channels_closed : open_channels s.log ≡ []
    pub pool_closed : opens s.pool_log ≡ closes s.pool_log
    pub context_canceled : was_canceled s.log ≡ true
    pub unregistered : (d : Collector) → holds s.registry d ≡ holds start d

  -- The SDK has what was opened: the connection that was dialed for its URL and configuration, a
  -- channel, a full pool, its metrics if it was to have them, and a monitor.
  pub record IsOpened (start : S) (t : Settings) (sdk : Sdk) (s : State S) : Type 0 where
    pub from_settings :
        (sdk.reconnect_interval ≡ t.reconnect_delay)
        × (sdk.publisher_pool_size ≡ t.pool_size)
        × (sdk.publisher_max_pool_size ≡ t.pool_max_size)
        × (sdk.publisher_pool_wait ≡ t.pool_wait)
        × (sdk.metrics ≡ cfg.enable_metrics)
    pub dialing :
        (sdk.connection_url ≡ url_of cfg t)
        × (sdk.connection_config ≡ client_config_of cfg t)
        × (env.dial sdk.connection_url sdk.connection_config ≡ ok sdk.conn)
    pub logged :
        s.log ≡ monitored sdk.channel sdk.conn ∷ channel_opened sdk.channel ∷ dialed sdk.conn ∷ []
    pub full :
        IsFilled []
          (pos_part t.pool_size)
          (int32_of t.pool_max_size)
          (pos_part t.pool_size)
          (record { pool = sdk.publisher_pool; log = s.pool_log })
    pub registered :
        ((cfg.enable_metrics ≡ true)
          × ((d : Collector) → (holds start d ≡ false) × (holds s.registry d ≡ true)))
        ⊎ ((cfg.enable_metrics ≡ false) × (s.registry ≡ start))

  -- With accepted settings: opened, or failed and undone.
  abbrev pub Made : S → Settings → Result Sdk × State S → Type 0
  Made start t (r, s) =
      ((sdk : Sdk) × (r ≡ ok sdk) × IsOpened start t sdk s)
      ⊎ ((e : Error) × (r ≡ err e) × IsUndone start s)
