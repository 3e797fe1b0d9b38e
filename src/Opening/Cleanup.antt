-- ===== src/Opening/Cleanup.antt =====
-- `NewSDK` either opens everything or leaves nothing behind.
use huma.Base.{
  ◌∙◌, ap, length, ℕ, ◌≡◌, ◌⊎◌, inl, inr, refl, Bool, true, false, List, [], ◌∷◌, pos_part,
  int32_of, arith, remove_all, Option-cases,
}
use huma.Go.Errors.{Error}
use huma.Go.Result.{ok, err, Result-cases}
use huma.Config.Sdk.{SdkConfig, Settings, new_sdk_settings}
use huma.Metrics.{Collector, Registry, new_prometheus_metrics}
use huma.Metrics.Registration.{new_prometheus_metrics_atomic}
use huma.Pool.{Pool, World, close_pool, new_publisher_channel_pool}
use huma.Pool.Opening.{opens, closes, IsFilled, close_pool_lem, new_publisher_channel_pool-Outcome}
use huma.Opening.{
  Step, dialed, channel_opened, State, Environment, url_of, client_config_of, sdk_of, close_both,
  start_monitor, make_metrics, make_pool, make_channel, make_conn, new_sdk,
}
use huma.Opening.Outcome.{Made}

module _ {S : Type 0} (registry : Registry S) (env : Environment) (cfg : SdkConfig) where
  open registry use {holds}

  module _ (start : S) (t : Settings) where
    -- The number of the connection that DialConfig returned.
    abbrev IsDialed : ℕ → Type 0
    IsDialed c = env.dial (url_of cfg t) (client_config_of cfg t) ≡ ok c

    -- On a channel and its connection, with nothing else done yet.
    abbrev IsReady : ℕ → ℕ → State S → Type 0
    IsReady ch c s = s.log ≡ channel_opened ch ∷ dialed c ∷ []

    close_both-Made :
        (e : Error) (ch c : ℕ) (s : State S)
        → IsReady ch c s
        → opens s.pool_log ≡ closes s.pool_log
        → ((d : Collector) → holds s.registry d ≡ holds start d)
        → Made registry env cfg start t (close_both registry env cfg e ch c s)
    unfolding close_both
    close_both-Made e ch c s h k same = inr (
      _,
      refl,
      record {
        conns_closed = rw h (remove_all c);
        channels_closed = rw h (remove_all ch);
        pool_closed = k;
        context_canceled = refl;
        unregistered = same;
      },
    )

    monitor-Made :
        (ch c : ℕ) (p : Pool) (s : State S)
        → IsDialed c
        → IsReady ch c s
        → IsFilled []
            (pos_part t.pool_size)
            (int32_of t.pool_max_size)
            (pos_part t.pool_size)
            (record { pool = p; log = s.pool_log })
        → ((cfg.enable_metrics ≡ true)
            × ((d : Collector) → (holds start d ≡ false) × (holds s.registry d ≡ true)))
          ⊎ ((cfg.enable_metrics ≡ false) × (s.registry ≡ start))
        → Made registry env cfg start t (start_monitor registry env cfg t ch c p s)
    unfolding start_monitor sdk_of url_of client_config_of
    monitor-Made ch c p s dialing h full known = inl (
      _,
      refl,
      record {
        from_settings = (refl, refl, refl, refl, refl);
        dialing = (refl, refl, dialing);
        logged = rw h refl;
        full = full;
        registered = known;
      },
    )

    -- A pool that is closed again leaves no channel open.
    drained :
        (w : World)
        → IsFilled [] (pos_part t.pool_size) (int32_of t.pool_max_size) (pos_part t.pool_size) w
        → opens (close_pool env.broker w).1.log ≡ closes (close_pool env.broker w).1.log
    drained w h =
        let (kept, none_left) = close_pool_lem env.broker [] w h.still_open h.accounted in
        ground (arith, ap length none_left)

    -- The pool is full, and so it is with the calls that the state has.
    abbrev IsFull : World → State S → Type 0
    IsFull w s =
        IsFilled [] (pos_part t.pool_size) (int32_of t.pool_max_size) (pos_part t.pool_size) w
        × IsFilled [] (pos_part t.pool_size) (int32_of t.pool_max_size) (pos_part t.pool_size)
            (record { pool = w.pool; log = s.pool_log })

    metrics-Made :
        (b : Bool) (ch c : ℕ) (w : World) (s : State S)
        → cfg.enable_metrics ≡ b
        → IsDialed c
        → IsReady ch c s
        → s.registry ≡ start
        → IsFull w s
        → Made registry env cfg start t (make_metrics registry env cfg b t ch c w s)
    unfolding make_metrics
    metrics-Made false ch c w s off dialing ready same full =
        monitor-Made ch c w.pool s dialing ready full.1 (inr (off, same))
    metrics-Made true ch c w s on dialing ready same full =
        elim (new_prometheus_metrics_atomic registry s.registry) [
          | inl (fine, new) ↦
              rw (make_metrics, fine)
                (monitor-Made ch c w.pool _ dialing ready full.1
                  (inl (on, λ d. (rw (← same) (new d).0, (new d).1))))
          | inr (bad, old) ↦ elim (Option-cases (new_prometheus_metrics registry s.registry).0) [
            | inl fine ↦ absurd (bad fine)
            | inr (x, failed) ↦
                rw (make_metrics, failed)
                  (close_both-Made _ ch c _ ready (drained w full.0)
                    (λ d. old d ∙ ap (λ y. holds y d) same))
          ]
        ]

    -- The state with a log, and nothing done to pool or registry.
    abbrev begun : List Step → State S
    begun l = record { log = l; pool_log = []; registry = start }

    pool-Made :
        (ch c : ℕ)
        → IsDialed c
        → Made registry env cfg start t
            (make_pool registry env cfg t ch c (begun (channel_opened ch ∷ dialed c ∷ [])))
    unfolding make_pool
    pool-Made ch c dialing =
        elim (new_publisher_channel_pool-Outcome env.broker (pos_part t.pool_size) t.pool_max_size
          []) [
            | inr (fine, full) ↦
                rw (make_pool, fine)
                  (metrics-Made cfg.enable_metrics ch c _ _ refl dialing refl refl (full, full))
            | inl (bad, kept, none_left) ↦
                elim (Option-cases
                  (new_publisher_channel_pool env.broker (pos_part t.pool_size) t.pool_max_size
                    []).0) [
                      | inl fine ↦ absurd (bad fine)
                      | inr (x, failed) ↦
                          rw (make_pool, failed)
                            (close_both-Made _ ch c _ refl (ground (arith, ap length none_left))
                              (λ d. refl))
                    ]
          ]

    channel-Made :
        (c : ℕ)
        → IsDialed c
        → Made registry env cfg start t (make_channel registry env cfg t c (begun (dialed c ∷ [])))
    unfolding make_channel
    channel-Made c dialing = elim (Result-cases env.open_channel) [
      | inl (ch, fine) ↦ simp (make_channel, fine) (pool-Made ch c dialing)
      | inr (e, bad) ↦
          simp (make_channel, bad)
            (inr (
              _,
              refl,
              record {
                conns_closed = remove_all c;
                channels_closed = refl;
                pool_closed = refl;
                context_canceled = refl;
                unregistered = λ d. refl;
              },
            ))
    ]

    conn-Made : Made registry env cfg start t (make_conn registry env cfg t (begun []))
    unfolding make_conn
    conn-Made = elim (Result-cases (env.dial (url_of cfg t) (client_config_of cfg t))) [
      | inl (c, fine) ↦ simp (make_conn, fine) (channel-Made c fine)
      | inr (e, bad) ↦
          simp (make_conn, bad)
            (inr (
              _,
              refl,
              record {
                conns_closed = refl;
                channels_closed = refl;
                pool_closed = refl;
                context_canceled = refl;
                unregistered = λ d. refl;
              },
            ))
    ]

  pub new_sdk-Outcome :
      (start : S)
      → let (r, s) =
          new_sdk registry env cfg (record { log = []; pool_log = []; registry = start }) in
        ((e : Error) × (new_sdk_settings env.ctx_nil cfg ≡ err e)
          × (r ≡ err e)
          × (s ≡ record { log = []; pool_log = []; registry = start }))
        ⊎ ((t : Settings) × (new_sdk_settings env.ctx_nil cfg ≡ ok t)
            × Made registry env cfg start t (r, s))
  unfolding new_sdk
  new_sdk-Outcome start = elim (Result-cases (new_sdk_settings env.ctx_nil cfg)) [
    | inr (e, refused) ↦ simp (new_sdk, refused) (inl (e, refl, refl, refl))
    | inl (t, accepted) ↦ simp (new_sdk, accepted) (inr (t, refl, conn-Made start t))
  ]
