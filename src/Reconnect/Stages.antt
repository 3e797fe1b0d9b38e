-- ===== src/Reconnect/Stages.antt =====
-- The stages of a round: what each adds to the log when the round succeeds.
use mathlib.Core.List.{reverse}
use huma.Base.{
  ℕ, ◌≡◌, inl, inr, refl, Bool, true, false, List, [], ◌∷◌, ◌++◌, some, if◌then◌else◌, Option-cases,
  length,
}
use huma.Go.Result.{Result-cases}
use huma.Config.Queue.{QueueConfig}
use huma.Pool.{Pool, new_publisher_channel_pool}
use huma.Pool.Opening.{new_publisher_channel_pool-Outcome}
use huma.Topology.{Declaration, declare_queues_locked}
use huma.Topology.Plan.{plans, declare_queues_locked-planned}
use huma.Start.{Call, start_with_store_queues_flag}
use huma.Start.Consumers.{start_plans, start_with_store_queues_flag-planned}
use huma.Reconnect.{
  Qos, Step, dialed, channel_opened, qos_set, declared, started, reconnects_inc, monitored, Fixed,
  State, Round, log_of, finish, restart_consumers, replace_pool, replay_topology, replay_qos,
}
use huma.Reconnect.Resources.{IsOn, Sound, wait-Sound, give_up-Sound}

-- The steps that replay the settings of the channel, the topology and the consumers, newest first.
abbrev pub qos_steps : Bool → Qos → ℕ → List Step
qos_steps b q ch = if b then qos_set ch q ∷ [] else []

abbrev pub topology_steps : List QueueConfig → List Step
topology_steps [] = []
topology_steps (q ∷ qs) = declared (reverse (plans (q ∷ qs))) ∷ []

abbrev pub consumer_steps : List QueueConfig → List Step
consumer_steps [] = []
consumer_steps (q ∷ qs) = started (reverse (start_plans (q ∷ qs))) ∷ []

-- The pool is open and holds as many channels as it is to hold.
pub record IsReady (size : ℕ) (p : Pool) : Type 0 where
  pub unclosed : p.closed ≡ false
  pub filled : length p.channels ≡ size

-- The connection, the channel and the pool are in place, the monitor is the last step, and `l` is
-- the log before it.
pub record IsLive (size c ch : ℕ) (l : List Step) (s : State) : Type 0 where
  pub on_conn : s.conn ≡ some c
  pub on_channel : s.channel ≡ some ch
  pub pool : Pool
  pub on_pool : s.publisher_pool ≡ some pool
  pub ready : IsReady size pool
  pub logged : s.log ≡ monitored ch c ∷ l

-- The steps of a round that succeeds, behind the log `l`.
abbrev pub replayed : Fixed → ℕ → ℕ → List Step → List Step
replayed f c ch l =
    consumer_steps f.queues
    ++ (reconnects_inc
        ∷ (topology_steps f.declared_queues
            ++ (qos_steps f.qos_configured f.qos ch ++ (channel_opened c ch ∷ dialed c ∷ l))))

abbrev pub IsReplayed : Fixed → State → Type 0
IsReplayed f s =
    (c : ℕ) × (ch : ℕ) × (l : List Step) × IsLive f.publisher_pool_size c ch (replayed f c ch l) s

module _ (r : Round) (c ch : ℕ) where
  -- All is in place but the consumers and the monitor.
  record IsPrepared (size : ℕ) (s : State) : Type 0 where
    on : IsOn c s
    on_channel : s.channel ≡ some ch
    pool : Pool
    on_pool : s.publisher_pool ≡ some pool
    ready : IsReady size pool

  finish-Sound :
      (size : ℕ) (s : State) → IsPrepared size s → Sound (IsLive size c ch s.log) (finish ch c s)
  unfolding finish
  finish-Sound size s h = (
    inr (c, h.on.held, h.on.open_alone),
    λ _. record {
      on_conn = h.on.held;
      on_channel = h.on_channel;
      pool = h.pool;
      on_pool = h.on_pool;
      ready = h.ready;
      logged = refl;
    },
  )

  -- A step that touches no connection.
  IsPrepared-started :
      (size : ℕ) (calls : List Call) (s : State)
      → IsPrepared size s
      → IsPrepared size (log_of (started calls) s)
  IsPrepared-started size calls s h = record {
    on = record { held = h.on.held; open_alone = h.on.open_alone };
    on_channel = h.on_channel;
    pool = h.pool;
    on_pool = h.on_pool;
    ready = h.ready;
  }

  restart-Sound :
      (qs : List QueueConfig) (s : State) (size : ℕ)
      → IsPrepared size s
      → Sound (IsLive size c ch (consumer_steps qs ++ s.log)) (restart_consumers qs r ch c s)
  unfolding restart_consumers
  restart-Sound [] s size h = finish-Sound size s h
  restart-Sound (q ∷ rest) s size h =
      elim (Result-cases
        (start_with_store_queues_flag r.consume_refused r.context (q ∷ rest) false (q ∷ rest)
          []).0) [
            | inl (_, fine) ↦
                rw
                  (
                    restart_consumers,
                    fine,
                    start_with_store_queues_flag-planned r.consume_refused r.context (q ∷ rest)
                        false (q ∷ rest) fine,
                  )
                  (finish-Sound size _ (IsPrepared-started size _ s h))
            | inr (e, bad) ↦
                rw (restart_consumers, bad)
                  (wait-Sound (IsLive size c ch (consumer_steps (q ∷ rest) ++ s.log)) r _
                    (inr (c, h.on.held, h.on.open_alone)))
          ]

  pool-Sound :
      (f : Fixed) (s : State)
      → IsOn c s
      → s.channel ≡ some ch
      → Sound
          (IsLive f.publisher_pool_size c ch (consumer_steps f.queues ++ (reconnects_inc ∷ s.log)))
          (replace_pool f r ch c s)
  unfolding replace_pool
  pool-Sound f s on on_ch =
      elim (new_publisher_channel_pool-Outcome r.broker f.publisher_pool_size
        f.publisher_max_pool_size []) [
          | inl (bad, _, _) ↦
              elim (Option-cases
                (new_publisher_channel_pool r.broker f.publisher_pool_size f.publisher_max_pool_size
                  []).0) [
                    | inl fine ↦ absurd (bad fine)
                    | inr (e, refused) ↦
                        rw (replace_pool, refused)
                          (give_up-Sound
                            (IsLive f.publisher_pool_size c ch
                              (consumer_steps f.queues ++ (reconnects_inc ∷ s.log)))
                            r ch c s on)
                  ]
          | inr (fine, filled) ↦
              rw (replace_pool, fine)
                (restart-Sound f.queues _ f.publisher_pool_size (record {
                  on = record { held = on.held; open_alone = on.open_alone };
                  on_channel = on_ch;
                  pool = _;
                  on_pool = refl;
                  ready = record { unclosed = filled.still_open; filled = filled.filled };
                }))
        ]

  topology-Sound :
      (f : Fixed) (qs : List QueueConfig) (s : State)
      → IsOn c s
      → s.channel ≡ some ch
      → Sound
          (IsLive f.publisher_pool_size c ch
            (consumer_steps f.queues ++ (reconnects_inc ∷ (topology_steps qs ++ s.log))))
          (replay_topology f qs r ch c s)
  unfolding replay_topology
  topology-Sound f [] s on on_ch = pool-Sound f s on on_ch
  topology-Sound f (q ∷ rest) s on on_ch =
      let on' : (l : List Declaration) → IsOn c (log_of (declared l) s) =
        λ l. record { held = on.held; open_alone = on.open_alone } in
      elim (Result-cases (declare_queues_locked r.server (q ∷ rest) false (q ∷ rest) []).0) [
        | inl (_, fine) ↦
            rw
              (
                replay_topology,
                fine,
                declare_queues_locked-planned r.server (q ∷ rest) false (q ∷ rest) fine,
              )
              (pool-Sound f _ (on' _) on_ch)
        | inr (e, bad) ↦
            rw (replay_topology, bad)
              (give_up-Sound
                (IsLive f.publisher_pool_size c ch (
                  consumer_steps f.queues
                  ++ (reconnects_inc ∷ (topology_steps (q ∷ rest) ++ s.log))))
                r ch c _ (on' _))
      ]

  pub qos-Sound :
      (f : Fixed) (b : Bool) (s : State)
      → IsOn c s
      → s.channel ≡ some ch
      → Sound
          (IsLive f.publisher_pool_size c ch (
            consumer_steps f.queues
            ++ (reconnects_inc
                ∷ (topology_steps f.declared_queues ++ (qos_steps b f.qos ch ++ s.log)))))
          (replay_qos f b r ch c s)
  unfolding replay_qos
  qos-Sound f false s on on_ch = topology-Sound f f.declared_queues s on on_ch
  qos-Sound f true s on on_ch =
      let on' : IsOn c (log_of (qos_set ch f.qos) s) = record {
        held = on.held;
        open_alone = on.open_alone;
      } in
      elim (Option-cases r.qos) [
        | inl fine ↦ simp (replay_qos, fine) (topology-Sound f f.declared_queues _ on' on_ch)
        | inr (e, bad) ↦
            simp (replay_qos, bad)
              (give_up-Sound
                (IsLive f.publisher_pool_size c ch (
                  consumer_steps f.queues
                  ++ (reconnects_inc
                      ∷ (topology_steps f.declared_queues ++ (qos_steps true f.qos ch ++ s.log)))))
                r ch c _ on')
      ]
