-- ===== src/Reconnect.antt =====
-- reconnect.go, `reconnect`: the loop that replaces the connection, its channel and the publisher
-- pool, and replays the topology and the consumers. It holds the SDK's mutex throughout, so the
-- queues and the settings do not change while it runs. Logging is left out, and with it the errors
-- of the calls that close something, which are only logged.
pub mod Resources
pub mod Stages
pub mod Replay
pub mod Progress
pub mod Counting
pub mod Monitor
pub mod Tests
use huma.Base.{ℕ, Bool, true, false, List, [], ◌∷◌, Option, none, some, ℤ, if◌then◌else◌}
use huma.Go.Errors.{Error}
use huma.Go.Result.{Result, ok, err}
use huma.Config.Queue.{QueueConfig}
use huma.Pool.{Pool, World, Broker, new_publisher_channel_pool}
use huma.Topology.{Server, Declaration, declare_queues_locked}
use huma.Start.{Call, start_with_store_queues_flag}

-- What `SetQos` was called with.
pub record Qos : Type 0 where
  pub prefetch_count : ℤ
  pub prefetch_size : ℤ
  pub is_global : Bool

-- What `reconnect` does, with the numbers that name connections and channels.
pub data Step : Type 0 where
  -- close of the old publisher pool; Close of a channel and of a connection
  pool_closed : Step
  channel_closed conn_closed : ℕ → Step
  -- DialConfig, and Channel with the connection first
  dialed : ℕ → Step
  channel_opened : ℕ → ℕ → Step
  -- Qos on a channel, with its values
  qos_set : ℕ → Qos → Step
  -- the calls of declareQueuesLocked and of startWithStoreQueuesFlag, newest first
  declared : List Declaration → Step
  started : List Call → Step
  reconnects_inc waited : Step
  -- the new goroutine of monitorConnection, with its channel and connection
  monitored : ℕ → ℕ → Step

-- The fields of the SDK that do not change here.
pub record Fixed : Type 0 where
  pub qos_configured : Bool
  pub qos : Qos
  pub declared_queues : List QueueConfig
  pub queues : List QueueConfig
  pub publisher_pool_size : ℕ
  pub publisher_max_pool_size : ℤ

-- The fields that do, with the log, newest first.
pub record State : Type 0 where
  pub conn : Option ℕ
  pub channel : Option ℕ
  pub publisher_pool : Option Pool
  pub log : List Step

-- What the environment answers in one round of the loop: whether the context is done at its start,
-- the connection, whether the context is done then, the channel, the error of Qos, the servers of
-- the three replays, the context's error before the consumers start, and whether the timer fires
-- before the context is done.
pub record Round : Type 0 where
  pub done : Bool
  pub dial : Result ℕ
  pub canceled : Bool
  pub open_channel : Result ℕ
  pub qos : Option Error
  pub server : Server
  pub broker : Broker
  pub context : Option Error
  pub consume_refused : List Call → QueueConfig → Option Error
  pub timer_fired : Bool

-- How a round ends: with `continue`, a `return`, or the `return` after the monitor is started.
pub data Ending : Type 0 where
  again stopped reconnected : Ending

abbrev pub log_of : Step → State → State
log_of e s = record s { log = e ∷ s.log }

-- if !s.waitReconnect(ctx) { return }; continue
pub wait_reconnect : Round → State → Ending × State
wait_reconnect r s = if r.timer_fired then (again, log_of waited s) else (stopped, s)

pub close_old_pool : State → State
close_old_pool s = elim s.publisher_pool [
  | none ↦ s
  | some _ ↦ record s { publisher_pool = none; log = pool_closed ∷ s.log }
]

pub close_old_channel : State → State
close_old_channel s = elim s.channel [ none ↦ s | some ch ↦ log_of (channel_closed ch) s ]

pub close_old_conn : State → State
close_old_conn s = elim s.conn [ none ↦ s | some c ↦ log_of (conn_closed c) s ]

close_reconnect_resources : ℕ → ℕ → State → State
close_reconnect_resources ch c s = log_of (conn_closed c) (log_of (channel_closed ch) s)

-- The same, before the round is given up.
pub give_up_round : Round → ℕ → ℕ → State → Ending × State
unfolding close_reconnect_resources wait_reconnect
give_up_round r ch c s = wait_reconnect r (close_reconnect_resources ch c s)

-- From the end of the round backwards: the monitor.
finish : ℕ → ℕ → State → Ending × State
finish ch c s = (reconnected, log_of (monitored ch c) s)

-- if len(s.queues) > 0: a failure here closes nothing.
restart_consumers : List QueueConfig → Round → ℕ → ℕ → State → Ending × State
unfolding finish wait_reconnect
restart_consumers [] r ch c s = finish ch c s
restart_consumers (q ∷ rest) r ch c s =
    let qs = q ∷ rest in
    let (result, _, calls) =
      start_with_store_queues_flag r.consume_refused r.context qs false qs [] in
    let s' = log_of (started calls) s in
    elim result [ ok _ ↦ finish ch c s' | err _ ↦ wait_reconnect r s' ]

replace_pool : Fixed → Round → ℕ → ℕ → State → Ending × State
unfolding restart_consumers give_up_round
replace_pool f r ch c s =
    let (e, w) =
      new_publisher_channel_pool r.broker f.publisher_pool_size f.publisher_max_pool_size [] in
    elim e [
      | some _ ↦ give_up_round r ch c s
      | none ↦
          restart_consumers f.queues r ch c
            (record s { publisher_pool = some w.pool; log = reconnects_inc ∷ s.log })
    ]

-- if len(s.declaredQueues) > 0
replay_topology : Fixed → List QueueConfig → Round → ℕ → ℕ → State → Ending × State
unfolding replace_pool give_up_round
replay_topology f [] r ch c s = replace_pool f r ch c s
replay_topology f (q ∷ rest) r ch c s =
    let qs = q ∷ rest in
    let (result, _, made) = declare_queues_locked r.server qs false qs [] in
    let s' = log_of (declared made) s in
    elim result [ ok _ ↦ replace_pool f r ch c s' | err _ ↦ give_up_round r ch c s' ]

-- if s.qosConfigured
pub replay_qos : Fixed → Bool → Round → ℕ → ℕ → State → Ending × State
unfolding replay_topology give_up_round
replay_qos f false r ch c s = replay_topology f f.declared_queues r ch c s
replay_qos f true r ch c s =
    let s' = log_of (qos_set ch f.qos) s in
    elim r.qos [
      | none ↦ replay_topology f f.declared_queues r ch c s'
      | some _ ↦ give_up_round r ch c s'
    ]

replace_channel : Fixed → Round → ℕ → State → Ending × State
unfolding replay_qos wait_reconnect
replace_channel f r c s = elim r.open_channel [
  | err _ ↦ wait_reconnect r (log_of (conn_closed c) s)
  | ok ch ↦
      replay_qos f f.qos_configured r ch c
        (record s { conn = some c; channel = some ch; log = channel_opened c ch ∷ s.log })
]

replace_conn : Fixed → Round → State → Ending × State
unfolding replace_channel wait_reconnect
replace_conn f r s = elim r.dial [
  | err _ ↦ wait_reconnect r s
  | ok c ↦
      let s' = log_of (dialed c) s in
      elim r.canceled [
        | true ↦ (stopped, log_of (conn_closed c) s')
        | false ↦ replace_channel f r c s'
      ]
]

unfoldable pub round : Fixed → Round → State → Ending × State
unfolding replace_conn close_old_pool close_old_channel close_old_conn
round f r s = elim r.done [
  | true ↦ (stopped, s)
  | false ↦ replace_conn f r (close_old_conn (close_old_channel (close_old_pool s)))
]

-- The loop, for as many rounds as the list answers; the end `again` says that it goes on.
unfoldable pub reconnect : Fixed → List Round → State → Ending × State
unfolding round
reconnect f [] s = (again, s)
reconnect f (r ∷ rest) s =
    let (e, s') = round f r s in
    elim e [
      | again ↦ reconnect f rest s'
      | stopped ↦ (stopped, s')
      | reconnected ↦ (reconnected, s')
    ]
