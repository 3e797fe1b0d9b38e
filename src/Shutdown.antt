-- ===== src/Shutdown.antt =====
-- rabbitmqsdk.go, `Shutdown`, called by any number of goroutines at once. `shutdownOnce` and
-- `closeOnce` are flags: sync.Once runs its function for the first caller, and the others wait for
-- it, so a body is one step. Logging is left out, and with it the error of the interrupt.
pub mod Tests
pub mod Orderly
pub mod Closing
pub mod Kept
pub mod Progress
use huma.Base.{
  ℕ, zero, suc, Bool, true, false, List, [], ◌∷◌, ◌++◌, Option, none, some, get_elem?, set,
  if◌then◌else◌,
}
use huma.Go.Errors.{Error, context_nil, wrap, errors_join, is_amqp_closed}
use huma.Amqp.{Event}
use huma.Pool.{Pool, Broker, World, close_pool}
use huma.Connection.{ConnectionState, interrupt, Reply as SocketReply}

-- What closing closes: the publisher pool, with the calls that this makes, newest first; the
-- channel; the connection.
pub data Teardown : Type 0 where
  pool_closed : List Event → Teardown
  channel_closed conn_closed : ℕ → Teardown

-- The fields of the SDK that a shutdown uses, with the number of goroutines that `wg` counts.
pub record Sdk : Type 0 where
  pub conn : Option ℕ
  pub channel : Option ℕ
  pub publisher_pool : Option Pool
  pub connection_state : ConnectionState
  pub running : ℕ
  pub shutdown_once : Bool
  pub close_once : Bool
  pub close_err : Option Error
  pub log : List Teardown

-- What a step reads of its environment: the context, the clock and the socket for the interrupt,
-- which case a select takes when both are ready, and the errors of the calls that close.
pub record Reply : Type 0 where
  pub ctx_nil : Bool
  pub ctx : Option Error
  pub socket : SocketReply
  pub prefers_done : Bool
  pub broker : Broker
  pub close_channel : Option Error
  pub close_conn : Option Error

-- Where a caller stands; `gave_up` is a return before `closeOnce`.
pub data Pc : Type 0 where
  entering signalling waiting closing : Pc
  gave_up : Error → Pc
  finished : Option Error → Pc

-- The body of `shutdownOnce`.
signal : Reply → Sdk → Sdk
signal r s = record s {
  shutdown_once = true;
  connection_state = (interrupt r.socket (record s.connection_state { canceled = true })).1;
}

-- The select: `done` is closed once no goroutine runs.
wait : Reply → Sdk → Pc
wait r s = elim s.running [
  | zero ↦ elim r.ctx [
    | none ↦ closing
    | some e ↦ if r.prefers_done then closing else gave_up (wrap "wait for SDK shutdown" e)
  ]
  | suc n ↦ elim r.ctx [ none ↦ waiting | some e ↦ gave_up (wrap "wait for SDK shutdown" e) ]
]

-- if closeErr != nil && !errors.Is(closeErr, amqp091.ErrClosed) { s.closeErr = errors.Join(…) }
pub keep_error : Option Error → Option Error → Option Error
keep_error kept none = kept
keep_error kept (some e) = if is_amqp_closed e then kept else errors_join kept (some e)

-- The three parts of the body of `closeOnce`: the error of each, and what it closes.
close_publisher_pool : Reply → Option Pool → Option Error × List Teardown
close_publisher_pool r none = (none, [])
close_publisher_pool r (some p) =
    let (e, w) = close_pool r.broker (record { pool = p; log = [] }) in (e, pool_closed w.log ∷ [])

close_consume_channel : Reply → Option ℕ → Option Error × List Teardown
close_consume_channel r none = (none, [])
close_consume_channel r (some ch) = (r.close_channel, channel_closed ch ∷ [])

close_connection : Reply → Option ℕ → Option Error × List Teardown
close_connection r none = (none, [])
close_connection r (some c) = (r.close_conn, conn_closed c ∷ [])

close_all : Reply → Sdk → Sdk
unfolding close_publisher_pool close_consume_channel close_connection keep_error
close_all r s =
    let (pool_err, pool_log) = close_publisher_pool r s.publisher_pool in
    let (channel_err, channel_log) = close_consume_channel r s.channel in
    let (conn_err, conn_log) = close_connection r s.conn in
    record s {
      publisher_pool = none;
      close_once = true;
      close_err = keep_error (keep_error (keep_error s.close_err pool_err) channel_err) conn_err;
      log = conn_log ++ (channel_log ++ (pool_log ++ s.log));
    }

-- One step of a caller.
unfoldable pub act : Reply → Pc → Sdk → Pc × Sdk
unfolding signal wait close_all
act r entering s = (if r.ctx_nil then gave_up context_nil else signalling, s)
act r signalling s = (waiting, if s.shutdown_once then s else signal r s)
act r waiting s = (wait r s, s)
act r closing s = let s' = if s.close_once then s else close_all r s in (finished s'.close_err, s')
act r (gave_up e) s = (gave_up e, s)
act r (finished e) s = (finished e, s)

-- What happens: a step of the caller with a number; a goroutine that `wg` counts ends, or starts
-- another, or is that of `reconnect` and replaces the connection, the channel and the pool; a `Start`
-- of the application starts a worker, whether or not a goroutine runs; or a publisher changes the
-- pool.
pub data Move : Type 0 where
  stepped : ℕ → Reply → Move
  goroutine_ended goroutine_started worker_added : Move
  reconnected : Option ℕ → Option ℕ → Option Pool → Move
  pool_moved : Pool → Move

pub record System : Type 0 where
  pub sdk : Sdk
  pub callers : List Pc

step_of : Reply → ℕ → System → Option Pc → System
unfolding act
step_of r i s none = s
step_of r i s (some pc) =
    let (pc', sdk) = act r pc s.sdk in record { sdk = sdk; callers = set s.callers i pc' }

pub goroutines_move : Move → Sdk → Sdk
goroutines_move (stepped i r) s = s
goroutines_move worker_added s = record s { running = suc s.running }
goroutines_move goroutine_ended s = elim s.running [ zero ↦ s | suc n ↦ record s { running = n } ]
goroutines_move goroutine_started s = elim s.running [
  | zero ↦ s
  | suc n ↦ record s { running = suc (suc n) }
]
goroutines_move (reconnected c ch p) s = elim s.running [
  | zero ↦ s
  | suc n ↦ record s { conn = c; channel = ch; publisher_pool = p }
]
goroutines_move (pool_moved p) s = elim s.publisher_pool [
  | none ↦ s
  | some _ ↦ record s { publisher_pool = some p }
]

unfoldable pub move : System → Move → System
unfolding step_of goroutines_move
move s (stepped i r) = step_of r i s (get_elem? s.callers i)
move s m = record s { sdk = goroutines_move m s.sdk }

unfoldable pub moves : System → List Move → System
unfolding move
moves s [] = s
moves s (m ∷ ms) = moves (move s m) ms
