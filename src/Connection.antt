-- ===== src/Connection.antt =====
-- rabbitmqsdk.go, `connectionState` and the function `connectionConfig.Dial` of `NewSDK`: the
-- socket that the AMQP client dials, and how a shutdown interrupts it. Sockets are numbers, times
-- are nanoseconds. A section under the mutex is one step.
mod Tests
pub mod Interrupts
pub mod Raw
use huma.Base.{
  ℕ, ◌+◌, Bool, true, false, not, ◌||◌, List, [], ◌∷◌, Option, none, some, ltb, if◌then◌else◌,
}
use huma.Go.Errors.{Error, wrap, join, join_with, errors_join, net_closed}
use huma.Go.Result.{Result, ok, err}

-- Calls on a socket: SetDeadline with its time, and Close. `dialed` is the return of DialContext.
pub data SocketCall : Type 0 where
  dialed socket_closed : ℕ → SocketCall
  deadline_set : ℕ → ℕ → SocketCall

-- The field `conn` of `connectionState`, whether `sdkCtx` is done, and the calls, newest first.
pub record ConnectionState : Type 0 where
  pub conn : Option ℕ
  pub canceled : Bool
  pub log : List SocketCall

-- What a step reads of its environment: the clock and the deadlines of the two contexts, the
-- answer of DialContext, and the errors of SetDeadline and Close.
pub record Reply : Type 0 where
  pub now : ℕ
  pub context_deadline : Option ℕ
  pub dial : Result ℕ
  pub set_deadline : Option Error
  pub close_socket : Option Error

-- A deadline, or that of the context if it has one that is earlier.
pub earlier : ℕ → Option ℕ → ℕ
earlier deadline none = deadline
earlier deadline (some d) = if ltb d deadline then d else deadline

-- errors.Is(err, net.ErrClosed)
unfoldable pub is_net_closed : Error → Bool
is_net_closed net_closed = true
is_net_closed (wrap _ e) = is_net_closed e
is_net_closed (join e f) = is_net_closed e || is_net_closed f
is_net_closed _ = false

-- `interrupt`, under the mutex.
pub interrupt : Reply → ConnectionState → Option Error × ConnectionState
unfolding earlier
interrupt r s = elim s.conn [
  | none ↦ (none, s)
  | some c ↦ (
    errors_join r.set_deadline r.close_socket,
    record s { log = socket_closed c ∷ deadline_set c (earlier r.now r.context_deadline) ∷ s.log },
  )
]

-- Where the two goroutines stand: the one that dials, and the one that runs the body of
-- `shutdownOnce`.
pub data Dialer : Type 0 where
  dialing : Dialer
  limiting storing checking interrupting : ℕ → Dialer
  -- after an `interrupt` that failed
  closing : ℕ → Dialer
  returned : Result ℕ → Dialer

pub data Stopper : Type 0 where
  canceling breaking : Stopper
  broken : Option Error → Stopper

-- connectionConfig.Dial with `set`, which it calls; `timeout` is the dial timeout.
pub dial_step : ℕ → Reply → Dialer → ConnectionState → Dialer × ConnectionState
unfolding interrupt earlier
dial_step timeout r dialing s = elim r.dial [
  | err e ↦ (returned (err e), s)
  | ok c ↦ (limiting c, record s { log = dialed c ∷ s.log })
]
dial_step timeout r (limiting c) s =
    let l = deadline_set c (earlier (r.now + timeout) r.context_deadline) ∷ s.log in
    elim r.set_deadline [
      | none ↦ (storing c, record s { log = l })
      | some e ↦
          (returned (err (join_with e r.close_socket)), record s { log = socket_closed c ∷ l })
    ]
dial_step timeout r (storing c) s = (checking c, record s { conn = some c })
dial_step timeout r (checking c) s = (if s.canceled then interrupting c else returned (ok c), s)
dial_step timeout r (interrupting c) s =
    let (e, s') = interrupt r s in
    elim e [
      | none ↦ (returned (ok c), s')
      | some x ↦ (if is_net_closed x then returned (ok c) else closing c, s')
    ]
dial_step timeout r (closing c) s = (returned (ok c), record s { log = socket_closed c ∷ s.log })
dial_step timeout r (returned x) s = (returned x, s)

-- s.cancel(), and s.connectionState.interrupt(ctx), whose error is only logged.
pub stop_step : Reply → Stopper → ConnectionState → Stopper × ConnectionState
unfolding interrupt
stop_step r canceling s = (breaking, record s { canceled = true })
stop_step r breaking s = let (e, s') = interrupt r s in (broken e, s')
stop_step r (broken e) s = (broken e, s)

-- A schedule: either goroutine makes a step, or the context of the application is done.
pub data Turn : Type 0 where
  dial_turn stop_turn : Reply → Turn
  context_done : Turn

pub record Threads : Type 0 where
  pub dialer : Dialer
  pub stopper : Stopper
  pub state : ConnectionState

pub turn : ℕ → Threads → Turn → Threads
unfolding dial_step stop_step
turn timeout t (dial_turn r) =
    let (d, s) = dial_step timeout r t.dialer t.state in record t { dialer = d; state = s }
turn timeout t (stop_turn r) =
    let (p, s) = stop_step r t.stopper t.state in record t { stopper = p; state = s }
turn timeout t context_done = record t { state = record t.state { canceled = true } }

pub turns : ℕ → Threads → List Turn → Threads
unfolding turn
turns timeout t [] = t
turns timeout t (x ∷ xs) = turns timeout (turn timeout t x) xs
