-- ===== src/Connection/Raw.antt =====
-- publisher_pool.go, `interrupt`, with the socket that a pool is given: NewSDK and each round of
-- `reconnect` read it with `connectionState.current` after they have dialed. A publish that gives up
-- closes it, and so may one that still holds a pool of an earlier connection.
pub mod Owned
mod Tests
use huma.Base.{ℕ, ◌+◌, List, [], ◌∷◌, ◌++◌, Option, none, some, get_elem?}
use huma.Go.Errors.{Error, errors_join}
use huma.Go.Result.{Result, ok, err}
use huma.Connection.{ConnectionState, SocketCall, deadline_set, socket_closed, Reply}

-- A connection of the client, which reads and writes the socket that its `Dial` returned.
pub record Conn : Type 0 where
  pub number : ℕ
  pub socket : ℕ

-- The fields `conn` and `rawConn` of a pool; Pool has the others.
pub record RawPool : Type 0 where
  pub conn : Conn
  pub raw_conn : Option ℕ

pub current : ConnectionState → Option ℕ
current s = s.conn

-- SetDeadline(time.Now()) and Close on the socket, if there is one.
unfoldable pub interrupt_pool : Reply → RawPool → ConnectionState → Option Error × ConnectionState
interrupt_pool r p s = elim p.raw_conn [
  | none ↦ (none, s)
  | some c ↦ (
    errors_join r.set_deadline r.close_socket,
    record s { log = socket_closed c ∷ deadline_set c r.now ∷ s.log },
  )
]

-- How DialConfig goes: its `Dial` fails; it has stored a socket, and the client gives up the
-- connection; or there is a connection, with its number.
pub data Attempt : Type 0 where
  unreached : Error → Attempt
  refused : Error → Attempt
  established : ℕ → Attempt

-- The state of the connection, the pools made so far, and how many sockets were dialed: a socket is
-- named by its place among them.
pub record Sockets : Type 0 where
  pub state : ConnectionState
  pub pools : List RawPool
  pub dials : ℕ

-- `set`, as Dial calls it with its socket.
stored : Sockets → Sockets
stored y = record y { state = record y.state { conn = some y.dials }; dials = y.dials + 1 }

dial_config : Attempt → Sockets → Result Conn × Sockets
unfolding stored
dial_config (unreached e) y = (err e, y)
dial_config (refused e) y = (err e, stored y)
dial_config (established c) y = (ok (record { number = c; socket = y.dials }), stored y)

-- newPublisherChannelPool(ctx, conn, state.current(ctx), …), as far as the two fields go.
add_pool : Result Conn × Sockets → Sockets
unfolding current
add_pool (err e, y) = y
add_pool (ok c, y) = record y {
  pools = y.pools ++ record { conn = c; raw_conn = current y.state } ∷ [];
}

-- NewSDK or a round of `reconnect`; or a publish that holds a pool and gives up.
pub data Move : Type 0 where
  connects : Attempt → Move
  gives_up : ℕ → Reply → Move

interrupted : Reply → Option RawPool → Sockets → Sockets
unfolding interrupt_pool
interrupted r none y = y
interrupted r (some p) y = record y { state = (interrupt_pool r p y.state).1 }

unfoldable pub move : Sockets → Move → Sockets
unfolding add_pool dial_config interrupted
move y (connects a) = add_pool (dial_config a y)
move y (gives_up i r) = interrupted r (get_elem? y.pools i) y

unfoldable pub moves : Sockets → List Move → Sockets
unfolding move
moves y [] = y
moves y (m ∷ ms) = moves (move y m) ms
