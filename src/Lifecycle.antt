-- ===== src/Lifecycle.antt =====
-- The life of an SDK: `NewSDK`, then the application's calls, the reconnects and the calls of
-- `Shutdown`, in any order. `reconnect` holds the SDK's mutex, and so does a call of the application
-- where it changes what is kept, so each is one move here (Session/Starting has the steps of `Start`);
-- the rest are the moves of Shutdown.
pub mod Held
pub mod Schedule
pub mod Cleanup
mod Tests
use huma.Base.{ℕ, zero, suc, false, List, [], ◌∷◌, none, some, pos_part, remove, pos}
use huma.Opening.{
  Sdk as OpenedSdk, Step as OpeningStep, dialed as was_dialed, conn_closed as was_closed,
}
use huma.Connection.{ConnectionState}
use huma.Pool.{Pool}
use huma.Reconnect.{Step, dialed, conn_closed, Fixed, State, Round, reconnect}
use huma.Reconnect.Resources.{open_conns}
use huma.Session.{AppCall, call}
use huma.Shutdown.{
  Sdk, Reply, Pc, Teardown, conn_closed as conn_shut, System, Move as ShutdownMove, stepped,
  goroutine_ended, goroutine_started, worker_added, reconnected, pool_moved, move,
}

-- What the SDK keeps for a reconnect, the connections dialed and closed so far among the steps of
-- `reconnect`, and the SDK with its callers of `Shutdown`.
pub record Life : Type 0 where
  pub fixed : Fixed
  pub log : List Step
  pub system : System

-- The connections of `NewSDK`.
pub conns_of : List OpeningStep → List Step
conns_of [] = []
conns_of (was_dialed c ∷ l) = dialed c ∷ conns_of l
conns_of (was_closed c ∷ l) = conn_closed c ∷ conns_of l
conns_of (_ ∷ l) = conns_of l

-- What `NewSDK` returns, with its steps: the monitor runs, and nothing is set up.
pub begin : OpenedSdk → List OpeningStep → ConnectionState → List Pc → Life
unfolding conns_of
begin sdk steps socket callers = record {
  fixed = record {
    qos_configured = false;
    qos = record { prefetch_count = pos 0; prefetch_size = pos 0; is_global = false };
    declared_queues = [];
    queues = [];
    publisher_pool_size = pos_part sdk.publisher_pool_size;
    publisher_max_pool_size = sdk.publisher_max_pool_size;
  };
  log = conns_of steps;
  system = record {
    sdk = record {
      conn = some sdk.conn;
      channel = some sdk.channel;
      publisher_pool = some sdk.publisher_pool;
      connection_state = socket;
      running = 1;
      shutdown_once = false;
      close_once = false;
      close_err = none;
      log = [];
    };
    callers = callers;
  };
}

-- A call of the application; a run of `reconnect`; and the moves of Shutdown but that of a reconnect
-- (`added` is a worker that a `Start` of the application starts).
pub data Move : Type 0 where
  called : AppCall → Move
  reconnects : List Round → Move
  shut : ℕ → Reply → Move
  ended started added : Move
  pooled : Pool → Move

-- The fields that `reconnect` reads and writes.
pub reconnect_state : Life → State
reconnect_state y = record {
  conn = y.system.sdk.conn;
  channel = y.system.sdk.channel;
  publisher_pool = y.system.sdk.publisher_pool;
  log = y.log;
}

-- A run of `reconnect`, which is one of the goroutines that a shutdown waits for.
pub reconnect_once : List Round → Life → Life
unfolding reconnect_state
reconnect_once rounds y =
    let s = (reconnect y.fixed rounds (reconnect_state y)).1 in
    elim y.system.sdk.running [
      | zero ↦ y
      | suc n ↦ record y {
        log = s.log;
        system = move y.system (reconnected s.conn s.channel s.publisher_pool);
      }
    ]

pub live : Life → Move → Life
unfolding reconnect_once
live y (called c) = record y { fixed = (call c y.fixed).1 }
live y (reconnects rounds) = reconnect_once rounds y
live y (shut i r) = record y { system = move y.system (stepped i r) }
live y ended = record y { system = move y.system goroutine_ended }
live y started = record y { system = move y.system goroutine_started }
live y added = record y { system = move y.system worker_added }
live y (pooled p) = record y { system = move y.system (pool_moved p) }

pub lives : Life → List Move → Life
unfolding live
lives y [] = y
lives y (m ∷ ms) = lives (live y m) ms

-- The connections that are open: those that `NewSDK` and `reconnect` left, less those that the
-- shutdown closed.
abbrev pub shut_conns : List Teardown → List ℕ → List ℕ
shut_conns [] cs = cs
shut_conns (conn_shut c ∷ l) cs = remove c (shut_conns l cs)
shut_conns (_ ∷ l) cs = shut_conns l cs

abbrev pub open_now : Life → List ℕ
open_now y = shut_conns y.system.sdk.log (open_conns y.log)
