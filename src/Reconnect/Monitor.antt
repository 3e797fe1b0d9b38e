-- ===== src/Reconnect/Monitor.antt =====
-- reconnect.go, `monitorConnection` and `handleCloseError`: what watches a connection, and the flag
-- `reconnecting` with the goroutines that run `reconnect`.
use huma.Base.{
  ℕ, zero, suc, ◌≡◌, Bool, true, false, List, [], ◌∷◌, Option, none, some, arith, if◌then◌else◌,
}
use huma.Go.Errors.{Error}

-- What the select of `monitorConnection` receives: the end of the context, and a value (an error or
-- nil) or the close of `channelClose` and of `connClose`.
pub data Notice : Type 0 where
  done channel_ended conn_ended : Notice
  channel_notice conn_notice : Option Error → Notice

-- The flag, and how many goroutines run `reconnect` and have not cleared it yet.
pub record Flag : Type 0 where
  pub reconnecting : Bool
  pub loops : ℕ

-- With CompareAndSwap(false, true), whose success starts a goroutine.
pub handle_close_error : Option Error → Flag → Flag
handle_close_error none s = s
handle_close_error (some e) s =
    if s.reconnecting then s else record { reconnecting = true; loops = suc s.loops }

-- The loop, with whether each of the two Go channels is still read; one that was set to nil is never
-- received from, and when both are the loop ends.
pub monitor_connection : Bool → Bool → List Notice → Flag → Flag
unfolding handle_close_error
monitor_connection chan conn [] s = s
monitor_connection chan conn (done ∷ rest) s = s
monitor_connection chan conn (channel_ended ∷ rest) s = monitor_connection false conn rest s
monitor_connection chan conn (conn_ended ∷ rest) s = monitor_connection chan false rest s
monitor_connection true conn (channel_notice e ∷ rest) s = handle_close_error e s
monitor_connection false conn (channel_notice e ∷ rest) s = monitor_connection false conn rest s
monitor_connection chan true (conn_notice e ∷ rest) s = handle_close_error e s
monitor_connection chan false (conn_notice e ∷ rest) s = monitor_connection chan false rest s

-- What happens to the flag: a monitor, from its start to its end, acts on it once at most; and a
-- goroutine of `reconnect` ends, with its deferred Store(false).
pub data Move : Type 0 where
  watched : List Notice → Move
  loop_ended : Move

pub move : Move → Flag → Flag
unfolding monitor_connection
move (watched ns) s = monitor_connection true true ns s
move loop_ended s = elim s.loops [ zero ↦ s | suc n ↦ record { reconnecting = false; loops = n } ]

pub moves : List Move → Flag → Flag
unfolding move
moves [] s = s
moves (m ∷ ms) s = moves ms (move m s)

abbrev pub idle : Flag
idle = record { reconnecting = false; loops = 0 }

-- As many goroutines as the flag says: none or one.
abbrev pub IsSingle : Flag → Type 0
IsSingle s = s.loops ≡ (if s.reconnecting then 1 else 0)

handle-IsSingle : (e : Option Error) (s : Flag) → IsSingle s → IsSingle (handle_close_error e s)
unfolding handle_close_error
handle-IsSingle none s h = h
handle-IsSingle (some e) s h = ground arith

monitor-IsSingle :
    (chan conn : Bool) (ns : List Notice) (s : Flag)
    → IsSingle s
    → IsSingle (monitor_connection chan conn ns s)
unfolding monitor_connection
monitor-IsSingle chan conn [] s h = h
monitor-IsSingle chan conn (done ∷ rest) s h = h
monitor-IsSingle chan conn (channel_ended ∷ rest) s h = monitor-IsSingle false conn rest s h
monitor-IsSingle chan conn (conn_ended ∷ rest) s h = monitor-IsSingle chan false rest s h
monitor-IsSingle true conn (channel_notice e ∷ rest) s h = handle-IsSingle e s h
monitor-IsSingle false conn (channel_notice e ∷ rest) s h = monitor-IsSingle false conn rest s h
monitor-IsSingle chan true (conn_notice e ∷ rest) s h = handle-IsSingle e s h
monitor-IsSingle chan false (conn_notice e ∷ rest) s h = monitor-IsSingle chan false rest s h

move-IsSingle : (m : Move) (s : Flag) → IsSingle s → IsSingle (move m s)
unfolding move
move-IsSingle (watched ns) s h = monitor-IsSingle true true ns s h
move-IsSingle loop_ended s h = ground arith

-- Whatever the monitors of the connections are told, and whenever a goroutine of `reconnect` ends:
-- from an SDK on which none runs, one runs while the flag is set, and none while it is clear.
pub moves-IsSingle : (ms : List Move) (s : Flag) → IsSingle s → IsSingle (moves ms s)
unfolding moves
moves-IsSingle [] s h = h
moves-IsSingle (m ∷ ms) s h = moves-IsSingle ms _ (move-IsSingle m s h)
