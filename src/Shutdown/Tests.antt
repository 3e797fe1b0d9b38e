-- ===== src/Shutdown/Tests.antt =====
-- Two calls, of which the second closes, while one goroutine still runs at first.
use huma.Base.{◌≡◌, refl, true, false, List, [], ◌∷◌, none, some, pos, arith, inl}
use huma.Go.Errors.{external, errors_join, is_amqp_closed}
use huma.Go.Result.{ok}
use huma.Pool.{Pool, close_pool, drain}
use huma.Connection.{Reply as SocketReply}
use huma.Shutdown.{
  Sdk, Reply, entering, waiting, finished, Move, stepped, goroutine_ended, worker_added, System,
  act, move, moves,
}
use huma.Shutdown.Orderly.{IsClosed}
use huma.Shutdown.Closing.{AllTimely, last_pool, finished-IsClosed_once}
use huma.Shutdown.Progress.{drive, is_returned, drive_returns}

abbrev pool : Pool
pool = record {
  channels = 4 ∷ 5 ∷ [];
  size = 2;
  max_pool_size = pos 4;
  closed = false;
  chan_closed = false;
  locked = false;
  current_pool_size = pos 2;
}

abbrev pub idle_socket : SocketReply
idle_socket = record {
  now = 9;
  context_deadline = none;
  dial = ok 1;
  set_deadline = none;
  close_socket = none;
}

-- Closing the channel fails.
abbrev pub reply : Reply
reply = record {
  ctx_nil = false;
  ctx = none;
  socket = idle_socket;
  prefers_done = true;
  broker = record { open_channel = λ n. ok n; confirm = λ _. none; close_channel = λ _. none };
  close_channel = some (external 3);
  close_conn = none;
}

abbrev pub sdk : Sdk
sdk = record {
  conn = some 1;
  channel = some 2;
  publisher_pool = some pool;
  connection_state = record { conn = some 7; canceled = false; log = [] };
  running = 1;
  shutdown_once = false;
  close_once = false;
  close_err = none;
  log = [];
}

abbrev system : System
system = record { sdk = sdk; callers = entering ∷ entering ∷ [] }

abbrev schedule : List Move
schedule =
    stepped 0 reply
    ∷ stepped 0 reply
    ∷ stepped 0 reply
    ∷ stepped 1 reply
    ∷ worker_added
    ∷ goroutine_ended
    ∷ goroutine_ended
    ∷ stepped 1 reply
    ∷ stepped 1 reply
    ∷ stepped 1 reply
    ∷ stepped 0 reply
    ∷ stepped 0 reply
    ∷ []

both_fail :
    (moves system schedule).callers
    ≡ finished (some (external 3)) ∷ finished (some (external 3)) ∷ []
unfolding moves move act close_pool drain errors_join is_amqp_closed
both_fail = refl

schedule_timely : AllTimely system schedule
unfolding moves move act close_pool drain errors_join is_amqp_closed
schedule_timely = (tt, (tt, (tt, (tt, (λ h. cc, (tt, (tt, (tt, (tt, (tt, (tt, (tt, tt))))))))))))

finished-IsClosed_once_example :
    IsClosed (last_pool none system schedule) (moves system schedule).sdk
    × (some (external 3) ≡ (moves system schedule).sdk.close_err)
unfolding moves move act close_pool drain errors_join is_amqp_closed
finished-IsClosed_once_example =
    finished-IsClosed_once system schedule 0 (some (external 3))
      (record { unsignalled = refl; unclosed = refl; unlogged = refl; no_error = refl })
      (refl, (refl, tt)) schedule_timely refl

abbrev pub expired : Reply
expired = record reply { ctx = some (external 1) }

drive_returns_example : is_returned (drive ((expired, sdk) ∷ (expired, sdk) ∷ []) waiting) ≡ true
drive_returns_example =
    drive_returns ((expired, sdk) ∷ (expired, sdk) ∷ []) waiting
      (inl (λ e. cc), (inl (λ e. cc), tt)) (omega arith)
