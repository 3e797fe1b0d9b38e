-- ===== src/Publisher/Tests.antt =====
-- Two publishers and a close over a pool of one channel, under a schedule that publishes one
-- message and closes the pool.
use huma.Base.{ℕ, ◌≡◌, refl, true, false, List, [], ◌∷◌, none, some, pos, int32_of, arith}
use huma.Go.Errors.{external}
use huma.Go.Result.{ok}
use huma.Amqp.{heart_beat_msg}
use huma.Pool.{Broker, World, new_publisher_channel_pool, add_channel, add_channels}
use huma.Publisher.{Reply, Job, Goroutine, System, act, step, run, entering, finished, closing}
use huma.Publisher.Accounting.{IsConsistent, new_pool_run-IsConsistent}
use huma.Publisher.Confirmation.{IsConfirmed, finished-IsConfirmed}
use huma.Pool.Opening.{opens}
use huma.Publisher.Overflow.{large_maximum_never_opens}
use huma.Publisher.Progress.{IsExpired}

abbrev broker : Broker
broker = record { open_channel = λ n. ok n; confirm = λ _. none; close_channel = λ _. none }

abbrev fine : Reply
fine = record {
  ctx = none;
  wait_ctx = none;
  pool_is_nil = false;
  is_closed = false;
  channel = ok 7;
  confirm_mode = none;
  close_channel = none;
  receives = true;
  publish = none;
  wait_confirmation = none;
  acknowledged = true;
}

abbrev expired : Reply
expired = record fine { ctx = some (external 1); wait_ctx = some (external 1) }

abbrev job : Job
job = record { exchange = ""; routing_key = "orders"; publishing = heart_beat_msg }

abbrev goroutines : List Goroutine
goroutines =
    record { job = job; pc = entering }
    ∷ record { job = job; pc = entering }
    ∷ record { job = job; pc = closing }
    ∷ []

-- The first publisher runs to its end, the second takes two steps, and the pool is closed.
abbrev schedule : List (ℕ × Reply)
schedule =
    (0, fine)
    ∷ (0, fine)
    ∷ (0, fine)
    ∷ (1, fine)
    ∷ (0, fine)
    ∷ (0, fine)
    ∷ (0, fine)
    ∷ (0, fine)
    ∷ (0, fine)
    ∷ (1, fine)
    ∷ (2, fine)
    ∷ (2, fine)
    ∷ (2, fine)
    ∷ []

abbrev start : System
start = record {
  world = (new_publisher_channel_pool broker 1 (pos 2) []).1;
  goroutines = goroutines;
}

new_pool_run-IsConsistent_example : IsConsistent (run start schedule)
unfolding new_publisher_channel_pool add_channel add_channels int32_of
new_pool_run-IsConsistent_example =
    new_pool_run-IsConsistent broker 1 (pos 2) goroutines schedule refl (omega arith)
      (refl, (refl, (refl, tt)))

abbrev quiet : System
quiet = record {
  world = record {
    pool = record {
      channels = 4 ∷ [];
      size = 1;
      max_pool_size = pos 1;
      closed = false;
      chan_closed = false;
      locked = false;
      current_pool_size = pos 1;
    };
    log = [];
  };
  goroutines = goroutines;
}

finished-IsConfirmed_example : IsConfirmed job (run quiet schedule).world.log
unfolding run step act
finished-IsConfirmed_example =
    finished-IsConfirmed quiet schedule 0 (record { job = job; pc = finished none })
      (refl, (refl, (refl, tt))) refl refl refl

-- A publisher that waits on a pool whose one channel is in use elsewhere.
abbrev busy : World
busy = record quiet.world { pool = record quiet.world.pool { channels = [] } }

expired-IsExpired : IsExpired expired
expired-IsExpired = (λ e. cc, λ e. cc)

-- The schedule on a pool whose maximum is 2^31.
large_maximum_never_opens_example :
    opens
      (run
        (record {
          world = (new_publisher_channel_pool broker 1 (pos 2147483648) []).1;
          goroutines = goroutines;
        })
        schedule).world.log
    ≡ opens (new_publisher_channel_pool broker 1 (pos 2147483648) []).1.log
unfolding new_publisher_channel_pool add_channel add_channels
large_maximum_never_opens_example =
    large_maximum_never_opens broker 1 2147483648 goroutines schedule (omega arith) (omega arith)
      refl (refl, (refl, (refl, tt)))
