-- ===== src/Pool/Tests.antt =====
-- A pool built with a broker that refuses its third channel, and one that succeeds.
use huma.Base.{◌≡◌, refl, [], ◌∷◌, none, some, pos, int32_of, ◌==◌, if◌then◌else◌}
use huma.Go.Errors.{external, errors_join}
use huma.Go.Result.{ok}
use huma.Amqp.{opened, closed}
use huma.Pool.{Broker, new_publisher_channel_pool, add_channel, add_channels}
use huma.Pool.Opening.{Outcome}
use huma.Pool.Opening.Tracked.{IsTracked, new_publisher_channel_pool-IsTracked}

-- Channel 0, the third of three, cannot be put in confirm mode.
abbrev failing : Broker
failing = record {
  open_channel = λ n. ok n;
  confirm = λ n. if n == 0 then some (external 1) else none;
  close_channel = λ _. none;
}

failing_log :
    (new_publisher_channel_pool failing 3 (pos 6) []).1.log
    ≡ closed 1 ∷ closed 2 ∷ closed 0 ∷ opened 0 ∷ opened 1 ∷ opened 2 ∷ []
unfolding new_publisher_channel_pool add_channel add_channels int32_of errors_join
failing_log = refl

new_publisher_channel_pool-IsTracked_example :
    IsTracked 2 [] (new_publisher_channel_pool failing 3 (pos 6) []).1
    × Outcome [] 3 3 (int32_of (pos 6)) (new_publisher_channel_pool failing 3 (pos 6) [])
new_publisher_channel_pool-IsTracked_example =
    new_publisher_channel_pool-IsTracked failing 3 (pos 6) [] 2
