-- ===== src/Publisher/State.antt =====
-- What a step of a goroutine over the pool reads, and where a goroutine stands.
use huma.Base.{ℕ, Bool, Option, String}
use huma.Go.Errors.{Error}
use huma.Go.Result.{Result}
use huma.Amqp.{Publishing}

-- What a step reads of its environment. `ctx` is what `validateContext(ctx)` returns; a context's
-- error is also how a select sees that it is done. `wait_ctx` is the error of the pool's context.
pub record Reply : Type 0 where
  pub ctx : Option Error
  pub wait_ctx : Option Error
  pub pool_is_nil : Bool
  pub is_closed : Bool
  pub channel : Result ℕ
  pub confirm_mode : Option Error
  pub close_channel : Option Error
  pub receives : Bool
  pub publish : Option Error
  pub wait_confirmation : Option Error
  pub acknowledged : Bool

-- What the caller of `publishAMQP` asked for.
pub record Job : Type 0 where
  pub exchange : String
  pub routing_key : String
  pub publishing : Publishing

pub data Pc : Type 0 where
  -- publishAMQP, before `pool.get`
  entering : Pc
  -- get: the top of the loop, tryTakeChannel, the test and the count of what it took, the two tests
  -- of the size (the second holds the mutex), and the select with the same two tests again
  checking taking : Pc
  testing dropping : ℕ → Pc
  sizing locking opening waiting : Pc
  retesting redropping : ℕ → Pc
  -- publishAMQP with a channel, and the deferred `put` with the error to return
  validating publishing confirming : ℕ → Pc
  returning : ℕ → Option Error → Pc
  finished : Option Error → Pc
  -- close: the section under the mutex, and the loop that drains
  closing : Pc
  draining : Option Error → Pc
  discarding : ℕ → Option Error → Pc
  stopped : Option Error → Pc
  -- a send on a closed channel, or a second close of one
  panicked : Pc
