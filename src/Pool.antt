-- ===== src/Pool.antt =====
-- publisher_pool.go: the pool of channels. `channels` is the buffered Go channel of that name, its
-- oldest entry first; `chan_closed` is the state that Go's `close` sets on it. `locked` is the
-- mutex. `current_pool_size` counts channels that exist at once, which AMQP numbers in 16 bits, so
-- it is an exact integer.
mod Tests
pub mod Opening
pub mod Draining
use huma.Base.{
  ℕ, zero, suc, Bool, true, false, List, [], ◌∷◌, ◌++◌, Option, none, some, ℤ, pos, suc_ℤ, pred_ℤ,
  int32_of, if◌then◌else◌,
}
use huma.Go.Errors.{Error, errors_join, is_amqp_closed}
use huma.Go.Result.{Result, ok, err}
use huma.Amqp.{Event, opened, closed}

pub record Pool : Type 0 where
  pub channels : List ℕ
  pub size : ℕ
  pub max_pool_size : ℤ
  pub closed : Bool
  pub chan_closed : Bool
  pub locked : Bool
  pub current_pool_size : ℤ

-- The pool and the log of calls.
pub record World : Type 0 where
  pub pool : Pool
  pub log : List Event

-- p.currentPoolSize.Add(1) and Add(-1)
abbrev pub add_one : Pool → Pool
add_one p = record p { current_pool_size = suc_ℤ p.current_pool_size }

abbrev pub drop_one : Pool → Pool
drop_one p = record p { current_pool_size = pred_ℤ p.current_pool_size }

-- What the environment answers while the pool is built or closed: for the channel that is opened
-- with `left` more to go, its number or an error, and the error of `Confirm`; and the error of
-- `Close` on a channel.
pub record Broker : Type 0 where
  pub open_channel : ℕ → Result ℕ
  pub confirm : ℕ → Option Error
  pub close_channel : ℕ → Option Error

-- if err := ch.Close(); err != nil && !errors.Is(err, amqp091.ErrClosed) { errs = append(errs, err) }
abbrev pub note_close : Option Error → Option Error → Option Error
note_close none errs = errs
note_close (some e) errs = if is_amqp_closed e then errs else errors_join (some e) errs

-- The loop `for ch := range p.channels` of `close`.
unfoldable pub drain : Broker → List ℕ → World → Option Error × World
drain b [] w = (none, w)
drain b (ch ∷ rest) w =
    let (errs, v) =
      drain b rest
        (record { pool = drop_one (record w.pool { channels = rest }); log = closed ch ∷ w.log }) in
    (note_close (b.close_channel ch) errs, v)

-- `close`, called where no other goroutine uses the pool.
unfoldable pub close_pool : Broker → World → Option Error × World
unfolding drain
close_pool b w =
    if w.pool.closed
    then (none, w)
    else drain b w.pool.channels
        (record w { pool = record w.pool { closed = true; chan_closed = true } })

-- One round of the loop of `newPublisherChannelPool`; an error leaves the pool closed.
unfoldable pub add_channel : Broker → ℕ → World → Option Error × World
unfolding close_pool
add_channel b left w = elim (b.open_channel left) [
  | err e ↦ let (e', v) = close_pool b w in (errors_join (some e) e', v)
  | ok ch ↦ elim (b.confirm ch) [
    | some e ↦
        let (e', v) = close_pool b (record w { log = closed ch ∷ opened ch ∷ w.log }) in
        (errors_join (errors_join (some e) (b.close_channel ch)) e', v)
    | none ↦ (
      none,
      record {
        pool = add_one (record w.pool { channels = w.pool.channels ++ ch ∷ [] });
        log = opened ch ∷ w.log;
      },
    )
  ]
]

-- for range size
unfoldable pub add_channels : Broker → ℕ → World → Option Error × World
add_channels b zero w = (none, w)
add_channels b (suc left) w =
    let (e, v) = add_channel b left w in
    elim e [ some e' ↦ (some e', v) | none ↦ add_channels b left v ]

abbrev pub empty_pool : ℕ → ℤ → Pool
empty_pool size max_pool_size = record {
  channels = [];
  size = size;
  max_pool_size = int32_of max_pool_size;
  closed = false;
  chan_closed = false;
  locked = false;
  current_pool_size = pos 0;
}

-- On an error the world is still returned, for what its log says.
unfoldable pub new_publisher_channel_pool : Broker → ℕ → ℤ → List Event → Option Error × World
new_publisher_channel_pool b size max_pool_size log =
    add_channels b size (record { pool = empty_pool size max_pool_size; log = log })
