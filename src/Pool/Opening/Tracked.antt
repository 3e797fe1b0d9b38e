-- ===== src/Pool/Opening/Tracked.antt =====
-- publisher_pool.go, `newPublisherChannelPool`: each channel that it opens, by its number.
use huma.Base.{
  ℕ, zero, suc, ◌+◌, ◌≡◌, refl, inl, inr, List, [], ◌∷◌, ◌++◌, ◌==◌, if◌then◌else◌, ℤ, int32_of,
  arith, Bool-cases, Option-cases,
}
use huma.Go.Result.{Result-cases}
use huma.Amqp.{Event, opened, closed}
use huma.Pool.{
  World, Broker, drain, close_pool, add_channel, add_channels, new_publisher_channel_pool,
}
use huma.Pool.Opening.{Outcome, new_publisher_channel_pool-Outcome}

-- How often the log opens, and closes, the channel with a number.
abbrev pub opens_of : ℕ → List Event → ℕ
opens_of k [] = 0
opens_of k (opened ch ∷ l) = (if ch == k then 1 else 0) + opens_of k l
opens_of k (_ ∷ l) = opens_of k l

abbrev pub closes_of : ℕ → List Event → ℕ
closes_of k [] = 0
closes_of k (closed ch ∷ l) = (if ch == k then 1 else 0) + closes_of k l
closes_of k (_ ∷ l) = closes_of k l

abbrev pub count : ℕ → List ℕ → ℕ
count k [] = 0
count k (ch ∷ chs) = (if ch == k then 1 else 0) + count k chs

count-append :
    (k : ℕ) (chs : List ℕ) (ch : ℕ) → count k (chs ++ ch ∷ []) ≡ count k chs + count k (ch ∷ [])
count-append k [] ch = omega arith
count-append k (x ∷ chs) ch = omega (arith, count-append k chs ch)

-- Since the log `l`, the channel `k` was opened as often as it was closed or is in the buffer.
abbrev pub IsTracked : ℕ → List Event → World → Type 0
IsTracked k l w =
    opens_of k w.log + closes_of k l ≡ closes_of k w.log + opens_of k l + count k w.pool.channels

module _ (b : Broker) (k : ℕ) (l : List Event) where
  drain-IsTracked :
      (chs : List ℕ) (w : World)
      → w.pool.channels ≡ chs
      → IsTracked k l w
      → IsTracked k l (drain b chs w).1
  unfolding drain
  drain-IsTracked [] w e h = h
  drain-IsTracked (ch ∷ rest) w e h = drain-IsTracked rest _ refl (ground arith)

  close_pool-IsTracked : (w : World) → IsTracked k l w → IsTracked k l (close_pool b w).1
  unfolding close_pool
  close_pool-IsTracked w h = elim (Bool-cases w.pool.closed) [
    | inl over ↦ rw (over, close_pool) h
    | inr going ↦ rw (going, close_pool) (drain-IsTracked w.pool.channels _ refl h)
  ]

  add_channel-IsTracked :
      (left : ℕ) (w : World) → IsTracked k l w → IsTracked k l (add_channel b left w).1
  unfolding add_channel
  add_channel-IsTracked left w h = elim (Result-cases (b.open_channel left)) [
    | inr (e, refused) ↦ rw (refused, add_channel) (close_pool-IsTracked w h)
    | inl (ch, made) ↦ elim (Option-cases (b.confirm ch)) [
      | inl sound ↦
          rw (made, sound, add_channel) (omega (arith, h, count-append k w.pool.channels ch))
      | inr (e, refused) ↦
          rw (made, refused, add_channel)
            (close_pool-IsTracked (record w { log = closed ch ∷ opened ch ∷ w.log })
              (omega (arith, h)))
    ]
  ]

  add_channels-IsTracked :
      (left : ℕ) (w : World) → IsTracked k l w → IsTracked k l (add_channels b left w).1
  unfolding add_channels
  add_channels-IsTracked zero w h = h
  add_channels-IsTracked (suc left) w h =
      let more = add_channel-IsTracked left w h in
      elim (Option-cases (add_channel b left w).0) [
        | inl nil ↦
            rw (nil, add_channels) (add_channels-IsTracked left (add_channel b left w).1 more)
        | inr (e, failed) ↦ rw (failed, add_channels) more
      ]

-- Whatever the broker answers, each channel that the constructor opens it has closed again as often,
-- or it is in the buffer of the pool. When the constructor fails the buffer is empty, so that each
-- channel it opened is closed; when it succeeds the pool is open, and its buffer holds `size`
-- channels, all of them counted.
pub new_publisher_channel_pool-IsTracked :
    (b : Broker) (size : ℕ) (max : ℤ) (l : List Event) (k : ℕ)
    → IsTracked k l (new_publisher_channel_pool b size max l).1
      × Outcome l size size (int32_of max) (new_publisher_channel_pool b size max l)
unfolding new_publisher_channel_pool
new_publisher_channel_pool-IsTracked b size max l k = (
  add_channels-IsTracked b k l size _ (omega arith),
  new_publisher_channel_pool-Outcome b size max l,
)
