-- ===== src/Pool/Opening.antt =====
-- publisher_pool.go, `newPublisherChannelPool`: what becomes of the channels that it opens.
pub mod Tracked
use huma.Base.{
  ℕ, zero, suc, ◌+◌, ◌≡◌, ◌≢◌, refl, ◌⊎◌, inl, inr, false, List, [], ◌∷◌, Option, none, some, ℤ,
  pos, int32_of, suc_ℤ, ap, arith, length, length-append, Option-cases,
}
use mathlib.Core.Path.{subst}
use huma.Go.Errors.{Error, errors_join}
use huma.Go.Result.{Result-cases}
use huma.Amqp.{Event, opened, closed}
use huma.Pool.{
  World, Broker, drain, close_pool, add_channel, add_channels, new_publisher_channel_pool,
}

-- How many channels the log opens, and how many it closes.
abbrev pub opens : List Event → ℕ
opens [] = 0
opens (opened _ ∷ l) = suc (opens l)
opens (_ ∷ l) = opens l

abbrev pub closes : List Event → ℕ
closes [] = 0
closes (closed _ ∷ l) = suc (closes l)
closes (_ ∷ l) = closes l

-- Since the log `l`, every channel that was opened is in the pool's buffer or was closed.
abbrev pub IsAccounted : List Event → World → Type 0
IsAccounted l w = opens w.log + closes l ≡ closes w.log + opens l + length w.pool.channels

drain_lem :
    (b : Broker) (l : List Event) (chs : List ℕ) (w : World)
    → w.pool.channels ≡ chs
    → IsAccounted l w
    → IsAccounted l (drain b chs w).1 × ((drain b chs w).1.pool.channels ≡ [])
unfolding drain
drain_lem b l [] w e h = ground arith
drain_lem b l (ch ∷ rest) w e h = drain_lem b l rest _ refl (ground arith)

pub close_pool_lem :
    (b : Broker) (l : List Event) (w : World)
    → w.pool.closed ≡ false
    → IsAccounted l w
    → IsAccounted l (close_pool b w).1 × ((close_pool b w).1.pool.channels ≡ [])
unfolding close_pool
close_pool_lem b l w o h = rw o (drain_lem b l w.pool.channels _ refl h)

-- What holds between two rounds, with `n` channels made.
pub record IsFilled (l : List Event) (size : ℕ) (max : ℤ) (n : ℕ) (w : World) : Type 0 where
  pub accounted : IsAccounted l w
  pub filled : length w.pool.channels ≡ n
  pub counted : w.pool.current_pool_size ≡ pos n
  pub unlocked : w.pool.locked ≡ false
  pub still_open : w.pool.closed ≡ false
  pub chan_open : w.pool.chan_closed ≡ false
  pub sized : w.pool.size ≡ size
  pub capped : w.pool.max_pool_size ≡ max

-- A failure leaves nothing open; a success has `n` channels in the buffer.
abbrev pub Outcome : List Event → ℕ → ℕ → ℤ → Option Error × World → Type 0
Outcome l n size max (e, w) =
    ((e ≢ none) × IsAccounted l w × (w.pool.channels ≡ [])) ⊎ ((e ≡ none) × IsFilled l size max n w)

some-ne-none : (e : Error) → some e ≢ none
some-ne-none e h = cc

errors_join-some : (e : Error) (f : Option Error) → errors_join (some e) f ≢ none
unfolding errors_join
errors_join-some e f h = ground arith

errors_join_twice : (e : Error) (f g : Option Error) → errors_join (errors_join (some e) f) g ≢ none
unfolding errors_join
errors_join_twice e f g h = ground arith

-- A round fails, and the pool is empty with no channel left open, or it adds a channel.
add_channel_lem :
    (b : Broker) (l : List Event) (left size : ℕ) (max : ℤ) (n : ℕ) (w : World)
    → IsFilled l size max n w
    → Outcome l (suc n) size max (add_channel b left w)
unfolding add_channel
add_channel_lem b l left size max n w h = elim (Result-cases (b.open_channel left)) [
  | inr (e, refused) ↦
      let (kept, none_left) = close_pool_lem b l w h.still_open h.accounted in
      rw (refused, add_channel) (inl (errors_join-some e _, kept, none_left))
  | inl (ch, made) ↦ elim (Option-cases (b.confirm ch)) [
    | inl sound ↦
        rw (made, sound, add_channel)
          (inr (
            refl,
            record {
              accounted = omega (arith, h.accounted, length-append w.pool.channels (ch ∷ []));
              filled = omega (arith, h.filled, length-append w.pool.channels (ch ∷ []));
              counted = ap suc_ℤ h.counted;
              unlocked = h.unlocked;
              still_open = h.still_open;
              chan_open = h.chan_open;
              sized = h.sized;
              capped = h.capped;
            },
          ))
    | inr (e, refused) ↦
        let (kept, none_left) =
          close_pool_lem b l (record w { log = closed ch ∷ opened ch ∷ w.log }) h.still_open
            (omega (arith, h.accounted)) in
        rw (made, refused, add_channel) (inl (errors_join_twice e _ _, kept, none_left))
  ]
]

add_channels_lem :
    (b : Broker) (l : List Event) (size : ℕ) (max : ℤ) (left n : ℕ) (w : World)
    → IsFilled l size max n w
    → n + left ≡ size
    → Outcome l size size max (add_channels b left w)
unfolding add_channels
add_channels_lem b l size max zero n w h e =
    let full : n ≡ size = omega arith in inr (refl, subst (λ k. IsFilled l size max k w) full h)
add_channels_lem b l size max (suc left) n w h e = elim (add_channel_lem b l left size max n w h) [
  | inl (refused, kept, none_left) ↦ elim (Option-cases (add_channel b left w).0) [
    | inl nil ↦ absurd (refused nil)
    | inr (x, some_x) ↦ rw (some_x, add_channels) (inl (some-ne-none x, kept, none_left))
  ]
  | inr (nil, more) ↦
      rw (nil, add_channels) (add_channels_lem b l size max left (suc n) _ more (omega (arith, e)))
]

-- The constructor fails, and as many channels were closed as it opened and none is in the
-- buffer; or it returns an open pool with `size` channels in its buffer, all of them counted, each
-- opened and none closed.
pub new_publisher_channel_pool-Outcome :
    (b : Broker) (size : ℕ) (max : ℤ) (l : List Event)
    → Outcome l size size (int32_of max) (new_publisher_channel_pool b size max l)
unfolding new_publisher_channel_pool
new_publisher_channel_pool-Outcome b size max l =
    add_channels_lem b l size (int32_of max) size 0 _
      (record {
        accounted = omega arith;
        filled = refl;
        counted = refl;
        unlocked = refl;
        still_open = refl;
        chan_open = refl;
        sized = refl;
        capped = refl;
      })
      (omega arith)
