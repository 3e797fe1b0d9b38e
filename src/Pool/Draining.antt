-- ===== src/Pool/Draining.antt =====
-- What `close` does to a pool: it closes the channels of the buffer, each once, oldest first.
use mathlib.Core.List.{reverse, reverse-append, append_assoc, append-nil}
use huma.Base.{◌≡◌, refl, ◌∙◌, List, [], ◌∷◌, ◌++◌, map, ℕ, if◌then◌else◌, Bool-cases, inl, inr}
use huma.Amqp.{Event, closed}
use huma.Pool.{Broker, World, Pool, drain, close_pool}

drain_log :
    (b : Broker) (chs : List ℕ) (w : World)
    → (drain b chs w).1.log ≡ reverse (map closed chs) ++ w.log
unfolding drain
drain_log b [] w = refl
drain_log b (ch ∷ rest) w =
    drain_log b rest _ ∙ rw (reverse-append (closed ch ∷ []) (map closed rest), append_assoc)

-- The calls of `close`, newest first.
abbrev pub closings : Pool → List Event
closings p = if p.closed then [] else reverse (map closed p.channels)

pub close_pool_log :
    (b : Broker) (p : Pool) → (close_pool b (record { pool = p; log = [] })).1.log ≡ closings p
unfolding close_pool
close_pool_log b p = elim (Bool-cases p.closed) [
  | inl over ↦ simp (close_pool, over)
  | inr going ↦ simp (close_pool, going, drain_log, append-nil)
]
