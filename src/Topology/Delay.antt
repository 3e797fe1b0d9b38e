-- ===== src/Topology/Delay.antt =====
-- The way of a delayed message through what `DeclareQueues` declares.
use mathlib.Core.List.{Memᴰ}
use huma.Base.{
  negsuc, ◌/◌, ◌≡◌, inl, inr, refl, ap, ◌∙◌, true, false, List, [], ◌∷◌, ◌++◌, some, arith, str_eq,
  ℤ, pos, ◌<ℤ◌, ◌≤ℤ◌, if◌then◌else◌, int32_of, int32_of_small, Bool-cases,
}
use huma.Go.Table.{str, int32, lookup, insert}
use huma.Go.Duration.{milliseconds}
use huma.Config.Queue.{QueueConfig, quorum}
use huma.Config.Queue.Validity.{IsWellFormed}
use huma.Publish.{get_delay_queue_name}
use huma.Topology.{Declaration, queue_declare, queue_bind, effective_key, delay_args}
use huma.Topology.Plan.{plan, dlq_plan}

ttl_exact :
    (d : ℤ)
    → pos 0 <ℤ d
    → milliseconds d ≤ℤ pos 2147483647
    → int32_of (milliseconds d) ≡ milliseconds d
unfolding milliseconds
ttl_exact (pos n) h k = int32_of_small (n / 1000000) (omega arith)
ttl_exact (negsuc n) h k = absurd (omega arith)

delay_lookups :
    (q : QueueConfig)
    → (lookup "x-message-ttl" (delay_args q) ≡ some (int32 (int32_of (milliseconds q.dlx_ttl))))
      × (lookup "x-dead-letter-exchange" (delay_args q) ≡ some (str q.exchange))
      × (lookup "x-dead-letter-routing-key" (delay_args q) ≡ some (str (effective_key q)))
unfolding delay_args lookup insert
delay_lookups q = elim (Bool-cases (str_eq q.queue_type quorum)) [
  | inl is_quorum ↦ rw (is_quorum, delay_args) (refl, refl, refl)
  | inr not_quorum ↦ rw (not_quorum, delay_args) (refl, refl, refl)
]

Memᴰ-append_right : (d : Declaration) (xs ys : List Declaration) → Memᴰ d ys → Memᴰ d (xs ++ ys)
Memᴰ-append_right d [] ys h = h
Memᴰ-append_right d (x ∷ xs) ys h = Memᴰ.tail (Memᴰ-append_right d xs ys h)

-- The plan of a well-formed delay queue declares `<queue>.delay`, where a message lives for exactly
-- the configured number of milliseconds and is then dead-lettered to the queue's exchange under its
-- routing key, and binds the queue to that exchange under that key.
pub delay_path :
    (q : QueueConfig)
    → IsWellFormed q
    → q.is_delay_queue ≡ true
    → Memᴰ
        (queue_declare (get_delay_queue_name q.name) true false false false (some (delay_args q)))
        (plan q)
      × Memᴰ (queue_bind q.name (effective_key q) q.exchange) (plan q)
      × (lookup "x-message-ttl" (delay_args q) ≡ some (int32 (milliseconds q.dlx_ttl)))
      × (lookup "x-dead-letter-exchange" (delay_args q) ≡ some (str q.exchange))
      × (lookup "x-dead-letter-routing-key" (delay_args q) ≡ some (str (effective_key q)))
delay_path q w d =
    let (ttl, exchange, key) = delay_lookups q in
    let ready = w.delay_ready d in
    (
      rw (d, ready.known_strategy)
          (Memᴰ-append_right _ (if q.enable_dlq then dlq_plan q else []) _
            (Memᴰ.tail (Memᴰ.head refl))),
      rw (d, ready.known_strategy)
          (Memᴰ-append_right _ (if q.enable_dlq then dlq_plan q else []) _
            (Memᴰ.tail (Memᴰ.tail (Memᴰ.tail (Memᴰ.head refl))))),
      ttl ∙ ap (λ t. some (int32 t)) (ttl_exact q.dlx_ttl ready.ttl_positive ready.ttl_in_int32),
      exchange,
      key,
    )
