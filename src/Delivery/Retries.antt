-- ===== src/Delivery/Retries.antt =====
-- The retry counter: what a republished copy carries, and how often a message is processed.
use huma.Base.{
  ℕ, zero, suc, ◌+◌, ◌≤◌, ◌<◌, String, ◌≡◌, ◌≢◌, ◌⊎◌, inl, inr, refl, ◌∙◌, ap, Bool, true, false,
  List, [], ◌∷◌, Option, none, some, ℤ, pos, suc_ℤ, arith, eq_iff, eq_refl,
}
use huma.Go.Table.{Table, Value, int64, lookup, insert, lookup-insert}
use huma.Amqp.{Publishing, Delivery, Event, handled, processing_observed}
use huma.Config.Queue.{QueueConfig}
use huma.Delivery.Verdicts.{process_delivery-Judged}
use huma.Delivery.{
  Settlement, ack, nack, settlements, handlings, returned, Services, retry_publishing,
  retry_count_header, copy_table, delivery_retry_count, process_delivery,
}

-- A Go map has each key once.
abbrev pub HasUniqueKeys : Table → Type 0
HasUniqueKeys [] = Unit {0}
HasUniqueKeys ((k, v) ∷ t) = (lookup k t ≡ none) × HasUniqueKeys t

abbrev or_else : Option Value → Option Value → Option Value
or_else none b = b
or_else (some a) b = some a

lookup-copy_table :
    (j : String) (m t : Table)
    → HasUniqueKeys m
    → lookup j (copy_table m t) ≡ or_else (lookup j m) (lookup j t)
unfolding copy_table lookup
lookup-copy_table j [] t h = refl
lookup-copy_table j ((k, v) ∷ m) t h =
    lookup-copy_table j m (insert k v t) h.1
    ∙ ground (arith, lookup-insert k j v t, eq_iff k j, h.0)

count-insert :
    (z : ℤ) (t : Table) → delivery_retry_count (insert retry_count_header (int64 z) t) ≡ z
unfolding delivery_retry_count
count-insert z t = ground (
  arith,
  lookup-insert retry_count_header retry_count_header (int64 z) t,
  eq_refl retry_count_header,
)

count-retry :
    (d : Delivery)
    → delivery_retry_count (retry_publishing d).headers ≡ suc_ℤ (delivery_retry_count d.headers)
unfolding retry_publishing
count-retry d = count-insert (suc_ℤ (delivery_retry_count d.headers)) (copy_table d.headers [])

or_else-none : (o : Option Value) → or_else o none ≡ o
or_else-none none = refl
or_else-none (some a) = refl

-- The copy that is published for a retry carries the count of the delivery plus one, and every
-- other header of it unchanged.
pub retry_publishing-headers :
    (d : Delivery)
    → HasUniqueKeys d.headers
    → (delivery_retry_count (retry_publishing d).headers ≡ suc_ℤ (delivery_retry_count d.headers))
      × ((j : String)
          → j ≢ retry_count_header
          → lookup j (retry_publishing d).headers ≡ lookup j d.headers)
unfolding retry_publishing lookup
retry_publishing-headers d h = (
  count-insert (suc_ℤ (delivery_retry_count d.headers)) (copy_table d.headers []),
  λ j ne. ground (
    arith,
    lookup-insert retry_count_header j (int64 (suc_ℤ (delivery_retry_count d.headers)))
        (copy_table d.headers []),
    lookup-copy_table j d.headers [] h,
    or_else-none (lookup j d.headers),
    eq_iff retry_count_header j,
  ),
)

-- The copy as the broker delivers it again, under a new tag and by the same way.
abbrev pub redelivered : ℕ → Delivery → Delivery
redelivered tag d = record {
  message = retry_publishing d;
  delivery_tag = tag;
  delivery_exchange = d.delivery_exchange;
  delivery_routing_key = d.delivery_routing_key;
}

abbrev acked_last : List Settlement → Bool
acked_last (ack _ ∷ _) = true
acked_last _ = false

module _ (s : Services) (fresh : ℕ → ℕ) (handler : ℕ) (q : QueueConfig) where
  -- The life of a message whose handler fails every time: it is processed, and as long as that
  -- leaves a copy behind, the copy is delivered and processed.
  pub life : ℕ → Delivery → List Event → List Event
  life zero d l = l
  life (suc rounds) d l =
      let w = process_delivery s handler d q l in
      elim (acked_last (settlements w)) [
        | true ↦ life rounds (redelivered (fresh d.delivery_tag) d) w
        | false ↦ w
      ]

  pub handlings-process :
      (d : Delivery) (l : List Event)
      → handlings (process_delivery s handler d q l) ≡ suc (handlings l)
  unfolding process_delivery
  handlings-process d l = ground (
    arith,
    s.handles_nothing (handled handler d ∷ l) d.delivery_exchange d.delivery_routing_key
        (retry_publishing d),
    s.handles_nothing (processing_observed q.name ∷ handled handler d ∷ l) d.delivery_exchange
        d.delivery_routing_key (retry_publishing d),
  )

  module _ (fails : (l : List Event) (d : Delivery) → s.answer l handler d ≢ returned none)
      (publishes : (l : List Event) (x k : String) (p : Publishing)
        → (s.publish_amqp l x k p).0 ≡ none) where
    -- With retries left a copy is made; without, the message is dropped.
    left_or_dropped :
        (d : Delivery) (l : List Event) (n c : ℕ)
        → q.max_redelivery ≡ pos (suc n)
        → delivery_retry_count d.headers ≡ pos c
        → ((c ≤ n) × (acked_last (settlements (process_delivery s handler d q l)) ≡ true))
          ⊎ ((n < c)
              × (settlements (process_delivery s handler d q l)
                  ≡ nack d.delivery_tag false ∷ settlements l))
    left_or_dropped d l n c m e = elim (process_delivery-Judged s d q handler l) [
      | inl (fine, _) ↦ absurd (fails l d fine)
      | inr (_, (w, same, judged)) ↦ ground (
        arith,
        judged,
        publishes w d.delivery_exchange d.delivery_routing_key (retry_publishing d),
      )
    ]

    -- A message that its handler never accepts and whose copies for a retry are all published, on a
    -- queue with a bound on redelivery: if `c` of
    -- its retries are used up and `k` are left, it is processed `k + 1` times, and is then rejected
    -- without requeue. A new message is thus processed `max_redelivery + 1` times.
    pub life_bounded :
        (k rounds c n : ℕ) (d : Delivery) (l : List Event)
        → k < rounds
        → q.max_redelivery ≡ pos (suc n)
        → delivery_retry_count d.headers ≡ pos c
        → c + k ≡ suc n
        → (handlings (life rounds d l) ≡ suc k + handlings l)
          × ((tag : ℕ) × (rest : List Settlement) × (settlements (life rounds d l)
                ≡ nack tag false ∷ rest))
    unfolding life
    life_bounded k zero c n d l h m e left = absurd (omega arith)
    life_bounded zero (suc rounds) c n d l h m e left = elim (left_or_dropped d l n c m e) [
      | inl (some_left, _) ↦ absurd (omega arith)
      | inr (_, dropped) ↦
          rw (dropped, life)
            (ground (arith, handlings-process d l), (d.delivery_tag, settlements l, dropped))
    ]
    life_bounded (suc k) (suc rounds) c n d l h m e left = elim (left_or_dropped d l n c m e) [
      | inr (none_left, _) ↦ absurd (omega arith)
      | inl (_, copied) ↦
          let (count, settled) =
            life_bounded k rounds (suc c) n (redelivered (fresh d.delivery_tag) d)
              (process_delivery s handler d q l) (omega arith) m (count-retry d ∙ ap suc_ℤ e)
              (omega arith) in
          rw (copied, life) (omega (arith, count, handlings-process d l), settled)
    ]
