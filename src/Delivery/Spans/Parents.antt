-- ===== src/Delivery/Spans/Parents.antt =====
-- The span of a publisher is the parent of the consumers' spans, across the broker and all retries.
use huma.Base.{◌&&◌, ℕ, ◌≡◌, ◌∙◌, ap, true, List, [], ◌∷◌, ◌++◌, none, some}
use huma.Amqp.{Publishing, Delivery, Event, received_inc}
use huma.Config.Queue.{QueueConfig}
use huma.Message.{Message, table_of}
use huma.Publish.{Client, publishing_of}
use huma.Publish.Reuse.{headers-publishing_of}
use huma.Delivery.{Services}
use huma.Delivery.Retries.{HasUniqueKeys}
use huma.Delivery.Redelivery.{retried, lookup-retried}
use huma.Delivery.Spans.{
  Propagator, SpanEvent, span_started, span_ended, error_of_handler, delivery_spans,
}

-- A message that was published in the span `k`, by an SDK with tracing and without a hook for headers,
-- and that the broker delivers as it was published: the span that a consumer with tracing starts for
-- it has the parent `k`, at the first delivery and after any number of retries.
pub delivery_spans-retried :
    (p : Propagator) (c : Client) (s : Services) (handler : ℕ) (q : QueueConfig) (k : ℕ)
    (m : Message) (d : Delivery) (tags : List ℕ) (l l' : List Event)
    → c.inject_headers ≡ none
    → (c.enable_tracing && c.has_span l) ≡ true
    → c.inject l (table_of m.headers) ≡ p.inject k (table_of m.headers)
    → d.message ≡ publishing_of c l m
    → HasUniqueKeys d.headers
    → (rest : List SpanEvent) × (delivery_spans true p s handler q (retried tags d) l'
        ≡ span_started (some k) q.name ∷ rest)
unfolding delivery_spans
delivery_spans-retried p c s handler q k m d tags l l' plain traced same sent unique =
    let parent : p.extract (retried tags d).headers ≡ some k =
      p.extract_others (retried tags d).headers d.headers
        (λ j ne. lookup-retried tags d j unique ne)
      ∙ ap (λ (x : Publishing). p.extract x.headers) sent
      ∙ ap p.extract (headers-publishing_of c l m plain traced ∙ same)
      ∙ p.extract-inject k (table_of m.headers) in
    let rest =
      error_of_handler (s.answer (received_inc q.name ∷ l') handler (retried tags d))
      ++ span_ended ∷ [] in
    (rest, ap (λ x. span_started x q.name ∷ rest) parent)
