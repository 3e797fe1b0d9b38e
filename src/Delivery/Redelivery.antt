-- ===== src/Delivery/Redelivery.antt =====
-- A delivery after its retries: what the chain of copies keeps of its headers.
use huma.Base.{ℕ, String, ◌≡◌, ◌≢◌, refl, ◌∙◌, List, [], ◌∷◌, arith, eq_iff}
use huma.Go.Table.{Table, Value, lookup, insert, lookup-insert}
use huma.Amqp.{Delivery}
use huma.Delivery.{copy_table, retry_publishing, retry_count_header}
use huma.Delivery.Retries.{HasUniqueKeys, redelivered, retry_publishing-headers}

insert-HasUniqueKeys :
    (k : String) (v : Value) (t : Table) → HasUniqueKeys t → HasUniqueKeys (insert k v t)
unfolding insert lookup
insert-HasUniqueKeys k v [] h = (refl, tt)
insert-HasUniqueKeys k v ((head, old) ∷ rest) h = ground (
  arith,
  eq_iff head k,
  eq_iff k head,
  lookup-insert k head v rest,
  insert-HasUniqueKeys k v rest h.1,
)

copy-HasUniqueKeys : (m t : Table) → HasUniqueKeys t → HasUniqueKeys (copy_table m t)
unfolding copy_table
copy-HasUniqueKeys [] t h = h
copy-HasUniqueKeys ((k, v) ∷ m) t h =
    copy-HasUniqueKeys m (insert k v t) (insert-HasUniqueKeys k v t h)

retry-HasUniqueKeys : (d : Delivery) → HasUniqueKeys (retry_publishing d).headers
unfolding retry_publishing
retry-HasUniqueKeys d =
    insert-HasUniqueKeys retry_count_header _ _ (copy-HasUniqueKeys d.headers [] tt)

-- A delivery after as many retries as there are tags.
abbrev pub retried : List ℕ → Delivery → Delivery
retried [] d = d
retried (tag ∷ tags) d = retried tags (redelivered tag d)

pub lookup-retried :
    (tags : List ℕ) (d : Delivery) (j : String)
    → HasUniqueKeys d.headers
    → j ≢ retry_count_header
    → lookup j (retried tags d).headers ≡ lookup j d.headers
lookup-retried [] d j h ne = refl
lookup-retried (tag ∷ tags) d j h ne =
    lookup-retried tags (redelivered tag d) j (retry-HasUniqueKeys d) ne
    ∙ (retry_publishing-headers d h).1 j ne
