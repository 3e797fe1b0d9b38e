-- ===== src/Examples/Labels.antt =====
-- examples/metrics/main.go: the application's id, from the context of a publisher to the label of a
-- consumer's metrics.
use huma.Base.{ℕ, String, ◌≡◌, ◌≢◌, refl, ◌∙◌, ap, List, [], ◌∷◌, Option, none, some}
use huma.Go.Table.{Table, Value, str, lookup, insert, lookup-insert}
use huma.Amqp.{Publishing, Delivery, Event}
use huma.Message.{Message, table_of}
use huma.Publish.{Client, publishing_of}
use huma.Publish.Reuse.{headers-hooked}
use huma.Metrics.{label_values}
use huma.Delivery.{retry_count_header}
use huma.Delivery.Retries.{HasUniqueKeys}
use huma.Delivery.Redelivery.{retried, lookup-retried}

abbrev pub app_id_header : String
app_id_header = "x-app-id"

-- A context as the example reads it: the application's id, if it carries one.
unfoldable pub app_id_from_context : Option String → String
app_id_from_context none = ""
app_id_from_context (some v) = v

-- The hook for publishing; the table may be nil.
unfoldable pub inject_app_id : Option String → Option Table → Option Table
unfolding app_id_from_context
inject_app_id ctx headers =
    some (insert app_id_header (str (app_id_from_context ctx)) (table_of headers))

context_of : Option Value → Option String → Option String
context_of (some (str v)) ctx = some v
context_of _ ctx = ctx

-- The hook for consuming.
unfoldable pub extract_app_id : Option String → Table → Option String
unfolding context_of
extract_app_id ctx headers = context_of (lookup app_id_header headers) ctx

app_id-other : app_id_header ≢ retry_count_header
app_id-other e = cc e

-- A message that was published from a context with an application's id, by an SDK with the hooks of
-- the example: at its first delivery and after any number of retries, whatever the consumer's own
-- context carries, the queue's metrics have that id as the value of the extra label.
pub label_values-retried :
    (c : Client) (l : List Event) (m : Message) (d : Delivery) (tags : List ℕ)
    (app_id queue : String) (ctx : Option String)
    → c.inject_headers ≡ some (λ l t. inject_app_id (some app_id) (some t))
    → d.message ≡ publishing_of c l m
    → HasUniqueKeys d.headers
    → label_values "app_id"
        (some (app_id_from_context (extract_app_id ctx (retried tags d).headers)))
        queue
      ≡ queue ∷ app_id ∷ []
unfolding label_values app_id_from_context extract_app_id inject_app_id
label_values-retried c l m d tags app_id queue ctx hooked sent unique =
    let (t, same) = headers-hooked c l m _ hooked in
    let found : lookup app_id_header (retried tags d).headers ≡ some (str app_id) =
      lookup-retried tags d app_id_header unique app_id-other
      ∙ ap (λ (x : Publishing). lookup app_id_header x.headers) sent
      ∙ ap (lookup app_id_header) same
      ∙ lookup-insert app_id_header app_id_header (str app_id) t in
    rw found refl
