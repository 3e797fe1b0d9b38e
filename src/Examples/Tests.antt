-- ===== src/Examples/Tests.antt =====
-- The four examples on an SDK whose publishes fail from the second on, and a labelled message.
use huma.Base.{List, ◌≡◌, refl, [], ◌∷◌, none, some}
use huma.Shutdown.{Move, stepped, goroutine_ended}
use huma.Shutdown.Tests.{sdk, reply}
use huma.Amqp.{Delivery}
use huma.Message.{zero_message}
use huma.Metrics.{label_values}
use huma.Publish.{Client, publishing_of}
use huma.Publish.Tests.{client}
use huma.Go.Table.{insert, lookup}
use huma.Delivery.Retries.{HasUniqueKeys}
use huma.Delivery.Redelivery.{retried}
use huma.Session.Tests.{new_sdk}
use huma.Kit.{SdkState}
use huma.Examples.Labels.{app_id_from_context, inject_app_id, extract_app_id, label_values-retried}

abbrev fresh : SdkState
fresh = record { fixed = new_sdk; log = []; logger = 0; sdk = sdk }

-- The monitor ends while the shutdown waits.
abbrev one_call : List Move
one_call =
    stepped 0 reply ∷ stepped 0 reply ∷ goroutine_ended ∷ stepped 0 reply ∷ stepped 0 reply ∷ []

abbrev labelling : Client
labelling = record client { inject_headers = some (λ l t. inject_app_id (some "shop") (some t)) }

abbrev labelled : Delivery
labelled = record {
  message = publishing_of labelling [] zero_message;
  delivery_tag = 1;
  delivery_exchange = "";
  delivery_routing_key = "huma.metrics.example";
}

labelled-HasUniqueKeys : HasUniqueKeys labelled.headers
unfolding publishing_of inject_app_id insert lookup
labelled-HasUniqueKeys = (refl, tt)

label_values-retried_example :
    label_values "app_id"
      (some (app_id_from_context (extract_app_id none (retried (2 ∷ []) labelled).headers)))
      "huma.metrics.example"
    ≡ "huma.metrics.example" ∷ "shop" ∷ []
label_values-retried_example =
    label_values-retried labelling [] zero_message labelled (2 ∷ []) "shop" "huma.metrics.example"
      none refl refl labelled-HasUniqueKeys
