-- ===== src/Metrics.antt =====
-- metrics.go: the registration of the collectors and the label values. The registry is Prometheus's
-- (github.com/prometheus/client_golang, not modelled) and comes in through an interface.
pub mod Tests
pub mod Registration
pub mod Calls
pub mod Counting
use huma.Base.{
  ℕ, String, Bool, true, false, ◌||◌, List, [], ◌∷◌, ◌++◌, Option, none, some, str_eq, ◌≡◌, ◌≢◌,
  ◌==◌, if◌then◌else◌,
}
use huma.Go.Errors.{Error, wrap}

-- The seven collectors of `prometheusMetrics`, each for one field.
pub data Collector : Type 0 where
  messages_received message_processing_duration messages_acked messages_nacked : Collector
  publish_success publish_failed reconnects : Collector

pub Collector-discrete : Discrete Collector
Collector-discrete = hlevel

-- The slice `collectors`.
abbrev pub collectors : List Collector
collectors =
    messages_received ∷ message_processing_duration ∷ messages_acked ∷ messages_nacked
    ∷ publish_success ∷ publish_failed ∷ reconnects ∷ []

-- A registry in a state `S`: `holds` tells whether a collector is registered. Register either
-- fails and changes nothing, or adds a collector that was not there. Unregister removes one.
pub record Registry (S : Type 0) : Type 0 where
  pub holds : S → Collector → Bool
  pub register : S → Collector → Option Error × S
  pub unregister : S → Collector → S
  pub register_fails :
      (s : S) (c : Collector) (e : Error) → (register s c).0 ≡ some e → (register s c).1 ≡ s
  pub register_new : (s : S) (c : Collector) → (register s c).0 ≡ none → holds s c ≡ false
  pub register_adds :
      (s : S) (c : Collector) → (register s c).0 ≡ none → holds (register s c).1 c ≡ true
  pub register_others : (s : S) (c d : Collector) → c ≢ d → holds (register s c).1 d ≡ holds s d
  pub unregister_removes : (s : S) (c : Collector) → holds (unregister s c) c ≡ false
  pub unregister_others : (s : S) (c d : Collector) → c ≢ d → holds (unregister s c) d ≡ holds s d

module _ {S : Type 0} (r : Registry S) where
  open r use {register, unregister}

  -- for _, previous := range registered { registerer.Unregister(previous) }
  pub unregister_all : List Collector → S → S
  unregister_all [] s = s
  unregister_all (c ∷ cs) s = unregister_all cs (unregister s c)

  -- The loop over the collectors, with those registered so far.
  pub register_all : List Collector → List Collector → S → Option Error × S
  unfolding unregister_all
  register_all registered [] s = (none, s)
  register_all registered (c ∷ cs) s =
      let (e, t) = register s c in
      elim e [
        | some x ↦ (some (wrap "register Prometheus metrics" x), unregister_all registered t)
        | none ↦ register_all (registered ++ c ∷ []) cs t
      ]

  pub new_prometheus_metrics : S → Option Error × S
  unfolding register_all
  new_prometheus_metrics s = register_all [] collectors s

-- The names of the labels of a queue metric, and the values that one call gives it. `label_value`
-- is the hook of the application, applied to the context.
pub label_names : String → List String
label_names label_name = "queue_name" ∷ (if str_eq label_name "" then [] else label_name ∷ [])

pub extra_label : String → Option String → List String
extra_label label_name label_value =
    if str_eq label_name "" then [] else elim label_value [ none ↦ "" ∷ [] | some v ↦ v ∷ [] ]

unfoldable pub label_values : String → Option String → String → List String
unfolding extra_label
label_values label_name label_value queue = queue ∷ extra_label label_name label_value
