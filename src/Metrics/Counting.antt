-- ===== src/Metrics/Counting.antt =====
-- What the metrics count, and that Prometheus accepts every call and every collector.
use huma.Base.{ℕ, suc, ◌≡◌, refl, String, List, [], ◌∷◌, Option, arith, length}
use huma.Amqp.{
  Event, received_inc, processing_observed, acked_inc, nacked_inc, publish_success_inc,
  publish_failed_inc,
}
use huma.Publish.{successes, failures}
use huma.Metrics.{Collector, Collector-discrete, publish_success, publish_failed}
use huma.Metrics.Registration.{length-label_values}
use huma.Metrics.Calls.{opts_of, MetricCall, counted, observed, prometheus_metrics, metric_calls}

-- How often a counter is increased.
abbrev pub counts : Collector → List MetricCall → ℕ
counts c [] = 0
counts c (counted d _ ∷ calls) = elim (Collector-discrete c d) [
  | yes _ ↦ suc (counts c calls)
  | no _ ↦ counts c calls
]
counts c (observed _ _ ∷ calls) = counts c calls

-- Every call gives as many label values as the collector has labels.
abbrev pub labels_of : MetricCall → Collector × List String
labels_of (counted c vs) = (c, vs)
labels_of (observed c vs) = (c, vs)

abbrev pub Fits : String → String → MetricCall → Type 0
Fits namespace name call =
    length (labels_of call).1 ≡ length (opts_of namespace name (labels_of call).0).labels

abbrev pub AllFit : String → String → List MetricCall → Type 0
AllFit namespace name [] = Unit {0}
AllFit namespace name (c ∷ cs) = Fits namespace name c × AllFit namespace name cs

-- Over any log, the counters of published and of failed messages are increased as often as the log
-- has publishes that succeeded and that failed, and every call on a collector gives as many label
-- values as that collector has labels, whatever the hook returns.
pub metric_calls-counts :
    (namespace name : String) (hook : List Event → Option String) (l : List Event)
    → let calls = metric_calls (prometheus_metrics name hook) l in
      (counts publish_success calls ≡ successes l)
      × (counts publish_failed calls ≡ failures l)
      × AllFit namespace name calls
unfolding metric_calls opts_of
metric_calls-counts namespace name hook [] = (refl, refl, tt)
metric_calls-counts namespace name hook (received_inc q ∷ l) =
    ground (arith, metric_calls-counts namespace name hook l, length-label_values name (hook l) q)
metric_calls-counts namespace name hook (processing_observed q ∷ l) =
    ground (arith, metric_calls-counts namespace name hook l, length-label_values name (hook l) q)
metric_calls-counts namespace name hook (acked_inc q ∷ l) =
    ground (arith, metric_calls-counts namespace name hook l, length-label_values name (hook l) q)
metric_calls-counts namespace name hook (nacked_inc q ∷ l) =
    ground (arith, metric_calls-counts namespace name hook l, length-label_values name (hook l) q)
metric_calls-counts namespace name hook (publish_success_inc q ∷ l) =
    ground (arith, metric_calls-counts namespace name hook l, length-label_values name (hook l) q)
metric_calls-counts namespace name hook (publish_failed_inc q ∷ l) =
    ground (arith, metric_calls-counts namespace name hook l, length-label_values name (hook l) q)
metric_calls-counts namespace name hook (_ ∷ l) =
    ground (arith, metric_calls-counts namespace name hook l)
