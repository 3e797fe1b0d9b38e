-- ===== src/Metrics/Calls.antt =====
-- metrics.go: the options of the collectors, and the calls that the methods of `Metrics` make on
-- them. The events of a log are the calls of those methods.
use huma.Base.{ℕ, String, List, [], ◌∷◌, Option}
use huma.Amqp.{
  Event, received_inc, processing_observed, acked_inc, nacked_inc, publish_success_inc,
  publish_failed_inc,
}
use huma.Metrics.{
  Collector, messages_received, message_processing_duration, messages_acked, messages_nacked,
  publish_success, publish_failed, reconnects, label_names, label_values,
}

-- CounterOpts and HistogramOpts with the labels. The buckets, in seconds, come after Prometheus's.
pub record CollectorOpts : Type 0 where
  pub namespace : String
  pub name : String
  pub help : String
  pub buckets : List ℕ
  pub labels : List String

unfoldable pub opts_of : String → String → Collector → CollectorOpts
opts_of namespace label_name messages_received = record {
  namespace = namespace;
  name = "messages_received_total";
  help = "Total number of messages received per queue";
  buckets = [];
  labels = label_names label_name;
}
opts_of namespace label_name message_processing_duration = record {
  namespace = namespace;
  name = "message_processing_duration_seconds";
  help = "Time taken to process each message per queue";
  buckets = 300 ∷ 600 ∷ 1800 ∷ 3600 ∷ 18000 ∷ [];
  labels = label_names label_name;
}
opts_of namespace label_name messages_acked = record {
  namespace = namespace;
  name = "messages_acked_total";
  help = "Total number of messages acknowledged per queue";
  buckets = [];
  labels = label_names label_name;
}
opts_of namespace label_name messages_nacked = record {
  namespace = namespace;
  name = "messages_nacked_total";
  help = "Total number of messages negatively acknowledged per queue";
  buckets = [];
  labels = label_names label_name;
}
opts_of namespace label_name publish_success = record {
  namespace = namespace;
  name = "publish_success_total";
  help = "Total number of successful publishes per queue";
  buckets = [];
  labels = label_names label_name;
}
opts_of namespace label_name publish_failed = record {
  namespace = namespace;
  name = "publish_failed_total";
  help = "Total number of failed publishes per queue";
  buckets = [];
  labels = label_names label_name;
}
opts_of namespace label_name reconnects = record {
  namespace = namespace;
  name = "reconnects_total";
  help = "Total number of successful reconnects";
  buckets = [];
  labels = [];
}

-- WithLabelValues(labels).Inc() or Observe(d) on a collector; and Inc() on the one without labels.
pub data MetricCall : Type 0 where
  counted observed : Collector → List String → MetricCall

-- The two implementations of `Metrics`: that of Prometheus, with the name of the extra label and
-- what its hook returns, if there is one, at a point of the log; and the one that does nothing.
pub data Metrics : Type 0 where
  prometheus_metrics : String → (List Event → Option String) → Metrics
  no_op_metrics : Metrics

module _ (l : List Event) (queue : String) (calls : List MetricCall) where
  unfoldable pub inc_messages_received : Metrics → List MetricCall
  inc_messages_received (prometheus_metrics name hook) =
      counted messages_received (label_values name (hook l) queue) ∷ calls
  inc_messages_received no_op_metrics = calls

  unfoldable pub observe_processing_duration : Metrics → List MetricCall
  observe_processing_duration (prometheus_metrics name hook) =
      observed message_processing_duration (label_values name (hook l) queue) ∷ calls
  observe_processing_duration no_op_metrics = calls

  unfoldable pub inc_messages_acked : Metrics → List MetricCall
  inc_messages_acked (prometheus_metrics name hook) =
      counted messages_acked (label_values name (hook l) queue) ∷ calls
  inc_messages_acked no_op_metrics = calls

  unfoldable pub inc_messages_nacked : Metrics → List MetricCall
  inc_messages_nacked (prometheus_metrics name hook) =
      counted messages_nacked (label_values name (hook l) queue) ∷ calls
  inc_messages_nacked no_op_metrics = calls

  unfoldable pub inc_publish_success : Metrics → List MetricCall
  inc_publish_success (prometheus_metrics name hook) =
      counted publish_success (label_values name (hook l) queue) ∷ calls
  inc_publish_success no_op_metrics = calls

  unfoldable pub inc_publish_failed : Metrics → List MetricCall
  inc_publish_failed (prometheus_metrics name hook) =
      counted publish_failed (label_values name (hook l) queue) ∷ calls
  inc_publish_failed no_op_metrics = calls

-- The calls that the events of a log make, newest first.
unfoldable pub metric_calls : Metrics → List Event → List MetricCall
unfolding inc_messages_received observe_processing_duration inc_messages_acked inc_messages_nacked
    inc_publish_success inc_publish_failed
metric_calls m [] = []
metric_calls m (received_inc q ∷ l) = inc_messages_received l q (metric_calls m l) m
metric_calls m (processing_observed q ∷ l) = observe_processing_duration l q (metric_calls m l) m
metric_calls m (acked_inc q ∷ l) = inc_messages_acked l q (metric_calls m l) m
metric_calls m (nacked_inc q ∷ l) = inc_messages_nacked l q (metric_calls m l) m
metric_calls m (publish_success_inc q ∷ l) = inc_publish_success l q (metric_calls m l) m
metric_calls m (publish_failed_inc q ∷ l) = inc_publish_failed l q (metric_calls m l) m
metric_calls m (_ ∷ l) = metric_calls m l
