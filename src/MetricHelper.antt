-- ===== src/MetricHelper.antt =====
-- assertsprocessor/metric_helper.go: latencies are observed under the labels of a span, for a
-- bounded number of request contexts per service; an update registers the histogram anew.
pub mod Prometheus
pub mod Sound
pub mod Buckets
mod Tests
use asserts_otel_processor.Base.{
  ℕ, Bool, true, false, not, ◌&&◌, ◌||◌, ltb, length, String, List, [], ◌∷◌, ◌++◌, Option, none,
  some, if◌then◌else◌, str_eq, ◌>>=◌,
}
use asserts_otel_processor.Base.Int.{pos, ltb_ℤ}
use asserts_otel_processor.Base.Maps.{StringMap, lookup, insert}
use asserts_otel_processor.Float.{Float64}
use asserts_otel_processor.Cache.{TtlCache}
use asserts_otel_processor.Platform.{Platform}
use asserts_otel_processor.Span.{Value, Span, get_attribute, as_string_or_empty, compute_latency}
use asserts_otel_processor.Config.{Config}
use asserts_otel_processor.Config.Equality.{equal_lists, equal_buckets}
use asserts_otel_processor.Keys.{get_service_key}
use asserts_otel_processor.SpanEnrichment.{request_context_attribute}
use asserts_otel_processor.Labels.{
  apply_prom_conventions, build_labels, get_attributes_as_labels, span_metric_labels,
}
use asserts_otel_processor.MetricHelper.Prometheus.{Registry}

abbrev Labels : Type 0
Labels = StringMap String

-- `isUpdated`: an update without buckets does not change the buckets.
unfoldable pub is_updated : Config → Config → Bool
is_updated curr new =
    not (equal_lists str_eq curr.capture_attributes_in_metric new.capture_attributes_in_metric)
    || ltb 0 (length new.latency_histogram_buckets)
      && not (equal_buckets curr.latency_histogram_buckets new.latency_histogram_buckets)

module _ (rt : Platform) (t : TtlCache (StringMap String)) (registry : Registry) where
  open t use {Cache, fresh, get, len}

  -- The helper with the buckets and the label names of the histogram that is registered, and what was
  -- observed.
  pub record MetricHelper : Type 0 where
    pub config : Config
    pub caches : StringMap Cache
    pub buckets : List Float64
    pub names : List String
    pub observed : List (StringMap String × Float64)

  -- `With` panics if the labels are not those of the histogram, and makes the histogram for them, which
  -- panics over its buckets or a label name.
  unfoldable pub record_latency : StringMap String → Float64 → MetricHelper → Option MetricHelper
  record_latency labels latency p =
      if registry.accepts p.buckets p.names labels
      then some (record p { observed = p.observed ++ (labels, latency) ∷ [] })
      else none

  abbrev pub cache_or_new : Config → Option Cache → Cache
  cache_or_new config (some c) = c
  cache_or_new config none = fresh config

  abbrev pub metric_labels : String → String → String → Labels
  metric_labels namespace service context =
      insert (apply_prom_conventions rt request_context_attribute) context
        (("namespace", namespace) ∷ ("service", service) ∷ [])

  -- A new request context is added to the service's cache, with the labels under which its metrics
  -- are deleted when it is evicted.
  unfoldable pub remember : String → String → String → Option Labels → Cache → Cache
  remember namespace service context (some known) c = c
  remember namespace service context none c =
      t.set context (metric_labels namespace service context) c

  -- A new request context is taken up while the cache has fewer than the limit.
  abbrev pub may_capture : Config → Cache → Option Labels → Bool
  may_capture config c (some known) = true
  may_capture config c none = ltb_ℤ (pos (len c)) config.limit_per_service

  unfoldable pub capture_metrics :
      Span → String → String → StringMap Value → MetricHelper → Option MetricHelper
  unfolding record_latency remember
  capture_metrics span namespace service resource p =
      let key = get_service_key namespace service in
      let context = as_string_or_empty (get_attribute request_context_attribute span) in
      let (known, c) = get context (cache_or_new p.config (lookup key p.caches)) in
      let labels = build_labels rt p.config namespace service span resource in
      let keep = λ (c' : Cache). record p { caches = insert key c' p.caches } in
      if may_capture p.config c known
      then record_latency labels (compute_latency span)
          (keep (remember namespace service context known c))
      else some (keep c)

  -- `registerMetrics`: none is the exit of the process, where a registration has an error.
  unfoldable pub register_metrics : MetricHelper → Option MetricHelper
  register_metrics p =
      let names = span_metric_labels rt (get_attributes_as_labels p.config) in
      let registered = record p {
        buckets = p.config.latency_histogram_buckets;
        names = names;
        observed = [];
      } in
      if registry.registers names then some registered else none

  -- The parts of the configuration that an update takes over.
  unfoldable pub updated_config : Config → Config → Config
  updated_config old new = record old {
    capture_attributes_in_metric = new.capture_attributes_in_metric;
    latency_histogram_buckets =
        if ltb 0 (length new.latency_histogram_buckets)
        then new.latency_histogram_buckets
        else old.latency_histogram_buckets;
  }

  -- `onUpdate`, given whether the exporter stopped without an error; the metrics are unregistered first.
  unfoldable pub on_update : Bool → Config → MetricHelper → Option (MetricHelper × Bool)
  unfolding register_metrics updated_config
  on_update stopped new p =
      let unregistered = record p { observed = [] } in
      let registered =
        register_metrics (record unregistered { config = updated_config p.config new }) >>= λ q.
        some (q, true) in
      if stopped then registered else some (unregistered, false)
