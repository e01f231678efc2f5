-- ===== src/MetricHelper/Buckets.antt =====
-- Buckets that do not increase are registered by onUpdate, and With panics over them later.
use asserts_otel_processor.Base.{
  ◌≡◌, refl, Bool, true, false, ◌||◌, ltb, length, String, List, [], ◌∷◌, none, some, Always,
  Bool-cases, inl, inr, arith,
}
use asserts_otel_processor.Base.Maps.{StringMap, lookup}
use asserts_otel_processor.Float.{Float64, flt, feq}
use asserts_otel_processor.Cache.{TtlCache}
use asserts_otel_processor.Platform.{Platform}
use asserts_otel_processor.Span.{Value, Span, get_attribute, as_string_or_empty}
use asserts_otel_processor.Config.{Config}
use asserts_otel_processor.Keys.{get_service_key}
use asserts_otel_processor.SpanEnrichment.{request_context_attribute}
use asserts_otel_processor.Labels.{get_attributes_as_labels, span_metric_labels}
use asserts_otel_processor.MetricHelper.Prometheus.{Registry}
use asserts_otel_processor.MetricHelper.{
  MetricHelper, record_latency, cache_or_new, may_capture, capture_metrics, register_metrics,
  updated_config, on_update,
}

-- A bucket is no greater than the one before it.
abbrev pub descends : List Float64 → Bool
descends [] = false
descends (b ∷ []) = false
descends (b ∷ c ∷ bs) = flt c b || feq c b || descends (c ∷ bs)

descends-length : (bs : List Float64) → descends bs ≡ true → ltb 0 (length bs) ≡ true
descends-length [] h = ground arith
descends-length (b ∷ bs) h = ground arith

module _ (rt : Platform) (t : TtlCache (StringMap String)) (registry : Registry)
    (refuses : (buckets : List Float64) (names : List String) (labels : StringMap String)
      → descends buckets ≡ true
      → registry.accepts buckets names labels ≡ false) where
  abbrev Helper : Type 0
  Helper = MetricHelper rt t registry

  on_update-buckets :
      (new : Config) (p : Helper)
      → ltb 0 (length new.latency_histogram_buckets) ≡ true
      → Always
          (λ (r : Helper × Bool). r.0.buckets ≡ new.latency_histogram_buckets)
          (on_update rt t registry true new p)
  unfolding on_update register_metrics updated_config
  on_update-buckets new p some_buckets =
      let names =
        span_metric_labels rt
          (get_attributes_as_labels (updated_config rt t registry p.config new)) in
      elim (Bool-cases (registry.registers names)) [
        | inl e ↦ rw (e, some_buckets) refl
        | inr e ↦ rw e tt
      ]

  -- Whether there is room for the request context of a span, or it is known.
  abbrev pub has_room_for : Span → String → String → Helper → Bool
  has_room_for span namespace service q =
      let context = as_string_or_empty (get_attribute request_context_attribute span) in
      let old =
        cache_or_new rt t registry q.config (lookup (get_service_key namespace service) q.caches) in
      let (known, c) = t.get context old in may_capture rt t registry q.config c known

  -- For a registry whose histograms refuse all labels if a bucket is no greater than the one before it:
  -- once onUpdate has registered the metrics for a configuration with such buckets, captureMetrics
  -- panics on every span whose request context is known or finds room.
  pub capture_metrics-descending :
      (new : Config) (p q : Helper) (span : Span) (namespace service : String)
      (resource : StringMap Value)
      → descends new.latency_histogram_buckets ≡ true
      → on_update rt t registry true new p ≡ some (q, true)
      → has_room_for span namespace service q ≡ true
      → capture_metrics rt t registry span namespace service resource q ≡ none
  unfolding capture_metrics record_latency
  capture_metrics-descending new p q span namespace service resource unsorted updated room =
      let set = on_update-buckets new p (descends-length new.latency_histogram_buckets unsorted) in
      let same : q.buckets ≡ new.latency_histogram_buckets = rw updated at set in
      let unsorted_here : descends q.buckets ≡ true = rw same unsorted in
      rw room (rw (refuses q.buckets q.names _ unsorted_here) refl)
