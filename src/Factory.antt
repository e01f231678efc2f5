-- ===== src/Factory.antt =====
-- assertsprocessor/factory.go: the default configuration, and newProcessor.
pub mod Initial
mod Tests
use asserts_otel_processor.Base.{
  ℕ, ◌+◌, Bool, true, false, ltb, length, String, List, [], ◌∷◌, map, Option, none, some,
  if◌then◌else◌, ◌>>=◌,
}
use asserts_otel_processor.Base.Int.{ℤ, pos, ltb_ℤ, wrap64, times_ℤ}
use asserts_otel_processor.Base.Maps.{StringMap}
use asserts_otel_processor.Float.{Float64, num, zero_place}
use asserts_otel_processor.Cache.{TtlCache}
use asserts_otel_processor.Platform.{Platform}
use asserts_otel_processor.Config.{Config}
use asserts_otel_processor.Counters.{no_counts}
use asserts_otel_processor.SpanEnrichment.{
  SpanEnrichmentProcessor, Outcome, done, failed, build_enrichment_processor,
}
use asserts_otel_processor.Traces.{Memory}
use asserts_otel_processor.MetricHelper.{MetricHelper, register_metrics}
use asserts_otel_processor.MetricHelper.Prometheus.{Registry}
use asserts_otel_processor.Processor.{Processor}
use asserts_otel_processor.Sampling.Loop.{State}

-- The buckets .005, .01, .025, .05, .1, .25, .5, 1, 2.5, 5, 10, 30, 60, 90 and 120 by their bits.
abbrev default_buckets : List Float64
default_buckets =
    map (λ bits. num (zero_place + bits))
      (0x3f74_7ae1_47ae_147b ∷ 0x3f84_7ae1_47ae_147b ∷ 0x3f99_9999_9999_999a ∷ 0x3fa9_9999_9999_999a
        ∷ 0x3fb9_9999_9999_999a ∷ 0x3fd0_0000_0000_0000 ∷ 0x3fe0_0000_0000_0000
        ∷ 0x3ff0_0000_0000_0000 ∷ 0x4004_0000_0000_0000 ∷ 0x4014_0000_0000_0000
        ∷ 0x4024_0000_0000_0000 ∷ 0x403e_0000_0000_0000 ∷ 0x404e_0000_0000_0000
        ∷ 0x4056_8000_0000_0000 ∷ 0x405e_0000_0000_0000 ∷ [])

abbrev pub create_default_config : Config
create_default_config = record {
  asserts_server = ("endpoint", "https://chief.app.dev.asserts.ai") ∷ [];
  env = "";
  site = "";
  asserts_tenant = "";
  capture_metrics = false;
  custom_attribute_configs = [];
  span_attributes = [];
  capture_attributes_in_metric = [];
  default_latency_threshold = num (zero_place + 0x4008_0000_0000_0000);
  latency_histogram_buckets = default_buckets;
  ignore_client_errors = false;
  sample_traces = true;
  limit_per_service = pos 100;
  limit_per_request_per_service = pos 3;
  request_context_cache_ttl = pos 60;
  normal_sampling_frequency_minutes = pos 5;
  prometheus_exporter_port = 9465;
  trace_flush_frequency_seconds = pos 30;
}

-- What a configuration that was fetched takes precedence in.
unfoldable pub take_over : Option Config → Config → Config
take_over none config = config
take_over (some fetched) config = record config {
  capture_metrics = fetched.capture_metrics;
  capture_attributes_in_metric = fetched.capture_attributes_in_metric;
  default_latency_threshold = fetched.default_latency_threshold;
  custom_attribute_configs = fetched.custom_attribute_configs;
  span_attributes = fetched.span_attributes;
  ignore_client_errors = fetched.ignore_client_errors;
  latency_histogram_buckets =
      if ltb 0 (length fetched.latency_histogram_buckets)
      then fetched.latency_histogram_buckets
      else config.latency_histogram_buckets;
}

-- `NewTicker` of the flushes panics if the interval, an int64 of nanoseconds, is not positive.
unfoldable pub flush_interval : Config → ℤ
flush_interval config = wrap64 (times_ℤ 1_000_000_000 config.trace_flush_frequency_seconds)

abbrev pub new_flush_ticker {ℓ} : {A : Type ℓ} → Config → A → Option A
new_flush_ticker config x = if ltb_ℤ (pos 0) (flush_interval config) then some x else none

module _ (rt : Platform) (labels : TtlCache (StringMap String)) (registry : Registry)
    (states : TtlCache ℕ) (clock : ℕ → ℤ) where
  -- `newMetricHelper`
  unfoldable pub new_metric_helper : Config → MetricHelper rt labels registry
  new_metric_helper config = record {
    config = config;
    caches = [];
    buckets = [];
    names = [];
    observed = [];
  }

  -- The sampler and the threshold helper, as they are made.
  unfoldable pub new_sampler : Config → Memory → State states clock
  new_sampler config memory = record {
    normal = record {
      sampler = record {
        core = record {
          threshold_helper = record { config = config; thresholds = []; entity_keys = [] };
          memory = memory;
          samplers = [];
        };
        services = [];
      };
      caches = [];
      states = [];
      readings = 0;
    };
    traces = [];
    counters = no_counts;
  }

  abbrev with_enricher :
      Config
      → Memory
      → Outcome (SpanEnrichmentProcessor rt)
      → Option (Outcome (Processor rt labels registry states clock))
  with_enricher config memory (failed e) = some (failed e)
  with_enricher config memory (done ep) =
      register_metrics rt labels registry (new_metric_helper config) >>= λ helper.
      new_flush_ticker config (
        done (record {
          span_enricher = ep;
          metric_builder = helper;
          sampler = new_sampler config memory;
          forwarded = [];
        }))

  -- `newProcessor`, given what was fetched (`none` is an error) and the spans to come: none is the exit
  -- of the process, where a metric is not registered, or the panic of the ticker.
  unfoldable pub new_processor :
      Option Config → Config → Memory → Option (Outcome (Processor rt labels registry states clock))
  unfolding new_metric_helper new_sampler take_over
  new_processor fetched local memory =
      let config = take_over fetched local in
      with_enricher config memory (build_enrichment_processor rt config)
