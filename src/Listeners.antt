-- ===== src/Listeners.antt =====
-- The five listeners of the configuration, in the order in which newProcessor of
-- assertsprocessor/factory.go lists them, and the refresh over them. The listeners of
-- assertsprocessor/processor.go and sampler.go copy one field each.
pub mod Sound
pub mod Stale
pub mod Flags
pub mod Converge
pub mod Runs
mod Tests
use asserts_otel_processor.Base.{
  ℕ, Bool, true, false, not, ◌&&◌, ◌||◌, String, List, [], ◌∷◌, Option, none, some, if◌then◌else◌,
}
use asserts_otel_processor.Base.Int.{ℤ}
use asserts_otel_processor.Base.Maps.{StringMap}
use asserts_otel_processor.Cache.{TtlCache}
use asserts_otel_processor.Platform.{Platform}
use asserts_otel_processor.Config.{Config}
use asserts_otel_processor.CustomAttribute.{ValidationError}
use asserts_otel_processor.SpanEnrichment
use asserts_otel_processor.Thresholds
use asserts_otel_processor.MetricHelper
use asserts_otel_processor.MetricHelper.Prometheus.{Registry}
use asserts_otel_processor.ConfigRefresh.{ConfigListener, update_config, fetch_and_update_config}
use asserts_otel_processor.Processor.{Processor}

-- The error of an update: of a rule, or of the exporter that did not stop.
pub data UpdateError : Type 0 where
  rule : ValidationError → UpdateError
  exporter : UpdateError

abbrev differ : Bool → Bool → Bool
differ true b = not b
differ false b = b

-- `isUpdated` and `onUpdate` of the sampler.
unfoldable pub sampler_is_updated : Config → Config → Bool
sampler_is_updated curr new = differ curr.ignore_client_errors new.ignore_client_errors

unfoldable pub sampler_on_update : Config → Config → Config
sampler_on_update new config = record config { ignore_client_errors = new.ignore_client_errors }

-- `isUpdated` and `onUpdate` of the processor.
unfoldable pub processor_is_updated : Config → Config → Bool
processor_is_updated curr new = differ curr.capture_metrics new.capture_metrics

unfoldable pub processor_on_update : Config → Config → Config
processor_on_update new config = record config { capture_metrics = new.capture_metrics }

module _ (rt : Platform) (labels : TtlCache (StringMap String)) (registry : Registry)
    (states : TtlCache ℕ) (clock : ℕ → ℤ) where
  abbrev pub ProcessorOf : Type 0
  ProcessorOf = Processor rt labels registry states clock

  -- The processor, the configuration of the refresh, which is the processor's own until an update is
  -- accepted, and whether the process has ended.
  pub record Running : Type 0 where
    pub processor : ProcessorOf
    pub accepted : Option Config
    pub exited : Bool

  abbrev pub config_in : ProcessorOf → Config
  config_in p = p.metric_builder.config

  abbrev pub current_config : Config → Option Config → Config
  current_config own none = own
  current_config own (some config) = config

  abbrev pub current : Running → Config
  current s = current_config (config_in s.processor) s.accepted

  abbrev pub adopt : Running → Config → Running
  adopt s latest = if s.exited then s else record s { accepted = some latest }

  -- A write to the configuration that the components share, which goes to both of its copies.
  abbrev pub write_config : (Config → Config) → ProcessorOf → ProcessorOf
  write_config copy p = record p {
    metric_builder = record p.metric_builder { config = copy p.metric_builder.config };
    sampler = record p.sampler {
      normal = record p.sampler.normal {
        sampler = record p.sampler.normal.sampler {
          core = record p.sampler.normal.sampler.core {
            threshold_helper = record p.sampler.normal.sampler.core.threshold_helper {
              config = copy p.sampler.normal.sampler.core.threshold_helper.config;
            };
          };
        };
      };
    };
  }

  -- After the process has ended nothing is called.
  abbrev pub listener :
      (Config → Config → Bool)
      → (Config → Running → Running × Option UpdateError)
      → ConfigListener Running UpdateError
  listener changed update = record {
    is_updated = λ s curr new. not s.exited && changed curr new;
    on_update = λ s new. update new s;
  }

  abbrev pub put : ProcessorOf → Running → Running
  put p s = record s { processor = p }

  abbrev pub error_of_rule : Option ValidationError → Option UpdateError
  error_of_rule none = none
  error_of_rule (some e) = some (rule e)

  unfoldable pub update_enricher : Config → Running → Running × Option UpdateError
  update_enricher new s =
      let (ep, e) = SpanEnrichment.on_update rt s.processor.span_enricher new in
      (put (record s.processor { span_enricher = ep }) s, error_of_rule e)

  abbrev pub threshold_field : Config → Thresholds.ThresholdHelper → Config → Config
  threshold_field new th config = (Thresholds.on_update new (record th { config = config })).config

  unfoldable pub update_thresholds : Config → Running → Running × Option UpdateError
  update_thresholds new s =
      let th = s.processor.sampler.normal.sampler.core.threshold_helper in
      (put (write_config (threshold_field new th) s.processor) s, none)

  -- The fields that the metric helper writes.
  abbrev pub metrics_fields : Config → Config → Config
  metrics_fields written config = record config {
    capture_attributes_in_metric = written.capture_attributes_in_metric;
    latency_histogram_buckets = written.latency_histogram_buckets;
  }

  abbrev metrics_updated :
      Running
      → Option (MetricHelper.MetricHelper rt labels registry × Bool)
      → Running × Option UpdateError
  metrics_updated s none = (record s { exited = true }, none)
  metrics_updated s (some (helper, ok)) = (
    put
        (write_config (metrics_fields helper.config)
          (record s.processor { metric_builder = helper }))
        s,
    if ok then none else some exporter,
  )

  unfoldable pub update_metrics : Bool → Config → Running → Running × Option UpdateError
  update_metrics stopped new s =
      metrics_updated s
        (MetricHelper.on_update rt labels registry stopped new s.processor.metric_builder)

  -- A listener that only copies a field of the configuration.
  abbrev pub update_field :
      (Config → Config → Config) → Config → Running → Running × Option UpdateError
  update_field copy new s = (put (write_config (copy new) s.processor) s, none)

  -- The listeners after the first.
  unfoldable pub later_listeners : Bool → List (ConfigListener Running UpdateError)
  unfolding update_thresholds update_metrics
  later_listeners stopped =
      listener Thresholds.is_updated update_thresholds
      ∷ listener MetricHelper.is_updated (update_metrics stopped)
      ∷ listener processor_is_updated (update_field processor_on_update)
      ∷ listener sampler_is_updated (update_field sampler_on_update)
      ∷ []

  unfoldable pub listeners : Bool → List (ConfigListener Running UpdateError)
  unfolding update_enricher later_listeners
  listeners stopped = listener SpanEnrichment.is_updated update_enricher ∷ later_listeners stopped

  -- One tick of the refresh, given what was fetched and whether the exporter stops without an error.
  unfoldable pub refresh : Bool → Option Config → Running → Running
  unfolding listeners
  refresh stopped fetched s = fetch_and_update_config current adopt (listeners stopped) fetched s
