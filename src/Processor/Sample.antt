-- ===== src/Processor/Sample.antt =====
-- A concrete processor for tests, which has seen no traces yet, and a batch for it.
use asserts_otel_processor.Base.{
  ℕ, zero, ◌*◌, refl, true, false, arith, Bool, String, List, [], ◌∷◌,
}
use asserts_otel_processor.Base.Int.{ℤ, pos}
use asserts_otel_processor.Base.Maps.{StringMap, lookup}
use asserts_otel_processor.Cache.{TtlCache}
use asserts_otel_processor.Cache.Sample.{plain_cache, plain_cache-IsFaithful, plain_cache-IsSized}
use asserts_otel_processor.Platform.Sample.{sample_platform}
use asserts_otel_processor.Span.{Span, SpanKind, server, client, ok}
use asserts_otel_processor.Config.Sample.{sample_config}
use asserts_otel_processor.Counters.{no_counts}
use asserts_otel_processor.Labels.{
  replace, apply_prom_conventions, get_attributes_as_labels, span_metric_labels,
}
use asserts_otel_processor.Labels.Agreement.{count}
use asserts_otel_processor.Traces.{Memory, ResourceSpans}
use asserts_otel_processor.MetricHelper.Prometheus.{
  increasing, plain_registry, plain_registry-IsConsistent,
}
use asserts_otel_processor.Processor.{Processor}
use asserts_otel_processor.Processor.Sound.{IsSoundProcessor}

abbrev pub span : Bool → SpanKind → Span
span orphan kind = record {
  trace_id = "t1";
  is_orphan = orphan;
  name = "/api";
  kind = kind;
  status = ok;
  start_timestamp = 0;
  end_timestamp = 1;
  attributes = [];
}

abbrev pub memory : Memory
memory zero = span true server
memory a = span false client

abbrev pub batch : List ResourceSpans
batch =
    record {
      resource = ("service.name", record { str = "cart"; as_string = "cart" }) ∷ [];
      scope_spans = (0 ∷ 1 ∷ []) ∷ [];
    }
    ∷ []

abbrev pub clock : ℕ → ℤ
clock n = pos (1800 * n)

abbrev pub labels : TtlCache (StringMap String)
labels = plain_cache (StringMap String)

abbrev pub ProcessorOf : Type 0
ProcessorOf = Processor sample_platform labels plain_registry (plain_cache ℕ) clock

-- With traces sampled or not.
abbrev pub processor : Bool → ProcessorOf
processor sampled =
    let config = record sample_config { capture_metrics = true; sample_traces = sampled } in
    record {
      span_enricher = record { custom_attributes = [] };
      metric_builder = record {
        config = config;
        caches = [];
        buckets = [];
        names = span_metric_labels sample_platform (get_attributes_as_labels config);
        observed = [];
      };
      sampler = record {
        normal = record {
          sampler = record {
            core = record {
              threshold_helper = record { config = config; thresholds = []; entity_keys = [] };
              memory = memory;
              samplers = [];
            };
            services = [];
          };
          caches = [];
          states = [];
          readings = 1;
        };
        traces = [];
        counters = no_counts;
      };
      forwarded = [];
    }

abbrev pub IsSoundHere : ProcessorOf → Type 0
IsSoundHere =
    IsSoundProcessor sample_platform labels plain_registry (plain_cache ℕ) clock
      (plain_cache-IsSized (StringMap String)) plain_registry-IsConsistent
      (plain_cache-IsFaithful ℕ) 100 3 (omega arith) (omega arith)

pub processor-IsSound : (sampled : Bool) → IsSoundHere (processor sampled)
unfolding lookup increasing count span_metric_labels get_attributes_as_labels apply_prom_conventions
    replace
processor-IsSound sampled = record {
  rules = tt;
  metrics = record {
    limit = refl;
    named = refl;
    bucketed = refl;
    admissible = record { increasing_buckets = refl; no_le = refl };
    registered = refl;
    within = λ key c e. absurd (cc);
    has_names = tt;
  };
  trace_count = 0;
  sampling = record {
    normal_sound = record {
      sound = record {
        limit = refl;
        bounded = tt;
        allocated = λ key request sq a p q. absurd (cc);
      };
      addressed = λ key c e. absurd (cc);
    };
    trace_count = refl;
  };
}
