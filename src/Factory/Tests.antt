-- ===== src/Factory/Tests.antt =====
-- newProcessor with the default configuration.
use asserts_otel_processor.Base.{
  ℕ, ◌*◌, ◌≡◌, refl, arith, true, [], ◌∷◌, String, Option, some, Yields,
}
use asserts_otel_processor.Base.Int.{ℤ, pos, ltb_ℤ, wrap64, times_ℤ}
use asserts_otel_processor.Base.Maps.{StringMap}
use asserts_otel_processor.Cache.{TtlCache}
use asserts_otel_processor.Cache.Sample.{plain_cache, plain_cache-IsFaithful, plain_cache-IsSized}
use asserts_otel_processor.Platform.Sample.{sample_platform}
use asserts_otel_processor.Config.{Config}
use asserts_otel_processor.Span.{Span, server, ok}
use asserts_otel_processor.Labels.{
  replace, apply_prom_conventions, get_attributes_as_labels, span_metric_labels,
}
use asserts_otel_processor.Labels.Agreement.{count}
use asserts_otel_processor.MetricHelper.Prometheus.{
  increasing, plain_registry, plain_registry-IsConsistent,
}
use asserts_otel_processor.MetricHelper.Sound.{IsAdmissible}
use asserts_otel_processor.Factory.{create_default_config, flush_interval, take_over, new_processor}
use asserts_otel_processor.Factory.Initial.{IsBuilt, new_processor-IsBuilt}

abbrev clock : ℕ → ℤ
clock n = pos (1800 * n)

abbrev labels : TtlCache (StringMap String)
labels = plain_cache (StringMap String)

abbrev fetched : Option Config
fetched = some (record create_default_config {
  capture_metrics = true;
  capture_attributes_in_metric = "http.method" ∷ [];
})

abbrev local : Config
local = record create_default_config { env = "dev" }

abbrev memory : ℕ → Span
memory a = record {
  trace_id = "t1";
  is_orphan = true;
  name = "/api";
  kind = server;
  status = ok;
  start_timestamp = 0;
  end_timestamp = 1;
  attributes = [];
}

settings :
    IsAdmissible sample_platform (take_over fetched local)
    × (plain_registry.registers
          (span_metric_labels sample_platform (get_attributes_as_labels (take_over fetched local)))
        ≡ true)
    × (ltb_ℤ (pos 0) (flush_interval local) ≡ true)
unfolding take_over flush_interval wrap64 times_ℤ increasing count span_metric_labels
    get_attributes_as_labels apply_prom_conventions replace
settings = (record { increasing_buckets = refl; no_le = refl }, refl, refl)

new_processor-IsBuilt_example :
    Yields
      (IsBuilt sample_platform labels plain_registry
        (plain_cache ℕ)
        clock
        (plain_cache-IsSized (StringMap String))
        plain_registry-IsConsistent
        (plain_cache-IsFaithful ℕ)
        100
        3
        (omega arith)
        (omega arith)
        (take_over fetched local))
      (new_processor sample_platform labels plain_registry
        (plain_cache ℕ)
        clock
        fetched
        local
        memory)
new_processor-IsBuilt_example =
    new_processor-IsBuilt sample_platform labels plain_registry (plain_cache ℕ) clock
      (plain_cache-IsSized (StringMap String)) plain_registry-IsConsistent
      (plain_cache-IsFaithful ℕ) 100 3 (omega arith) (omega arith) fetched local memory refl refl
      settings.0 settings.1 settings.2
