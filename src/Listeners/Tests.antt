-- ===== src/Listeners/Tests.antt =====
-- The theorems on refreshes at a processor without rules.
use asserts_otel_processor.Base.{
  ℕ, ◌≡◌, refl, arith, true, false, String, List, [], ◌∷◌, some, none, inr,
}
use asserts_otel_processor.Base.Maps.{StringMap}
use asserts_otel_processor.Cache.Sample.{plain_cache, plain_cache-IsFaithful, plain_cache-IsSized}
use asserts_otel_processor.Platform.Sample.{sample_platform}
use asserts_otel_processor.Config.Sample.{sample_config}
use asserts_otel_processor.Config.{Config}
use asserts_otel_processor.MetricHelper.Prometheus.{plain_registry, plain_registry-IsConsistent}
use asserts_otel_processor.Processor.Sample.{memory, batch as resources, clock, labels, processor}
use asserts_otel_processor.Listeners.{Running, refresh}
use asserts_otel_processor.Listeners.Flags.{InForce}
use asserts_otel_processor.Listeners.Converge.{refresh-InForce}
use asserts_otel_processor.Listeners.Sound.{IsSoundRunning}
use asserts_otel_processor.Listeners.Runs.{Event, batch, tick}
use asserts_otel_processor.Listeners.Stale.{refresh-removed_kept}

abbrev RunningOf : Type 0
RunningOf = Running sample_platform labels plain_registry (plain_cache ℕ) clock

-- The accepted configuration has a span attribute.
abbrev running : RunningOf
running = record {
  processor = processor true;
  accepted = some (record sample_config {
    span_attributes =
        record { attribute_name = "asserts.request.context"; attribute_configs = [] } ∷ [];
  });
  exited = false;
}

abbrev IsSoundHere : RunningOf → Type 0
IsSoundHere =
    IsSoundRunning sample_platform labels plain_registry (plain_cache ℕ) clock
      (plain_cache-IsSized (StringMap String)) plain_registry-IsConsistent
      (plain_cache-IsFaithful ℕ) 100 3 (omega arith) (omega arith)

-- A batch, an update of the attributes to capture, and the batch again.
abbrev events : List Event
events =
    batch 0 memory resources
    ∷ tick true (some (record sample_config { capture_attributes_in_metric = "a" ∷ [] }))
    ∷ batch 0 memory resources
    ∷ []

refresh-removed_kept_example :
    (refresh sample_platform labels plain_registry
      (plain_cache ℕ)
      clock
      true
      (some sample_config)
      running).processor.span_enricher
    ≡ running.processor.span_enricher
refresh-removed_kept_example =
    refresh-removed_kept sample_platform labels plain_registry (plain_cache ℕ) clock true
      sample_config running refl refl

-- No configuration was accepted yet: that of the refresh is the processor's own.
abbrev starting : RunningOf
starting = record { processor = processor true; accepted = none; exited = false }

abbrev latest : Config
latest = record sample_config { ignore_client_errors = true }

refresh-InForce_example :
    InForce sample_platform labels plain_registry
      (plain_cache ℕ)
      clock
      (λ c. c.capture_metrics)
      false
      (refresh sample_platform labels plain_registry
        (plain_cache ℕ)
        clock
        true
        (some latest)
        starting)
    × InForce sample_platform labels plain_registry
        (plain_cache ℕ)
        clock
        (λ c. c.ignore_client_errors)
        true
        (refresh sample_platform labels plain_registry
          (plain_cache ℕ)
          clock
          true
          (some latest)
          starting)
refresh-InForce_example =
    refresh-InForce sample_platform labels plain_registry (plain_cache ℕ) clock true latest starting
      (refl, inr refl) (refl, inr refl)
