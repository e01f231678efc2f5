-- ===== src/Listeners/Sound.antt =====
-- A refresh leaves the processor as consumeTraces needs it.
use asserts_otel_processor.Base.{
  ℕ, ◌^◌, ◌<◌, ◌≡◌, refl, ◌∙◌, Bool, String, Option, none, some, Always, Bool-cases, inl, inr,
}
use asserts_otel_processor.Base.Int.{ℤ}
use asserts_otel_processor.Base.Maps.{StringMap}
use asserts_otel_processor.Cache.{TtlCache, IsSized, IsFaithful}
use asserts_otel_processor.Platform.{Platform}
use asserts_otel_processor.Config.{Config}
use asserts_otel_processor.SpanEnrichment.Compilation.{on_update-IsSound as enricher-IsSound}
use asserts_otel_processor.Thresholds
use asserts_otel_processor.Labels.{get_attributes_as_labels}
use asserts_otel_processor.MetricHelper.{MetricHelper, on_update}
use asserts_otel_processor.MetricHelper.Prometheus.{Registry, IsConsistent}
use asserts_otel_processor.MetricHelper.Sound.{IsAdmissible, IsSoundHelper, on_update-IsSound}
use asserts_otel_processor.ConfigRefresh.{fetch_and_update_config}
use asserts_otel_processor.ConfigRefresh.Loop.{update_config-keeps}
use asserts_otel_processor.Processor.Sound.{IsSoundProcessor}
use asserts_otel_processor.Listeners.{
  Running, ProcessorOf, write_config, threshold_field, metrics_fields, current, adopt,
  metrics_updated, update_enricher, update_thresholds, update_metrics, processor_on_update,
  sampler_on_update, later_listeners, listeners, refresh,
}

module _ (rt : Platform) (labels : TtlCache (StringMap String)) (registry : Registry)
    (states : TtlCache ℕ) (clock : ℕ → ℤ) (sized : IsSized labels)
    (consistent : IsConsistent registry) (faithful : IsFaithful states) (n r : ℕ)
    (small : r < 2 ^ 53) (positive : 0 < r) where
  abbrev Proc : Type 0
  Proc = ProcessorOf rt labels registry states clock

  abbrev IsSoundProc : Proc → Type 0
  IsSoundProc =
      IsSoundProcessor rt labels registry states clock sized consistent faithful n r small positive

  abbrev RunningOf : Type 0
  RunningOf = Running rt labels registry states clock

  abbrev pub IsSoundRunning : RunningOf → Type 0
  IsSoundRunning s = IsSoundProc s.processor

  -- A write that keeps the limit per request and the metric helper.
  write_config-IsSound :
      (copy : Config → Config) (p : Proc)
      → ((c : Config) → (copy c).limit_per_request_per_service ≡ c.limit_per_request_per_service)
      → IsSoundHelper rt labels registry sized consistent n
          (record p.metric_builder { config = copy p.metric_builder.config })
      → IsSoundProc p
      → IsSoundProc (write_config rt labels registry states clock copy p)
  write_config-IsSound copy p limit metrics h = record {
    rules = h.rules;
    metrics = metrics;
    trace_count = h.trace_count;
    sampling = record {
      normal_sound = record {
        sound = record {
          limit =
              limit p.sampler.normal.sampler.core.threshold_helper.config
              ∙ h.sampling.normal_sound.sound.limit;
          bounded = h.sampling.normal_sound.sound.bounded;
          allocated = h.sampling.normal_sound.sound.allocated;
        };
        addressed = h.sampling.normal_sound.addressed;
      };
      trace_count = h.sampling.trace_count;
    };
  }

  update_enricher-IsSound :
      (new : Config) (s : RunningOf)
      → IsSoundRunning s
      → IsSoundRunning (update_enricher rt labels registry states clock new s).0
  unfolding update_enricher
  update_enricher-IsSound new s h = record {
    rules = enricher-IsSound rt s.processor.span_enricher new h.rules;
    metrics = h.metrics;
    trace_count = h.trace_count;
    sampling = h.sampling;
  }

  -- A write that touches neither the limits nor what the histogram is made of.
  copied-IsSound :
      (copy : Config → Config) (p : Proc)
      → ((c : Config) → (copy c).limit_per_request_per_service ≡ c.limit_per_request_per_service)
      → ((c : Config) → (copy c).limit_per_service ≡ c.limit_per_service)
      → ((c : Config) → (copy c).capture_attributes_in_metric ≡ c.capture_attributes_in_metric)
      → ((c : Config) → (copy c).latency_histogram_buckets ≡ c.latency_histogram_buckets)
      → IsSoundProc p
      → IsSoundProc (write_config rt labels registry states clock copy p)
  unfolding get_attributes_as_labels
  copied-IsSound copy p request service attributes buckets h =
      let config = p.metric_builder.config in
      write_config-IsSound copy p request
        (record {
          limit = service config ∙ h.metrics.limit;
          named = rw (attributes config) h.metrics.named;
          bucketed = rw (buckets config) h.metrics.bucketed;
          admissible = record {
            increasing_buckets = rw (buckets config) h.metrics.admissible.increasing_buckets;
            no_le = rw (attributes config) h.metrics.admissible.no_le;
          };
          registered = h.metrics.registered;
          within = h.metrics.within;
          has_names = h.metrics.has_names;
        })
        h

  update_thresholds-IsSound :
      (new : Config) (s : RunningOf)
      → IsSoundRunning s
      → IsSoundRunning (update_thresholds rt labels registry states clock new s).0
  unfolding update_thresholds Thresholds.on_update
  update_thresholds-IsSound new s h =
      let th = s.processor.sampler.normal.sampler.core.threshold_helper in
      copied-IsSound (threshold_field rt labels registry states clock new th) s.processor
        (λ c. refl) (λ c. refl) (λ c. refl) (λ c. refl) h

  update_metrics-IsSound :
      (stopped : Bool) (new : Config) (s : RunningOf)
      → IsAdmissible rt new
      → IsSoundRunning s
      → IsSoundRunning (update_metrics rt labels registry states clock stopped new s).0
  unfolding update_metrics
  update_metrics-IsSound stopped new s admissible h =
      go (on_update rt labels registry stopped new s.processor.metric_builder) (
        on_update-IsSound rt labels registry sized consistent n stopped new
          s.processor.metric_builder admissible h.metrics)
    where
      go :
          (o : Option (MetricHelper rt labels registry × Bool))
          → Always
              (λ (q : MetricHelper rt labels registry × Bool).
                IsSoundHelper rt labels registry sized consistent n q.0)
              o
          → IsSoundRunning (metrics_updated rt labels registry states clock s o).0
      go none sound = h
      go (some (helper, ok)) sound =
          write_config-IsSound (metrics_fields rt labels registry states clock helper.config)
            (record s.processor { metric_builder = helper }) (λ c. refl) sound
            (record {
              rules = h.rules;
              metrics = sound;
              trace_count = h.trace_count;
              sampling = h.sampling;
            })

  adopt-IsSound :
      (latest : Config) (s : RunningOf)
      → IsSoundRunning s
      → IsSoundRunning (adopt rt labels registry states clock s latest)
  adopt-IsSound latest s h = elim (Bool-cases s.exited) [ inl e ↦ rw e h | inr e ↦ rw e h ]

  -- Under the conditions of consumeTraces: if the processor is in order, then it is so after a refresh,
  -- whatever admissible configuration was fetched (or none), which listeners see a change, which of them fail,
  -- and whether the exporter stops.
  pub refresh-IsSound :
      (stopped : Bool) (fetched : Option Config) (s : RunningOf)
      → Always (IsAdmissible rt) fetched
      → IsSoundRunning s
      → IsSoundRunning (refresh rt labels registry states clock stopped fetched s)
  unfolding refresh fetch_and_update_config listeners later_listeners processor_on_update
      sampler_on_update
  refresh-IsSound stopped none s admissible h = h
  refresh-IsSound stopped (some latest) s admissible h =
      update_config-keeps (current rt labels registry states clock)
        (adopt rt labels registry states clock) IsSoundRunning latest
        (listeners rt labels registry states clock stopped)
        (
          (λ t. update_enricher-IsSound latest t),
          (
            (λ t. update_thresholds-IsSound latest t),
            (
              (λ t. update_metrics-IsSound stopped latest t admissible),
              (
                (λ t k.
                    copied-IsSound (processor_on_update latest) t.processor (λ c. refl) (λ c. refl)
                      (λ c. refl) (λ c. refl) k),
                (
                  (λ t k.
                      copied-IsSound (sampler_on_update latest) t.processor (λ c. refl) (λ c. refl)
                        (λ c. refl) (λ c. refl) k),
                  tt,
                ),
              ),
            ),
          ),
        )
        (λ t. adopt-IsSound latest t) s h
