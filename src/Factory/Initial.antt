-- ===== src/Factory/Initial.antt =====
-- What newProcessor returns.
use asserts_otel_processor.Base.{
  ℕ, ◌^◌, ◌<◌, ◌≡◌, refl, sym, ◌∙◌, ◌>>=◌, true, String, List, [], Option, none, some, Always,
  Yields, yields,
}
use asserts_otel_processor.Base.Int.{ℤ, pos, ltb_ℤ}
use asserts_otel_processor.Base.Maps.{StringMap, lookup}
use asserts_otel_processor.Cache.{TtlCache, IsSized, IsFaithful}
use asserts_otel_processor.Platform.{Platform}
use asserts_otel_processor.Config.{Config}
use asserts_otel_processor.CustomAttribute.{ValidationError}
use asserts_otel_processor.SpanEnrichment.{
  SpanEnrichmentProcessor, Outcome, done, failed, build_enrichment_processor,
}
use asserts_otel_processor.SpanEnrichment.Laws.{IsSound}
use asserts_otel_processor.SpanEnrichment.Compilation.{
  Sound, error_of, build_enrichment_processor-IsSound, rule_error,
}
use asserts_otel_processor.Labels.{get_attributes_as_labels, span_metric_labels}
use asserts_otel_processor.Traces.{Memory}
use asserts_otel_processor.MetricHelper.{MetricHelper, register_metrics}
use asserts_otel_processor.MetricHelper.Prometheus.{Registry, IsConsistent}
use asserts_otel_processor.MetricHelper.Sound.{
  IsAdmissible, IsSoundHelper, register_metrics-IsSound,
}
use asserts_otel_processor.Processor.{Processor}
use asserts_otel_processor.Processor.Sound.{IsSoundProcessor}
use asserts_otel_processor.Factory.{
  take_over, flush_interval, new_flush_ticker, new_metric_helper, new_sampler, with_enricher,
  new_processor,
}

module _ (rt : Platform) (labels : TtlCache (StringMap String)) (registry : Registry)
    (states : TtlCache ℕ) (clock : ℕ → ℤ) (sized : IsSized labels)
    (consistent : IsConsistent registry) (faithful : IsFaithful states) (n r : ℕ)
    (small : r < 2 ^ 53) (positive : 0 < r) where
  abbrev ProcessorOf : Type 0
  ProcessorOf = Processor rt labels registry states clock

  -- What is returned for a configuration: the error of its rules, or a processor that is in order and
  -- whose components have this configuration, if its rules are accepted.
  pub data IsBuilt (config : Config) : Outcome ProcessorOf → Type 0 where
    refused : {e : ValidationError} → rule_error rt config ≡ some e → IsBuilt config (failed e)
    built :
        {p : ProcessorOf}
        → rule_error rt config ≡ none
        → IsSoundProcessor rt labels registry states clock sized consistent faithful n r small
            positive p
        → p.metric_builder.config ≡ config
        → p.sampler.normal.sampler.core.threshold_helper.config ≡ config
        → IsBuilt config (done p)

  -- The label names of the histogram for a configuration.
  abbrev pub label_names : Config → List String
  label_names config = span_metric_labels rt (get_attributes_as_labels config)

  register_metrics-registers :
      (helper : MetricHelper rt labels registry)
      → registry.registers (label_names helper.config) ≡ true
      → Yields
          (λ (h : MetricHelper rt labels registry). h.config ≡ helper.config)
          (register_metrics rt labels registry helper)
  unfolding register_metrics
  register_metrics-registers helper e = rw e (yields refl)

  with_enricher-IsBuilt :
      (config : Config) (memory : Memory) (o : Outcome (SpanEnrichmentProcessor rt))
      → config.limit_per_service ≡ pos n
      → config.limit_per_request_per_service ≡ pos r
      → Sound rt (λ (ep : SpanEnrichmentProcessor rt). IsSound rt ep.custom_attributes) o
      → error_of o ≡ rule_error rt config
      → IsAdmissible rt config
      → registry.registers (label_names config) ≡ true
      → ltb_ℤ (pos 0) (flush_interval config) ≡ true
      → Yields (IsBuilt config) (with_enricher rt labels registry states clock config memory o)
  unfolding new_metric_helper new_sampler lookup
  with_enricher-IsBuilt config memory (failed e) limit request rules same admissible names due =
      yields (refused (sym same))
  with_enricher-IsBuilt config memory (done ep) limit request rules same admissible names due =
      let helper = new_metric_helper rt labels registry states clock config in
      go (register_metrics rt labels registry helper)
        (register_metrics-IsSound rt labels registry sized consistent n helper limit admissible
          (λ key c e. absurd (cc)))
        (register_metrics-registers helper names)
    where
      go :
          (m : Option (MetricHelper rt labels registry))
          → Always (IsSoundHelper rt labels registry sized consistent n) m
          → Yields (λ (h : MetricHelper rt labels registry). h.config ≡ config) m
          → Yields (IsBuilt config) (
              m >>= λ h. new_flush_ticker config (
                done (record {
                  span_enricher = ep;
                  metric_builder = h;
                  sampler = new_sampler rt labels registry states clock config memory;
                  forwarded = [];
                })))
      go _ sound (yields {a = h} given) = rw due (
          yields (
            built (sym same)
              (record {
                rules = rules;
                metrics = sound;
                trace_count = 0;
                sampling = record {
                  normal_sound = record {
                    sound = record {
                      limit = request;
                      bounded = tt;
                      allocated = λ key q sq a e f. absurd (cc);
                    };
                    addressed = λ key c e. absurd (cc);
                  };
                  trace_count = refl;
                };
              })
              given refl))

  take_over-limits :
      (fetched : Option Config) (local : Config)
      → ((take_over fetched local).limit_per_service ≡ local.limit_per_service)
        × ((take_over fetched local).limit_per_request_per_service
            ≡ local.limit_per_request_per_service)
        × ((take_over fetched local).trace_flush_frequency_seconds
            ≡ local.trace_flush_frequency_seconds)
  unfolding take_over
  take_over-limits none local = (refl, refl, refl)
  take_over-limits (some fetched) local = (refl, refl, refl)

  -- For local limits of n requests per service and r traces per request with 0 < r < 2^53, caches
  -- that hold what was set and count it, and a registry whose histograms accept the labels that are
  -- their names if their buckets increase and "le" is no name: let the configuration in use, after
  -- the fetched one has taken precedence, have no null elements in its lists, buckets that increase, label
  -- names that are registered and are not "le", and a flush interval that is positive in nanoseconds.
  -- Then newProcessor neither panics nor ends the process: it returns an error exactly if validation
  -- finds one in the rules in use, and otherwise a processor that is in order as consumeTraces needs it,
  -- whose components have that configuration.
  pub new_processor-IsBuilt :
      (fetched : Option Config) (local : Config) (memory : Memory)
      → local.limit_per_service ≡ pos n
      → local.limit_per_request_per_service ≡ pos r
      → IsAdmissible rt (take_over fetched local)
      → registry.registers (label_names (take_over fetched local)) ≡ true
      → ltb_ℤ (pos 0) (flush_interval local) ≡ true
      → Yields
          (IsBuilt (take_over fetched local))
          (new_processor rt labels registry states clock fetched local memory)
  unfolding new_processor flush_interval
  new_processor-IsBuilt fetched local memory limit request admissible names due =
      let config = take_over fetched local in
      let (service, per_request, seconds) = take_over-limits fetched local in
      let (rules, same) = build_enrichment_processor-IsSound rt config in
      with_enricher-IsBuilt config memory (build_enrichment_processor rt config) (service ∙ limit)
        (per_request ∙ request) rules same admissible names (rw seconds due)
