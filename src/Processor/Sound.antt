-- ===== src/Processor/Sound.antt =====
-- consumeTraces as a whole: it does not panic, and what it does where traces are not sampled.
use asserts_otel_processor.Base.{
  ℕ, ◌^◌, ◌<◌, ◌≡◌, refl, false, String, List, [], ◌∷◌, ◌++◌, Yields, yields, Yields-bind,
  Yields-if,
}
use asserts_otel_processor.Base.Int.{ℤ}
use asserts_otel_processor.Base.Maps.{StringMap}
use asserts_otel_processor.Cache.{TtlCache, IsSized, IsFaithful}
use asserts_otel_processor.Platform.{Platform}
use asserts_otel_processor.SpanEnrichment.Laws.{IsSound}
use asserts_otel_processor.Traces.{Memory, ResourceSpans, convert_to_traces}
use asserts_otel_processor.Sampling.Loop.{State}
use asserts_otel_processor.Sampling.LoopSafety.{IsSoundState}
use asserts_otel_processor.MetricHelper.Prometheus.{Registry, IsConsistent}
use asserts_otel_processor.MetricHelper.Sound.{IsSoundHelper}
use asserts_otel_processor.Processor.{Processor, memory_of, with_memory, consume_traces}
use asserts_otel_processor.Processor.Enrichment.{IsEnriched, all_visited, process_traces-IsDone}

module _ (rt : Platform) (labels : TtlCache (StringMap String)) (registry : Registry)
    (states : TtlCache ℕ) (clock : ℕ → ℤ) (sized : IsSized labels)
    (consistent : IsConsistent registry) (faithful : IsFaithful states) (n r : ℕ)
    (small : r < 2 ^ 53) (positive : 0 < r) where
  abbrev ProcessorOf : Type 0
  ProcessorOf = Processor rt labels registry states clock

  -- The rules do not panic, the metric helper is in order for `n` request contexts per service, and
  -- the sampler for `r` traces per request.
  pub record IsSoundProcessor (p : ProcessorOf) : Type 0 where
    pub rules : IsSound rt p.span_enricher.custom_attributes
    pub metrics : IsSoundHelper rt labels registry sized consistent n p.metric_builder
    pub trace_count : ℕ
    pub sampling : IsSoundState states clock faithful r small positive trace_count p.sampler

  -- Other spans and more traces make no difference to the sampler.
  pub remembering-IsSound :
      (k : ℕ) (mem : Memory) (s : State states clock)
      → IsSoundState states clock faithful r small positive k s
      → IsSoundState states clock faithful r small positive k
          (with_memory rt labels registry states clock mem s)
  remembering-IsSound k mem s h = record {
    normal_sound = record {
      sound = record {
        limit = h.normal_sound.sound.limit;
        bounded = h.normal_sound.sound.bounded;
        allocated = h.normal_sound.sound.allocated;
      };
      addressed = h.normal_sound.addressed;
    };
    trace_count = h.trace_count;
  }

  -- Under the same conditions, with the buckets and names of the histogram among them, where traces are not sampled: consumeTraces hands the whole batch to the
  -- next consumer, once, after the spans that stand in its traces and are not internal were enriched:
  -- these have a request context by then, nothing but attributes of them has changed, and all other
  -- spans are what they were. The sampler keeps its traces, queues and counters.
  pub consume_traces-forwards :
      (ctx : ℕ) (resources : List ResourceSpans) (p : ProcessorOf)
      → IsSoundProcessor p
      → p.metric_builder.config.sample_traces ≡ false
      → Yields
          (λ (q : ProcessorOf).
            (mem : Memory) × (q.forwarded
              ≡ p.forwarded ++ record { ctx = ctx; resources = resources; memory = mem } ∷ [])
            × IsEnriched
                (all_visited (convert_to_traces p.sampler.normal.sampler.core.memory resources))
                p.sampler.normal.sampler.core.memory
                mem
            × (q.sampler ≡ with_memory rt labels registry states clock mem p.sampler))
          (consume_traces rt labels registry states clock ctx resources p)
  unfolding consume_traces
  consume_traces-forwards ctx resources p h off =
      let mem = memory_of rt labels registry states clock p in
      Yields-bind
        (process_traces-IsDone rt labels registry states clock sized consistent n p.span_enricher
          h.rules (convert_to_traces mem resources) (mem, p.metric_builder) h.metrics)
        λ w done.
          Yields-if p.metric_builder.config.sample_traces (λ on. absurd (cc))
            (λ _. yields (w.1.0, refl, done.0, refl))
