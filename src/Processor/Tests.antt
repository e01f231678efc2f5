-- ===== src/Processor/Tests.antt =====
-- consumeTraces at a batch with a root span and a client span of one service.
use asserts_otel_processor.Base.{ℕ, ◌≡◌, refl, false, arith, String, [], ◌∷◌, Yields}
use asserts_otel_processor.Base.Maps.{StringMap}
use asserts_otel_processor.Cache.Sample.{plain_cache, plain_cache-IsFaithful, plain_cache-IsSized}
use asserts_otel_processor.Platform.Sample.{sample_platform}
use asserts_otel_processor.Traces.{Memory, convert_to_traces}
use asserts_otel_processor.MetricHelper.Prometheus.{plain_registry, plain_registry-IsConsistent}
use asserts_otel_processor.Processor.{consume_traces, with_memory}
use asserts_otel_processor.Processor.Enrichment.{IsEnriched, all_visited}
use asserts_otel_processor.Processor.Sound.{consume_traces-forwards}
use asserts_otel_processor.Processor.Sample.{
  memory, batch, clock, labels, ProcessorOf, processor, processor-IsSound,
}

consume_traces-forwards_example :
    Yields
      (λ (q : ProcessorOf).
        (mem : Memory) × (q.forwarded ≡ record { ctx = 0; resources = batch; memory = mem } ∷ [])
        × IsEnriched (all_visited (convert_to_traces memory batch)) memory mem
        × (q.sampler
            ≡ with_memory sample_platform labels plain_registry
                (plain_cache ℕ)
                clock
                mem
                (processor false).sampler))
      (consume_traces sample_platform labels plain_registry
        (plain_cache ℕ)
        clock
        0
        batch
        (processor false))
consume_traces-forwards_example =
    consume_traces-forwards sample_platform labels plain_registry (plain_cache ℕ) clock
      (plain_cache-IsSized (StringMap String)) plain_registry-IsConsistent
      (plain_cache-IsFaithful ℕ) 100 3 (omega arith) (omega arith) 0 batch (processor false)
      (processor-IsSound false) refl
