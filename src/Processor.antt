-- ===== src/Processor.antt =====
-- assertsprocessor/processor.go: consumeTraces enriches spans, captures their metrics and samples the
-- traces or passes them on. The components share one configuration by pointer; a copy of it stands in
-- the metric helper and one in the threshold helper of the sampler.
pub mod Enrichment
pub mod Sound
pub mod Sample
mod Tests
use asserts_otel_processor.Base.{
  ℕ, suc, Bool, String, List, [], ◌∷◌, ◌++◌, Option, none, some, length, if◌then◌else◌, ◌>>=◌,
}
use asserts_otel_processor.Base.Int.{ℤ}
use asserts_otel_processor.Base.Maps.{StringMap}
use asserts_otel_processor.Cache.{TtlCache}
use asserts_otel_processor.Platform.{Platform}
use asserts_otel_processor.Span.{Span}
use asserts_otel_processor.Config.{Config}
use asserts_otel_processor.SpanEnrichment.{SpanEnrichmentProcessor, enrich_span}
use asserts_otel_processor.Traces.{
  Memory, ResourceSpans, TraceSegment, Trace, get_non_internal_spans, convert_to_traces,
}
use asserts_otel_processor.Sampling.{write}
use asserts_otel_processor.Sampling.Loop.{State, sample_traces}
use asserts_otel_processor.MetricHelper.Prometheus.{Registry}
use asserts_otel_processor.MetricHelper.{MetricHelper, capture_metrics}

-- What the next consumer is given: the context, and the spans as they are at that time.
pub record Forwarded : Type 0 where
  pub ctx : ℕ
  pub resources : List ResourceSpans
  pub memory : Memory

-- `n` addresses from `a` on.
abbrev pub addresses : ℕ → ℕ → List ℕ
addresses a ℕ.zero = []
addresses a (suc n) = a ∷ addresses (suc a) n

module _ (rt : Platform) (labels : TtlCache (StringMap String)) (registry : Registry)
    (states : TtlCache ℕ) (clock : ℕ → ℤ) where
  abbrev pub Helper : Type 0
  Helper = MetricHelper rt labels registry

  -- What the loops over traces, segments and spans write to.
  abbrev pub Written : Type 0
  Written = Memory × Helper

  pub record Processor : Type 0 where
    pub span_enricher : SpanEnrichmentProcessor rt
    pub metric_builder : Helper
    pub sampler : State states clock
    pub forwarded : List Forwarded

  -- The body of the loop over spans.
  unfoldable pub process_span :
      SpanEnrichmentProcessor rt → TraceSegment → ℕ → Written → Option Written
  process_span ep ts a (mem, helper) =
      enrich_span rt ep.custom_attributes ts.namespace ts.service (mem a) >>= λ span.
      let captured =
        capture_metrics rt labels registry span ts.namespace ts.service ts.resource_spans.resource
          helper
        >>= λ h. some (write a span mem, h) in
      if helper.config.capture_metrics then captured else some (write a span mem, helper)

  unfoldable pub process_spans :
      SpanEnrichmentProcessor rt → TraceSegment → List ℕ → Written → Option Written
  unfolding process_span
  process_spans ep ts [] w = some w
  process_spans ep ts (a ∷ rest) w = process_span ep ts a w >>= process_spans ep ts rest

  unfoldable pub process_segments :
      SpanEnrichmentProcessor rt
      → List TraceSegment
      → Written
      → Option (List TraceSegment × Written)
  unfolding process_spans
  process_segments ep [] w = some ([], w)
  process_segments ep (ts ∷ rest) w =
      let (spans, ts') = get_non_internal_spans ts in
      process_spans ep ts' spans w >>= λ w'.
      process_segments ep rest w' >>= λ r. some (ts' ∷ r.0, r.1)

  unfoldable pub process_traces :
      SpanEnrichmentProcessor rt → List Trace → Written → Option (List Trace × Written)
  unfolding process_segments
  process_traces ep [] w = some ([], w)
  process_traces ep (tr ∷ rest) w = process_segments ep tr.segments w >>= λ s.
      process_traces ep rest s.1 >>= λ r. some (record { segments = s.0 } ∷ r.0, r.1)

  abbrev pub memory_of : Processor → Memory
  memory_of p = p.sampler.normal.sampler.core.memory

  abbrev pub with_memory : Memory → State states clock → State states clock
  with_memory mem s = record s {
    normal = record s.normal {
      sampler = record s.normal.sampler { core = record s.normal.sampler.core { memory = mem } };
    };
  }

  -- The new traces are put behind those that the queues may still refer to.
  unfoldable pub consume_traces : ℕ → List ResourceSpans → Processor → Option Processor
  unfolding process_traces
  consume_traces ctx resources p =
      process_traces p.span_enricher (convert_to_traces (memory_of p) resources)
        (memory_of p, p.metric_builder)
      >>= λ r.
          let s = with_memory r.1.0 p.sampler in
          let sampled =
            sample_traces states clock ctx (addresses (length s.traces) (length r.0))
              (record s { traces = s.traces ++ r.0 }) in
          let forwarded : Forwarded = record { ctx = ctx; resources = resources; memory = r.1.0 } in
          let passed_on = record p {
            metric_builder = r.1.1;
            sampler = s;
            forwarded = p.forwarded ++ forwarded ∷ [];
          } in
          let queued = sampled >>= λ s'. some (record p { metric_builder = r.1.1; sampler = s' }) in
          if p.metric_builder.config.sample_traces then queued else some passed_on
