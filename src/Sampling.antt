-- ===== src/Sampling.antt =====
-- assertsprocessor/sampler.go: which spans are captured, how they are marked and pushed. The sampler and
-- the threshold helper share one configuration by pointer, so it stands in the helper alone.
pub mod Spans
pub mod Marks
pub mod Safety
pub mod Batch
pub mod Normal
pub mod Loop
pub mod Known
pub mod Ready
pub mod NormalSafety
pub mod LoopSafety
pub mod Flush
pub mod FlushItems
pub mod FlushAll
pub mod Cut
pub mod Soundness
pub mod Progress
mod Tests
mod LoopTests
use asserts_otel_processor.Base.{
  ℕ, Bool, true, false, not, ◌&&◌, String, List, [], ◌∷◌, Option, none, some, get_elem?, set, ◌>>=◌,
  if◌then◌else◌, str_eq, ◌==◌,
}
use asserts_otel_processor.Base.Int.{ℤ, pos}
use asserts_otel_processor.Float.{Float64, flt}
use asserts_otel_processor.Span.{
  Value, Span, get_attribute, put_str, str_or_empty, span_has_error, compute_latency,
}
use asserts_otel_processor.Config.{Config}
use asserts_otel_processor.Keys.{RequestKey, build_entity_key}
use asserts_otel_processor.Thresholds.{ThresholdHelper, get_threshold}
use asserts_otel_processor.SpanEnrichment.{error_type_attribute, request_context_attribute}
use asserts_otel_processor.PriorityQueue.{Item}
use asserts_otel_processor.TraceQueue.{push}
use asserts_otel_processor.ServiceQueues.{TraceSampler}
use asserts_otel_processor.Traces.{Memory, TraceSegment, get_non_internal_spans, get_main_span}

abbrev pub sample_type_attribute : String
sample_type_attribute = "asserts.sample.type"

-- What the loop over the spans of a segment reads and writes: the thresholds, the spans, and the heap
-- of the samplers per request.
pub record Core : Type 0 where
  pub threshold_helper : ThresholdHelper
  pub memory : Memory
  pub samplers : List TraceSampler

abbrev pub write : ℕ → Span → Memory → Memory
write a span mem b = if b == a then span else mem b

-- `span.Attributes().PutStr(AssertsTraceSampleTypeAttribute, text)`
unfoldable pub mark : ℕ → String → Core → Core
mark a text core = record core {
  memory = write a (put_str sample_type_attribute text (core.memory a)) core.memory;
}

abbrev has_value : Option Value → String → Bool
has_value none text = false
has_value (some v) text = str_eq text v.as_string

unfoldable pub ignore_error_type : Core → Span → Bool
ignore_error_type core span =
    core.threshold_helper.config.ignore_client_errors
    && has_value (get_attribute error_type_attribute span) "client_errors"

-- The test, and the helper after the threshold was asked for.
unfoldable pub span_is_slow : Core → Span → TraceSegment → Bool × Core
span_is_slow core span ts =
    let request = str_or_empty (get_attribute request_context_attribute span) in
    let (threshold, helper) = get_threshold core.threshold_helper ts.namespace ts.service request in
    (flt threshold (compute_latency span), record core { threshold_helper = helper })

-- `requestState.errorQueue.push(&item)`, through the pointer to the sampler.
unfoldable pub push_error : ℕ → Item → Core → Option Core
push_error q item core = do
  ts ← get_elem? core.samplers q
  queue ← push ts.error_queue item
  some (record core { samplers = set core.samplers q (record ts { error_queue = queue }) })

unfoldable pub push_slow : ℕ → Item → Core → Option Core
push_slow q item core = do
  ts ← get_elem? core.samplers q
  queue ← push ts.slow_queue item
  some (record core { samplers = set core.samplers q (record ts { slow_queue = queue }) })

-- One turn of the loop over the spans, with the flag `sampled`; `none` is a panic.
unfoldable pub sample_span : TraceSegment → Item → ℕ → ℕ → Core → Bool → Option (Core × Bool)
unfolding mark ignore_error_type span_is_slow push_error push_slow
sample_span ts item q a core sampled =
    let span = core.memory a in
    let marked = mark a "error" core in
    let error : Option (Core × Bool) =
      if sampled
      then some (marked, true)
      else (push_error q (record item { sample_type = "error" }) marked >>= λ c. some (c, true)) in
    let (is_slow, asked) = span_is_slow core span ts in
    let slow_marked = mark a "slow" asked in
    let slow : Option (Core × Bool) =
      if sampled
      then some (slow_marked, true)
      else (push_slow q (record item { sample_type = "slow" }) slow_marked >>= λ c.
          some (c, true)) in
    if span_has_error span && not (ignore_error_type core span)
    then error
    else if is_slow
    then slow
    else some (asked, sampled)

unfoldable pub sample_spans : TraceSegment → Item → ℕ → List ℕ → Core → Bool → Option (Core × Bool)
unfolding sample_span
sample_spans ts item q [] core sampled = some (core, sampled)
sample_spans ts item q (a ∷ rest) core sampled =
    sample_span ts item q a core sampled >>= λ r. sample_spans ts item q rest r.0 r.1

-- The latency of the segment, and its request.
unfoldable pub update_trace : Config → Memory → ℕ → TraceSegment → TraceSegment
update_trace config mem main ts = record ts {
  latency = compute_latency (mem main);
  request_key = some (record {
    entity_key = build_entity_key config ts.namespace ts.service;
    request = str_or_empty (get_attribute request_context_attribute (mem main));
  });
}
