-- ===== src/Sampling/Safety.antt =====
-- The loop over the spans does not panic, and keeps the queues in order and within their limit.
use asserts_otel_processor.Base.{
  ℕ, ◌^◌, min, ◌<◌, ◌≡◌, refl, Bool, true, false, List, Option, none, some, All, All-set,
  All-get_elem?, length, length-set, get_elem?_lt, Yields, yields, Yields-bind,
}
use asserts_otel_processor.Float.{is_num}
use asserts_otel_processor.PriorityQueue.{Item}
use asserts_otel_processor.TraceQueue.Push.{IsBounded, push-Kept, new_trace_queue-IsBounded}
use asserts_otel_processor.ServiceQueues.{TraceSampler, new_trace_sampler}
use asserts_otel_processor.ServiceQueues.Limits.{new_trace_sampler-queues}
use asserts_otel_processor.Config.{Config}
use asserts_otel_processor.Base.Int.{pos}
use asserts_otel_processor.Traces.{TraceSegment}
use asserts_otel_processor.Sampling.{Core, sample_spans}
use asserts_otel_processor.Sampling.Spans.{
  SampleType, error, slow, push_sample, push_first, first_class, sample_spans_once,
}

-- Both queues of a sampler are valid and within the limit `m`.
abbrev pub AreBounded : ℕ → TraceSampler → Type 0
AreBounded m ts = IsBounded m ts.slow_queue × IsBounded m ts.error_queue

pub new_trace_sampler-AreBounded :
    (config : Config) (n : ℕ)
    → n < 2 ^ 53
    → config.limit_per_request_per_service ≡ pos n
    → AreBounded (min 5 n) (new_trace_sampler config)
new_trace_sampler-AreBounded config n h e =
    let (slow_queue, error_queue) = new_trace_sampler-queues config n h e in
    (rw slow_queue (new_trace_queue-IsBounded _), rw error_queue (new_trace_queue-IsBounded _))

-- As many samplers as before, all with bounded queues.
abbrev pub IsKept : ℕ → List TraceSampler → List TraceSampler → Type 0
IsKept m before after = All (AreBounded m) after × (length after ≡ length before)

module _ (m q : ℕ) (item : Item) (positive : 0 < m) (num : is_num item.latency ≡ true) where
  push_sample-IsKept :
      (c : SampleType) (samplers : List TraceSampler)
      → All (AreBounded m) samplers
      → q < length samplers
      → Yields (IsKept m samplers) (push_sample c q item samplers)
  push_sample-IsKept error samplers h inside =
      let (sampler, e) = get_elem?_lt samplers q inside in
      let bounded = All-get_elem? (AreBounded m) samplers q sampler e h in
      rw e (
        Yields-bind
          (push-Kept m sampler.error_queue (record item { sample_type = "error" }) bounded.1 num
            positive)
          λ queue pushed.
            yields (
              All-set (AreBounded m) samplers q _ h (bounded.0, pushed.0),
              length-set samplers q _,
            ))
  push_sample-IsKept slow samplers h inside =
      let (sampler, e) = get_elem?_lt samplers q inside in
      let bounded = All-get_elem? (AreBounded m) samplers q sampler e h in
      rw e (
        Yields-bind
          (push-Kept m sampler.slow_queue (record item { sample_type = "slow" }) bounded.0 num
            positive)
          λ queue pushed.
            yields (
              All-set (AreBounded m) samplers q _ h (pushed.0, bounded.1),
              length-set samplers q _,
            ))

  pub push_first-IsKept :
      (o : Option SampleType) (samplers : List TraceSampler)
      → All (AreBounded m) samplers
      → q < length samplers
      → Yields (IsKept m samplers) (push_first o q item samplers)
  push_first-IsKept none samplers h inside = yields (h, refl)
  push_first-IsKept (some c) samplers h inside = push_sample-IsKept c samplers h inside

  -- With a positive limit, a sampler at `q` and an item whose latency is a number, the loop over the
  -- spans of a segment ends without a panic, whatever the spans, and all queues stay valid and
  -- within the limit.
  pub sample_spans-IsKept :
      (ts : TraceSegment) (spans : List ℕ) (core : Core)
      → All (AreBounded m) core.samplers
      → q < length core.samplers
      → Yields
          (λ (r : Core × Bool). IsKept m core.samplers r.0.samplers)
          (sample_spans ts item q spans core false)
  sample_spans-IsKept ts spans core h inside = rw (sample_spans_once ts item q spans core) (
      Yields-bind (push_first-IsKept (first_class ts spans core) core.samplers h inside)
        λ s kept. yields kept)
