-- ===== src/Sampling/Loop.antt =====
-- assertsprocessor/sampler.go: captureNormalTraceSample, and sampleTraces over the traces of a batch.
-- Traces are shared by pointer: a queued item holds the address of its trace.
use asserts_otel_processor.Base.{
  ℕ, Bool, true, false, List, [], ◌∷◌, Option, none, some, get_elem?, set, if◌then◌else◌, ◌>>=◌,
}
use asserts_otel_processor.Base.Int.{ℤ, pos}
use asserts_otel_processor.Cache.{TtlCache}
use asserts_otel_processor.Counters.{Counters, incr_total_counts}
use asserts_otel_processor.PriorityQueue.{Item}
use asserts_otel_processor.Traces.{TraceSegment, Trace, get_main_span}
use asserts_otel_processor.Sampling.Batch.{Sampler, Turn, next, returned, Sampled, sample_segments}
use asserts_otel_processor.Sampling.Normal.{Normal, capture_normal_sample}

module _ (t : TtlCache ℕ) (clock : ℕ → ℤ) where
  abbrev NormalOf : Type 0
  NormalOf = Normal t clock

  -- The loop ends at the first segment of which a normal sample is captured.
  unfoldable pub capture_normal_trace_sample :
      ℕ → ℕ → List TraceSegment → NormalOf → Option (Bool × List TraceSegment × NormalOf)
  capture_normal_trace_sample tr ctx [] n = some (false, [], n)
  capture_normal_trace_sample tr ctx (ts ∷ rest) n =
      let (main, ts') = get_main_span ts in
      let item : Item = record {
        trace = tr;
        ctx = ctx;
        latency = ts.latency;
        sample_type = "";
        index = pos 0;
      } in
      let later : NormalOf → Option (Bool × List TraceSegment × NormalOf) =
        λ m. capture_normal_trace_sample tr ctx rest m >>= λ r. some (r.0, ts' ∷ r.1, r.2) in
      elim main [
        | none ↦ later n
        | some a ↦ capture_normal_sample t clock ts' item n >>= λ r.
            if r.0 then some (true, ts' ∷ rest, r.1) else later r.1
      ]

  -- The sampler's state, the heap of the traces, and the counters.
  pub record State : Type 0 where
    pub normal : NormalOf
    pub traces : List Trace
    pub counters : Counters

  abbrev pub store : ℕ → List TraceSegment → NormalOf → State → State
  store tr segments n s = record s {
    normal = n;
    traces = set s.traces tr (record { segments = segments });
  }

  abbrev pub with_sampler : Sampler → NormalOf → NormalOf
  with_sampler s n = record n { sampler = s }

  -- The trace's segments and the sampler's state after the capture of a normal sample, if nothing else
  -- was sampled.
  unfoldable pub capture_unless :
      ℕ → ℕ → Bool → List TraceSegment → NormalOf → Option (List TraceSegment × NormalOf)
  unfolding capture_normal_trace_sample
  capture_unless tr ctx sampled segments n =
      let captured : Option (List TraceSegment × NormalOf) =
        capture_normal_trace_sample tr ctx segments n >>= λ r. some (r.1, r.2) in
      if sampled then some (segments, n) else captured

  -- What a turn of the loop over the traces does after the loop over the segments.
  unfoldable pub finish_trace :
      ℕ → ℕ → Turn (Sampled (List TraceSegment)) → State → Option (Turn State)
  unfolding capture_unless
  finish_trace tr ctx (returned (segments, sampler, sampled)) s =
      some (returned (store tr segments (with_sampler sampler s.normal) s))
  finish_trace tr ctx (next (segments, sampler, sampled)) s =
      capture_unless tr ctx sampled segments (with_sampler sampler s.normal) >>= λ r.
      some (next (record (store tr r.0 r.1 s) { counters = incr_total_counts r.0 s.counters }))

  unfoldable pub sample_trace : ℕ → ℕ → State → Option (Turn State)
  unfolding finish_trace
  sample_trace ctx tr s = get_elem? s.traces tr >>= λ trace.
      sample_segments tr ctx trace.segments s.normal.sampler false >>= λ turn.
      finish_trace tr ctx turn s

  -- The method: where a turn returns, the traces that follow are not looked at.
  unfoldable pub sample_traces : ℕ → List ℕ → State → Option State
  unfolding sample_trace
  sample_traces ctx [] s = some s
  sample_traces ctx (tr ∷ rest) s = sample_trace ctx tr s >>= λ turn. elim turn [
    | returned s' ↦ some s'
    | next s' ↦ sample_traces ctx rest s'
  ]
