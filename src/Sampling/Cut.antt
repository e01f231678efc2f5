-- ===== src/Sampling/Cut.antt =====
-- Where sampleTraces returns early.
use asserts_otel_processor.Base.{ℕ, ◌≡◌, refl, List, ◌∷◌, false, Option, some, none, get_elem?}
use asserts_otel_processor.Base.Int.{ℤ}
use asserts_otel_processor.Cache.{TtlCache}
use asserts_otel_processor.Traces.{TraceSegment, get_main_span}
use asserts_otel_processor.Sampling.{Core, update_trace}
use asserts_otel_processor.Sampling.Batch.{
  Sampler, returned, request_state, key_of, sample_with, sample_segment, sample_segments,
}
use asserts_otel_processor.Sampling.Loop.{
  State, store, with_sampler, finish_trace, sample_trace, sample_traces,
}

-- A segment with its request key and latency.
abbrev pub updated : TraceSegment → ℕ → Core → TraceSegment
updated ts main core =
    update_trace core.threshold_helper.config core.memory main (get_main_span ts).1

-- What `getRequestState` gives for a segment.
abbrev pub answer : TraceSegment → Sampler → Option ℕ × Sampler
answer ts s = let key = key_of ts in request_state key.0 key.1 s

-- The segment without room ends the loop over segments.
sample_segments-cut :
    (tr ctx main : ℕ) (ts : TraceSegment) (others : List TraceSegment) (s : Sampler)
    → (get_main_span ts).0 ≡ some main
    → (answer (updated ts main s.core) s).0 ≡ none
    → sample_segments tr ctx (ts ∷ others) s false
      ≡ some
          (returned (updated ts main s.core ∷ others, (answer (updated ts main s.core) s).1, false))
unfolding sample_segments sample_segment sample_with
sample_segments-cut tr ctx main ts others s has_main no_room =
    rw (has_main, sample_segment) (rw (no_room, sample_with) refl)

module _ (t : TtlCache ℕ) (clock : ℕ → ℤ) where
  -- If the first segment of a trace has a main span, and there is no room for its request, then
  -- sampleTraces ends with what it has done so far: the other segments and all the traces that
  -- follow in the batch are not looked at, whatever they are, and nothing is counted.
  pub sample_traces-cut :
      (ctx tr main : ℕ) (later : List ℕ) (ts : TraceSegment) (others : List TraceSegment)
      (s : State t clock)
      → get_elem? s.traces tr ≡ some (record { segments = ts ∷ others })
      → (get_main_span ts).0 ≡ some main
      → (answer (updated ts main s.normal.sampler.core) s.normal.sampler).0 ≡ none
      → sample_traces t clock ctx (tr ∷ later) s
        ≡ some (
            store t clock tr
              (updated ts main s.normal.sampler.core ∷ others)
              (with_sampler t clock
                (answer (updated ts main s.normal.sampler.core) s.normal.sampler).1
                s.normal)
              s)
  unfolding sample_traces sample_trace finish_trace
  sample_traces-cut ctx tr main later ts others s found has_main no_room =
      rw found
        (rw (sample_segments-cut tr ctx main ts others s.normal.sampler has_main no_room) refl)
