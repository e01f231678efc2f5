-- ===== src/Sampling/Progress.antt =====
-- The loop over the segments of a trace does not panic.
use asserts_otel_processor.Base.{
  ℕ, ◌^◌, min, ◌<◌, ◌≡◌, refl, Bool, true, false, List, [], ◌∷◌, Option, none, some, All, length,
  ◌>>=◌, Yields, yields, Yields-bind, arith, inl, inr, Option-cases,
}
use asserts_otel_processor.Float.{is_num, seconds-is_num}
use asserts_otel_processor.Span.{compute_latency}
use asserts_otel_processor.PriorityQueue.{Item}
use asserts_otel_processor.Traces.{TraceSegment, get_main_span}
use asserts_otel_processor.Sampling.{Core, update_trace, sample_spans}
use asserts_otel_processor.Sampling.Spans.{first_class, sample_spans_once, sample_spans_again}
use asserts_otel_processor.Sampling.Safety.{AreBounded, IsKept, push_first-IsKept}
use asserts_otel_processor.Sampling.Batch.{
  Sampler, Turn, next, returned, Sampled, sample_with, sample_segment, sample_segments, prepend,
}
use asserts_otel_processor.Sampling.Soundness.{
  config_of, mark_spans-config, mark_spans-samplers, IsSound, IsFound, request_state-IsFound,
}

module _ (n : ℕ) (small : n < 2 ^ 53) (positive : 0 < n) where
  abbrev After : Core → Core × Bool → Type 0
  After core r = IsKept (min 5 n) core.samplers r.0.samplers × (config_of r.0 ≡ config_of core)

  sample_spans-After :
      (ts : TraceSegment) (item : Item) (q : ℕ) (spans : List ℕ) (core : Core) (sampled : Bool)
      → is_num item.latency ≡ true
      → All (AreBounded (min 5 n)) core.samplers
      → q < length core.samplers
      → Yields (After core) (sample_spans ts item q spans core sampled)
  sample_spans-After ts item q spans core true num h inside =
      rw (sample_spans_again ts item q spans core)
        (yields (rw (mark_spans-samplers ts spans core) (h, refl), mark_spans-config ts spans core))
  sample_spans-After ts item q spans core false num h inside =
      rw (sample_spans_once ts item q spans core) (
        Yields-bind
          (push_first-IsKept (min 5 n) q item (omega arith) num (first_class ts spans core)
            core.samplers h inside)
          λ samplers kept. yields (kept, mark_spans-config ts spans core))

  -- The state after a turn, whether the loop goes on or not.
  abbrev pub IsSoundTurn : {A : Type 0} → Turn (A × Sampler × Bool) → Type 0
  IsSoundTurn (next (x, s, b)) = IsSound n s
  IsSoundTurn (returned (x, s, b)) = IsSound n s

  sample_with-IsSound :
      (trace ctx : ℕ) (ts : TraceSegment) (sampled : Bool) (r : Option ℕ × Sampler)
      → is_num ts.latency ≡ true
      → IsFound n small r
      → Yields IsSoundTurn (sample_with trace ctx ts sampled r)
  unfolding sample_with
  sample_with-IsSound trace ctx ts sampled (none, s) num h = yields h
  sample_with-IsSound trace ctx ts sampled (some q, s) num (h, inside) =
      Yields-bind (sample_spans-After _ _ q _ s.core sampled num h.bounded inside) λ r after.
        yields (record {
          limit = rw after.1 h.limit;
          bounded = after.0.0;
          allocated = λ key request sq a e f. rw after.0.1 (h.allocated key request sq a e f);
        })

  sample_segment-IsSound :
      (trace ctx : ℕ) (ts : TraceSegment) (s : Sampler) (sampled : Bool)
      → IsSound n s
      → Yields IsSoundTurn (sample_segment trace ctx ts s sampled)
  unfolding sample_segment update_trace compute_latency
  sample_segment-IsSound trace ctx ts s sampled h = elim (Option-cases (get_main_span ts).0) [
    | inl e ↦ rw (sample_segment, e) (yields h)
    | inr (a, e) ↦
        rw (sample_segment, e)
          (sample_with-IsSound trace ctx _ sampled _ (seconds-is_num _)
            (request_state-IsFound n small _ _ s h))
  ]

  prepend-IsSound :
      (ts : TraceSegment) (t : Turn (Sampled (List TraceSegment)))
      → IsSoundTurn t
      → IsSoundTurn (prepend ts t)
  prepend-IsSound ts (next (rest, s, b)) h = h
  prepend-IsSound ts (returned (rest, s, b)) h = h

  continue-IsSound :
      (trace ctx : ℕ) (rest : List TraceSegment) (t : Turn (Sampled TraceSegment))
      → ((s : Sampler) (b : Bool)
          → IsSound n s
          → Yields IsSoundTurn (sample_segments trace ctx rest s b))
      → IsSoundTurn t
      → Yields IsSoundTurn (elim t [
        | returned (ts', s', sampled') ↦ some (returned (ts' ∷ rest, s', sampled'))
        | next (ts', s', sampled') ↦
            sample_segments trace ctx rest s' sampled' >>= λ u. some (prepend ts' u)
      ])
  continue-IsSound trace ctx rest (next (ts', s', b)) later sound =
      Yields-bind (later s' b sound) λ u after. yields (prepend-IsSound ts' u after)
  continue-IsSound trace ctx rest (returned (ts', s', b)) later sound = yields sound

  -- For a limit per request n with 0 < n < 2^53, in a state whose queues are bounded and whose queue
  -- sets have addresses of samplers only, the loop over the segments of a trace ends without a
  -- panic, whatever the segments, and the state is such a state again, also where sampleTraces
  -- returns.
  pub sample_segments-IsSound :
      (trace ctx : ℕ) (segments : List TraceSegment) (s : Sampler) (sampled : Bool)
      → IsSound n s
      → Yields IsSoundTurn (sample_segments trace ctx segments s sampled)
  unfolding sample_segments
  sample_segments-IsSound trace ctx [] s sampled h = yields h
  sample_segments-IsSound trace ctx (ts ∷ rest) s sampled h =
      Yields-bind (sample_segment-IsSound trace ctx ts s sampled h) λ t sound.
        continue-IsSound trace ctx rest t (λ s' b. sample_segments-IsSound trace ctx rest s' b)
          sound
