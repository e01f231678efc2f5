-- ===== src/Sampling/Batch.antt =====
-- assertsprocessor/sampler.go: the loop of sampleTraces over the segments of a trace, up to the
-- capture of a normal sample. A service's queue set is made at its first request.
use asserts_otel_processor.Base.{ℕ, Bool, String, List, [], ◌∷◌, Option, none, some, ◌>>=◌}
use asserts_otel_processor.Base.Int.{pos}
use asserts_otel_processor.Base.Maps.{StringMap, lookup, insert}
use asserts_otel_processor.Keys.{entity_key_as_string}
use asserts_otel_processor.PriorityQueue.{Item}
use asserts_otel_processor.ServiceQueues.{ServiceQueues, new_service_queues, get_request_state}
use asserts_otel_processor.Traces.{TraceSegment, get_non_internal_spans, get_main_span}
use asserts_otel_processor.Sampling.{Core, update_trace, sample_spans}

-- `topTracesByService`, over the heap of samplers in `core`.
pub record Sampler : Type 0 where
  pub core : Core
  pub services : StringMap ServiceQueues

abbrev pub queues_or_new : Option ServiceQueues → ServiceQueues
queues_or_new (some sq) = sq
queues_or_new none = new_service_queues

-- `LoadOrStore`, then `getRequestState` of the queue set.
unfoldable pub request_state : String → String → Sampler → Option ℕ × Sampler
request_state key request s =
    let sq = queues_or_new (lookup key s.services) in
    let (found, g) =
      get_request_state s.core.threshold_helper.config request
        (record { queues = sq; heap = s.core.samplers }) in
    (
      found,
      record s {
        core = record s.core { samplers = g.heap };
        services = insert key g.queues s.services;
      },
    )

-- How a turn of the loop ends: it goes on, or sampleTraces returns.
pub data Turn {ℓ} (A : Type ℓ) : Type ℓ where
  next : A → Turn A
  returned : A → Turn A

-- A segment, the state and the flag `sampled`.
abbrev pub Sampled : Type 0 → Type 0
Sampled A = A × Sampler × Bool

abbrev pub key_of : TraceSegment → String × String
key_of ts = elim ts.request_key [
  | none ↦ ("", "")
  | some k ↦ (entity_key_as_string k.entity_key, k.request)
]

-- The spans of a segment, given what `getRequestState` returned.
unfoldable pub sample_with :
    ℕ → ℕ → TraceSegment → Bool → Option ℕ × Sampler → Option (Turn (Sampled TraceSegment))
sample_with tr ctx ts sampled (none, s) = some (returned (ts, s, sampled))
sample_with tr ctx ts sampled (some q, s) =
    let item : Item = record {
      trace = tr;
      ctx = ctx;
      latency = ts.latency;
      sample_type = "";
      index = pos 0;
    } in
    let (spans, ts') = get_non_internal_spans ts in
    sample_spans ts' item q spans s.core sampled >>= λ r.
    some (next (ts', record s { core = r.0 }, r.1))

-- A segment without a main span is passed over.
unfoldable pub sample_segment :
    ℕ → ℕ → TraceSegment → Sampler → Bool → Option (Turn (Sampled TraceSegment))
unfolding sample_with request_state
sample_segment tr ctx ts s sampled =
    let (main, cached) = get_main_span ts in
    elim main [
      | none ↦ some (next (cached, s, sampled))
      | some a ↦
          let ts' = update_trace s.core.threshold_helper.config s.core.memory a cached in
          let key = key_of ts' in sample_with tr ctx ts' sampled (request_state key.0 key.1 s)
    ]

abbrev pub prepend :
    TraceSegment → Turn (Sampled (List TraceSegment)) → Turn (Sampled (List TraceSegment))
prepend ts (next (rest, s, b)) = next (ts ∷ rest, s, b)
prepend ts (returned (rest, s, b)) = returned (ts ∷ rest, s, b)

unfoldable pub sample_segments :
    ℕ → ℕ → List TraceSegment → Sampler → Bool → Option (Turn (Sampled (List TraceSegment)))
unfolding sample_segment
sample_segments trace ctx [] s sampled = some (next ([], s, sampled))
sample_segments trace ctx (ts ∷ rest) s sampled = sample_segment trace ctx ts s sampled >>= λ t.
    elim t [
      | returned (ts', s', sampled') ↦ some (returned (ts' ∷ rest, s', sampled'))
      | next (ts', s', sampled') ↦
          sample_segments trace ctx rest s' sampled' >>= λ u. some (prepend ts' u)
    ]
