-- ===== src/Sampling/LoopTests.antt =====
-- The theorems on batches and on the flush, at a batch of one trace with a cache whose entries do
-- not expire.
use asserts_otel_processor.Base.{ℕ, ◌*◌, ◌≡◌, refl, arith, List, [], ◌∷◌, none, some, inl, Yields}
use asserts_otel_processor.Base.Int.{ℤ, pos}
use asserts_otel_processor.Base.Maps.{lookup}
use asserts_otel_processor.Cache.Sample.{plain_cache, plain_cache-IsFaithful}
use asserts_otel_processor.Config.Sample.{sample_config}
use asserts_otel_processor.Counters.{no_counts}
use asserts_otel_processor.PriorityQueue.{Item}
use asserts_otel_processor.ServiceQueues.{get_request_state, has_room, new_service_queues}
use asserts_otel_processor.Traces.{
  get_non_internal_spans, TraceSegment, Trace, new_segment, get_main_span,
}
use asserts_otel_processor.Keys.{build_entity_key}
use asserts_otel_processor.TraceQueue.{TraceQueue}
use asserts_otel_processor.Span.{compute_latency}
use asserts_otel_processor.Sampling.{update_trace}
use asserts_otel_processor.Sampling.Batch.{Sampler, request_state}
use asserts_otel_processor.Sampling.Loop.{State, store, with_sampler, sample_traces}
use asserts_otel_processor.Sampling.LoopSafety.{IsSoundState, sample_traces-IsSound}
use asserts_otel_processor.Sampling.Cut.{updated, answer, sample_traces-cut}
use asserts_otel_processor.Sampling.Flush.{Flushing, flush}
use asserts_otel_processor.Sampling.FlushItems.{IsFlushed}
use asserts_otel_processor.Sampling.FlushAll.{queued, all_queued, emptied, flush-IsFlushed}
use asserts_otel_processor.Sampling.Tests.{
  memory, core, segments, segment, item, sampler, sampler-IsSound,
}

-- Half an hour between the readings.
abbrev clock : ℕ → ℤ
clock n = pos (1800 * n)

abbrev traces : List Trace
traces = record { segments = segments } ∷ []

abbrev state_of : Sampler → State (plain_cache ℕ) clock
state_of s = record {
  normal = record { sampler = s; caches = []; states = []; readings = 1 };
  traces = traces;
  counters = no_counts;
}

state-IsSound :
    IsSoundState
      (plain_cache ℕ)
      clock
      (plain_cache-IsFaithful ℕ)
      3
      (omega arith)
      (omega arith)
      1
      (state_of sampler)
unfolding lookup
state-IsSound = record {
  normal_sound = record { sound = sampler-IsSound; addressed = λ key c e. absurd (cc) };
  trace_count = refl;
}

sample_traces-IsSound_example :
    Yields
      (IsSoundState
        (plain_cache ℕ)
        clock
        (plain_cache-IsFaithful ℕ)
        3
        (omega arith)
        (omega arith)
        1)
      (sample_traces (plain_cache ℕ) clock 0 (0 ∷ 0 ∷ []) (state_of sampler))
sample_traces-IsSound_example =
    sample_traces-IsSound (plain_cache ℕ) clock (plain_cache-IsFaithful ℕ) 3 (omega arith)
      (omega arith) 1 0 (0 ∷ 0 ∷ []) (state_of sampler) (omega arith, (omega arith, tt))
      state-IsSound

-- No request has room.
abbrev full : Sampler
full = record sampler {
  core = record core {
    threshold_helper = record core.threshold_helper {
      config = record sample_config { limit_per_service = pos 0 };
    };
  };
}

abbrev first : TraceSegment
first = record segment { entry_spans = 0 ∷ 1 ∷ 2 ∷ [] }

abbrev cut_state : State (plain_cache ℕ) clock
cut_state = record (state_of full) { traces = record { segments = first ∷ segment ∷ [] } ∷ [] }

has_main : (get_main_span first).0 ≡ some 0
unfolding get_main_span get_non_internal_spans new_segment
has_main = refl

no_room : (answer (updated first 0 full.core) full).0 ≡ none
unfolding update_trace request_state get_request_state has_room lookup new_service_queues
    build_entity_key compute_latency
no_room = refl

sample_traces-cut_example :
    sample_traces (plain_cache ℕ) clock 0 (0 ∷ 7 ∷ []) cut_state
    ≡ some (
        store
          (plain_cache ℕ)
          clock
          0
          (updated first 0 full.core ∷ segment ∷ [])
          (with_sampler
            (plain_cache ℕ)
            clock
            (answer (updated first 0 full.core) full).1
            cut_state.normal)
          cut_state)
sample_traces-cut_example =
    sample_traces-cut (plain_cache ℕ) clock 0 0 0 (7 ∷ []) first (segment ∷ []) cut_state refl
      has_main no_room

-- One error and two slow traces of one request.
abbrev queue_of : List Item → TraceQueue
queue_of items = record { priority_queue = items; max_size = pos 3 }

abbrev busy : Sampler
busy = record {
  core = record core {
    samplers =
        record { slow_queue = queue_of (item ∷ item ∷ []); error_queue = queue_of (item ∷ []) }
        ∷ [];
  };
  services = ("cart", record { request_states = ("/api", 0) ∷ []; request_count = 1 }) ∷ [];
}

abbrev flushing : Flushing
flushing = record { traces = traces; counters = no_counts; consumed = [] }

flush-IsFlushed_example :
    Yields
      (λ (r : Sampler × Flushing).
        (r.0 ≡ record busy { services = emptied busy.services })
        × IsFlushed memory flushing (all_queued busy.core.samplers busy.services) r.1)
      (flush busy flushing)
unfolding all_queued queued new_segment
flush-IsFlushed_example =
    flush-IsFlushed busy flushing ((inl refl, (inl refl, tt)), tt) ((omega arith, tt), tt)
      (omega arith, (omega arith, (omega arith, tt)))
