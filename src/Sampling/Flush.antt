-- ===== src/Sampling/Flush.antt =====
-- assertsprocessor/sampler.go: one tick of the flusher, startTraceFlusher. What the next consumer gets is
-- a list, in the order of the calls; what it returns is ignored.
use asserts_otel_processor.Base.{ℕ, List, [], ◌∷◌, ◌++◌, Option, some, get_elem?, set, ◌>>=◌}
use asserts_otel_processor.Base.Maps.{StringMap}
use asserts_otel_processor.Counters.{Counters, incr_sampled_counts}
use asserts_otel_processor.PriorityQueue.{Item}
use asserts_otel_processor.ServiceQueues.{ServiceQueues, TraceSampler, clear_request_states}
use asserts_otel_processor.Traces.{Memory, Trace, BuiltSpans, build_trace}
use asserts_otel_processor.Sampling.Batch.{Sampler}

-- A call of `ConsumeTraces`: the context and the trace.
pub record Consumed : Type 0 where
  pub ctx : ℕ
  pub trace : List BuiltSpans

-- The traces, whose caches are filled, the counters, and the calls so far.
pub record Flushing : Type 0 where
  pub traces : List Trace
  pub counters : Counters
  pub consumed : List Consumed

-- `none` is a panic: a nil pointer.
unfoldable pub flush_item : Memory → Item → Flushing → Option Flushing
flush_item mem item f = get_elem? f.traces item.trace >>= λ trace.
    let (built, segments) = build_trace mem trace.segments in
    some (record {
      traces = set f.traces item.trace (record { segments = segments });
      counters = incr_sampled_counts trace.segments item.sample_type f.counters;
      consumed = f.consumed ++ record { ctx = item.ctx; trace = built } ∷ [];
    })

-- The loop over the items of a queue.
unfoldable pub flush_items : Memory → List Item → Flushing → Option Flushing
unfolding flush_item
flush_items mem [] f = some f
flush_items mem (x ∷ xs) f = flush_item mem x f >>= flush_items mem xs

-- The errors of a request first, then its slow traces.
unfoldable pub flush_requests :
    Memory → List TraceSampler → StringMap ℕ → Flushing → Option Flushing
unfolding flush_items
flush_requests mem samplers [] f = some f
flush_requests mem samplers ((request, a) ∷ rest) f = get_elem? samplers a >>= λ sampler.
    flush_items mem sampler.error_queue.priority_queue f >>= λ g.
    flush_items mem sampler.slow_queue.priority_queue g >>= flush_requests mem samplers rest

-- The loop over the services: the requests are taken from the queue set, which is left empty.
unfoldable pub flush_services :
    Memory
    → List TraceSampler
    → StringMap ServiceQueues
    → Flushing
    → Option (StringMap ServiceQueues × Flushing)
unfolding flush_requests
flush_services mem samplers [] f = some ([], f)
flush_services mem samplers ((key, sq) ∷ rest) f =
    let (previous, g) = clear_request_states (record { queues = sq; heap = samplers }) in
    flush_requests mem samplers previous f >>= λ f'.
    flush_services mem samplers rest f' >>= λ r. some ((key, g.queues) ∷ r.0, r.1)

-- The tick.
unfoldable pub flush : Sampler → Flushing → Option (Sampler × Flushing)
unfolding flush_services
flush s f = flush_services s.core.memory s.core.samplers s.services f >>= λ r.
    some (record s { services = r.0 }, r.1)
