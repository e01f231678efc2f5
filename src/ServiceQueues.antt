-- ===== src/ServiceQueues.antt =====
-- assertsprocessor/service_queue.go, the sampler of one request of assertsprocessor/sampler.go and
-- the periodic state of assertsprocessor/periodic_sampler.go. Samplers are shared by pointer: a queue
-- set holds addresses into a heap of samplers, which outlive the queue set's own map.
pub mod Requests
pub mod Threads
pub mod Limits
mod Tests
use asserts_otel_processor.Base.{
  ℕ, suc, ◌+◌, List, [], ◌∷◌, ◌++◌, String, Bool, Option, none, some, length, if◌then◌else◌,
}
use asserts_otel_processor.Base.Int.{ℤ, pos, ltb_ℤ}
use asserts_otel_processor.Base.Maps.{StringMap, lookup, insert}
use asserts_otel_processor.Float.{min_five}
use asserts_otel_processor.TraceQueue.{TraceQueue, new_trace_queue}
use asserts_otel_processor.Config.{Config}

-- `traceSampler` of sampler.go.
pub record TraceSampler : Type 0 where
  pub slow_queue : TraceQueue
  pub error_queue : TraceQueue

unfoldable pub error_trace_count : TraceSampler → ℕ
error_trace_count ts = length ts.error_queue.priority_queue

unfoldable pub slow_trace_count : TraceSampler → ℕ
slow_trace_count ts = length ts.slow_queue.priority_queue

-- The periodic sampling states stand in PeriodicSampling.antt.
pub record ServiceQueues : Type 0 where
  pub request_states : StringMap ℕ
  pub request_count : ℕ

unfoldable pub new_service_queues : ServiceQueues
new_service_queues = record { request_states = []; request_count = 0 }

-- The queue set and the heap of all the samplers ever made.
pub record Shared : Type 0 where
  pub queues : ServiceQueues
  pub heap : List TraceSampler

-- Returns the previous states, as the flusher takes them.
unfoldable pub clear_request_states : Shared → StringMap ℕ × Shared
clear_request_states g = (
  g.queues.request_states,
  record g { queues = record { request_states = []; request_count = 0 } },
)

unfoldable pub has_room : Config → ServiceQueues → Bool
has_room config sq = ltb_ℤ (pos sq.request_count) config.limit_per_service

unfoldable pub new_trace_sampler : Config → TraceSampler
new_trace_sampler config =
    let limit = min_five config.limit_per_request_per_service in
    record { slow_queue = new_trace_queue limit; error_queue = new_trace_queue limit }

-- The part under the lock: the second look, the second test of the size, and the store.
unfoldable pub locked_section : Config → String → Shared → Option ℕ × Shared
unfolding has_room new_trace_sampler
locked_section config request g =
    let address = length g.heap in
    let added = record g {
      queues = record {
        request_states = insert request address g.queues.request_states;
        request_count = g.queues.request_count + 1;
      };
      heap = g.heap ++ new_trace_sampler config ∷ [];
    } in
    elim (lookup request g.queues.request_states) [
      | some a ↦ (some a, g)
      | none ↦ if has_room config g.queues then (some address, added) else (none, g)
    ]

-- The whole method, when no other goroutine comes between; `none` is nil.
unfoldable pub get_request_state : Config → String → Shared → Option ℕ × Shared
unfolding locked_section
get_request_state config request g = elim (lookup request g.queues.request_states) [
  | some a ↦ (some a, g)
  | none ↦ if has_room config g.queues then locked_section config request g else (none, g)
]
