-- ===== src/ServiceQueues/Tests.antt =====
-- The theorems on queue sets at inputs that meet their hypotheses.
use asserts_otel_processor.Base.{ℕ, ◌≡◌, refl, [], ◌∷◌, none, some, arith, Yields}
use asserts_otel_processor.Base.Int.{pos}
use asserts_otel_processor.Base.Maps.{lookup}
use asserts_otel_processor.Float.{seconds, seconds-is_num}
use asserts_otel_processor.Config.{Config}
use asserts_otel_processor.Config.Sample.{sample_config}
use asserts_otel_processor.PriorityQueue.{Item}
use asserts_otel_processor.TraceQueue.{push, push_all}
use asserts_otel_processor.TraceQueue.Top.{Slowest}
use asserts_otel_processor.ServiceQueues.{
  Shared, new_trace_sampler, get_request_state, locked_section, has_room,
}
use asserts_otel_processor.ServiceQueues.Requests.{IsCounted, Answer, get_request_state-Answer}
use asserts_otel_processor.ServiceQueues.Threads.{
  start, missed, roomy, returned, System, update, Reach, here, next, move, miss, room, lock, Moves,
  stay, go, Agrees, Reach-IsCounted, Moves-same,
}
use asserts_otel_processor.ServiceQueues.Limits.{
  new_trace_sampler-Slowest, new_trace_sampler-limit_zero,
}

abbrev empty_shared : Shared
empty_shared = record { queues = record { request_states = []; request_count = 0 }; heap = [] }

abbrev idle : System
idle = record { shared = empty_shared; threads = λ i. record { request = "GET /"; pc = start } }

idle-IsCounted : IsCounted sample_config empty_shared
unfolding lookup
idle-IsCounted = record { counted = refl; within = omega arith; allocated = λ j a e. cc }

get_request_state-Answer_example :
    Answer sample_config "GET /" empty_shared (get_request_state sample_config "GET /" empty_shared)
get_request_state-Answer_example = get_request_state-Answer sample_config "GET /" empty_shared

abbrev after_one : System
after_one = record {
  shared = (locked_section sample_config "GET /" empty_shared).1;
  threads =
      update
        (update (update idle.threads 0 (record { request = "GET /"; pc = missed })) 0
          (record { request = "GET /"; pc = roomy }))
        0 (record { request = "GET /"; pc = returned (some 0) });
}

one_call : Reach sample_config idle after_one
unfolding lookup has_room locked_section
one_call = next (next (next here (move 0 (miss refl))) (move 0 (room refl))) (move 0 lock)

Reach-IsCounted_example : IsCounted sample_config after_one.shared
Reach-IsCounted_example = Reach-IsCounted sample_config idle-IsCounted one_call

one_run : Moves sample_config idle after_one
unfolding lookup has_room locked_section
one_run = go 0 (go 0 (go 0 stay (miss refl)) (room refl)) lock

idle-Agrees : Agrees idle
idle-Agrees i a e = cc

Moves-same_example : ◌≡◌ {A = ℕ} 0 0
Moves-same_example = Moves-same sample_config 0 0 0 0 idle-Agrees one_run refl refl refl

abbrev item : Item
item = record {
  trace = 0;
  ctx = 0;
  latency = seconds 1_000_000;
  sample_type = "slow";
  index = pos 0;
}

new_trace_sampler-Slowest_example :
    Yields
      (Slowest 3 (item ∷ []))
      (push_all (new_trace_sampler sample_config).slow_queue (item ∷ []))
    × Yields
        (Slowest 3 (item ∷ []))
        (push_all (new_trace_sampler sample_config).error_queue (item ∷ []))
new_trace_sampler-Slowest_example =
    new_trace_sampler-Slowest sample_config 3 (item ∷ []) (omega arith) (omega arith) refl
      (seconds-is_num 1_000_000, tt)

abbrev no_traces : Config
no_traces = record sample_config { limit_per_request_per_service = pos 0 }

new_trace_sampler-limit_zero_example :
    (push (new_trace_sampler no_traces).slow_queue item ≡ none)
    × (push (new_trace_sampler no_traces).error_queue item ≡ none)
new_trace_sampler-limit_zero_example = new_trace_sampler-limit_zero no_traces item refl
