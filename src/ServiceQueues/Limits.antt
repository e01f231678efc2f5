-- ===== src/ServiceQueues/Limits.antt =====
-- The limit of the queues that a new sampler gets.
use asserts_otel_processor.Base.{
  ℕ, ◌^◌, ◌<◌, ◌≡◌, none, true, arith, min, ap, ◌∙◌, List, All, Yields,
}
use asserts_otel_processor.Base.Int.{pos}
use asserts_otel_processor.Float.{is_num, min_five}
use asserts_otel_processor.Float.Exact.{min_five-exact}
use asserts_otel_processor.Config.{Config}
use asserts_otel_processor.PriorityQueue.{Item}
use asserts_otel_processor.TraceQueue.{new_trace_queue, push, push_all}
use asserts_otel_processor.TraceQueue.Top.{Slowest, push_all-Slowest}
use asserts_otel_processor.TraceQueue.Limits.{push-limit_zero}
use asserts_otel_processor.ServiceQueues.{new_trace_sampler}

pub new_trace_sampler-queues :
    (config : Config) (n : ℕ)
    → n < 2 ^ 53
    → config.limit_per_request_per_service ≡ pos n
    → ((new_trace_sampler config).slow_queue ≡ new_trace_queue (pos (min 5 n)))
      × ((new_trace_sampler config).error_queue ≡ new_trace_queue (pos (min 5 n)))
unfolding new_trace_sampler
new_trace_sampler-queues config n h e =
    let q = ap new_trace_queue (ap min_five e ∙ min_five-exact n h) in (q, q)

-- With a positive limit per request n, each queue of a new sampler takes any run of pushes without a
-- panic and ends with the slowest min(5, n) of the items.
pub new_trace_sampler-Slowest :
    (config : Config) (n : ℕ) (xs : List Item)
    → 0 < n
    → n < 2 ^ 53
    → config.limit_per_request_per_service ≡ pos n
    → All (λ x. is_num x.latency ≡ true) xs
    → Yields (Slowest (min 5 n) xs) (push_all (new_trace_sampler config).slow_queue xs)
      × Yields (Slowest (min 5 n) xs) (push_all (new_trace_sampler config).error_queue xs)
new_trace_sampler-Slowest config n xs positive h e nums =
    let (slow, error) = new_trace_sampler-queues config n h e in
    let top = push_all-Slowest (min 5 n) xs (omega arith) nums in (rw slow top, rw error top)

-- With limit 0 per request, which validation lets through, the first push onto either queue of
-- a new sampler panics.
pub new_trace_sampler-limit_zero :
    (config : Config) (x : Item)
    → config.limit_per_request_per_service ≡ pos 0
    → (push (new_trace_sampler config).slow_queue x ≡ none)
      × (push (new_trace_sampler config).error_queue x ≡ none)
new_trace_sampler-limit_zero config x e =
    let (slow, error) = new_trace_sampler-queues config 0 (omega arith) e in
    (rw slow (push-limit_zero x), rw error (push-limit_zero x))
