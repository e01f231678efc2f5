-- ===== src/TraceQueue.antt =====
-- assertsprocessor/priority_queue.go: TraceQueue, the bounded queue of the slowest traces. The mutex
-- makes each method one step; `none` is a panic.
pub mod Push
pub mod Top
pub mod Limits
mod Tests
use asserts_otel_processor.Base.{ℕ, List, [], ◌∷◌, Option, none, some, length, if◌then◌else◌, ◌>>=◌}
use asserts_otel_processor.Base.Int.{ℤ, eqb_ℕℤ}
use asserts_otel_processor.Float.{flt}
use asserts_otel_processor.PriorityQueue.{Item, PriorityQueue}
use asserts_otel_processor.PriorityQueue.Heap.{heap_push, heap_pop}

pub record TraceQueue : Type 0 where
  pub priority_queue : PriorityQueue
  pub max_size : ℤ

unfoldable pub new_trace_queue : ℤ → TraceQueue
new_trace_queue max_size = record { priority_queue = []; max_size = max_size }

-- `heap.Push(&tq.priorityQueue, item)`
abbrev push_onto : TraceQueue → PriorityQueue → Item → Option TraceQueue
push_onto tq h item = do h' ← heap_push h item; some (record tq { priority_queue = h' })

unfoldable pub push_unsafe : TraceQueue → Item → Option TraceQueue
push_unsafe tq item =
    let full : Option TraceQueue = do
      (popped, rest) ← heap_pop tq.priority_queue
      if flt item.latency popped.latency then push_onto tq rest popped else push_onto tq rest item
    in if eqb_ℕℤ (length tq.priority_queue) tq.max_size
      then full
      else push_onto tq tq.priority_queue item

unfoldable pub push : TraceQueue → Item → Option TraceQueue
unfolding push_unsafe
push tq item = push_unsafe tq item

unfoldable pub pop : TraceQueue → Option (Item × TraceQueue)
pop tq = do
  (item, rest) ← heap_pop tq.priority_queue
  some (item, record tq { priority_queue = rest })

-- A run of pushes.
unfoldable pub push_all : TraceQueue → List Item → Option TraceQueue
push_all tq [] = some tq
push_all tq (x ∷ xs) = push tq x >>= λ tq'. push_all tq' xs
