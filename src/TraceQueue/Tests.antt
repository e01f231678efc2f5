-- ===== src/TraceQueue/Tests.antt =====
-- Runs of the queues on concrete items, and the theorems at inputs that meet their hypotheses.
use asserts_otel_processor.Base.{ℕ, ◌≡◌, refl, List, [], ◌∷◌, some, none, arith, map, Yields, ◌>>=◌}
use asserts_otel_processor.Base.Int.{pos, negsuc}
use asserts_otel_processor.Float.{seconds, to_float, bit_length, round_even, seconds-is_num}
use asserts_otel_processor.PriorityQueue.{Item, less, swap, push as queue_push, pop as queue_pop}
use asserts_otel_processor.PriorityQueue.Facts.{Numbers}
use asserts_otel_processor.PriorityQueue.Heap.{heap_push, heap_pop}
use asserts_otel_processor.PriorityQueue.Ends.{IsValid}
use asserts_otel_processor.TraceQueue.{TraceQueue, new_trace_queue, push, push_all, pop}
use asserts_otel_processor.TraceQueue.Top.{Slowest, push_all-Slowest}
use asserts_otel_processor.TraceQueue.Limits.{
  Popped, pop-Popped, push-limit_zero, Everything, push_all-Everything,
}

-- A trace whose latency is `n` nanoseconds.
abbrev item : ℕ → ℕ → Item
item id n = record { trace = id; ctx = 0; latency = seconds n; sample_type = "slow"; index = pos 0 }

abbrev four_items : List Item
four_items = item 1 900 ∷ item 2 400 ∷ item 3 700 ∷ item 4 800 ∷ []

four_items-Numbers : Numbers four_items
four_items-Numbers =
    (seconds-is_num 900, (seconds-is_num 400, (seconds-is_num 700, (seconds-is_num 800, tt))))

-- The two slowest of four, the root first.
keeps_two :
    (push_all (new_trace_queue (pos 2)) four_items >>= λ tq.
    some (map (λ (x : Item). x.trace) tq.priority_queue))
    ≡ some (4 ∷ 1 ∷ [])
unfolding push_all push new_trace_queue seconds to_float bit_length round_even heap_push heap_pop
    less swap queue_push queue_pop
keeps_two = refl

push_all-Slowest_example :
    Yields (Slowest 2 four_items) (push_all (new_trace_queue (pos 2)) four_items)
push_all-Slowest_example = push_all-Slowest 2 four_items (omega arith) four_items-Numbers

abbrev one_item : TraceQueue
one_item = record { priority_queue = item 1 900 ∷ []; max_size = pos 2 }

one_item-IsValid : IsValid one_item.priority_queue
one_item-IsValid = record {
  heap = λ c p q. absurd (omega arith);
  numbers = (seconds-is_num 900, tt);
  indexed = (refl, tt);
}

pop-Popped_example : Yields (Popped one_item) (pop one_item)
pop-Popped_example = pop-Popped one_item one_item-IsValid (omega arith)

push-limit_zero_example : push (new_trace_queue (pos 0)) (item 1 900) ≡ none
push-limit_zero_example = push-limit_zero (item 1 900)

abbrev unlimited : TraceQueue
unlimited = record { priority_queue = item 1 900 ∷ []; max_size = negsuc 0 }

push_all-Everything_example :
    Yields (Everything 0 unlimited four_items) (push_all unlimited four_items)
push_all-Everything_example =
    push_all-Everything 0 unlimited four_items (record { valid = one_item-IsValid; limit = refl })
      four_items-Numbers
