-- ===== src/PriorityQueue/Order.antt =====
-- The heap order of the latencies, the lowest at the root.
use asserts_otel_processor.Base.{ℕ, zero, suc, ◌≤◌, ◌<◌, ◌≡◌, arith, length}
use asserts_otel_processor.PriorityQueue.{PriorityQueue}
use asserts_otel_processor.PriorityQueue.Facts.{rank}
use asserts_otel_processor.PriorityQueue.Heap.{parent}

-- Every edge of the tree that ends below `n` is in order.
abbrev pub IsHeapBelow : ℕ → PriorityQueue → Type 0
IsHeapBelow n a = (c : ℕ) → 0 < c → c < n → rank a (parent c) ≤ rank a c

abbrev pub IsHeap : PriorityQueue → Type 0
IsHeap a = IsHeapBelow (length a) a

-- The edges from the parent of `i` past `i` to its children are in order.
abbrev pub IsBridged : ℕ → PriorityQueue → ℕ → Type 0
IsBridged n a i = (c : ℕ) → 0 < c → c < n → parent c ≡ i → 0 < i → rank a (parent i) ≤ rank a c

-- By induction on a bound of the position, through its parent.
root_least_below :
    (bound : ℕ) (queue : PriorityQueue) (i : ℕ)
    → IsHeap queue
    → i < bound
    → i < length queue
    → rank queue 0 ≤ rank queue i
root_least_below zero queue i ordered below inside = absurd (omega arith)
root_least_below (suc bound) queue i ordered below inside =
    ground (arith, ordered i, root_least_below bound queue (parent i) ordered)

-- No latency in a heap lies below the one at the root.
pub root_least :
    (queue : PriorityQueue) (i : ℕ) → IsHeap queue → i < length queue → rank queue 0 ≤ rank queue i
root_least queue i ordered inside = root_least_below (suc i) queue i ordered (omega arith) inside
