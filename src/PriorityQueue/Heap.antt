-- ===== src/PriorityQueue/Heap.antt =====
-- container/heap of Go's standard library over the methods of PriorityQueue. In `up` and `down` the
-- fuel bounds the rounds that the position leaves: at fuel 0 the source's own test breaks the loop.
use asserts_otel_processor.Base.{
  ℕ, zero, suc, ◌+◌, ◌-◌, ◌*◌, ◌/◌, Option, none, some, ltb, leb, ◌==◌, if◌then◌else◌, ◌>>=◌,
  length,
}
use asserts_otel_processor.PriorityQueue
use asserts_otel_processor.PriorityQueue.{Item, PriorityQueue, less, swap}

abbrev pub parent : ℕ → ℕ
parent j = (j - 1) / 2

unfoldable pub up : ℕ → PriorityQueue → ℕ → Option PriorityQueue
up zero h j = some h
up (suc fuel) h j =
    let rise = swap h (parent j) j >>= λ h'. up fuel h' (parent j) in
    let step = less h j (parent j) >>= λ below. if below then rise else some h in
    if parent j == j then some h else step

-- The smaller child of `i` below `n`; the left one stands below `n`.
unfoldable pub smaller_child : PriorityQueue → ℕ → ℕ → Option ℕ
smaller_child h i n =
    let left = 2 * i + 1 in
    let right = left + 1 in
    let pick = less h right left >>= λ smaller. some (if smaller then right else left) in
    if ltb right n then pick else some left

unfoldable pub down : ℕ → PriorityQueue → ℕ → ℕ → Option PriorityQueue
down zero h i n = some h
down (suc fuel) h i n =
    let step : Option PriorityQueue = do
      j ← smaller_child h i n
      below ← less h j i
      let sink = swap h i j >>= λ h'. down fuel h' j n
      if below then sink else some h
    in if leb n (2 * i + 1) then some h else step

-- heap.Push
unfoldable pub heap_push : PriorityQueue → Item → Option PriorityQueue
unfolding up
heap_push h x = let h' = PriorityQueue.push h x in up (length h' - 1) h' (length h' - 1)

-- heap.Pop: on an empty queue `Swap(0, -1)` panics.
unfoldable pub heap_pop : PriorityQueue → Option (Item × PriorityQueue)
unfolding down smaller_child
heap_pop h =
    let n = length h - 1 in
    let run : Option (Item × PriorityQueue) = do
      h' ← swap h 0 n
      h'' ← down n h' 0 n
      PriorityQueue.pop h''
    in if length h == 0 then none else run
