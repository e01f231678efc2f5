-- ===== src/PriorityQueue.antt =====
-- assertsprocessor/priority_queue.go: items and the priority queue that container/heap works on.
-- Items are pointers in the source; an item stands in one queue at most, so a queue holds values.
-- An index out of range panics: `none`.
pub mod Facts
pub mod Heap
pub mod Order
pub mod Up
pub mod Down
pub mod Ends
use asserts_otel_processor.Base.{
  ℕ, suc, ◌-◌, List, [], ◌∷◌, ◌++◌, Option, none, some, Bool, String, ◌>>=◌, length, get_elem?, set,
  take,
}
use asserts_otel_processor.Base.Int.{ℤ, pos, negsuc}
use asserts_otel_processor.Float.{Float64, flt}

-- `trace` and `ctx` are pointers: addresses of a trace and of a context.
pub record Item : Type 0 where
  pub trace : ℕ
  pub ctx : ℕ
  pub latency : Float64
  pub sample_type : String
  pub index : ℤ

abbrev pub PriorityQueue : Type 0
PriorityQueue = List Item

unfoldable pub len : PriorityQueue → ℕ
len pq = length pq

unfoldable pub less : PriorityQueue → ℕ → ℕ → Option Bool
less pq i j = do x ← get_elem? pq i; y ← get_elem? pq j; some (flt x.latency y.latency)

unfoldable pub swap : PriorityQueue → ℕ → ℕ → Option PriorityQueue
swap pq i j = do
  y ← get_elem? pq j
  x ← get_elem? pq i
  some (set (set pq i (record y { index = pos i })) j (record x { index = pos j }))

unfoldable pub push : PriorityQueue → Item → PriorityQueue
push pq x = pq ++ record x { index = pos (length pq) } ∷ []

unfoldable pub pop : PriorityQueue → Option (Item × PriorityQueue)
pop pq = do
  item ← get_elem? pq (length pq - 1)
  some (record item { index = negsuc 0 }, take (length pq - 1) pq)

-- The method has an empty body.
unfoldable pub update_item : PriorityQueue → Item → ℕ → ℕ → PriorityQueue
update_item pq item traces priority = pq
