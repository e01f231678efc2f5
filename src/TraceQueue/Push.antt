-- ===== src/TraceQueue/Push.antt =====
-- One push: what the queue keeps, and what it drops.
use native.Mathlib.Bridge.{le_prop}
use mathlib.Core.List.{Mem, mem-cons}
use mathlib.Core.List.Perm
use mathlib.Core.Logic.Or
use asserts_otel_processor.Base.{
  ℕ, suc, ◌≤◌, ◌<◌, ◌≡◌, refl, List, [], ◌∷◌, Perm, true, false, arith, length, Yields, yields,
  Yields-bind, Yields-map, Yields-if,
}
use asserts_otel_processor.Base.Int.{pos, eqb_ℕℤ}
use asserts_otel_processor.Float.{flt, is_num, place}
use asserts_otel_processor.PriorityQueue.{Item}
use asserts_otel_processor.PriorityQueue.Facts.{content, contents}
use asserts_otel_processor.PriorityQueue.Heap.{heap_push}
use asserts_otel_processor.PriorityQueue.Ends.{
  IsValid, heap_push-Grown, Shrunk, heap_pop-Shrunk, mem-rank,
}
use asserts_otel_processor.TraceQueue.{TraceQueue, new_trace_queue, push}

-- The items of a queue, without their index fields.
abbrev pub items : TraceQueue → List Item
items tq = contents tq.priority_queue

-- The latency of `d` is no higher than that of any of the items.
abbrev pub IsLowest : Item → List Item → Type 0
IsLowest d xs = (k : Item) → Mem k xs → place d.latency ≤ place k.latency

-- A valid queue with limit `m`, not exceeded.
pub record IsBounded (m : ℕ) (tq : TraceQueue) : Type 0 where
  pub valid : IsValid tq.priority_queue
  pub limit : tq.max_size ≡ pos m
  pub within : length tq.priority_queue ≤ m

-- Below the limit the item is added; at the limit the lowest of the items and the new one goes.
pub data Kept (m : ℕ) (tq : TraceQueue) (x : Item) (tq' : TraceQueue) : Type 0 where
  added :
      length tq.priority_queue < m
      → length tq'.priority_queue ≡ suc (length tq.priority_queue)
      → Perm (items tq') (content x ∷ items tq)
      → Kept m tq x tq'
  replaced :
      (d : Item)
      → length tq.priority_queue ≡ m
      → length tq'.priority_queue ≡ m
      → Perm (content d ∷ items tq') (content x ∷ items tq)
      → IsLowest d (content x ∷ items tq)
      → Kept m tq x tq'

IsLowest-cons :
    (d x : Item) (xs : List Item)
    → place d.latency ≤ place x.latency
    → IsLowest d xs
    → IsLowest d (x ∷ xs)
IsLowest-cons d x xs h low k m = Or.elim le_prop (mem-cons.0 m) (λ e. rw e h) (low k)

abbrev Pushed : ℕ → TraceQueue → Item → TraceQueue → Type 0
Pushed m tq x tq' = IsBounded m tq' × Kept m tq x tq'

flt-true : (x y : Item) → flt x.latency y.latency ≡ true → place x.latency ≤ place y.latency
flt-true x y h = ground arith

flt-false :
    (x y : Item)
    → is_num x.latency ≡ true
    → is_num y.latency ≡ true
    → flt x.latency y.latency ≡ false
    → place y.latency ≤ place x.latency
flt-false x y p q h = ground arith

module _ (m : ℕ) (tq : TraceQueue) (x : Item) (v : IsBounded m tq)
    (num : is_num x.latency ≡ true) where
  push_onto-added :
      length tq.priority_queue < m
      → Yields
          (λ h. Pushed m tq x (record tq { priority_queue = h }))
          (heap_push tq.priority_queue x)
  push_onto-added room = Yields-map (heap_push-Grown tq.priority_queue x v.valid num) λ h g. (
    record { valid = g.valid; limit = v.limit; within = omega (arith, g.size) },
    added room g.size g.same,
  )

  push_onto-replaced :
      length tq.priority_queue ≡ m
      → (r : Item × List Item) (kept d : Item) → Shrunk tq.priority_queue r
      → is_num kept.latency ≡ true
      → Perm (content d ∷ content kept ∷ []) (content x ∷ content r.0 ∷ [])
      → IsLowest d (content x ∷ items tq)
      → Yields (λ h. Pushed m tq x (record tq { priority_queue = h })) (heap_push r.1 kept)
  push_onto-replaced full r kept d s knum pair low =
      Yields-map (heap_push-Grown r.1 kept s.valid knum) λ h g. (
        record { valid = g.valid; limit = v.limit; within = omega (arith, g.size, s.size) },
        replaced d full (omega (arith, g.size, s.size))
            (Perm.trans (Perm.cons (content d) g.same)
              (Perm.trans (Perm.append pair Perm.rfl) (Perm.cons (content x) s.same)))
            low,
      )

  -- A push on a bounded queue returns, and keeps all but the lowest.
  pub push-Kept : 0 < m → Yields (Pushed m tq x) (push tq x)
  unfolding push
  push-Kept positive =
      Yields-if (eqb_ℕℤ (length tq.priority_queue) tq.max_size)
        (λ full.
          let size : length tq.priority_queue ≡ m = ground (arith, v.limit) in
          Yields-bind (heap_pop-Shrunk tq.priority_queue v.valid (omega arith)) λ r s.
            let low = mem-rank tq.priority_queue (place r.0.latency) s.least in
            Yields-if (flt x.latency r.0.latency)
              (λ below.
                let under = flt-true x r.0 below in
                Yields-bind
                  (push_onto-replaced size r r.0 x s s.number Perm.rfl (
                    IsLowest-cons x (content x) (items tq) (omega arith)
                      λ k mem. omega (arith, low k mem)))
                  λ h p. yields p)
              (λ above.
                Yields-bind
                  (push_onto-replaced size r x r.0 s num (Perm.swap _ _ []) (
                    IsLowest-cons r.0 (content x) (items tq) (flt-false x r.0 num s.number above)
                      low))
                  λ h p. yields p))
        (λ partial.
          let room : length tq.priority_queue < m = ground (arith, v.limit, v.within) in
          Yields-bind (push_onto-added room) λ h p. yields p)

-- A new queue is empty.
pub new_trace_queue-IsBounded : (m : ℕ) → IsBounded m (new_trace_queue (pos m))
unfolding new_trace_queue
new_trace_queue-IsBounded m = record {
  valid = record { heap = λ c p q. absurd (omega arith); numbers = tt; indexed = tt };
  limit = refl;
  within = omega arith;
}
