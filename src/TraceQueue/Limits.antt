-- ===== src/TraceQueue/Limits.antt =====
-- Pops, and queues whose limit is not positive.
use mathlib.Core.List.{perm_middle}
use mathlib.Core.List.Perm
use asserts_otel_processor.Base.{
  ℕ, ◌<◌, ◌≡◌, refl, List, [], ◌∷◌, ◌++◌, Perm, none, true, arith, length, Yields, yields,
  Yields-bind, Yields-map, Yields-if, All, map,
}
use asserts_otel_processor.Base.Int.{pos, negsuc, eqb_ℕℤ}
use asserts_otel_processor.Float.{is_num, place}
use asserts_otel_processor.PriorityQueue.{Item}
use asserts_otel_processor.PriorityQueue.Facts.{content}
use asserts_otel_processor.PriorityQueue.Ends.{
  IsValid, heap_pop-Shrunk, heap_pop-empty, heap_push-Grown, mem-rank,
}
use asserts_otel_processor.TraceQueue.{TraceQueue, new_trace_queue, push, push_all, pop}
use asserts_otel_processor.TraceQueue.Push.{items, IsLowest}

-- What `pop` returns: a slowest-last item, detached, and a valid queue of the others.
pub record Popped (tq : TraceQueue) (r : Item × TraceQueue) : Type 0 where
  pub valid : IsValid r.1.priority_queue
  pub same : Perm (content r.0 ∷ items r.1) (items tq)
  pub least : IsLowest r.0 (items tq)
  pub detached : r.0.index ≡ negsuc 0
  pub limit : r.1.max_size ≡ tq.max_size

-- On a non-empty valid queue `pop` does not panic. It takes out one item, whose index becomes -1 and
-- whose latency is the least in the queue, and leaves a valid queue of the others with the same limit.
pub pop-Popped :
    (tq : TraceQueue)
    → IsValid tq.priority_queue
    → 0 < length tq.priority_queue
    → Yields (Popped tq) (pop tq)
unfolding pop
pop-Popped tq v h = Yields-bind (heap_pop-Shrunk tq.priority_queue v h) λ r s. yields (record {
  valid = s.valid;
  same = s.same;
  least = mem-rank tq.priority_queue (place r.0.latency) s.least;
  detached = s.detached;
  limit = refl;
})

-- With limit 0 the first push of any item panics: `Pop` is called on the empty heap.
pub push-limit_zero : (x : Item) → push (new_trace_queue (pos 0)) x ≡ none
unfolding push new_trace_queue
push-limit_zero x = rw heap_pop-empty

-- A valid queue whose limit is negative.
pub record IsUnlimited (n : ℕ) (tq : TraceQueue) : Type 0 where
  pub valid : IsValid tq.priority_queue
  pub limit : tq.max_size ≡ negsuc n

-- What a queue with a negative limit holds after the pushes of `xs`: everything.
pub record Everything (n : ℕ) (tq : TraceQueue) (xs : List Item) (tq' : TraceQueue) : Type 0 where
  pub unlimited : IsUnlimited n tq'
  pub same : Perm (items tq') (map content xs ++ items tq)

-- With a negative limit no push drops anything: the queue grows with every item.
pub push_all-Everything :
    (n : ℕ) (tq : TraceQueue) (xs : List Item)
    → IsUnlimited n tq
    → All (λ x. is_num x.latency ≡ true) xs
    → Yields (Everything n tq xs) (push_all tq xs)
unfolding push push_all
push_all-Everything n tq [] v nums = yields (record { unlimited = v; same = Perm.rfl })
push_all-Everything n tq (x ∷ xs) v nums = Yields-bind one λ tq' e.
    Yields-map (push_all-Everything n tq' xs e.unlimited nums.1) λ last f. record {
      unlimited = f.unlimited;
      same =
          Perm.trans f.same
            (Perm.trans (Perm.append Perm.rfl e.same) (perm_middle (map content xs) (items tq)));
    }
  where
    one : Yields (Everything n tq (x ∷ [])) (push tq x)
    one =
        Yields-if (eqb_ℕℤ (length tq.priority_queue) tq.max_size) (λ full. ground (arith, v.limit))
          λ room. Yields-bind (heap_push-Grown tq.priority_queue x v.valid nums.0) λ h g.
            yields
              (record { unlimited = record { valid = g.valid; limit = v.limit }; same = g.same })
