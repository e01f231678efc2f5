-- ===== src/TraceQueue/Top.antt =====
-- A run of pushes keeps the slowest traces: the queue as the top `m` of everything that was pushed.
use native.Mathlib.Bridge.{le_prop}
use mathlib.Core.List.{
  Mem, mem-cons, mem-cons_of_mem, mem-cons_self, not-mem-nil, perm_middle, append-nil,
}
use mathlib.Core.List.Perm
use mathlib.Core.Logic.Or
use asserts_otel_processor.Base.{
  ℕ, ◌≤◌, ◌<◌, ◌≡◌, refl, subst, List, [], ◌∷◌, ◌++◌, Perm, true, arith, ◌⊎◌, inl, inr, length,
  length-append, length-map, map, min, Yields, yields, Yields-bind, Yields-map, length-perm, All,
}
use asserts_otel_processor.Base.Int.{pos}
use asserts_otel_processor.Float.{is_num, place}
use asserts_otel_processor.PriorityQueue.{Item}
use asserts_otel_processor.PriorityQueue.Facts.{content}
use asserts_otel_processor.TraceQueue.{TraceQueue, new_trace_queue, push_all}
use asserts_otel_processor.TraceQueue.Push.{
  new_trace_queue-IsBounded, items, IsLowest, IsBounded, Kept, added, replaced, push-Kept,
}

-- The queue holds `m` of the items pushed, or all, and none that was dropped is slower than one kept.
pub record TopOf (m : ℕ) (pushed : List Item) (tq : TraceQueue) : Type 0 where
  pub bounded : IsBounded m tq
  pub dropped : List Item
  pub same : Perm (items tq ++ dropped) pushed
  pub low : (d : Item) → Mem d dropped → IsLowest d (items tq)
  pub full : (dropped ≡ []) ⊎ (length tq.priority_queue ≡ m)

replaced_low :
    (m : ℕ) (tq tq' : TraceQueue) (x d e : Item)
    → Perm (content d ∷ items tq') (content x ∷ items tq)
    → IsLowest d (content x ∷ items tq)
    → IsLowest e (items tq)
    → IsLowest e (items tq')
replaced_low m tq tq' x d e same low under k mem =
    Or.elim le_prop (mem-cons.0 ((Perm.mem_iff same).0 mem-cons_self))
      (λ eq. under k ((Perm.mem_iff (Perm.cons_inv (rw eq at same))).0 mem))
      (λ old.
        omega (arith, under (content d) old, low k ((Perm.mem_iff same).0 (mem-cons_of_mem _ mem))))

step-TopOf :
    (m : ℕ) (pushed : List Item) (tq tq' : TraceQueue) (x : Item)
    → TopOf m pushed tq
    → IsBounded m tq'
    → Kept m tq x tq'
    → TopOf m (content x ∷ pushed) tq'
step-TopOf m pushed tq tq' x t b (added room size same) = record {
  bounded = b;
  dropped = t.dropped;
  same = Perm.trans (Perm.append same Perm.rfl) (Perm.cons (content x) t.same);
  low = λ d mem. absurd (none_dropped t.full d mem);
  full = elim t.full [ inl e ↦ inl e | inr e ↦ absurd (omega arith) ];
}
  where
    none_dropped :
        (t.dropped ≡ []) ⊎ (length tq.priority_queue ≡ m) → (d : Item) → Mem d t.dropped → ⊥
    none_dropped (inl e) d mem = not-mem-nil (subst (Mem d) e mem)
    none_dropped (inr e) d mem = omega arith
step-TopOf m pushed tq tq' x t b (replaced d was size same lowest) = record {
  bounded = b;
  dropped = content d ∷ t.dropped;
  same =
      Perm.trans (perm_middle (items tq') t.dropped)
        (Perm.trans (Perm.append same Perm.rfl) (Perm.cons (content x) t.same));
  low = λ e mem k kept.
      Or.elim le_prop (mem-cons.0 mem)
        (λ eq. rw eq (lowest k ((Perm.mem_iff same).0 (mem-cons_of_mem _ kept))))
        (λ old. replaced_low m tq tq' x d e same lowest (t.low e old) k kept);
  full = inr size;
}

TopOf-perm : {m : ℕ} {a b : List Item} {tq : TraceQueue} → Perm a b → TopOf m a tq → TopOf m b tq
TopOf-perm p t = record {
  bounded = t.bounded;
  dropped = t.dropped;
  same = Perm.trans t.same p;
  low = t.low;
  full = t.full;
}

push_all-TopOf :
    (m : ℕ) (pushed : List Item) (tq : TraceQueue) (xs : List Item)
    → 0 < m
    → All (λ x. is_num x.latency ≡ true) xs
    → TopOf m pushed tq
    → Yields (TopOf m (map content xs ++ pushed)) (push_all tq xs)
unfolding push_all
push_all-TopOf m pushed tq [] positive nums t = yields t
push_all-TopOf m pushed tq (x ∷ xs) positive nums t =
    Yields-bind (push-Kept m tq x t.bounded nums.0 positive) λ tq' p.
      Yields-map
        (push_all-TopOf m (content x ∷ pushed) tq' xs positive nums.1
          (step-TopOf m pushed tq tq' x t p.0 p.1))
        λ last u. TopOf-perm (perm_middle (map content xs) pushed) u

-- What a new queue with limit `m` holds after the items of `xs` have been pushed onto it.
pub record Slowest (m : ℕ) (xs : List Item) (tq : TraceQueue) : Type 0 where
  pub bounded : IsBounded m tq
  pub dropped : List Item
  pub same : Perm (items tq ++ dropped) (map content xs)
  pub low : (d k : Item) → Mem d dropped → Mem k (items tq) → place d.latency ≤ place k.latency
  pub size : length tq.priority_queue ≡ min m (length xs)

-- Whatever is pushed onto a new queue with a positive limit m, in any order, no push panics, and
-- the queue ends with the m slowest items (or with all of them, if they are fewer): what it keeps
-- and what it dropped are together the items pushed, no dropped item is slower than a kept one, the
-- queue holds the lesser of m and the number of pushes, it is a heap with the least latency at the
-- root, and each item's index field is its position.
pub push_all-Slowest :
    (m : ℕ) (xs : List Item)
    → 0 < m
    → All (λ x. is_num x.latency ≡ true) xs
    → Yields (Slowest m xs) (push_all (new_trace_queue (pos m)) xs)
unfolding new_trace_queue
push_all-Slowest m xs positive nums =
    Yields-map (push_all-TopOf m [] _ xs positive nums start) λ tq t. record {
      bounded = t.bounded;
      dropped = t.dropped;
      same = rw (append-nil (map content xs)) at t.same;
      low = λ d k p q. t.low d p k q;
      size =
          let total = length-perm t.same in
          ground (
            arith,
            t.full,
            t.bounded.within,
            total,
            length-append (items tq) t.dropped,
            length-append (map content xs) [],
            length-map tq.priority_queue content,
            length-map xs content,
          );
    }
  where
    start : TopOf m [] (new_trace_queue (pos m))
    start = record {
      bounded = new_trace_queue-IsBounded m;
      dropped = [];
      same = Perm.rfl;
      low = λ d mem. absurd (not-mem-nil mem);
      full = inl refl;
    }
