-- ===== src/PriorityQueue/Ends.antt =====
-- heap.Push and heap.Pop on the priority queue.
use native.Mathlib.Bridge.{le_prop}
use mathlib.Core.List.{Mem, map-append, not-mem-nil, forall_mem-cons}
use mathlib.Core.List.Perm
use asserts_otel_processor.Base.{
  ℕ, zero, suc, ◌+◌, ◌-◌, ◌≤◌, ◌<◌, ◌≡◌, refl, sym, ap, ◌∙◌, [], ◌∷◌, ◌++◌, Perm, none, true, arith,
  ◌==◌, length, length-append, length-take, take, All-append, All-take, All-get_elem?, get_elem?_lt,
  take-append-get_elem?, concat-perm, Yields, yields, Yields-bind, Yields-map, Yields-if,
}
use asserts_otel_processor.Base.Int.{pos, negsuc}
use asserts_otel_processor.Float.{is_num, place}
use asserts_otel_processor.PriorityQueue.{Item, PriorityQueue, push, pop}
use asserts_otel_processor.PriorityQueue.Facts.{
  rank, rank-append, rank-take, rank-get_elem?, Numbers, content, contents, IsIndexed, Swapped,
  swap-Swapped,
}
use asserts_otel_processor.PriorityQueue.Heap.{parent, heap_push, heap_pop}
use asserts_otel_processor.PriorityQueue.Order.{IsHeap, root_least}
use asserts_otel_processor.PriorityQueue.Up.{UpInv, up_restores}
use asserts_otel_processor.PriorityQueue.Down.{DownInv, Settled, down_restores}

-- A heap of numbers in which every item records its position.
pub record IsValid (a : PriorityQueue) : Type 0 where
  pub heap : IsHeap a
  pub numbers : Numbers a
  pub indexed : IsIndexed 0 a

append-IsIndexed :
    (k : ℕ) (a : PriorityQueue) (x : Item)
    → IsIndexed k a
    → x.index ≡ pos (k + length a)
    → IsIndexed k (a ++ x ∷ [])
append-IsIndexed k [] x h e = (rw e (ap pos (omega arith)), tt)
append-IsIndexed k (y ∷ a) x h e =
    (h.0, append-IsIndexed (suc k) a x h.1 (rw e (ap pos (omega arith))))

take-IsIndexed : (n k : ℕ) (a : PriorityQueue) → IsIndexed k a → IsIndexed k (take n a)
take-IsIndexed zero k a h = tt
take-IsIndexed (suc n) k [] h = tt
take-IsIndexed (suc n) k (x ∷ a) h = (h.0, take-IsIndexed n (suc k) a h.1)

-- The queue after a push: one item more.
pub record Grown (a : PriorityQueue) (x : Item) (b : PriorityQueue) : Type 0 where
  pub valid : IsValid b
  pub same : Perm (contents b) (content x ∷ contents a)
  pub size : length b ≡ suc (length a)

pub heap_push-Grown :
    (a : PriorityQueue) (x : Item)
    → IsValid a
    → is_num x.latency ≡ true
    → Yields (Grown a x) (heap_push a x)
unfolding heap_push push
heap_push-Grown a x v num = Yields-map (up_restores _ _ _ (omega arith) start) λ b (kept, heap).
    record {
      valid = record {
        heap = heap;
        numbers = kept.numbers;
        indexed = kept.indexed (append-IsIndexed 0 a x' v.indexed (ap pos (omega arith)));
      };
      same =
          Perm.trans kept.same
            (rw (map-append content a (x' ∷ [])) (concat-perm (contents a) (content x)));
      size = omega (arith, kept.size, size);
    }
  where
    x' : Item
    x' = record x { index = pos (length a) }

    size : length (a ++ x' ∷ []) ≡ suc (length a)
    size = omega (arith, length-append a (x' ∷ []))

    start : UpInv (a ++ x' ∷ []) (length (a ++ x' ∷ []) - 1)
    start = record {
      numbers = All-append _ a (x' ∷ []) v.numbers (num, tt);
      inside = omega (arith, size);
      edges = λ c p q r.
          ground
            (arith, size, v.heap c, rank-append a (x' ∷ []) c, rank-append a (x' ∷ []) (parent c));
      bridged = omega (arith, size);
    }

-- The item that a pop takes out, and the queue of the others.
pub record Shrunk (a : PriorityQueue) (r : Item × PriorityQueue) : Type 0 where
  pub valid : IsValid r.1
  pub same : Perm (content r.0 ∷ contents r.1) (contents a)
  pub number : is_num r.0.latency ≡ true
  pub least : (i : ℕ) → i < length a → place r.0.latency ≤ rank a i
  pub size : length a ≡ suc (length r.1)
  pub detached : r.0.index ≡ negsuc 0

swap-DownInv :
    (n : ℕ) (a b : PriorityQueue) → IsHeap a → length a ≡ suc n → Swapped a 0 n b → DownInv n b 0
swap-DownInv n a b h size s = record {
  numbers = s.kept.numbers;
  room = omega (arith, s.kept.size);
  edges = λ c p q r. ground (arith, h c, s.ranks c, s.ranks (parent c));
  bridged = omega arith;
}

pop-Shrunk :
    (n : ℕ) (a b c : PriorityQueue)
    → IsValid a
    → length a ≡ suc n
    → Swapped a 0 n b
    → Settled n b c
    → Yields (Shrunk a) (pop c)
unfolding pop
pop-Shrunk n a b c v size s (kept, heap, last) =
    let full : length c ≡ suc n = omega (arith, kept.size, s.kept.size) in
    let index : length c - 1 ≡ n = omega arith in
    let (x, ex) = get_elem?_lt c n (omega arith) in
    let whole : contents (take n c) ++ content x ∷ [] ≡ contents c =
      sym (map-append content (take n c) (x ∷ []))
      ∙ ap contents (take-append-get_elem? n c x full ex) in
    let cut = length-take n c (omega arith) in
    rw (index, ex)
      (yields (record {
        valid = record {
          heap = λ i p q. ground (arith, cut, heap i, rank-take n c i, rank-take n c (parent i));
          numbers = All-take _ n c kept.numbers;
          indexed = take-IsIndexed n 0 c (kept.indexed (s.kept.indexed v.indexed));
        };
        same =
            Perm.trans (Perm.symm (concat-perm (contents (take n c)) (content x)))
              (rw whole (Perm.trans kept.same s.kept.same));
        number = All-get_elem? (λ (z : Item). is_num z.latency ≡ true) c n x ex kept.numbers;
        least = λ i p.
            ground (arith, rank-get_elem? c n x ex, last, s.ranks n, root_least a i v.heap p);
        size = omega (arith, cut);
        detached = refl;
      }))

pub heap_pop-Shrunk :
    (a : PriorityQueue) → IsValid a → 0 < length a → Yields (Shrunk a) (heap_pop a)
unfolding heap_pop
heap_pop-Shrunk a v h =
    Yields-if (length a == 0) (λ e. absurd (ground arith))
      λ _.
        let n = length a - 1 in
        let size : length a ≡ suc n = omega arith in
        Yields-bind (swap-Swapped a 0 n v.numbers h (omega arith)) λ b s.
          Yields-bind (down_restores n n b 0 (omega arith) (swap-DownInv n a b v.heap size s))
            λ c t. pop-Shrunk n a b c v size s t

-- heap.Pop on an empty queue panics.
pub heap_pop-empty : heap_pop [] ≡ none
unfolding heap_pop
heap_pop-empty = refl

-- Elements of the contents, and ranks.
pub mem-rank :
    (a : PriorityQueue) (b : ℕ)
    → ((i : ℕ) → i < length a → b ≤ rank a i)
    → (t : Item) → Mem t (contents a)
    → b ≤ place t.latency
unfolding rank
mem-rank [] b h = λ t m. absurd (not-mem-nil m)
mem-rank (x ∷ a) b h =
    (forall_mem-cons λ t. le_prop).1
      (h 0 (omega arith), mem-rank a b λ i p. h (suc i) (omega arith))
