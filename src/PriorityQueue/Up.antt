-- ===== src/PriorityQueue/Up.antt =====
-- `up` repairs a queue with one latency too low for its place.
use asserts_otel_processor.Base.{
  ℕ, zero, suc, ◌≤◌, ◌<◌, ◌≢◌, arith, ltb, ◌==◌, length, Yields, yields, Yields-bind, Yields-map,
  Yields-if,
}
use asserts_otel_processor.PriorityQueue.{PriorityQueue}
use asserts_otel_processor.PriorityQueue.Facts.{
  rank, Numbers, Rearranged, Rearranged-refl, Rearranged-trans, Swapped, swap-Swapped, less_lem,
}
use asserts_otel_processor.PriorityQueue.Heap.{parent, up}
use asserts_otel_processor.PriorityQueue.Order.{IsHeap, IsBridged}

pub record UpInv (a : PriorityQueue) (j : ℕ) : Type 0 where
  pub numbers : Numbers a
  pub inside : j < length a
  pub edges : (c : ℕ) → 0 < c → c < length a → c ≢ j → rank a (parent c) ≤ rank a c
  pub bridged : IsBridged (length a) a j

swap-UpInv :
    (a b : PriorityQueue) (j : ℕ)
    → UpInv a j
    → 0 < j
    → rank a j < rank a (parent j)
    → Swapped a (parent j) j b
    → UpInv b (parent j)
swap-UpInv a b j v pos below s = record {
  numbers = s.kept.numbers;
  inside = omega (arith, s.kept.size);
  edges =
      λ c p q r. ground (arith, s.kept.size, s.ranks c, s.ranks (parent c), v.edges c, v.bridged c);
  bridged = λ c p q r t. ground (
    arith,
    s.kept.size,
    s.ranks c,
    s.ranks (parent (parent j)),
    v.edges c,
    v.edges (parent j),
    v.bridged c,
  );
}

-- The queue is a heap again, with the same items.
pub up_restores :
    (fuel : ℕ) (a : PriorityQueue) (j : ℕ)
    → j ≤ fuel
    → UpInv a j
    → Yields (λ b. Rearranged a b × IsHeap b) (up fuel a j)
unfolding up
up_restores zero a j f v =
    yields (Rearranged-refl a v.numbers, λ c p q. v.edges c p q (omega arith))
up_restores (suc fuel) a j f v =
    let above : parent j < length a = omega (arith, v.inside) in
    rw (less_lem a j (parent j) v.numbers v.inside above) (
      Yields-if (parent j == j)
        (λ root. yields (Rearranged-refl a v.numbers, λ c p q. v.edges c p q (ground arith)))
        (λ inner.
          Yields-if (ltb (rank a j) (rank a (parent j)))
            (λ below. Yields-bind (swap-Swapped a (parent j) j v.numbers above v.inside) λ b s.
              Yields-map
                (up_restores fuel b (parent j) (ground arith)
                  (swap-UpInv a b j v (ground arith) (ground arith) s))
                λ c t. (Rearranged-trans s.kept t.0, t.1))
            (λ settled. yields (Rearranged-refl a v.numbers, λ c p q. ground (arith, v.edges c)))))
