-- ===== src/PriorityQueue/Down.antt =====
-- `down` repairs the part of a queue below `n` whose root may be too high.
use asserts_otel_processor.Base.{
  ℕ, zero, suc, ◌+◌, ◌-◌, ◌*◌, ◌≤◌, ◌<◌, ◌≡◌, refl, ◌∙◌, ◌≢◌, ◌⊎◌, arith, ltb, leb, length, Yields,
  yields, Yields-bind, Yields-map, Yields-if,
}
use asserts_otel_processor.PriorityQueue.{PriorityQueue}
use asserts_otel_processor.PriorityQueue.Facts.{
  rank, Numbers, Rearranged, Rearranged-refl, Rearranged-trans, Swapped, swap-Swapped, less_lem,
}
use asserts_otel_processor.PriorityQueue.Heap.{parent, smaller_child, down}
use asserts_otel_processor.PriorityQueue.Order.{IsHeapBelow, IsBridged}

pub record DownInv (n : ℕ) (a : PriorityQueue) (i : ℕ) : Type 0 where
  pub numbers : Numbers a
  pub room : n < length a
  pub edges : (c : ℕ) → 0 < c → c < n → parent c ≢ i → rank a (parent c) ≤ rank a c
  pub bridged : IsBridged n a i

record IsSmallerChild (n : ℕ) (a : PriorityQueue) (i m : ℕ) : Type 0 where
  inside : m < n
  child : (m ≡ 2 * i + 1) ⊎ (m ≡ 2 * i + 2)
  least : (c : ℕ) → 0 < c → c < n → parent c ≡ i → rank a m ≤ rank a c

smaller_child_least :
    (n : ℕ) (a : PriorityQueue) (i : ℕ)
    → Numbers a
    → n < length a
    → 2 * i + 1 < n
    → Yields (IsSmallerChild n a i) (smaller_child a i n)
unfolding smaller_child
smaller_child_least n a i nums room h =
    Yields-if (ltb (2 * i + 1 + 1) n)
      (λ two.
        let right : 2 * i + 1 + 1 < length a = ground arith in
        rw (less_lem a (2 * i + 1 + 1) (2 * i + 1) nums right (omega arith)) (yields (grind arith)))
      (λ one. yields (grind arith))

swap-DownInv :
    (n : ℕ) (a b : PriorityQueue) (i m : ℕ)
    → DownInv n a i
    → IsSmallerChild n a i m
    → rank a m < rank a i
    → Swapped a i m b
    → DownInv n b m
swap-DownInv n a b i m v s below t = record {
  numbers = t.kept.numbers;
  room = omega (arith, t.kept.size, v.room);
  edges =
      λ c p q r. ground (arith, t.ranks c, t.ranks (parent c), v.edges c, v.bridged m, s.least c);
  bridged = λ c p q r u. ground (arith, t.ranks c, t.ranks (parent m), v.edges c);
}

-- The queue is a heap below `n`, with the same items, and position `n` keeps its latency.
abbrev pub Settled : ℕ → PriorityQueue → PriorityQueue → Type 0
Settled n a b = Rearranged a b × IsHeapBelow n b × (rank b n ≡ rank a n)

pub down_restores :
    (fuel n : ℕ) (a : PriorityQueue) (i : ℕ)
    → n - i ≤ fuel
    → DownInv n a i
    → Yields (Settled n a) (down fuel a i n)
unfolding down
down_restores zero n a i f v =
    yields (Rearranged-refl a v.numbers, λ c p q. ground (arith, v.edges c), refl)
down_restores (suc fuel) n a i f v =
    Yields-if (leb n (2 * i + 1))
      (λ leaf. yields (Rearranged-refl a v.numbers, λ c p q. ground (arith, v.edges c), refl))
      (λ inner. Yields-bind (smaller_child_least n a i v.numbers v.room (ground arith)) λ m s.
        let hm : m < length a = omega (arith, s.inside, v.room) in
        let hi : i < length a = ground (arith, v.room) in
        rw (less_lem a m i v.numbers hm hi) (
          Yields-if (ltb (rank a m) (rank a i))
            (λ below. Yields-bind (swap-Swapped a i m v.numbers hi hm) λ b t.
              Yields-map
                (down_restores fuel n b m (ground (arith, s.inside, s.child))
                  (swap-DownInv n a b i m v s (ground arith) t))
                λ c u.
                  (Rearranged-trans t.kept u.0, u.1, u.2 ∙ ground (arith, t.ranks n, s.inside)))
            (λ settled.
              yields (
                Rearranged-refl a v.numbers,
                λ c p q. ground (arith, v.edges c, s.least c),
                refl,
              ))))
