-- ===== src/PriorityQueue/Facts.antt =====
-- What `less` and `swap` do inside the bounds: ranks, contents and index fields.
use mathlib.Core.List.Perm
use asserts_otel_processor.Base.{
  ℕ, zero, suc, ◌+◌, ◌<◌, ◌≡◌, refl, ap, List, [], ◌∷◌, ◌++◌, map, Perm, some, true, arith, ltb,
  ◌==◌, if◌then◌else◌, length, get_elem?, set, take, All, All-set, All-get_elem?, get_elem?_lt,
  get_elem?-map, map-set, swap-perm, length-set, Yields, yields,
}
use asserts_otel_processor.Base.Int.{pos}
use asserts_otel_processor.Float.{is_num, place}
use asserts_otel_processor.PriorityQueue.{Item, PriorityQueue, less, swap}

-- The place of the latency at a position.
unfoldable pub rank : PriorityQueue → ℕ → ℕ
rank [] i = 0
rank (x ∷ a) zero = place x.latency
rank (x ∷ a) (suc i) = rank a i

-- No latency is NaN.
abbrev pub Numbers : PriorityQueue → Type 0
Numbers = All λ x. is_num x.latency ≡ true

-- An item without its index field, which the queue owns.
abbrev pub content : Item → Item
content x = record x { index = pos 0 }

abbrev pub contents : PriorityQueue → List Item
contents = map content

-- From position `k` on, each item records its own position.
abbrev pub IsIndexed : ℕ → PriorityQueue → Type 0
IsIndexed k [] = Unit
IsIndexed k (x ∷ a) = (x.index ≡ pos k) × IsIndexed (suc k) a

pub rank-get_elem? :
    (a : PriorityQueue) (i : ℕ) (x : Item) → get_elem? a i ≡ some x → rank a i ≡ place x.latency
unfolding rank
rank-get_elem? [] i x e = cc
rank-get_elem? (y ∷ a) zero x e = let f : x ≡ y = cc in rw f
rank-get_elem? (y ∷ a) (suc i) x e = rank-get_elem? a i x e

rank-set :
    (a : PriorityQueue) (i c : ℕ) (v : Item)
    → i < length a
    → rank (set a i v) c ≡ (if i == c then place v.latency else rank a c)
unfolding rank
rank-set [] i c v h = absurd (omega arith)
rank-set (x ∷ a) zero zero v h = refl
rank-set (x ∷ a) zero (suc c) v h = ground arith
rank-set (x ∷ a) (suc i) zero v h = ground arith
rank-set (x ∷ a) (suc i) (suc c) v h = ground (arith, rank-set a i c v)

pub rank-append : (a b : PriorityQueue) (i : ℕ) → i < length a → rank (a ++ b) i ≡ rank a i
unfolding rank
rank-append [] b i h = absurd (omega arith)
rank-append (x ∷ a) b zero h = refl
rank-append (x ∷ a) b (suc i) h = rank-append a b i (omega arith)

pub rank-take : (n : ℕ) (a : PriorityQueue) (i : ℕ) → i < n → rank (take n a) i ≡ rank a i
unfolding rank
rank-take zero a i h = absurd (omega arith)
rank-take (suc n) [] i h = refl
rank-take (suc n) (x ∷ a) zero h = refl
rank-take (suc n) (x ∷ a) (suc i) h = rank-take n a i (omega arith)

set-IsIndexed :
    (k : ℕ) (a : PriorityQueue) (i : ℕ) (v : Item)
    → IsIndexed k a
    → v.index ≡ pos (k + i)
    → IsIndexed k (set a i v)
set-IsIndexed k [] i v h e = tt
set-IsIndexed k (x ∷ a) zero v h e = (rw e (ap pos (omega arith)), h.1)
set-IsIndexed k (x ∷ a) (suc i) v h e =
    (h.0, set-IsIndexed (suc k) a i v h.1 (rw e (ap pos (omega arith))))

pub less_lem :
    (a : PriorityQueue) (i j : ℕ)
    → Numbers a
    → i < length a
    → j < length a
    → less a i j ≡ some (ltb (rank a i) (rank a j))
unfolding less
less_lem a i j nums hi hj =
    let (x, ex) = get_elem?_lt a i hi in
    let (y, ey) = get_elem?_lt a j hj in
    let nx = All-get_elem? (λ (z : Item). is_num z.latency ≡ true) a i x ex nums in
    let ny = All-get_elem? (λ (z : Item). is_num z.latency ≡ true) a j y ey nums in
    ground (arith, ex, ey, nx, ny, rank-get_elem? a i x ex, rank-get_elem? a j y ey)

-- `b` holds the items of `a` in another order, and their index fields are kept up.
pub record Rearranged (a b : PriorityQueue) : Type 0 where
  pub size : length b ≡ length a
  pub numbers : Numbers b
  pub same : Perm (contents b) (contents a)
  pub indexed : IsIndexed 0 a → IsIndexed 0 b

pub Rearranged-refl : (a : PriorityQueue) → Numbers a → Rearranged a a
Rearranged-refl a nums = record { size = refl; numbers = nums; same = Perm.rfl; indexed = λ h. h }

pub Rearranged-trans : {a b c : PriorityQueue} → Rearranged a b → Rearranged b c → Rearranged a c
Rearranged-trans r s = record {
  size = omega (arith, r.size, s.size);
  numbers = s.numbers;
  same = Perm.trans s.same r.same;
  indexed = λ h. s.indexed (r.indexed h);
}

pub record Swapped (a : PriorityQueue) (i j : ℕ) (b : PriorityQueue) : Type 0 where
  pub kept : Rearranged a b
  pub ranks :
      (c : ℕ) → rank b c ≡ (if j == c then rank a i else if i == c then rank a j else rank a c)

pub swap-Swapped :
    (a : PriorityQueue) (i j : ℕ)
    → Numbers a
    → i < length a
    → j < length a
    → Yields (Swapped a i j) (swap a i j)
unfolding swap
swap-Swapped a i j nums hi hj =
    let (x, ex) = get_elem?_lt a i hi in
    let (y, ey) = get_elem?_lt a j hj in
    let nx = All-get_elem? (λ (z : Item). is_num z.latency ≡ true) a i x ex nums in
    let ny = All-get_elem? (λ (z : Item). is_num z.latency ≡ true) a j y ey nums in
    let x' = record x { index = pos j } in
    let y' = record y { index = pos i } in
    let size = length-set a i y' in
    rw (ey, ex)
      (yields (record {
        kept = record {
          size = omega (arith, length-set (set a i y') j x', size);
          numbers = All-set _ (set a i y') j x' (All-set _ a i y' nums ny) nx;
          same =
              rw (map-set (set a i y') j x' content, map-set a i y' content)
                (swap-perm (contents a) i j (content x) (content y) (get_elem?-map a i x content ex)
                  (get_elem?-map a j y content ey));
          indexed = λ h.
              set-IsIndexed 0 (set a i y') j x' (set-IsIndexed 0 a i y' h (ap pos (omega arith)))
                (ap pos (omega arith));
        };
        ranks = λ c. ground (
          arith,
          rank-set (set a i y') j c x',
          rank-set a i c y',
          size,
          rank-get_elem? a i x ex,
          rank-get_elem? a j y ey,
        );
      }))
