-- ===== src/Base/Lists.antt =====
-- Lists measured by native numbers, and predicates on all their elements.
use Prim.Native.Nat.{ℕ, zero, suc, ◌+◌, ◌<◌, ◌≤◌}
use mathlib.Core.Path.{◌≡◌, refl, ap}
use mathlib.Core.List.{List, [], ◌∷◌, ◌++◌, map, Perm, Permᴰ, append-nil, perm_middle}
use mathlib.Core.List.Perm
use mathlib.Core.Option.{Option, none, some}
use mathlib.Core.Logic.{∥∥₁_elim}
use native.Mathlib.Nat.{ℕ_set}
use native.Mathlib.Omega.{arith}

module _ {ℓ} {A : Type ℓ} where
  abbrev pub length : List A → ℕ
  length [] = 0
  length (x ∷ xs) = suc (length xs)

  abbrev pub get_elem? : List A → ℕ → Option A
  get_elem? [] i = none
  get_elem? (x ∷ xs) zero = some x
  get_elem? (x ∷ xs) (suc i) = get_elem? xs i

  abbrev pub set : List A → ℕ → A → List A
  set [] i v = []
  set (x ∷ xs) zero v = v ∷ xs
  set (x ∷ xs) (suc i) v = x ∷ set xs i v

  abbrev pub take : ℕ → List A → List A
  take zero xs = []
  take (suc n) [] = []
  take (suc n) (x ∷ xs) = x ∷ take n xs

  abbrev pub All {κ} : (A → Type κ) → List A → Type κ
  All P [] = Unit
  All P (x ∷ xs) = P x × All P xs

  pub length-append : (xs ys : List A) → length (xs ++ ys) ≡ length xs + length ys
  length-append [] ys = omega arith
  length-append (x ∷ xs) ys = omega (arith, length-append xs ys)

  derivation-length : {xs ys : List A} → Permᴰ xs ys → length xs ≡ length ys
  derivation-length Permᴰ.nil = omega arith
  derivation-length (Permᴰ.cons _ tail) = omega (arith, derivation-length tail)
  derivation-length (Permᴰ.swap _ _) = omega arith
  derivation-length (Permᴰ.trans first second) =
      omega (arith, derivation-length first, derivation-length second)

  pub length-perm : {xs ys : List A} → Perm xs ys → length xs ≡ length ys
  length-perm h = ∥∥₁_elim h (ℕ_set _ _) derivation-length

  pub All-imp {κ κ'} :
      (P : A → Type κ) (Q : A → Type κ') (xs : List A) → ((x : A) → P x → Q x) → All P xs → All Q xs
  All-imp P Q [] f h = tt
  All-imp P Q (x ∷ xs) f h = (f x h.0, All-imp P Q xs f h.1)

  pub All-append {κ} : (P : A → Type κ) (xs ys : List A) → All P xs → All P ys → All P (xs ++ ys)
  All-append P [] ys hx hy = hy
  All-append P (x ∷ xs) ys hx hy = (hx.0, All-append P xs ys hx.1 hy)

  pub length-set : (xs : List A) (i : ℕ) (v : A) → length (set xs i v) ≡ length xs
  length-set [] i v = omega arith
  length-set (x ∷ xs) zero v = omega arith
  length-set (x ∷ xs) (suc i) v = omega (arith, length-set xs i v)

module _ {ℓ} {A : Type ℓ} where
  pub length-map {κ} : {B : Type κ} (xs : List A) (f : A → B) → length (map f xs) ≡ length xs
  length-map [] f = refl
  length-map (x ∷ xs) f = ap suc (length-map xs f)

  pub map-set {κ} :
      {B : Type κ} (xs : List A) (i : ℕ) (v : A) (f : A → B)
      → map f (set xs i v) ≡ set (map f xs) i (f v)
  map-set [] i v f = refl
  map-set (x ∷ xs) zero v f = refl
  map-set (x ∷ xs) (suc i) v f = ap (◌∷◌ (f x)) (map-set xs i v f)

  pub get_elem?-map {κ} :
      {B : Type κ} (xs : List A) (i : ℕ) (v : A) (f : A → B)
      → get_elem? xs i ≡ some v
      → get_elem? (map f xs) i ≡ some (f v)
  get_elem?-map [] i v f h = cc
  get_elem?-map (x ∷ xs) zero v f h = cc
  get_elem?-map (x ∷ xs) (suc i) v f h = get_elem?-map xs i v f h

module _ {ℓ} {A : Type ℓ} where
  pub get_elem?_lt : (xs : List A) (i : ℕ) → i < length xs → (x : A) × (get_elem? xs i ≡ some x)
  get_elem?_lt [] i h = absurd (omega arith)
  get_elem?_lt (x ∷ xs) zero h = (x, refl)
  get_elem?_lt (x ∷ xs) (suc i) h = get_elem?_lt xs i (omega arith)

  get_elem?-set :
      (xs : List A) (i j : ℕ) (v w : A)
      → get_elem? xs i ≡ some v
      → get_elem? xs j ≡ some w
      → get_elem? (set xs i w) j ≡ some w
  get_elem?-set [] n m old new at_n at_m = cc
  get_elem?-set (x ∷ xs) zero zero old new at_n at_m = refl
  get_elem?-set (x ∷ xs) zero (suc m) old new at_n at_m = at_m
  get_elem?-set (x ∷ xs) (suc n) zero old new at_n at_m = at_m
  get_elem?-set (x ∷ xs) (suc n) (suc m) old new at_n at_m = get_elem?-set xs n m old new at_n at_m

  -- A write trades the old element for the new one.
  set-perm :
      (xs : List A) (i : ℕ) (v w : A) → get_elem? xs i ≡ some v → Perm (v ∷ set xs i w) (w ∷ xs)
  set-perm [] i v w h = absurd (cc)
  set-perm (x ∷ xs) zero v w h = let e : v ≡ x = cc in rw e (Perm.swap w x xs)
  set-perm (x ∷ xs) (suc i) v w h =
      Perm.trans (Perm.swap x v _)
        (Perm.trans (Perm.cons x (set-perm xs i v w h)) (Perm.swap w x xs))

  pub swap-perm :
      (xs : List A) (i j : ℕ) (v w : A)
      → get_elem? xs i ≡ some v
      → get_elem? xs j ≡ some w
      → Perm (set (set xs i w) j v) xs
  swap-perm xs i j v w p q =
      let second = set-perm (set xs i w) j w v (get_elem?-set xs i j v w p q) in
      Perm.cons_inv (Perm.trans second (set-perm xs i v w p))

  pub All-get_elem? {κ} :
      (P : A → Type κ) (xs : List A) (i : ℕ) (x : A) → get_elem? xs i ≡ some x → All P xs → P x
  All-get_elem? P [] i x e h = absurd (cc)
  All-get_elem? P (y ∷ xs) zero x e h = let f : x ≡ y = cc in rw f h.0
  All-get_elem? P (y ∷ xs) (suc i) x e h = All-get_elem? P xs i x e h.1

  pub All-set {κ} :
      (P : A → Type κ) (xs : List A) (i : ℕ) (x : A) → All P xs → P x → All P (set xs i x)
  All-set P [] i x h p = h
  All-set P (y ∷ xs) zero x h p = (p, h.1)
  All-set P (y ∷ xs) (suc i) x h p = (h.0, All-set P xs i x h.1 p)

  pub All-take {κ} : (P : A → Type κ) (n : ℕ) (xs : List A) → All P xs → All P (take n xs)
  All-take P zero xs h = tt
  All-take P (suc n) [] h = tt
  All-take P (suc n) (x ∷ xs) h = (h.0, All-take P n xs h.1)

  pub take-append-get_elem? :
      (n : ℕ) (xs : List A) (x : A)
      → length xs ≡ suc n
      → get_elem? xs n ≡ some x
      → take n xs ++ x ∷ [] ≡ xs
  take-append-get_elem? zero (y ∷ []) x h e = let f : x ≡ y = cc in rw f
  take-append-get_elem? (suc n) (y ∷ xs) x h e =
      ap (◌∷◌ y) (take-append-get_elem? n xs x (omega arith) e)
  take-append-get_elem? n xs x h e = absurd (omega arith)

  pub length-take : (n : ℕ) (xs : List A) → n ≤ length xs → length (take n xs) ≡ n
  length-take zero xs h = refl
  length-take (suc n) [] h = absurd (omega arith)
  length-take (suc n) (x ∷ xs) h = ap suc (length-take n xs (omega arith))

  pub concat-perm : (xs : List A) (x : A) → Perm (xs ++ x ∷ []) (x ∷ xs)
  concat-perm xs x = rw (append-nil xs) at (perm_middle {a = x} xs [])
