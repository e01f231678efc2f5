-- ===== src/Base/Panics.antt =====
-- Go code that can panic: `none` is a run-time panic (an index out of range, a nil dereference).
use mathlib.Core.Path.{◌≡◌, refl}
use mathlib.Core.Bool.{Bool, true, false}
use mathlib.Core.Option.{Option, none, some}
use asserts_otel_processor.Base.Tests.{if◌then◌else◌}

infixl 5 ◌>>=◌
abbrev pub ◌>>=◌ {ℓ κ} : {A : Type ℓ} {B : Type κ} → Option A → (A → Option B) → Option B
none >>= f = none
some a >>= f = f a

-- The run does not panic, and its value satisfies `P`.
pub data Yields {ℓ κ} {A : Type ℓ} (P : A → Type κ) : Option A → Type (ℓ ⊔ κ) where
  yields : {a : A} → P a → Yields P (some a)

module _ {ℓ κ} {A : Type ℓ} {P : A → Type κ} where
  pub Yields-bind {ℓ' κ'} :
      {B : Type ℓ'} {Q : B → Type κ'} {r : Option A} {f : A → Option B}
      → Yields P r
      → ((a : A) → P a → Yields Q (f a))
      → Yields Q (r >>= f)
  Yields-bind (yields p) k = k _ p

  pub Yields-map {κ'} :
      {Q : A → Type κ'} {r : Option A} → Yields P r → ((a : A) → P a → Q a) → Yields Q r
  Yields-map (yields p) k = yields (k _ p)

  pub Yields-if :
      {x y : Option A} (b : Bool)
      → (b ≡ true → Yields P x)
      → (b ≡ false → Yields P y)
      → Yields P (if b then x else y)
  Yields-if true p q = p refl
  Yields-if false p q = q refl

  pub Yields-inv : {r : Option A} → Yields P r → (a : A) × (r ≡ some a) × P a
  Yields-inv (yields p) = (_, refl, p)

-- If the run does not panic, its value satisfies `P`.
abbrev pub Always {ℓ κ} : {A : Type ℓ} → (A → Type κ) → Option A → Type κ
Always P none = Unit
Always P (some a) = P a

module _ {ℓ κ} {A : Type ℓ} where
  pub Always-bind {ℓ' κ'} :
      {B : Type ℓ'} (P : A → Type κ) (Q : B → Type κ') (r : Option A) (f : A → Option B)
      → Always P r
      → ((a : A) → P a → Always Q (f a))
      → Always Q (r >>= f)
  Always-bind P Q none f h k = tt
  Always-bind P Q (some a) f h k = k a h

  -- A run that returns has both.
  pub Yields-Always {κ'} :
      (P : A → Type κ) (Q : A → Type κ') {r : Option A}
      → Yields P r
      → Always Q r
      → Yields (λ a. P a × Q a) r
  Yields-Always P Q (yields p) q = yields (p, q)

pub Yields-some {ℓ ℓ' κ'} :
    {A : Type ℓ} {B : Type ℓ'} {Q : B → Type κ'} {r : Option A} (f : A → Option B) (a : A)
    → r ≡ some a
    → Yields Q (f a)
    → Yields Q (r >>= f)
Yields-some f a e p = rw e p
