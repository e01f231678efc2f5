-- ===== src/Base/Maps.antt =====
-- Maps with text keys (Go maps, sync.Map, xsync.MapOf) as association lists: a list keeps the
-- entries in the order in which the run time iterates over them.
use asserts_otel_processor.Base.Tests.{if◌then◌else◌, Bool-cases}
use asserts_otel_processor.Base.Lists.{length, All}
use Prim.Native.Nat.{suc}
use Prim.Native.String.{String}
use mathlib.Core.Path.{◌≡◌, refl, sym}
use mathlib.Core.Logic.{inl, inr}
use mathlib.Core.List.{List, [], ◌∷◌}
use mathlib.Core.Option.{Option, none, some}
use native.Mathlib.Omega.{arith}
use text.Mathlib.Text.{◌==◌}
use text.Mathlib.TextEquality.{eq_iff}

abbrev pub StringMap {ℓ} : Type ℓ → Type ℓ
StringMap V = List (String × V)

module _ {ℓ} {V : Type ℓ} where
  unfoldable pub lookup : String → StringMap V → Option V
  lookup key [] = none
  lookup key ((first, value) ∷ entries) = if first == key then some value else lookup key entries

  unfoldable pub insert : String → V → StringMap V → StringMap V
  insert key new [] = (key, new) ∷ []
  insert key new ((first, value) ∷ entries) =
      if first == key then (key, new) ∷ entries else (first, value) ∷ insert key new entries

  pub lookup-insert :
      (key other : String) (new : V) (entries : StringMap V)
      → lookup other (insert key new entries)
        ≡ (if key == other then some new else lookup other entries)
  unfolding lookup insert
  lookup-insert key other new [] = refl
  lookup-insert key other new ((first, value) ∷ entries) =
      let rest = lookup-insert key other new entries in
      ground (arith, rest, eq_iff key other, eq_iff first key, eq_iff first other)

  pub length-insert_new :
      (k : String) (v : V) (m : StringMap V)
      → lookup k m ≡ none
      → length (insert k v m) ≡ suc (length m)
  unfolding lookup insert
  length-insert_new k v [] h = refl
  length-insert_new k v ((i, w) ∷ m) h = ground (arith, length-insert_new k v m)

module _ {ℓ κ} {V : Type ℓ} where
  pub All-insert :
      (P : V → Type κ) (k : String) (v : V) (m : StringMap V)
      → P v
      → All (λ (e : String × V). P e.1) m
      → All (λ (e : String × V). P e.1) (insert k v m)
  unfolding insert
  All-insert P k v [] p h = (p, tt)
  All-insert P k v ((j, w) ∷ m) p h = elim (Bool-cases (j == k)) [
    | inl e ↦ rw e (p, h.1)
    | inr e ↦ rw e (h.0, All-insert P k v m p h.1)
  ]

module _ {ℓ κ} {V : Type ℓ} (P : String × V → Type κ) where
  pub All-store :
      (key : String) (new : V) (entries : StringMap V)
      → P (key, new)
      → All P entries
      → All P (insert key new entries)
  unfolding insert
  All-store key new [] p h = (p, tt)
  All-store key new ((other, value) ∷ rest) p h = elim (Bool-cases (other == key)) [
    | inl same ↦ rw same (p, h.1)
    | inr differ ↦ rw differ (h.0, All-store key new rest p h.1)
  ]

  pub All-lookup :
      (key : String) (found : V) (entries : StringMap V)
      → All P entries
      → lookup key entries ≡ some found
      → P (key, found)
  unfolding lookup
  All-lookup key found [] h e = absurd (cc)
  All-lookup key found ((other, value) ∷ rest) h e = elim (Bool-cases (other == key)) [
    | inl same ↦
        let k : other ≡ key = (eq_iff other key).0 same in
        let v : value ≡ found = cc (rw same at e) in rw (sym k, sym v) h.0
    | inr differ ↦ All-lookup key found rest h.1 (rw differ at e)
  ]
