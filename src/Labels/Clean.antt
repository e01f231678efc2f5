-- ===== src/Labels/Clean.antt =====
-- Which characters a label can have.
use Prim.Native.Char.{Char, code}
use asserts_otel_processor.Base.{
  ℕ, ◌≡◌, refl, Bool, true, false, String, List, ◌∷◌, if◌then◌else◌, ◌==◌,
}
use asserts_otel_processor.Platform.{Platform}
use asserts_otel_processor.Labels.{
  occurs, replaced, append, replace, to_lower, apply_prom_conventions,
}

-- All the characters that a label does not have.
abbrev pub forbidden : List ℕ
forbidden = b'%' ∷ replaced

abbrev pub IsClean : String → Type 0
IsClean String.[] = Unit
IsClean (String.◌∷◌ c s) = (occurs (code c) forbidden ≡ false) × IsClean s

replace-IsClean : (s : String) → IsClean (replace s)
unfolding replace
replace-IsClean String.[] = tt
replace-IsClean (String.◌∷◌ c s) =
    go (replace-IsClean s) (code c == b'%') (occurs (code c) replaced) refl refl
  where
    go :
        IsClean (replace s)
        → (percent other : Bool) → code c == b'%' ≡ percent
        → occurs (code c) replaced ≡ other
        → IsClean (
            if percent
            then append "_percent" (replace s)
            else if other
            then String.◌∷◌ "_" (replace s)
            else String.◌∷◌ c (replace s))
    go clean true other e o = (refl, (refl, (refl, (refl, (refl, (refl, (refl, (refl, clean))))))))
    go clean false true e o = (refl, clean)
    go clean false false e o = (rw e o, clean)

module _ (rt : Platform)
    (keeps : (c : Char)
      → occurs (code c) forbidden ≡ false
      → occurs (code (rt.lower c)) forbidden ≡ false) where
  to_lower-IsClean : (s : String) → IsClean s → IsClean (to_lower rt s)
  to_lower-IsClean String.[] h = tt
  to_lower-IsClean (String.◌∷◌ c s) h = (keeps c h.0, to_lower-IsClean s h.1)

  -- If no character has a lower case that is to be replaced, then the label of an attribute has none of
  -- the characters that are replaced, whatever the attribute's name.
  pub apply_prom_conventions-IsClean : (s : String) → IsClean (apply_prom_conventions rt s)
  unfolding apply_prom_conventions
  apply_prom_conventions-IsClean s = to_lower-IsClean (replace s) (replace-IsClean s)
