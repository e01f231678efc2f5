-- ===== src/Config/Equality.antt =====
-- `reflect.DeepEqual` on the parts of a configuration that the listeners compare: slices elementwise,
-- maps by their entries in any order, pointers by what they point to. A nil slice or map is given as
-- the empty one here.
use asserts_otel_processor.Base.{
  Bool, true, false, ◌&&◌, List, [], ◌∷◌, Option, none, some, length, ◌==◌, str_eq,
}
use asserts_otel_processor.Base.Maps.{StringMap, lookup}
use asserts_otel_processor.Float.{Float64, feq}
use asserts_otel_processor.CustomAttribute.{CustomAttributeConfig}
use asserts_otel_processor.Config.{SpanAttribute, SpanAttributeConfig}

abbrev pub equal_lists {ℓ} : {A : Type ℓ} → (A → A → Bool) → List A → List A → Bool
equal_lists eq [] [] = true
equal_lists eq (x ∷ xs) (y ∷ ys) = eq x y && equal_lists eq xs ys
equal_lists eq _ _ = false

abbrev equal_found {ℓ} : {V : Type ℓ} → (V → V → Bool) → V → Option V → Bool
equal_found eq v none = false
equal_found eq v (some w) = eq v w

abbrev all_found {ℓ} : {V : Type ℓ} → (V → V → Bool) → StringMap V → StringMap V → Bool
all_found eq [] m' = true
all_found eq ((k, v) ∷ m) m' = equal_found eq v (lookup k m') && all_found eq m m'

abbrev pub equal_maps {ℓ} : {V : Type ℓ} → (V → V → Bool) → StringMap V → StringMap V → Bool
equal_maps eq m m' = length m == length m' && all_found eq m m'

abbrev pub equal_rules : CustomAttributeConfig → CustomAttributeConfig → Bool
equal_rules r r' =
    equal_lists str_eq r.span_kinds r'.span_kinds
    && equal_lists str_eq r.source_attributes r'.source_attributes
    && str_eq r.reg_exp r'.reg_exp
    && str_eq r.replacement r'.replacement

abbrev pub equal_attribute_configs : SpanAttributeConfig → SpanAttributeConfig → Bool
equal_attribute_configs c c' =
    str_eq c.namespace c'.namespace
    && str_eq c.service c'.service
    && equal_lists equal_rules c.rules c'.rules

abbrev pub equal_span_attributes : List SpanAttribute → List SpanAttribute → Bool
equal_span_attributes = equal_lists λ a a'.
    str_eq a.attribute_name a'.attribute_name
    && equal_lists equal_attribute_configs a.attribute_configs a'.attribute_configs

abbrev pub equal_custom_attributes :
    StringMap (StringMap (List CustomAttributeConfig))
    → StringMap (StringMap (List CustomAttributeConfig))
    → Bool
equal_custom_attributes = equal_maps (equal_maps (equal_lists equal_rules))

abbrev pub equal_buckets : List Float64 → List Float64 → Bool
equal_buckets = equal_lists feq
