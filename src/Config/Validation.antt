-- ===== src/Config/Validation.antt =====
-- What a validated configuration guarantees.
use asserts_otel_processor.Base.{
  ◌≡◌, refl, ◌≢◌, ◌↔◌, false, String, List, [], ◌∷◌, map, Option, none, some, arith, All, eq_iff,
}
use asserts_otel_processor.Base.Int.{ltb_ℤ}
use asserts_otel_processor.Base.Maps.{StringMap}
use asserts_otel_processor.Platform.{Platform}
use asserts_otel_processor.CustomAttribute.{CustomAttributeConfig, validate}
use asserts_otel_processor.Config.{
  SpanAttribute, Config, first_error, get_key, validate_custom_attributes, validate_span_attributes,
  validate_config,
}

pub first_error-All {ℓ κ μ} :
    {A : Type ℓ} {E : Type κ} (P : A → Type μ) (check : A → Option E)
    → ((x : A) → check x ≡ none → P x)
    → (xs : List A) → first_error check xs ≡ none
    → All P xs
first_error-All P check h [] e = tt
first_error-All P check h (x ∷ xs) e =
    (h x (ground (arith, e)), first_error-All P check h xs (ground (arith, e)))

All-first_error {ℓ κ μ} :
    {A : Type ℓ} {E : Type κ} (P : A → Type μ) (check : A → Option E)
    → ((x : A) → P x → check x ≡ none)
    → (xs : List A) → All P xs
    → first_error check xs ≡ none
All-first_error P check h [] a = refl
All-first_error P check h (x ∷ xs) a = rw (h x a.0, first_error) (All-first_error P check h xs a.1)

pub first_error-map {ℓ κ μ} :
    {A : Type ℓ} {B : Type κ} {E : Type μ} (check : B → Option E) (g : A → B) (xs : List A)
    → first_error check (map g xs) ≡ first_error (λ x. check (g x)) xs
first_error-map check g [] = refl
first_error-map check g (x ∷ xs) =
    λ i. elim (check (g x)) [ none ↦ first_error-map check g xs i | some e ↦ some e ]

module _ (rt : Platform) where
  abbrev pub IsAccepted : String → String → CustomAttributeConfig → Type 0
  IsAccepted target key c = validate rt c target key ≡ none

  -- Every rule is accepted, under its target attribute and service key.
  abbrev pub AllAccepted : StringMap (StringMap (List CustomAttributeConfig)) → Type 0
  AllAccepted = All λ t. All (λ k. All (IsAccepted t.0 k.0) k.1) t.1

  abbrev pub AllAttributesAccepted : List SpanAttribute → Type 0
  AllAttributesAccepted =
      All λ a. All (λ c. All (IsAccepted a.attribute_name (get_key c)) c.rules) a.attribute_configs

  pub validate_custom_attributes_iff :
      (m : StringMap (StringMap (List CustomAttributeConfig)))
      → (validate_custom_attributes rt m ≡ none) ↔ AllAccepted m
  unfolding validate_custom_attributes
  validate_custom_attributes_iff m = (
    first_error-All _ _ (λ t. first_error-All _ _ (λ k. first_error-All _ _ (λ c h. h) k.1) t.1) m,
    All-first_error _ _ (λ t. All-first_error _ _ (λ k. All-first_error _ _ (λ c h. h) k.1) t.1) m,
  )

  pub validate_span_attributes_iff :
      (l : List SpanAttribute) → (validate_span_attributes rt l ≡ none) ↔ AllAttributesAccepted l
  unfolding validate_span_attributes
  validate_span_attributes_iff l = (
    first_error-All _ _
        (λ a. first_error-All _ _ (λ c. first_error-All _ _ (λ r h. h) c.rules) a.attribute_configs)
        l,
    All-first_error _ _
        (λ a. All-first_error _ _ (λ c. All-first_error _ _ (λ r h. h) c.rules) a.attribute_configs)
        l,
  )

  -- Validation accepts exactly the configurations with a non-empty env, rules that are all accepted,
  -- and a limit per service that is no less than the limit per request.
  pub validate_config_iff :
      (c : Config)
      → (validate_config rt c ≡ none) ↔ (
          (c.env ≢ "")
          × AllAccepted c.custom_attribute_configs
          × AllAttributesAccepted c.span_attributes
          × (ltb_ℤ c.limit_per_service c.limit_per_request_per_service ≡ false))
  unfolding validate_config
  validate_config_iff c = (
    λ e. (
      ground (arith, e, eq_iff c.env ""),
      (validate_custom_attributes_iff c.custom_attribute_configs).0 (ground (arith, e)),
      (validate_span_attributes_iff c.span_attributes).0 (ground (arith, e)),
      ground (arith, e),
    ),
    λ (env, custom, spans, order).
        let p = (validate_custom_attributes_iff c.custom_attribute_configs).1 custom in
        let q = (validate_span_attributes_iff c.span_attributes).1 spans in
        ground (arith, env, p, q, order, eq_iff c.env ""),
  )
