-- ===== src/SpanEnrichment/Compilation.antt =====
-- Compiling and updating the rules: the errors, and that compiled rules never panic.
use mathlib.Core.Path.{fun_ext}
use asserts_otel_processor.Base.{
  ◌≡◌, refl, sym, ◌≢◌, ◌∙◌, ap, String, List, [], ◌∷◌, map, Option, none, some, arith, All,
  if◌then◌else◌, length, ltb, inl, inr, Bool-cases,
}
use asserts_otel_processor.Base.Maps.{StringMap, insert, All-insert}
use asserts_otel_processor.Platform.{Platform}
use asserts_otel_processor.Config.{
  Config, first_error, validate_custom_attributes, validate_span_attributes,
}
use asserts_otel_processor.Config.Validation.{first_error-All, first_error-map}
use asserts_otel_processor.CustomAttribute.{
  CustomAttributeConfig, ValidationError, validate, compile,
}
use asserts_otel_processor.CustomAttribute.Laws.{get_custom_attribute-compile}
use asserts_otel_processor.SpanEnrichment.{
  ByServiceKey, Outcome, done, failed, compile_by_key, compile_targets, keyed_rules,
  compile_custom_attributes, compile_span_attributes, SpanEnrichmentProcessor, accept, on_update,
  with_rules, build_compiled_config, build_enrichment_processor,
}
use asserts_otel_processor.SpanEnrichment.Laws.{Runs, IsSoundFor, IsSound}

abbrev pub error_of {ℓ} : {A : Type ℓ} → Outcome A → Option ValidationError
error_of (done a) = none
error_of (failed e) = some e

module _ (rt : Platform) where
  abbrev key_error : String → String × List CustomAttributeConfig → Option ValidationError
  key_error target (key, rules) = first_error (λ c. validate rt c target key) rules

  abbrev target_error : String × List (String × List CustomAttributeConfig) → Option ValidationError
  target_error (target, by_key) = first_error (key_error target) by_key

  error_of-compile_by_key :
      (target : String) (l : List (String × List CustomAttributeConfig)) (acc : ByServiceKey rt)
      → error_of (compile_by_key rt target l acc) ≡ first_error (key_error target) l
  unfolding compile_by_key
  error_of-compile_by_key target [] acc = refl
  error_of-compile_by_key target ((key, rules) ∷ r) acc =
      ground (arith, error_of-compile_by_key target r (insert key (map (compile rt) rules) acc))

  error_of-compile_targets :
      (l : List (String × List (String × List CustomAttributeConfig)))
      (acc : StringMap (ByServiceKey rt))
      → error_of (compile_targets rt l acc) ≡ first_error target_error l
  unfolding compile_targets
  error_of-compile_targets [] acc = refl
  error_of-compile_targets ((target, by_key) ∷ r) acc =
      step (compile_by_key rt target by_key []) (error_of-compile_by_key target by_key [])
        (λ m. error_of-compile_targets r (insert target m acc))
    where
      step :
          (o : Outcome (ByServiceKey rt))
          → error_of o ≡ first_error (key_error target) by_key
          → ((m : ByServiceKey rt)
              → error_of (compile_targets rt r (insert target m acc)) ≡ first_error target_error r)
          → error_of
              (elim o [ failed e ↦ failed e | done m ↦ compile_targets rt r (insert target m acc) ])
            ≡ first_error target_error ((target, by_key) ∷ r)
      step (failed e) h ih = rw (sym h, first_error)
      step (done m) h ih = rw (sym h, first_error) (ih m)

  validated-Runs :
      (target key : String) (c : CustomAttributeConfig)
      → validate rt c target key ≡ none
      → Runs rt (compile rt c)
  validated-Runs target key c h span =
      let (re, e, value) = get_custom_attribute-compile rt c target key span h in (_, value)

  All-map-Runs :
      (target key : String) (rules : List CustomAttributeConfig)
      → All (λ c. validate rt c target key ≡ none) rules
      → All (Runs rt) (map (compile rt) rules)
  All-map-Runs target key [] h = tt
  All-map-Runs target key (c ∷ rules) h =
      (validated-Runs target key c h.0, All-map-Runs target key rules h.1)

  abbrev pub Sound {ℓ κ} : {A : Type ℓ} → (A → Type κ) → Outcome A → Type κ
  Sound P (done m) = P m
  Sound P (failed e) = Unit

  Sound-unless_error {ℓ κ} :
      {A : Type ℓ} (P : A → Type κ) (o : Option ValidationError) (rest : Outcome A)
      → (o ≡ none → Sound P rest)
      → Sound P (elim o [ some e ↦ failed e | none ↦ rest ])
  Sound-unless_error P none rest h = h refl
  Sound-unless_error P (some e) rest h = tt

  compile_by_key-IsSoundFor :
      (target : String) (l : List (String × List CustomAttributeConfig)) (acc : ByServiceKey rt)
      → IsSoundFor rt acc
      → Sound (IsSoundFor rt) (compile_by_key rt target l acc)
  unfolding compile_by_key
  compile_by_key-IsSoundFor target [] acc h = h
  compile_by_key-IsSoundFor target ((key, rules) ∷ r) acc h =
      Sound-unless_error (IsSoundFor rt) (key_error target (key, rules)) _ λ ok.
        compile_by_key-IsSoundFor target r (insert key (map (compile rt) rules) acc) (
          All-insert _ key _ acc
            (All-map-Runs target key rules (first_error-All _ _ (λ c e. e) rules ok)) h)

  compile_targets-IsSound :
      (l : List (String × List (String × List CustomAttributeConfig)))
      (acc : StringMap (ByServiceKey rt))
      → IsSound rt acc
      → Sound (IsSound rt) (compile_targets rt l acc)
  unfolding compile_targets
  compile_targets-IsSound [] acc h = h
  compile_targets-IsSound ((target, by_key) ∷ r) acc h =
      step (compile_by_key rt target by_key []) (compile_by_key-IsSoundFor target by_key [] tt)
        (λ m p. compile_targets-IsSound r (insert target m acc) (All-insert _ target m acc p h))
    where
      step :
          (o : Outcome (ByServiceKey rt))
          → Sound (IsSoundFor rt) o
          → ((m : ByServiceKey rt)
              → IsSoundFor rt m
              → Sound (IsSound rt) (compile_targets rt r (insert target m acc)))
          → Sound
              (IsSound rt)
              (elim o [ failed e ↦ failed e | done m ↦ compile_targets rt r (insert target m acc) ])
      step (failed e) p k = tt
      step (done m) p k = k m p

  -- Compiling fails exactly where validating does, with the same error.
  pub error_of-compile_custom_attributes :
      (config : Config)
      → error_of (compile_custom_attributes rt config)
        ≡ validate_custom_attributes rt config.custom_attribute_configs
  unfolding compile_custom_attributes validate_custom_attributes
  error_of-compile_custom_attributes config =
      error_of-compile_targets config.custom_attribute_configs []

  pub error_of-compile_span_attributes :
      (config : Config)
      → error_of (compile_span_attributes rt config)
        ≡ validate_span_attributes rt config.span_attributes
  unfolding compile_span_attributes validate_span_attributes
  error_of-compile_span_attributes config =
      error_of-compile_targets (map keyed_rules config.span_attributes) []
      ∙ first_error-map target_error keyed_rules config.span_attributes
      ∙ ap (λ f. first_error f config.span_attributes)
          (fun_ext λ a. first_error-map (key_error a.attribute_name) _ a.attribute_configs)

  -- The rules of a configuration that are in use: the span attributes, if there are any.
  abbrev pub rule_error : Config → Option ValidationError
  rule_error config =
      if ltb 0 (length config.span_attributes)
      then validate_span_attributes rt config.span_attributes
      else validate_custom_attributes rt config.custom_attribute_configs

  abbrev IsSoundProcessor : SpanEnrichmentProcessor rt → Type 0
  IsSoundProcessor ep = IsSound rt ep.custom_attributes

  accept-error :
      (ep : SpanEnrichmentProcessor rt) (o : Outcome (StringMap (ByServiceKey rt)))
      → (accept rt ep o).1 ≡ error_of o
  accept-error ep (done m) = refl
  accept-error ep (failed e) = refl

  accept-failed :
      (ep : SpanEnrichmentProcessor rt) (o : Outcome (StringMap (ByServiceKey rt)))
      → error_of o ≢ none
      → (accept rt ep o).0 ≡ ep
  accept-failed ep (done m) h = absurd (h refl)
  accept-failed ep (failed e) h = refl

  accept-IsSound :
      (ep : SpanEnrichmentProcessor rt) (o : Outcome (StringMap (ByServiceKey rt)))
      → IsSound rt ep.custom_attributes
      → Sound (IsSound rt) o
      → IsSound rt (accept rt ep o).0.custom_attributes
  accept-IsSound ep (done m) h p = p
  accept-IsSound ep (failed e) h p = h

  -- An update reports exactly the error that validation finds in the rules of the new configuration
  -- that are in use, or none.
  pub on_update-error :
      (ep : SpanEnrichmentProcessor rt) (config : Config)
      → (on_update rt ep config).1 ≡ rule_error config
  unfolding on_update
  on_update-error ep config = elim (Bool-cases (ltb 0 (length config.span_attributes))) [
    | inl e ↦ rw e (accept-error ep _ ∙ error_of-compile_span_attributes config)
    | inr e ↦ rw e (accept-error ep _ ∙ error_of-compile_custom_attributes config)
  ]

  -- An update with an invalid rule leaves the processor's rules as they were.
  pub on_update-rejected :
      (ep : SpanEnrichmentProcessor rt) (config : Config)
      → rule_error config ≢ none
      → (on_update rt ep config).0 ≡ ep
  unfolding on_update
  on_update-rejected ep config bad = elim (Bool-cases (ltb 0 (length config.span_attributes))) [
    | inl e ↦
        rw e (
          accept-failed ep _ λ f. (rw e at bad) (sym (error_of-compile_span_attributes config) ∙ f))
    | inr e ↦ rw e (
        accept-failed ep _ λ f. (rw e at bad) (sym (error_of-compile_custom_attributes config) ∙ f))
  ]

  compile_span_attributes-Sound : (c : Config) → Sound (IsSound rt) (compile_span_attributes rt c)
  unfolding compile_span_attributes
  compile_span_attributes-Sound c =
      compile_targets-IsSound (map keyed_rules c.span_attributes) [] tt

  compile_custom_attributes-Sound :
      (c : Config) → Sound (IsSound rt) (compile_custom_attributes rt c)
  unfolding compile_custom_attributes
  compile_custom_attributes-Sound c = compile_targets-IsSound c.custom_attribute_configs [] tt

  build_compiled_config-IsSound :
      (config : Config) → Sound (IsSound rt) (build_compiled_config rt config)
  unfolding build_compiled_config
  build_compiled_config-IsSound config = elim (Bool-cases (ltb 0 (length config.span_attributes))) [
    | inl e ↦ rw e (compile_span_attributes-Sound config)
    | inr e ↦ rw e (compile_custom_attributes-Sound config)
  ]

  build_compiled_config-error :
      (config : Config) → error_of (build_compiled_config rt config) ≡ rule_error config
  unfolding build_compiled_config
  build_compiled_config-error config = elim (Bool-cases (ltb 0 (length config.span_attributes))) [
    | inl e ↦ rw e (error_of-compile_span_attributes config)
    | inr e ↦ rw e (error_of-compile_custom_attributes config)
  ]

  -- The rules that are built do not panic, and building fails exactly where validating does.
  pub build_enrichment_processor-IsSound :
      (config : Config)
      → Sound IsSoundProcessor (build_enrichment_processor rt config)
        × (error_of (build_enrichment_processor rt config) ≡ rule_error config)
  unfolding build_enrichment_processor
  build_enrichment_processor-IsSound config =
      go (build_compiled_config rt config) (build_compiled_config-IsSound config)
        (build_compiled_config-error config)
    where
      go :
          (o : Outcome (StringMap (ByServiceKey rt)))
          → Sound (IsSound rt) o
          → error_of o ≡ rule_error config
          → Sound IsSoundProcessor (with_rules rt o)
            × (error_of (with_rules rt o) ≡ rule_error config)
      go (done m) h e = (h, e)
      go (failed f) h e = (tt, e)

  -- Whatever the new configuration, rules that do not panic on any span before an update do not panic
  -- after it.
  pub on_update-IsSound :
      (ep : SpanEnrichmentProcessor rt) (config : Config)
      → IsSound rt ep.custom_attributes
      → IsSound rt (on_update rt ep config).0.custom_attributes
  unfolding on_update
  on_update-IsSound ep config h = elim (Bool-cases (ltb 0 (length config.span_attributes))) [
    | inl e ↦ rw e (accept-IsSound ep _ h (compile_span_attributes-Sound config))
    | inr e ↦ rw e (accept-IsSound ep _ h (compile_custom_attributes-Sound config))
  ]
