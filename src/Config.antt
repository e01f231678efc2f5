-- ===== src/Config.antt =====
-- assertsprocessor/config.go: the configuration and its validation, and `getKey` of
-- assertsprocessor/span_enrichment.go. The slices of pointers are lists of values: that an element is
-- null in a configuration is not modelled.
pub mod Validation
pub mod Equality
pub mod Sample
use asserts_otel_processor.Base.{
  ℕ, Bool, String, List, [], ◌∷◌, Option, none, some, if◌then◌else◌, str_eq,
}
use asserts_otel_processor.Base.Int.{ℤ, ltb_ℤ}
use asserts_otel_processor.Base.Maps.{StringMap}
use asserts_otel_processor.Float.{Float64}
use asserts_otel_processor.Platform.{Platform}
use asserts_otel_processor.CustomAttribute.{CustomAttributeConfig, ValidationError, validate, join}

pub record SpanAttributeConfig : Type 0 where
  pub namespace : String
  pub service : String
  pub rules : List CustomAttributeConfig

pub record SpanAttribute : Type 0 where
  pub attribute_name : String
  pub attribute_configs : List SpanAttributeConfig

pub record Config : Type 0 where
  pub asserts_server : StringMap String
  pub env : String
  pub site : String
  pub asserts_tenant : String
  pub capture_metrics : Bool
  pub custom_attribute_configs : StringMap (StringMap (List CustomAttributeConfig))
  pub span_attributes : List SpanAttribute
  pub capture_attributes_in_metric : List String
  pub default_latency_threshold : Float64
  pub latency_histogram_buckets : List Float64
  pub ignore_client_errors : Bool
  pub sample_traces : Bool
  pub limit_per_service : ℤ
  pub limit_per_request_per_service : ℤ
  pub request_context_cache_ttl : ℤ
  pub normal_sampling_frequency_minutes : ℤ
  pub prometheus_exporter_port : ℕ
  pub trace_flush_frequency_seconds : ℤ

-- The parts that are not empty.
abbrev nonempty : List String → List String
nonempty [] = []
nonempty (p ∷ ps) = let rest = nonempty ps in if str_eq p "" then rest else p ∷ rest

unfoldable pub get_key : SpanAttributeConfig → String
get_key c =
    let service_key = join "#" (nonempty (c.namespace ∷ c.service ∷ [])) in
    if str_eq service_key "" then "default" else service_key

-- The first error of a loop that returns on one.
abbrev pub first_error {ℓ κ} : {A : Type ℓ} {E : Type κ} → (A → Option E) → List A → Option E
first_error check [] = none
first_error check (x ∷ xs) = elim (check x) [ none ↦ first_error check xs | some e ↦ some e ]

-- What is wrong with a configuration: an error of a rule, or limits in the wrong order.
pub data ConfigError : Type 0 where
  rule : ValidationError → ConfigError
  limits : ℤ → ℤ → ConfigError

module _ (rt : Platform) where
  -- The loops over `CustomAttributeConfigs`, in the order in which the maps are iterated over.
  unfoldable pub validate_custom_attributes :
      StringMap (StringMap (List CustomAttributeConfig)) → Option ValidationError
  validate_custom_attributes = first_error λ (target, by_key).
      first_error (λ (key, configs). first_error (λ c. validate rt c target key) configs) by_key

  unfoldable pub validate_span_attributes : List SpanAttribute → Option ValidationError
  validate_span_attributes = first_error λ a.
      first_error (λ c. first_error (λ r. validate rt r a.attribute_name (get_key c)) c.rules)
        a.attribute_configs

  unfoldable pub validate_config : Config → Option ConfigError
  validate_config config =
      if str_eq config.env ""
      then some (rule ValidationError.env_missing)
      else elim (validate_custom_attributes config.custom_attribute_configs) [
        | some e ↦ some (rule e)
        | none ↦ elim (validate_span_attributes config.span_attributes) [
          | some e ↦ some (rule e)
          | none ↦
              if ltb_ℤ config.limit_per_service config.limit_per_request_per_service
              then some (limits config.limit_per_service config.limit_per_request_per_service)
              else none
        ]
      ]
