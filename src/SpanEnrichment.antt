-- ===== src/SpanEnrichment.antt =====
-- assertsprocessor/span_enrichment.go: the attributes that the processor adds to a span.
pub mod Laws
pub mod Compilation
mod Tests
use asserts_otel_processor.Base.{
  ℕ, Bool, true, false, not, String, List, [], ◌∷◌, map, Option, none, some, if◌then◌else◌, str_eq,
  ◌>>=◌, ltb, length,
}
use asserts_otel_processor.Base.Maps.{StringMap, lookup, insert}
use asserts_otel_processor.Platform.{Platform}
use asserts_otel_processor.Span.{
  Value, Span, SpanKind, unspecified, internal, server, client, producer, consumer, unknown,
  get_attribute, put_str,
}
use asserts_otel_processor.Config.{Config, SpanAttribute, SpanAttributeConfig, get_key, first_error}
use asserts_otel_processor.Config.Equality.{equal_span_attributes, equal_custom_attributes}
use asserts_otel_processor.CustomAttribute.{
  CustomAttributeConfig, ValidationError, Compiled, validate, compile, get_custom_attribute,
}
use asserts_otel_processor.Keys.{get_service_key}

abbrev pub error_type_attribute : String
error_type_attribute = "asserts.error.type"

abbrev pub request_type_attribute : String
request_type_attribute = "asserts.request.type"

abbrev pub request_context_attribute : String
request_context_attribute = "asserts.request.context"

unfoldable pub put_request_type : SpanKind → Span → Span
put_request_type client span = put_str request_type_attribute "outbound" span
put_request_type producer span = put_str request_type_attribute "outbound" span
put_request_type server span = put_str request_type_attribute "inbound" span
put_request_type consumer span = put_str request_type_attribute "inbound" span
put_request_type internal span = put_str request_type_attribute "internal" span
put_request_type _ span = span

unfoldable pub add_request_type : Span → Span
unfolding put_request_type
add_request_type span = put_request_type span.kind span

-- The span's name becomes the request context if no context was added.
unfoldable pub ensure_context : Option Value → Span → Span
ensure_context (some v) s = s
ensure_context none s = put_str request_context_attribute s.name s

abbrev or_lookup {ℓ} : {V : Type ℓ} → Option V → String → StringMap V → Option V
or_lookup (some v) k m = some v
or_lookup none k m = lookup k m

module _ (rt : Platform) where
  -- The compiled rules of one target attribute by service key. A slice that the compilation stored
  -- is never nil, so `none` is the nil of a missing key.
  abbrev pub ByServiceKey : Type 0
  ByServiceKey = StringMap (List (Compiled rt))

  unfoldable pub get_attr_configs : ByServiceKey → String → String → Option (List (Compiled rt))
  get_attr_configs cfg ns svc =
      or_lookup (or_lookup (lookup (get_service_key ns svc) cfg) ns cfg) svc cfg

  -- The loop over rules that breaks at the first non-empty value. `none` is a panic.
  unfoldable pub first_value : List (Compiled rt) → Span → String → Option String
  first_value [] span last = some last
  first_value (c ∷ cs) span last = do
    v ← get_custom_attribute rt c span
    let rest = first_value cs span v
    if str_eq v "" then rest else some v

  abbrev values_of : Option (List (Compiled rt)) → Span → Option String
  values_of none span = some ""
  values_of (some cs) span = first_value cs span ""

  unfoldable pub target_value : ByServiceKey → String → String → Span → Option String
  unfolding get_attr_configs first_value
  target_value by_key ns svc span = do
    v ← values_of (get_attr_configs by_key ns svc) span
    let fallback = values_of (lookup "default" by_key) span
    if str_eq v "" then fallback else some v

  -- The loop over the target attributes, in the order in which the map is iterated over.
  unfoldable pub enrich_targets : StringMap ByServiceKey → String → String → Span → Option Span
  unfolding target_value
  enrich_targets [] ns svc span = some span
  enrich_targets ((target, by_key) ∷ rest) ns svc span = do
    v ← target_value by_key ns svc span
    enrich_targets rest ns svc (if str_eq v "" then span else put_str target v span)

  unfoldable pub enrich_span : StringMap ByServiceKey → String → String → Span → Option Span
  unfolding enrich_targets add_request_type ensure_context
  enrich_span custom_attributes ns svc span = do
    s ← enrich_targets custom_attributes ns svc (add_request_type span)
    some (ensure_context (get_attribute request_context_attribute s) s)

-- `isUpdated`: if the new configuration has span attributes these are compared, and otherwise the
-- custom attributes.
unfoldable pub is_updated : Config → Config → Bool
is_updated curr new =
    if ltb 0 (length new.span_attributes)
    then not (equal_span_attributes curr.span_attributes new.span_attributes)
    else not (equal_custom_attributes curr.custom_attribute_configs new.custom_attribute_configs)

-- The outcome of a compilation: the compiled rules or the error of a rule.
pub data Outcome {ℓ} (A : Type ℓ) : Type ℓ where
  done : A → Outcome A
  failed : ValidationError → Outcome A

abbrev pub keyed_rules : SpanAttribute → String × List (String × List CustomAttributeConfig)
keyed_rules a =
    (a.attribute_name, map (λ (c : SpanAttributeConfig). (get_key c, c.rules)) a.attribute_configs)

module _ (rt : Platform) where
  -- The loop over the service keys of one target; the rules of a key are validated first.
  unfoldable pub compile_by_key :
      String
      → List (String × List CustomAttributeConfig)
      → ByServiceKey rt
      → Outcome (ByServiceKey rt)
  compile_by_key target [] acc = done acc
  compile_by_key target ((key, rules) ∷ r) acc =
      let rest = compile_by_key target r (insert key (map (compile rt) rules) acc) in
      elim (first_error (λ c. validate rt c target key) rules) [ some e ↦ failed e | none ↦ rest ]

  -- The loop over the targets: a target starts from an empty map, also where its name comes twice.
  unfoldable pub compile_targets :
      List (String × List (String × List CustomAttributeConfig))
      → StringMap (ByServiceKey rt)
      → Outcome (StringMap (ByServiceKey rt))
  compile_targets [] acc = done acc
  compile_targets ((target, by_key) ∷ r) acc = elim (compile_by_key target by_key []) [
    | failed e ↦ failed e
    | done m ↦ compile_targets r (insert target m acc)
  ]

  unfoldable pub compile_custom_attributes : Config → Outcome (StringMap (ByServiceKey rt))
  unfolding compile_targets compile_by_key
  compile_custom_attributes config = compile_targets config.custom_attribute_configs []

  unfoldable pub compile_span_attributes : Config → Outcome (StringMap (ByServiceKey rt))
  unfolding compile_targets compile_by_key
  compile_span_attributes config = compile_targets (map keyed_rules config.span_attributes) []

  unfoldable pub build_compiled_config : Config → Outcome (StringMap (ByServiceKey rt))
  unfolding compile_span_attributes compile_custom_attributes
  build_compiled_config config =
      if ltb 0 (length config.span_attributes)
      then compile_span_attributes config
      else compile_custom_attributes config

  pub record SpanEnrichmentProcessor : Type 0 where
    pub custom_attributes : StringMap (ByServiceKey rt)

  abbrev pub with_rules : Outcome (StringMap (ByServiceKey rt)) → Outcome SpanEnrichmentProcessor
  with_rules (done m) = done (record { custom_attributes = m })
  with_rules (failed e) = failed e

  unfoldable pub build_enrichment_processor : Config → Outcome SpanEnrichmentProcessor
  unfolding build_compiled_config
  build_enrichment_processor config = with_rules (build_compiled_config config)

  -- `onSpanAttributesUpdate` and `onCustomAttributeConfigsUpdate` after their compilation.
  abbrev pub accept :
      SpanEnrichmentProcessor
      → Outcome (StringMap (ByServiceKey rt))
      → SpanEnrichmentProcessor × Option ValidationError
  accept ep (done m) = (record ep { custom_attributes = m }, none)
  accept ep (failed e) = (ep, some e)

  unfoldable pub on_update :
      SpanEnrichmentProcessor → Config → SpanEnrichmentProcessor × Option ValidationError
  unfolding compile_span_attributes compile_custom_attributes
  on_update ep new_config =
      if ltb 0 (length new_config.span_attributes)
      then accept ep (compile_span_attributes new_config)
      else accept ep (compile_custom_attributes new_config)
