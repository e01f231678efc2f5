-- ===== src/SpanEnrichment/Tests.antt =====
-- Runs of enrichment on concrete spans, and the theorems on rules at inputs that meet their hypotheses.
use asserts_otel_processor.Base.{
  ◌+◌, ◌^◌, ◌≡◌, refl, ◌≢◌, ◌↔◌, eq_iff, true, false, String, [], ◌∷◌, none, some, arith, Yields,
  if◌then◌else◌,
}
use asserts_otel_processor.Base.Int.{ltb_ℤ}
use asserts_otel_processor.Base.Maps.{StringMap, lookup}
use asserts_otel_processor.Platform.Sample.{sample_platform}
use asserts_otel_processor.Span.{Span, Value, server, unset, get_attribute, elapsed_nanos}
use asserts_otel_processor.Config.{Config, validate_config, validate_custom_attributes}
use asserts_otel_processor.Config.Sample.{sample_config}
use asserts_otel_processor.Config.Validation.{
  AllAccepted, AllAttributesAccepted, validate_config_iff,
}
use asserts_otel_processor.CustomAttribute.{
  CustomAttributeConfig, has_empty, validate, compile, get_custom_attribute, join,
}
use asserts_otel_processor.CustomAttribute.Laws.{
  contains, kinds_or_server, matched, replacement_or_group, all_values,
  get_custom_attribute-compile, validate_iff,
}
use asserts_otel_processor.Span.Latency.{elapsed_nanos_wraps}
use asserts_otel_processor.Keys.{get_service_key}
use asserts_otel_processor.SpanEnrichment.{
  request_type_attribute, request_context_attribute, SpanEnrichmentProcessor, ByServiceKey,
  target_value, enrich_span, on_update,
}
use asserts_otel_processor.SpanEnrichment.Laws.{
  IsSoundFor, IsSound, bare, value_for, target_value_lem, enrich_span-frame,
}
use asserts_otel_processor.SpanEnrichment.Compilation.{
  rule_error, on_update-error, on_update-IsSound,
}

abbrev url_rule : CustomAttributeConfig
url_rule = record {
  span_kinds = [];
  source_attributes = "http.url" ∷ [];
  reg_exp = "https";
  replacement = "";
}

abbrev text : String → Value
text t = record { str = t; as_string = t }

abbrev request : Span
request = record {
  trace_id = "t1";
  is_orphan = true;
  name = "GET /";
  kind = server;
  status = unset;
  start_timestamp = 100;
  end_timestamp = 300;
  attributes = ("http.url", text "https://a") ∷ [];
}

abbrev config : Config
config = record sample_config {
  custom_attribute_configs = ("asserts.request.context", ("default", url_rule ∷ []) ∷ []) ∷ [];
}

url_rule-accepted : validate sample_platform url_rule "asserts.request.context" "default" ≡ none
unfolding validate
url_rule-accepted = refl

get_custom_attribute-compile_example :
    (re : String) × (sample_platform.compile_regexp url_rule.reg_exp ≡ some re)
    × (get_custom_attribute sample_platform (compile sample_platform url_rule) request
        ≡ some (
            if contains "Server" (kinds_or_server [])
            then matched sample_platform re
                (replacement_or_group "")
                (all_values ("http.url" ∷ []) request)
            else ""))
get_custom_attribute-compile_example =
    get_custom_attribute-compile sample_platform url_rule "asserts.request.context" "default"
      request url_rule-accepted

validate_iff_example : (validate sample_platform url_rule "a" "b" ≡ none) ↔ (
    (url_rule.reg_exp ≢ "")
    × (url_rule.source_attributes ≢ [])
    × (has_empty url_rule.source_attributes ≡ false)
    × ((re : String) × (sample_platform.compile_regexp url_rule.reg_exp ≡ some re)))
validate_iff_example = validate_iff sample_platform url_rule "a" "b"

validate_config_iff_example : (validate_config sample_platform config ≡ none) ↔ (
    (config.env ≢ "")
    × AllAccepted sample_platform config.custom_attribute_configs
    × AllAttributesAccepted sample_platform config.span_attributes
    × (ltb_ℤ config.limit_per_service config.limit_per_request_per_service ≡ false))
validate_config_iff_example = validate_config_iff sample_platform config

abbrev empty_processor : SpanEnrichmentProcessor sample_platform
empty_processor = record { custom_attributes = [] }

on_update-error_example :
    (on_update sample_platform empty_processor config).1 ≡ rule_error sample_platform config
on_update-error_example = on_update-error sample_platform empty_processor config

abbrev bad_config : Config
bad_config = record config {
  custom_attribute_configs =
      ("user", ("default", record url_rule { reg_exp = "(" } ∷ []) ∷ []) ∷ [];
}

bad_config-error : rule_error sample_platform bad_config ≢ none
unfolding validate_custom_attributes validate
bad_config-error = λ e. cc

abbrev rules : StringMap (ByServiceKey sample_platform)
rules = (on_update sample_platform empty_processor config).0.custom_attributes

on_update-IsSound_example : IsSound sample_platform rules
on_update-IsSound_example = on_update-IsSound sample_platform empty_processor config tt

abbrev user_rules : StringMap (ByServiceKey sample_platform)
user_rules = ("user", []) ∷ []

enrich_span-frame_example :
    Yields
      (λ s'.
        (bare s' ≡ bare request) × (get_attribute "http.url" s' ≡ get_attribute "http.url" request))
      (enrich_span sample_platform user_rules "shop" "cart" request)
enrich_span-frame_example =
    enrich_span-frame sample_platform user_rules "shop" "cart" "http.url" request (tt, tt)
      (ground (arith, eq_iff "user" "http.url"), tt)
      (ground (arith, eq_iff "http.url" request_type_attribute))
      (ground (arith, eq_iff "http.url" request_context_attribute))

abbrev url_rules : ByServiceKey sample_platform
url_rules = ("default", compile sample_platform url_rule ∷ []) ∷ []

url_rules-IsSoundFor : IsSoundFor sample_platform url_rules
url_rules-IsSoundFor = (
  (
    λ span.
        let (re, e, value) =
          get_custom_attribute-compile sample_platform url_rule "a" "default" span
            url_rule-accepted' in
        (_, value),
    tt,
  ),
  tt,
)
  where
    url_rule-accepted' : validate sample_platform url_rule "a" "default" ≡ none
    url_rule-accepted' = unfold validate in refl

target_value_lem_example :
    target_value sample_platform url_rules "shop" "cart" request
    ≡ some (value_for sample_platform url_rules "shop" "cart" request)
target_value_lem_example =
    target_value_lem sample_platform url_rules "shop" "cart" request url_rules-IsSoundFor

-- The rule gives the request its context.
enriched_context : target_value sample_platform url_rules "shop" "cart" request ≡ some "https://a"
unfolding target_value lookup get_custom_attribute compile get_attribute get_service_key join
enriched_context = refl

elapsed_nanos_wraps_example :
    elapsed_nanos (record request { end_timestamp = 60 }) + 100 ≡ 60 + 2 ^ 64
elapsed_nanos_wraps_example =
    elapsed_nanos_wraps (record request { end_timestamp = 60 }) (omega arith) (omega arith)
