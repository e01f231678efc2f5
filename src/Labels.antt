-- ===== src/Labels.antt =====
-- The labels of the latency histogram: applyPromConventions of assertsprocessor/utils.go,
-- getAttributesAsLabels and buildLabels of assertsprocessor/metric_helper.go, and the label names of
-- registerLatencyHistogram in assertsprocessor/metrics.go.
pub mod Agreement
pub mod Clean
use Prim.Native.Char.{Char, code}
use Prim.Native.String.{compare}
use text.Mathlib.Text.{is_le}
use asserts_otel_processor.Base.{
  ℕ, Bool, false, ◌||◌, String, List, [], ◌∷◌, ◌++◌, map, Option, none, some, if◌then◌else◌, ◌==◌,
}
use asserts_otel_processor.Base.Maps.{StringMap, lookup, insert}
use asserts_otel_processor.Platform.{Platform}
use asserts_otel_processor.Span.{Value, Span, get_attribute, as_string_or_empty}
use asserts_otel_processor.Config.{Config}
use asserts_otel_processor.SpanEnrichment.{
  error_type_attribute, request_type_attribute, request_context_attribute,
}

abbrev pub occurs : ℕ → List ℕ → Bool
occurs c [] = false
occurs c (d ∷ ds) = c == d || occurs c ds

-- The characters that the replacer turns into an underscore; 8220 is a left quotation mark.
abbrev pub replaced : List ℕ
replaced = b' ' ∷ b',' ∷ 9 ∷ b'/' ∷ 92 ∷ b'.' ∷ b'-' ∷ b':' ∷ b'=' ∷ 8220 ∷ b'@' ∷ b'<' ∷ b'>' ∷ []

abbrev append : String → String → String
append String.[] t = t
append (String.◌∷◌ c s) t = String.◌∷◌ c (append s t)

-- All that is replaced is a single character, so the replacer works on each for itself.
unfoldable pub replace : String → String
replace String.[] = String.[]
replace (String.◌∷◌ c s) =
    let rest = replace s in
    if code c == b'%'
    then append "_percent" rest
    else if occurs (code c) replaced
    then String.◌∷◌ "_" rest
    else String.◌∷◌ c rest

-- `sort.Strings`, which compares texts by their bytes, as code points are.
abbrev insert_sorted : String → List String → List String
insert_sorted s [] = s ∷ []
insert_sorted s (t ∷ ts) =
    let rest = insert_sorted s ts in if is_le (compare s t) then s ∷ t ∷ ts else t ∷ rest

abbrev pub sort_strings : List String → List String
sort_strings [] = []
sort_strings (s ∷ ss) = insert_sorted s (sort_strings ss)

unfoldable pub get_attributes_as_labels : Config → List String
get_attributes_as_labels config =
    config.capture_attributes_in_metric
    ++ request_type_attribute ∷ request_context_attribute ∷ error_type_attribute ∷ []

-- The attribute of the span, else of the resource.
unfoldable pub captured : String → Span → StringMap Value → String
captured name span resource = elim (get_attribute name span) [
  | some v ↦ v.as_string
  | none ↦ as_string_or_empty (lookup name resource)
]

-- The labels that the map has when it is made.
abbrev pub common_labels : Config → String → String → StringMap String
common_labels config namespace service =
    ("asserts_env", config.env)
    ∷ ("asserts_site", config.site)
    ∷ ("namespace", namespace)
    ∷ ("service", service)
    ∷ []

module _ (rt : Platform) where
  -- `strings.ToLower`, character by character.
  abbrev pub to_lower : String → String
  to_lower String.[] = String.[]
  to_lower (String.◌∷◌ c s) = String.◌∷◌ (rt.lower c) (to_lower s)

  unfoldable pub apply_prom_conventions : String → String
  unfolding replace
  apply_prom_conventions text = to_lower (replace text)

  -- The loop of buildLabels.
  unfoldable pub add_captured :
      List String → Span → StringMap Value → StringMap String → StringMap String
  unfolding captured apply_prom_conventions
  add_captured [] span resource labels = labels
  add_captured (name ∷ names) span resource labels =
      add_captured names span resource
        (insert (apply_prom_conventions name) (captured name span resource) labels)

  -- The resource is given by its attributes.
  unfoldable pub build_labels : Config → String → String → Span → StringMap Value → StringMap String
  unfolding add_captured get_attributes_as_labels
  build_labels config namespace service span resource =
      let labels = common_labels config namespace service in
      let all = add_captured (get_attributes_as_labels config) span resource labels in
      insert "status_code" (rt.status_string span.status)
        (insert "span_kind" (rt.kind_string span.kind) all)

  -- The names with which the histogram is registered, given the attributes to capture.
  unfoldable pub span_metric_labels : List String → List String
  unfolding apply_prom_conventions
  span_metric_labels attributes = sort_strings (
      "asserts_env"
      ∷ "asserts_site"
      ∷ "namespace"
      ∷ "service"
      ∷ "span_kind"
      ∷ "status_code"
      ∷ map apply_prom_conventions attributes)
