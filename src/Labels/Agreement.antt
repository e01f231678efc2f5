-- ===== src/Labels/Agreement.antt =====
-- buildLabels makes exactly the labels that registerLatencyHistogram registers.
use asserts_otel_processor.Base.{
  ℕ, ◌+◌, ◌≤◌, ◌≡◌, refl, min, String, List, [], ◌∷◌, map, arith, if◌then◌else◌, str_eq, eq_iff,
}
use asserts_otel_processor.Base.Maps.{StringMap, insert}
use asserts_otel_processor.Platform.{Platform}
use asserts_otel_processor.Span.{Value, Span}
use asserts_otel_processor.Config.{Config}
use asserts_otel_processor.Labels.{
  common_labels, insert_sorted, sort_strings, get_attributes_as_labels, captured,
  apply_prom_conventions, add_captured, build_labels, span_metric_labels,
}

-- How often a text occurs.
unfoldable pub count : String → List String → ℕ
count s [] = 0
count s (t ∷ ts) = (if str_eq s t then 1 else 0) + count s ts

abbrev pub keys : StringMap String → List String
keys = map λ (e : String × String). e.0

count-insert_sorted :
    (s t : String) (ts : List String) → count s (insert_sorted t ts) ≡ count s (t ∷ ts)
unfolding count
count-insert_sorted s t [] = refl
count-insert_sorted s t (u ∷ ts) = ground (arith, count-insert_sorted s t ts)

count-sort_strings : (s : String) (ts : List String) → count s (sort_strings ts) ≡ count s ts
unfolding count
count-sort_strings s [] = refl
count-sort_strings s (t ∷ ts) =
    omega (arith, count-insert_sorted s t (sort_strings ts), count-sort_strings s ts)

-- A key that is set is there once, if no key was there twice.
count-insert :
    (s k v : String) (m : StringMap String)
    → count s (keys m) ≤ 1
    → count s (keys (insert k v m)) ≡ min 1 (count s (k ∷ keys m))
unfolding count insert
count-insert s k v [] h = ground arith
count-insert s k v ((j, w) ∷ m) h =
    ground (arith, count-insert s k v m, eq_iff s k, eq_iff j k, eq_iff s j)

count-common_labels :
    (s : String) (config : Config) (namespace service : String)
    → count s (keys (common_labels config namespace service)) ≤ 1
unfolding count insert
count-common_labels s config namespace service =
    let env = ("asserts_env", config.env) ∷ [] in
    let site = insert "asserts_site" config.site env in
    let both = insert "namespace" namespace site in
    let one = count-insert s "asserts_site" config.site env (ground arith) in
    let two = count-insert s "namespace" namespace site (omega (arith, one)) in
    omega (arith, count-insert s "service" service both (omega (arith, two)))

module _ (rt : Platform) (s : String) where
  count-add_captured :
      (names : List String) (span : Span) (resource : StringMap Value) (m : StringMap String)
      → count s (keys m) ≤ 1
      → count s (keys (add_captured rt names span resource m))
        ≡ min 1 (count s (map (apply_prom_conventions rt) names) + count s (keys m))
  unfolding count add_captured
  count-add_captured [] span resource m h = omega arith
  count-add_captured (name ∷ names) span resource m h =
      let label = apply_prom_conventions rt name in
      let value = captured name span resource in
      let first = count-insert s label value m h in
      let later =
        count-add_captured names span resource (insert label value m) (omega (arith, first)) in
      omega (arith, first, later)

  -- The labels that buildLabels makes of a span are the names that registerLatencyHistogram registers
  -- for the same configuration, each of them once, and no others, whatever the span and its
  -- resource have.
  pub build_labels-count :
      (config : Config) (namespace service : String) (span : Span) (resource : StringMap Value)
      → count s (keys (build_labels rt config namespace service span resource))
        ≡ min 1 (count s (span_metric_labels rt (get_attributes_as_labels config)))
  unfolding count build_labels span_metric_labels
  build_labels-count config namespace service span resource =
      let labels = common_labels config namespace service in
      let names = get_attributes_as_labels config in
      let all = add_captured rt names span resource labels in
      let four = count-common_labels s config namespace service in
      let attributes =
        count-add_captured names span resource (common_labels config namespace service) four in
      let kind =
        count-insert s "span_kind" (rt.kind_string span.kind) all (omega (arith, attributes)) in
      let status =
        count-insert s "status_code" (rt.status_string span.status)
          (insert "span_kind" (rt.kind_string span.kind) all) (omega (arith, kind)) in
      let sorted = count-sort_strings s (
        "asserts_env"
        ∷ "asserts_site"
        ∷ "namespace"
        ∷ "service"
        ∷ "span_kind"
        ∷ "status_code"
        ∷ map (apply_prom_conventions rt) names) in
      omega (arith, attributes, kind, status, sorted)
