-- ===== src/Traces.antt =====
-- assertsprocessor/trace.go, and convertToTraces, getSegment and buildTrace of
-- assertsprocessor/utils.go. Spans are shared by pointer: segments hold addresses, and a memory gives
-- the span at each address.
pub mod Segments
pub mod Counting
pub mod Grouping
pub mod Partition
pub mod Building
mod Tests
use asserts_otel_processor.Base.{
  ℕ, zero, suc, ◌+◌, Bool, ◌&&◌, String, List, [], ◌∷◌, ◌++◌, map, Option, none, some, length,
  if◌then◌else◌, str_eq,
}
use asserts_otel_processor.Base.Maps.{StringMap, lookup, insert}
use asserts_otel_processor.Float.{Float64, num, zero_place}
use asserts_otel_processor.Span.{
  Value, Span, str_or_empty, is_root_span, is_entry_span, is_exit_span,
}
use asserts_otel_processor.Keys.{RequestKey}

-- The span at each address.
abbrev pub Memory : Type 0
Memory = ℕ → Span

-- `ptrace.ResourceSpans`: the attributes of the resource, and the spans of each scope.
pub record ResourceSpans : Type 0 where
  pub resource : StringMap Value
  pub scope_spans : List (List ℕ)

-- `none` is nil; the cache `non_internal_spans` is filled at its first use.
pub record TraceSegment : Type 0 where
  pub resource_spans : ResourceSpans
  pub namespace : String
  pub service : String
  pub request_key : Option RequestKey
  pub latency : Float64
  pub root_span : Option ℕ
  pub internal_spans : List ℕ
  pub entry_spans : List ℕ
  pub exit_spans : List ℕ
  pub non_internal_spans : Option (List ℕ)

pub record Trace : Type 0 where
  pub segments : List TraceSegment

abbrev pub to_list {ℓ} : {A : Type ℓ} → Option A → List A
to_list none = []
to_list (some a) = a ∷ []

abbrev pub first {ℓ} : {A : Type ℓ} → List A → Option A
first [] = none
first (x ∷ xs) = some x

-- The method returns the spans, and leaves them in the cache.
unfoldable pub get_non_internal_spans : TraceSegment → List ℕ × TraceSegment
get_non_internal_spans ts =
    let spans = to_list ts.root_span ++ (ts.entry_spans ++ ts.exit_spans) in
    elim ts.non_internal_spans [
      | some cached ↦ (cached, ts)
      | none ↦ (spans, record ts { non_internal_spans = some spans })
    ]

unfoldable pub get_main_span : TraceSegment → Option ℕ × TraceSegment
unfolding get_non_internal_spans
get_main_span ts = let (spans, ts') = get_non_internal_spans ts in (first spans, ts')

unfoldable pub get_span_count : TraceSegment → ℕ
get_span_count ts =
    let count = length ts.entry_spans + length ts.exit_spans + length ts.internal_spans in
    elim ts.root_span [ some a ↦ count + 1 | none ↦ count ]

unfoldable pub new_trace : List TraceSegment → Trace
new_trace segments = record { segments = segments }

-- The position of the segment that the source returns a pointer to.
unfoldable pub get_segment : List TraceSegment → String → String → Option ℕ
get_segment [] namespace service = none
get_segment (ts ∷ rest) namespace service =
    let later : Option ℕ = elim (get_segment rest namespace service) [
      | some i ↦ some (suc i)
      | none ↦ none
    ] in
    if str_eq ts.namespace namespace && str_eq ts.service service then some zero else later

-- A write through the pointer to the segment at a position.
unfoldable pub modify : List TraceSegment → ℕ → (TraceSegment → TraceSegment) → List TraceSegment
modify [] i f = []
modify (ts ∷ rest) zero f = f ts ∷ rest
modify (ts ∷ rest) (suc i) f = ts ∷ modify rest i f

unfoldable pub new_segment : ResourceSpans → String → String → TraceSegment
new_segment resources namespace service = record {
  resource_spans = resources;
  namespace = namespace;
  service = service;
  request_key = none;
  latency = num zero_place;
  root_span = none;
  internal_spans = [];
  entry_spans = [];
  exit_spans = [];
  non_internal_spans = none;
}

-- The branches that put a span into its segment; a second root span takes the place of the first.
unfoldable pub add_span : Memory → ℕ → TraceSegment → TraceSegment
add_span mem a ts =
    if is_root_span (mem a)
    then record ts { root_span = some a }
    else if is_entry_span (mem a)
    then record ts { entry_spans = ts.entry_spans ++ a ∷ [] }
    else if is_exit_span (mem a)
    then record ts { exit_spans = ts.exit_spans ++ a ∷ [] }
    else record ts { internal_spans = ts.internal_spans ++ a ∷ [] }

-- The segment of the span's service is found, or made at the end of the list.
unfoldable pub place_span :
    Memory → ResourceSpans → String → String → ℕ → List TraceSegment → List TraceSegment
unfolding add_span get_segment modify new_segment
place_span mem resources namespace service a segments =
    elim (get_segment segments namespace service) [
      | some i ↦ modify segments i (add_span mem a)
      | none ↦ segments ++ add_span mem a (new_segment resources namespace service) ∷ []
    ]

-- The segments of a trace that the map may not have yet.
abbrev pub known_segments : Option Trace → List TraceSegment
known_segments none = []
known_segments (some tr) = tr.segments

-- The loop over the spans of a scope.
unfoldable pub add_spans :
    Memory → ResourceSpans → String → String → List ℕ → StringMap Trace → StringMap Trace
unfolding place_span
add_spans mem resources namespace service [] traces = traces
add_spans mem resources namespace service (a ∷ rest) traces =
    let id = (mem a).trace_id in
    let known = known_segments (lookup id traces) in
    let tr : Trace = record { segments = place_span mem resources namespace service a known } in
    add_spans mem resources namespace service rest (insert id tr traces)

-- The loop over the scopes of a resource.
unfoldable pub add_scopes :
    Memory → ResourceSpans → String → String → List (List ℕ) → StringMap Trace → StringMap Trace
unfolding add_spans
add_scopes mem resources namespace service [] traces = traces
add_scopes mem resources namespace service (spans ∷ rest) traces =
    add_scopes mem resources namespace service rest
      (add_spans mem resources namespace service spans traces)

-- The loop over the resources: one without a service name is left out.
unfoldable pub add_resources : Memory → List ResourceSpans → StringMap Trace → StringMap Trace
unfolding add_scopes
add_resources mem [] traces = traces
add_resources mem (r ∷ rest) traces =
    let namespace = str_or_empty (lookup "service.namespace" r.resource) in
    elim (lookup "service.name" r.resource) [
      | none ↦ add_resources mem rest traces
      | some service ↦
          add_resources mem rest (add_scopes mem r namespace service.str r.scope_spans traces)
    ]

-- The traces, in the order in which the map is iterated over.
unfoldable pub convert_to_traces : Memory → List ResourceSpans → List Trace
unfolding add_resources
convert_to_traces mem resources = map (λ (e : String × Trace). e.1) (add_resources mem resources [])

-- A segment as the exported trace has it: a copy of its resource and of its spans.
pub record BuiltSpans : Type 0 where
  pub resource : StringMap Value
  pub spans : List Span

unfoldable pub build_segment : Memory → TraceSegment → BuiltSpans × TraceSegment
unfolding get_non_internal_spans
build_segment mem ts =
    let (spans, ts') = get_non_internal_spans ts in
    (
      record {
        resource = ts.resource_spans.resource;
        spans = map mem (spans ++ ts.internal_spans);
      },
      ts',
    )

unfoldable pub build_trace : Memory → List TraceSegment → List BuiltSpans × List TraceSegment
unfolding build_segment
build_trace mem [] = ([], [])
build_trace mem (ts ∷ rest) =
    let (built, ts') = build_segment mem ts in
    let (others, rest') = build_trace mem rest in (built ∷ others, ts' ∷ rest')
