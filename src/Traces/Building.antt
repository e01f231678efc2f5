-- ===== src/Traces/Building.antt =====
-- What is exported of a trace, and the root span that is not.
use asserts_otel_processor.Base.{
  ℕ, ◌+◌, Option, length, length-append, ◌≡◌, refl, true, false, String, List, [], ◌∷◌, ◌++◌, none,
  some, All, arith, inl, inr, ◌⊎◌, map, ◌==◌, eq_iff,
}
use asserts_otel_processor.Base.Maps.{StringMap, lookup, insert}
use asserts_otel_processor.Span.{Value, is_root_span, str_or_empty}
use asserts_otel_processor.Traces.{
  Memory, ResourceSpans, TraceSegment, BuiltSpans, to_list, get_segment, modify, new_segment,
  add_span, place_span, add_spans, add_scopes, add_resources, convert_to_traces,
  get_non_internal_spans, get_span_count, build_segment, build_trace,
}
use asserts_otel_processor.Traces.Counting.{count, segment_spans, count_segments, count_traces}

-- The cache is empty, or has the root span, the entry spans and the exit spans.
abbrev pub IsCached : TraceSegment → Type 0
IsCached ts =
    (ts.non_internal_spans ≡ none)
    ⊎ (ts.non_internal_spans ≡ some (to_list ts.root_span ++ (ts.entry_spans ++ ts.exit_spans)))

-- The resource and all the spans of a segment.
abbrev pub exported : Memory → TraceSegment → BuiltSpans
exported mem ts = record {
  resource = ts.resource_spans.resource;
  spans = map mem (segment_spans ts);
}

module _ (mem : Memory) where
  build_segment-exported :
      (ts : TraceSegment)
      → IsCached ts
      → ((build_segment mem ts).0 ≡ exported mem ts) × IsCached (build_segment mem ts).1
  unfolding build_segment get_non_internal_spans segment_spans
  build_segment-exported ts (inl e) = rw e (refl, inr refl)
  build_segment-exported ts (inr e) = rw e (refl, inr refl)

  -- If the caches are right, buildTrace returns, for each segment in order, the resource and copies of
  -- all its spans, as they are at that time, and the caches stay right.
  pub build_trace-exported :
      (segments : List TraceSegment)
      → All IsCached segments
      → ((build_trace mem segments).0 ≡ map (exported mem) segments)
        × All IsCached (build_trace mem segments).1
  unfolding build_trace
  build_trace-exported [] h = (refl, tt)
  build_trace-exported (ts ∷ rest) h =
      let (e, c) = build_segment-exported ts h.0 in
      let (es, cs) = build_trace-exported rest h.1 in (rw (e, es) refl, (c, cs))

-- getSpanCount is the number of the segment's spans.
pub get_span_count-length : (ts : TraceSegment) → get_span_count ts ≡ length (segment_spans ts)
unfolding get_span_count segment_spans
get_span_count-length ts = go ts.root_span refl
  where
    lengths :
        (xs : List ℕ)
        → length ((xs ++ (ts.entry_spans ++ ts.exit_spans)) ++ ts.internal_spans)
          ≡ length xs + (length ts.entry_spans + length ts.exit_spans) + length ts.internal_spans
    lengths xs = omega (
      arith,
      length-append (xs ++ (ts.entry_spans ++ ts.exit_spans)) ts.internal_spans,
      length-append xs (ts.entry_spans ++ ts.exit_spans),
      length-append ts.entry_spans ts.exit_spans,
    )

    go : (o : Option ℕ) → ts.root_span ≡ o → get_span_count ts ≡ length (segment_spans ts)
    go none e = rw e (omega (arith, lengths []))
    go (some a) e = rw e (omega (arith, lengths (a ∷ [])))

module _ (mem : Memory) (resources : ResourceSpans) (ns svc : String) where
  abbrev rooted : ℕ → TraceSegment
  rooted a = record (new_segment resources ns svc) { root_span = some a }

  place_span_first :
      (a : ℕ) → is_root_span (mem a) ≡ true → place_span mem resources ns svc a [] ≡ rooted a ∷ []
  unfolding place_span get_segment add_span
  place_span_first a r = rw r refl

  place_span_second :
      (a b : ℕ)
      → is_root_span (mem b) ≡ true
      → place_span mem resources ns svc b (rooted a ∷ []) ≡ rooted b ∷ []
  unfolding place_span get_segment add_span modify new_segment
  place_span_second a b r =
      rw (place_span, get_segment, (eq_iff ns ns).1 refl, (eq_iff svc svc).1 refl, r) refl

  add_spans_two_roots :
      (a b : ℕ)
      → is_root_span (mem a) ≡ true
      → is_root_span (mem b) ≡ true
      → (mem a).trace_id ≡ (mem b).trace_id
      → add_spans mem resources ns svc (a ∷ b ∷ []) []
        ≡ ((mem b).trace_id, record { segments = rooted b ∷ [] }) ∷ []
  unfolding add_spans lookup insert
  add_spans_two_roots a b r r' t =
      rw
        (
          place_span_first a r,
          t,
          (eq_iff (mem b).trace_id (mem b).trace_id).1 refl,
          place_span_second a b r',
        )
        refl

  rooted-count : (a b : ℕ) → (a == b) ≡ false → count a (segment_spans (rooted b)) ≡ 0
  unfolding count segment_spans new_segment
  rooted-count a b d = rw d refl

-- For a batch of exactly one resource, which has a service name and exactly one scope, which holds exactly
-- two spans, both root spans of one trace and different: the first is in no segment of the result.
pub convert_to_traces-root_lost :
    (mem : Memory) (attributes : StringMap Value) (service : Value) (a b : ℕ)
    → lookup "service.name" attributes ≡ some service
    → is_root_span (mem a) ≡ true
    → is_root_span (mem b) ≡ true
    → (mem a).trace_id ≡ (mem b).trace_id
    → (a == b) ≡ false
    → count_traces a (
        convert_to_traces mem
          (record { resource = attributes; scope_spans = (a ∷ b ∷ []) ∷ [] } ∷ []))
      ≡ 0
unfolding convert_to_traces add_resources add_scopes count_traces count_segments
convert_to_traces-root_lost mem attributes service a b s r r' t d =
    let resources : ResourceSpans = record {
      resource = attributes;
      scope_spans = (a ∷ b ∷ []) ∷ [];
    } in
    let ns = str_or_empty (lookup "service.namespace" attributes) in
    rw
      (
        convert_to_traces,
        add_resources,
        s,
        add_spans_two_roots mem resources ns service.str a b r r' t,
      )
      (omega (arith, rooted-count mem resources ns service.str a b d))
