-- ===== src/Traces/Partition.antt =====
-- No span gets lost on the way into the traces, but for root spans, and none is doubled.
use asserts_otel_processor.Base.{
  ℕ, zero, suc, ◌+◌, ◌≡◌, refl, String, List, [], ◌∷◌, ◌++◌, none, some, All, arith, Bool-cases,
  Option-cases, inl, inr, str_eq, map,
}
use asserts_otel_processor.Base.Maps.{StringMap, lookup, insert}
use asserts_otel_processor.Span.{str_or_empty}
use asserts_otel_processor.Traces.{
  Memory, ResourceSpans, TraceSegment, Trace, get_segment, modify, new_segment, add_span,
  place_span, known_segments, add_spans, add_scopes, add_resources, convert_to_traces,
}
use asserts_otel_processor.Traces.Segments.{IsSegment, new_segment-IsSegment}
use asserts_otel_processor.Traces.Grouping.{
  IsTrace, known-IsTrace, store-IsTrace, add_spans-IsTrace, add_scopes-IsTrace,
}
use asserts_otel_processor.Traces.Counting.{
  one, count, segment_spans, count_segments, count_traces, IsPlaced, IsPlaced-none, IsPlaced-part,
  IsPlaced-trans, add_span-IsPlaced,
}

-- How often `x` occurs in the scopes of a resource.
unfoldable pub count_scopes : ℕ → List (List ℕ) → ℕ
count_scopes x [] = zero
count_scopes x (spans ∷ rest) = count x spans + count_scopes x rest

-- How often `x` occurs in the resources that have a service name.
unfoldable pub count_accepted : ℕ → List ResourceSpans → ℕ
unfolding count_scopes
count_accepted x [] = zero
count_accepted x (r ∷ rest) =
    let others = count_accepted x rest in
    elim (lookup "service.name" r.resource) [
      | none ↦ others
      | some service ↦ count_scopes x r.scope_spans + others
    ]

abbrev values : StringMap Trace → List Trace
values = map (λ (e : String × Trace). e.1)

module _ (mem : Memory) (x : ℕ) where
  count_segments-append :
      (segments : List TraceSegment) (new : TraceSegment)
      → count_segments x (segments ++ new ∷ [])
        ≡ count_segments x segments + count x (segment_spans new)
  unfolding count_segments
  count_segments-append [] new = omega arith
  count_segments-append (ts ∷ rest) new = omega (arith, count_segments-append rest new)

  modify-IsPlaced :
      (id ns svc : String) (a : ℕ) (segments : List TraceSegment) (i : ℕ)
      → get_segment segments ns svc ≡ some i
      → All (IsSegment mem id) segments
      → IsPlaced mem x
          (one x a)
          (count_segments x segments)
          (count_segments x (modify segments i (add_span mem a)))
  unfolding get_segment modify count_segments
  modify-IsPlaced id ns svc a [] i e h = absurd (cc)
  modify-IsPlaced id ns svc a (ts ∷ rest) zero e h =
      IsPlaced-part mem x (count_segments x rest) (add_span-IsPlaced mem x id a ts h.0)
        (omega arith) (omega arith)
  modify-IsPlaced id ns svc a (ts ∷ rest) (suc i) e h =
      let later : get_segment rest ns svc ≡ some i = ground arith in
      IsPlaced-part mem x (count x (segment_spans ts))
        (modify-IsPlaced id ns svc a rest i later h.1) (omega arith) (omega arith)

  new_segment-count :
      (r : ResourceSpans) (ns svc : String) → count x (segment_spans (new_segment r ns svc)) ≡ 0
  unfolding count segment_spans new_segment
  new_segment-count r ns svc = refl

  place_span-IsPlaced :
      (id ns svc : String) (r : ResourceSpans) (a : ℕ) (segments : List TraceSegment)
      → All (IsSegment mem id) segments
      → IsPlaced mem x
          (one x a)
          (count_segments x segments)
          (count_segments x (place_span mem r ns svc a segments))
  unfolding place_span
  place_span-IsPlaced id ns svc r a segments h = elim (Option-cases (get_segment segments ns svc)) [
    | inl e ↦
        rw (e, place_span)
          (IsPlaced-part mem x (count_segments x segments)
            (add_span-IsPlaced mem x id a _ (new_segment-IsSegment mem id r ns svc))
            (omega (arith, new_segment-count r ns svc))
            (omega (arith, count_segments-append segments (add_span mem a (new_segment r ns svc)))))
    | inr (i, e) ↦ rw (e, place_span) (modify-IsPlaced id ns svc a segments i e h)
  ]

  -- What a store into the map does not touch.
  store-count :
      (id : String) (tr : Trace) (traces : StringMap Trace)
      → (k : ℕ) × (count_traces x (values traces)
          ≡ count_segments x (known_segments (lookup id traces)) + k)
        × (count_traces x (values (insert id tr traces)) ≡ count_segments x tr.segments + k)
  unfolding lookup insert count_traces count_segments
  store-count id tr [] = (0, omega arith, omega arith)
  store-count id tr ((other, old) ∷ rest) = elim (Bool-cases (str_eq other id)) [
    | inl same ↦ rw same (count_traces x (values rest), omega arith, omega arith)
    | inr differ ↦
        let (k, p, q) = store-count id tr rest in
        rw differ (count_segments x old.segments + k, omega arith, omega arith)
  ]

  add_spans-IsPlaced :
      (r : ResourceSpans) (ns svc : String) (spans : List ℕ) (traces : StringMap Trace)
      → All (IsTrace mem) traces
      → IsPlaced mem x
          (count x spans)
          (count_traces x (values traces))
          (count_traces x (values (add_spans mem r ns svc spans traces)))
  unfolding add_spans count
  add_spans-IsPlaced r ns svc [] traces h = IsPlaced-none mem x _
  add_spans-IsPlaced r ns svc (a ∷ rest) traces h =
      let id = (mem a).trace_id in
      let known = known_segments (lookup id traces) in
      let (sorted, distinct) = known-IsTrace mem r ns svc id traces h in
      let (k, p, q) =
        store-count id (record { segments = place_span mem r ns svc a known }) traces in
      IsPlaced-trans mem x _ _ _ _ _
        (IsPlaced-part mem x k (place_span-IsPlaced id ns svc r a known sorted) p q)
        (add_spans-IsPlaced r ns svc rest _ (store-IsTrace mem r ns svc a traces h))

  add_scopes-IsPlaced :
      (r : ResourceSpans) (ns svc : String) (scopes : List (List ℕ)) (traces : StringMap Trace)
      → All (IsTrace mem) traces
      → IsPlaced mem x
          (count_scopes x scopes)
          (count_traces x (values traces))
          (count_traces x (values (add_scopes mem r ns svc scopes traces)))
  unfolding add_scopes count_scopes
  add_scopes-IsPlaced r ns svc [] traces h = IsPlaced-none mem x _
  add_scopes-IsPlaced r ns svc (spans ∷ rest) traces h =
      IsPlaced-trans mem x _ _ _ _ _ (add_spans-IsPlaced r ns svc spans traces h)
        (add_scopes-IsPlaced r ns svc rest _ (add_spans-IsTrace mem r ns svc spans traces h))

  add_resources-IsPlaced :
      (resources : List ResourceSpans) (traces : StringMap Trace)
      → All (IsTrace mem) traces
      → IsPlaced mem x
          (count_accepted x resources)
          (count_traces x (values traces))
          (count_traces x (values (add_resources mem resources traces)))
  unfolding add_resources count_accepted
  add_resources-IsPlaced [] traces h = IsPlaced-none mem x _
  add_resources-IsPlaced (r ∷ rest) traces h =
      elim (Option-cases (lookup "service.name" r.resource)) [
        | inl e ↦ rw (e, add_resources, count_accepted) (add_resources-IsPlaced rest traces h)
        | inr (service, e) ↦
            let ns = str_or_empty (lookup "service.namespace" r.resource) in
            rw (e, add_resources, count_accepted)
              (IsPlaced-trans mem x _ _ _ _ _
                (add_scopes-IsPlaced r ns service.str r.scope_spans traces h)
                (add_resources-IsPlaced rest _
                  (add_scopes-IsTrace mem r ns service.str r.scope_spans traces h)))
      ]

-- The segments that convertToTraces returns have every span as often as the resources with a service
-- name have it, except that occurrences of root spans may be missing.
pub convert_to_traces-IsPlaced :
    (mem : Memory) (resources : List ResourceSpans) (x : ℕ)
    → IsPlaced mem x
        (count_accepted x resources)
        0
        (count_traces x (convert_to_traces mem resources))
unfolding convert_to_traces count_traces
convert_to_traces-IsPlaced mem resources x = add_resources-IsPlaced mem x resources [] tt
