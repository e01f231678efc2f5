-- ===== src/Traces/Grouping.antt =====
-- How the traces and their segments divide the spans.
use asserts_otel_processor.Base.{
  ℕ, zero, suc, ◌≡◌, refl, true, false, String, List, [], ◌∷◌, ◌++◌, none, inl, inr, arith,
  Option-cases, ◌&&◌, str_eq, eq_iff, All, map,
}
use asserts_otel_processor.Base.Maps.{StringMap, lookup, insert, All-store, All-lookup}
use asserts_otel_processor.Span.{str_or_empty}
use asserts_otel_processor.Traces.{
  Memory, ResourceSpans, TraceSegment, Trace, get_segment, modify, new_segment, add_span,
  place_span, known_segments, add_spans, add_scopes, add_resources, convert_to_traces,
}
use asserts_otel_processor.Traces.Segments.{IsSegment, place_span-IsSegment}

-- No two segments have the same namespace and service.
abbrev pub AreDistinct : List TraceSegment → Type 0
AreDistinct [] = Unit
AreDistinct (ts ∷ rest) = (get_segment rest ts.namespace ts.service ≡ none) × AreDistinct rest

module _ (mem : Memory) (a : ℕ) where
  add_span-names :
      (ts : TraceSegment)
      → ((add_span mem a ts).namespace ≡ ts.namespace) × ((add_span mem a ts).service ≡ ts.service)
  unfolding add_span
  add_span-names ts = ground arith

  get_segment-modify :
      (segments : List TraceSegment) (i : ℕ) (ns svc : String)
      → get_segment (modify segments i (add_span mem a)) ns svc ≡ get_segment segments ns svc
  unfolding get_segment modify
  get_segment-modify [] i ns svc = refl
  get_segment-modify (ts ∷ rest) zero ns svc = let (n, s) = add_span-names ts in rw (n, s) refl
  get_segment-modify (ts ∷ rest) (suc i) ns svc = rw (get_segment-modify rest i ns svc) refl

  modify-AreDistinct :
      (segments : List TraceSegment) (i : ℕ)
      → AreDistinct segments
      → AreDistinct (modify segments i (add_span mem a))
  unfolding modify
  modify-AreDistinct [] i h = tt
  modify-AreDistinct (ts ∷ rest) zero h = let (n, s) = add_span-names ts in rw (n, s) h
  modify-AreDistinct (ts ∷ rest) (suc i) h =
      (rw (get_segment-modify rest i ts.namespace ts.service) h.0, modify-AreDistinct rest i h.1)

get_segment_other :
    (segments : List TraceSegment) (new : TraceSegment) (ns svc : String)
    → get_segment segments ns svc ≡ none
    → (str_eq new.namespace ns && str_eq new.service svc) ≡ false
    → get_segment (segments ++ new ∷ []) ns svc ≡ none
unfolding get_segment
get_segment_other [] new ns svc h e = rw e refl
get_segment_other (ts ∷ rest) new ns svc h e = ground (arith, get_segment_other rest new ns svc)

append-AreDistinct :
    (segments : List TraceSegment) (new : TraceSegment)
    → AreDistinct segments
    → get_segment segments new.namespace new.service ≡ none
    → AreDistinct (segments ++ new ∷ [])
unfolding get_segment
append-AreDistinct [] new h e = (refl, tt)
append-AreDistinct (ts ∷ rest) new h e =
    let names : str_eq new.namespace ts.namespace ≡ true → new.namespace ≡ ts.namespace =
      (eq_iff new.namespace ts.namespace).0 in
    let differ : (str_eq new.namespace ts.namespace && str_eq new.service ts.service) ≡ false =
      ground (
        arith,
        eq_iff new.namespace ts.namespace,
        eq_iff new.service ts.service,
        eq_iff ts.namespace new.namespace,
        eq_iff ts.service new.service,
      ) in
    let absent : get_segment rest new.namespace new.service ≡ none = ground arith in
    (
      get_segment_other rest new ts.namespace ts.service h.0 differ,
      append-AreDistinct rest new h.1 absent,
    )

-- What holds of the entry of a trace in the map.
abbrev pub IsTrace : Memory → String × Trace → Type 0
IsTrace mem e = All (IsSegment mem e.0) e.1.segments × AreDistinct e.1.segments

module _ (mem : Memory) (r : ResourceSpans) (ns svc : String) where
  place_span-AreDistinct :
      (a : ℕ) (segments : List TraceSegment)
      → AreDistinct segments
      → AreDistinct (place_span mem r ns svc a segments)
  unfolding place_span
  place_span-AreDistinct a segments h = elim (Option-cases (get_segment segments ns svc)) [
    | inl e ↦
        let new = add_span mem a (new_segment r ns svc) in
        let (n, s) = add_span-names mem a (new_segment r ns svc) in
        let absent : get_segment segments new.namespace new.service ≡ none = rw (n, s) e in
        rw (e, place_span) (append-AreDistinct segments new h absent)
    | inr (i, e) ↦ rw (e, place_span) (modify-AreDistinct mem a segments i h)
  ]

  pub known-IsTrace :
      (id : String) (traces : StringMap Trace)
      → All (IsTrace mem) traces
      → IsTrace mem (id, record { segments = known_segments (lookup id traces) })
  known-IsTrace id traces h = elim (Option-cases (lookup id traces)) [
    | inl e ↦ rw e (tt, tt)
    | inr (tr, e) ↦ rw e (All-lookup (IsTrace mem) id tr traces h e)
  ]

  -- One turn of the loop over the spans.
  pub store-IsTrace :
      (a : ℕ) (traces : StringMap Trace)
      → All (IsTrace mem) traces
      → All (IsTrace mem) (
          insert
            (mem a).trace_id
            (record {
              segments =
                  place_span mem r ns svc a (known_segments (lookup (mem a).trace_id traces));
            })
            traces)
  store-IsTrace a traces h =
      let (sorted, distinct) = known-IsTrace (mem a).trace_id traces h in
      All-store (IsTrace mem) _ _ traces
        (place_span-IsSegment mem r ns svc a _ sorted, place_span-AreDistinct a _ distinct) h

  pub add_spans-IsTrace :
      (spans : List ℕ) (traces : StringMap Trace)
      → All (IsTrace mem) traces
      → All (IsTrace mem) (add_spans mem r ns svc spans traces)
  unfolding add_spans
  add_spans-IsTrace [] traces h = h
  add_spans-IsTrace (a ∷ rest) traces h = add_spans-IsTrace rest _ (store-IsTrace a traces h)

  pub add_scopes-IsTrace :
      (scopes : List (List ℕ)) (traces : StringMap Trace)
      → All (IsTrace mem) traces
      → All (IsTrace mem) (add_scopes mem r ns svc scopes traces)
  unfolding add_scopes
  add_scopes-IsTrace [] traces h = h
  add_scopes-IsTrace (spans ∷ rest) traces h =
      add_scopes-IsTrace rest _ (add_spans-IsTrace spans traces h)

module _ (mem : Memory) where
  pub add_resources-IsTrace :
      (resources : List ResourceSpans) (traces : StringMap Trace)
      → All (IsTrace mem) traces
      → All (IsTrace mem) (add_resources mem resources traces)
  unfolding add_resources
  add_resources-IsTrace [] traces h = h
  add_resources-IsTrace (r ∷ rest) traces h =
      elim (Option-cases (lookup "service.name" r.resource)) [
        | inl e ↦ rw (e, add_resources) (add_resources-IsTrace rest traces h)
        | inr (service, e) ↦
            let ns = str_or_empty (lookup "service.namespace" r.resource) in
            rw (e, add_resources)
              (add_resources-IsTrace rest _
                (add_scopes-IsTrace mem r ns service.str r.scope_spans traces h))
      ]

  -- The segments of one trace, whatever its id is.
  abbrev pub IsGrouped : Trace → Type 0
  IsGrouped tr = (id : String) × All (IsSegment mem id) tr.segments × AreDistinct tr.segments

  values-IsGrouped :
      (entries : StringMap Trace)
      → All (IsTrace mem) entries
      → All IsGrouped (map (λ (e : String × Trace). e.1) entries)
  values-IsGrouped [] h = tt
  values-IsGrouped ((id, tr) ∷ rest) h = ((id, h.0.0, h.0.1), values-IsGrouped rest h.1)

  -- In every trace that convertToTraces returns, all spans have one trace id, each span stands in the
  -- list of its kind (root, entry, exit, internal), no two segments have the same namespace and
  -- service, and the cache of no segment is filled.
  pub convert_to_traces-IsGrouped :
      (resources : List ResourceSpans) → All IsGrouped (convert_to_traces mem resources)
  unfolding convert_to_traces
  convert_to_traces-IsGrouped resources = values-IsGrouped _ (add_resources-IsTrace resources [] tt)
