-- ===== src/Traces/Segments.antt =====
-- Which spans stand in which list of a segment.
use asserts_otel_processor.Base.{
  ℕ, zero, suc, ◌≡◌, refl, true, false, String, List, [], ◌∷◌, none, inl, inr, Bool-cases,
  Option-cases, All, All-append,
}
use asserts_otel_processor.Span.{is_root_span, is_entry_span, is_exit_span}
use asserts_otel_processor.Traces.{
  Memory, ResourceSpans, TraceSegment, to_list, get_segment, modify, new_segment, add_span,
  place_span,
}

-- A span of the trace `id` that `add_span` takes as a root, an entry, an exit or an internal span.
module _ (mem : Memory) (id : String) (a : ℕ) where
  abbrev pub IsRoot : Type 0
  IsRoot = ((mem a).trace_id ≡ id) × (is_root_span (mem a) ≡ true)

  abbrev pub IsEntry : Type 0
  IsEntry =
      ((mem a).trace_id ≡ id) × (is_root_span (mem a) ≡ false) × (is_entry_span (mem a) ≡ true)

  abbrev pub IsExit : Type 0
  IsExit =
      ((mem a).trace_id ≡ id)
      × (is_root_span (mem a) ≡ false)
      × (is_entry_span (mem a) ≡ false)
      × (is_exit_span (mem a) ≡ true)

  abbrev pub IsInternal : Type 0
  IsInternal =
      ((mem a).trace_id ≡ id)
      × (is_root_span (mem a) ≡ false)
      × (is_entry_span (mem a) ≡ false)
      × (is_exit_span (mem a) ≡ false)

-- A segment of the trace `id` whose spans are sorted by their kind, and whose cache is not filled.
pub record IsSegment (mem : Memory) (id : String) (ts : TraceSegment) : Type 0 where
  pub root : All (IsRoot mem id) (to_list ts.root_span)
  pub entry : All (IsEntry mem id) ts.entry_spans
  pub exit : All (IsExit mem id) ts.exit_spans
  pub inner : All (IsInternal mem id) ts.internal_spans
  pub fresh : ts.non_internal_spans ≡ none

module _ (mem : Memory) where
  pub add_span-IsSegment :
      (a : ℕ) (ts : TraceSegment)
      → IsSegment mem (mem a).trace_id ts
      → IsSegment mem (mem a).trace_id (add_span mem a ts)
  unfolding add_span
  add_span-IsSegment a ts h = elim (Bool-cases (is_root_span (mem a))) [
    | inl r ↦ rw r (record {
      root = ((refl, r), tt);
      entry = h.entry;
      exit = h.exit;
      inner = h.inner;
      fresh = h.fresh;
    })
    | inr r ↦ elim (Bool-cases (is_entry_span (mem a))) [
      | inl e ↦
          rw (r, e)
            (record {
              root = h.root;
              entry = All-append _ ts.entry_spans _ h.entry ((refl, r, e), tt);
              exit = h.exit;
              inner = h.inner;
              fresh = h.fresh;
            })
      | inr e ↦ elim (Bool-cases (is_exit_span (mem a))) [
        | inl x ↦
            rw (r, e, x)
              (record {
                root = h.root;
                entry = h.entry;
                exit = All-append _ ts.exit_spans _ h.exit ((refl, r, e, x), tt);
                inner = h.inner;
                fresh = h.fresh;
              })
        | inr x ↦
            rw (r, e, x)
              (record {
                root = h.root;
                entry = h.entry;
                exit = h.exit;
                inner = All-append _ ts.internal_spans _ h.inner ((refl, r, e, x), tt);
                fresh = h.fresh;
              })
      ]
    ]
  ]

  pub new_segment-IsSegment :
      (id : String) (r : ResourceSpans) (ns svc : String) → IsSegment mem id (new_segment r ns svc)
  unfolding new_segment
  new_segment-IsSegment id r ns svc = record {
    root = tt;
    entry = tt;
    exit = tt;
    inner = tt;
    fresh = refl;
  }

  All-modify {κ} :
      (P : TraceSegment → Type κ) (f : TraceSegment → TraceSegment) (segments : List TraceSegment)
      (i : ℕ)
      → ((ts : TraceSegment) → P ts → P (f ts))
      → All P segments
      → All P (modify segments i f)
  unfolding modify
  All-modify P f [] i p h = h
  All-modify P f (ts ∷ rest) zero p h = (p ts h.0, h.1)
  All-modify P f (ts ∷ rest) (suc i) p h = (h.0, All-modify P f rest i p h.1)

  pub place_span-IsSegment :
      (r : ResourceSpans) (ns svc : String) (a : ℕ) (segments : List TraceSegment)
      → All (IsSegment mem (mem a).trace_id) segments
      → All (IsSegment mem (mem a).trace_id) (place_span mem r ns svc a segments)
  unfolding place_span
  place_span-IsSegment r ns svc a segments h = elim (Option-cases (get_segment segments ns svc)) [
    | inl e ↦
        rw (e, place_span)
          (All-append _ segments _ h
            (add_span-IsSegment a _ (new_segment-IsSegment _ r ns svc), tt))
    | inr (i, e) ↦
        rw (e, place_span) (All-modify _ (add_span mem a) segments i (add_span-IsSegment a) h)
  ]
