-- ===== src/Sampling/FlushItems.antt =====
-- The export of a list of items.
use asserts_otel_processor.Base.{
  ℕ, zero, suc, ◌+◌, ◌<◌, ◌≡◌, refl, sym, ap, subst, ◌∙◌, String, List, [], ◌∷◌, ◌++◌, Option, none,
  some, All, map, get_elem?, get_elem?_lt, set, length, length-map, map-set, get_elem?-map,
  All-get_elem?, All-set, Yields, yields, Yields-bind, Yields-some, Yields-map, Option-cases, inl,
  inr, arith, if◌then◌else◌, str_eq,
}
use mathlib.Core.List.{map-append, append_assoc, append-nil}
use asserts_otel_processor.Counters.{incr_sampled_counts}
use asserts_otel_processor.PriorityQueue.{Item}
use asserts_otel_processor.Traces.{
  Memory, TraceSegment, Trace, BuiltSpans, build_trace, build_segment, get_non_internal_spans,
}
use asserts_otel_processor.Traces.Counting.{segment_spans}
use asserts_otel_processor.Traces.Building.{IsCached, exported, build_trace-exported}
use asserts_otel_processor.Sampling.Flush.{Consumed, Flushing, flush_item, flush_items}

set_same {ℓ} :
    {A : Type ℓ} (xs : List A) (i : ℕ) (v : A) → get_elem? xs i ≡ some v → set xs i v ≡ xs
set_same [] i v e = refl
set_same (x ∷ xs) zero v e = let f : v ≡ x = cc in rw f refl
set_same (x ∷ xs) (suc i) v e = ap (◌∷◌ x) (set_same xs i v e)

-- What the consumer gets of an item, given all that is to be exported of each trace.
abbrev trace_at : Option (List BuiltSpans) → List BuiltSpans
trace_at none = []
trace_at (some trace) = trace

abbrev pub export_of : List (List BuiltSpans) → Item → Consumed
export_of traces item = record { ctx = item.ctx; trace = trace_at (get_elem? traces item.trace) }

-- How many items have a sample type.
unfoldable pub count_type : String → List Item → ℕ
count_type sample_type [] = 0
count_type sample_type (x ∷ xs) =
    (if str_eq x.sample_type sample_type then 1 else 0) + count_type sample_type xs

count_type-append :
    (sample_type : String) (xs ys : List Item)
    → count_type sample_type (xs ++ ys) ≡ count_type sample_type xs + count_type sample_type ys
unfolding count_type
count_type-append sample_type [] ys = omega arith
count_type-append sample_type (x ∷ xs) ys = omega (arith, count_type-append sample_type xs ys)

abbrev pub AllCached : List Trace → Type 0
AllCached = All λ (tr : Trace). All IsCached tr.segments

-- Every item has a trace.
abbrev pub HaveTraces : List (List BuiltSpans) → List Item → Type 0
HaveTraces traces = All λ (x : Item). x.trace < length traces

module _ (mem : Memory) where
  -- All the spans of each trace, with their resources.
  abbrev pub view : List Trace → List (List BuiltSpans)
  view = map λ (tr : Trace). map (exported mem) tr.segments

  -- The items were exported in order, the spans of the traces are the same, and the counters have
  -- grown by the items.
  pub record IsFlushed (f : Flushing) (items : List Item) (g : Flushing) : Type 0 where
    pub same : view g.traces ≡ view f.traces
    pub cached : AllCached g.traces
    pub calls : g.consumed ≡ f.consumed ++ map (export_of (view f.traces)) items
    pub counts :
        (sample_type : String)
        → g.counters.sampled_trace_count sample_type
          ≡ f.counters.sampled_trace_count sample_type + count_type sample_type items

  build_segment-view : (ts : TraceSegment) → exported mem (build_segment mem ts).1 ≡ exported mem ts
  unfolding build_segment get_non_internal_spans segment_spans
  build_segment-view ts = elim (Option-cases ts.non_internal_spans) [
    | inl e ↦ rw e refl
    | inr (l, e) ↦ rw e refl
  ]

  build_trace-view :
      (segments : List TraceSegment)
      → map (exported mem) (build_trace mem segments).1 ≡ map (exported mem) segments
  unfolding build_trace
  build_trace-view [] = refl
  build_trace-view (ts ∷ rest) = rw (build_segment-view ts, build_trace-view rest) refl

  pub IsFlushed-trans :
      (f g h : Flushing) (xs ys : List Item)
      → IsFlushed f xs g
      → IsFlushed g ys h
      → IsFlushed f (xs ++ ys) h
  IsFlushed-trans f g h xs ys p q = record {
    same = q.same ∙ p.same;
    cached = q.cached;
    calls =
        let second : h.consumed ≡ g.consumed ++ map (export_of (view f.traces)) ys =
          rw p.same at q.calls in
        second ∙ simp (p.calls, map-append, append_assoc);
    counts = λ ty. omega (arith, p.counts ty, q.counts ty, count_type-append ty xs ys);
  }

  flush_item-IsFlushed :
      (x : Item) (f : Flushing)
      → AllCached f.traces
      → x.trace < length (view f.traces)
      → Yields (IsFlushed f (x ∷ [])) (flush_item mem x f)
  unfolding flush_item incr_sampled_counts count_type
  flush_item-IsFlushed x f cached inside =
      let (trace, e) =
        get_elem?_lt f.traces x.trace
          (omega (arith, length-map f.traces (λ (tr : Trace). map (exported mem) tr.segments))) in
      let (built, kept) =
        build_trace-exported mem trace.segments (All-get_elem? _ f.traces x.trace trace e cached) in
      let at_view =
        get_elem?-map f.traces x.trace trace (λ (tr : Trace). map (exported mem) tr.segments) e in
      Yields-some _ trace e (
        yields (record {
          same =
              map-set f.traces x.trace _ _
              ∙ rw (build_trace-view trace.segments) (set_same (view f.traces) x.trace _ at_view);
          cached = All-set _ f.traces x.trace _ cached kept;
          calls = rw (at_view, built) refl;
          counts = λ ty. ground arith;
        }))

  pub IsFlushed-none : (f : Flushing) → AllCached f.traces → IsFlushed f [] f
  unfolding count_type
  IsFlushed-none f cached = record {
    same = refl;
    cached = cached;
    calls = sym (append-nil f.consumed);
    counts = λ ty. omega arith;
  }

  pub flush_items-IsFlushed :
      (xs : List Item) (f : Flushing)
      → AllCached f.traces
      → HaveTraces (view f.traces) xs
      → Yields (IsFlushed f xs) (flush_items mem xs f)
  unfolding flush_items count_type
  flush_items-IsFlushed [] f cached inside = yields (IsFlushed-none f cached)
  flush_items-IsFlushed (x ∷ xs) f cached inside =
      Yields-bind (flush_item-IsFlushed x f cached inside.0) λ g first.
        Yields-map
          (flush_items-IsFlushed xs g first.cached
            (subst (λ v. HaveTraces v xs) (sym first.same) inside.1))
          λ h second. IsFlushed-trans f g h (x ∷ []) xs first second
