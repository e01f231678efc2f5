-- ===== src/Processor/Enrichment.antt =====
-- Which spans the loops of consumeTraces enrich.
use asserts_otel_processor.Base.{
  ℕ, ◌≡◌, refl, ◌∙◌, true, false, ◌||◌, String, List, [], ◌∷◌, ◌++◌, some, Yields, yields,
  Yields-bind, Yields-map, Yields-if, Bool-cases, inl, inr, arith, ◌==◌,
}
use asserts_otel_processor.Base.Int.{ℤ}
use asserts_otel_processor.Base.Maps.{StringMap}
use asserts_otel_processor.Cache.{TtlCache, IsSized}
use asserts_otel_processor.Platform.{Platform}
use asserts_otel_processor.Span.{Span, Value, get_attribute}
use asserts_otel_processor.SpanEnrichment.{SpanEnrichmentProcessor, request_context_attribute}
use asserts_otel_processor.SpanEnrichment.Laws.{IsSound, bare, enrich_span-Enriched}
use asserts_otel_processor.Traces.{Memory, TraceSegment, Trace, get_non_internal_spans}
use asserts_otel_processor.Sampling.{write}
use asserts_otel_processor.Sampling.Marks.{member}
use asserts_otel_processor.MetricHelper.Prometheus.{Registry, IsConsistent}
use asserts_otel_processor.MetricHelper.Sound.{IsSoundHelper, capture_metrics-IsSound}
use asserts_otel_processor.Processor.{
  Written, process_span, process_spans, process_segments, process_traces,
}

abbrev pub HasContext : Span → Type 0
HasContext span = (v : Value) × (get_attribute request_context_attribute span ≡ some v)

-- The spans that the loops visit.
abbrev pub visited : List TraceSegment → List ℕ
visited [] = []
visited (ts ∷ rest) = (get_non_internal_spans ts).0 ++ visited rest

abbrev pub all_visited : List Trace → List ℕ
all_visited [] = []
all_visited (tr ∷ rest) = visited tr.segments ++ all_visited rest

-- Exactly the given spans were enriched: these have a request context, only attributes of theirs have
-- changed, and every other span is what it was.
pub record IsEnriched (spans : List ℕ) (mem mem' : Memory) : Type 0 where
  pub has_context : (a : ℕ) → member a spans ≡ true → HasContext (mem' a)
  pub same : (a : ℕ) → bare (mem' a) ≡ bare (mem a)
  pub frame : (a : ℕ) → member a spans ≡ false → mem' a ≡ mem a
  pub keeps_context : (a : ℕ) → HasContext (mem a) → HasContext (mem' a)

member-append : (a : ℕ) (xs ys : List ℕ) → member a (xs ++ ys) ≡ (member a xs || member a ys)
unfolding member
member-append a [] ys = refl
member-append a (x ∷ xs) ys = ground (arith, member-append a xs ys)

IsEnriched-none : (mem : Memory) → IsEnriched [] mem mem
unfolding member
IsEnriched-none mem = record {
  has_context = λ a e. absurd (cc);
  same = λ a. refl;
  frame = λ a e. refl;
  keeps_context = λ a h. h;
}

IsEnriched-trans :
    (xs ys : List ℕ) (mem mem' mem'' : Memory)
    → IsEnriched xs mem mem'
    → IsEnriched ys mem' mem''
    → IsEnriched (xs ++ ys) mem mem''
IsEnriched-trans xs ys mem mem' mem'' p q = record {
  has_context = λ a e. elim (Bool-cases (member a ys)) [
    | inl later ↦ q.has_context a later
    | inr not_later ↦
        q.keeps_context a (p.has_context a (ground (arith, e, not_later, member-append a xs ys)))
  ];
  same = λ a. q.same a ∙ p.same a;
  frame = λ a e.
      q.frame a (ground (arith, e, member-append a xs ys))
      ∙ p.frame a (ground (arith, e, member-append a xs ys));
  keeps_context = λ a h. q.keeps_context a (p.keeps_context a h);
}

-- One span is written.
write-IsEnriched :
    (a : ℕ) (span : Span) (mem : Memory)
    → bare span ≡ bare (mem a)
    → HasContext span
    → IsEnriched (a ∷ []) mem (write a span mem)
unfolding member
write-IsEnriched a span mem same context = record {
  has_context = λ b e. elim (Bool-cases (b == a)) [
    | inl here ↦ rw here context
    | inr there ↦ absurd (ground (arith, e, there))
  ];
  same = λ b. elim (Bool-cases (b == a)) [
    | inl here ↦ let f : b ≡ a = ground (arith, here) in rw (here, f) same
    | inr there ↦ rw there refl
  ];
  frame = λ b e. elim (Bool-cases (b == a)) [
    | inl here ↦ absurd (ground (arith, e, here))
    | inr there ↦ rw there refl
  ];
  keeps_context =
      λ b h. elim (Bool-cases (b == a)) [ inl here ↦ rw here context | inr there ↦ rw there h ];
}

module _ (rt : Platform) (labels : TtlCache (StringMap String)) (registry : Registry)
    (states : TtlCache ℕ) (clock : ℕ → ℤ) (sized : IsSized labels)
    (consistent : IsConsistent registry) (n : ℕ) (ep : SpanEnrichmentProcessor rt)
    (rules : IsSound rt ep.custom_attributes) where
  abbrev WrittenTo : Type 0
  WrittenTo = Written rt labels registry states clock

  abbrev IsSoundMetrics : WrittenTo → Type 0
  IsSoundMetrics w = IsSoundHelper rt labels registry sized consistent n w.1

  abbrev IsDone : List ℕ → WrittenTo → WrittenTo → Type 0
  IsDone spans w w' = IsEnriched spans w.0 w'.0 × IsSoundMetrics w'

  process_span-IsDone :
      (ts : TraceSegment) (a : ℕ) (w : WrittenTo)
      → IsSoundMetrics w
      → Yields (IsDone (a ∷ []) w) (process_span rt labels registry states clock ep ts a w)
  unfolding process_span
  process_span-IsDone ts a (mem, helper) h =
      Yields-bind
        (enrich_span-Enriched rt ep.custom_attributes ts.namespace ts.service (mem a) rules)
        λ span e.
          let written = write-IsEnriched a span mem e.same e.context in
          Yields-if helper.config.capture_metrics
            (λ on.
              Yields-bind
                (capture_metrics-IsSound rt labels registry sized consistent n span ts.namespace
                  ts.service ts.resource_spans.resource helper h)
                λ helper' sound. yields (written, sound))
            (λ off. yields (written, h))

  process_spans-IsDone :
      (ts : TraceSegment) (spans : List ℕ) (w : WrittenTo)
      → IsSoundMetrics w
      → Yields (IsDone spans w) (process_spans rt labels registry states clock ep ts spans w)
  unfolding process_spans
  process_spans-IsDone ts [] w h = yields (IsEnriched-none w.0, h)
  process_spans-IsDone ts (a ∷ rest) w h = Yields-bind (process_span-IsDone ts a w h) λ w' first.
      Yields-map (process_spans-IsDone ts rest w' first.1)
        λ w'' later. (IsEnriched-trans (a ∷ []) rest w.0 w'.0 w''.0 first.0 later.0, later.1)

  process_segments-IsDone :
      (segments : List TraceSegment) (w : WrittenTo)
      → IsSoundMetrics w
      → Yields
          (λ (r : List TraceSegment × WrittenTo). IsDone (visited segments) w r.1)
          (process_segments rt labels registry states clock ep segments w)
  unfolding process_segments
  process_segments-IsDone [] w h = yields (IsEnriched-none w.0, h)
  process_segments-IsDone (ts ∷ rest) w h =
      let (spans, ts') = get_non_internal_spans ts in
      Yields-bind (process_spans-IsDone ts' spans w h) λ w' first.
        Yields-bind (process_segments-IsDone rest w' first.1) λ r later.
          yields (IsEnriched-trans spans (visited rest) w.0 w'.0 r.1.0 first.0 later.0, later.1)

  -- For a cache that counts its entries, a registry whose histograms accept the labels that are their
  -- names if their buckets increase and "le" is no name, such a helper, and rules that do not panic: the loops of consumeTraces over traces, segments and spans do
  -- not panic. Every span that is visited has a request context afterwards, and is unchanged but for
  -- its attributes; every other span is what it was. The metric helper stays in order.
  pub process_traces-IsDone :
      (traces : List Trace) (w : WrittenTo)
      → IsSoundMetrics w
      → Yields
          (λ (r : List Trace × WrittenTo). IsDone (all_visited traces) w r.1)
          (process_traces rt labels registry states clock ep traces w)
  unfolding process_traces
  process_traces-IsDone [] w h = yields (IsEnriched-none w.0, h)
  process_traces-IsDone (tr ∷ rest) w h =
      Yields-bind (process_segments-IsDone tr.segments w h) λ s first.
        Yields-bind (process_traces-IsDone rest s.1 first.1) λ r later. yields (
          IsEnriched-trans (visited tr.segments) (all_visited rest) w.0 s.1.0 r.1.0 first.0 later.0,
          later.1,
        )
