-- ===== src/Sampling/Marks.antt =====
-- Which spans the loop marks, and how.
use asserts_otel_processor.Base.{
  ℕ, ◌≡◌, refl, ap, ◌∙◌, Bool, true, false, ◌||◌, String, List, [], ◌∷◌, Option, none, some,
  if◌then◌else◌, Bool-cases, inl, inr, ◌==◌, eq_iff, arith,
}
use asserts_otel_processor.Base.Maps.{StringMap, insert, lookup-insert}
use asserts_otel_processor.Span.{
  Span, Value, get_attribute, put_str, span_has_error, compute_latency, elapsed_nanos,
}
use asserts_otel_processor.SpanEnrichment.{error_type_attribute, request_context_attribute}
use asserts_otel_processor.Thresholds.{get_threshold, get_default_threshold}
use asserts_otel_processor.Traces.{Memory, TraceSegment}
use asserts_otel_processor.Sampling.{
  Core, write, mark, sample_type_attribute, ignore_error_type, span_is_slow,
}
use asserts_otel_processor.Sampling.Spans.{
  SampleType, error, slow, name_of, classify, class_of, marked, mark_span, mark_spans,
}

-- The span with the mark that says what it is captured as.
abbrev pub annotate : Option SampleType → Span → Span
annotate none span = span
annotate (some c) span = put_str sample_type_attribute (name_of c) span

unfoldable pub member : ℕ → List ℕ → Bool
member b [] = false
member b (a ∷ rest) = (b == a) || member b rest

insert_twice {ℓ} :
    {V : Type ℓ} (k : String) (v : V) (m : StringMap V) → insert k v (insert k v m) ≡ insert k v m
unfolding insert
insert_twice k v [] = rw ((eq_iff k k).1 refl) refl
insert_twice k v ((j, w) ∷ m) = ground (arith, eq_iff k k, insert_twice k v m)

annotate_twice :
    (o : Option SampleType) (span : Span) → annotate o (annotate o span) ≡ annotate o span
unfolding put_str
annotate_twice none span = refl
annotate_twice (some c) span =
    ap (λ (m : StringMap Value). record span { attributes = m })
      (insert_twice sample_type_attribute _ span.attributes)

write_lem :
    (a b : ℕ) (f : Span → Span) (mem : Memory)
    → write a (f (mem a)) mem b ≡ (if b == a then f (mem b) else mem b)
write_lem a b f mem = elim (Bool-cases (b == a)) [
  | inl same ↦ let e : b ≡ a = ground arith in rw (same, e) refl
  | inr differ ↦ rw differ refl
]

module _ (ts : TraceSegment) where
  -- The mark is none of the attributes that decide.
  classify-annotate :
      (o : Option SampleType) (core : Core) (span : Span)
      → classify ts core (annotate o span) ≡ classify ts core span
  unfolding put_str get_attribute ignore_error_type span_is_slow compute_latency elapsed_nanos
      span_has_error
  classify-annotate none core span = refl
  classify-annotate (some c) core span =
      rw
        (
          lookup-insert sample_type_attribute error_type_attribute
              (record { str = name_of c; as_string = name_of c }) span.attributes,
          lookup-insert sample_type_attribute request_context_attribute
              (record { str = name_of c; as_string = name_of c }) span.attributes,
        )
        refl

  classify-marked :
      (o : Option SampleType) (core : Core) (a : ℕ) (span : Span)
      → classify ts (marked ts o core a) span ≡ classify ts core span
  unfolding mark ignore_error_type span_is_slow get_threshold get_default_threshold
  classify-marked none core a span = refl
  classify-marked (some error) core a span = refl
  classify-marked (some slow) core a span = refl

  marked-memory :
      (o : Option SampleType) (core : Core) (a b : ℕ)
      → (marked ts o core a).memory b
        ≡ (if b == a then annotate o (core.memory b) else core.memory b)
  unfolding mark span_is_slow
  marked-memory none core a b = ground arith
  marked-memory (some error) core a b = write_lem a b (annotate (some error)) core.memory
  marked-memory (some slow) core a b = write_lem a b (annotate (some slow)) core.memory

  mark_span-memory :
      (core : Core) (a b : ℕ)
      → (mark_span ts core a).memory b
        ≡ (if b == a then annotate (class_of ts core b) (core.memory b) else core.memory b)
  mark_span-memory core a b = elim (Bool-cases (b == a)) [
    | inl same ↦
        let e : b ≡ a = ground arith in
        let direct = marked-memory (class_of ts core a) core a b in
        rw (same, e) (rw (same, e) at direct)
    | inr differ ↦ rw differ (rw differ at (marked-memory (class_of ts core a) core a b))
  ]

  class_of-mark_span :
      (core : Core) (a b : ℕ) → class_of ts (mark_span ts core a) b ≡ class_of ts core b
  class_of-mark_span core a b =
      classify-marked (class_of ts core a) core a ((mark_span ts core a).memory b)
      ∙ rw (mark_span-memory core a b) (if_annotate (b == a))
    where
      if_annotate :
          (t : Bool)
          → classify ts core
              (if t then annotate (class_of ts core b) (core.memory b) else core.memory b)
            ≡ class_of ts core b
      if_annotate true = classify-annotate (class_of ts core b) core (core.memory b)
      if_annotate false = refl

  settle :
      (t u : Bool) (o : Option SampleType) (span : Span)
      → (if u
          then annotate o (if t then annotate o span else span)
          else if t
          then annotate o span
          else span)
        ≡ (if t || u then annotate o span else span)
  settle true true o span = annotate_twice o span
  settle true false o span = refl
  settle false true o span = refl
  settle false false o span = refl

  -- Marking changes exactly the spans of the list that are captured as something before it starts:
  -- each of these gets what it is captured as in its mark.
  pub mark_spans-memory :
      (spans : List ℕ) (core : Core) (b : ℕ)
      → (mark_spans ts spans core).memory b
        ≡ (if member b spans then annotate (class_of ts core b) (core.memory b) else core.memory b)
  unfolding mark_spans member
  mark_spans-memory [] core b = refl
  mark_spans-memory (a ∷ rest) core b =
      let later = mark_spans-memory rest (mark_span ts core a) b in
      rw (class_of-mark_span core a b, mark_span-memory core a b) at later
      ∙ settle (b == a) (member b rest) (class_of ts core b) (core.memory b)
