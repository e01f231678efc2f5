-- ===== src/Traces/Counting.antt =====
-- How often a span occurs in a list, a segment and a collection of traces.
use asserts_otel_processor.Base.{
  ℕ, zero, ◌+◌, ◌≡◌, true, String, List, [], ◌∷◌, ◌++◌, Option, none, some, All, arith,
  if◌then◌else◌, ◌==◌, Bool-cases, inl, inr,
}
use asserts_otel_processor.Span.{is_root_span, is_entry_span, is_exit_span}
use asserts_otel_processor.Traces.Segments.{IsRoot, IsSegment}
use asserts_otel_processor.Traces.{Memory, TraceSegment, Trace, to_list, add_span}

-- How often `x` occurs in a list of the one element `a`.
abbrev pub one : ℕ → ℕ → ℕ
one x a = if x == a then 1 else 0

unfoldable pub count : ℕ → List ℕ → ℕ
count x [] = zero
count x (y ∷ ys) = one x y + count x ys

pub count-append : (x : ℕ) (ys zs : List ℕ) → count x (ys ++ zs) ≡ count x ys + count x zs
unfolding count
count-append x [] zs = omega arith
count-append x (y ∷ ys) zs = omega (arith, count-append x ys zs)

-- All the spans of a segment, in the order of the exported trace.
unfoldable pub segment_spans : TraceSegment → List ℕ
segment_spans ts = to_list ts.root_span ++ (ts.entry_spans ++ ts.exit_spans) ++ ts.internal_spans

unfoldable pub count_segments : ℕ → List TraceSegment → ℕ
unfolding count segment_spans
count_segments x [] = zero
count_segments x (ts ∷ rest) = count x (segment_spans ts) + count_segments x rest

unfoldable pub count_traces : ℕ → List Trace → ℕ
unfolding count_segments
count_traces x [] = zero
count_traces x (tr ∷ rest) = count_segments x tr.segments + count_traces x rest

-- `after` is what was there `before` and `placed` together, less some occurrences if `x` is a root.
pub data IsPlaced (mem : Memory) (x placed before after : ℕ) : Type 0 where
  exact : after ≡ placed + before → IsPlaced mem x placed before after
  some_lost :
      (lost : ℕ)
      → after + lost ≡ placed + before
      → is_root_span (mem x) ≡ true
      → IsPlaced mem x placed before after

module _ (mem : Memory) (x : ℕ) where
  pub IsPlaced-none : (n : ℕ) → IsPlaced mem x 0 n n
  IsPlaced-none n = exact (omega arith)

  -- A part that stays does not matter.
  pub IsPlaced-part :
      {placed before after all_before all_after : ℕ} (k : ℕ)
      → IsPlaced mem x placed before after
      → all_before ≡ before + k
      → all_after ≡ after + k
      → IsPlaced mem x placed all_before all_after
  IsPlaced-part k (exact e) p q = exact (omega arith)
  IsPlaced-part k (some_lost n e r) p q = some_lost n (omega arith) r

  pub IsPlaced-trans :
      (p q a b c : ℕ) → IsPlaced mem x p a b → IsPlaced mem x q b c → IsPlaced mem x (p + q) a c
  IsPlaced-trans p q a b c (exact e) (exact f) = exact (omega arith)
  IsPlaced-trans p q a b c (exact e) (some_lost n f r) = some_lost n (omega arith) r
  IsPlaced-trans p q a b c (some_lost n e r) (exact f) = some_lost n (omega arith) r
  IsPlaced-trans p q a b c (some_lost m e r) (some_lost n f s) = some_lost (m + n) (omega arith) r

  count_segment :
      (ts : TraceSegment)
      → count x (segment_spans ts)
        ≡ count x (to_list ts.root_span)
          + count x ts.entry_spans
          + count x ts.exit_spans
          + count x ts.internal_spans
  unfolding segment_spans
  count_segment ts = omega (
    arith,
    count-append x (to_list ts.root_span) (ts.entry_spans ++ ts.exit_spans),
    count-append x ts.entry_spans ts.exit_spans,
    count-append x (to_list ts.root_span ++ (ts.entry_spans ++ ts.exit_spans)) ts.internal_spans,
  )

  count-append_one : (ys : List ℕ) (a : ℕ) → count x (ys ++ a ∷ []) ≡ one x a + count x ys
  unfolding count
  count-append_one ys a = omega (arith, count-append x ys (a ∷ []))

  -- The span that a new root span replaces is a root too.
  root-IsPlaced :
      (id : String) (a : ℕ) (old : Option ℕ)
      → All (IsRoot mem id) (to_list old)
      → IsPlaced mem x (one x a) (count x (to_list old)) (count x (a ∷ []))
  unfolding count
  root-IsPlaced id a none h = exact (omega arith)
  root-IsPlaced id a (some r) h = elim (Bool-cases (x == r)) [
    | inl same ↦ let e : x ≡ r = ground arith in some_lost 1 (rw same (omega arith)) (rw e h.0.1)
    | inr differ ↦ exact (rw differ (omega arith))
  ]

  -- One of the lists grows by the span.
  append-IsPlaced :
      {before after : ℕ} (ys : List ℕ) (a k : ℕ)
      → before ≡ count x ys + k
      → after ≡ count x (ys ++ a ∷ []) + k
      → IsPlaced mem x (one x a) before after
  append-IsPlaced ys a k p q = exact (omega (arith, count-append_one ys a))

  pub add_span-IsPlaced :
      (id : String) (a : ℕ) (ts : TraceSegment)
      → IsSegment mem id ts
      → IsPlaced mem x
          (one x a)
          (count x (segment_spans ts))
          (count x (segment_spans (add_span mem a ts)))
  unfolding add_span
  add_span-IsPlaced id a ts h =
      let root = count x (to_list ts.root_span) in
      let entry = count x ts.entry_spans in
      let exit = count x ts.exit_spans in
      let inner = count x ts.internal_spans in
      rw (count_segment ts, count_segment (add_span mem a ts))
        (elim (Bool-cases (is_root_span (mem a))) [
          | inl r ↦ rw r (
              IsPlaced-part (entry + exit + inner) (root-IsPlaced id a ts.root_span h.root)
                (omega arith) (omega arith))
          | inr r ↦ elim (Bool-cases (is_entry_span (mem a))) [
            | inl e ↦
                rw (r, e)
                  (append-IsPlaced ts.entry_spans a (root + exit + inner) (omega arith)
                    (omega arith))
            | inr e ↦ elim (Bool-cases (is_exit_span (mem a))) [
              | inl f ↦
                  rw (r, e, f)
                    (append-IsPlaced ts.exit_spans a (root + entry + inner) (omega arith)
                      (omega arith))
              | inr f ↦
                  rw (r, e, f)
                    (append-IsPlaced ts.internal_spans a (root + entry + exit) (omega arith)
                      (omega arith))
            ]
          ]
        ])
