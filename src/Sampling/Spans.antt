-- ===== src/Sampling/Spans.antt =====
-- The loop over the spans of a segment: what it marks and what it pushes.
use asserts_otel_processor.Base.{
  ℕ, ◌≡◌, refl, sym, ap, ◌∙◌, Bool, true, false, not, ◌&&◌, String, List, [], ◌∷◌, Option, none,
  some, ◌>>=◌, if◌then◌else◌, inl, inr, get_elem?, set, Option-cases,
}
use asserts_otel_processor.Span.{Span, span_has_error}
use asserts_otel_processor.PriorityQueue.{Item}
use asserts_otel_processor.TraceQueue.{push}
use asserts_otel_processor.ServiceQueues.{TraceSampler}
use asserts_otel_processor.Traces.{TraceSegment}
use asserts_otel_processor.Sampling.{
  Core, mark, ignore_error_type, span_is_slow, push_error, push_slow, sample_span, sample_spans,
}

pub data SampleType : Type 0 where
  error slow : SampleType

abbrev pub name_of : SampleType → String
name_of error = "error"
name_of slow = "slow"

-- The samplers after a push of the item to the queue of the sampler at `q`; `none` is a panic.
abbrev pub push_sample : SampleType → ℕ → Item → List TraceSampler → Option (List TraceSampler)
push_sample error q item samplers = do
  sampler ← get_elem? samplers q
  queue ← push sampler.error_queue (record item { sample_type = "error" })
  some (set samplers q (record sampler { error_queue = queue }))
push_sample slow q item samplers = do
  sampler ← get_elem? samplers q
  queue ← push sampler.slow_queue (record item { sample_type = "slow" })
  some (set samplers q (record sampler { slow_queue = queue }))

abbrev pub with_samplers : List TraceSampler → Core → Core
with_samplers samplers core = record core { samplers = samplers }

abbrev or_later : Option SampleType → Option SampleType → Option SampleType
or_later (some c) later = some c
or_later none later = later

module _ (ts : TraceSegment) where
  -- What a span is captured as, if at all: an error counts before slowness.
  abbrev pub classify : Core → Span → Option SampleType
  classify core span =
      if span_has_error span && not (ignore_error_type core span)
      then some error
      else if (span_is_slow core span ts).0
      then some slow
      else none

  abbrev pub class_of : Core → ℕ → Option SampleType
  class_of core a = classify core (core.memory a)

  abbrev pub marked : Option SampleType → Core → ℕ → Core
  marked (some error) core a = mark a "error" core
  marked (some slow) core a = mark a "slow" (span_is_slow core (core.memory a) ts).1
  marked none core a = (span_is_slow core (core.memory a) ts).1

  -- The span is marked as what it is captured as.
  abbrev pub mark_span : Core → ℕ → Core
  mark_span core a = marked (class_of core a) core a

  unfoldable pub mark_spans : List ℕ → Core → Core
  mark_spans [] core = core
  mark_spans (a ∷ rest) core = mark_spans rest (mark_span core a)

  -- What the first span that is captured is captured as.
  unfoldable pub first_class : List ℕ → Core → Option SampleType
  first_class [] core = none
  first_class (a ∷ rest) core = or_later (class_of core a) (first_class rest (mark_span core a))

-- The samplers after at most one push.
abbrev pub push_first :
    Option SampleType → ℕ → Item → List TraceSampler → Option (List TraceSampler)
push_first (some c) q item samplers = push_sample c q item samplers
push_first none q item samplers = some samplers

abbrev pub is_some {ℓ} : {A : Type ℓ} → Option A → Bool
is_some none = false
is_some (some a) = true

-- What is done with the result of a run after a run.
bind-bind {ℓ} :
    {A B C : Type ℓ} (o : Option A) (f : A → Option B) (g : B → Option C)
    → ((o >>= f) >>= g) ≡ (o >>= λ a. f a >>= g)
bind-bind none f g = refl
bind-bind (some a) f g = refl

bind-cong {ℓ} :
    {A B : Type ℓ} (o : Option A) (f g : A → Option B)
    → ((a : A) → f a ≡ g a)
    → (o >>= f) ≡ (o >>= g)
bind-cong none f g h = refl
bind-cong (some a) f g h = h a

choose {ℓ} :
    {X : Type ℓ} (b c : Bool) (f : Option SampleType → X) {x y z : X}
    → x ≡ f (some error)
    → y ≡ f (some slow)
    → z ≡ f none
    → (if b then x else if c then y else z)
      ≡ f (if b then some error else if c then some slow else none)
choose true c f p q r = p
choose false true f p q r = q
choose false false f p q r = r

module _ (ts : TraceSegment) (item : Item) (q : ℕ) where
  push_error_lem :
      (core : Core)
      → push_error q (record item { sample_type = "error" }) core
        ≡ (push_sample error q item core.samplers >>= λ s. some (with_samplers s core))
  unfolding push_error
  push_error_lem core = elim (Option-cases (get_elem? core.samplers q)) [
    | inl e ↦ rw e refl
    | inr (sampler, e) ↦ rw e (sym (bind-bind (push sampler.error_queue _) _ _))
  ]

  push_slow_lem :
      (core : Core)
      → push_slow q (record item { sample_type = "slow" }) core
        ≡ (push_sample slow q item core.samplers >>= λ s. some (with_samplers s core))
  unfolding push_slow
  push_slow_lem core = elim (Option-cases (get_elem? core.samplers q)) [
    | inl e ↦ rw e refl
    | inr (sampler, e) ↦ rw e (sym (bind-bind (push sampler.slow_queue _) _ _))
  ]

  marked-with :
      (o : Option SampleType) (s : List TraceSampler) (core : Core) (a : ℕ)
      → marked ts o (with_samplers s core) a ≡ with_samplers s (marked ts o core a)
  unfolding mark span_is_slow
  marked-with none s core a = refl
  marked-with (some error) s core a = refl
  marked-with (some slow) s core a = refl

  mark_spans-with :
      (spans : List ℕ) (s : List TraceSampler) (core : Core)
      → mark_spans ts spans (with_samplers s core) ≡ with_samplers s (mark_spans ts spans core)
  unfolding mark_spans ignore_error_type span_is_slow
  mark_spans-with [] s core = refl
  mark_spans-with (a ∷ rest) s core =
      ap (mark_spans ts rest) (marked-with (class_of ts core a) s core a)
      ∙ mark_spans-with rest s (mark_span ts core a)

  -- Once something was sampled, the loop only marks.
  sample_span_again :
      (a : ℕ) (core : Core) → sample_span ts item q a core true ≡ some (mark_span ts core a, true)
  unfolding sample_span
  sample_span_again a core = choose _ _ (λ o. some (marked ts o core a, true)) refl refl refl

  pub sample_spans_again :
      (spans : List ℕ) (core : Core)
      → sample_spans ts item q spans core true ≡ some (mark_spans ts spans core, true)
  unfolding sample_spans mark_spans
  sample_spans_again [] core = refl
  sample_spans_again (a ∷ rest) core =
      rw (sample_span_again a core) (sample_spans_again rest (mark_span ts core a))

  -- A turn of the loop while nothing was sampled.
  abbrev turn : Option SampleType → ℕ → Core → Option (Core × Bool)
  turn o a core = push_first o q item core.samplers >>= λ s.
      some (with_samplers s (marked ts o core a), is_some o)

  sample_span_first :
      (a : ℕ) (core : Core) → sample_span ts item q a core false ≡ turn (class_of ts core a) a core
  unfolding sample_span mark span_is_slow
  sample_span_first a core =
      let marked_error = mark a "error" core in
      let marked_slow = mark a "slow" (span_is_slow core (core.memory a) ts).1 in
      choose _ _ (λ o. turn o a core)
        (ap (λ o. o >>= λ c. some (c, true)) (push_error_lem marked_error)
          ∙ bind-bind (push_sample error q item core.samplers) _ _)
        (ap (λ o. o >>= λ c. some (c, true)) (push_slow_lem marked_slow)
          ∙ bind-bind (push_sample slow q item core.samplers) _ _)
        refl

  after_first :
      (o : Option SampleType) (a : ℕ) (rest : List ℕ) (core : Core)
      → ((c : Core)
          → sample_spans ts item q rest c false ≡ (
              push_first (first_class ts rest c) q item c.samplers >>= λ s.
              some (with_samplers s (mark_spans ts rest c), is_some (first_class ts rest c))))
      → (turn o a core >>= λ r. sample_spans ts item q rest r.0 r.1) ≡ (
          push_first (or_later o (first_class ts rest (marked ts o core a))) q item core.samplers
          >>= λ s. some (
            with_samplers s (mark_spans ts rest (marked ts o core a)),
            is_some (or_later o (first_class ts rest (marked ts o core a))),
          ))
  unfolding span_is_slow
  after_first none a rest core ih = ih (marked ts none core a)
  after_first (some c) a rest core ih =
      bind-bind (push_sample c q item core.samplers) _ _
      ∙ bind-cong (push_sample c q item core.samplers) _ _ λ s.
        sample_spans_again rest (with_samplers s (marked ts (some c) core a))
        ∙ ap (λ k. some (k, true)) (mark_spans-with rest s (marked ts (some c) core a))

  -- The loop over the spans of a segment of a trace that is not sampled yet marks every span that is
  -- captured, and pushes the item once, as what the first of them is captured as; it panics only
  -- if this push does, and the trace is sampled exactly if there is such a span.
  pub sample_spans_once :
      (spans : List ℕ) (core : Core)
      → sample_spans ts item q spans core false ≡ (
          push_first (first_class ts spans core) q item core.samplers >>= λ s.
          some (with_samplers s (mark_spans ts spans core), is_some (first_class ts spans core)))
  unfolding sample_spans mark_spans first_class
  sample_spans_once [] core = refl
  sample_spans_once (a ∷ rest) core =
      rw (sample_span_first a core)
        (after_first (class_of ts core a) a rest core (sample_spans_once rest))
