-- ===== src/Sampling/Soundness.antt =====
-- The state of the sampler that keeps its addresses and queues in order.
use asserts_otel_processor.Base.{
  ℕ, ◌+◌, ◌^◌, min, ◌≤◌, ◌<◌, ◌≡◌, refl, ◌∙◌, String, List, [], ◌∷◌, Option, none, some, All,
  All-append, length, length-append, arith, str_eq, Bool-cases, inl, inr,
}
use asserts_otel_processor.Base.Int.{pos}
use asserts_otel_processor.Base.Maps.{lookup, insert, lookup-insert}
use asserts_otel_processor.Config.{Config}
use asserts_otel_processor.Thresholds.{get_threshold}
use asserts_otel_processor.ServiceQueues.{
  ServiceQueues, Shared, new_service_queues, new_trace_sampler,
}
use asserts_otel_processor.ServiceQueues.Requests.{
  Answer, known, created, refused, get_request_state-Answer,
}
use asserts_otel_processor.Traces.{TraceSegment}
use asserts_otel_processor.Sampling.{Core, mark, span_is_slow}
use asserts_otel_processor.Sampling.Spans.{
  SampleType, error, slow, marked, class_of, mark_span, mark_spans,
}
use asserts_otel_processor.Sampling.Safety.{AreBounded, new_trace_sampler-AreBounded}
use asserts_otel_processor.Sampling.Batch.{Sampler, queues_or_new, request_state}

abbrev pub config_of : Core → Config
config_of core = core.threshold_helper.config

module _ (ts : TraceSegment) where
  marked-config :
      (o : Option SampleType) (core : Core) (a : ℕ)
      → config_of (marked ts o core a) ≡ config_of core
  unfolding mark span_is_slow get_threshold
  marked-config none core a = refl
  marked-config (some error) core a = refl
  marked-config (some slow) core a = refl

  pub mark_spans-config :
      (spans : List ℕ) (core : Core) → config_of (mark_spans ts spans core) ≡ config_of core
  unfolding mark_spans
  mark_spans-config [] core = refl
  mark_spans-config (a ∷ rest) core =
      mark_spans-config rest (mark_span ts core a) ∙ marked-config (class_of ts core a) core a

  pub mark_spans-samplers :
      (spans : List ℕ) (core : Core) → (mark_spans ts spans core).samplers ≡ core.samplers
  unfolding mark_spans mark span_is_slow
  mark_spans-samplers [] core = refl
  mark_spans-samplers (a ∷ rest) core =
      mark_spans-samplers rest (mark_span ts core a) ∙ same (class_of ts core a)
    where
      same : (o : Option SampleType) → (marked ts o core a).samplers ≡ core.samplers
      same none = refl
      same (some error) = refl
      same (some slow) = refl

-- The limit of the configuration is `n`, all queues are bounded, and every address in the queue sets
-- is one of a sampler.
pub record IsSound (n : ℕ) (s : Sampler) : Type 0 where
  pub limit : (config_of s.core).limit_per_request_per_service ≡ pos n
  pub bounded : All (AreBounded (min 5 n)) s.core.samplers
  pub allocated :
      (key request : String) (sq : ServiceQueues) (a : ℕ)
      → lookup key s.services ≡ some sq
      → lookup request sq.request_states ≡ some a
      → a < length s.core.samplers

-- The queue set of a service is new if the map has none.
queues-allocated :
    (n : ℕ) (key request : String) (s : Sampler) (a : ℕ)
    → IsSound n s
    → lookup request (queues_or_new (lookup key s.services)).request_states ≡ some a
    → a < length s.core.samplers
unfolding new_service_queues lookup
queues-allocated n key request s a h e = go (lookup key s.services) refl e
  where
    go :
        (o : Option ServiceQueues)
        → lookup key s.services ≡ o
        → lookup request (queues_or_new o).request_states ≡ some a
        → a < length s.core.samplers
    go none p e = absurd (cc)
    go (some sq) p e = h.allocated key request sq a p e

insert-allocated :
    (n k : ℕ) (key : String) (s : Sampler) (new : ServiceQueues)
    → IsSound n s
    → length s.core.samplers ≤ k
    → ((request : String) (a : ℕ) → lookup request new.request_states ≡ some a → a < k)
    → (other request : String) (sq : ServiceQueues) (a : ℕ)
    → lookup other (insert key new s.services) ≡ some sq
    → lookup request sq.request_states ≡ some a
    → a < k
insert-allocated n k key s new h longer fresh other request sq a p q =
    elim (Bool-cases (str_eq key other)) [
      | inl same ↦
          let e : some new ≡ some sq = rw (lookup-insert key other new s.services, same) at p in
          let f : sq ≡ new = cc in fresh request a (rw f at q)
      | inr differ ↦
          let e : lookup other s.services ≡ some sq =
            rw (lookup-insert key other new s.services, differ) at p in
          let below = h.allocated other request sq a e q in omega arith
    ]

module _ (n : ℕ) (small : n < 2 ^ 53) where
  abbrev pub IsFound : Option ℕ × Sampler → Type 0
  IsFound (none, s) = IsSound n s
  IsFound (some q, s) = IsSound n s × (q < length s.core.samplers)

  abbrev stored : String → Sampler → Option ℕ × Shared → Option ℕ × Sampler
  stored key s (found, g) = (
    found,
    record s {
      core = record s.core { samplers = g.heap };
      services = insert key g.queues s.services;
    },
  )

  stored-IsFound :
      (key request : String) (s : Sampler) {r : Option ℕ × Shared}
      → IsSound n s
      → Answer
          (config_of s.core)
          request
          (record { queues = queues_or_new (lookup key s.services); heap = s.core.samplers })
          r
      → IsFound (stored key s r)
  stored-IsFound key request s h (known {a = a} e) = (
    record {
      limit = h.limit;
      bounded = h.bounded;
      allocated =
          insert-allocated n _ key s _ h (omega arith)
            λ other b p. queues-allocated n key other s b h p;
    },
    queues-allocated n key request s a h e,
  )
  stored-IsFound key request s h
        (created {a = a} {h = g} absent room at_end newest grown count size there) =
      let longer : length g.heap ≡ length s.core.samplers + 1 =
        rw grown (length-append s.core.samplers (new_trace_sampler (config_of s.core) ∷ [])) in
      (
        record {
          limit = h.limit;
          bounded = rw grown (
              All-append (AreBounded (min 5 n)) s.core.samplers _ h.bounded
                (new_trace_sampler-AreBounded (config_of s.core) n small h.limit, tt));
          allocated = insert-allocated n (length g.heap) key s g.queues h (omega arith) λ other b p.
              elim (Bool-cases (str_eq request other)) [
                | inl same ↦
                    let e : some a ≡ some b = rw (there other, same) at p in
                    let f : b ≡ a = cc in omega arith
                | inr differ ↦
                    let below =
                      queues-allocated n key other s b h (rw (there other, differ) at p) in
                    omega arith
              ];
        },
        omega arith,
      )
  stored-IsFound key request s h (refused e full) = record {
    limit = h.limit;
    bounded = h.bounded;
    allocated =
        insert-allocated n _ key s _ h (omega arith)
          λ other b p. queues-allocated n key other s b h p;
  }

  pub request_state-IsFound :
      (key request : String) (s : Sampler) → IsSound n s → IsFound (request_state key request s)
  unfolding request_state
  request_state-IsFound key request s h = stored-IsFound key request s h (
      get_request_state-Answer (config_of s.core) request
        (record { queues = queues_or_new (lookup key s.services); heap = s.core.samplers }))
