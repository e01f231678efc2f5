-- ===== src/Sampling/Ready.antt =====
-- What the loop over the segments leaves behind: each segment has no main span, or a request with a
-- sampler.
use asserts_otel_processor.Base.{
  ℕ, ◌≡◌, refl, ◌∙◌, ◌⊎◌, Bool, true, String, List, [], ◌∷◌, Option, none, some, All, ◌>>=◌,
  Option-cases, inl, inr, Always, Always-bind,
}
use asserts_otel_processor.Base.Maps.{StringMap}
use asserts_otel_processor.Config.{Config}
use asserts_otel_processor.Float.{is_num, seconds-is_num}
use asserts_otel_processor.Keys.{RequestKey}
use asserts_otel_processor.Span.{compute_latency}
use asserts_otel_processor.ServiceQueues.{ServiceQueues}
use asserts_otel_processor.Traces.{Memory, TraceSegment, get_non_internal_spans, get_main_span}
use asserts_otel_processor.Sampling.{Core, update_trace, sample_spans}
use asserts_otel_processor.Sampling.Batch.{
  Sampler, request_state, Turn, next, returned, Sampled, sample_with, sample_segment,
  sample_segments, prepend, key_of,
}
use asserts_otel_processor.Sampling.Known.{IsKnown, request_state-keeps, request_state-IsKnown}

abbrev pub Services : Type 0
Services = StringMap ServiceQueues

-- A segment with a main span, a request that has a sampler, and a latency that is a number.
pub record IsReady (services : Services) (ts : TraceSegment) : Type 0 where
  pub main : ℕ
  pub main_found : (get_main_span ts).0 ≡ some main
  pub request : RequestKey
  pub request_set : ts.request_key ≡ some request
  pub known : IsKnown (key_of ts).0 (key_of ts).1 services
  pub number : is_num ts.latency ≡ true

abbrev pub IsSettled : Services → TraceSegment → Type 0
IsSettled services ts = ((get_main_span ts).0 ≡ none) ⊎ IsReady services ts

-- No request loses its sampler.
abbrev pub Keeps : Services → Services → Type 0
Keeps old new = (key request : String) → IsKnown key request old → IsKnown key request new

pub IsSettled-keep :
    (old new : Services) (ts : TraceSegment) → Keeps old new → IsSettled old ts → IsSettled new ts
IsSettled-keep old new ts keep (inl e) = inl e
IsSettled-keep old new ts keep (inr h) = inr (record {
  main = h.main;
  main_found = h.main_found;
  request = h.request;
  request_set = h.request_set;
  known = keep _ _ h.known;
  number = h.number;
})

-- A segment whose main span was asked for.
cached_main : (ts : TraceSegment) → (get_main_span (get_main_span ts).1).0 ≡ (get_main_span ts).0
unfolding get_main_span get_non_internal_spans
cached_main ts = elim (Option-cases ts.non_internal_spans) [
  | inl e ↦ rw e refl
  | inr (l, e) ↦ rw e refl
]

updated_main :
    (config : Config) (mem : Memory) (a : ℕ) (ts : TraceSegment)
    → (get_main_span (get_non_internal_spans (update_trace config mem a ts)).1).0
      ≡ (get_main_span ts).0
unfolding get_main_span get_non_internal_spans update_trace
updated_main config mem a ts = elim (Option-cases ts.non_internal_spans) [
  | inl e ↦ rw e refl
  | inr (l, e) ↦ rw e refl
]

-- The cache is all that asking for the spans changes.
asked :
    (ts : TraceSegment)
    → (key_of (get_non_internal_spans ts).1 ≡ key_of ts)
      × ((get_non_internal_spans ts).1.request_key ≡ ts.request_key)
      × ((get_non_internal_spans ts).1.latency ≡ ts.latency)
unfolding get_non_internal_spans
asked ts = elim (Option-cases ts.non_internal_spans) [
  | inl e ↦ rw e (refl, refl, refl)
  | inr (l, e) ↦ rw e (refl, refl, refl)
]

updated-IsReady :
    (services : Services) (config : Config) (mem : Memory) (a : ℕ) (ts : TraceSegment)
    → (get_main_span ts).0 ≡ some a
    → IsKnown
        (key_of (update_trace config mem a ts)).0
        (key_of (update_trace config mem a ts)).1
        services
    → IsReady services (get_non_internal_spans (update_trace config mem a ts)).1
unfolding update_trace compute_latency
updated-IsReady services config mem a ts e h =
    let (key, request, latency) = asked (update_trace config mem a ts) in
    record {
      main = a;
      main_found = updated_main config mem a ts ∙ e;
      request = _;
      request_set = request;
      known = rw key h;
      number = rw latency (seconds-is_num _);
    }

-- After a turn from the services `old`: if the loop goes on, the segment is settled and no sampler is
-- lost.
abbrev pub AfterTurn : Services → Turn (Sampled TraceSegment) → Type 0
AfterTurn old (next (ts, s, b)) = IsSettled s.services ts × Keeps old s.services
AfterTurn old (returned r) = Unit

abbrev pub AfterTurns : Services → Turn (Sampled (List TraceSegment)) → Type 0
AfterTurns old (next (segments, s, b)) = All (IsSettled s.services) segments × Keeps old s.services
AfterTurns old (returned r) = Unit

module _ (tr ctx : ℕ) where
  sample_with-AfterTurn :
      (old : Services) (ts : TraceSegment) (sampled : Bool) (found : Option ℕ) (s : Sampler)
      → ((q : ℕ) → found ≡ some q → IsSettled s.services (get_non_internal_spans ts).1)
      → Keeps old s.services
      → Always (AfterTurn old) (sample_with tr ctx ts sampled (found, s))
  unfolding sample_with
  sample_with-AfterTurn old ts sampled none s settled keep = tt
  sample_with-AfterTurn old ts sampled (some q) s settled keep =
      Always-bind (λ r. Unit {0}) (AfterTurn old) (sample_spans _ _ q _ s.core sampled) _
        (anything _) λ r h. (settled q refl, keep)
    where
      anything : (o : Option (Core × Bool)) → Always (λ r. Unit {0}) o
      anything none = tt
      anything (some r) = tt

  sample_segment-AfterTurn :
      (ts : TraceSegment) (s : Sampler) (sampled : Bool)
      → Always (AfterTurn s.services) (sample_segment tr ctx ts s sampled)
  unfolding sample_segment
  sample_segment-AfterTurn ts s sampled = elim (Option-cases (get_main_span ts).0) [
    | inl e ↦ rw (sample_segment, e) (inl (cached_main ts ∙ e), λ key request h. h)
    | inr (a, e) ↦
        let config = s.core.threshold_helper.config in
        let ts' = update_trace config s.core.memory a (get_main_span ts).1 in
        let (key, request) = key_of ts' in
        rw (sample_segment, e)
          (sample_with-AfterTurn s.services ts' sampled _ (request_state key request s).1
            (λ q found. inr (
              updated-IsReady _ config s.core.memory a (get_main_span ts).1 (cached_main ts ∙ e)
                (request_state-IsKnown key request s q found)))
            (request_state-keeps key request s))
  ]

  prepend-AfterTurns :
      (old : Services) (ts : TraceSegment) (s : Sampler) (turn : Turn (Sampled (List TraceSegment)))
      → IsSettled s.services ts
      → Keeps old s.services
      → AfterTurns s.services turn
      → AfterTurns old (prepend ts turn)
  prepend-AfterTurns old ts s (next (segments, s', b)) h keep after = (
    (IsSettled-keep s.services s'.services ts after.1 h, after.0),
    λ key request k. after.1 key request (keep key request k),
  )
  prepend-AfterTurns old ts s (returned r) h keep after = tt

  -- The loop over the segments, if it goes on to its end.
  pub sample_segments-AfterTurns :
      (segments : List TraceSegment) (s : Sampler) (sampled : Bool)
      → Always (AfterTurns s.services) (sample_segments tr ctx segments s sampled)
  unfolding sample_segments
  sample_segments-AfterTurns [] s sampled = (tt, λ key request h. h)
  sample_segments-AfterTurns (ts ∷ rest) s sampled =
      Always-bind (AfterTurn s.services) (AfterTurns s.services)
        (sample_segment tr ctx ts s sampled) _ (sample_segment-AfterTurn ts s sampled)
        (go λ s' b. sample_segments-AfterTurns rest s' b)
    where
      go :
          ((s' : Sampler) (b : Bool)
            → Always (AfterTurns s'.services) (sample_segments tr ctx rest s' b))
          → (turn : Turn (Sampled TraceSegment)) → AfterTurn s.services turn
          → Always (AfterTurns s.services) (elim turn [
            | returned (ts', s', sampled') ↦ some (returned (ts' ∷ rest, s', sampled'))
            | next (ts', s', sampled') ↦
                sample_segments tr ctx rest s' sampled' >>= λ u. some (prepend ts' u)
          ])
      go later (returned (ts', s', b)) h = tt
      go later (next (ts', s', b)) h =
          Always-bind (AfterTurns s'.services) (AfterTurns s.services)
            (sample_segments tr ctx rest s' b) _ (later s' b)
            λ u after. prepend-AfterTurns s.services ts' s' u h.0 h.1 after

-- Asking for the main span again changes nothing that matters.
pub cached-IsReady :
    (services : Services) (ts : TraceSegment)
    → IsReady services ts
    → IsReady services (get_main_span ts).1
unfolding get_main_span
cached-IsReady services ts h =
    let (key, request, latency) = asked ts in
    record {
      main = h.main;
      main_found = cached_main ts ∙ h.main_found;
      request = h.request;
      request_set = request ∙ h.request_set;
      known = rw key h.known;
      number = rw latency h.number;
    }
