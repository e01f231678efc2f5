-- ===== src/Sampling/LoopSafety.antt =====
-- sampleTraces does not panic on any batch.
use asserts_otel_processor.Base.{
  ℕ, ◌^◌, ◌<◌, ◌≡◌, Bool, true, false, List, [], ◌∷◌, some, All, All-imp, length, length-set,
  get_elem?_lt, Yields, yields, Yields-bind, Yields-some, Yields-if, Yields-Always, inl, inr, arith,
}
use asserts_otel_processor.Base.Int.{ℤ}
use asserts_otel_processor.Cache.{TtlCache, IsFaithful}
use asserts_otel_processor.Traces.{TraceSegment, get_main_span}
use asserts_otel_processor.Sampling.Batch.{Turn, next, returned, Sampled}
use asserts_otel_processor.Sampling.Progress.{IsSoundTurn, sample_segments-IsSound}
use asserts_otel_processor.Sampling.Ready.{
  Services, IsSettled, IsSettled-keep, AfterTurns, cached-IsReady, sample_segments-AfterTurns,
}
use asserts_otel_processor.Sampling.Normal.{Normal}
use asserts_otel_processor.Sampling.NormalSafety.{IsSoundNormal, capture_normal_sample-IsSound}
use asserts_otel_processor.Sampling.Loop.{
  capture_normal_trace_sample, State, with_sampler, capture_unless, finish_trace, sample_trace,
  sample_traces,
}

module _ (t : TtlCache ℕ) (clock : ℕ → ℤ) (faithful : IsFaithful t) (n : ℕ) (small : n < 2 ^ 53)
    (positive : 0 < n) where
  abbrev IsSoundFor : Normal t clock → Type 0
  IsSoundFor = IsSoundNormal t clock faithful n

  capture_normal_trace_sample-IsSound :
      (tr ctx : ℕ) (segments : List TraceSegment) (m : Normal t clock)
      → All (IsSettled m.sampler.services) segments
      → IsSoundFor m
      → Yields
          (λ (r : Bool × List TraceSegment × Normal t clock). IsSoundFor r.2)
          (capture_normal_trace_sample t clock tr ctx segments m)
  unfolding capture_normal_trace_sample
  capture_normal_trace_sample-IsSound tr ctx [] m settled h = yields h
  capture_normal_trace_sample-IsSound tr ctx (ts ∷ rest) m (inl e, others) h =
      rw (e, capture_normal_trace_sample)
        (Yields-bind (capture_normal_trace_sample-IsSound tr ctx rest m others h)
          λ r after. yields after)
  capture_normal_trace_sample-IsSound tr ctx (ts ∷ rest) m (inr ready, others) h =
      rw (ready.main_found, capture_normal_trace_sample)
        (Yields-bind
          (capture_normal_sample-IsSound t clock faithful n small positive (get_main_span ts).1 _ m
            ready.number (cached-IsReady m.sampler.services ts ready) h)
          λ r kept.
            let still =
              All-imp _ _ rest
                (λ ts'. IsSettled-keep m.sampler.services r.1.sampler.services ts' kept.1) others in
            Yields-if r.0 (λ captured. yields kept.0)
              (λ not_captured.
                Yields-bind (capture_normal_trace_sample-IsSound tr ctx rest r.1 still kept.0)
                  λ r' after. yields after))

  capture_unless-IsSound :
      (tr ctx : ℕ) (sampled : Bool) (segments : List TraceSegment) (m : Normal t clock)
      → All (IsSettled m.sampler.services) segments
      → IsSoundFor m
      → Yields
          (λ (r : List TraceSegment × Normal t clock). IsSoundFor r.1)
          (capture_unless t clock tr ctx sampled segments m)
  unfolding capture_unless
  capture_unless-IsSound tr ctx true segments m settled h = yields h
  capture_unless-IsSound tr ctx false segments m settled h =
      Yields-bind (capture_normal_trace_sample-IsSound tr ctx segments m settled h)
        λ r after. yields after

  -- The sampler and the caches are in order, and there are `k` traces.
  pub record IsSoundState (k : ℕ) (s : State t clock) : Type 0 where
    pub normal_sound : IsSoundFor s.normal
    pub trace_count : length s.traces ≡ k

  abbrev pub IsSoundEnd : ℕ → Turn (State t clock) → Type 0
  IsSoundEnd k (next s) = IsSoundState k s
  IsSoundEnd k (returned s) = IsSoundState k s

  finish_trace-IsSound :
      (k tr ctx : ℕ) (old : Services) (turn : Turn (Sampled (List TraceSegment)))
      (s : State t clock)
      → IsSoundState k s
      → IsSoundTurn n small positive turn
      → AfterTurns old turn
      → Yields (IsSoundEnd k) (finish_trace t clock tr ctx turn s)
  unfolding finish_trace
  finish_trace-IsSound k tr ctx old (returned (segments, sampler, sampled)) s h sound after =
      yields (record {
        normal_sound = record { sound = sound; addressed = h.normal_sound.addressed };
        trace_count =
            omega (arith, length-set s.traces tr (record { segments = segments }), h.trace_count);
      })
  finish_trace-IsSound k tr ctx old (next (segments, sampler, sampled)) s h sound after =
      Yields-bind
        (capture_unless-IsSound tr ctx sampled segments (with_sampler t clock sampler s.normal)
          after.0 (record { sound = sound; addressed = h.normal_sound.addressed }))
        λ r kept. yields (record {
          normal_sound = kept;
          trace_count =
              omega (arith, length-set s.traces tr (record { segments = r.0 }), h.trace_count);
        })

  sample_trace-IsSound :
      (k ctx tr : ℕ) (s : State t clock)
      → tr < k
      → IsSoundState k s
      → Yields (IsSoundEnd k) (sample_trace t clock ctx tr s)
  unfolding sample_trace
  sample_trace-IsSound k ctx tr s inside h =
      let (trace, e) = get_elem?_lt s.traces tr (omega (arith, h.trace_count)) in
      let sampler = s.normal.sampler in
      Yields-some _ trace e (
        Yields-bind
          (Yields-Always _ _
            (sample_segments-IsSound n small positive tr ctx trace.segments sampler false
              h.normal_sound.sound)
            (sample_segments-AfterTurns tr ctx trace.segments sampler false))
          λ turn both. finish_trace-IsSound k tr ctx sampler.services turn s h both.0 both.1)

  -- For a limit per request n with 0 < n < 2^53 and a cache that holds what was set and nothing else:
  -- in a state whose queues are bounded and whose queue sets and caches have addresses of samplers
  -- and of sampling states only, sampleTraces ends without a panic on any batch of traces,
  -- whatever the clock says, and the state is such a state again.
  pub sample_traces-IsSound :
      (k ctx : ℕ) (batch : List ℕ) (s : State t clock)
      → All (λ tr. tr < k) batch
      → IsSoundState k s
      → Yields (IsSoundState k) (sample_traces t clock ctx batch s)
  unfolding sample_traces
  sample_traces-IsSound k ctx [] s inside h = yields h
  sample_traces-IsSound k ctx (tr ∷ rest) s inside h =
      Yields-bind (sample_trace-IsSound k ctx tr s inside.0 h)
        (go λ s' sound. sample_traces-IsSound k ctx rest s' inside.1 sound)
    where
      go :
          ((s' : State t clock)
            → IsSoundState k s'
            → Yields (IsSoundState k) (sample_traces t clock ctx rest s'))
          → (turn : Turn (State t clock)) → IsSoundEnd k turn
          → Yields
              (IsSoundState k)
              (elim turn [ returned s' ↦ some s' | next s' ↦ sample_traces t clock ctx rest s' ])
      go later (returned s') sound = yields sound
      go later (next s') sound = later s' sound
