-- ===== src/Listeners/Runs.antt =====
-- The processor over time: batches and refreshes in any order, one after the other. That a refresh
-- overlaps with a batch is not covered here.
use asserts_otel_processor.Base.{
  ℕ, ◌^◌, ◌<◌, Bool, String, List, [], ◌∷◌, Option, some, if◌then◌else◌, ◌>>=◌, Always,
}
use asserts_otel_processor.Base.Int.{ℤ}
use asserts_otel_processor.Base.Maps.{StringMap}
use asserts_otel_processor.Cache.{TtlCache, IsSized, IsFaithful}
use asserts_otel_processor.Platform.{Platform}
use asserts_otel_processor.Config.{Config}
use asserts_otel_processor.Traces.{Memory, ResourceSpans}
use asserts_otel_processor.MetricHelper.Prometheus.{Registry, IsConsistent}
use asserts_otel_processor.MetricHelper.Sound.{IsAdmissible}
use asserts_otel_processor.Processor.{with_memory, consume_traces}
use asserts_otel_processor.Listeners.{Running, ProcessorOf, refresh}
use asserts_otel_processor.Listeners.Sound.{IsSoundRunning}

-- A batch, with the spans as they arrive; or a tick of the refresh, with whether the exporter would
-- stop, and what was fetched.
pub data Event : Type 0 where
  batch : ℕ → Memory → List ResourceSpans → Event
  tick : Bool → Option Config → Event

module _ (rt : Platform) (labels : TtlCache (StringMap String)) (registry : Registry)
    (states : TtlCache ℕ) (clock : ℕ → ℤ) where
  abbrev RunningOf : Type 0
  RunningOf = Running rt labels registry states clock

  abbrev pub arrived :
      Memory
      → ProcessorOf rt labels registry states clock
      → ProcessorOf rt labels registry states clock
  arrived spans p = record p {
    sampler = with_memory rt labels registry states clock spans p.sampler;
  }

  unfoldable pub step : Event → RunningOf → Option RunningOf
  step (tick stopped fetched) s = some (refresh rt labels registry states clock stopped fetched s)
  step (batch ctx spans resources) s =
      let consumed =
        consume_traces rt labels registry states clock ctx resources (arrived spans s.processor)
        >>= λ p. some (record s { processor = p }) in
      if s.exited then some s else consumed

  unfoldable pub run : List Event → RunningOf → Option RunningOf
  unfolding step
  run [] s = some s
  run (e ∷ es) s = step e s >>= run es

module _ (rt : Platform) (labels : TtlCache (StringMap String)) (registry : Registry)
    (states : TtlCache ℕ) (clock : ℕ → ℤ) (sized : IsSized labels)
    (consistent : IsConsistent registry) (faithful : IsFaithful states) (n r : ℕ)
    (small : r < 2 ^ 53) (positive : 0 < r) where
  abbrev IsSoundFor : Running rt labels registry states clock → Type 0
  IsSoundFor =
      IsSoundRunning rt labels registry states clock sized consistent faithful n r small positive

  -- A configuration that is fetched is admissible.
  abbrev pub IsAdmissibleEvent : Event → Type 0
  IsAdmissibleEvent (batch ctx spans resources) = Unit
  IsAdmissibleEvent (tick stopped fetched) = Always (IsAdmissible rt) fetched
