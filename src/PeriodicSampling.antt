-- ===== src/PeriodicSampling.antt =====
-- assertsprocessor/periodic_sampler.go: normal traces are sampled at most once in so many minutes.
-- Times are seconds of Unix time, as int64.
pub mod Spacing
pub mod Race
mod Tests
use asserts_otel_processor.Base.{ℕ, Bool, true, false, if◌then◌else◌}
use asserts_otel_processor.Base.Int.{ℤ, pos, ◌-ℤ◌, ltb_ℤ, wrap64, times_ℤ}

pub record PeriodicSamplingState : Type 0 where
  pub last_sample_time : ℤ

-- `int64(time.Duration(everyNMinutes) * 60)`
unfoldable pub interval : ℤ → ℤ
unfolding wrap64 times_ℤ
interval every = wrap64 (times_ℤ 60 every)

-- `currentTime - state.lastSampleTime > interval`
unfoldable pub is_due : ℤ → ℤ → PeriodicSamplingState → Bool
unfolding interval wrap64 ◌-ℤ◌
is_due every now state = ltb_ℤ (interval every) (wrap64 (now -ℤ state.last_sample_time))

-- The part under the write lock, which looks again: what the first look found, `sample_now`, is
-- returned unless the second look sets it.
unfoldable pub take_sample : ℤ → ℤ → Bool → PeriodicSamplingState → Bool × PeriodicSamplingState
take_sample every now sample_now state =
    if is_due every now state
    then (true, record state { last_sample_time = now })
    else (sample_now, state)

-- The method, when no other goroutine comes between.
unfoldable pub sample : ℤ → ℤ → PeriodicSamplingState → Bool × PeriodicSamplingState
unfolding take_sample
sample every now state =
    if is_due every now state then take_sample every now true state else (false, state)
