-- ===== src/PeriodicSampling/Spacing.antt =====
-- One goroutine: the samples are further apart than the interval.
use asserts_otel_processor.Base.{
  ℕ, ◌+◌, ◌*◌, ◌^◌, ◌<◌, ◌≡◌, ◌↔◌, true, List, [], ◌∷◌, arith, All, if◌then◌else◌, Bool-cases, inl,
  inr,
}
use asserts_otel_processor.Base.Int.{ℤ, pos, times_ℤ, wrap64_pos, wrap64_sub}
use asserts_otel_processor.PeriodicSampling.{
  PeriodicSamplingState, interval, is_due, take_sample, sample,
}

-- The times at which a series of calls takes a sample.
unfoldable pub sample_times : ℤ → PeriodicSamplingState → List ℕ → List ℕ
sample_times every state [] = []
sample_times every state (now ∷ times) =
    let (taken, state') = sample every (pos now) state in
    let rest = sample_times every state' times in if taken then now ∷ rest else rest

-- Each time is more than `gap` later than the one before it, `last` to begin with.
abbrev pub IsSpaced : ℕ → ℕ → List ℕ → Type 0
IsSpaced gap last [] = Unit
IsSpaced gap last (t ∷ ts) = (last + gap < t) × IsSpaced gap t ts

abbrev pub InRange : ℕ → Type 0
InRange t = t < 2 ^ 62

interval_pos : (n : ℕ) → 60 * n < 2 ^ 62 → interval (pos n) ≡ pos (60 * n)
unfolding interval times_ℤ
interval_pos n h = ground (arith, wrap64_pos (60 * n))

is_due_iff :
    (n now last : ℕ)
    → 60 * n < 2 ^ 62
    → InRange now
    → InRange last
    → (is_due (pos n) (pos now) (record { last_sample_time = pos last }) ≡ true)
      ↔ (last + 60 * n < now)
unfolding is_due
is_due_iff n now last p q r =
    rw (interval_pos n p, wrap64_sub now last q r) (ground arith, ground arith)

-- For a sampling rate of n minutes, and times that do not overflow, every sample is taken more than
-- n minutes after the one before it, in whatever order the calls' times come.
pub sample_times-IsSpaced :
    (n last : ℕ) (times : List ℕ)
    → 60 * n < 2 ^ 62
    → InRange last
    → All InRange times
    → IsSpaced (60 * n) last (sample_times (pos n) (record { last_sample_time = pos last }) times)
unfolding sample_times sample take_sample
sample_times-IsSpaced n last [] p r h = tt
sample_times-IsSpaced n last (now ∷ times) p r h =
    elim (Bool-cases (is_due (pos n) (pos now) state)) [
      | inl due ↦
          rw (due, sample, take_sample)
            ((is_due_iff n now last p h.0 r).0 due, sample_times-IsSpaced n now times p h.0 h.1)
      | inr early ↦ rw (early, sample) (sample_times-IsSpaced n last times p r h.1)
    ]
  where
    state : PeriodicSamplingState
    state = record { last_sample_time = pos last }
