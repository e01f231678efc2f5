-- ===== src/PeriodicSampling/Tests.antt =====
-- The theorems on sampling states at inputs that meet their hypotheses.
use asserts_otel_processor.Base.{ℕ, ◌≡◌, refl, true, List, [], ◌∷◌, arith}
use asserts_otel_processor.Base.Int.{pos, wrap64, times_ℤ, ◌-ℤ◌}
use asserts_otel_processor.PeriodicSampling.{
  PeriodicSamplingState, interval, is_due, take_sample, sample,
}
use asserts_otel_processor.PeriodicSampling.Spacing.{IsSpaced, sample_times, sample_times-IsSpaced}
use asserts_otel_processor.PeriodicSampling.Race.{Reach, begin, returned, Reach-both_sample}

abbrev never_sampled : PeriodicSamplingState
never_sampled = record { last_sample_time = pos 0 }

abbrev calls : List ℕ
calls = 1000 ∷ 1200 ∷ 1300 ∷ 1301 ∷ 2000 ∷ []

-- Every five minutes.
sample_times_run : sample_times (pos 5) never_sampled calls ≡ 1000 ∷ 1301 ∷ 2000 ∷ []
unfolding sample_times sample take_sample is_due interval wrap64 times_ℤ ◌-ℤ◌
sample_times_run = refl

sample_times-IsSpaced_example : IsSpaced 300 0 (sample_times (pos 5) never_sampled calls)
sample_times-IsSpaced_example =
    sample_times-IsSpaced 5 0 calls (omega arith) (omega arith) (omega arith)

never_sampled-due : is_due (pos 5) (pos 1000) never_sampled ≡ true
unfolding is_due interval wrap64 times_ℤ ◌-ℤ◌
never_sampled-due = refl

Reach-both_sample_example :
    Reach
      (pos 5)
      (pos 1000)
      (record { state = never_sampled; left = begin; right = begin })
      (record {
        state = record { last_sample_time = pos 1000 };
        left = returned true;
        right = returned true;
      })
Reach-both_sample_example = Reach-both_sample (pos 5) (pos 1000) never_sampled never_sampled-due
