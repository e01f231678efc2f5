-- ===== src/PeriodicSampling/Race.antt =====
-- Two goroutines with one sampling state, each look and each section under the lock a step. Both calls
-- read the clock at the same second.
use asserts_otel_processor.Base.{◌≡◌, refl, Bool, true, false, Bool-cases, inl, inr}
use asserts_otel_processor.Base.Int.{ℤ}
use asserts_otel_processor.PeriodicSampling.{PeriodicSamplingState, is_due, take_sample, sample}

-- Where a call of `sample` stands: before the first look, after it (`sampleNow` is true), returned.
pub data Pc : Type 0 where
  begin : Pc
  decided : Pc
  returned : Bool → Pc

-- A step of one call that reads the time `now`.
pub data Move (every now : ℤ) (s : PeriodicSamplingState)
    : Pc → PeriodicSamplingState → Pc → Type 0 where
  skip : is_due every now s ≡ false → Move every now s begin s (returned false)
  decide : is_due every now s ≡ true → Move every now s begin s decided
  lock :
      Move every now s decided
        (take_sample every now true s).1
        (returned (take_sample every now true s).0)

pub record Pair : Type 0 where
  pub state : PeriodicSamplingState
  pub left : Pc
  pub right : Pc

-- The runs of two calls that both read the time `now`.
pub data Reach (every now : ℤ) (s : Pair) : Pair → Type 0 where
  here : Reach every now s s
  by_left :
      {t : Pair} {h : PeriodicSamplingState} {p : Pc}
      → Reach every now s t
      → Move every now t.state t.left h p
      → Reach every now s (record { state = h; left = p; right = t.right })
  by_right :
      {t : Pair} {h : PeriodicSamplingState} {p : Pc}
      → Reach every now s t
      → Move every now t.state t.right h p
      → Reach every now s (record { state = h; left = t.left; right = p })

abbrev taken_at : ℤ → PeriodicSamplingState
taken_at now = record { last_sample_time = now }

lock_to :
    (every now : ℤ) (s h : PeriodicSamplingState)
    → take_sample every now true s ≡ (true, h)
    → Move every now s decided h (returned true)
lock_to every now s h e =
    let step : Move every now s decided (take_sample every now true s).1
        (returned (take_sample every now true s).0) =
      lock in
    rw e at step

-- The first section under the lock, where the sample is due, records it.
lock_due :
    (every now : ℤ) (s : PeriodicSamplingState)
    → is_due every now s ≡ true
    → Move every now s decided (taken_at now) (returned true)
unfolding take_sample
lock_due every now s due = lock_to every now s (taken_at now) (rw (take_sample, due) refl)

-- The second finds the sample taken, and returns true all the same.
lock_again : (every now : ℤ) → Move every now (taken_at now) decided (taken_at now) (returned true)
unfolding take_sample
lock_again every now =
    lock_to every now (taken_at now) (taken_at now)
      (elim (Bool-cases (is_due every now (taken_at now))) [
        | inl due ↦ rw (take_sample, due) refl
        | inr early ↦ rw (take_sample, early) refl
      ])

-- Whenever a sample is due at the time that two calls read, there is a run of the two in which both
-- return true, and one time of a sample is recorded: both decide before either has the lock, and the
-- second look under the lock does not take it back.
pub Reach-both_sample :
    (every now : ℤ) (s : PeriodicSamplingState)
    → is_due every now s ≡ true
    → Reach every now
        (record { state = s; left = begin; right = begin })
        (record {
          state = record { last_sample_time = now };
          left = returned true;
          right = returned true;
        })
Reach-both_sample every now s due =
    by_right
      (by_left (by_right (by_left here (decide due)) (decide due)) (lock_due every now s due))
      (lock_again every now)

-- A call that meets no other goes through the steps with the result of `sample`.
pub sample-Reach :
    (every now : ℤ) (s : PeriodicSamplingState)
    → Reach every now
        (record { state = s; left = begin; right = returned false })
        (record {
          state = (sample every now s).1;
          left = returned (sample every now s).0;
          right = returned false;
        })
unfolding sample
sample-Reach every now s = elim (Bool-cases (is_due every now s)) [
  | inl due ↦ rw due (by_left (by_left here (decide due)) (lock_due every now s due))
  | inr early ↦ rw early (by_left here (skip early))
]
