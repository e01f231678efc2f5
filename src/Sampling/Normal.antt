-- ===== src/Sampling/Normal.antt =====
-- assertsprocessor/sampler.go: the capture of a normal sample. A queue set is made together with its
-- cache of sampling states, so a service without a cache in the map has a new one. The states are
-- shared by pointer: the caches hold addresses.
use asserts_otel_processor.Base.{
  ℕ, suc, Bool, true, false, ◌||◌, String, List, [], ◌∷◌, ◌++◌, Option, none, some, length, set,
  get_elem?, if◌then◌else◌, ◌>>=◌,
}
use asserts_otel_processor.Base.Int.{ℤ, pos, ltb_ℤ}
use asserts_otel_processor.Base.Maps.{StringMap, lookup, insert}
use asserts_otel_processor.Cache.{TtlCache}
use asserts_otel_processor.Config.{Config}
use asserts_otel_processor.PeriodicSampling.{PeriodicSamplingState, sample}
use asserts_otel_processor.PriorityQueue.{Item}
use asserts_otel_processor.Traces.{TraceSegment, get_main_span}
use asserts_otel_processor.Sampling.{mark, push_slow}
use asserts_otel_processor.Sampling.Batch.{Sampler, request_state, key_of}

abbrev pub is_found {ℓ} : {A : Type ℓ} → Option A → Bool
is_found none = false
is_found (some a) = true

module _ (t : TtlCache ℕ) (clock : ℕ → ℤ) where
  open t use {Cache, fresh, get, len}

  -- The sampler with the caches by service, the heap of the sampling states, and the number of
  -- readings of the clock.
  pub record Normal : Type 0 where
    pub sampler : Sampler
    pub caches : StringMap Cache
    pub states : List PeriodicSamplingState
    pub readings : ℕ

  abbrev pub config_in : Normal → Config
  config_in n = n.sampler.core.threshold_helper.config

  abbrev pub cache_or_new : Config → Option Cache → Cache
  cache_or_new config (some c) = c
  cache_or_new config none = fresh config

  abbrev pub put_cache : String → Cache → Normal → Normal
  put_cache key c n = record n { caches = insert key c n.caches }

  -- The item is marked, and pushed to the slow queue; a nil request state panics.
  unfoldable pub push_normal : Item → TraceSegment → Option ℕ → Normal → Option Normal
  push_normal item ts found n = do
    main ← (get_main_span ts).0
    q ← found
    core ← push_slow q (record item { sample_type = "normal" }) (mark main "normal" n.sampler.core)
    some (record n { sampler = record n.sampler { core = core } })

  -- The state of the request is asked whether a sample is due; its address is in the heap.
  unfoldable pub sample_state : ℕ → Normal → Option (Bool × Normal)
  sample_state a n = do
    state ← get_elem? n.states a
    let (due, state') =
        sample (config_in n).normal_sampling_frequency_minutes (clock n.readings) state
    some (due, record n { states = set n.states a state'; readings = suc n.readings })

  -- The address of the request's state, which is made if the cache has none.
  unfoldable pub state_address : String → String → Option ℕ → Cache → Normal → ℕ × Normal
  state_address key request (some a) c n = (a, put_cache key c n)
  state_address key request none c n =
      let a = length n.states in
      (
        a,
        record (put_cache key (t.set request a c) n) {
          states = n.states ++ record { last_sample_time = pos 0 } ∷ [];
        },
      )

  -- If a sample is due by the state at an address, it is pushed.
  unfoldable pub capture_if_due :
      ℕ → Item → TraceSegment → Option ℕ → Normal → Option (Bool × Normal)
  unfolding push_normal sample_state
  capture_if_due a item ts found n = sample_state a n >>= λ r.
      if r.0 then (push_normal item ts found r.1 >>= λ m. some (true, m)) else some (false, r.1)

  -- A new request context is taken up while the cache has fewer than the limit.
  abbrev pub has_place : Config → Cache → Option ℕ → Bool
  has_place config c value = ltb_ℤ (pos (len c)) config.limit_per_service || is_found value

  unfoldable pub capture_normal_sample : TraceSegment → Item → Normal → Option (Bool × Normal)
  unfolding capture_if_due state_address
  capture_normal_sample ts item n = ts.request_key >>= λ rk.
      let (key, request) = key_of ts in
      let (found, sampler) = request_state key request n.sampler in
      let (value, c) = get request (cache_or_new (config_in n) (lookup key n.caches)) in
      let n' = record n { sampler = sampler } in
      let (a, n'') = state_address key request value c n' in
      if has_place (config_in n) c value
      then capture_if_due a item ts found n''
      else some (false, put_cache key c n')
