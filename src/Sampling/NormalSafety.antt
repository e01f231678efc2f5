-- ===== src/Sampling/NormalSafety.antt =====
-- The capture of a normal sample does not panic where the request has a sampler, and keeps the state
-- in order.
use asserts_otel_processor.Base.{
  ℕ, ◌+◌, ◌^◌, min, ◌≤◌, ◌<◌, ◌≡◌, refl, sym, ap, subst, ◌∙◌, Bool, true, String, [], ◌∷◌, ◌++◌,
  Option, none, some, All, All-imp, length, length-append, length-set, get_elem?_lt, Yields, yields,
  Yields-some, Yields-map, Yields-bind, Yields-if, arith, str_eq, Bool-cases, inl, inr,
  All-get_elem?, All-set,
}
use asserts_otel_processor.Base.Int.{ℤ, pos}
use asserts_otel_processor.Base.Maps.{lookup, insert, lookup-insert}
use asserts_otel_processor.Float.{is_num}
use asserts_otel_processor.Cache.{TtlCache, IsFaithful}
use asserts_otel_processor.Config.{Config}
use asserts_otel_processor.PriorityQueue.{Item}
use asserts_otel_processor.TraceQueue.Push.{push-Kept}
use asserts_otel_processor.Traces.{TraceSegment, get_main_span}
use asserts_otel_processor.Sampling.{Core, mark, push_slow}
use asserts_otel_processor.Sampling.Safety.{AreBounded, IsKept}
use asserts_otel_processor.Sampling.Batch.{Sampler, request_state, key_of}
use asserts_otel_processor.Sampling.Soundness.{IsSound, IsFound, config_of, request_state-IsFound}
use asserts_otel_processor.Sampling.Known.{IsKnown, request_state-keeps, request_state-found}
use asserts_otel_processor.Sampling.Ready.{IsReady, Keeps}
use asserts_otel_processor.Sampling.Normal.{
  Normal, cache_or_new, push_normal, sample_state, state_address, capture_normal_sample,
  capture_if_due, has_place, config_in,
}

-- A push to the slow queue of a sampler with bounded queues.
push_slow-IsKept :
    (m q : ℕ) (item : Item) (core : Core)
    → 0 < m
    → is_num item.latency ≡ true
    → All (AreBounded m) core.samplers
    → q < length core.samplers
    → Yields
        (λ c. IsKept m core.samplers c.samplers × (config_of c ≡ config_of core))
        (push_slow q item core)
unfolding push_slow
push_slow-IsKept m q item core positive num h inside =
    let (sampler, e) = get_elem?_lt core.samplers q inside in
    let bounded = All-get_elem? (AreBounded m) core.samplers q sampler e h in
    rw e (
      Yields-bind (push-Kept m sampler.slow_queue item bounded.0 num positive) λ queue pushed.
        yields (
          (
            All-set (AreBounded m) core.samplers q _ h (pushed.0, bounded.1),
            length-set core.samplers q _,
          ),
          refl,
        ))

module _ (t : TtlCache ℕ) (clock : ℕ → ℤ) (faithful : IsFaithful t) where
  abbrev NormalOf : Type 0
  NormalOf = Normal t clock

  abbrev Addresses : ℕ → t.Cache → Type 0
  Addresses k c = All (λ a. a < k) (t.values c)

  -- The sampler is sound, and the caches have addresses of sampling states.
  pub record IsSoundNormal (n : ℕ) (m : NormalOf) : Type 0 where
    pub sound : IsSound n m.sampler
    pub addressed :
        (key : String) (c : t.Cache) → lookup key m.caches ≡ some c → Addresses (length m.states) c

  cache-Addresses :
      (n : ℕ) (m : NormalOf) (key : String) (config : Config)
      → IsSoundNormal n m
      → Addresses (length m.states) (cache_or_new t clock config (lookup key m.caches))
  cache-Addresses n m key config h = go (lookup key m.caches) refl
    where
      go :
          (o : Option t.Cache)
          → lookup key m.caches ≡ o
          → Addresses (length m.states) (cache_or_new t clock config o)
      go none e = rw (faithful.fresh_empty config) tt
      go (some c) e = h.addressed key c e

  -- A cache is put back, perhaps after a state was added.
  put-addressed :
      (n k : ℕ) (m : NormalOf) (key : String) (c : t.Cache)
      → IsSoundNormal n m
      → length m.states ≤ k
      → Addresses k c
      → (other : String) (d : t.Cache) → lookup other (insert key c m.caches) ≡ some d
      → Addresses k d
  put-addressed n k m key c h longer new other d e = elim (Bool-cases (str_eq key other)) [
    | inl same ↦
        let f : some c ≡ some d = rw (lookup-insert key other c m.caches, same) at e in
        let g : d ≡ c = cc in rw g new
    | inr differ ↦
        All-imp _ _ (t.values d) (λ a below. omega arith)
          (h.addressed other d (rw (lookup-insert key other c m.caches, differ) at e))
  ]

  state_address-IsSound :
      (n : ℕ) (key request : String) (value : Option ℕ) (c : t.Cache) (m : NormalOf)
      → IsSoundNormal n m
      → Addresses (length m.states) c
      → ((a : ℕ) → value ≡ some a → a < length m.states)
      → IsSoundNormal n (state_address t clock key request value c m).1
        × ((state_address t clock key request value c m).0
            < length (state_address t clock key request value c m).1.states)
        × ((state_address t clock key request value c m).1.sampler ≡ m.sampler)
  unfolding state_address
  state_address-IsSound n key request (some a) c m h held inside = (
    record {
      sound = h.sound;
      addressed = put-addressed n (length m.states) m key c h (omega arith) held;
    },
    inside a refl,
    refl,
  )
  state_address-IsSound n key request none c m h held inside =
      let grown : length (m.states ++ record { last_sample_time = pos 0 } ∷ [])
          ≡ length m.states + 1 =
        length-append m.states (record { last_sample_time = pos 0 } ∷ []) in
      (
        record {
          sound = h.sound;
          addressed = put-addressed n _ m key _ h (omega arith) (
              faithful.set_keeps _ request (length m.states) c (omega arith)
                (All-imp _ _ (t.values c) (λ a below. omega arith) held));
        },
        omega arith,
        refl,
      )

  sample_state-IsSound :
      (n a : ℕ) (m : NormalOf)
      → IsSoundNormal n m
      → a < length m.states
      → Yields
          (λ (r : Bool × NormalOf). IsSoundNormal n r.1 × (r.1.sampler ≡ m.sampler))
          (sample_state t clock a m)
  unfolding sample_state
  sample_state-IsSound n a m h inside =
      let (state, e) = get_elem?_lt m.states a inside in
      rw e (
        yields (
          record {
            sound = h.sound;
            addressed = λ key c f. rw (length-set m.states a _) (h.addressed key c f);
          },
          refl,
        ))

  push_normal-IsSound :
      (n q main : ℕ) (item : Item) (ts : TraceSegment) (found : Option ℕ) (m : NormalOf)
      → 0 < n
      → found ≡ some q
      → is_num item.latency ≡ true
      → (get_main_span ts).0 ≡ some main
      → IsSoundNormal n m
      → q < length m.sampler.core.samplers
      → Yields
          (λ (m' : NormalOf). IsSoundNormal n m' × (m'.sampler.services ≡ m.sampler.services))
          (push_normal t clock item ts found m)
  unfolding push_normal mark
  push_normal-IsSound n q main item ts found m positive f num e h inside =
      rw (e, f)
        (Yields-bind
          (push_slow-IsKept (min 5 n) q (record item { sample_type = "normal" })
            (mark main "normal" m.sampler.core) (omega arith) num h.sound.bounded inside)
          λ core kept. yields (
            record {
              sound = record {
                limit = rw kept.1 h.sound.limit;
                bounded = kept.0.0;
                allocated =
                    λ key request sq a p r. rw kept.0.1 (h.sound.allocated key request sq a p r);
              };
              addressed = h.addressed;
            },
            refl,
          ))

  IsFound-some :
      (n : ℕ) (small : n < 2 ^ 53) (q : ℕ) (p : Option ℕ × Sampler)
      → p.0 ≡ some q
      → IsFound n small p
      → IsSound n p.1 × (q < length p.1.core.samplers)
  IsFound-some n small q (none, s) e h = absurd (cc)
  IsFound-some n small q (some a, s) e h = let f : q ≡ a = cc in rw f h

  module _ (n : ℕ) (small : n < 2 ^ 53) (positive : 0 < n) where
    -- A sound state in which no request has lost its sampler.
    abbrev pub IsKeptSound : NormalOf → NormalOf → Type 0
    IsKeptSound m m' = IsSoundNormal n m' × Keeps m.sampler.services m'.sampler.services

    -- The sampler's services are those of a sampler that kept all of `old`.
    capture_if_due-IsSound :
        (a q main : ℕ) (item : Item) (ts : TraceSegment) (found : Option ℕ) (m : NormalOf)
        → found ≡ some q
        → is_num item.latency ≡ true
        → (get_main_span ts).0 ≡ some main
        → IsSoundNormal n m
        → a < length m.states
        → q < length m.sampler.core.samplers
        → Yields
            (λ (r : Bool × NormalOf).
              IsSoundNormal n r.1 × (r.1.sampler.services ≡ m.sampler.services))
            (capture_if_due t clock a item ts found m)
    unfolding capture_if_due
    capture_if_due-IsSound a q main item ts found m f num e h allocated inside =
        Yields-bind (sample_state-IsSound n a m h allocated) λ r after.
          let there = subst (λ (z : Sampler). q < length z.core.samplers) (sym after.1) inside in
          let same = ap (λ (z : Sampler). z.services) after.1 in
          Yields-if r.0
            (λ due.
              Yields-bind
                (push_normal-IsSound n q main item ts found r.1 positive f num e after.0 there)
                λ m' pushed. yields (pushed.0, pushed.1 ∙ same))
            (λ early. yields (after.0, same))

    -- For a segment whose request has a sampler the capture ends without a panic.
    pub capture_normal_sample-IsSound :
        (ts : TraceSegment) (item : Item) (m : NormalOf)
        → is_num item.latency ≡ true
        → IsReady m.sampler.services ts
        → IsSoundNormal n m
        → Yields
            (λ (r : Bool × NormalOf). IsKeptSound m r.1)
            (capture_normal_sample t clock ts item m)
    unfolding capture_normal_sample
    capture_normal_sample-IsSound ts item m num ready h =
        let key = (key_of ts).0 in
        let request = (key_of ts).1 in
        let sampler = (request_state key request m.sampler).1 in
        let (q, found) = request_state-found key request m.sampler ready.known in
        let (sound, inside) =
          IsFound-some n small q (request_state key request m.sampler) found
            (request_state-IsFound n small key request m.sampler h.sound) in
        let keeps = request_state-keeps key request m.sampler in
        let cache = cache_or_new t clock (config_in t clock m) (lookup key m.caches) in
        let value = (t.get request cache).0 in
        let asked = (t.get request cache).1 in
        let held = cache-Addresses n m key (config_in t clock m) h in
        let left = faithful.get_keeps _ request cache held in
        let m' : NormalOf = record m { sampler = sampler } in
        let start : IsSoundNormal n m' = record { sound = sound; addressed = h.addressed } in
        let (addressed, allocated, same) =
          state_address-IsSound n key request value asked m' start left
            (λ a e. faithful.get_found _ request cache a e held) in
        let there = subst (λ (z : Sampler). q < length z.core.samplers) (sym same) inside in
        Yields-some _ ready.request ready.request_set (
          Yields-if (has_place t clock (config_in t clock m) asked value)
            (λ room.
              Yields-map
                (capture_if_due-IsSound _ q ready.main item ts _ _ found num ready.main_found
                  addressed allocated there)
                λ r after. (
                  after.0,
                  λ k d x.
                      subst (IsKnown k d) (sym (after.1 ∙ ap (λ (z : Sampler). z.services) same))
                        (keeps k d x),
                ))
            (λ full. yields (
              record {
                sound = sound;
                addressed = put-addressed n _ m' key asked start (omega arith) left;
              },
              keeps,
            )))
