-- ===== src/MetricHelper/Sound.antt =====
-- What is observed has the labels of the histogram, and the caches stay within the limit.
use asserts_otel_processor.Base.{
  ℕ, ◌≤◌, ◌≡◌, refl, ap, Bool, true, false, String, List, [], ◌∷◌, Option, none, some, All,
  All-append, Yields, yields, Yields-if, Always, ltb, length, Always-bind, Bool-cases, inl, inr,
  arith, str_eq,
}
use asserts_otel_processor.Base.Int.{pos, ltb_ℤ}
use asserts_otel_processor.Base.Maps.{StringMap, lookup, insert, lookup-insert}
use asserts_otel_processor.Float.{Float64}
use asserts_otel_processor.Cache.{TtlCache, IsSized}
use asserts_otel_processor.Platform.{Platform}
use asserts_otel_processor.Span.{Value, Span, get_attribute, as_string_or_empty, compute_latency}
use asserts_otel_processor.Config.{Config}
use asserts_otel_processor.Keys.{get_service_key}
use asserts_otel_processor.SpanEnrichment.{request_context_attribute}
use asserts_otel_processor.Labels.{build_labels, get_attributes_as_labels, span_metric_labels}
use asserts_otel_processor.Labels.Agreement.{count, keys, build_labels-count}
use asserts_otel_processor.MetricHelper.Prometheus.{Registry, IsConsistent, increasing}
use asserts_otel_processor.MetricHelper.{
  MetricHelper, metric_labels, record_latency, cache_or_new, remember, may_capture, capture_metrics,
  register_metrics, updated_config, on_update,
}

-- Each name is a label once, and there are no other labels.
abbrev pub HasNames : List String → StringMap String × Float64 → Type 0
HasNames names o = (s : String) → count s (keys o.0) ≡ count s names

-- A configuration over whose histogram `With` does not panic: its buckets increase, and no attribute
-- that it captures gives the label "le".
pub record IsAdmissible (rt : Platform) (config : Config) : Type 0 where
  pub increasing_buckets : increasing config.latency_histogram_buckets ≡ true
  pub no_le : count "le" (span_metric_labels rt (get_attributes_as_labels config)) ≡ 0

module _ (rt : Platform) (t : TtlCache (StringMap String)) (registry : Registry) (sized : IsSized t)
    (consistent : IsConsistent registry) (n : ℕ) where
  abbrev Helper : Type 0
  Helper = MetricHelper rt t registry

  -- The histogram is registered with the buckets and the names for the configuration, which is
  -- admissible, what was observed has these names, and no cache has more than `n` request contexts.
  pub record IsSoundHelper (p : Helper) : Type 0 where
    pub limit : p.config.limit_per_service ≡ pos n
    pub named : p.names ≡ span_metric_labels rt (get_attributes_as_labels p.config)
    pub bucketed : p.buckets ≡ p.config.latency_histogram_buckets
    pub admissible : IsAdmissible rt p.config
    pub registered : registry.registers p.names ≡ true
    pub within : (key : String) (c : t.Cache) → lookup key p.caches ≡ some c → t.len c ≤ n
    pub has_names : All (HasNames p.names) p.observed

  cache-within :
      (p : Helper) (key : String)
      → IsSoundHelper p
      → t.len (cache_or_new rt t registry p.config (lookup key p.caches)) ≤ n
  cache-within p key h = go (lookup key p.caches) refl
    where
      go :
          (o : Option t.Cache)
          → lookup key p.caches ≡ o
          → t.len (cache_or_new rt t registry p.config o) ≤ n
      go none e = omega (arith, sized.fresh_len p.config)
      go (some c) e = h.within key c e

  remember-within :
      (config : Config) (namespace service context : String) (known : Option (StringMap String))
      (c : t.Cache)
      → config.limit_per_service ≡ pos n
      → may_capture rt t registry config c known ≡ true
      → t.len c ≤ n
      → t.len (remember rt t registry namespace service context known c) ≤ n
  unfolding remember
  remember-within config namespace service context (some known) c limit room h = h
  remember-within config namespace service context none c limit room h =
      let less : ltb_ℤ (pos (t.len c)) (pos n) ≡ true = rw limit at room in
      let grown = sized.set_len context (metric_labels rt t registry namespace service context) c in
      ground (arith, grown)

  -- A cache that is within the limit may take the place of another.
  put-IsSound :
      (p : Helper) (key : String) (c : t.Cache)
      → t.len c ≤ n
      → IsSoundHelper p
      → IsSoundHelper (record p { caches = insert key c p.caches })
  put-IsSound p key c small h = record {
    limit = h.limit;
    named = h.named;
    bucketed = h.bucketed;
    admissible = h.admissible;
    registered = h.registered;
    within = λ key' c' e. elim (Bool-cases (str_eq key key')) [
      | inl same ↦
          let f : some c ≡ some c' = rw (lookup-insert key key' c p.caches, same) at e in
          let g : c' ≡ c = cc in rw g small
      | inr differ ↦ h.within key' c' (rw (lookup-insert key key' c p.caches, differ) at e)
    ];
    has_names = h.has_names;
  }

  record_latency-IsSound :
      (p : Helper) (labels : StringMap String) (latency : Float64)
      → ((s : String) → count s (keys labels) ≡ count s p.names)
      → IsSoundHelper p
      → Yields IsSoundHelper (record_latency rt t registry labels latency p)
  unfolding record_latency
  record_latency-IsSound p labels latency same h =
      let up : increasing p.buckets ≡ true = rw h.bucketed h.admissible.increasing_buckets in
      let no_le : count "le" p.names ≡ 0 = rw h.named h.admissible.no_le in
      rw (consistent.accepts_same p.buckets p.names labels up no_le same) (
        yields (record {
          limit = h.limit;
          named = h.named;
          bucketed = h.bucketed;
          admissible = h.admissible;
          registered = h.registered;
          within = h.within;
          has_names =
              All-append (HasNames p.names) p.observed ((labels, latency) ∷ []) h.has_names
                (same, tt);
        }))

  pub build_labels-same :
      (p : Helper) (namespace service : String) (span : Span) (resource : StringMap Value)
      → IsSoundHelper p
      → (s : String)
      → count s (keys (build_labels rt p.config namespace service span resource)) ≡ count s p.names
  build_labels-same p namespace service span resource h s =
      let built = build_labels-count rt s p.config namespace service span resource in
      let once = consistent.registers_once p.names h.registered s in
      let named = ap (count s) h.named in omega (arith, built, once, named)

  pub capture_metrics-IsSound :
      (span : Span) (namespace service : String) (resource : StringMap Value) (p : Helper)
      → IsSoundHelper p
      → Yields IsSoundHelper (capture_metrics rt t registry span namespace service resource p)
  unfolding capture_metrics
  capture_metrics-IsSound span namespace service resource p h =
      let key = get_service_key namespace service in
      let context = as_string_or_empty (get_attribute request_context_attribute span) in
      let old = cache_or_new rt t registry p.config (lookup key p.caches) in
      let before = cache-within p key h in
      let (known, c) = t.get context old in
      let here : t.len (t.get context old).1 ≤ n = omega (arith, sized.get_len context old) in
      Yields-if (may_capture rt t registry p.config c known)
        (λ room.
          let kept =
            put-IsSound p key (remember rt t registry namespace service context known c)
              (remember-within p.config namespace service context known c h.limit room here) h in
          record_latency-IsSound _ _ (compute_latency span)
            (build_labels-same p namespace service span resource h) kept)
        (λ no_room. yields (put-IsSound p key c here h))

  pub register_metrics-IsSound :
      (p : Helper)
      → p.config.limit_per_service ≡ pos n
      → IsAdmissible rt p.config
      → ((key : String) (c : t.Cache) → lookup key p.caches ≡ some c → t.len c ≤ n)
      → Always IsSoundHelper (register_metrics rt t registry p)
  unfolding register_metrics
  register_metrics-IsSound p limit admissible within =
      let names = span_metric_labels rt (get_attributes_as_labels p.config) in
      elim (Bool-cases (registry.registers names)) [
        | inl e ↦ rw e (record {
          limit = limit;
          named = refl;
          bucketed = refl;
          admissible = admissible;
          registered = e;
          within = within;
          has_names = tt;
        })
        | inr e ↦ rw e tt
      ]

  -- The buckets of an update are taken over if it has any.
  updated_config-IsAdmissible :
      (old new : Config)
      → IsAdmissible rt old
      → IsAdmissible rt new
      → IsAdmissible rt (updated_config rt t registry old new)
  unfolding updated_config get_attributes_as_labels
  updated_config-IsAdmissible old new h k =
      elim (Bool-cases (ltb 0 (length new.latency_histogram_buckets))) [
        | inl e ↦ record { increasing_buckets = rw e k.increasing_buckets; no_le = k.no_le }
        | inr e ↦ record { increasing_buckets = rw e h.increasing_buckets; no_le = k.no_le }
      ]

  -- An update to an admissible configuration that does not end the process leaves the helper as captureMetrics needs it.
  pub on_update-IsSound :
      (stopped : Bool) (new : Config) (p : Helper)
      → IsAdmissible rt new
      → IsSoundHelper p
      → Always (λ (r : Helper × Bool). IsSoundHelper r.0) (on_update rt t registry stopped new p)
  unfolding on_update updated_config
  on_update-IsSound false new p admissible h = record {
    limit = h.limit;
    named = h.named;
    bucketed = h.bucketed;
    admissible = h.admissible;
    registered = h.registered;
    within = h.within;
    has_names = tt;
  }
  on_update-IsSound true new p admissible h =
      let cleared : Helper = record p {
        config = updated_config rt t registry p.config new;
        observed = [];
      } in
      Always-bind IsSoundHelper (λ (r : Helper × Bool). IsSoundHelper r.0)
        (register_metrics rt t registry cleared) (λ q. some (q, true))
        (register_metrics-IsSound cleared h.limit
          (updated_config-IsAdmissible p.config new h.admissible admissible) h.within)
        λ q sound. sound
