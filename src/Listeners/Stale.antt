-- ===== src/Listeners/Stale.antt =====
-- An update that the enrichment does not see.
use asserts_otel_processor.Base.{
  ℕ, ◌≡◌, refl, ap, ◌∙◌, true, false, not, Bool, ◌&&◌, String, [], Option, none, some, All,
  Bool-cases, inl, inr,
}
use asserts_otel_processor.Base.Int.{ℤ}
use asserts_otel_processor.Base.Maps.{StringMap}
use asserts_otel_processor.Cache.{TtlCache}
use asserts_otel_processor.Platform.{Platform}
use asserts_otel_processor.Config.{Config}
use asserts_otel_processor.Config.Equality.{equal_custom_attributes}
use asserts_otel_processor.SpanEnrichment.{SpanEnrichmentProcessor, is_updated}
use asserts_otel_processor.MetricHelper.{MetricHelper, on_update}
use asserts_otel_processor.MetricHelper.Prometheus.{Registry}
use asserts_otel_processor.ConfigRefresh.{ConfigListener, fetch_and_update_config}
use asserts_otel_processor.ConfigRefresh.Loop.{update_config-keeps, update_config-skip}
use asserts_otel_processor.Listeners.{
  Running, UpdateError, later_listeners, listener, update_enricher, current, adopt, metrics_updated,
  update_thresholds, update_metrics, listeners, refresh,
}

module _ (rt : Platform) (labels : TtlCache (StringMap String)) (registry : Registry)
    (states : TtlCache ℕ) (clock : ℕ → ℤ) where
  abbrev RunningOf : Type 0
  RunningOf = Running rt labels registry states clock

  abbrev HasRules : SpanEnrichmentProcessor rt → RunningOf → Type 0
  HasRules ep s = s.processor.span_enricher ≡ ep

  update_metrics-HasRules :
      (ep : SpanEnrichmentProcessor rt) (stopped : Bool) (new : Config) (s : RunningOf)
      → HasRules ep s
      → HasRules ep (update_metrics rt labels registry states clock stopped new s).0
  unfolding update_metrics
  update_metrics-HasRules ep stopped new s h =
      go (on_update rt labels registry stopped new s.processor.metric_builder)
    where
      go :
          (o : Option (MetricHelper rt labels registry × Bool))
          → HasRules ep (metrics_updated rt labels registry states clock s o).0
      go none = h
      go (some (helper, ok)) = h

  later-HasRules :
      (ep : SpanEnrichmentProcessor rt) (stopped : Bool) (latest : Config)
      → All
          (λ (l : ConfigListener RunningOf UpdateError).
            (s : RunningOf) → HasRules ep s → HasRules ep (l.on_update s latest).0)
          (later_listeners rt labels registry states clock stopped)
  unfolding later_listeners update_thresholds
  later-HasRules ep stopped latest = (
    (λ t k. k),
    ((λ t k. update_metrics-HasRules ep stopped latest t k), ((λ t k. k), ((λ t k. k), tt))),
  )

  adopt-HasRules :
      (ep : SpanEnrichmentProcessor rt) (latest : Config) (s : RunningOf)
      → HasRules ep s
      → HasRules ep (adopt rt labels registry states clock s latest)
  adopt-HasRules ep latest s h = elim (Bool-cases s.exited) [ inl e ↦ rw e h | inr e ↦ rw e h ]

  not_seen :
      (latest : Config) (s : RunningOf)
      → latest.span_attributes ≡ []
      → equal_custom_attributes
          (current rt labels registry states clock s).custom_attribute_configs
          latest.custom_attribute_configs
        ≡ true
      → not s.exited && is_updated (current rt labels registry states clock s) latest ≡ false
  unfolding is_updated
  not_seen latest s removed same = elim (Bool-cases s.exited) [
    | inl e ↦ rw e refl
    | inr e ↦ rw (removed, same, e) refl
  ]

  -- If the fetched configuration has no span attributes, and its custom attributes are those of the
  -- current one, then a refresh leaves the rules of enrichment as they are. So span attributes that
  -- were removed from the configuration stay in force.
  pub refresh-removed_kept :
      (stopped : Bool) (latest : Config) (s : RunningOf)
      → latest.span_attributes ≡ []
      → equal_custom_attributes
          (current rt labels registry states clock s).custom_attribute_configs
          latest.custom_attribute_configs
        ≡ true
      → (refresh rt labels registry states clock stopped (some latest) s).processor.span_enricher
        ≡ s.processor.span_enricher
  unfolding refresh fetch_and_update_config listeners
  refresh-removed_kept stopped latest s removed same =
      let ep = s.processor.span_enricher in
      let later = later_listeners rt labels registry states clock stopped in
      let skipped =
        update_config-skip (current rt labels registry states clock)
          (adopt rt labels registry states clock) latest
          (listener rt labels registry states clock is_updated
            (update_enricher rt labels registry states clock))
          later s (not_seen latest s removed same) in
      ap (λ (t : RunningOf). t.processor.span_enricher) skipped
      ∙ update_config-keeps (current rt labels registry states clock)
          (adopt rt labels registry states clock) (HasRules ep) latest later
          (later-HasRules ep stopped latest) (λ t. adopt-HasRules ep latest t) s refl
