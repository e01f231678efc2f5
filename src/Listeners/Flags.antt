-- ===== src/Listeners/Flags.antt =====
-- What each listener does to a flag of the configuration.
use asserts_otel_processor.Base.{
  ℕ, ◌≡◌, refl, sym, ◌∙◌, ap, ◌⊎◌, true, false, not, ◌&&◌, Bool, String, Option, none, some, Always,
  Bool-cases, inl, inr,
}
use asserts_otel_processor.Base.Int.{ℤ}
use asserts_otel_processor.Base.Maps.{StringMap}
use asserts_otel_processor.Cache.{TtlCache}
use asserts_otel_processor.Platform.{Platform}
use asserts_otel_processor.Config.{Config}
use asserts_otel_processor.SpanEnrichment
use asserts_otel_processor.Thresholds
use asserts_otel_processor.Labels.{get_attributes_as_labels, span_metric_labels}
use asserts_otel_processor.MetricHelper
use asserts_otel_processor.MetricHelper.{register_metrics, updated_config, on_update}
use asserts_otel_processor.MetricHelper.Prometheus.{Registry}
use asserts_otel_processor.ConfigRefresh.{ConfigListener}
use asserts_otel_processor.Listeners.{
  Running, UpdateError, current_config, threshold_field, metrics_fields, current, adopt,
  metrics_updated, update_enricher, update_thresholds, update_metrics, update_field, listener,
  differ,
}

same_flag : (a b : Bool) → differ a b ≡ false → a ≡ b
same_flag true true e = refl
same_flag true false e = absurd (cc)
same_flag false true e = absurd (cc)
same_flag false false e = refl

module _ (rt : Platform) (labels : TtlCache (StringMap String)) (registry : Registry)
    (states : TtlCache ℕ) (clock : ℕ → ℤ) where
  abbrev pub RunningOf : Type 0
  RunningOf = Running rt labels registry states clock

  abbrev pub Listener : Type 0
  Listener = ConfigListener RunningOf UpdateError

  -- The components have one configuration.
  abbrev pub IsShared : RunningOf → Type 0
  IsShared s =
      s.processor.sampler.normal.sampler.core.threshold_helper.config
      ≡ s.processor.metric_builder.config

  -- A flag of the configuration that the updates of thresholds and metrics do not touch.
  pub record IsFlag (flag : Config → Bool) : Type 0 where
    pub threshold_kept :
        (th : Thresholds.ThresholdHelper) (new : Config)
        → flag (Thresholds.on_update new th).config ≡ flag th.config
    pub metrics_kept :
        (old new : Config) → flag (updated_config rt labels registry old new) ≡ flag old

  -- The process has ended, or the flag in force is that of the configuration that was accepted last.
  abbrev pub InSync : (Config → Bool) → RunningOf → Type 0
  InSync flag s =
      IsShared s
      × ((s.exited ≡ true)
          ⊎ (flag (current rt labels registry states clock s)
              ≡ flag s.processor.metric_builder.config))

  -- The process has ended, or the flag in force is the given one.
  abbrev pub InForce : (Config → Bool) → Bool → RunningOf → Type 0
  InForce flag value s =
      IsShared s × ((s.exited ≡ true) ⊎ (flag s.processor.metric_builder.config ≡ value))

  module _ (flag : Config → Bool) (kept : IsFlag flag) where
    on_update-flag :
        (stopped : Bool) (new : Config) (helper : MetricHelper.MetricHelper rt labels registry)
        → Always
            (λ (q : MetricHelper.MetricHelper rt labels registry × Bool).
              flag q.0.config ≡ flag helper.config)
            (on_update rt labels registry stopped new helper)
    unfolding on_update register_metrics
    on_update-flag false new helper = refl
    on_update-flag true new helper =
        let config = updated_config rt labels registry helper.config new in
        elim (Bool-cases
          (registry.registers (span_metric_labels rt (get_attributes_as_labels config)))) [
            | inl e ↦ rw e (kept.metrics_kept helper.config new)
            | inr e ↦ rw e tt
          ]

    -- What is written of the configuration.
    on_update-fields :
        (stopped : Bool) (new : Config) (helper : MetricHelper.MetricHelper rt labels registry)
        → Always
            (λ (q : MetricHelper.MetricHelper rt labels registry × Bool).
              q.0.config ≡ metrics_fields rt labels registry states clock q.0.config helper.config)
            (on_update rt labels registry stopped new helper)
    unfolding on_update register_metrics updated_config
    on_update-fields false new helper = refl
    on_update-fields true new helper =
        let config = updated_config rt labels registry helper.config new in
        elim (Bool-cases
          (registry.registers (span_metric_labels rt (get_attributes_as_labels config)))) [
            | inl e ↦ rw e refl
            | inr e ↦ rw e tt
          ]

    -- What is in sync with itself or with the accepted configuration stays so.
    in_sync :
        (accepted : Option Config) (old new : Config)
        → flag new ≡ flag old
        → flag (current_config rt labels registry states clock old accepted) ≡ flag old
        → flag (current_config rt labels registry states clock new accepted) ≡ flag new
    in_sync none old new e h = refl
    in_sync (some c) old new e h = h ∙ sym e

    still :
        (exited : Bool) (accepted : Option Config) (old new : Config)
        → flag new ≡ flag old
        → (exited ≡ true)
          ⊎ (flag (current_config rt labels registry states clock old accepted) ≡ flag old)
        → (exited ≡ true)
          ⊎ (flag (current_config rt labels registry states clock new accepted) ≡ flag new)
    still exited accepted old new e (inl ended) = inl ended
    still exited accepted old new e (inr h) = inr (in_sync accepted old new e h)

    pub update_thresholds-InSync :
        (new : Config) (s : RunningOf)
        → InSync flag s
        → InSync flag (update_thresholds rt labels registry states clock new s).0
    unfolding update_thresholds
    update_thresholds-InSync new s (shared, before) =
        let th = s.processor.sampler.normal.sampler.core.threshold_helper in
        let copy = threshold_field rt labels registry states clock new th in
        let config = s.processor.metric_builder.config in
        (
          ap copy shared,
          still s.exited s.accepted config (copy config)
              (kept.threshold_kept (record th { config = config }) new) before,
        )

    pub update_metrics-InSync :
        (stopped : Bool) (new : Config) (s : RunningOf)
        → InSync flag s
        → InSync flag (update_metrics rt labels registry states clock stopped new s).0
    unfolding update_metrics
    update_metrics-InSync stopped new s (shared, before) =
        go (on_update rt labels registry stopped new s.processor.metric_builder)
          (on_update-flag stopped new s.processor.metric_builder)
          (on_update-fields stopped new s.processor.metric_builder)
      where
        go :
            (o : Option (MetricHelper.MetricHelper rt labels registry × Bool))
            → Always
                (λ (q : MetricHelper.MetricHelper rt labels registry × Bool).
                  flag q.0.config ≡ flag s.processor.metric_builder.config)
                o
            → Always
                (λ (q : MetricHelper.MetricHelper rt labels registry × Bool).
                  q.0.config
                  ≡ metrics_fields rt labels registry states clock q.0.config
                      s.processor.metric_builder.config)
                o
            → InSync flag (metrics_updated rt labels registry states clock s o).0
        go none same fields = (shared, inl refl)
        go (some (helper, ok)) same fields = (
          ap (metrics_fields rt labels registry states clock helper.config) shared ∙ sym fields,
          still s.exited s.accepted s.processor.metric_builder.config helper.config same before,
        )

    pub update_field-InSync :
        (copy : Config → Config → Config) (new : Config) (s : RunningOf)
        → ((config : Config) → flag (copy new config) ≡ flag config)
        → InSync flag s
        → InSync flag (update_field rt labels registry states clock copy new s).0
    update_field-InSync copy new s same (shared, before) = (
      ap (copy new) shared,
      still s.exited s.accepted s.processor.metric_builder.config
          (copy new s.processor.metric_builder.config) (same s.processor.metric_builder.config)
          before,
    )

    -- A listener that sees no change of the flag.
    pub unseen-InForce :
        (latest : Config) (s : RunningOf)
        → InSync flag s
        → not s.exited && differ (flag (current rt labels registry states clock s)) (flag latest)
          ≡ false
        → InForce flag (flag latest) s
    unseen-InForce latest s (shared, inl e) unseen = (shared, inl e)
    unseen-InForce latest s (shared, inr e) unseen = elim (Bool-cases s.exited) [
      | inl ended ↦ (shared, inl ended)
      | inr runs ↦ (shared, inr (sym e ∙ same_flag _ (flag latest) (rw runs at unseen)))
    ]

    pub adopt-InForce :
        (value : Bool) (latest : Config) (s : RunningOf)
        → InForce flag value s
        → InForce flag value (adopt rt labels registry states clock s latest)
    adopt-InForce value latest s h = elim (Bool-cases s.exited) [
      | inl e ↦ rw e (h.0, inl refl)
      | inr e ↦ rw e (h.0, rw e at h.1)
    ]

    -- The listeners for rules, thresholds and metrics.
    abbrev pub Keeps : Config → Listener → Type 0
    Keeps latest l = (s : RunningOf) → InSync flag s → InSync flag (l.on_update s latest).0

    pub enricher-Keeps :
        (latest : Config)
        → Keeps latest (
            listener rt labels registry states clock SpanEnrichment.is_updated
              (update_enricher rt labels registry states clock))
    unfolding update_enricher
    enricher-Keeps latest s h = h
