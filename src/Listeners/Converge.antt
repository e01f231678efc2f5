-- ===== src/Listeners/Converge.antt =====
-- A refresh brings the flags of the fetched configuration into force.
use asserts_otel_processor.Base.{
  ℕ, ◌≡◌, refl, sym, subst, ap, false, Bool, String, List, [], ◌∷◌, ◌++◌, none, some, All, inr,
}
use asserts_otel_processor.Base.Int.{ℤ}
use asserts_otel_processor.Base.Maps.{StringMap}
use asserts_otel_processor.Cache.{TtlCache}
use asserts_otel_processor.Platform.{Platform}
use asserts_otel_processor.Config.{Config}
use asserts_otel_processor.SpanEnrichment
use asserts_otel_processor.Thresholds
use asserts_otel_processor.MetricHelper
use asserts_otel_processor.MetricHelper.{register_metrics, updated_config, on_update}
use asserts_otel_processor.MetricHelper.Prometheus.{Registry}
use asserts_otel_processor.ConfigRefresh.{notify, fetch_and_update_config}
use asserts_otel_processor.ConfigRefresh.Loop.{notify-establishes, update_config-after}
use asserts_otel_processor.Listeners.{
  current, adopt, update_enricher, update_thresholds, update_metrics, update_field, listener,
  processor_is_updated, processor_on_update, sampler_is_updated, sampler_on_update, later_listeners,
  listeners, refresh,
}
use asserts_otel_processor.Listeners.Flags.{
  RunningOf, Listener, IsFlag, InSync, InForce, Keeps, enricher-Keeps, update_thresholds-InSync,
  update_metrics-InSync, update_field-InSync, unseen-InForce, adopt-InForce,
}

module _ (rt : Platform) (labels : TtlCache (StringMap String)) (registry : Registry)
    (states : TtlCache ℕ) (clock : ℕ → ℤ) where
  abbrev capture_metrics : Config → Bool
  capture_metrics config = config.capture_metrics

  abbrev ignore_client_errors : Config → Bool
  ignore_client_errors config = config.ignore_client_errors

  capture_metrics-IsFlag : IsFlag rt labels registry states clock capture_metrics
  unfolding Thresholds.on_update updated_config
  capture_metrics-IsFlag = record {
    threshold_kept = λ th new. refl;
    metrics_kept = λ old new. refl;
  }

  ignore_client_errors-IsFlag : IsFlag rt labels registry states clock ignore_client_errors
  unfolding Thresholds.on_update updated_config
  ignore_client_errors-IsFlag = record {
    threshold_kept = λ th new. refl;
    metrics_kept = λ old new. refl;
  }

  -- The listeners by name.
  abbrev fore : Bool → List (Listener rt labels registry states clock)
  fore stopped =
      listener rt labels registry states clock SpanEnrichment.is_updated
        (update_enricher rt labels registry states clock)
      ∷ listener rt labels registry states clock Thresholds.is_updated
          (update_thresholds rt labels registry states clock)
      ∷ listener rt labels registry states clock MetricHelper.is_updated
          (update_metrics rt labels registry states clock stopped)
      ∷ []

  abbrev processor_listener : Listener rt labels registry states clock
  processor_listener =
      listener rt labels registry states clock processor_is_updated
        (update_field rt labels registry states clock processor_on_update)

  abbrev sampler_listener : Listener rt labels registry states clock
  sampler_listener =
      listener rt labels registry states clock sampler_is_updated
        (update_field rt labels registry states clock sampler_on_update)

  fore-Keeps :
      (flag : Config → Bool) (kept : IsFlag rt labels registry states clock flag) (stopped : Bool)
      (latest : Config)
      → All (Keeps rt labels registry states clock flag kept latest) (fore stopped)
  fore-Keeps flag kept stopped latest = (
    (λ t k. enricher-Keeps rt labels registry states clock flag kept latest t k),
    (
      (λ t k. update_thresholds-InSync rt labels registry states clock flag kept latest t k),
      (
        (λ t k. update_metrics-InSync rt labels registry states clock flag kept stopped latest t k),
        tt,
      ),
    ),
  )

  -- The refresh brings a flag into force that one of the listeners copies.
  refresh-flag :
      (flag : Config → Bool) (kept : IsFlag rt labels registry states clock flag) (stopped : Bool)
      (latest : Config) (l : Listener rt labels registry states clock)
      (front back : List (Listener rt labels registry states clock))
      → listeners rt labels registry states clock stopped ≡ front ++ l ∷ back
      → All (Keeps rt labels registry states clock flag kept latest) front
      → ((s : RunningOf rt labels registry states clock)
          → InSync rt labels registry states clock flag s
          → InForce rt labels registry states clock flag (flag latest) (l.on_update s latest).0)
      → ((s : RunningOf rt labels registry states clock)
          → InSync rt labels registry states clock flag s
          → l.is_updated s (current rt labels registry states clock s) latest ≡ false
          → InForce rt labels registry states clock flag (flag latest) s)
      → All
          (λ (k : Listener rt labels registry states clock).
            (s : RunningOf rt labels registry states clock)
            → InForce rt labels registry states clock flag (flag latest) s
            → InForce rt labels registry states clock flag (flag latest) (k.on_update s latest).0)
          back
      → (s : RunningOf rt labels registry states clock)
      → InSync rt labels registry states clock flag s
      → InForce rt labels registry states clock flag
          (flag latest)
          (refresh rt labels registry states clock stopped (some latest) s)
  unfolding refresh fetch_and_update_config
  refresh-flag flag kept stopped latest l front back order keeps seen unseen later s h =
      let before = current rt labels registry states clock in
      let adopted = adopt rt labels registry states clock in
      update_config-after before adopted
        (InForce rt labels registry states clock flag (flag latest)) latest
        (listeners rt labels registry states clock stopped) s
        (λ t. adopt-InForce rt labels registry states clock flag kept (flag latest) latest t)
        (subst
          (λ ls.
            InForce rt labels registry states clock flag (flag latest)
              (notify before adopted ls latest s none).0)
          (sym order)
          (notify-establishes before adopted (InSync rt labels registry states clock flag)
            (InForce rt labels registry states clock flag (flag latest)) latest l front back keeps
            (λ t k e. seen t k) unseen later s none h))

  -- If the components have one configuration, and its flags capture_metrics and ignore_client_errors
  -- are those of the configuration that was accepted last, then after a refresh with any other
  -- configuration, whichever updates fail, either the process has ended, or metrics are captured and
  -- client errors are ignored as that configuration says.
  pub refresh-InForce :
      (stopped : Bool) (latest : Config) (s : RunningOf rt labels registry states clock)
      → InSync rt labels registry states clock capture_metrics s
      → InSync rt labels registry states clock ignore_client_errors s
      → InForce rt labels registry states clock capture_metrics latest.capture_metrics
          (refresh rt labels registry states clock stopped (some latest) s)
        × InForce rt labels registry states clock ignore_client_errors latest.ignore_client_errors
            (refresh rt labels registry states clock stopped (some latest) s)
  unfolding listeners later_listeners processor_is_updated processor_on_update sampler_is_updated
      sampler_on_update
  refresh-InForce stopped latest s capture ignore = (
    refresh-flag capture_metrics capture_metrics-IsFlag stopped latest processor_listener
        (fore stopped) (sampler_listener ∷ []) refl
        (fore-Keeps capture_metrics capture_metrics-IsFlag stopped latest)
        (λ t k. (ap (processor_on_update latest) k.0, inr refl))
        (λ t k e.
          unseen-InForce rt labels registry states clock capture_metrics capture_metrics-IsFlag
            latest t k e)
        ((λ t k. (ap (sampler_on_update latest) k.0, k.1)), tt) s capture,
    refresh-flag ignore_client_errors ignore_client_errors-IsFlag stopped latest sampler_listener
        (fore stopped ++ processor_listener ∷ []) [] refl
        (
          (λ t k.
              enricher-Keeps rt labels registry states clock ignore_client_errors
                ignore_client_errors-IsFlag latest t k),
          (
            (λ t k.
                update_thresholds-InSync rt labels registry states clock ignore_client_errors
                  ignore_client_errors-IsFlag latest t k),
            (
              (λ t k.
                  update_metrics-InSync rt labels registry states clock ignore_client_errors
                    ignore_client_errors-IsFlag stopped latest t k),
              (
                (λ t k.
                    update_field-InSync rt labels registry states clock ignore_client_errors
                      ignore_client_errors-IsFlag processor_on_update latest t (λ c. refl) k),
                tt,
              ),
            ),
          ),
        )
        (λ t k. (ap (sampler_on_update latest) k.0, inr refl))
        (λ t k e.
          unseen-InForce rt labels registry states clock ignore_client_errors
            ignore_client_errors-IsFlag latest t k e)
        tt s ignore,
  )
