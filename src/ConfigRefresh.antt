-- ===== src/ConfigRefresh.antt =====
-- assertsprocessor/config_refresh.go: the latest configuration is offered to each component that
-- listens. `S` is the state of the processor, which the listeners and the refresh share; the refresh's
-- configuration is a pointer into it, since it is at first the configuration that listeners write to.
pub mod Loop
mod Tests
use asserts_otel_processor.Base.{
  Bool, true, false, List, [], ◌∷◌, Option, none, some, if◌then◌else◌,
}
use asserts_otel_processor.Config.{Config}

-- `configListener`: an update may change the state and may fail.
pub record ConfigListener (S E : Type 0) : Type 0 where
  pub is_updated : S → Config → Config → Bool
  pub on_update : S → Config → S × Option E

module _ {S E : Type 0} (current : S → Config) (adopt : S → Config → S) where
  -- The loop over the listeners, with the variable `err`.
  unfoldable pub notify : List (ConfigListener S E) → Config → S → Option E → S × Option E
  notify [] latest s err = (s, err)
  notify (l ∷ ls) latest s err =
      let called = notify ls latest (l.on_update s latest).0 (l.on_update s latest).1 in
      let skipped = notify ls latest s err in
      if l.is_updated s (current s) latest then called else skipped

  abbrev adopt_unless : Config → S × Option E → S
  adopt_unless latest (s, none) = adopt s latest
  adopt_unless latest (s, some e) = s

  unfoldable pub update_config : List (ConfigListener S E) → Config → S → S
  unfolding notify
  update_config listeners latest s = adopt_unless latest (notify listeners latest s none)

  -- `fetchAndUpdateConfig`, given what `fetchConfig` returns (`none` is an error).
  unfoldable pub fetch_and_update_config : List (ConfigListener S E) → Option Config → S → S
  unfolding update_config
  fetch_and_update_config listeners none s = s
  fetch_and_update_config listeners (some latest) s = update_config listeners latest s
