-- ===== src/ConfigRefresh/Tests.antt =====
-- The theorems on the refresh with two listeners: one that refuses every configuration, and one that
-- takes it over.
use asserts_otel_processor.Base.{ℕ, ◌+◌, ◌≡◌, refl, true, [], ◌∷◌, none, some}
use asserts_otel_processor.Config.{Config}
use asserts_otel_processor.Config.Sample.{sample_config}
use asserts_otel_processor.ConfigRefresh.{ConfigListener, update_config, adopt_unless}
use asserts_otel_processor.ConfigRefresh.Loop.{
  done, call, update_config-last, update_config-failure_lost,
}

abbrev State : Type 0
State = Config × ℕ

abbrev current : State → Config
current (c, n) = c

abbrev adopt : State → Config → State
adopt (c, n) latest = (latest, n)

abbrev refusing : ConfigListener State ℕ
refusing = record { is_updated = λ s c l. true; on_update = λ s l. (s, some 1) }

abbrev counting : ConfigListener State ℕ
counting = record { is_updated = λ s c l. true; on_update = λ s l. ((s.0, s.1 + 1), none) }

abbrev before : State
before = (sample_config, 0)

abbrev latest : Config
latest = record sample_config { env = "prod" }

update_config-last_example :
    update_config current adopt (counting ∷ refusing ∷ []) latest before
    ≡ adopt_unless {E = ℕ} current adopt latest ((sample_config, 1), some 1)
update_config-last_example =
    update_config-last current adopt latest (counting ∷ refusing ∷ []) before (sample_config, 1)
      (none ∷ some 1 ∷ []) (call refl (call refl done))

update_config-failure_lost_example :
    update_config current adopt (refusing ∷ counting ∷ []) latest before ≡ (latest, 1)
update_config-failure_lost_example =
    update_config-failure_lost current adopt latest refusing counting before before
      (sample_config, 1) 1 refl refl refl refl
