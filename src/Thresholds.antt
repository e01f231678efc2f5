-- ===== src/Thresholds.antt =====
-- assertsprocessor/thresholds.go: the latency thresholds by service and request.
pub mod Lookup
mod Tests
use asserts_otel_processor.Base.{
  ℕ, Bool, true, false, not, String, List, [], ◌∷◌, map, Option, none, some, if◌then◌else◌, length,
  ltb,
}
use asserts_otel_processor.Base.Maps.{StringMap, lookup, insert}
use asserts_otel_processor.Float.{Float64, feq}
use asserts_otel_processor.Config.{Config}
use asserts_otel_processor.Keys.{EntityKeyDto, build_entity_key, entity_key_as_string}

pub record ThresholdDto : Type 0 where
  pub request_type : String
  pub request_context : String
  pub latency_upper_bound : Float64

pub record ThresholdsDto : Type 0 where
  pub entity_key : EntityKeyDto
  pub latency_thresholds : List ThresholdDto

-- The maps that the goroutines share, and the configuration.
pub record ThresholdHelper : Type 0 where
  pub config : Config
  pub thresholds : StringMap (StringMap ThresholdDto)
  pub entity_keys : StringMap EntityKeyDto

abbrev load_or_store {ℓ} : {V : Type ℓ} → String → V → StringMap V → StringMap V
load_or_store k v m = elim (lookup k m) [ none ↦ insert k v m | some w ↦ m ]

unfoldable pub get_default_threshold : ThresholdHelper → Float64
get_default_threshold th = th.config.default_latency_threshold

-- The threshold in a map for one service: of the request, else of the empty request.
unfoldable pub threshold_in : StringMap ThresholdDto → String → Float64 → Float64
threshold_in thresholds request default = elim (lookup request thresholds) [
  | some t ↦ t.latency_upper_bound
  | none ↦ elim (lookup "" thresholds) [ some t ↦ t.latency_upper_bound | none ↦ default ]
]

unfoldable pub get_threshold :
    ThresholdHelper → String → String → String → Float64 × ThresholdHelper
unfolding get_default_threshold threshold_in
get_threshold th ns service request =
    let entity_key = build_entity_key th.config ns service in
    let key = entity_key_as_string entity_key in
    let found : Float64 = elim (lookup key th.thresholds) [
      | none ↦ get_default_threshold th
      | some thresholds ↦ threshold_in thresholds request (get_default_threshold th)
    ] in
    (found, record th { entity_keys = load_or_store key entity_key th.entity_keys })

-- The map that the loop over one service's thresholds builds: a later entry replaces an earlier.
unfoldable pub by_request_context :
    List ThresholdDto → StringMap ThresholdDto → StringMap ThresholdDto
by_request_context [] m = m
by_request_context (t ∷ ts) m = by_request_context ts (insert t.request_context t m)

unfoldable pub store_thresholds :
    List ThresholdsDto → StringMap (StringMap ThresholdDto) → StringMap (StringMap ThresholdDto)
unfolding by_request_context
store_thresholds [] m = m
store_thresholds (d ∷ ds) m =
    store_thresholds ds
      (insert (entity_key_as_string d.entity_key) (by_request_context d.latency_thresholds []) m)

-- The goroutine of `updateThresholdsAsync`, given what `getThresholds` returns (`none` is an error).
unfoldable pub update_thresholds : Option (List ThresholdsDto) → ThresholdHelper → ThresholdHelper
unfolding store_thresholds
update_thresholds none th = th
update_thresholds (some dtos) th = record th { thresholds = store_thresholds dtos th.thresholds }

-- The keys that a tick of the sync timer asks for; the server is asked only if there is one.
unfoldable pub requested_keys : ThresholdHelper → Option (List EntityKeyDto)
requested_keys th =
    let keys = map (λ (e : String × EntityKeyDto). e.1) th.entity_keys in
    if ltb 0 (length keys) then some keys else none

unfoldable pub is_updated : Config → Config → Bool
is_updated curr new_config =
    not (feq curr.default_latency_threshold new_config.default_latency_threshold)

unfoldable pub on_update : Config → ThresholdHelper → ThresholdHelper
on_update new_config th = record th {
  config = record th.config { default_latency_threshold = new_config.default_latency_threshold };
}
