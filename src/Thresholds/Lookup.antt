-- ===== src/Thresholds/Lookup.antt =====
-- Which threshold a request gets, before and after an update from the server.
use asserts_otel_processor.Base.{
  ◌≡◌, refl, String, List, [], ◌∷◌, Option, none, some, arith, if◌then◌else◌, str_eq, eq_iff,
}
use asserts_otel_processor.Base.Maps.{StringMap, lookup, insert, lookup-insert}
use asserts_otel_processor.Float.{Float64}
use asserts_otel_processor.Keys.{build_entity_key, entity_key_as_string}
use asserts_otel_processor.Thresholds.{
  ThresholdDto, ThresholdsDto, ThresholdHelper, load_or_store, get_default_threshold, threshold_in,
  get_threshold, by_request_context, store_thresholds, update_thresholds,
}

abbrev pub or_else {ℓ} : {A : Type ℓ} → Option A → Option A → Option A
or_else (some a) o = some a
or_else none o = o

-- The last entry for a request.
abbrev pub last_for : String → List ThresholdDto → Option ThresholdDto
last_for r [] = none
last_for r (t ∷ ts) = or_else (last_for r ts) (if str_eq t.request_context r then some t else none)

-- The last list of thresholds for a service.
abbrev pub last_list : String → List ThresholdsDto → Option (List ThresholdDto)
last_list key [] = none
last_list key (d ∷ ds) =
    or_else (last_list key ds)
      (if str_eq (entity_key_as_string d.entity_key) key then some d.latency_thresholds else none)

abbrev pub bound : Option ThresholdDto → Float64 → Float64
bound none default = default
bound (some t) default = t.latency_upper_bound

lookup-by_request_context :
    (r : String) (ts : List ThresholdDto) (m : StringMap ThresholdDto)
    → lookup r (by_request_context ts m) ≡ or_else (last_for r ts) (lookup r m)
unfolding by_request_context
lookup-by_request_context r [] m = refl
lookup-by_request_context r (t ∷ ts) m = ground (
  arith,
  lookup-by_request_context r ts (insert t.request_context t m),
  lookup-insert t.request_context r t m,
)

abbrev map_of : Option (List ThresholdDto) → Option (StringMap ThresholdDto)
map_of none = none
map_of (some ts) = some (by_request_context ts [])

lookup-store_thresholds :
    (key : String) (ds : List ThresholdsDto) (m : StringMap (StringMap ThresholdDto))
    → lookup key (store_thresholds ds m) ≡ or_else (map_of (last_list key ds)) (lookup key m)
unfolding store_thresholds
lookup-store_thresholds key [] m = refl
lookup-store_thresholds key (d ∷ ds) m = ground (
  arith,
  lookup-store_thresholds key ds
      (insert (entity_key_as_string d.entity_key) (by_request_context d.latency_thresholds []) m),
  lookup-insert (entity_key_as_string d.entity_key) key (by_request_context d.latency_thresholds [])
      m,
)

threshold_in_lem :
    (ts : List ThresholdDto) (request : String) (default : Float64)
    → threshold_in (by_request_context ts []) request default
      ≡ bound (or_else (last_for request ts) (last_for "" ts)) default
unfolding threshold_in lookup
threshold_in_lem ts request default =
    ground (arith, lookup-by_request_context request ts [], lookup-by_request_context "" ts [])

-- The threshold that an answer sets for a request, or `old` where it lists none for the service.
abbrev pub answered : Option (List ThresholdDto) → String → Float64 → Float64 → Float64
answered none request default old = old
answered (some ts) request default old =
    bound (or_else (last_for request ts) (last_for "" ts)) default

-- After an answer of the server that lists thresholds for a service (the last list counts), a request
-- of that service gets the last one listed for it, else the last one listed for the empty request,
-- else the default threshold. A service that the answer does not list keeps what it had.
pub get_threshold-update_thresholds :
    (th : ThresholdHelper) (ns service request : String) (ds : List ThresholdsDto)
    → (get_threshold (update_thresholds (some ds) th) ns service request).0
      ≡ answered
          (last_list (entity_key_as_string (build_entity_key th.config ns service)) ds)
          request
          th.config.default_latency_threshold
          (get_threshold th ns service request).0
unfolding get_threshold update_thresholds get_default_threshold
get_threshold-update_thresholds th ns service request ds =
    pick (last_list key ds) (lookup-store_thresholds key ds th.thresholds)
  where
    key : String
    key = entity_key_as_string (build_entity_key th.config ns service)

    pick :
        (l : Option (List ThresholdDto))
        → lookup key (store_thresholds ds th.thresholds)
          ≡ or_else (map_of l) (lookup key th.thresholds)
        → (get_threshold (update_thresholds (some ds) th) ns service request).0
          ≡ answered l request th.config.default_latency_threshold
              (get_threshold th ns service request).0
    pick none e = rw (e, get_threshold)
    pick (some ts) e =
        rw (e, get_threshold) (threshold_in_lem ts request th.config.default_latency_threshold)

-- Asking for a threshold registers the service for the next sync: its key is then known, keys
-- known before keep their values, and no other key is added. Nothing else changes.
pub get_threshold_registers :
    (th : ThresholdHelper) (ns service request : String)
    → let key = entity_key_as_string (build_entity_key th.config ns service) in
      let th' = (get_threshold th ns service request).1 in
      ((j : String)
        → lookup j th'.entity_keys
          ≡ or_else
              (lookup j th.entity_keys)
              (if str_eq key j then some (build_entity_key th.config ns service) else none))
      × (th'.thresholds ≡ th.thresholds)
      × (th'.config ≡ th.config)
unfolding get_threshold
get_threshold_registers th ns service request = (λ j. register j, refl, refl)
  where
    key : String
    key = entity_key_as_string (build_entity_key th.config ns service)

    register :
        (j : String)
        → lookup j (load_or_store key (build_entity_key th.config ns service) th.entity_keys)
          ≡ or_else
              (lookup j th.entity_keys)
              (if str_eq key j then some (build_entity_key th.config ns service) else none)
    register j = ground (
      arith,
      lookup-insert key j (build_entity_key th.config ns service) th.entity_keys,
      eq_iff key j,
    )
