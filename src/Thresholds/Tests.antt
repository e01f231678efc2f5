-- ===== src/Thresholds/Tests.antt =====
-- The theorems on thresholds at concrete inputs.
use asserts_otel_processor.Base.{◌≡◌, List, [], ◌∷◌, some}
use asserts_otel_processor.Float.{num}
use asserts_otel_processor.Config.Sample.{sample_config}
use asserts_otel_processor.Keys.{build_entity_key, entity_key_as_string}
use asserts_otel_processor.Thresholds.{
  ThresholdsDto, ThresholdHelper, get_threshold, update_thresholds,
}
use asserts_otel_processor.Thresholds.Lookup.{answered, last_list, get_threshold-update_thresholds}

abbrev helper : ThresholdHelper
helper = record { config = sample_config; thresholds = []; entity_keys = [] }

abbrev answer : List ThresholdsDto
answer =
    record {
      entity_key = build_entity_key sample_config "shop" "cart";
      latency_thresholds =
          record {
            request_type = "inbound";
            request_context = "GET /";
            latency_upper_bound = num 7;
          }
          ∷ [];
    }
    ∷ []

get_threshold-update_thresholds_example :
    (get_threshold (update_thresholds (some answer) helper) "shop" "cart" "GET /").0
    ≡ answered
        (last_list (entity_key_as_string (build_entity_key sample_config "shop" "cart")) answer)
        "GET /"
        sample_config.default_latency_threshold
        (get_threshold helper "shop" "cart" "GET /").0
get_threshold-update_thresholds_example =
    get_threshold-update_thresholds helper "shop" "cart" "GET /" answer
