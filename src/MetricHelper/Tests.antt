-- ===== src/MetricHelper/Tests.antt =====
-- The theorems on labels and metrics at the default configuration.
use asserts_otel_processor.Base.{
  some, none, List, false, ◌||◌, arith, ◌≡◌, refl, min, true, [], ◌∷◌, String,
}
use asserts_otel_processor.Base.Maps.{StringMap, lookup}
use asserts_otel_processor.Cache.Sample.{plain_cache, plain_cache-IsSized}
use asserts_otel_processor.Platform.Sample.{sample_platform}
use asserts_otel_processor.Span.{Span, server, ok}
use asserts_otel_processor.Config.{Config}
use asserts_otel_processor.Config.Sample.{sample_config}
use asserts_otel_processor.Labels.{
  replace, apply_prom_conventions, build_labels, get_attributes_as_labels, span_metric_labels,
}
use asserts_otel_processor.Labels.Agreement.{count, keys, build_labels-count}
use asserts_otel_processor.MetricHelper.Prometheus.{
  increasing, plain_registry, plain_registry-IsConsistent,
}
use asserts_otel_processor.MetricHelper.Buckets.{descends, has_room_for, capture_metrics-descending}
use asserts_otel_processor.Float.{Float64, num, nan, flt, feq}
use asserts_otel_processor.MetricHelper.{
  on_update, register_metrics, updated_config, MetricHelper, capture_metrics,
}
use asserts_otel_processor.MetricHelper.Sound.{IsSoundHelper}

abbrev span : Span
span = record {
  trace_id = "t1";
  is_orphan = true;
  name = "/api";
  kind = server;
  status = ok;
  start_timestamp = 0;
  end_timestamp = 5;
  attributes = ("http.method", record { str = "GET"; as_string = "GET" }) ∷ [];
}

abbrev config : Config
config = record sample_config { capture_attributes_in_metric = "http.method" ∷ "cpu %" ∷ [] }

percent_label : apply_prom_conventions sample_platform "cpu %" ≡ "cpu__percent"
unfolding apply_prom_conventions replace
percent_label = refl

build_labels-count_example :
    count "http_method" (keys (build_labels sample_platform config "shop" "cart" span []))
    ≡ min 1
        (count "http_method" (span_metric_labels sample_platform (get_attributes_as_labels config)))
build_labels-count_example =
    build_labels-count sample_platform "http_method" config "shop" "cart" span []

abbrev helper : MetricHelper sample_platform (plain_cache (StringMap String)) plain_registry
helper = record {
  config = config;
  caches = [];
  buckets = [];
  names = span_metric_labels sample_platform (get_attributes_as_labels config);
  observed = [];
}

pub helper-IsSound :
    IsSoundHelper sample_platform
      (plain_cache (StringMap String))
      plain_registry
      (plain_cache-IsSized (StringMap String))
      plain_registry-IsConsistent
      100
      helper
unfolding lookup increasing count span_metric_labels get_attributes_as_labels apply_prom_conventions
    replace
helper-IsSound = record {
  limit = refl;
  named = refl;
  bucketed = refl;
  admissible = record { increasing_buckets = refl; no_le = refl };
  registered = refl;
  within = λ key c e. absurd (cc);
  has_names = tt;
}

no_greater : (b c : Float64) → (flt c b || feq c b) ≡ true → flt b c ≡ false
no_greater nan c h = refl
no_greater (num a) nan h = refl
no_greater (num a) (num b) h = ground arith

descends-increasing : (bs : List Float64) → descends bs ≡ true → increasing bs ≡ false
unfolding increasing
descends-increasing [] h = ground arith
descends-increasing (b ∷ []) h = ground arith
descends-increasing (b ∷ c ∷ bs) h = ground (arith, no_greater b c, descends-increasing (c ∷ bs))

plain_registry-refuses :
    (buckets : List Float64) (names : List String) (labels : StringMap String)
    → descends buckets ≡ true
    → plain_registry.accepts buckets names labels ≡ false
plain_registry-refuses buckets names labels h = rw (descends-increasing buckets h) refl

-- An update to the buckets 2 and 1, by their places, with the same attributes.
abbrev unsorted : Config
unsorted = record config { latency_histogram_buckets = num 2 ∷ num 1 ∷ [] }

abbrev updated : MetricHelper sample_platform (plain_cache (StringMap String)) plain_registry
updated = record helper { config = unsorted; buckets = num 2 ∷ num 1 ∷ [] }

updating :
    on_update sample_platform (plain_cache (StringMap String)) plain_registry true unsorted helper
    ≡ some (updated, true)
unfolding on_update register_metrics updated_config count span_metric_labels
    get_attributes_as_labels apply_prom_conventions replace
updating = refl

updated-has_room_for :
    has_room_for sample_platform
      (plain_cache (StringMap String))
      plain_registry
      plain_registry-refuses
      span
      "shop"
      "cart"
      updated
    ≡ true
unfolding lookup
updated-has_room_for = refl

capture_metrics-descending_example :
    capture_metrics sample_platform
      (plain_cache (StringMap String))
      plain_registry
      span
      "shop"
      "cart"
      []
      updated
    ≡ none
capture_metrics-descending_example =
    capture_metrics-descending sample_platform (plain_cache (StringMap String)) plain_registry
      plain_registry-refuses unsorted helper updated span "shop" "cart" [] refl updating
      updated-has_room_for
