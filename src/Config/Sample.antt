-- ===== src/Config/Sample.antt =====
-- A configuration for tests: the defaults of createDefaultConfig, with an env.
use asserts_otel_processor.Base.{◌+◌, true, false, [], ◌∷◌}
use asserts_otel_processor.Base.Int.{pos}
use asserts_otel_processor.Float.{num, zero_place}
use asserts_otel_processor.Config.{Config}

abbrev pub sample_config : Config
sample_config = record {
  asserts_server = ("endpoint", "https://chief.app.dev.asserts.ai") ∷ [];
  env = "dev";
  site = "west";
  asserts_tenant = "";
  capture_metrics = false;
  custom_attribute_configs = [];
  span_attributes = [];
  capture_attributes_in_metric = [];
  default_latency_threshold = num (zero_place + 0x4008_0000_0000_0000);
  latency_histogram_buckets = [];
  ignore_client_errors = false;
  sample_traces = true;
  limit_per_service = pos 100;
  limit_per_request_per_service = pos 3;
  request_context_cache_ttl = pos 60;
  normal_sampling_frequency_minutes = pos 5;
  prometheus_exporter_port = 9465;
  trace_flush_frequency_seconds = pos 30;
}
