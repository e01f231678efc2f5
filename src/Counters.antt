-- ===== src/Counters.antt =====
-- assertsprocessor/metrics.go: the counters of traces and spans, total and sampled. A counter vector of
-- the Prometheus client library is the count of each combination of labels; the labels env and site are
-- the same for all and left out, and the float64 counts are natural numbers.
use asserts_otel_processor.Base.{ℕ, suc, ◌+◌, ◌&&◌, String, List, [], ◌∷◌, if◌then◌else◌, str_eq}
use asserts_otel_processor.Traces.{TraceSegment, get_span_count}

pub record Counters : Type 0 where
  pub total_trace_count : ℕ
  -- By sample type.
  pub sampled_trace_count : String → ℕ
  -- By namespace and service.
  pub total_span_count : String → String → ℕ
  pub sampled_span_count : String → String → ℕ

abbrev pub no_counts : Counters
no_counts = record {
  total_trace_count = 0;
  sampled_trace_count = λ sample_type. 0;
  total_span_count = λ namespace service. 0;
  sampled_span_count = λ namespace service. 0;
}

-- The spans of the segments of each service are added to a counter.
unfoldable pub incr_span_count : List TraceSegment → (String → String → ℕ) → String → String → ℕ
incr_span_count [] count = count
incr_span_count (ts ∷ rest) count = incr_span_count rest λ namespace service.
    if str_eq ts.namespace namespace && str_eq ts.service service
    then count namespace service + get_span_count ts
    else count namespace service

unfoldable pub incr_total_counts : List TraceSegment → Counters → Counters
unfolding incr_span_count
incr_total_counts segments c = record c {
  total_trace_count = suc c.total_trace_count;
  total_span_count = incr_span_count segments c.total_span_count;
}

unfoldable pub incr_sampled_counts : List TraceSegment → String → Counters → Counters
unfolding incr_span_count
incr_sampled_counts segments sample_type c = record c {
  sampled_trace_count = λ other.
      if str_eq sample_type other
      then suc (c.sampled_trace_count other)
      else c.sampled_trace_count other;
  sampled_span_count = incr_span_count segments c.sampled_span_count;
}
