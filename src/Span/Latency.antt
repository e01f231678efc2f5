-- ===== src/Span/Latency.antt =====
-- Latencies of spans, clock skew included.
use asserts_otel_processor.Base.{
  ◌+◌, ◌^◌, ◌<◌, ◌≡◌, true, String, some, arith, ltb, if◌then◌else◌, str_eq,
}
use asserts_otel_processor.Base.Maps.{lookup-insert}
use asserts_otel_processor.Float.{is_num, seconds-is_num}
use asserts_otel_processor.Span.{Span, elapsed_nanos, compute_latency, get_attribute, put_str}

-- A latency is never NaN.
pub compute_latency-is_num : (s : Span) → is_num (compute_latency s) ≡ true
unfolding compute_latency
compute_latency-is_num s = seconds-is_num _

-- For uint64 timestamps the latency is taken of the true difference if the span ends no earlier than
-- it starts, and otherwise of that difference plus 2 ^ 64 nanoseconds.
pub elapsed_nanos_wraps :
    (s : Span)
    → s.start_timestamp < 2 ^ 64
    → s.end_timestamp < 2 ^ 64
    → elapsed_nanos s + s.start_timestamp
      ≡ s.end_timestamp + (if ltb s.end_timestamp s.start_timestamp then 2 ^ 64 else 0)
unfolding elapsed_nanos
elapsed_nanos_wraps s p q = ground arith

-- Reading an attribute back after `PutStr`.
pub get_attribute-put_str :
    (key j text : String) (s : Span)
    → get_attribute j (put_str key text s)
      ≡ (if str_eq key j then some (record { str = text; as_string = text }) else get_attribute j s)
unfolding get_attribute put_str
get_attribute-put_str key j text s = lookup-insert key j _ s.attributes
