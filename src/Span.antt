-- ===== src/Span.antt =====
-- Spans as the processor reads and writes them (ptrace.Span of the OpenTelemetry pdata library), and
-- the functions of assertsprocessor/utils.go on one span.
pub mod Latency
use asserts_otel_processor.Base.{
  ℕ, ◌+◌, ◌-◌, ◌%◌, ◌^◌, Bool, true, false, ◌||◌, String, Option, none, some,
}
use asserts_otel_processor.Base.Maps.{StringMap, insert, lookup}
use asserts_otel_processor.Float.{Float64, seconds}

-- An attribute's value by its two renderings, `Str()` and `AsString()`.
pub record Value : Type 0 where
  pub str : String
  pub as_string : String

pub data SpanKind : Type 0 where
  unspecified internal server client producer consumer unknown : SpanKind

pub data StatusCode : Type 0 where
  unset ok error : StatusCode

-- `is_orphan` is `ParentSpanID().IsEmpty()`; the timestamps are uint64 nanoseconds.
pub record Span : Type 0 where
  pub trace_id : String
  pub is_orphan : Bool
  pub name : String
  pub kind : SpanKind
  pub status : StatusCode
  pub start_timestamp : ℕ
  pub end_timestamp : ℕ
  pub attributes : StringMap Value

-- `Attributes().Get(key)`
unfoldable pub get_attribute : String → Span → Option Value
get_attribute key span = lookup key span.attributes

-- `Attributes().PutStr(key, text)`
unfoldable pub put_str : String → String → Span → Span
put_str key text span = record span {
  attributes = insert key (record { str = text; as_string = text }) span.attributes;
}

-- `Str()` of what `Get` returns: the empty text where the key is missing.
abbrev pub str_or_empty : Option Value → String
str_or_empty none = ""
str_or_empty (some v) = v.str

abbrev pub as_string_or_empty : Option Value → String
as_string_or_empty none = ""
as_string_or_empty (some v) = v.as_string

-- The difference of the uint64 timestamps wraps around.
unfoldable pub elapsed_nanos : Span → ℕ
elapsed_nanos span = (span.end_timestamp + 2 ^ 64 - span.start_timestamp) % 2 ^ 64

unfoldable pub compute_latency : Span → Float64
unfolding elapsed_nanos
compute_latency span = seconds (elapsed_nanos span)

unfoldable pub span_has_error : Span → Bool
span_has_error span = elim span.status [ error ↦ true | _ ↦ false ]

unfoldable pub is_entry_span : Span → Bool
is_entry_span span = elim span.kind [ server ↦ true | consumer ↦ true | _ ↦ false ]

unfoldable pub is_exit_span : Span → Bool
is_exit_span span = elim span.kind [ client ↦ true | producer ↦ true | _ ↦ false ]

unfoldable pub is_root_span : Span → Bool
is_root_span span = span.is_orphan
