-- ===== src/Platform/Sample.antt =====
-- A concrete platform for tests: an expression matches the texts that begin with it, and "(" is no
-- expression.
use text.Mathlib.Text.{starts_with}
use asserts_otel_processor.Base.{String, [], ◌∷◌, none, some, if◌then◌else◌, str_eq}
use asserts_otel_processor.Platform.{Platform}
use asserts_otel_processor.Span.{
  SpanKind, unspecified, internal, server, client, producer, consumer, unknown,
}

abbrev sample_kind : SpanKind → String
sample_kind unspecified = "Unspecified"
sample_kind internal = "Internal"
sample_kind server = "Server"
sample_kind client = "Client"
sample_kind producer = "Producer"
sample_kind consumer = "Consumer"
sample_kind unknown = ""

abbrev pub sample_platform : Platform
sample_platform = record {
  Regexp = String;
  compile_regexp = λ e. if str_eq e "(" then none else some e;
  find_string_submatch = λ e t. if starts_with t e then t ∷ [] else [];
  replace_all_string = λ e t r. if str_eq r "$1" then t else r;
  kind_string = sample_kind;
  status_string = λ code. "Ok";
  lower = λ c. c;
}
