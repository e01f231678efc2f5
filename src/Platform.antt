-- ===== src/Platform.antt =====
-- What the rules use of code that is not in the repository: Go's `regexp` engine and the texts that
-- the pdata library gives to span kinds and status codes; and the lower case of each character by the
-- Unicode tables (`unicode.ToLower`). Where a theorem assumes something of them, it says so.
pub mod Sample
use Prim.Native.Char.{Char}
use asserts_otel_processor.Base.{String, List, Option}
use asserts_otel_processor.Span.{SpanKind, StatusCode}

pub record Platform : Type 1 where
  pub Regexp : Type 0
  -- `regexp.Compile`; `none` is an error.
  pub compile_regexp : String → Option Regexp
  pub find_string_submatch : Regexp → String → List String
  pub replace_all_string : Regexp → String → String → String
  -- `SpanKind.String()`
  pub kind_string : SpanKind → String
  -- `StatusCode.String()`
  pub status_string : StatusCode → String
  pub lower : Char → Char
