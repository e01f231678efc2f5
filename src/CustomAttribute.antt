-- ===== src/CustomAttribute.antt =====
-- assertsprocessor/custom_attribute.go: one rule that computes an attribute of a span from others.
pub mod Laws
use Prim.Native.String.{◌++◌ as str_append}
use asserts_otel_processor.Base.{
  ℕ, Bool, true, false, String, List, [], ◌∷◌, ◌++◌, Option, none, some, if◌then◌else◌, str_eq,
  length, ◌==◌, ◌>>=◌, leb,
}
use asserts_otel_processor.Span.{Span, Value, get_attribute}
use asserts_otel_processor.Platform.{Platform}

pub record CustomAttributeConfig : Type 0 where
  pub span_kinds : List String
  pub source_attributes : List String
  pub reg_exp : String
  pub replacement : String

-- An error is told apart by what is wrong, and carries what its message prints.
pub data ValidationError : Type 0 where
  env_missing : ValidationError
  regex_missing sources_missing source_empty regex_invalid :
      String → String → CustomAttributeConfig → ValidationError

abbrev pub has_empty : List String → Bool
has_empty [] = false
has_empty (v ∷ vs) = if str_eq v "" then true else has_empty vs

-- `strings.Join`
unfoldable pub join : String → List String → String
join sep [] = ""
join sep (x ∷ []) = x
join sep (x ∷ y ∷ r) = str_append x (str_append sep (join sep (y ∷ r)))

module _ (rt : Platform) where
  open rt use {Regexp, compile_regexp, find_string_submatch, replace_all_string, kind_string}

  -- `regExp` is a pointer: `none` is nil.
  pub record Compiled : Type 0 where
    pub span_kinds : List String
    pub source_attributes : List String
    pub reg_exp : Option Regexp
    pub replacement : String

  -- `nil` is `none`.
  unfoldable pub validate : CustomAttributeConfig → String → String → Option ValidationError
  validate cac target key =
      if str_eq cac.reg_exp ""
      then some (regex_missing target key cac)
      else if length cac.source_attributes == 0
      then some (sources_missing target key cac)
      else if has_empty cac.source_attributes
      then some (source_empty target key cac)
      else elim (compile_regexp cac.reg_exp) [
        | none ↦ some (regex_invalid target key cac)
        | some r ↦ none
      ]

  unfoldable pub compile : CustomAttributeConfig → Compiled
  compile cac = record {
    span_kinds = if length cac.span_kinds == 0 then "Server" ∷ [] else cac.span_kinds;
    source_attributes = cac.source_attributes;
    reg_exp = compile_regexp cac.reg_exp;
    replacement = if str_eq cac.replacement "" then "$1" else cac.replacement;
  }

  -- The values of the source attributes that the span has.
  pub present_values : List String → Span → List String
  present_values [] span = []
  present_values (a ∷ as') span =
      let rest = present_values as' span in
      elim (get_attribute a span) [ none ↦ rest | some v ↦ v.as_string ∷ rest ]

  -- The body of the loop over the span kinds: `none` goes on with the loop. The outer option is a
  -- panic, when a nil regexp is used.
  pub try_match : Compiled → Span → Option (Option String)
  try_match cacc span =
      let values = present_values cacc.source_attributes span in
      let joined = join ";" values in
      let matched : Option (Option String) = do
        re ← cacc.reg_exp
        let text = replace_all_string re joined cacc.replacement
        if leb 1 (length (find_string_submatch re joined)) then some (some text) else some none
      in if length values == length cacc.source_attributes then matched else some none

  pub over_kinds : List String → Compiled → Span → Option String
  over_kinds [] cacc span = some ""
  over_kinds (k ∷ ks) cacc span =
      let rest = over_kinds ks cacc span in
      let hit = try_match cacc span >>= λ r. elim r [ none ↦ rest | some v ↦ some v ] in
      if str_eq k (kind_string span.kind) then hit else rest

  unfoldable pub get_custom_attribute : Compiled → Span → Option String
  unfolding over_kinds try_match present_values
  get_custom_attribute cacc span = over_kinds cacc.span_kinds cacc span
