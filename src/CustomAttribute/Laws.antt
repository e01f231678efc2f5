-- ===== src/CustomAttribute/Laws.antt =====
-- A rule's value, described without the loops, and the rules that validation lets through.
use asserts_otel_processor.Base.{
  ◌≤◌, ◌≡◌, ◌⊎◌, refl, ◌≢◌, ◌↔◌, ap, ◌∙◌, eq_iff, Bool, true, false, String, List, [], ◌∷◌, Option,
  none, some, arith, if◌then◌else◌, str_eq, length, ◌==◌, leb, Option-cases, inl, inr, ◌>>=◌,
}
use asserts_otel_processor.Span.{Span, get_attribute}
use asserts_otel_processor.CustomAttribute.{
  CustomAttributeConfig, Compiled, has_empty, join, validate, compile, present_values, try_match,
  over_kinds, get_custom_attribute,
}
use asserts_otel_processor.Platform.{Platform}

-- The values of all the attributes, or `none` if one is missing.
abbrev pub all_values : List String → Span → Option (List String)
all_values [] span = some []
all_values (a ∷ as') span = do
  v ← get_attribute a span
  vs ← all_values as' span
  some (v.as_string ∷ vs)

abbrev pub contains : String → List String → Bool
contains k [] = false
contains k (j ∷ js) = if str_eq j k then true else contains k js

-- The kinds and the replacement that an empty setting stands for.
abbrev pub kinds_or_server : List String → List String
kinds_or_server [] = "Server" ∷ []
kinds_or_server (k ∷ ks) = k ∷ ks

abbrev pub replacement_or_group : String → String
replacement_or_group r = if str_eq r "" then "$1" else r

module _ (rt : Platform) where
  open rt use {Regexp, compile_regexp, find_string_submatch, replace_all_string, kind_string}

  length-present_values-le :
      (as' : List String) (span : Span) → length (present_values rt as' span) ≤ length as'
  unfolding present_values
  length-present_values-le [] span = omega arith
  length-present_values-le (a ∷ as') span = ground (arith, length-present_values-le as' span)

  -- All values are there exactly when none is left out.
  present_values-all :
      (as' : List String) (span : Span)
      → all_values as' span ≡ (
          if length (present_values rt as' span) == length as'
          then some (present_values rt as' span)
          else none)
  unfolding present_values
  present_values-all [] span = refl
  present_values-all (a ∷ as') span =
      ground (arith, length-present_values-le as' span, present_values-all as' span)

  -- The text of a rule with the compiled expression `re` for the values of its source attributes.
  abbrev pub matched : Regexp → String → Option (List String) → String
  matched re replacement none = ""
  matched re replacement (some vs) =
      if leb 1 (length (find_string_submatch re (join ";" vs)))
      then replace_all_string re (join ";" vs) replacement
      else ""

  try_match_lem :
      (c : Compiled rt) (span : Span) (re : Regexp)
      → c.reg_exp ≡ some re
      → (try_match rt c span ≡ some none)
          × (matched re c.replacement (all_values c.source_attributes span) ≡ "")
        ⊎ (try_match rt c span
            ≡ some (some (matched re c.replacement (all_values c.source_attributes span))))
  unfolding try_match
  try_match_lem c span re e = ground (arith, e, present_values-all c.source_attributes span)

  over_kinds_lem :
      (ks : List String) (c : Compiled rt) (span : Span) (re : Regexp)
      → c.reg_exp ≡ some re
      → over_kinds rt ks c span
        ≡ some (
            if contains (kind_string span.kind) ks
            then matched re c.replacement (all_values c.source_attributes span)
            else "")
  unfolding over_kinds
  over_kinds_lem [] c span re e = refl
  over_kinds_lem (k ∷ ks) c span re e =
      ground (arith, try_match_lem c span re e, over_kinds_lem ks c span re e)

  validate-none :
      (cac : CustomAttributeConfig) (target key : String)
      → validate rt cac target key ≡ none
      → (re : Regexp) × (compile_regexp cac.reg_exp ≡ some re)
  unfolding validate
  validate-none cac target key e = elim (Option-cases (compile_regexp cac.reg_exp)) [
    | inl bad ↦ absurd (ground (arith, bad))
    | inr good ↦ good
  ]

  kinds_lem :
      (ks : List String) → (if length ks == 0 then "Server" ∷ [] else ks) ≡ kinds_or_server ks
  kinds_lem [] = refl
  kinds_lem (k ∷ ks) = ground arith

  -- A rule that validation accepts has a valid expression, and never panics once compiled. If the
  -- span's kind is listed (only "Server", for an empty list), all source attributes are present
  -- and the expression matches their values, joined by ";", the value is the replacement of the
  -- matches by `value_expr` ("$1", for an empty one); in all other cases it is the empty text.
  pub get_custom_attribute-compile :
      (cac : CustomAttributeConfig) (target key : String) (span : Span)
      → validate rt cac target key ≡ none
      → (re : Regexp) × (compile_regexp cac.reg_exp ≡ some re)
        × (get_custom_attribute rt (compile rt cac) span
            ≡ some (
                if contains (kind_string span.kind) (kinds_or_server cac.span_kinds)
                then matched re
                    (replacement_or_group cac.replacement)
                    (all_values cac.source_attributes span)
                else ""))
  unfolding get_custom_attribute compile
  get_custom_attribute-compile cac target key span ok =
      let (re, e) = validate-none cac target key ok in
      let text = λ (r : Regexp).
        matched r (replacement_or_group cac.replacement) (all_values cac.source_attributes span) in
      (
        re,
        e,
        over_kinds_lem (compile rt cac).span_kinds (compile rt cac) span re e
            ∙ ap (λ ks. some (if contains (kind_string span.kind) ks then text re else ""))
                (kinds_lem cac.span_kinds),
      )

  -- Validation accepts exactly the rules with a valid, non-empty expression and at least one source
  -- attribute, none of them empty.
  pub validate_iff :
      (cac : CustomAttributeConfig) (target key : String)
      → (validate rt cac target key ≡ none) ↔ (
          (cac.reg_exp ≢ "")
          × (cac.source_attributes ≢ [])
          × (has_empty cac.source_attributes ≡ false)
          × ((re : Regexp) × (compile_regexp cac.reg_exp ≡ some re)))
  unfolding validate
  validate_iff cac target key = (
    λ e. (
      ground (arith, eq_iff cac.reg_exp ""),
      ground (arith, eq_iff cac.reg_exp ""),
      ground (arith, eq_iff cac.reg_exp ""),
      validate-none cac target key e,
    ),
    λ (a, b, c, (re, d)). accept a b c re d,
  )
    where
      accept :
          cac.reg_exp ≢ ""
          → cac.source_attributes ≢ []
          → has_empty cac.source_attributes ≡ false
          → (re : Regexp) → compile_regexp cac.reg_exp ≡ some re
          → validate rt cac target key ≡ none
      accept a b c re d = ground (arith, a, b, c, d, eq_iff cac.reg_exp "")
