-- ===== src/Keys.antt =====
-- assertsprocessor/keys.go, and getServiceKey and buildEntityKey of assertsprocessor/utils.go.
pub mod Scope
use Prim.Native.String.{◌++◌ as str_append, compare as compare_strings}
use Prim.Native.Nat.{Ordering}
use asserts_otel_processor.Base.{
  ℕ, zero, suc, ltb, Bool, true, false, String, List, [], ◌∷◌, map, Option, none, some,
  if◌then◌else◌, str_eq,
}
use asserts_otel_processor.Base.Maps.{StringMap, lookup}
use asserts_otel_processor.Config.{Config}

pub record EntityKeyDto : Type 0 where
  pub entity_type : String
  pub name : String
  pub scope : StringMap String

-- `sort.Strings`, as insertion sort: the result does not depend on the method.
abbrev pub str_leb : String → String → Bool
str_leb a b = elim (compare_strings a b) [ Ordering.gt ↦ false | _ ↦ true ]

unfoldable pub insert_sorted : String → List String → List String
insert_sorted k [] = k ∷ []
insert_sorted k (j ∷ js) =
    let rest = insert_sorted k js in if str_leb k j then k ∷ j ∷ js else j ∷ rest

unfoldable pub sort_strings : List String → List String
sort_strings [] = []
sort_strings (k ∷ ks) = insert_sorted k (sort_strings ks)

-- `ek.Scope[key]`: the empty text for a missing key.
abbrev pub value_of : StringMap String → String → String
value_of scope key = elim (lookup key scope) [ none ↦ "" | some v ↦ v ]

-- The loop over the sorted keys, after `i` entries.
unfoldable pub scope_entries : StringMap String → ℕ → List String → String → String
scope_entries scope i [] acc = acc
scope_entries scope i (key ∷ keys) acc =
    let separated = if ltb 0 i then str_append acc ", " else acc in
    scope_entries scope (suc i) keys
      (str_append (str_append (str_append separated key) "=") (value_of scope key))

unfoldable pub entity_key_as_string : EntityKeyDto → String
unfolding scope_entries sort_strings insert_sorted
entity_key_as_string ek =
    let keys = sort_strings (map (λ (e : String × String). e.0) ek.scope) in
    let scope_string = str_append (scope_entries ek.scope zero keys "{") "}" in
    str_append (str_append (str_append (str_append scope_string "#") ek.entity_type) "#") ek.name

pub record RequestKey : Type 0 where
  pub entity_key : EntityKeyDto
  pub request : String

unfoldable pub request_key_as_string : RequestKey → String
unfolding entity_key_as_string
request_key_as_string rq =
    str_append (str_append (entity_key_as_string rq.entity_key) "#") rq.request

unfoldable pub get_service_key : String → String → String
get_service_key namespace service =
    if str_eq namespace "" then service else str_append (str_append namespace "#") service

unfoldable pub build_entity_key : Config → String → String → EntityKeyDto
build_entity_key config namespace service = record {
  entity_type = "Service";
  name = service;
  scope = ("env", config.env) ∷ ("site", config.site) ∷ ("namespace", namespace) ∷ [];
}
