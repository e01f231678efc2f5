-- ===== src/Keys/Scope.antt =====
-- The text of an entity key.
use Prim.Native.String.{◌++◌}
use text.Mathlib.TextLemmas.{append_assoc}
use asserts_otel_processor.Base.{◌≡◌, String, ap, sym, ◌∙◌}
use asserts_otel_processor.Base.Maps.{lookup}
use asserts_otel_processor.Config.{Config}
use asserts_otel_processor.Keys.{build_entity_key, entity_key_as_string}

glue : (a b c t : String) → a ++ (b ++ (c ++ t)) ≡ ((a ++ b) ++ c) ++ t
glue a b c t = simp append_assoc

glue4 : (t : String) → "}#Service" ++ ("#" ++ t) ≡ "}#Service#" ++ t
glue4 t = sym (append_assoc "}#Service" "#" t)

-- The key of a service spells out env, namespace and site, in that order, and the service.
pub entity_key_as_string-build_entity_key :
    (c : Config) (namespace service : String)
    → entity_key_as_string (build_entity_key c namespace service)
      ≡ "{env="
        ++ (c.env
            ++ (", namespace="
                ++ (namespace ++ (", site=" ++ (c.site ++ ("}#Service#" ++ service))))))
unfolding entity_key_as_string build_entity_key lookup
entity_key_as_string-build_entity_key c namespace service = simp append_assoc (
    glue "{" "env" "=" _
    ∙ ap (λ t. "{env=" ++ (c.env ++ t))
        (glue ", " "namespace" "=" _
          ∙ ap (λ t. ", namespace=" ++ (namespace ++ t))
              (glue ", " "site" "=" _
                ∙ ap (λ t. ", site=" ++ (c.site ++ t)) (glue "}" "#" "Service" _ ∙ glue4 service))))
