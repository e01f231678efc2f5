-- ===== src/SpanEnrichment/Laws.antt =====
-- What enrichment writes: the value of a target, and the attributes that stay as they are.
use mathlib.Core.Path.{ap₂}
use mathlib.Core.List.{map-append}
use asserts_otel_processor.Base.{
  ◌≡◌, refl, sym, ap, ◌≢◌, ◌∙◌, inl, inr, String, List, [], ◌∷◌, ◌++◌, map, Option, none, some,
  arith, if◌then◌else◌, str_eq, eq_iff, All, Yields, yields, Yields-bind, Yields-map, Bool-cases,
}
use asserts_otel_processor.Base.Maps.{StringMap, lookup}
use asserts_otel_processor.Platform.{Platform}
use asserts_otel_processor.Span.{
  Value, Span, SpanKind, internal, server, client, producer, consumer, get_attribute, put_str,
}
use asserts_otel_processor.Keys.{get_service_key}
use asserts_otel_processor.Span.Latency.{get_attribute-put_str}
use asserts_otel_processor.CustomAttribute.{Compiled, get_custom_attribute}
use asserts_otel_processor.SpanEnrichment.{
  request_type_attribute, request_context_attribute, put_request_type, ensure_context,
  add_request_type, ByServiceKey, or_lookup, values_of, get_attr_configs, first_value, target_value,
  enrich_targets, enrich_span,
}

-- A map with a text for a key, spelled as the first text that is not empty.
abbrev pub first_nonempty : List String → String
first_nonempty [] = ""
first_nonempty (v ∷ vs) = if str_eq v "" then first_nonempty vs else v

abbrev pub list_of {ℓ} : {A : Type ℓ} → Option (List A) → List A
list_of none = []
list_of (some l) = l

abbrev pub list_or {ℓ} : {A : Type ℓ} → Option (List A) → List A → List A
list_or none other = other
list_or (some l) other = l

-- A span without its attributes.
abbrev pub bare : Span → Span
bare s = record s { attributes = [] }

module _ (rt : Platform) where
  -- The rule does not panic on any span.
  abbrev pub Runs : Compiled rt → Type 0
  Runs c = (span : Span) → (v : String) × (get_custom_attribute rt c span ≡ some v)

  abbrev pub IsSoundFor : ByServiceKey rt → Type 0
  IsSoundFor = All λ k. All Runs k.1

  -- No compiled rule panics.
  abbrev pub IsSound : StringMap (ByServiceKey rt) → Type 0
  IsSound = All λ t. IsSoundFor t.1

  -- The value of a rule that does not panic.
  abbrev pub rule_value : Span → Compiled rt → String
  rule_value span c = elim (get_custom_attribute rt c span) [ none ↦ "" | some v ↦ v ]

  first_value_lem :
      (cs : List (Compiled rt)) (span : Span)
      → All Runs cs
      → first_value rt cs span "" ≡ some (first_nonempty (map (rule_value span) cs))
  unfolding first_value
  first_value_lem [] span h = refl
  first_value_lem (c ∷ cs) span h =
      let (v, e) = h.0 span in ground (arith, e, eq_iff v "", first_value_lem cs span h.1)

  lookup-Runs : (k : String) (m : ByServiceKey rt) → IsSoundFor m → All Runs (list_of (lookup k m))
  unfolding lookup
  lookup-Runs k [] h = tt
  lookup-Runs k ((j, cs) ∷ m) h = elim (Bool-cases (str_eq j k)) [
    | inl e ↦ rw e h.0
    | inr e ↦ rw e (lookup-Runs k m h.1)
  ]

  -- The rules of the first key that has an entry, which may be empty.
  abbrev pub first_listed : List String → ByServiceKey rt → List (Compiled rt)
  first_listed [] m = []
  first_listed (k ∷ ks) m = list_or (lookup k m) (first_listed ks m)

  -- The rules for a service: those of its full key, else of its namespace, else of its name.
  abbrev pub service_rules : ByServiceKey rt → String → String → List (Compiled rt)
  service_rules m ns svc = first_listed (get_service_key ns svc ∷ ns ∷ svc ∷ []) m

  get_attr_configs-service_rules :
      (m : ByServiceKey rt) (ns svc : String)
      → list_of (get_attr_configs rt m ns svc) ≡ service_rules m ns svc
  unfolding get_attr_configs
  get_attr_configs-service_rules m ns svc = by_key (lookup (get_service_key ns svc) m)
    where
      by_name : (o : Option (List (Compiled rt))) → list_of o ≡ list_or o []
      by_name none = refl
      by_name (some cs) = refl

      by_namespace :
          (o : Option (List (Compiled rt)))
          → list_of (or_lookup o svc m) ≡ list_or o (first_listed (svc ∷ []) m)
      by_namespace none = by_name (lookup svc m)
      by_namespace (some cs) = refl

      by_key :
          (o : Option (List (Compiled rt)))
          → list_of (or_lookup (or_lookup o ns m) svc m)
            ≡ list_or o (first_listed (ns ∷ svc ∷ []) m)
      by_key none = by_namespace (lookup ns m)
      by_key (some cs) = refl

  or_lookup-Runs :
      (o : Option (List (Compiled rt))) (k : String) (m : ByServiceKey rt)
      → All Runs (list_of o)
      → IsSoundFor m
      → All Runs (list_of (or_lookup o k m))
  or_lookup-Runs none k m h sound = lookup-Runs k m sound
  or_lookup-Runs (some cs) k m h sound = h

  service_rules-Runs :
      (m : ByServiceKey rt) (ns svc : String)
      → IsSoundFor m
      → All Runs (list_of (get_attr_configs rt m ns svc))
  unfolding get_attr_configs
  service_rules-Runs m ns svc h =
      let full = get_service_key ns svc in
      or_lookup-Runs (or_lookup (lookup full m) ns m) svc m
        (or_lookup-Runs (lookup full m) ns m (lookup-Runs full m h) h) h

  values_of_lem :
      (o : Option (List (Compiled rt))) (span : Span)
      → All Runs (list_of o)
      → values_of rt o span ≡ some (first_nonempty (map (rule_value span) (list_of o)))
  values_of_lem none span h = refl
  values_of_lem (some cs) span h = first_value_lem cs span h

  first_nonempty-append :
      (xs ys : List String)
      → first_nonempty (xs ++ ys)
        ≡ (if str_eq (first_nonempty xs) "" then first_nonempty ys else first_nonempty xs)
  first_nonempty-append [] ys = refl
  first_nonempty-append (x ∷ xs) ys = ground (arith, eq_iff x "", first_nonempty-append xs ys)

  -- The value for a target: the first text that is not empty among those of the rules for the
  -- service and then of the rules under "default"; the empty text if there is none.
  abbrev pub value_for : ByServiceKey rt → String → String → Span → String
  value_for m ns svc span =
      first_nonempty
        (map (rule_value span) (service_rules m ns svc ++ list_of (lookup "default" m)))

  -- Over rules that do not panic, the value for a target is the first text that is not empty among
  -- those of the rules for the service, which are those under its full key, else under its namespace,
  -- else under its name, and then of the rules under "default"; it is the empty text if there is none.
  pub target_value_lem :
      (m : ByServiceKey rt) (ns svc : String) (span : Span)
      → IsSoundFor m
      → target_value rt m ns svc span ≡ some (value_for m ns svc span)
  unfolding target_value
  target_value_lem m ns svc span h =
      let own = values_of_lem (get_attr_configs rt m ns svc) span (service_rules-Runs m ns svc h) in
      let listed = get_attr_configs-service_rules m ns svc in
      let fallback = values_of_lem (lookup "default" m) span (lookup-Runs "default" m h) in
      rw (own, fallback, listed)
        (rw (map-append (rule_value span) (service_rules m ns svc) (list_of (lookup "default" m))) (
          pick (map (rule_value span) (service_rules m ns svc))
            (map (rule_value span) (list_of (lookup "default" m)))))
    where
      pick :
          (xs ys : List String)
          → (if str_eq (first_nonempty xs) ""
              then some (first_nonempty ys)
              else some (first_nonempty xs))
            ≡ some (first_nonempty (xs ++ ys))
      pick xs ys = ground (arith, first_nonempty-append xs ys)

  -- The attribute is none of the targets.
  abbrev pub NotTarget : String → StringMap (ByServiceKey rt) → Type 0
  NotTarget j = All λ t. t.0 ≢ j

  -- The loop over the targets returns, and writes no attribute but the targets.
  pub record Targeted (c : StringMap (ByServiceKey rt)) (s s' : Span) : Type 0 where
    pub same : bare s' ≡ bare s
    pub frame : (j : String) → NotTarget j c → get_attribute j s' ≡ get_attribute j s

  put_value-Targeted :
      (target v : String) (m : ByServiceKey rt) (s : Span)
      → Targeted ((target, m) ∷ []) s (if str_eq v "" then s else put_str target v s)
  unfolding put_str
  put_value-Targeted target v m s = elim (Bool-cases (str_eq v "")) [
    | inl e ↦ rw e (record { same = refl; frame = λ j n. refl })
    | inr e ↦ rw e (record {
      same = refl;
      frame = λ j n. ground (arith, get_attribute-put_str target j v s, eq_iff target j, n.0);
    })
  ]

  enrich_targets-Targeted :
      (c : StringMap (ByServiceKey rt)) (ns svc : String) (s : Span)
      → IsSound c
      → Yields (Targeted c s) (enrich_targets rt c ns svc s)
  unfolding enrich_targets
  enrich_targets-Targeted [] ns svc s h = yields (record { same = refl; frame = λ j n. refl })
  enrich_targets-Targeted ((target, m) ∷ c) ns svc s h = rw (target_value_lem m ns svc s h.0) (
      Yields-map (enrich_targets-Targeted c ns svc _ h.1) λ s' t.
        let first = put_value-Targeted target (value_for m ns svc s) m s in
        record {
          same = t.same ∙ first.same;
          frame = λ j n. t.frame j n.1 ∙ first.frame j (n.0, tt);
        })

  -- The request type that a span's kind stands for.
  abbrev pub request_type_of : SpanKind → Option String
  request_type_of client = some "outbound"
  request_type_of producer = some "outbound"
  request_type_of server = some "inbound"
  request_type_of consumer = some "inbound"
  request_type_of internal = some "internal"
  request_type_of _ = none

  -- An attribute that is given a text, or left alone.
  abbrev pub given : Option String → Option Value → Option Value
  given none old = old
  given (some t) old = some (record { str = t; as_string = t })

  record Typed (k : SpanKind) (s s' : Span) : Type 0 where
    same : bare s' ≡ bare s
    frame : (j : String) → j ≢ request_type_attribute → get_attribute j s' ≡ get_attribute j s
    typed :
        get_attribute request_type_attribute s'
        ≡ given (request_type_of k) (get_attribute request_type_attribute s)

  put_str-Typed :
      (k : SpanKind) (text : String) (s : Span)
      → request_type_of k ≡ some text
      → Typed k s (put_str request_type_attribute text s)
  unfolding put_str
  put_str-Typed k text s e = record {
    same = refl;
    frame = λ j n. ground (
      arith,
      get_attribute-put_str request_type_attribute j text s,
      eq_iff request_type_attribute j,
      n,
    );
    typed = rw e (get_attribute-put_str request_type_attribute request_type_attribute text s);
  }

  put_request_type-Typed : (k : SpanKind) (s : Span) → Typed k s (put_request_type k s)
  unfolding put_request_type
  put_request_type-Typed client s = put_str-Typed client "outbound" s refl
  put_request_type-Typed producer s = put_str-Typed producer "outbound" s refl
  put_request_type-Typed server s = put_str-Typed server "inbound" s refl
  put_request_type-Typed consumer s = put_str-Typed consumer "inbound" s refl
  put_request_type-Typed internal s = put_str-Typed internal "internal" s refl
  put_request_type-Typed _ s = record { same = refl; frame = λ j n. refl; typed = refl }

  -- The request context after enrichment: what the targets leave, or the span's name.
  abbrev pub or_name : Option Value → String → Option Value
  or_name (some v) name = some v
  or_name none name = some (record { str = name; as_string = name })

  add_request_type-Typed : (s : Span) → Typed s.kind s (add_request_type s)
  unfolding add_request_type
  add_request_type-Typed s = put_request_type-Typed s.kind s

  -- What enrichment makes of a span.
  pub record Enriched (c : StringMap (ByServiceKey rt)) (s s' : Span) : Type 0 where
    pub same : bare s' ≡ bare s
    pub frame :
        (j : String)
        → NotTarget j c
        → j ≢ request_type_attribute
        → j ≢ request_context_attribute
        → get_attribute j s' ≡ get_attribute j s
    pub request_type :
        NotTarget request_type_attribute c
        → get_attribute request_type_attribute s'
          ≡ given (request_type_of s.kind) (get_attribute request_type_attribute s)
    pub context : (v : Value) × (get_attribute request_context_attribute s' ≡ some v)
    pub context_default :
        NotTarget request_context_attribute c
        → get_attribute request_context_attribute s'
          ≡ or_name (get_attribute request_context_attribute s) s.name

  record Ensured (o : Option Value) (s s' : Span) : Type 0 where
    same : bare s' ≡ bare s
    frame : (j : String) → j ≢ request_context_attribute → get_attribute j s' ≡ get_attribute j s
    context : get_attribute request_context_attribute s' ≡ or_name o s.name

  ensure_context-Ensured :
      (o : Option Value) (s : Span)
      → get_attribute request_context_attribute s ≡ o
      → Ensured o s (ensure_context o s)
  unfolding ensure_context put_str
  ensure_context-Ensured (some v) s e = record { same = refl; frame = λ j n. refl; context = e }
  ensure_context-Ensured none s e = record {
    same = refl;
    frame = λ j n. ground (
      arith,
      get_attribute-put_str request_context_attribute j s.name s,
      eq_iff request_context_attribute j,
      n,
    );
    context = get_attribute-put_str request_context_attribute request_context_attribute s.name s;
  }

  or_name-some : (o : Option Value) (n : String) → (v : Value) × (or_name o n ≡ some v)
  or_name-some none n = (_, refl)
  or_name-some (some v) n = (v, refl)

  pub enrich_span-Enriched :
      (c : StringMap (ByServiceKey rt)) (ns svc : String) (s : Span)
      → IsSound c
      → Yields (Enriched c s) (enrich_span rt c ns svc s)
  unfolding enrich_span
  enrich_span-Enriched c ns svc s h =
      Yields-bind (enrich_targets-Targeted c ns svc (add_request_type s) h)
        λ s₁ t. yields (combine s₁ _ t (ensure_context-Ensured _ s₁ refl))
    where
      typed : Typed s.kind s (add_request_type s)
      typed = add_request_type-Typed s

      differ : request_type_attribute ≢ request_context_attribute
      differ = ground (arith, eq_iff request_type_attribute request_context_attribute)

      combine :
          (s₁ s₂ : Span)
          → Targeted c (add_request_type s) s₁
          → Ensured (get_attribute request_context_attribute s₁) s₁ s₂
          → Enriched c s s₂
      combine s₁ s₂ t u = record {
        same = u.same ∙ t.same ∙ typed.same;
        frame = λ j n p q. u.frame j q ∙ t.frame j n ∙ typed.frame j p;
        request_type = λ n. u.frame _ differ ∙ t.frame _ n ∙ typed.typed;
        context =
            let (v, e) = or_name-some (get_attribute request_context_attribute s₁) s₁.name in
            (v, u.context ∙ e);
        context_default = λ n.
            u.context
            ∙ ap₂ or_name (t.frame _ n ∙ typed.frame _ (λ e. differ (sym e)))
                (ap (λ (x : Span). x.name) (t.same ∙ typed.same));
      }

  -- Over rules that do not panic, enrichment returns. It changes nothing of a span but attributes, and
  -- an attribute that is no target, nor the request type or the request context, keeps its value.
  pub enrich_span-frame :
      (c : StringMap (ByServiceKey rt)) (ns svc j : String) (s : Span)
      → IsSound c
      → NotTarget j c
      → j ≢ request_type_attribute
      → j ≢ request_context_attribute
      → Yields
          (λ s'. (bare s' ≡ bare s) × (get_attribute j s' ≡ get_attribute j s))
          (enrich_span rt c ns svc s)
  enrich_span-frame c ns svc j s h n p q =
      Yields-map (enrich_span-Enriched c ns svc s h) λ s' e. (e.same, e.frame j n p q)

  -- Over rules that do not panic and of which none sets the request type, the request type becomes
  -- "outbound" for clients and producers, "inbound" for servers and consumers, "internal" for internal
  -- spans, and stays what it was for any other kind.
  pub enrich_span-request_type :
      (c : StringMap (ByServiceKey rt)) (ns svc : String) (s : Span)
      → IsSound c
      → NotTarget request_type_attribute c
      → Yields
          (λ s'.
            get_attribute request_type_attribute s'
            ≡ given (request_type_of s.kind) (get_attribute request_type_attribute s))
          (enrich_span rt c ns svc s)
  enrich_span-request_type c ns svc s h n =
      Yields-map (enrich_span-Enriched c ns svc s h) λ s' e. e.request_type n

  -- Over rules that do not panic, every span has a request context after enrichment.
  pub enrich_span-context :
      (c : StringMap (ByServiceKey rt)) (ns svc : String) (s : Span)
      → IsSound c
      → Yields
          (λ s'. (v : Value) × (get_attribute request_context_attribute s' ≡ some v))
          (enrich_span rt c ns svc s)
  enrich_span-context c ns svc s h =
      Yields-map (enrich_span-Enriched c ns svc s h) λ s' e. e.context

  -- If moreover no rule sets the request context, it is the one that the span had, or else its name.
  pub enrich_span-context_default :
      (c : StringMap (ByServiceKey rt)) (ns svc : String) (s : Span)
      → IsSound c
      → NotTarget request_context_attribute c
      → Yields
          (λ s'.
            get_attribute request_context_attribute s'
            ≡ or_name (get_attribute request_context_attribute s) s.name)
          (enrich_span rt c ns svc s)
  enrich_span-context_default c ns svc s h n =
      Yields-map (enrich_span-Enriched c ns svc s h) λ s' e. e.context_default n
