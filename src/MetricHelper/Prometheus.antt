-- ===== src/MetricHelper/Prometheus.antt =====
-- The registry and the histogram vectors of the Prometheus client library, as far as the metric helper
-- uses them. The values of labels are texts, which are valid UTF-8.
use asserts_otel_processor.Base.{
  ◌≤◌, ◌≡◌, refl, Bool, true, ◌&&◌, String, List, [], ◌∷◌, ◌++◌, leb, ◌==◌, arith, eq_iff,
  Bool-cases, inl, inr,
}
use asserts_otel_processor.Base.Maps.{StringMap}
use asserts_otel_processor.Float.{Float64, flt}
use asserts_otel_processor.Labels.Agreement.{count, keys}

pub record Registry : Type 0 where
  -- `With` on a histogram with these buckets and label names does not panic on these labels.
  pub accepts : List Float64 → List String → StringMap String → Bool
  -- `Register` has no error for a histogram with these label names.
  pub registers : List String → Bool

-- The buckets increase strictly. Without buckets a histogram has the default ones.
unfoldable pub increasing : List Float64 → Bool
increasing [] = true
increasing (b ∷ []) = true
increasing (b ∷ c ∷ bs) = flt b c && increasing (c ∷ bs)

-- The documented conditions of `With` on a histogram vector: the buckets increase strictly, "le" is
-- no label name, and the labels are the names. No vector is registered with a name twice.
pub record IsConsistent (r : Registry) : Type 0 where
  pub accepts_same :
      (buckets : List Float64) (names : List String) (labels : StringMap String)
      → increasing buckets ≡ true
      → count "le" names ≡ 0
      → ((s : String) → count s (keys labels) ≡ count s names)
      → r.accepts buckets names labels ≡ true
  pub registers_once :
      (names : List String) → r.registers names ≡ true → (s : String) → count s names ≤ 1

-- A concrete registry for tests, which accepts labels under exactly these conditions.
abbrev agree : StringMap String → List String → List String → Bool
agree labels names [] = true
agree labels names (s ∷ ss) = count s (keys labels) == count s names && agree labels names ss

abbrev once_each : List String → List String → Bool
once_each names [] = true
once_each names (s ∷ ss) = leb (count s names) 1 && once_each names ss

agree-same :
    (labels : StringMap String) (names : List String)
    → ((s : String) → count s (keys labels) ≡ count s names)
    → (ss : List String) → agree labels names ss ≡ true
agree-same labels names h [] = refl
agree-same labels names h (s ∷ ss) = ground (arith, h s, agree-same labels names h ss)

once_each-once :
    (names : List String) (s : String) (ss : List String)
    → once_each names ss ≡ true
    → 1 ≤ count s ss
    → count s names ≤ 1
unfolding count
once_each-once names s [] h found = absurd (omega arith)
once_each-once names s (u ∷ ss) h found = ground (arith, eq_iff s u, once_each-once names s ss)

abbrev pub plain_registry : Registry
plain_registry = record {
  accepts = λ buckets names labels.
      increasing buckets && count "le" names == 0 && agree labels names (keys labels ++ names);
  registers = λ names. once_each names names;
}

pub plain_registry-IsConsistent : IsConsistent plain_registry
plain_registry-IsConsistent = record {
  accepts_same = λ buckets names labels up no_le h.
      rw (up, no_le) (agree-same labels names h (keys labels ++ names));
  registers_once = λ names h s. elim (Bool-cases (leb 1 (count s names))) [
    | inl e ↦ once_each-once names s names h (ground arith)
    | inr e ↦ ground arith
  ];
}
