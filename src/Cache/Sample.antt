-- ===== src/Cache/Sample.antt =====
-- A concrete cache for tests, whose entries do not expire.
use asserts_otel_processor.Base.{
  suc, ◌≤◌, ◌≡◌, refl, String, List, [], ◌∷◌, map, some, All, length, arith, Bool-cases, inl, inr,
  str_eq,
}
use asserts_otel_processor.Base.Maps.{StringMap, lookup, insert}
use asserts_otel_processor.Cache.{TtlCache, IsFaithful, IsSized}

abbrev entries : {V : Type 0} → StringMap V → List V
entries {V} m = map (λ (e : String × V). e.1) m

entries-found :
    {V : Type 0} (P : V → Type 0) (k : String) (m : StringMap V) (v : V)
    → lookup k m ≡ some v
    → All P (entries m)
    → P v
unfolding lookup
entries-found P k [] v e h = absurd (cc)
entries-found P k ((j, w) ∷ m) v e h = elim (Bool-cases (str_eq j k)) [
  | inl same ↦ let f : some w ≡ some v = rw same at e in let g : v ≡ w = cc in rw g h.0
  | inr differ ↦ entries-found P k m v (rw differ at e) h.1
]

entries-keep :
    {V : Type 0} (P : V → Type 0) (k : String) (v : V) (m : StringMap V)
    → P v
    → All P (entries m)
    → All P (entries (insert k v m))
unfolding insert
entries-keep P k v [] p h = (p, tt)
entries-keep P k v ((j, w) ∷ m) p h = elim (Bool-cases (str_eq j k)) [
  | inl same ↦ rw same (p, h.1)
  | inr differ ↦ rw differ (h.0, entries-keep P k v m p h.1)
]

length-insert :
    {V : Type 0} (k : String) (v : V) (m : StringMap V) → length (insert k v m) ≤ suc (length m)
unfolding insert
length-insert k v [] = omega arith
length-insert k v ((j, w) ∷ m) = ground (arith, length-insert k v m)

abbrev pub plain_cache : (V : Type 0) → TtlCache V
plain_cache V = record {
  Cache = StringMap V;
  fresh = λ config. [];
  get = λ k m. (lookup k m, m);
  set = insert;
  len = length;
  values = entries;
}

pub plain_cache-IsFaithful : (V : Type 0) → IsFaithful (plain_cache V)
plain_cache-IsFaithful V = record {
  fresh_empty = λ config. refl;
  get_found = λ P k c v e h. entries-found P k c v e h;
  get_keeps = λ P k c h. h;
  set_keeps = λ P k v c p h. entries-keep P k v c p h;
}

pub plain_cache-IsSized : (V : Type 0) → IsSized (plain_cache V)
plain_cache-IsSized V = record {
  fresh_len = λ config. refl;
  get_len = λ k c. omega arith;
  set_len = λ k v c. length-insert k v c;
}
