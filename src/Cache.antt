-- ===== src/Cache.antt =====
-- The cache of the third-party package ttlcache, as the sampler and the metric helper use it: `get`
-- may let an entry expire and renews the one it returns. `none` is a nil item. The functions are
-- parameters, and the named laws are the documented behaviour that the theorems rely on.
pub mod Sample
use asserts_otel_processor.Base.{
  ℕ, suc, ◌≤◌, ◌≡◌, String, List, [], Option, none, some, All, Bool, true, false,
}
use asserts_otel_processor.Config.{Config}

pub record TtlCache (V : Type 0) : Type 1 where
  pub Cache : Type 0
  pub fresh : Config → Cache
  pub get : String → Cache → Option V × Cache
  pub set : String → V → Cache → Cache
  pub len : Cache → ℕ
  -- The values of the entries that have not expired.
  pub values : Cache → List V

-- A cache holds what was set and nothing else.
pub record IsFaithful {V : Type 0} (t : TtlCache V) : Type 1 where
  pub fresh_empty : (config : Config) → t.values (t.fresh config) ≡ []
  pub get_found :
      (P : V → Type 0) (k : String) (c : t.Cache) (v : V)
      → (t.get k c).0 ≡ some v
      → All P (t.values c)
      → P v
  pub get_keeps :
      (P : V → Type 0) (k : String) (c : t.Cache)
      → All P (t.values c)
      → All P (t.values (t.get k c).1)
  pub set_keeps :
      (P : V → Type 0) (k : String) (v : V) (c : t.Cache)
      → P v
      → All P (t.values c)
      → All P (t.values (t.set k v c))

-- The number of entries: none at first, at most one more after `set`, no more after `get`, and as
-- many after setting a key as before, if `get` has just found it.
pub record IsSized {V : Type 0} (t : TtlCache V) : Type 0 where
  pub fresh_len : (config : Config) → t.len (t.fresh config) ≡ 0
  pub get_len : (k : String) (c : t.Cache) → t.len (t.get k c).1 ≤ t.len c
  pub set_len : (k : String) (v : V) (c : t.Cache) → t.len (t.set k v c) ≤ suc (t.len c)
