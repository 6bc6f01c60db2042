-- ===== src/Auth/Jwks.antt =====
-- app/auth/jwks.py: the cache of the issuer's keys. A fetch is a parameter: the entries of the
-- response, or none for any of the exceptions that are caught. Times count microseconds. `get_key` here is a call
-- with no other in between.
pub mod Spacing
use contract_change_intel.Prelude.{
  ℕ, ◌+◌, ◌*◌, Text, codes, List, [], ◌∷◌, Option, none, some, Bool, true, false, not, ◌&&◌, ◌||◌,
  ltb, text_eq, if◌then◌else◌,
}

-- An entry of "keys": its `kid`, its `use`, and the key, or none for a PyJWTError.
pub record Entry (Key : Type 0) : Type 0 where
  pub kid : Option Text
  pub use_for : Option Text
  pub key : Option Key

-- `_keys` and `_fetched_at`, where none is minus infinity.
pub record Cache (Key : Type 0) : Type 0 where
  pub keys : List (Text × Key)
  pub fetched_at : Option ℕ

-- The clock at the test of the age, at the test of the refresh, and after a fetch.
pub record Times : Type 0 where
  pub at_expiry : ℕ
  pub at_refresh : ℕ
  pub at_fetched : ℕ

-- 30 s
abbrev pub unknown_kid_refresh : ℕ
unknown_kid_refresh = 30 * 1000000

-- `now - fetched_at > seconds`
abbrev pub older_than : ℕ → Option ℕ → ℕ → Bool
older_than now none age = true
older_than now (some t) age = ltb (t + age) now

abbrev pub is_signing : Option Text → Bool
is_signing none = true
is_signing (some word) = text_eq word (codes "sig")

-- What a call did: no fetch, a fetch that failed, or one that succeeded at a time.
pub data Fetch : Type 0 where
  cached failed_fetch : Fetch
  fetched : ℕ → Fetch

-- The key, none for an id that the issuer does not know, or JwksUnavailableError.
pub data Lookup (Key : Type 0) : Type 0 where
  found : Option Key → Lookup Key
  unavailable : Lookup Key

module _ {Key : Type 0} where
  abbrev pub or_key : Option Key → Option Key → Option Key
  or_key none k = k
  or_key (some later) k = some later

  -- `_keys.get(kid)`: of two entries with the id the later one is in the dictionary.
  abbrev pub key_for : Text → List (Text × Key) → Option Key
  key_for kid [] = none
  key_for kid (k ∷ ks) = or_key (key_for kid ks) (if text_eq k.0 kid then some k.1 else none)

  abbrev pub knows : Text → List (Text × Key) → Bool
  knows kid [] = false
  knows kid (k ∷ ks) = let rest = knows kid ks in if text_eq k.0 kid then true else rest

  abbrev pub with_key : Text → Option Key → Option (List (Text × Key)) → Option (List (Text × Key))
  with_key kid none rest = none
  with_key kid (some key) none = none
  with_key kid (some key) (some rest) = some ((kid, key) ∷ rest)

  -- An entry counts if it has a `kid` that is not empty and is a signing key.
  abbrev pub add_entry :
      Entry Key → Option Text → Option (List (Text × Key)) → Option (List (Text × Key))
  add_entry entry none rest = rest
  add_entry entry (some []) rest = rest
  add_entry entry (some (c ∷ kid)) rest =
      let added = with_key (c ∷ kid) entry.key rest in
      if is_signing entry.use_for then added else rest

  -- The dictionary of a response, or none for an exception.
  unfoldable pub keys_of : List (Entry Key) → Option (List (Text × Key))
  keys_of [] = some []
  keys_of (entry ∷ entries) = add_entry entry entry.kid (keys_of entries)

  abbrev pub response_keys : Option (List (Entry Key)) → Option (List (Text × Key))
  response_keys none = none
  response_keys (some entries) = keys_of entries

  abbrev pub stale : ℕ → Cache Key → Times → Text → Bool
  stale cache_age cache times kid =
      older_than times.at_expiry cache.fetched_at cache_age
      || (not (knows kid cache.keys)
          && older_than times.at_refresh cache.fetched_at unknown_kid_refresh)

  -- `_fetch`: `none` is JwksUnavailableError, and the cache is kept.
  abbrev pub store_keys : Cache Key → Times → Option (List (Text × Key)) → Fetch × Cache Key
  store_keys cache times none = (failed_fetch, cache)
  store_keys cache times (some keys) =
      (fetched times.at_fetched, record { keys = keys; fetched_at = some times.at_fetched })

  unfoldable pub refresh :
      ℕ → Cache Key → Times → Text → Option (List (Entry Key)) → Fetch × Cache Key
  unfolding keys_of
  refresh cache_age cache times kid response =
      let after = store_keys cache times (response_keys response) in
      if stale cache_age cache times kid then after else (cached, cache)

  abbrev pub lookup : Text → Fetch × Cache Key → Lookup Key
  lookup kid (failed_fetch, cache) = unavailable
  lookup kid (cached, cache) = found (key_for kid cache.keys)
  lookup kid (fetched t, cache) = found (key_for kid cache.keys)

  unfoldable pub get_key :
      ℕ → Cache Key → Times → Text → Option (List (Entry Key)) → Lookup Key × Cache Key
  unfolding refresh
  get_key cache_age cache times kid response =
      let after = refresh cache_age cache times kid response in (lookup kid after, after.1)
