-- ===== src/Crypto/Subkeys.antt =====
-- The cache of sub-keys: it never changes what is signed, and stays bounded.

use mediaman.Prelude.{
  Bool-cases, Option, [], arith, inl, inr, leb, length, list_key, nat_key, none, pair_key,
  pair_same_iff, refl, some, ◌<◌, ◌≡◌, ◌≤◌,
}
use mediaman.Prelude.Dict.{lookup-insert, length-insert-le, insert, lookup}
use mediaman.Crypto.Tokens.{Codec, Cache, subkey_cache_max_entries, fill_cache, derive_token_subkey}
use mediaman.Core.Time.{Text}

-- Every sub-key in the cache is that of each secret with its digest, and the entries are bounded.
pub record IsSound (c : Codec) (cache : Cache) : Type 0 where
  pub right :
      (secret purpose subkey : Text)
      → lookup (c.sha256 secret, purpose) cache ≡ some subkey
      → subkey ≡ c.hmac secret purpose
  pub bounded : length cache ≤ subkey_cache_max_entries

-- Digests tell secrets apart.
abbrev pub IsInjective : (Text → Text) → Type 0
IsInjective f = (s t : Text) → f s ≡ f t → s ≡ t

insert-right :
    (c : Codec) (cache : Cache) (secret purpose : Text)
    → IsInjective c.sha256
    → ((s p k : Text) → lookup (c.sha256 s, p) cache ≡ some k → k ≡ c.hmac s p)
    → (s p k : Text)
    → lookup (c.sha256 s, p) (insert (c.sha256 secret, purpose) (c.hmac secret purpose) cache)
      ≡ some k
    → k ≡ c.hmac s p
insert-right c cache secret purpose distinct right s p k h = ground (
  arith,
  h,
  lookup-insert (c.sha256 secret, purpose) (c.sha256 s, p) (c.hmac secret purpose) cache,
  pair_same_iff (c.sha256 secret, purpose) (c.sha256 s, p),
  distinct secret s,
  right s p k,
)

pub []-IsSound : (c : Codec) → IsSound c []
unfolding lookup
[]-IsSound c = record { right = λ s p k h. cc; bounded = omega arith }

insert-IsSound :
    (c : Codec) (secret purpose : Text) (cache : Cache)
    → IsInjective c.sha256
    → IsSound c cache
    → length cache < subkey_cache_max_entries
    → IsSound c (insert (c.sha256 secret, purpose) (c.hmac secret purpose) cache)
insert-IsSound c secret purpose cache distinct sound room = record {
  right = insert-right c cache secret purpose distinct sound.right;
  bounded =
      omega (arith, length-insert-le (c.sha256 secret, purpose) (c.hmac secret purpose) cache);
}

fill_cache-IsSound :
    (c : Codec) (secret purpose : Text) (cache : Cache) (found : Option Text)
    → IsInjective c.sha256
    → IsSound c cache
    → lookup (c.sha256 secret, purpose) cache ≡ found
    → let (subkey, cache') = fill_cache c secret purpose cache found in
      (subkey ≡ c.hmac secret purpose) × IsSound c cache'
unfolding fill_cache
fill_cache-IsSound c secret purpose cache (some subkey) distinct sound h =
    (sound.right secret purpose subkey h, sound)
fill_cache-IsSound c secret purpose cache none distinct sound h =
    elim (Bool-cases (leb subkey_cache_max_entries (length cache))) [
      | inl full ↦
          rw full (refl, insert-IsSound c secret purpose [] distinct ([]-IsSound c) (omega arith))
      | inr room ↦
          rw room
            (refl, insert-IsSound c secret purpose cache distinct sound (ground (arith, room)))
    ]

-- Where digests tell secrets apart, and the cache keeps to its bound and holds right entries only: the
-- sub-key is HMAC of the secret and the purpose, whether the cache holds it or is full, and the next
-- cache keeps to its bound and holds right entries only.
pub derive_token_subkey-IsSound :
    (c : Codec) (secret purpose : Text) (cache : Cache)
    → IsInjective c.sha256
    → IsSound c cache
    → let (subkey, cache') = derive_token_subkey c secret purpose cache in
      (subkey ≡ c.hmac secret purpose) × IsSound c cache'
unfolding derive_token_subkey
derive_token_subkey-IsSound c secret purpose cache distinct sound =
    fill_cache-IsSound c secret purpose cache (lookup (c.sha256 secret, purpose) cache) distinct
      sound refl
