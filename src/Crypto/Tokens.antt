-- ===== src/Crypto/Tokens.antt =====
-- src/mediaman/crypto/tokens.py: tokens `payload.signature`, signed under a key of their purpose.
-- Bytes and texts are lists of numbers. An instant is in microseconds.

use mediaman.Prelude.{
  Bool, List, Option, String, [], false, if◌then◌else◌, is_empty, leb, length, list_key, ltb,
  nat_key, none, not, pair_key, some, string_key, suc, zero, ℕ, ◌%◌, ◌&&◌, ◌*◌, ◌++◌, ◌-◌, ◌==◌,
  ◌||◌, ◌∷◌,
}
use mediaman.Prelude.Dict.{lookup, insert, Dict}
use mediaman.Core.Time.{Text}

-- A value in a payload, as far as the expiry asks: a number below zero lies before every instant, and
-- an integer is one that a float can hold.
pub data Value : Type 0 where
  integer : ℕ → Value
  float : ℕ → Value
  negative not_finite null : Value
  boolean : Bool → Value
  string : Text → Value

abbrev pub Payload : Type 0
Payload = Dict String Value

-- What `json.loads` returns.
pub data Json : Type 0 where
  object : Payload → Json
  not_object : Json

-- `base64`, `hmac` and `hashlib` with SHA-256, and `json`; `none` is an exception that the program
-- catches.
pub record Codec : Type 0 where
  pub urlsafe_b64encode : Text → Text
  pub urlsafe_b64decode : Text → Option Text
  pub hmac : Text → Text → Text
  pub sha256 : Text → Text
  pub json_dumps : Payload → Text
  pub json_loads : Text → Option Json

abbrev pub max_token_len : ℕ
max_token_len = 4096

abbrev pub max_payload_bytes : ℕ
max_payload_bytes = 8192

-- `_subkey_cache`: sub-keys by the digest of the secret and the purpose.
abbrev pub Cache : Type 0
Cache = Dict (Text × Text) Text

abbrev pub subkey_cache_max_entries : ℕ
subkey_cache_max_entries = 64

-- What happens after a lookup in the cache.
unfoldable pub fill_cache : Codec → Text → Text → Cache → Option Text → Text × Cache
fill_cache c secret purpose cache (some subkey) = (subkey, cache)
fill_cache c secret purpose cache none =
    let subkey = c.hmac secret purpose in
    let kept = if leb subkey_cache_max_entries (length cache) then [] else cache in
    (subkey, insert (c.sha256 secret, purpose) subkey kept)

-- `_derive_token_subkey`
unfoldable pub derive_token_subkey : Codec → Text → Text → Cache → Text × Cache
derive_token_subkey c secret purpose cache =
    fill_cache c secret purpose cache (lookup (c.sha256 secret, purpose) cache)

-- `_sign`
unfoldable pub sign : Codec → Text → Text → Text → Cache → Text × Cache
sign c secret purpose payload cache =
    let (subkey, cache') = derive_token_subkey c secret purpose cache in
    (c.hmac subkey payload, cache')

-- `x` stands before a text that is split already.
unfoldable pub cut : ℕ → List Text → List Text
cut x [] = []
cut x (part ∷ parts) = if x == b'.' then [] ∷ part ∷ parts else (x ∷ part) ∷ parts

-- `s.split(".")`
unfoldable pub split_dot : Text → List Text
split_dot [] = [] ∷ []
split_dot (x ∷ s) = cut x (split_dot s)

unfoldable pub replicate : ℕ → ℕ → Text
replicate zero x = []
replicate (suc n) x = x ∷ replicate n x

-- `s + "=" * (-len(s) % 4)`
unfoldable pub pad : Text → Text
pad s = s ++ replicate ((4 - length s % 4) % 4) b'='

-- `s.rstrip("=")`
unfoldable pub rstrip_pad : Text → Text
rstrip_pad [] = []
rstrip_pad (x ∷ s) = let rest = rstrip_pad s in if x == b'=' && is_empty rest then [] else x ∷ rest

abbrev pub exp_of : Option Value → Value
exp_of none = integer 0
exp_of (some v) = v

-- Whether `exp` passes every test: an int or float, not a bool, finite, and not before now.
unfoldable pub is_unexpired : ℕ → Value → Bool
is_unexpired now (integer n) = not (ltb (n * 1000000) now)
is_unexpired now (float t) = not (ltb t now)
is_unexpired now negative = false
is_unexpired now not_finite = false
is_unexpired now null = false
is_unexpired now (boolean b) = false
is_unexpired now (string s) = false

unfoldable pub check_payload : ℕ → Option Json → Option Payload
check_payload now none = none
check_payload now (some not_object) = none
check_payload now (some (object p)) =
    if is_unexpired now (exp_of (lookup "exp" p)) then some p else none

-- The signature is compared before the payload is parsed.
unfoldable pub accept : Codec → ℕ → Text → Text → Text → Option Payload
accept c now payload sig expected =
    if sig == expected then check_payload now (c.json_loads payload) else none

-- A part of a token, decoded.
unfoldable pub decode_part : Codec → Text → Option Text
decode_part c part = c.urlsafe_b64decode (pad part)

abbrev pub both : Option Text → Option Text → Option (Text × Text)
both none sig = none
both (some payload) none = none
both (some payload) (some sig) =
    if ltb max_payload_bytes (length payload) then none else some (payload, sig)

-- The payload and the signature, up to the point where the key is needed.
unfoldable pub read_parts : Codec → List Text → Option (Text × Text)
read_parts c (p ∷ s ∷ []) =
    if ltb (max_payload_bytes * 2) (length p)
    then none
    else both (decode_part c p) (decode_part c s)
read_parts c _ = none

unfoldable pub read_token : Codec → Text → Option (Text × Text)
read_token c token =
    if is_empty token || ltb max_token_len (length token)
    then none
    else read_parts c (split_dot token)

unfoldable pub verify :
    Codec → Text → Text → ℕ → Cache → Option (Text × Text) → Option Payload × Cache
verify c secret purpose now cache none = (none, cache)
verify c secret purpose now cache (some (payload, sig)) =
    let (expected, cache') = sign c secret purpose payload cache in
    (accept c now payload sig expected, cache')

-- `_validate_signed`
unfoldable pub validate_signed : Codec → Text → Text → Text → ℕ → Cache → Option Payload × Cache
validate_signed c token secret purpose now cache =
    verify c secret purpose now cache (read_token c token)

-- `_encode_signed`
unfoldable pub encode_signed : Codec → Payload → Text → Text → Cache → Text × Cache
encode_signed c payload secret purpose cache =
    let bytes = c.json_dumps payload in
    let (sig, cache') = sign c secret purpose bytes cache in
    (rstrip_pad (c.urlsafe_b64encode bytes) ++ b'.' ∷ rstrip_pad (c.urlsafe_b64encode sig), cache')
