-- ===== src/Crypto/KindLaws.antt =====
-- A token of one kind is good for nothing else, and for no longer than it was issued for.

use mediaman.Prelude.{
  Option, [], ap, arith, if◌then◌else◌, leb, length, list_key, list_same_iff, nat_key, none, refl,
  some, string_key, suc, sym, zero, ℕ, ◌&&◌, ◌*◌, ◌+◌, ◌/◌, ◌==◌, ◌∙◌, ◌∷◌, ◌≡◌, ◌≤◌,
}
use mathlib.Core.Path.{subst}
use mediaman.Prelude.Dict.{lookup}
use mediaman.Crypto.Subkeys.{IsSound, IsInjective}
use mediaman.Crypto.TokenLaws.{validate_signed-encode_signed, IsCodec, tag}
use mediaman.Crypto.Tokens.{
  integer, string, object, max_token_len, exp_of, is_unexpired, validate_signed, encode_signed,
  Payload, Codec, Cache,
}
use mediaman.Crypto.Kinds.{
  or_null, ascii, token_purpose_keep, token_purpose_download, token_purpose_unsubscribe,
  token_purpose_poster, token_purpose_poll, generate_keep_token, Download, generate_download_token,
  generate_unsubscribe_token, generate_poster_token, generate_poll_token, validate_keep_token,
  validate_download_token, validate_unsubscribe_token, validate_poster_token, validate_poll_token,
}
use mediaman.Core.Time.{Text}

pub data Kind : Type 0 where
  keep download unsubscribe poster poll : Kind

abbrev pub number : Kind → ℕ
number keep = 0
number download = 1
number unsubscribe = 2
number poster = 3
number poll = 4

abbrev pub purpose : Kind → Text
purpose keep = token_purpose_keep
purpose download = token_purpose_download
purpose unsubscribe = token_purpose_unsubscribe
purpose poster = token_purpose_poster
purpose poll = token_purpose_poll

-- A call of one of the five functions that issue a token.
pub data Request : Type 0 where
  for_keep : Text → ℕ → ℕ → Request
  for_download : Download → ℕ → Request
  for_unsubscribe : Text → ℕ → Request
  for_poster : Text → ℕ → Request
  for_poll : Text → Text → ℕ → Text → ℕ → Request

abbrev pub kind_of : Request → Kind
kind_of (for_keep media_item_id action_id expires_at) = keep
kind_of (for_download d ttl_days) = download
kind_of (for_unsubscribe email ttl_days) = unsubscribe
kind_of (for_poster rating_key ttl_days) = poster
kind_of (for_poll media_item_id service tmdb_id nonce ttl_seconds) = poll

unfoldable pub issue : (Text → Text) → Codec → Request → Text → ℕ → Cache → Text × Cache
issue lower c (for_keep media_item_id action_id expires_at) secret now cache =
    generate_keep_token c media_item_id action_id expires_at secret cache
issue lower c (for_download d ttl_days) secret now cache =
    generate_download_token c d secret ttl_days now cache
issue lower c (for_unsubscribe email ttl_days) secret now cache =
    generate_unsubscribe_token lower c email secret ttl_days now cache
issue lower c (for_poster rating_key ttl_days) secret now cache =
    generate_poster_token c rating_key secret ttl_days now cache
issue lower c (for_poll media_item_id service tmdb_id nonce ttl_seconds) secret now cache =
    generate_poll_token c media_item_id service tmdb_id nonce secret ttl_seconds now cache

unfoldable pub validate : Kind → Codec → Text → Text → ℕ → Cache → Option Payload × Cache
validate keep = validate_keep_token
validate download = validate_download_token
validate unsubscribe = validate_unsubscribe_token
validate poster = validate_poster_token
validate poll = validate_poll_token

-- The last second at which a token is good.
unfoldable pub last_second : ℕ → Request → ℕ
last_second now (for_keep media_item_id action_id expires_at) = expires_at
last_second now (for_download d ttl_days) = now / 1000000 + ttl_days * 86400
last_second now (for_unsubscribe email ttl_days) = now / 1000000 + ttl_days * 86400
last_second now (for_poster rating_key ttl_days) = now / 1000000 + ttl_days * 86400
last_second now (for_poll media_item_id service tmdb_id nonce ttl_seconds) =
    now / 1000000 + ttl_seconds

-- What a token of a request says.
unfoldable pub payload : (Text → Text) → ℕ → Request → Payload
payload lower now (for_keep media_item_id action_id expires_at) =
    ("media_item_id", string media_item_id)
    ∷ ("action_id", integer action_id)
    ∷ ("exp", integer expires_at)
    ∷ []
payload lower now (for_download d ttl_days) =
    ("email", or_null string d.email)
    ∷ ("act", string d.action)
    ∷ ("title", string d.title)
    ∷ ("mt", string d.media_type)
    ∷ ("tmdb", or_null integer d.tmdb_id)
    ∷ ("sid", or_null integer d.recommendation_id)
    ∷ ("exp", integer (last_second now (for_download d ttl_days)))
    ∷ []
payload lower now (for_unsubscribe email ttl_days) =
    ("email", string (lower email))
    ∷ ("exp", integer (last_second now (for_unsubscribe email ttl_days)))
    ∷ []
payload lower now (for_poster rating_key ttl_days) =
    ("rk", string rating_key)
    ∷ ("exp", integer (last_second now (for_poster rating_key ttl_days)))
    ∷ []
payload lower now (for_poll media_item_id service tmdb_id nonce ttl_seconds) =
    ("mid", string media_item_id)
    ∷ ("svc", string service)
    ∷ ("tmdb", integer tmdb_id)
    ∷ ("nonce", string nonce)
    ∷ ("exp", integer (last_second now (for_poll media_item_id service tmdb_id nonce ttl_seconds)))
    ∷ []

-- Under one secret, HMAC tells messages apart, and the sub-keys of the secret sign a text apart.
pub record IsCollisionFree (c : Codec) (secret : Text) : Type 0 where
  pub messages : (m m' : Text) → c.hmac secret m ≡ c.hmac secret m' → m ≡ m'
  pub subkeys :
      (m m' bytes : Text)
      → c.hmac (c.hmac secret m) bytes ≡ c.hmac (c.hmac secret m') bytes
      → c.hmac secret m ≡ c.hmac secret m'

-- The kind is read off a letter that no two purposes share.
letter : Text → ℕ → ℕ
letter [] n = 0
letter (x ∷ s) zero = x
letter (x ∷ s) (suc n) = letter s n

named : ℕ → ℕ
named x =
    if x == b'p'
    then 0
    else if x == b'n'
    then 1
    else if x == b'u'
    then 2
    else if x == b't'
    then 3
    else 4

named-letter : (k : Kind) → named (letter (purpose k) 18) ≡ number k
unfolding ascii named letter
named-letter keep = refl
named-letter download = refl
named-letter unsubscribe = refl
named-letter poster = refl
named-letter poll = refl

purpose-number : (k k' : Kind) → purpose k ≡ purpose k' → number k ≡ number k'
purpose-number k k' h = sym (named-letter k) ∙ ap (λ s. named (letter s 18)) h ∙ named-letter k'

kind_at : ℕ → Kind
kind_at zero = keep
kind_at (suc zero) = download
kind_at (suc (suc zero)) = unsubscribe
kind_at (suc (suc (suc zero))) = poster
kind_at (suc (suc (suc (suc n)))) = poll

kind_at-number : (k : Kind) → kind_at (number k) ≡ k
unfolding kind_at
kind_at-number keep = refl
kind_at-number download = refl
kind_at-number unsubscribe = refl
kind_at-number poster = refl
kind_at-number poll = refl

number-purpose : (k k' : Kind) → number k ≡ number k' → purpose k ≡ purpose k'
number-purpose k k' h =
    sym (ap purpose (kind_at-number k))
    ∙ ap (λ n. purpose (kind_at n)) h
    ∙ ap purpose (kind_at-number k')

tag_same :
    (c : Codec) (secret bytes : Text) (k k' : Kind)
    → IsCollisionFree c secret
    → (tag c secret (purpose k) bytes == tag c secret (purpose k') bytes) ≡ (number k == number k')
tag_same c secret bytes k k' free = ground (
  arith,
  list_same_iff (tag c secret (purpose k) bytes) (tag c secret (purpose k') bytes),
  free.subkeys (purpose k) (purpose k') bytes,
  free.messages (purpose k) (purpose k'),
  purpose-number k k',
  number-purpose k k',
)

issue-encode_signed :
    (lower : Text → Text) (c : Codec) (r : Request) (secret : Text) (now : ℕ) (cache : Cache)
    → issue lower c r secret now cache
      ≡ encode_signed c (payload lower now r) secret (purpose (kind_of r)) cache
unfolding issue payload last_second generate_keep_token generate_download_token
    generate_unsubscribe_token generate_poster_token generate_poll_token
issue-encode_signed lower c (for_keep media_item_id action_id expires_at) secret now cache = refl
issue-encode_signed lower c (for_download d ttl_days) secret now cache = refl
issue-encode_signed lower c (for_unsubscribe email ttl_days) secret now cache = refl
issue-encode_signed lower c (for_poster rating_key ttl_days) secret now cache = refl
issue-encode_signed lower c (for_poll media_item_id service tmdb_id nonce ttl_seconds) secret now
      cache =
    refl

validate-validate_signed :
    (k : Kind) (c : Codec) (token secret : Text) (now : ℕ) (cache : Cache)
    → validate k c token secret now cache ≡ validate_signed c token secret (purpose k) now cache
unfolding validate validate_keep_token validate_download_token validate_unsubscribe_token
    validate_poster_token validate_poll_token
validate-validate_signed keep c token secret now cache = refl
validate-validate_signed download c token secret now cache = refl
validate-validate_signed unsubscribe c token secret now cache = refl
validate-validate_signed poster c token secret now cache = refl
validate-validate_signed poll c token secret now cache = refl

exp_of-payload :
    (lower : Text → Text) (now : ℕ) (r : Request)
    → exp_of (lookup "exp" (payload lower now r)) ≡ integer (last_second now r)
unfolding payload last_second lookup
exp_of-payload lower now (for_keep media_item_id action_id expires_at) = refl
exp_of-payload lower now (for_download d ttl_days) = refl
exp_of-payload lower now (for_unsubscribe email ttl_days) = refl
exp_of-payload lower now (for_poster rating_key ttl_days) = refl
exp_of-payload lower now (for_poll media_item_id service tmdb_id nonce ttl_seconds) = refl

-- Where base64 keeps its promises, SHA-256 tells secrets apart, the caches are sound and JSON gives the
-- payload back, and where under the secret HMAC tells messages apart and the sub-keys of the secret sign
-- every text apart: a token that a request issued, not too long, and presented later as a token of any
-- kind, under the same secret, gives back what the request asked for exactly if the kind is the one that
-- it was issued as and the last second of the request has not passed; otherwise nothing.
pub validate-issue :
    (lower : Text → Text) (c : Codec) (r : Request) (k : Kind) (secret : Text) (now now' : ℕ)
    (cache cache' : Cache)
    → IsCodec c
    → IsInjective c.sha256
    → IsCollisionFree c secret
    → IsSound c cache
    → IsSound c cache'
    → c.json_loads (c.json_dumps (payload lower now r)) ≡ some (object (payload lower now r))
    → let token = (issue lower c r secret now cache).0 in
      length token ≤ max_token_len
      → (validate k c token secret now' cache').0 ≡ (
          if (number (kind_of r) == number k) && leb now' (last_second now r * 1000000)
          then some (payload lower now r)
          else none)
unfolding is_unexpired
validate-issue lower c r k secret now now' cache cache' ok distinct free sound sound' parsed short =
    (let p = payload lower now r in
      let made = issue-encode_signed lower c r secret now cache in
      let short' = subst (λ t. length t.0 ≤ max_token_len) made short in
      rw
        (validate-validate_signed k c (issue lower c r secret now cache).0 secret now' cache', made)
        (validate_signed-encode_signed c p secret (purpose (kind_of r)) secret (purpose k) now'
            cache cache' ok distinct sound sound' parsed short'
          ∙ rw (tag_same c secret (c.json_dumps p) (kind_of r) k free, exp_of-payload lower now r)
              (ground arith)))
