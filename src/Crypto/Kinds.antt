-- ===== src/Crypto/Kinds.antt =====
-- src/mediaman/crypto/tokens.py: the five kinds of token, each with a purpose of its own.

use mediaman.Prelude.{Option, String, [], none, some, ℕ, ◌*◌, ◌+◌, ◌/◌, ◌∷◌}
use mediaman.Crypto.Tokens.{
  integer, null, string, Value, Payload, Codec, Cache, validate_signed, encode_signed,
}
use mediaman.Core.Time.{Text}
use Prim.Native.Char.{code}
use Prim.Native.String.{[] as empty, ◌∷◌ as ◌◂◌}

-- The bytes of a literal.
unfoldable pub ascii : String → Text
ascii empty = []
ascii (c ◂ s) = code c ∷ ascii s

abbrev pub token_purpose_keep : Text
token_purpose_keep = ascii "mediaman-token-keep-v1"

abbrev pub token_purpose_download : Text
token_purpose_download = ascii "mediaman-token-download-v1"

abbrev pub token_purpose_unsubscribe : Text
token_purpose_unsubscribe = ascii "mediaman-token-unsubscribe-v1"

abbrev pub token_purpose_poster : Text
token_purpose_poster = ascii "mediaman-token-poster-v1"

abbrev pub token_purpose_poll : Text
token_purpose_poll = ascii "mediaman-token-poll-v1"

-- `int(time.time())`
abbrev pub seconds : ℕ → ℕ
seconds now = now / 1000000

abbrev pub or_null : {A : Type 0} → (A → Value) → Option A → Value
or_null f none = null
or_null f (some x) = f x

unfoldable pub generate_keep_token : Codec → Text → ℕ → ℕ → Text → Cache → Text × Cache
generate_keep_token c media_item_id action_id expires_at secret cache =
    let payload : Payload =
      ("media_item_id", string media_item_id)
      ∷ ("action_id", integer action_id)
      ∷ ("exp", integer expires_at)
      ∷ [] in
    encode_signed c payload secret token_purpose_keep cache

-- What a download token is for.
pub record Download : Type 0 where
  pub email : Option Text
  pub action : Text
  pub title : Text
  pub media_type : Text
  pub tmdb_id : Option ℕ
  pub recommendation_id : Option ℕ

unfoldable pub generate_download_token : Codec → Download → Text → ℕ → ℕ → Cache → Text × Cache
generate_download_token c d secret ttl_days now cache =
    let payload : Payload =
      ("email", or_null string d.email)
      ∷ ("act", string d.action)
      ∷ ("title", string d.title)
      ∷ ("mt", string d.media_type)
      ∷ ("tmdb", or_null integer d.tmdb_id)
      ∷ ("sid", or_null integer d.recommendation_id)
      ∷ ("exp", integer (seconds now + ttl_days * 86400))
      ∷ [] in
    encode_signed c payload secret token_purpose_download cache

-- `lower` is `str.lower`.
unfoldable pub generate_unsubscribe_token :
    (Text → Text) → Codec → Text → Text → ℕ → ℕ → Cache → Text × Cache
generate_unsubscribe_token lower c email secret ttl_days now cache =
    let payload : Payload =
      ("email", string (lower email)) ∷ ("exp", integer (seconds now + ttl_days * 86400)) ∷ [] in
    encode_signed c payload secret token_purpose_unsubscribe cache

unfoldable pub generate_poster_token : Codec → Text → Text → ℕ → ℕ → Cache → Text × Cache
generate_poster_token c rating_key secret ttl_days now cache =
    let payload : Payload =
      ("rk", string rating_key) ∷ ("exp", integer (seconds now + ttl_days * 86400)) ∷ [] in
    encode_signed c payload secret token_purpose_poster cache

-- `nonce` is `secrets.token_hex(8)`.
unfoldable pub generate_poll_token :
    Codec → Text → Text → ℕ → Text → Text → ℕ → ℕ → Cache → Text × Cache
generate_poll_token c media_item_id service tmdb_id nonce secret ttl_seconds now cache =
    let payload : Payload =
      ("mid", string media_item_id)
      ∷ ("svc", string service)
      ∷ ("tmdb", integer tmdb_id)
      ∷ ("nonce", string nonce)
      ∷ ("exp", integer (seconds now + ttl_seconds))
      ∷ [] in
    encode_signed c payload secret token_purpose_poll cache

unfoldable pub validate_keep_token : Codec → Text → Text → ℕ → Cache → Option Payload × Cache
validate_keep_token c token secret now cache =
    validate_signed c token secret token_purpose_keep now cache

unfoldable pub validate_download_token : Codec → Text → Text → ℕ → Cache → Option Payload × Cache
validate_download_token c token secret now cache =
    validate_signed c token secret token_purpose_download now cache

unfoldable pub validate_unsubscribe_token : Codec → Text → Text → ℕ → Cache → Option Payload × Cache
validate_unsubscribe_token c token secret now cache =
    validate_signed c token secret token_purpose_unsubscribe now cache

unfoldable pub validate_poster_token : Codec → Text → Text → ℕ → Cache → Option Payload × Cache
validate_poster_token c token secret now cache =
    validate_signed c token secret token_purpose_poster now cache

unfoldable pub validate_poll_token : Codec → Text → Text → ℕ → Cache → Option Payload × Cache
validate_poll_token c token secret now cache =
    validate_signed c token secret token_purpose_poll now cache
