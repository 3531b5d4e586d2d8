-- ===== src/Crypto/Tests.antt =====
-- A concrete codec: characters are shifted past the padding, and HMAC joins its inputs.

use mediaman.Prelude.{
  Option, [], ap, arith, length, length-append, none, refl, some, string_key, suc, ℕ, ◌%◌, ◌+◌, ◌-◌,
  ◌∙◌, ◌∷◌, ◌≡◌, ◌≤◌,
}
use mediaman.Crypto.Subkeys.{IsSound, []-IsSound, derive_token_subkey-IsSound}
use mediaman.Crypto.KindLaws.{
  IsCollisionFree, payload, issue, poster, validate, Request, for_poster, last_second,
  validate-issue,
}
use mediaman.Crypto.Kinds.{generate_poster_token, ascii, token_purpose_keep, token_purpose_poster}
use mediaman.Prelude.Dict.{lookup}
use mediaman.Crypto.Base64.{IsPlain, IsPadded, rstrip_pad-body}
use mediaman.Crypto.TokenLaws.{validate_signed-encode_signed, IsCodec}
use mediaman.Crypto.Tokens.{
  sign, max_token_len, fill_cache, Payload, derive_token_subkey, is_unexpired, validate_signed,
  encode_signed, integer, replicate, string, object, pad, Value, Json, Codec, rstrip_pad,
}
use mediaman.Core.Time.{Text}

shift : Text → Text
shift [] = []
shift (x ∷ s) = (x + 100) ∷ shift s

unshift : Text → Text
unshift [] = []
unshift (x ∷ s) = (x - 100) ∷ unshift s

unshift-shift : (s : Text) → unshift (shift s) ≡ s
unfolding shift unshift
unshift-shift [] = refl
unshift-shift (x ∷ s) = rw (unshift-shift s) (ground arith)

length-shift : (s : Text) → length (shift s) ≡ length s
unfolding shift
length-shift [] = refl
length-shift (x ∷ s) = ap suc (length-shift s)

shift-IsPlain : (s : Text) → IsPlain (shift s)
unfolding shift
shift-IsPlain [] = tt
shift-IsPlain (x ∷ s) = (ground arith, ground arith, shift-IsPlain s)

join : Text → Text → Text
join [] message = 0 ∷ message
join (x ∷ key) message = suc x ∷ join key message

join_injective :
    (key message key' message' : Text)
    → join key message ≡ join key' message'
    → (key ≡ key') × (message ≡ message')
unfolding join
join_injective [] message [] message' h = ground (arith, h)
join_injective [] message (x ∷ key') message' h = ground (arith, h)
join_injective (x ∷ key) message [] message' h = ground (arith, h)
join_injective (x ∷ key) message (y ∷ key') message' h =
    ground (arith, h, join_injective key message key' message')

-- Payloads of poster tokens as texts.
dumps_at : Option Value → Option Value → Text
dumps_at (some (string rk)) (some (integer n)) = n ∷ rk
dumps_at rk n = []

loads : Text → Option Json
loads [] = none
loads (n ∷ rk) = some (object (("rk", string rk) ∷ ("exp", integer n) ∷ []))

unfoldable joined : Codec
joined = record {
  urlsafe_b64encode = λ s. pad (shift s);
  urlsafe_b64decode = λ s. some (unshift (rstrip_pad s));
  hmac = join;
  sha256 = λ s. s;
  json_dumps = λ p. dumps_at (lookup "rk" p) (lookup "exp" p);
  json_loads = loads;
}

joined-IsCodec : IsCodec joined
unfolding joined pad
joined-IsCodec =
    let padded : (s : Text) → IsPadded (pad (shift s)) = λ s. record {
      body = shift s;
      padding = (4 - length (shift s) % 4) % 4;
      parts = refl;
      plain = shift-IsPlain s;
      small = omega arith;
      whole = omega arith;
    } in
    record {
      padded = padded;
      longer = λ s. omega (
        arith,
        length-shift s,
        length-append (shift s) (replicate ((4 - length (shift s) % 4) % 4) b'='),
      );
      decoded =
          λ s. ap (λ t. some (unshift t)) (rstrip_pad-body (padded s)) ∙ ap some (unshift-shift s);
    }

abbrev poster_request : Request
poster_request = for_poster (b'4' ∷ b'2' ∷ []) 1

abbrev secret_key : Text
secret_key = 7 ∷ 8 ∷ []

abbrev issued_at : ℕ
issued_at = 5000000

derive_token_subkey-IsSound_example :
    let (subkey, cache) = derive_token_subkey joined secret_key token_purpose_keep [] in
    (subkey ≡ joined.hmac secret_key token_purpose_keep) × IsSound joined cache
unfolding joined
derive_token_subkey-IsSound_example =
    derive_token_subkey-IsSound joined secret_key token_purpose_keep [] (λ s t h. h)
      ([]-IsSound joined)

abbrev example_payload : Payload
example_payload = ("rk", string (b'4' ∷ [])) ∷ ("exp", integer 6) ∷ []

example_payload-parsed :
    joined.json_loads (joined.json_dumps example_payload) ≡ some (object example_payload)
unfolding joined dumps_at loads lookup
example_payload-parsed = refl

example_token-short :
    length (encode_signed joined example_payload secret_key token_purpose_poster []).0
    ≤ max_token_len
unfolding joined dumps_at lookup encode_signed sign derive_token_subkey fill_cache ascii join shift
    pad rstrip_pad replicate
example_token-short = omega arith

validate_signed-encode_signed_example :
    (validate_signed joined
      (encode_signed joined example_payload secret_key token_purpose_poster []).0
      secret_key
      token_purpose_poster
      issued_at
      []).0
    ≡ some example_payload
unfolding ascii joined is_unexpired join dumps_at lookup
validate_signed-encode_signed_example =
    validate_signed-encode_signed joined example_payload secret_key token_purpose_poster secret_key
      token_purpose_poster issued_at [] [] joined-IsCodec (λ s t h. h) ([]-IsSound joined)
      ([]-IsSound joined) example_payload-parsed example_token-short

poster_payload-parsed :
    let p = payload (λ s. s) issued_at poster_request in
    joined.json_loads (joined.json_dumps p) ≡ some (object p)
unfolding joined dumps_at loads lookup payload last_second
poster_payload-parsed = refl

poster_token-short :
    length (issue (λ s. s) joined poster_request secret_key issued_at []).0 ≤ max_token_len
unfolding joined dumps_at lookup encode_signed sign derive_token_subkey fill_cache ascii join shift
    pad rstrip_pad issue generate_poster_token replicate
poster_token-short = omega arith

joined-IsCollisionFree : IsCollisionFree joined secret_key
unfolding joined
joined-IsCollisionFree = record {
  messages = λ m m' e. (join_injective secret_key m secret_key m' e).1;
  subkeys =
      λ m m' bytes e. (join_injective (join secret_key m) bytes (join secret_key m') bytes e).0;
}

validate-issue_example :
    (validate poster joined
      (issue (λ s. s) joined poster_request secret_key issued_at []).0
      secret_key
      (issued_at + 86400000000)
      []).0
    ≡ some (payload (λ s. s) issued_at poster_request)
unfolding joined last_second
validate-issue_example =
    validate-issue (λ s. s) joined poster_request poster secret_key issued_at
      (issued_at + 86400000000) [] [] joined-IsCodec (λ s t h. h) joined-IsCollisionFree
      ([]-IsSound joined) ([]-IsSound joined) poster_payload-parsed poster_token-short
