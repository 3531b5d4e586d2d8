-- ===== src/Crypto/TokenLaws.antt =====
-- What validation says of a token that was issued.

use mediaman.Prelude.{
  [], ap, arith, false, if◌then◌else◌, is_empty, length, length-append, list_key, ltb, nat_key,
  none, refl, some, string_key, suc, ℕ, ◌&&◌, ◌*◌, ◌++◌, ◌+◌, ◌==◌, ◌∙◌, ◌∷◌, ◌≡◌, ◌≤◌,
}
use mediaman.Prelude.Dict.{lookup}
use mediaman.Crypto.Subkeys.{IsSound, IsInjective, derive_token_subkey-IsSound}
use mediaman.Crypto.Base64.{
  split_dot-append, IsPadded, rstrip_pad-body, pad-rstrip_pad, length-replicate,
}
use mediaman.Crypto.Tokens.{
  max_payload_bytes, accept, verify, sign, replicate, object, Payload, Codec, max_token_len, Cache,
  split_dot, rstrip_pad, exp_of, is_unexpired, check_payload, decode_part, read_parts, read_token,
  validate_signed, encode_signed,
}
use mediaman.Core.Time.{Text}

-- What the program relies on of base64.
pub record IsCodec (c : Codec) : Type 0 where
  pub padded : (b : Text) → IsPadded (c.urlsafe_b64encode b)
  pub longer : (b : Text) → length b ≤ length (c.urlsafe_b64encode b)
  pub decoded : (b : Text) → c.urlsafe_b64decode (c.urlsafe_b64encode b) ≡ some b

-- The tag that a secret and a purpose put on some bytes.
abbrev pub tag : Codec → Text → Text → Text → Text
tag c secret purpose bytes = c.hmac (c.hmac secret purpose) bytes

sign-tag :
    (c : Codec) (secret purpose bytes : Text) (cache : Cache)
    → IsInjective c.sha256
    → IsSound c cache
    → (sign c secret purpose bytes cache).0 ≡ tag c secret purpose bytes
unfolding sign
sign-tag c secret purpose bytes cache distinct sound =
    ap (λ k. c.hmac k bytes) (derive_token_subkey-IsSound c secret purpose cache distinct sound).0

-- A part of a token without its padding.
abbrev part_of : Codec → Text → Text
part_of c bytes = rstrip_pad (c.urlsafe_b64encode bytes)

decode_part-part_of :
    (c : Codec) (bytes : Text) → IsCodec c → decode_part c (part_of c bytes) ≡ some bytes
unfolding decode_part
decode_part-part_of c bytes ok =
    ap c.urlsafe_b64decode (pad-rstrip_pad (ok.padded bytes)) ∙ ok.decoded bytes

split_dot-parts :
    (c : Codec) (bytes sig : Text)
    → IsCodec c
    → split_dot (part_of c bytes ++ b'.' ∷ part_of c sig) ≡ part_of c bytes ∷ part_of c sig ∷ []
split_dot-parts c bytes sig ok =
    rw (rstrip_pad-body (ok.padded bytes), rstrip_pad-body (ok.padded sig))
      (split_dot-append (ok.padded bytes).body (ok.padded sig).body (ok.padded bytes).plain
        (ok.padded sig).plain)

length-part_of :
    (c : Codec) (bytes : Text) → IsCodec c → length bytes ≤ length (part_of c bytes) + 3
length-part_of c bytes ok = omega (
  arith,
  ok.longer bytes,
  ap length (ok.padded bytes).parts,
  ap length (rstrip_pad-body (ok.padded bytes)),
  length-append (ok.padded bytes).body (replicate (ok.padded bytes).padding b'='),
  length-replicate (ok.padded bytes).padding b'=',
  (ok.padded bytes).small,
)

is_empty-append : (s t : Text) (x : ℕ) → is_empty (s ++ x ∷ t) ≡ false
is_empty-append [] t x = refl
is_empty-append (y ∷ s) t x = refl

read_parts-two :
    (c : Codec) (p s bytes sig : Text)
    → decode_part c p ≡ some bytes
    → decode_part c s ≡ some sig
    → length p ≤ max_payload_bytes * 2
    → length bytes ≤ max_payload_bytes
    → read_parts c (p ∷ s ∷ []) ≡ some (bytes, sig)
unfolding read_parts
read_parts-two c p s bytes sig h k short small = rw (h, k) (ground (arith, short, small))

read_token-parts :
    (c : Codec) (bytes sig : Text)
    → IsCodec c
    → length (part_of c bytes ++ b'.' ∷ part_of c sig) ≤ max_token_len
    → read_token c (part_of c bytes ++ b'.' ∷ part_of c sig) ≡ some (bytes, sig)
unfolding read_token read_parts
read_token-parts c bytes sig ok short =
    let t = part_of c bytes in
    let u = part_of c sig in
    let total : length (t ++ b'.' ∷ u) ≡ length t + suc (length u) = length-append t (b'.' ∷ u) in
    let fits : ltb max_token_len (length (t ++ b'.' ∷ u)) ≡ false = ground (arith, short) in
    rw (is_empty-append t u b'.', fits, split_dot-parts c bytes sig ok)
      (read_parts-two c t u bytes sig (decode_part-part_of c bytes ok)
        (decode_part-part_of c sig ok) (omega (arith, total, short))
        (omega (arith, total, short, length-part_of c bytes ok)))

-- Where base64 keeps its promises, digests tell secrets apart, the caches are sound and JSON gives the
-- payload back: a token that is not too long, validated under any secret and purpose, gives back the
-- payload that it was issued for if the tag of that secret and purpose on its bytes is the tag of
-- those it was issued under, and its expiry has not passed; and otherwise nothing.
pub validate_signed-encode_signed :
    (c : Codec) (p : Payload) (secret purpose secret' purpose' : Text) (now : ℕ)
    (cache cache' : Cache)
    → IsCodec c
    → IsInjective c.sha256
    → IsSound c cache
    → IsSound c cache'
    → c.json_loads (c.json_dumps p) ≡ some (object p)
    → let token = (encode_signed c p secret purpose cache).0 in
      length token ≤ max_token_len
      → (validate_signed c token secret' purpose' now cache').0 ≡ (
          if tag c secret purpose (c.json_dumps p) == tag c secret' purpose' (c.json_dumps p)
            && is_unexpired now (exp_of (lookup "exp" p))
          then some p
          else none)
unfolding validate_signed encode_signed verify accept check_payload
validate_signed-encode_signed c p secret purpose secret' purpose' now cache cache' ok distinct sound
      sound' parsed short =
    let bytes = c.json_dumps p in
    let sig = (sign c secret purpose bytes cache).0 in
    rw
      (
        read_token-parts c bytes sig ok short,
        sign-tag c secret purpose bytes cache distinct sound,
        sign-tag c secret' purpose' bytes cache' distinct sound',
        parsed,
      )
      (ground arith)
