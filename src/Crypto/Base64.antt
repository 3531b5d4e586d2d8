-- ===== src/Crypto/Base64.antt =====
-- The padding of base64 that a token leaves out, and the dot between its parts.

use mediaman.Prelude.{
  [], ap, arith, false, length, nat_key, refl, suc, sym, zero, ℕ, ◌%◌, ◌++◌, ◌+◌, ◌-◌, ◌<◌, ◌==◌,
  ◌∙◌, ◌∷◌, ◌≡◌,
}
use mediaman.Crypto.Tokens.{pad, replicate, cut, split_dot, rstrip_pad}
use mediaman.Core.Time.{Text}

-- No character is the padding or the dot.
abbrev pub IsPlain : Text → Type 0
IsPlain [] = Unit
IsPlain (x ∷ s) = ((x == b'=') ≡ false) × ((x == b'.') ≡ false) × IsPlain s

rstrip_pad-replicate : (k : ℕ) → rstrip_pad (replicate k b'=') ≡ []
unfolding rstrip_pad replicate
rstrip_pad-replicate zero = refl
rstrip_pad-replicate (suc k) = rw (rstrip_pad-replicate k) refl

pub rstrip_pad-append :
    (body : Text) (k : ℕ) → IsPlain body → rstrip_pad (body ++ replicate k b'=') ≡ body
unfolding rstrip_pad
rstrip_pad-append [] k plain = rstrip_pad-replicate k
rstrip_pad-append (x ∷ body) k plain =
    rw (rstrip_pad-append body k plain.2) (ground (arith, plain.0))

pub pad-append :
    (body : Text) (k : ℕ) → k < 4 → (length body + k) % 4 ≡ 0 → pad body ≡ body ++ replicate k b'='
unfolding pad
pad-append body k small whole =
    let same : (4 - length body % 4) % 4 ≡ k = omega arith in
    ap (λ n. body ++ replicate n b'=') same

split_dot-plain : (s : Text) → IsPlain s → split_dot s ≡ s ∷ []
unfolding split_dot cut
split_dot-plain [] plain = refl
split_dot-plain (x ∷ s) plain = rw (split_dot-plain s plain.2) (ground (arith, plain.1))

pub split_dot-append : (s t : Text) → IsPlain s → IsPlain t → split_dot (s ++ b'.' ∷ t) ≡ s ∷ t ∷ []
unfolding split_dot cut
split_dot-append [] t plain plain' = rw (split_dot-plain t plain') refl
split_dot-append (x ∷ s) t plain plain' =
    rw (split_dot-append s t plain.2 plain') (ground (arith, plain.1))

-- What base64 promises of an encoded text: characters of its alphabet, then the padding that makes
-- the length a multiple of four.
pub record IsPadded (s : Text) : Type 0 where
  pub body : Text
  pub padding : ℕ
  pub parts : s ≡ body ++ replicate padding b'='
  pub plain : IsPlain body
  pub small : padding < 4
  pub whole : (length body + padding) % 4 ≡ 0

pub rstrip_pad-body : {s : Text} (h : IsPadded s) → rstrip_pad s ≡ h.body
rstrip_pad-body h = ap rstrip_pad h.parts ∙ rstrip_pad-append h.body h.padding h.plain

-- Padding a text whose padding was stripped gives it back.
pub pad-rstrip_pad : {s : Text} (h : IsPadded s) → pad (rstrip_pad s) ≡ s
pad-rstrip_pad h =
    ap pad (rstrip_pad-body h) ∙ pad-append h.body h.padding h.small h.whole ∙ sym h.parts

pub length-replicate : (n x : ℕ) → length (replicate n x) ≡ n
unfolding replicate
length-replicate zero x = refl
length-replicate (suc n) x = ap suc (length-replicate n x)
