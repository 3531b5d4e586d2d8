-- ===== src/Core/TimeLaws.antt =====
-- What the program relies on of `isoformat` and `fromisoformat`, and what follows for the parsers.

use mediaman.Prelude.{
  [], ap, arith, false, if◌then◌else◌, is_empty, leb, none, refl, some, ℕ, ◌+◌, ◌-◌, ◌∙◌, ◌∷◌, ◌≡◌,
}
use mediaman.Core.Time.{
  zulu, strip, normalise, Text, with_offset, Datetime, instant?, parse_iso_strict_utc, strip_left,
  cut_fraction, parse_iso_utc, text_leb,
}

-- The text of an instant in UTC parses back to it, has no blanks round it, no `Z` and at most six
-- digits of a second, and texts are ordered as their instants are.
pub record IsIso (lib : Datetime) : Type 0 where
  pub round_trip : (t : ℕ) → lib.fromisoformat (lib.isoformat t) ≡ some (with_offset t)
  pub nonempty : (t : ℕ) → is_empty (lib.isoformat t) ≡ false
  pub stripped : (t : ℕ) → strip (lib.isoformat t) ≡ lib.isoformat t
  pub no_zulu : (t : ℕ) → zulu (lib.isoformat t) ≡ lib.isoformat t
  pub six_digits : (t : ℕ) → cut_fraction (lib.isoformat t) ≡ lib.isoformat t
  pub ordered : (s t : ℕ) → text_leb (lib.isoformat s) (lib.isoformat t) ≡ leb s t

-- Both parsers read back what `isoformat` writes.
module _ (lib : Datetime) (iso : IsIso lib) where
  strict_of_nonempty :
      (s : Text)
      → is_empty s ≡ false
      → parse_iso_strict_utc lib (some s) ≡ instant? (lib.fromisoformat s)
  unfolding parse_iso_strict_utc
  strict_of_nonempty [] h = cc
  strict_of_nonempty (c ∷ s) h = refl

  -- The strict parser reads back what `isoformat` writes.
  pub parse_iso_strict_utc-isoformat :
      (t : ℕ) → parse_iso_strict_utc lib (some (lib.isoformat t)) ≡ some t
  parse_iso_strict_utc-isoformat t =
      strict_of_nonempty (lib.isoformat t) (iso.nonempty t) ∙ ap instant? (iso.round_trip t)

  -- The tolerant parser reads back what `isoformat` writes.
  pub parse_iso_utc-isoformat : (t : ℕ) → parse_iso_utc lib (some (lib.isoformat t)) ≡ some t
  unfolding parse_iso_utc normalise
  parse_iso_utc-isoformat t =
      rw (iso.stripped t, iso.nonempty t, iso.no_zulu t, iso.six_digits t, iso.round_trip t)

-- A `Datetime` that meets the laws: the text of an instant is one code point.
abbrev pub first_code : ℕ
first_code = 1114112

unfoldable pub one_code : Datetime
one_code = record {
  fromisoformat = λ s. elim s [
    | [] ↦ none
    | c ∷ rest ↦ if leb first_code c then some (with_offset (c - first_code)) else none
  ];
  isoformat = λ t. (first_code + t) ∷ [];
}

pub one_code-IsIso : IsIso one_code
unfolding one_code strip strip_left zulu cut_fraction text_leb
one_code-IsIso = record {
  round_trip = λ t. ground arith;
  nonempty = λ t. refl;
  stripped = λ t. ground arith;
  no_zulu = λ t. ground arith;
  six_digits = λ t. ground arith;
  ordered = λ s t. ground arith;
}
