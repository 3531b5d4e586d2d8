-- ===== src/Core/Time.antt =====
-- src/mediaman/core/time.py: ISO-8601 text and instants. A text is the list of its code points; an
-- instant is a number of microseconds.

use mediaman.Prelude.{
  Bool, List, Option, [], false, if◌then◌else◌, is_empty, leb, ltb, nat_key, none, not, some, true,
  ℕ, ◌&&◌, ◌-◌, ◌==◌, ◌||◌, ◌∷◌,
}
use mathlib.Core.List.{reverse}

abbrev pub Text : Type 0
Text = List ℕ

-- What `datetime.fromisoformat` returns: a time without an offset, as the instant that it denotes in
-- UTC, or one with an offset, as its instant.
pub data Moment : Type 0 where
  naive : ℕ → Moment
  with_offset : ℕ → Moment

-- Python's `datetime`: `fromisoformat`, `none` where it raises `ValueError`, and `isoformat` of a
-- time in UTC.
pub record Datetime : Type 0 where
  pub fromisoformat : Text → Option Moment
  pub isoformat : ℕ → Text

-- `dt.replace(tzinfo=UTC) if dt.tzinfo is None else dt.astimezone(UTC)`
abbrev pub instant : Moment → ℕ
instant (naive t) = t
instant (with_offset t) = t

abbrev pub instant? : Option Moment → Option ℕ
instant? none = none
instant? (some m) = some (instant m)

unfoldable pub parse_iso_strict_utc : Datetime → Option Text → Option ℕ
parse_iso_strict_utc lib none = none
parse_iso_strict_utc lib (some []) = none
parse_iso_strict_utc lib (some (c ∷ s)) = instant? (lib.fromisoformat (c ∷ s))

-- White space in ASCII.
abbrev pub is_space : ℕ → Bool
is_space c = c == 32 || leb 9 c && leb c 13 || leb 28 c && leb c 31

unfoldable pub strip_left : Text → Text
strip_left [] = []
strip_left (c ∷ s) = if is_space c then strip_left s else c ∷ s

-- `s.strip()`
unfoldable pub strip : Text → Text
strip s = reverse (strip_left (reverse (strip_left s)))

-- `if s.endswith("Z"): s = s[:-1] + "+00:00"`
unfoldable pub zulu : Text → Text
zulu [] = []
zulu (c ∷ []) = if c == b'Z' then b'+' ∷ b'0' ∷ b'0' ∷ b':' ∷ b'0' ∷ b'0' ∷ [] else c ∷ []
zulu (c ∷ d ∷ s) = c ∷ zulu (d ∷ s)

-- The first six of the digits that stand before `+`, `-` or `Z`, and the rest from there on.
unfoldable pub cut_digits : ℕ → Text → Text
cut_digits n [] = []
cut_digits n (c ∷ s) =
    let keep = cut_digits (n - 1) s in
    if c == b'+' || c == b'-' || c == b'Z' then c ∷ s else if n == 0 then keep else c ∷ keep

-- The fraction after the first dot loses its digits past the sixth.
unfoldable pub cut_fraction : Text → Text
cut_fraction [] = []
cut_fraction (c ∷ s) =
    let rest = cut_fraction s in if c == b'.' then c ∷ cut_digits 6 s else c ∷ rest

-- The text that `parse_iso_utc` hands to `fromisoformat`.
unfoldable pub normalise : Text → Text
normalise s = cut_fraction (zulu (strip s))

unfoldable pub parse_iso_utc : Datetime → Option Text → Option ℕ
parse_iso_utc lib none = none
parse_iso_utc lib (some s) =
    let s' = normalise s in if is_empty (strip s) then none else instant? (lib.fromisoformat s')

-- How SQLite orders two values of a TEXT column.
unfoldable pub text_leb : Text → Text → Bool
text_leb [] t = true
text_leb (c ∷ s) [] = false
text_leb (c ∷ s) (d ∷ t) = if c == d then text_leb s t else ltb c d

-- `column <= ?`, which no NULL meets.
abbrev pub sql_le : Option Text → Text → Bool
sql_le none t = false
sql_le (some s) t = text_leb s t

-- `column >= ?`
abbrev pub sql_ge : Option Text → Text → Bool
sql_ge none t = false
sql_ge (some s) t = text_leb t s

-- `column < ?`
abbrev pub sql_lt : Option Text → Text → Bool
sql_lt none t = false
sql_lt (some s) t = not (text_leb t s)
