-- ===== src/Keep/Laws.antt =====
-- What a keep does to the rows, and that it never meets a deletion that is due.

use mediaman.Prelude.{
  Bool-cases, Option, [], arith, false, inl, inr, leb, ltb, none, not, refl, some, sym, true, ℕ,
  ◌&&◌, ◌<◌, ◌∙◌, ◌∷◌, ◌≡◌,
}
use mediaman.Core.Time.{Text, Datetime, text_leb, sql_le, sql_ge}
use mediaman.Core.TimeLaws.{parse_iso_strict_utc-isoformat, IsIso}
use mediaman.Keep.{parse_execute_at, is_pending_unexpired, is_keepable}
use mediaman.Scanner.Table.{Action, is_due}

pub text_leb_trans :
    (r s t : Text) → text_leb r s ≡ true → text_leb s t ≡ true → text_leb r t ≡ true
unfolding text_leb
text_leb_trans [] s t h k = refl
text_leb_trans (a ∷ r) [] t h k = cc
text_leb_trans (a ∷ r) (b ∷ s) [] h k = cc
text_leb_trans (a ∷ r) (b ∷ s) (c ∷ t) h k = ground (arith, text_leb_trans r s t, h, k)

leb_between :
    (lib : Datetime) (at : Option Text) (pass now : ℕ)
    → IsIso lib
    → sql_le at (lib.isoformat pass) ≡ true
    → sql_ge at (lib.isoformat now) ≡ true
    → leb now pass ≡ true
leb_between lib none pass now iso due late = cc
leb_between lib (some e) pass now iso due late =
    sym (iso.ordered now pass) ∙ text_leb_trans (lib.isoformat now) e (lib.isoformat pass) late due

-- Where `isoformat` orders its texts as their instants: a row that a deletion pass begun at `pass`
-- takes as due can not be kept by link at any later instant.
pub is_due-is_keepable :
    (lib : Datetime) (pass now : ℕ) (a : Action)
    → IsIso lib
    → is_due (lib.isoformat pass) a ≡ true
    → pass < now
    → is_keepable (lib.isoformat now) a ≡ false
is_due-is_keepable lib pass now a iso due later =
    elim (Bool-cases (is_keepable (lib.isoformat now) a)) [
      | inl keepable ↦
          ground (arith, leb_between lib a.execute_at pass now iso, due, keepable, later)
      | inr refused ↦ refused
    ]

leb-ltb : (a b : ℕ) → leb b a ≡ not (ltb a b)
leb-ltb a b = ground arith

-- The test of the page and the guard of the update agree: where `isoformat` and
-- `fromisoformat` meet their laws, on a row whose deadline was written by `isoformat`, the update applies exactly if the page finds the action pending and not expired and
-- its token is unused.
pub is_keepable-is_pending_unexpired :
    (lib : Datetime) (a : Action) (t now : ℕ)
    → IsIso lib
    → a.execute_at ≡ some (lib.isoformat t)
    → is_keepable (lib.isoformat now) a ≡ (is_pending_unexpired lib a now && not a.token_used)
unfolding is_pending_unexpired parse_execute_at
is_keepable-is_pending_unexpired lib a t now iso h =
    rw (h, parse_iso_strict_utc-isoformat lib iso t, iso.ordered now t, leb-ltb t now)
      (ground arith)
