-- ===== src/Auth/Lockout.antt =====
-- src/mediaman/web/auth/login_lockout.py: the table `login_failures`, which `record_failure` writes
-- and `is_locked_out` reads. An instant is in microseconds.

use mediaman.Prelude.{
  Bool, List, Option, String, [], false, if◌then◌else◌, is_some, leb, ltb, nat_key, none, not, some,
  string_key, true, ℕ, ◌&&◌, ◌*◌, ◌+◌, ◌-◌, ◌==◌, ◌||◌, ◌∷◌,
}
use mediaman.Prelude.Dict.{insert, erase, lookup, Dict}
use mediaman.Core.Time.{Text, Datetime, parse_iso_strict_utc, parse_iso_utc}

-- A row of `login_failures`, under its user name; a NULL is `none`.
pub record Failure : Type 0 where
  pub failure_count : ℕ
  pub first_failure_at : Option Text
  pub locked_until : Option Text

abbrev pub Failures : Type 0
Failures = Dict String Failure

abbrev pub minute : ℕ
minute = 60000000

-- `_LOCK_RULES`: a threshold and the minutes of its lock, the strictest first.
abbrev pub lock_rules : List (ℕ × ℕ)
lock_rules = (15, 1440) ∷ (10, 60) ∷ (5, 15) ∷ []

unfoldable pub first_rule : ℕ → List (ℕ × ℕ) → Option ℕ
first_rule count [] = none
first_rule count ((threshold, minutes) ∷ rules) =
    let rest = first_rule count rules in if leb threshold count then some minutes else rest

unfoldable pub window_for_count : ℕ → Option ℕ
window_for_count count = first_rule count lock_rules

-- `_DECAY_HOURS`
abbrev pub decay : ℕ
decay = 24 * 60 * minute

-- What a text of `locked_until` that is not empty says: one that does not parse stays locked.
abbrev pub still_locked : ℕ → Option ℕ → Bool
still_locked now none = true
still_locked now (some t) = not (leb t now)

unfoldable pub locked_now : Datetime → ℕ → Option Text → Bool
locked_now lib now none = false
locked_now lib now (some []) = false
locked_now lib now (some (c ∷ s)) = still_locked now (parse_iso_strict_utc lib (some (c ∷ s)))

abbrev pub row_locked : Datetime → ℕ → Option Failure → Bool
row_locked lib now none = false
row_locked lib now (some r) = locked_now lib now r.locked_until

unfoldable pub is_locked_out : Datetime → ℕ → String → Failures → Bool
is_locked_out lib now username table =
    if username == "" then false else row_locked lib now (lookup username table)

-- `_update_failure_row`
unfoldable pub update_failure_row : Text → Option Failure → Failure
update_failure_row now_iso none = record {
  failure_count = 1;
  first_failure_at = some now_iso;
  locked_until = none;
}
update_failure_row now_iso (some r) = record r { failure_count = r.failure_count + 1 }

-- `first_failure is not None and (now - first_failure) > timedelta(hours=24)`
abbrev pub is_stale_streak : ℕ → Option ℕ → Bool
is_stale_streak now none = false
is_stale_streak now (some t) = ltb (t + decay) now

-- `_apply_decay`: the row, and the count and first failure that it returns.
unfoldable pub apply_decay : ℕ → Text → ℕ → Option ℕ → Bool → Failure → Failure × (ℕ × Option ℕ)
apply_decay now now_iso count first_failure currently_locked r =
    if is_stale_streak now first_failure && not currently_locked
    then (
      record { failure_count = 1; first_failure_at = some now_iso; locked_until = none },
      (1, some now),
    )
    else (r, (count, first_failure))

-- `_ensure_first_failure`
unfoldable pub ensure_first_failure : Text → Option ℕ → Failure → Failure
ensure_first_failure now_iso none r = record r { first_failure_at = some now_iso }
ensure_first_failure now_iso (some t) r = r

-- `not currently_locked or previous_minutes is None or minutes > previous_minutes`
abbrev pub should_promote : Bool → Option ℕ → ℕ → Bool
should_promote currently_locked none minutes = true
should_promote currently_locked (some previous) minutes =
    not currently_locked || ltb previous minutes

-- `locked_until` moves if the threshold locks and should be promoted.
unfoldable pub set_lock : Datetime → ℕ → Option ℕ → Option ℕ → Bool → Failure → Failure × Option ℕ
set_lock lib now none previous currently_locked r = (r, none)
set_lock lib now (some minutes) previous currently_locked r = (
  if should_promote currently_locked previous minutes
      then record r { locked_until = some (lib.isoformat (now + minutes * minute)) }
      else r,
  some minutes,
)

-- `_apply_lockout`
unfoldable pub apply_lockout : Datetime → ℕ → ℕ → Bool → Failure → Failure × Option ℕ
apply_lockout lib now count currently_locked r =
    set_lock lib now (window_for_count count) (window_for_count (count - 1)) currently_locked r

-- `locked_until is not None and locked_until > now`, on the tolerant parse.
abbrev pub locked_after : ℕ → Option ℕ → Bool
locked_after now none = false
locked_after now (some t) = ltb now t

-- `int(row["failure_count"] or 1)`
abbrev pub count_of : ℕ → ℕ
count_of n = if n == 0 then 1 else n

-- `_record_failure_in_tx` on the user's row.
unfoldable pub record_failure_in_tx : Datetime → ℕ → Option Failure → Failure × Option ℕ
record_failure_in_tx lib now row =
    let r = update_failure_row (lib.isoformat now) row in
    let first_failure = parse_iso_utc lib r.first_failure_at in
    let currently_locked = locked_after now (parse_iso_utc lib r.locked_until) in
    let decayed =
      apply_decay now (lib.isoformat now) (count_of r.failure_count) first_failure currently_locked
        r in
    apply_lockout lib now decayed.1.0 currently_locked
      (ensure_first_failure (lib.isoformat now) decayed.1.1 decayed.0)

unfoldable pub record_failure : Datetime → ℕ → String → Failures → Failures × Option ℕ
record_failure lib now username table =
    if username == ""
    then (table, none)
    else (let (r, minutes) = record_failure_in_tx lib now (lookup username table) in
        (insert username r table, minutes))

unfoldable pub record_success : String → Failures → Failures
record_success username table = if username == "" then table else erase username table

-- `admin_unlock`: whether there was a row.
unfoldable pub admin_unlock : String → Failures → Failures × Bool
admin_unlock username table =
    if username == ""
    then (table, false)
    else (erase username table, is_some (lookup username table))

-- `admin_unlock_with_audit`: one transaction, which an audit that fails rolls back.
unfoldable pub admin_unlock_with_audit : Bool → String → Failures → Option (Failures × Bool)
admin_unlock_with_audit audit_fails username table =
    if audit_fails then none else some (admin_unlock username table)
