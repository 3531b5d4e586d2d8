-- ===== src/Auth/LockoutSpec.antt =====
-- What the lockout promises, on instants in place of texts: a streak of failures, and how one more
-- changes it. The rows that `record_failure` writes stand for such streaks.

use mediaman.Prelude.{
  Bool, Bool-cases, Option, ap, arith, false, if◌then◌else◌, inl, inr, leb, ltb, nat_key, none, not,
  refl, some, true, ℕ, ◌&&◌, ◌*◌, ◌+◌, ◌-◌, ◌==◌, ◌||◌, ◌∙◌, ◌≡◌,
}
use mediaman.Core.TimeLaws.{parse_iso_utc-isoformat, IsIso}
use mediaman.Core.Time.{parse_iso_utc, Text, Datetime}
use mediaman.Auth.Lockout.{
  set_lock, count_of, locked_after, update_failure_row, apply_decay, ensure_first_failure,
  record_failure_in_tx, apply_lockout, decay, minute, Failure, first_rule, window_for_count,
  should_promote,
}

-- A streak of failures: how many, since when, and until when they lock the account.
pub record Streak : Type 0 where
  pub count : ℕ
  pub since : ℕ
  pub until : Option ℕ

-- The minutes that the `n`th failure locks for.
unfoldable pub lock_minutes : ℕ → ℕ
lock_minutes n = if leb 15 n then 1440 else if leb 10 n then 60 else if leb 5 n then 15 else 0

-- The failures that lock an account for longer than the one before.
unfoldable pub escalates : ℕ → Bool
escalates n = n == 5 || n == 10 || n == 15

-- The lock after the `n`th failure of an account that was locked until `until` or not at all.
unfoldable pub lock_after : ℕ → ℕ → Option ℕ → Option ℕ
lock_after now n until =
    if escalates n || leb 5 n && not (locked_after now until)
    then some (now + lock_minutes n * minute)
    else until

-- One more failure: a streak of an account that is not locked ends after a day.
unfoldable pub fail : ℕ → Option Streak → Streak
fail now none = record { count = 1; since = now; until = none }
fail now (some s) =
    if ltb (s.since + decay) now && not (locked_after now s.until)
    then record { count = 1; since = now; until = none }
    else record {
      count = s.count + 1;
      since = s.since;
      until = lock_after now (s.count + 1) s.until;
    }

-- The row of a streak.
unfoldable pub text_of : Datetime → Option ℕ → Option Text
text_of lib none = none
text_of lib (some t) = some (lib.isoformat t)

unfoldable pub row_of : Datetime → Streak → Failure
row_of lib s = record {
  failure_count = s.count;
  first_failure_at = some (lib.isoformat s.since);
  locked_until = text_of lib s.until;
}

unfoldable pub row_of? : Datetime → Option Streak → Option Failure
row_of? lib none = none
row_of? lib (some s) = some (row_of lib s)

window-lock_minutes :
    (n : ℕ) → window_for_count n ≡ (if leb 5 n then some (lock_minutes n) else none)
unfolding window_for_count first_rule lock_minutes
window-lock_minutes n = ground arith

promotes-escalates :
    (n : ℕ) (locked : Bool)
    → leb 5 (n + 1) ≡ true
    → should_promote locked (window_for_count n) (lock_minutes (n + 1))
      ≡ (escalates (n + 1) || not locked)
unfolding escalates lock_minutes
promotes-escalates n true h = rw (window-lock_minutes n) (ground arith)
promotes-escalates n false h = rw (window-lock_minutes n) (ground arith)

lock_after_low : (now n : ℕ) (until : Option ℕ) → leb 5 n ≡ false → lock_after now n until ≡ until
unfolding lock_after escalates
lock_after_low now n until low = ground arith

lock_after_high :
    (now n : ℕ) (until : Option ℕ)
    → leb 5 n ≡ true
    → lock_after now n until ≡ (
        if escalates n || not (locked_after now until)
        then some (now + lock_minutes n * minute)
        else until)
unfolding lock_after
lock_after_high now n until high = rw high refl

put_lock :
    (lib : Datetime) (promote : Bool) (t : ℕ) (r : Failure) (until : Option ℕ)
    → r.locked_until ≡ text_of lib until
    → (if promote then record r { locked_until = some (lib.isoformat t) } else r)
      ≡ record r { locked_until = text_of lib (if promote then some t else until) }
unfolding text_of
put_lock lib true t r until h = refl
put_lock lib false t r until h = ap (λ l. record r { locked_until = l }) h

apply_lockout-some :
    (lib : Datetime) (now n minutes : ℕ) (locked : Bool) (r : Failure)
    → window_for_count n ≡ some minutes
    → apply_lockout lib now n locked r ≡ (
      if should_promote locked (window_for_count (n - 1)) minutes
          then record r { locked_until = some (lib.isoformat (now + minutes * minute)) }
          else r,
      some minutes,
    )
unfolding apply_lockout set_lock
apply_lockout-some lib now n minutes locked r h = rw (apply_lockout, h) refl

promotes_next :
    (n : ℕ) (locked : Bool)
    → leb 5 (n + 1) ≡ true
    → should_promote locked (window_for_count (n + 1 - 1)) (lock_minutes (n + 1))
      ≡ (escalates (n + 1) || not locked)
promotes_next n locked high =
    let before : n + 1 - 1 ≡ n = omega arith in
    ap (λ k. should_promote locked (window_for_count k) (lock_minutes (n + 1))) before
    ∙ promotes-escalates n locked high

apply_lockout-lock_after :
    (lib : Datetime) (now n : ℕ) (r : Failure) (until : Option ℕ)
    → r.locked_until ≡ text_of lib until
    → apply_lockout lib now (n + 1) (locked_after now until) r ≡ (
      record r { locked_until = text_of lib (lock_after now (n + 1) until) },
      window_for_count (n + 1),
    )
unfolding apply_lockout set_lock
apply_lockout-lock_after lib now n r until h = elim (Bool-cases (leb 5 (n + 1))) [
  | inl high ↦
      let here : window_for_count (n + 1) ≡ some (lock_minutes (n + 1)) =
        window-lock_minutes (n + 1) ∙ rw high refl in
      let until' = now + lock_minutes (n + 1) * minute in
      let promote = escalates (n + 1) || not (locked_after now until) in
      apply_lockout-some lib now (n + 1) (lock_minutes (n + 1)) (locked_after now until) r here
      ∙ ap
          (λ b. (
            if b then record r { locked_until = some (lib.isoformat until') } else r,
            some (lock_minutes (n + 1)),
          ))
          (promotes_next n (locked_after now until) high)
      ∙ ap (λ q. (q, some (lock_minutes (n + 1)))) (put_lock lib promote until' r until h)
      ∙ rw (here, lock_after_high now (n + 1) until high) refl
  | inr low ↦
      let here : window_for_count (n + 1) ≡ none = window-lock_minutes (n + 1) ∙ rw low refl in
      rw (apply_lockout, here, lock_after_low now (n + 1) until low)
        (ap (λ l. (record r { locked_until = l }, none)) h)
]

parse-text_of : (lib : Datetime) (t : Option ℕ) → IsIso lib → parse_iso_utc lib (text_of lib t) ≡ t
unfolding text_of parse_iso_utc
parse-text_of lib none iso = refl
parse-text_of lib (some t) iso = parse_iso_utc-isoformat lib iso t

pub apply_lockout_first :
    (lib : Datetime) (now : ℕ) (locked : Bool) (r : Failure)
    → apply_lockout lib now 1 locked r ≡ (r, window_for_count 1)
unfolding apply_lockout set_lock window_for_count first_rule
apply_lockout_first lib now locked r = refl

fresh_streak : (now : ℕ) → ltb (now + decay) now ≡ false
fresh_streak now = ground arith

count_of_suc : (n : ℕ) → count_of (n + 1) ≡ n + 1
count_of_suc n = ground arith

-- Where `isoformat` and `fromisoformat` meet their laws, `_record_failure_in_tx` on the row of a
-- streak, or on none, makes it the row of the streak with one more failure, and returns the minutes
-- of the lock for that count.
pub record_failure_in_tx-Refines :
    (lib : Datetime) (now : ℕ) (s : Option Streak)
    → IsIso lib
    → record_failure_in_tx lib now (row_of? lib s)
      ≡ (row_of lib (fail now s), window_for_count (fail now s).count)
unfolding record_failure_in_tx fail row_of row_of? update_failure_row ensure_first_failure
    apply_decay text_of parse_iso_utc
record_failure_in_tx-Refines lib now none iso =
    rw (parse_iso_utc-isoformat lib iso now, fresh_streak now)
      (apply_lockout_first lib now false
        (row_of lib (record { count = 1; since = now; until = none })))
record_failure_in_tx-Refines lib now (some s) iso =
    elim (Bool-cases (ltb (s.since + decay) now && not (locked_after now s.until))) [
      | inl stale ↦
          rw (parse_iso_utc-isoformat lib iso s.since, parse-text_of lib s.until iso, stale)
            (apply_lockout_first lib now (locked_after now s.until)
              (row_of lib (record { count = 1; since = now; until = none })))
      | inr fresh ↦
          rw (parse_iso_utc-isoformat lib iso s.since, parse-text_of lib s.until iso, fresh)
            (rw (count_of_suc s.count) (
              apply_lockout-lock_after lib now s.count
                (record (row_of lib s) { failure_count = s.count + 1 }) s.until refl))
    ]
