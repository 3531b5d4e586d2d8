-- ===== src/Auth/Corrupt.antt =====
-- A `locked_until` that does not parse: `is_locked_out` reads it as locked, `record_failure` as open.

use mediaman.Prelude.{
  Bool, Bool-cases, String, ap, arith, false, inl, inr, ltb, none, refl, some, string_key, true, ℕ,
  ◌+◌, ◌<◌, ◌==◌, ◌∷◌, ◌≡◌,
}
use mediaman.Prelude.Dict.{insert, lookup}
use mediaman.Core.Time.{Text, Datetime, parse_iso_strict_utc, parse_iso_utc}
use mediaman.Auth.Lockout.{
  locked_now, record_failure, decay, Failure, Failures, is_locked_out, update_failure_row,
  apply_decay, ensure_first_failure, record_failure_in_tx,
}
use mediaman.Auth.LockoutSpec.{apply_lockout_first}
use mediaman.Auth.LockoutRun.{lookup-insert_self}
use mediaman.Auth.Login.{authenticate, Accounts}

stale_now : (since now : ℕ) → since + decay < now → ltb (since + decay) now ≡ true
stale_now since now h = ground arith

record_failure-corrupt :
    (lib : Datetime) (now since : ℕ) (r : Failure) (bad : Text)
    → r.locked_until ≡ some bad
    → parse_iso_utc lib (some bad) ≡ none
    → parse_iso_utc lib r.first_failure_at ≡ some since
    → since + decay < now
    → (record_failure_in_tx lib now (some r)).0.locked_until ≡ none
unfolding record_failure_in_tx update_failure_row apply_decay ensure_first_failure
record_failure-corrupt lib now since r bad locked tolerant first old =
    rw (first, locked, tolerant, stale_now since now old)
      (ap (λ q. q.0.locked_until)
        (apply_lockout_first lib now false (record {
          failure_count = 1;
          first_failure_at = some (lib.isoformat now);
          locked_until = none;
        })))

corrupt_locked :
    (lib : Datetime) (now : ℕ) (username : String) (table : Failures) (r : Failure) (c : ℕ)
    (garbled : Text)
    → (username == "") ≡ false
    → lookup username table ≡ some r
    → r.locked_until ≡ some (c ∷ garbled)
    → parse_iso_strict_utc lib (some (c ∷ garbled)) ≡ none
    → is_locked_out lib now username table ≡ true
unfolding is_locked_out locked_now
corrupt_locked lib now username table r c garbled named h locked strict =
    rw (named, h, locked, strict) refl

null_unlocked :
    (lib : Datetime) (t : ℕ) (username : String) (table : Failures) (r : Failure)
    → lookup username table ≡ some r
    → r.locked_until ≡ none
    → is_locked_out lib t username table ≡ false
unfolding is_locked_out locked_now
null_unlocked lib t username table r h unset = elim (Bool-cases (username == "")) [
  | inl empty ↦ rw empty refl
  | inr named ↦ rw (named, h, unset) refl
]

-- An account whose lock is a text that neither parser reads counts as locked. But once its streak is
-- older than a day, one attempt with any password, which is refused, ends the lock: the account is
-- locked at no instant from then on.
pub corrupt_lock_escapes :
    (accounts : Accounts) (lib : Datetime) (now since : ℕ) (username password : String)
    (counted : Bool) (table : Failures) (r : Failure) (c : ℕ) (garbled : Text)
    → (username == "") ≡ false
    → lookup username table ≡ some r
    → r.locked_until ≡ some (c ∷ garbled)
    → parse_iso_strict_utc lib (some (c ∷ garbled)) ≡ none
    → parse_iso_utc lib (some (c ∷ garbled)) ≡ none
    → parse_iso_utc lib r.first_failure_at ≡ some since
    → since + decay < now
    → let (table', ok) = authenticate accounts lib now username password counted table in
      (is_locked_out lib now username table ≡ true)
      × (ok ≡ false)
      × ((t : ℕ) → is_locked_out lib t username table' ≡ false)
unfolding authenticate record_failure
corrupt_lock_escapes accounts lib now since username password counted table r c garbled named h
      locked strict tolerant first old =
    let closed = corrupt_locked lib now username table r c garbled named h locked strict in
    rw (named, closed, h)
      (
        refl,
        refl,
        λ t.
            null_unlocked lib t username
              (insert username (record_failure_in_tx lib now (some r)).0 table)
              (record_failure_in_tx lib now (some r)).0
              (lookup-insert_self username (record_failure_in_tx lib now (some r)).0 table)
              (record_failure-corrupt lib now since r (c ∷ garbled) locked tolerant first old),
      )
