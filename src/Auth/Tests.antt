-- ===== src/Auth/Tests.antt =====
-- The lockout at work on small tables, and the theorems of the login applied there.

use mediaman.Prelude.{
  String, [], arith, false, leb, none, not, refl, some, string_key, true, ℕ, ◌&&◌, ◌==◌, ◌∷◌, ◌≡◌,
}
use mediaman.Prelude.Dict.{lookup}
use mediaman.Core.Time.{
  zulu, strip, normalise, parse_iso_strict_utc, strip_left, cut_fraction, parse_iso_utc,
}
use mediaman.Core.TimeLaws.{one_code, one_code-IsIso}
use mediaman.Auth.Lockout.{
  Failure, Failures, window_for_count, is_locked_out, record_failure_in_tx, record_failure,
}
use mediaman.Auth.LoginLaws.{opens, authenticate-answer}
use mediaman.Auth.LockoutSpec.{
  escalates, fail, Streak, lock_minutes, lock_after, row_of, row_of?, record_failure_in_tx-Refines,
}
use mediaman.Auth.LockoutRun.{record_failure-locks_out}
use mediaman.Auth.Corrupt.{corrupt_lock_escapes}
use mediaman.Auth.Login.{authenticate, Accounts}

abbrev ada : Streak
ada = record { count = 4; since = 100; until = none }

abbrev bob : Streak
bob = record { count = 15; since = 100; until = some 90000000000 }

abbrev failures : Failures
failures = ("ada", row_of one_code ada) ∷ ("bob", row_of one_code bob) ∷ []

abbrev accounts : Accounts
accounts = record {
  hashes = ("ada", "42") ∷ ("bob", "7") ∷ [];
  checkpw = λ password hash. hash == password;
}

-- The fifth failure locks for a quarter of an hour.
fail_fifth : fail 200 (some ada) ≡ record { count = 5; since = 100; until = some 900000200 }
unfolding fail lock_after lock_minutes escalates
fail_fifth = refl

record_failure_in_tx-Refines_example :
    record_failure_in_tx one_code 200 (row_of? one_code (some ada))
    ≡ (row_of one_code (fail 200 (some ada)), window_for_count (fail 200 (some ada)).count)
record_failure_in_tx-Refines_example =
    record_failure_in_tx-Refines one_code 200 (some ada) one_code-IsIso

record_failure-locks_out_example :
    let table' = (record_failure one_code 200 "ada" failures).0 in
    (lookup "ada" table' ≡ some (row_of one_code (fail 200 (some ada))))
    × ((other : String) → (other == "ada") ≡ false → lookup other table' ≡ lookup other failures)
    × (leb 5 (fail 200 (some ada)).count ≡ true → is_locked_out one_code 200 "ada" table' ≡ true)
unfolding row_of? lookup
record_failure-locks_out_example =
    record_failure-locks_out one_code 200 "ada" failures (some ada) one_code-IsIso refl refl

abbrev name : String
name = "ada"

authenticate-answer_example :
    let (table', ok) = authenticate accounts one_code 200 name "42" true failures in
    (ok ≡ (
      not (name == "")
      && (not (is_locked_out one_code 200 name failures)
          && opens accounts "42" (lookup name accounts.hashes))))
    × (ok ≡ true
        → (lookup name table' ≡ none)
          × ((t : ℕ) → is_locked_out one_code t name table' ≡ false)
          × ((other : String)
              → (other == name) ≡ false
              → lookup other table' ≡ lookup other failures))
authenticate-answer_example = authenticate-answer accounts one_code 200 name "42" true failures

-- The lock of the row is the text "x".
abbrev garbled : Failure
garbled = record {
  failure_count = 15;
  first_failure_at = some (one_code.isoformat 100);
  locked_until = some (b'x' ∷ []);
}

corrupt_lock_escapes_example :
    let now : ℕ = 86400000101 in
    let table : Failures = ("ada", garbled) ∷ [] in
    let (table', ok) = authenticate accounts one_code now "ada" "42" true table in
    (is_locked_out one_code now "ada" table ≡ true)
    × (ok ≡ false)
    × ((t : ℕ) → is_locked_out one_code t "ada" table' ≡ false)
unfolding lookup parse_iso_utc parse_iso_strict_utc normalise strip strip_left zulu cut_fraction
    one_code
corrupt_lock_escapes_example =
    corrupt_lock_escapes accounts one_code 86400000101 100 "ada" "42" true (("ada", garbled) ∷ [])
      garbled b'x' [] refl refl refl refl refl refl (omega arith)
