-- ===== src/Auth/Login.antt =====
-- src/mediaman/web/auth/password_hash/_authenticate.py: the check of a user's password.

use mediaman.Prelude.{
  Bool, Option, String, false, if◌then◌else◌, none, some, string_key, true, ℕ, ◌==◌,
}
use mediaman.Auth.LockoutRun.{record_failures}
use mediaman.Prelude.Dict.{lookup, Dict}
use mediaman.Core.Time.{Datetime}
use mediaman.Auth.Lockout.{Failures, is_locked_out, record_failure, record_success}

-- The table `admin_users`, a user name and its hash, and `bcrypt.checkpw` on a prepared password and
-- a hash, which is a parameter.
pub record Accounts : Type 0 where
  pub hashes : Dict String String
  pub checkpw : String → String → Bool

-- A wrong password is counted unless the caller counts it itself.
abbrev pub count_failure : Bool → Datetime → ℕ → String → Failures → Failures
count_failure false lib now username table = table
count_failure true lib now username table = (record_failure lib now username table).0

-- What becomes of the hash that was found.
unfoldable pub verify_hash :
    Accounts → Datetime → ℕ → String → String → Bool → Failures → Option String → Failures × Bool
verify_hash accounts lib now username password record_failures table none =
    (count_failure record_failures lib now username table, false)
verify_hash accounts lib now username password record_failures table (some hash) =
    if accounts.checkpw password hash
    then (record_success username table, true)
    else (count_failure record_failures lib now username table, false)

-- `_verify_credentials_against_db`
unfoldable pub verify_credentials :
    Accounts → Datetime → ℕ → String → String → Bool → Failures → Failures × Bool
verify_credentials accounts lib now username password record_failures table =
    verify_hash accounts lib now username password record_failures table
      (lookup username accounts.hashes)

-- `authenticate`, with the fast paths of `_short_circuit_authenticate`: a locked account counts the
-- attempt whatever the caller asks.
unfoldable pub authenticate :
    Accounts → Datetime → ℕ → String → String → Bool → Failures → Failures × Bool
authenticate accounts lib now username password record_failures table =
    if username == ""
    then (table, false)
    else if is_locked_out lib now username table
    then ((record_failure lib now username table).0, false)
    else verify_credentials accounts lib now username password record_failures table
