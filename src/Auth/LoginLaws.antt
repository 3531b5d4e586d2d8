-- ===== src/Auth/LoginLaws.antt =====
-- When `authenticate` lets a user in, and what it leaves in the table of failures.

use mediaman.Prelude.{
  ==_self, Bool, Bool-cases, Option, String, arith, false, inl, inr, none, not, refl, some,
  string_key, true, ℕ, ◌&&◌, ◌==◌, ◌≡◌,
}
use mediaman.Prelude.Dict.{erase, lookup, lookup-erase}
use mediaman.Core.Time.{Datetime}
use mediaman.Auth.Lockout.{record_success, Failures, is_locked_out}
use mediaman.Auth.Login.{verify_hash, Accounts, authenticate, verify_credentials}

-- The password is that of the hash.
abbrev pub opens : Accounts → String → Option String → Bool
opens accounts password none = false
opens accounts password (some hash) = accounts.checkpw password hash

verify_hash-answer :
    (accounts : Accounts) (lib : Datetime) (now : ℕ) (username password : String) (counted : Bool)
    (table : Failures) (hash : Option String)
    → (verify_hash accounts lib now username password counted table hash).1
      ≡ opens accounts password hash
unfolding verify_hash
verify_hash-answer accounts lib now username password counted table none = refl
verify_hash-answer accounts lib now username password counted table (some p) = ground arith

erased :
    (username : String) (table : Failures)
    → (username == "") ≡ false
    → record_success username table ≡ erase username table
unfolding record_success
erased username table named = rw named refl

lookup-record_success :
    (username : String) (table : Failures)
    → (username == "") ≡ false
    → lookup username (record_success username table) ≡ none
lookup-record_success username table named =
    rw (erased username table named)
      (ground (arith, lookup-erase username username table, ==_self username))

record_success-clears :
    (lib : Datetime) (username : String) (table : Failures)
    → (username == "") ≡ false
    → (lookup username (record_success username table) ≡ none)
      × ((t : ℕ) → is_locked_out lib t username (record_success username table) ≡ false)
      × ((other : String)
          → (other == username) ≡ false
          → lookup other (record_success username table) ≡ lookup other table)
unfolding is_locked_out
record_success-clears lib username table named = (
  lookup-record_success username table named,
  λ t. rw (named, lookup-record_success username table named) refl,
  λ other apart. rw (erased username table named) (
      ground (
        arith,
        lookup-erase username other table,
        string_key.same_iff username other,
        string_key.same_iff other username,
        apart,
      )),
)

verify_hash-clears :
    (accounts : Accounts) (lib : Datetime) (now : ℕ) (username password : String) (counted : Bool)
    (table : Failures) (hash : Option String)
    → (username == "") ≡ false
    → let (table', ok) = verify_hash accounts lib now username password counted table hash in
      ok ≡ true
      → (lookup username table' ≡ none)
        × ((t : ℕ) → is_locked_out lib t username table' ≡ false)
        × ((other : String)
            → (other == username) ≡ false
            → lookup other table' ≡ lookup other table)
unfolding verify_hash
verify_hash-clears accounts lib now username password counted table none named = λ ok. cc
verify_hash-clears accounts lib now username password counted table (some p) named =
    elim (Bool-cases (accounts.checkpw password p)) [
      | inl right ↦ rw right (λ ok. record_success-clears lib username table named)
      | inr wrong ↦ rw wrong (λ ok. cc)
    ]

-- A user is let in exactly if the name is not empty, the account is not locked, and the password is
-- right; and then the row of failures of this user is gone, the account is locked at no time, and the
-- rows of all others stay.
pub authenticate-answer :
    (accounts : Accounts) (lib : Datetime) (now : ℕ) (username password : String) (counted : Bool)
    (table : Failures)
    → let (table', ok) = authenticate accounts lib now username password counted table in
      (ok ≡ (
        not (username == "")
        && (not (is_locked_out lib now username table)
            && opens accounts password (lookup username accounts.hashes))))
      × (ok ≡ true
          → (lookup username table' ≡ none)
            × ((t : ℕ) → is_locked_out lib t username table' ≡ false)
            × ((other : String)
                → (other == username) ≡ false
                → lookup other table' ≡ lookup other table))
unfolding authenticate verify_credentials
authenticate-answer accounts lib now username password counted table =
    elim (Bool-cases (username == "")) [
      | inl empty ↦ rw empty (refl, λ h. cc)
      | inr named ↦ elim (Bool-cases (is_locked_out lib now username table)) [
        | inl locked ↦ rw (named, locked) (refl, λ h. cc)
        | inr unlocked ↦
            rw (named, unlocked)
              (
                verify_hash-answer accounts lib now username password counted table
                    (lookup username accounts.hashes),
                verify_hash-clears accounts lib now username password counted table
                    (lookup username accounts.hashes) named,
              )
      ]
    ]
