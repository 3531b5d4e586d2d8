-- ===== src/Auth/LockoutRun.antt =====
-- The lockout over many attempts: when it closes an account, and that it cannot be prolonged at will.

use mediaman.Prelude.{
  ==_self, List, Option, String, [], ap, arith, false, is_empty, leb, length, ltb, none, refl, some,
  string_key, suc, true, ℕ, ◌+◌, ◌<◌, ◌==◌, ◌∙◌, ◌∷◌, ◌≡◌,
}
use mediaman.Prelude.Dict.{insert, lookup-insert, lookup}
use mediaman.Core.Time.{Text, parse_iso_strict_utc, Datetime}
use mediaman.Core.TimeLaws.{parse_iso_strict_utc-isoformat, IsIso}
use mediaman.Auth.Lockout.{
  Failure, still_locked, locked_now, Failures, is_locked_out, locked_after, record_failure,
}
use mediaman.Auth.LockoutSpec.{
  escalates, lock_minutes, lock_after, text_of, record_failure_in_tx-Refines, fail, Streak, row_of,
  row_of?,
}

locked_now_nonempty :
    (lib : Datetime) (now : ℕ) (s : Text)
    → is_empty s ≡ false
    → locked_now lib now (some s) ≡ still_locked now (parse_iso_strict_utc lib (some s))
unfolding locked_now
locked_now_nonempty lib now [] h = cc
locked_now_nonempty lib now (c ∷ s) h = refl

-- The strict reading of the lock agrees with the instant that was written.
locked_now-text_of :
    (lib : Datetime) (now : ℕ) (t : Option ℕ)
    → IsIso lib
    → locked_now lib now (text_of lib t) ≡ locked_after now t
unfolding text_of locked_now
locked_now-text_of lib now none iso = refl
locked_now-text_of lib now (some t) iso =
    rw
      (
        locked_now_nonempty lib now (lib.isoformat t) (iso.nonempty t),
        parse_iso_strict_utc-isoformat lib iso t,
      )
      (ground arith)

pub is_locked_out-row_of :
    (lib : Datetime) (now : ℕ) (username : String) (table : Failures) (s : Streak)
    → IsIso lib
    → (username == "") ≡ false
    → lookup username table ≡ some (row_of lib s)
    → is_locked_out lib now username table ≡ locked_after now s.until
unfolding is_locked_out row_of
is_locked_out-row_of lib now username table s iso named h =
    rw (named, h) (locked_now-text_of lib now s.until iso)

lock_after-locked :
    (now n : ℕ) (until : Option ℕ)
    → leb 5 n ≡ true
    → locked_after now (lock_after now n until) ≡ true
unfolding lock_after lock_minutes escalates
lock_after-locked now n none h = ground arith
lock_after-locked now n (some u) h = ground arith

fail-locked :
    (now : ℕ) (s : Option Streak)
    → leb 5 (fail now s).count ≡ true
    → locked_after now (fail now s).until ≡ true
unfolding fail
fail-locked now none h = cc
fail-locked now (some s) h = ground (arith, lock_after-locked now (s.count + 1) s.until, h)

record_failure-row :
    (lib : Datetime) (now : ℕ) (username : String) (table : Failures) (s : Option Streak)
    → IsIso lib
    → (username == "") ≡ false
    → lookup username table ≡ row_of? lib s
    → (record_failure lib now username table).0 ≡ insert username (row_of lib (fail now s)) table
unfolding record_failure
record_failure-row lib now username table s iso named h =
    rw (named, h, record_failure_in_tx-Refines lib now s iso) refl

pub lookup-insert_self :
    (username : String) (r : Failure) (table : Failures)
    → lookup username (insert username r table) ≡ some r
lookup-insert_self username r table =
    ground (arith, lookup-insert username username r table, ==_self username)

-- Where `isoformat` and `fromisoformat` meet their laws, and for a user name that is not empty whose
-- row is that of a streak, or missing: a failure is written to the row of that user, as one more
-- failure of the streak, and the rows of all others stay. From the fifth failure of a streak on the
-- account is locked at that instant.
pub record_failure-locks_out :
    (lib : Datetime) (now : ℕ) (username : String) (table : Failures) (s : Option Streak)
    → IsIso lib
    → (username == "") ≡ false
    → lookup username table ≡ row_of? lib s
    → let table' = (record_failure lib now username table).0 in
      (lookup username table' ≡ some (row_of lib (fail now s)))
      × ((other : String) → (other == username) ≡ false → lookup other table' ≡ lookup other table)
      × (leb 5 (fail now s).count ≡ true → is_locked_out lib now username table' ≡ true)
record_failure-locks_out lib now username table s iso named h =
    let there = lookup-insert_self username (row_of lib (fail now s)) table in
    rw (record_failure-row lib now username table s iso named h) (
      there,
      λ other apart. ground (
        arith,
        lookup-insert username other (row_of lib (fail now s)) table,
        string_key.same_iff username other,
        string_key.same_iff other username,
        apart,
      ),
      λ high.
          is_locked_out-row_of lib now username (insert username (row_of lib (fail now s)) table)
            (fail now s) iso named there
          ∙ fail-locked now s high,
    )

-- The failures of one user at the instants `ts`.
unfoldable pub record_failures : Datetime → String → List ℕ → Failures → Failures
record_failures lib username [] table = table
record_failures lib username (t ∷ ts) table =
    record_failures lib username ts (record_failure lib t username table).0

-- Every instant comes before `u`.
abbrev pub AllBefore : ℕ → List ℕ → Type 0
AllBefore u [] = Unit
AllBefore u (t ∷ ts) = (t < u) × AllBefore u ts

row_of?-some :
    (lib : Datetime) (s : Streak) (table : Failures) (username : String)
    → lookup username table ≡ some (row_of lib s)
    → lookup username table ≡ row_of? lib (some s)
unfolding row_of?
row_of?-some lib s table username h = h

fail_top :
    (now u : ℕ) (s : Streak)
    → s.until ≡ some u
    → leb 15 s.count ≡ true
    → now < u
    → fail now (some s) ≡ record s { count = s.count + 1 }
unfolding fail lock_after escalates
fail_top now u s locked top before = ground arith

-- Where `isoformat` and `fromisoformat` meet their laws, and for a user name that is not empty whose
-- row is that of a streak of fifteen failures or more, locked until `u`: any number of failures
-- before `u` is counted and leaves the end of the lock where it is, and the account is locked exactly
-- before `u`.
pub record_failures-until :
    (lib : Datetime) (username : String) (ts : List ℕ) (table : Failures) (s : Streak) (u : ℕ)
    → IsIso lib
    → (username == "") ≡ false
    → lookup username table ≡ some (row_of lib s)
    → s.until ≡ some u
    → leb 15 s.count ≡ true
    → AllBefore u ts
    → let table' = record_failures lib username ts table in
      (lookup username table' ≡ some (row_of lib (record s { count = s.count + length ts })))
      × ((t : ℕ) → is_locked_out lib t username table' ≡ ltb t u)
unfolding record_failures
record_failures-until lib username [] table s u iso named h locked top before =
    let total : s.count + 0 ≡ s.count = omega arith in
    (
      rw total h,
      λ t. is_locked_out-row_of lib t username table s iso named h ∙ ap (locked_after t) locked,
    )
record_failures-until lib username (t ∷ ts) table s u iso named h locked top before =
    let next = record s { count = s.count + 1 } in
    let table' = (record_failure lib t username table).0 in
    let there : lookup username table' ≡ some (row_of lib next) =
      (record_failure-locks_out lib t username table (some s) iso named
        (row_of?-some lib s table username h)).0
      ∙ ap (λ q. some (row_of lib q)) (fail_top t u s locked top before.0) in
    let rest =
      record_failures-until lib username ts table' next u iso named there locked (ground arith)
        before.1 in
    let total : s.count + 1 + length ts ≡ s.count + suc (length ts) = omega arith in
    (rest.0 ∙ ap (λ n. some (row_of lib (record s { count = n }))) total, rest.1)
