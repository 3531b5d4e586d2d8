-- ===== src/Notify/Laws.antt =====
-- A run of the notifications leaves no row claimed.

use mediaman.Prelude.{
  Bool, Bool-cases, List, [], any, arith, contains, false, inl, inr, length, ltb, min, nat_key,
  none, not, refl, some, true, update_where, ℕ, ◌&&◌, ◌*◌, ◌+◌, ◌-◌, ◌==◌, ◌^◌, ◌∷◌, ◌≡◌, ◌≤◌,
}
use mathlib.Core.Path.{subst}
use mediaman.Notify.Probe.{Availability, arr_unreachable, no_such_service, is_ready, check_service}
use mediaman.Prelude.Dict.{erase, insert, lookup-insert, lookup-erase, lookup}
use mediaman.Search.Backoff.{delay_from, is_positive, delay}
use mediaman.Notify.Tick.{
  mail_sent, mail_refused, mail_invalid, Posting, after_mail, Surroundings, fail_row, mail_row,
  act_on_probe, process_one, process_all, ids_of, Queue, set_done,
}
use mediaman.Notify.Claims.{
  notify_backoff, failure_delay, record_poll_attempt, clear_backoff, Notice, is_claimed,
  release_claims, BackoffState, failures_of, record_arr_failure,
}

-- Some row is claimed that `ids` does not name.
unfoldable pub has_stray : List ℕ → List Notice → Bool
has_stray ids rows = any (λ r. is_claimed r.notified && not (contains ids r.notice_id)) rows

stray-release_claims :
    (k : ℕ) (ids : List ℕ) (rows : List Notice)
    → has_stray (k ∷ ids) rows ≡ false
    → has_stray ids (release_claims true (k ∷ []) rows) ≡ false
unfolding has_stray release_claims update_where
stray-release_claims k ids [] h = refl
stray-release_claims k ids (r ∷ rows) h =
    ground (arith, h, stray-release_claims k ids rows, nat_key.same_iff k r.notice_id)

stray-set_done :
    (k : ℕ) (ids : List ℕ) (rows : List Notice)
    → has_stray (k ∷ ids) rows ≡ false
    → has_stray ids (set_done k rows) ≡ false
unfolding has_stray update_where
stray-set_done k ids [] h = refl
stray-set_done k ids (r ∷ rows) h = ground (
  arith,
  h,
  stray-set_done k ids rows,
  nat_key.same_iff k r.notice_id,
  nat_key.same_iff r.notice_id k,
)

-- The failures that are remembered of a row.
abbrev pub failures : Queue → ℕ → ℕ
failures q n = failures_of (lookup n q.retries)

-- The wait after that many failures, in microseconds.
abbrev pub wait_after : ℕ → ℕ
wait_after n = min (60 * 2 ^ (n + 1 - 1)) 1800 * 1000000

delay_few :
    (n : ℕ)
    → n ≤ 1023
    → failure_delay (delay (λ seed j. 0) notify_backoff (n + 1) none) ≡ some (wait_after n)
unfolding delay is_positive delay_from
delay_few n few = let fits : ltb 1023 (n + 1 - 1) ≡ false = ground (arith, few) in simp fits refl

pub record_arr_failure_few :
    (state : BackoffState) (k now : ℕ)
    → failures_of (lookup k state) ≤ 1023
    → let n = failures_of (lookup k state) in
      record_arr_failure state k now ≡ some (insert k (n + 1, now + wait_after n) state)
unfolding record_arr_failure
record_arr_failure_few state k now few = rw (delay_few (failures_of (lookup k state)) few) refl

failures-insert :
    (k n v t : ℕ) (state : BackoffState)
    → v ≤ failures_of (lookup k state) + 1
    → failures_of (lookup n (insert k (v, t) state)) ≤ failures_of (lookup n state) + 1
failures-insert k n v t state h = elim (Bool-cases (k == n)) [
  | inl same ↦
      let here : k ≡ n = (nat_key.same_iff k n).0 same in
      rw (lookup-insert k n (v, t) state, same)
        (subst (λ j. v ≤ failures_of (lookup j state) + 1) here h)
  | inr other ↦ rw (lookup-insert k n (v, t) state, other) (omega arith)
]

failures-erase :
    (k n : ℕ) (state : BackoffState)
    → failures_of (lookup n (erase k state)) ≤ failures_of (lookup n state) + 1
failures-erase k n state = elim (Bool-cases (k == n)) [
  | inl same ↦ rw (lookup-erase k n state, same) (omega arith)
  | inr other ↦ rw (lookup-erase k n state, other) (omega arith)
]

-- What the processing of one row comes to where the writes succeed: it returns, nothing of the row is
-- claimed, and no count of failures grows by more than one.
abbrev Settles : ℕ → List ℕ → Queue → Queue × Bool → Type 0
Settles k ids q r =
    (r.1 ≡ true)
    × (has_stray (k ∷ ids) q.rows ≡ false → has_stray ids r.0.rows ≡ false)
    × ((n : ℕ) → failures r.0 n ≤ failures q n + 1)

module _ (s : Surroundings) (k : ℕ) (ids : List ℕ) (freed : s.releases k ≡ true) where
  fail_row-Settles : (q : Queue) → failures q k ≤ 1023 → Settles k ids q (fail_row s k q)
  unfolding fail_row
  fail_row-Settles q few =
      rw (record_arr_failure_few q.retries k s.now few, freed)
        (
          refl,
          stray-release_claims k ids q.rows,
          λ n. failures-insert k n _ _ q.retries (omega arith),
        )

  after_mail-Settles :
      (q : Queue) (p : Posting)
      → failures q k ≤ 1023
      → (p ≡ mail_invalid → ⊥)
      → Settles k ids q (after_mail s k q p)
  unfolding clear_backoff
  after_mail-Settles q mail_refused few valid = fail_row-Settles q few
  after_mail-Settles q mail_invalid few valid = absurd (valid refl)
  after_mail-Settles q mail_sent few valid = elim (Bool-cases (s.marks k)) [
    | inl marked ↦ rw marked (refl, stray-set_done k ids q.rows, λ n. failures-erase k n q.retries)
    | inr unmarked ↦ rw unmarked (fail_row-Settles (record q { mailed = k ∷ q.mailed }) few)
  ]

  pub act_on_probe-Settles :
      (q : Queue) (a : Availability)
      → failures q k ≤ 1023
      → (s.sends k ≡ mail_invalid → ⊥)
      → Settles k ids q (act_on_probe s k q a)
  unfolding act_on_probe record_poll_attempt
  act_on_probe-Settles q arr_unreachable few valid = fail_row-Settles q few
  act_on_probe-Settles q no_such_service few valid = elim (Bool-cases (s.marks k)) [
    | inl marked ↦ rw marked (refl, stray-set_done k ids q.rows, λ n. omega arith)
    | inr unmarked ↦ rw unmarked (fail_row-Settles q few)
  ]
  act_on_probe-Settles q (is_ready false) few valid = rw freed (
    refl,
    stray-release_claims k ids q.rows,
    λ n. failures-insert k n _ _ q.retries (omega arith),
  )
  act_on_probe-Settles q (is_ready true) few valid =
      unfold mail_row in after_mail-Settles q (s.sends k) few valid

-- No mail of a run is refused with an exception that nothing catches, and no answer is malformed.
pub record IsTame (s : Surroundings) : Type 0 where
  pub valid : (n : ℕ) → s.sends n ≡ mail_invalid → ⊥
  pub formed : (n : ℕ) → s.malformed n ≡ false

pub process_one-Settles :
    (s : Surroundings) (r : Notice) (ids : List ℕ) (q : Queue)
    → IsTame s
    → s.releases r.notice_id ≡ true
    → failures q r.notice_id ≤ 1023
    → Settles r.notice_id ids q (process_one s r q)
unfolding process_one
process_one-Settles s r ids q tame freed few = rw (tame.formed r.notice_id) (
    act_on_probe-Settles s r.notice_id ids freed q (check_service s.arrs r r.arr_service) few
      (tame.valid r.notice_id))

pub process_all-settles :
    (s : Surroundings) (todo : List Notice) (q : Queue)
    → IsTame s
    → ((n : ℕ) → s.releases n ≡ true)
    → ((n : ℕ) → failures q n + length todo ≤ 1024)
    → has_stray (ids_of todo) q.rows ≡ false
    → ((process_all s todo q).1 ≡ true) × (has_stray [] (process_all s todo q).0.rows ≡ false)
unfolding process_all
process_all-settles s [] q tame freed few h = (refl, h)
process_all-settles s (r ∷ todo) q tame freed few h =
    let k = r.notice_id in
    let first = process_one s r q in
    let step : Settles k (ids_of todo) q first =
      process_one-Settles s r (ids_of todo) q tame (freed k) (omega (arith, few k)) in
    rw step.0 (
      process_all-settles s todo first.0 tame freed (λ n. omega (arith, few n, step.2 n))
        (step.1 h))
