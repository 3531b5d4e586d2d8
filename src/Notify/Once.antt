-- ===== src/Notify/Once.antt =====
-- No one is mailed twice, as long as the marks are written.

use mediaman.Prelude.{
  Bool, Bool-cases, List, Option, [], any, arith, contains, false, if◌then◌else◌, inl, inr, ltb,
  nat_key, none, not, refl, some, sym, true, update_where, ℕ, ◌&&◌, ◌+◌, ◌==◌, ◌∷◌, ◌≡◌, ◌≤◌,
}
use mediaman.Notify.Probe.{Availability, arr_unreachable, no_such_service, is_ready, check_service}
use mathlib.Core.Path.{subst}
use mediaman.Notify.Tick.{
  mail_sent, mail_refused, mail_invalid, Posting, after_mail, Surroundings, release_row,
  with_retries, fail_row, mail_row, act_on_probe, process_one, Queue, set_done, ids_of,
}
use mediaman.Notify.Claims.{
  BackoffState, record_arr_failure, record_poll_attempt, clear_backoff, unclaimed, Notice, is_done,
  release_claims,
}

-- How often an id stands in a list.
abbrev pub times : ℕ → List ℕ → ℕ
times n [] = 0
times n (k ∷ ks) = (if k == n then 1 else 0) + times n ks

-- Some row of `n` is not done.
abbrev pub open_row : ℕ → List Notice → Bool
open_row n rows = any (λ r. r.notice_id == n && not (is_done r.notified)) rows

pub ids_of-update_where :
    (p : Notice → Bool) (f : Notice → Notice) (rows : List Notice)
    → ((r : Notice) → (f r).notice_id ≡ r.notice_id)
    → ids_of (update_where p f rows) ≡ ids_of rows
unfolding update_where
ids_of-update_where p f [] same = refl
ids_of-update_where p f (r ∷ rows) same = ground (arith, same r, ids_of-update_where p f rows same)

pub ids_of-release_claims :
    (ok : Bool) (ids : List ℕ) (rows : List Notice)
    → ids_of (release_claims ok ids rows) ≡ ids_of rows
unfolding release_claims
ids_of-release_claims true ids rows = ids_of-update_where _ unclaimed rows (λ r. refl)
ids_of-release_claims false ids rows = refl

-- A release of other rows leaves the rows of `n` done.
pub open_row-release_claims :
    (ok : Bool) (n : ℕ) (ids : List ℕ) (rows : List Notice)
    → contains ids n ≡ false
    → open_row n (release_claims ok ids rows) ≡ open_row n rows
unfolding release_claims update_where
open_row-release_claims false n ids rows h = refl
open_row-release_claims true n ids [] h = refl
open_row-release_claims true n ids (r ∷ rows) h = elim (Bool-cases (r.notice_id == n)) [
  | inl same ↦
      let here : r.notice_id ≡ n = (nat_key.same_iff r.notice_id n).0 same in
      let out : contains ids r.notice_id ≡ false =
        subst (λ k. contains ids k ≡ false) (sym here) h in
      ground (arith, out, open_row-release_claims true n ids rows h)
  | inr other ↦ ground (arith, other, open_row-release_claims true n ids rows h)
]

open_row-set_done :
    (n k : ℕ) (rows : List Notice)
    → open_row n (set_done k rows) ≡ (open_row n rows && not (k == n))
unfolding update_where
open_row-set_done n k [] = ground arith
open_row-set_done n k (r ∷ rows) = ground (
  arith,
  open_row-set_done n k rows,
  nat_key.same_iff r.notice_id k,
  nat_key.same_iff r.notice_id n,
  nat_key.same_iff k n,
)

-- A mail went to `n`, and a row of it is not done.
abbrev pub mailed_open : ℕ → Queue → Bool
mailed_open n q = ltb 0 (times n q.mailed) && open_row n q.rows

-- What the processing of a row of `k` keeps: the ids, that what was mailed is done, and the mails, but
-- for one of `k`.
abbrev Mails : ℕ → ℕ → Queue → Queue → Type 0
Mails n k q q' =
    (ids_of q'.rows ≡ ids_of q.rows)
    × (mailed_open n q' ≡ false)
    × (times n q'.mailed ≤ times n q.mailed + (if k == n then 1 else 0))

module _ (s : Surroundings) (n k : ℕ) (q : Queue) (kept : mailed_open n q ≡ false)
    (room : times n q.mailed + (if k == n then 1 else 0) ≤ 1) where
  release_row-Mails :
      (state : BackoffState) → Mails n k q (release_row s k (record q { retries = state }))
  release_row-Mails state = (
    ids_of-release_claims (s.releases k) (k ∷ []) q.rows,
    elim (Bool-cases (k == n)) [
      | inl same ↦ ground (arith, same, room)
      | inr other ↦ ground (
        arith,
        kept,
        open_row-release_claims (s.releases k) n (k ∷ []) q.rows (ground (arith, other)),
      )
    ],
    ground arith,
  )

  with_retries-Mails : (o : Option BackoffState) → Mails n k q (with_retries s k q o).0
  with_retries-Mails none = (refl, kept, ground arith)
  with_retries-Mails (some state) = release_row-Mails state

  fail_row-Mails : Mails n k q (fail_row s k q).0
  unfolding fail_row
  fail_row-Mails = with_retries-Mails (record_arr_failure q.retries k s.now)

  set_done-Mails :
      (state : BackoffState) (mailed' : List ℕ)
      → times n mailed' ≤ times n q.mailed + (if k == n then 1 else 0)
      → Mails n k q (record { rows = set_done k q.rows; retries = state; mailed = mailed' })
  set_done-Mails state mailed' few = (
    ids_of-update_where _ _ q.rows (λ r. refl),
    ground (arith, kept, few, open_row-set_done n k q.rows),
    few,
  )

  mail_row-Mails : s.marks k ≡ true → Mails n k q (mail_row s k q).0
  unfolding mail_row
  mail_row-Mails marked = go (s.sends k)
    where
      go : (p : Posting) → Mails n k q (after_mail s k q p).0
      go mail_refused = fail_row-Mails
      go mail_invalid = (refl, kept, ground arith)
      go mail_sent =
          rw marked (set_done-Mails (clear_backoff q.retries k) (k ∷ q.mailed) (ground arith))

  act_on_probe-Mails : (a : Availability) → s.marks k ≡ true → Mails n k q (act_on_probe s k q a).0
  unfolding act_on_probe
  act_on_probe-Mails arr_unreachable marked = fail_row-Mails
  act_on_probe-Mails no_such_service marked =
      rw marked (set_done-Mails q.retries q.mailed (ground arith))
  act_on_probe-Mails (is_ready false) marked =
      release_row-Mails (record_poll_attempt q.retries k s.now)
  act_on_probe-Mails (is_ready true) marked = mail_row-Mails marked

pub process_one-Mails :
    (s : Surroundings) (n : ℕ) (r : Notice) (q : Queue)
    → s.marks r.notice_id ≡ true
    → mailed_open n q ≡ false
    → times n q.mailed + (if r.notice_id == n then 1 else 0) ≤ 1
    → Mails n r.notice_id q (process_one s r q).0
unfolding process_one
process_one-Mails s n r q marked kept room = elim (Bool-cases (s.malformed r.notice_id)) [
  | inl bad ↦ rw bad (refl, kept, ground arith)
  | inr good ↦
      rw good (
        act_on_probe-Mails s n r.notice_id q kept room (check_service s.arrs r r.arr_service)
          marked)
]
