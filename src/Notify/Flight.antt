-- ===== src/Notify/Flight.antt =====
-- Which rows wait for a run: what the claim of a run and the processing of a row make of the others.

use mediaman.Prelude.{
  Bool, Bool-cases, List, Option, [], any, arith, contains, false, inl, inr, nat_key, none, refl,
  select, some, sym, true, update_where, ℕ, ◌&&◌, ◌==◌, ◌∷◌, ◌≡◌, ◌≤◌,
}
use mathlib.Core.Path.{subst}
use mediaman.Core.Time.{Text}
use mediaman.Notify.Tick.{
  Posting, mail_sent, mail_refused, mail_invalid, Surroundings, Queue, set_done, with_retries,
  fail_row, after_mail, mail_row, act_on_probe, process_one, ids_of,
}
use mediaman.Notify.Claims.{
  Notified, queued_row, claimed_row, done_row, Notice, is_queued, is_claimed, is_done,
  claim_pending, release_claims, reconcile_stranded, BackoffState, record_arr_failure,
}
use mediaman.Notify.Probe.{Availability, arr_unreachable, no_such_service, is_ready, check_service}
use mediaman.Notify.Once.{times, open_row}

-- Some row of `n` waits.
unfoldable pub waits : ℕ → List Notice → Bool
waits n rows = any (λ r. r.notice_id == n && is_queued r.notified) rows

queued_open : (x : Notified) → is_queued x ≡ true → is_done x ≡ false
queued_open queued_row h = refl
queued_open claimed_row h = refl
queued_open done_row h = cc

claimed_open : (x : Notified) → is_claimed x ≡ true → is_done x ≡ false
claimed_open queued_row h = refl
claimed_open claimed_row h = refl
claimed_open done_row h = cc

pub waits-open_row : (n : ℕ) (rows : List Notice) → waits n rows ≡ true → open_row n rows ≡ true
unfolding waits
waits-open_row n [] h = cc
waits-open_row n (r ∷ rows) h = ground (arith, h, queued_open r.notified, waits-open_row n rows)

-- A claim leaves nothing waiting.
pub waits-claim_pending :
    (n : ℕ) (stamp : Text) (rows : List Notice) → waits n (claim_pending stamp rows).0 ≡ false
unfolding waits claim_pending update_where
waits-claim_pending n stamp [] = refl
waits-claim_pending n stamp (r ∷ rows) = ground (arith, waits-claim_pending n stamp rows)

pub waits-release_claims :
    (ok : Bool) (n : ℕ) (ids : List ℕ) (rows : List Notice)
    → contains ids n ≡ false
    → waits n (release_claims ok ids rows) ≡ waits n rows
unfolding waits release_claims update_where
waits-release_claims false n ids rows h = refl
waits-release_claims true n ids [] h = refl
waits-release_claims true n ids (r ∷ rows) h = elim (Bool-cases (r.notice_id == n)) [
  | inl same ↦
      let here : r.notice_id ≡ n = (nat_key.same_iff r.notice_id n).0 same in
      let out : contains ids r.notice_id ≡ false =
        subst (λ k. contains ids k ≡ false) (sym here) h in
      ground (arith, out, waits-release_claims true n ids rows h)
  | inr other ↦ ground (arith, other, waits-release_claims true n ids rows h)
]

waits-set_done :
    (n k : ℕ) (rows : List Notice) → (k == n) ≡ false → waits n (set_done k rows) ≡ waits n rows
unfolding waits update_where
waits-set_done n k [] h = refl
waits-set_done n k (r ∷ rows) h =
    ground (arith, h, waits-set_done n k rows h, nat_key.same_iff r.notice_id k)

pub times-select-le :
    (n : ℕ) (p : Notice → Bool) (rows : List Notice)
    → times n (ids_of (select p rows)) ≤ times n (ids_of rows)
unfolding select
times-select-le n p [] = omega arith
times-select-le n p (r ∷ rows) = ground (arith, times-select-le n p rows)

-- A row that does not wait is not claimed.
pub times_waiting :
    (n : ℕ) (rows : List Notice)
    → waits n rows ≡ false
    → times n (ids_of (select (λ r. is_queued r.notified) rows)) ≡ 0
unfolding waits select
times_waiting n [] h = refl
times_waiting n (r ∷ rows) h = ground (arith, h, times_waiting n rows)

pub contains-times : (n : ℕ) (ks : List ℕ) → times n ks ≡ 0 → contains ks n ≡ false
contains-times n [] h = refl
contains-times n (k ∷ ks) h = ground (arith, h, contains-times n ks)

-- The rows that a test on the id keeps.
pub times-select_by :
    (n : ℕ) (b : ℕ → Bool) (rows : List Notice)
    → b n ≡ false
    → times n (ids_of (select (λ r. b r.notice_id) rows)) ≡ 0
unfolding select
times-select_by n b [] h = refl
times-select_by n b (r ∷ rows) h = elim (Bool-cases (r.notice_id == n)) [
  | inl same ↦
      let out : b r.notice_id ≡ false =
        subst (λ k. b k ≡ false) (sym ((nat_key.same_iff r.notice_id n).0 same)) h in
      rw out (times-select_by n b rows h)
  | inr other ↦ ground (arith, other, times-select_by n b rows h)
]

pub open_row-claim_pending :
    (n : ℕ) (stamp : Text) (rows : List Notice)
    → open_row n (claim_pending stamp rows).0 ≡ open_row n rows
unfolding claim_pending update_where
open_row-claim_pending n stamp [] = refl
open_row-claim_pending n stamp (r ∷ rows) =
    ground (arith, queued_open r.notified, open_row-claim_pending n stamp rows)

pub open_row-reconcile_stranded :
    (n : ℕ) (cutoff : Text) (rows : List Notice)
    → open_row n (reconcile_stranded cutoff rows).0 ≡ open_row n rows
unfolding reconcile_stranded update_where
open_row-reconcile_stranded n cutoff [] = refl
open_row-reconcile_stranded n cutoff (r ∷ rows) =
    ground (arith, claimed_open r.notified, open_row-reconcile_stranded n cutoff rows)

fail_row-waits :
    (s : Surroundings) (n k : ℕ) (q : Queue)
    → (k == n) ≡ false
    → waits n (fail_row s k q).0.rows ≡ waits n q.rows
unfolding fail_row
fail_row-waits s n k q other = go (record_arr_failure q.retries k s.now)
  where
    go : (o : Option BackoffState) → waits n (with_retries s k q o).0.rows ≡ waits n q.rows
    go none = refl
    go (some state) = waits-release_claims (s.releases k) n (k ∷ []) q.rows (ground (arith, other))

module _ (s : Surroundings) (n k : ℕ) (q : Queue) (other : (k == n) ≡ false) where
  after_mail-waits : (p : Posting) → waits n (after_mail s k q p).0.rows ≡ waits n q.rows
  after_mail-waits mail_refused = fail_row-waits s n k q other
  after_mail-waits mail_invalid = refl
  after_mail-waits mail_sent = elim (Bool-cases (s.marks k)) [
    | inl marked ↦ rw marked (waits-set_done n k q.rows other)
    | inr unmarked ↦ rw unmarked (fail_row-waits s n k (record q { mailed = k ∷ q.mailed }) other)
  ]

  act_on_probe-waits : (a : Availability) → waits n (act_on_probe s k q a).0.rows ≡ waits n q.rows
  unfolding act_on_probe mail_row
  act_on_probe-waits arr_unreachable = fail_row-waits s n k q other
  act_on_probe-waits no_such_service = elim (Bool-cases (s.marks k)) [
    | inl marked ↦ rw marked (waits-set_done n k q.rows other)
    | inr unmarked ↦ rw unmarked (fail_row-waits s n k q other)
  ]
  act_on_probe-waits (is_ready false) =
      waits-release_claims (s.releases k) n (k ∷ []) q.rows (ground (arith, other))
  act_on_probe-waits (is_ready true) = after_mail-waits (s.sends k)

-- The processing of a row leaves the others as they are: whether they wait does not change.
pub process_one-waits :
    (s : Surroundings) (n : ℕ) (r : Notice) (q : Queue)
    → (r.notice_id == n) ≡ false
    → waits n (process_one s r q).0.rows ≡ waits n q.rows
unfolding process_one
process_one-waits s n r q other = elim (Bool-cases (s.malformed r.notice_id)) [
  | inl bad ↦ rw bad refl
  | inr good ↦
      rw good (act_on_probe-waits s n r.notice_id q other (check_service s.arrs r r.arr_service))
]
