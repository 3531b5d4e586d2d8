-- ===== src/Notify/Arrival.antt =====
-- A row whose item is there is mailed for.

use mediaman.Prelude.{
  ==_self, Bool, Bool-cases, List, Option, [], arith, contains, false, inl, inr, length,
  length-select-le, nat_key, none, not, select, some, true, ℕ, ◌+◌, ◌∷◌, ◌≡◌, ◌≤◌, ◌⊎◌,
}
use mathlib.Core.Path.{subst}
use mediaman.Notify.Laws.{IsTame, process_one-Settles, failures}
use mediaman.Notify.Tick.{
  Posting, mail_sent, mail_refused, mail_invalid, mailgun_client, after_mail, begin_run,
  Surroundings, Queue, with_retries, fail_row, mail_row, act_on_probe, process_one, process_all,
  ids_of, check_notifications,
}
use mediaman.Notify.Claims.{
  Notice, is_queued, claim_pending, BackoffState, is_backed_off, record_arr_failure,
}
use mediaman.Notify.Probe.{Availability, arr_unreachable, no_such_service, is_ready, check_service}

-- `r` is one of the rows.
abbrev pub IsIn : Notice → List Notice → Type 0
IsIn r [] = ⊥
IsIn r (x ∷ rows) = (r ≡ x) ⊎ IsIn r rows

IsIn-select :
    (p : Notice → Bool) (r : Notice) (rows : List Notice)
    → p r ≡ true
    → IsIn r rows
    → IsIn r (select p rows)
unfolding select
IsIn-select p r [] h m = m
IsIn-select p r (x ∷ rows) h (inl here) =
    let taken : p x ≡ true = subst (λ y. p y ≡ true) here h in rw taken (inl here)
IsIn-select p r (x ∷ rows) h (inr later) = elim (Bool-cases (p x)) [
  | inl taken ↦ rw taken (inr (IsIn-select p r rows h later))
  | inr left ↦ rw left (IsIn-select p r rows h later)
]

module _ (s : Surroundings) (n k : ℕ) (q : Queue) (h : contains q.mailed n ≡ true) where
  mailed-with_retries :
      (o : Option BackoffState) → contains (with_retries s k q o).0.mailed n ≡ true
  mailed-with_retries none = h
  mailed-with_retries (some state) = h

  mailed-fail_row : contains (fail_row s k q).0.mailed n ≡ true
  unfolding fail_row
  mailed-fail_row = mailed-with_retries (record_arr_failure q.retries k s.now)

mailed-after_mail :
    (s : Surroundings) (n k : ℕ) (q : Queue) (p : Posting)
    → contains q.mailed n ≡ true
    → contains (after_mail s k q p).0.mailed n ≡ true
mailed-after_mail s n k q mail_refused h = mailed-fail_row s n k q h
mailed-after_mail s n k q mail_invalid h = h
mailed-after_mail s n k q mail_sent h = elim (Bool-cases (s.marks k)) [
  | inl marked ↦ rw marked (ground (arith, h))
  | inr unmarked ↦
      rw unmarked (mailed-fail_row s n k (record q { mailed = k ∷ q.mailed }) (ground (arith, h)))
]

mailed-act_on_probe :
    (s : Surroundings) (n k : ℕ) (q : Queue) (a : Availability)
    → contains q.mailed n ≡ true
    → contains (act_on_probe s k q a).0.mailed n ≡ true
unfolding act_on_probe mail_row
mailed-act_on_probe s n k q arr_unreachable h = mailed-fail_row s n k q h
mailed-act_on_probe s n k q no_such_service h = elim (Bool-cases (s.marks k)) [
  | inl marked ↦ rw marked h
  | inr unmarked ↦ rw unmarked (mailed-fail_row s n k q h)
]
mailed-act_on_probe s n k q (is_ready false) h = h
mailed-act_on_probe s n k q (is_ready true) h = mailed-after_mail s n k q (s.sends k) h

mailed-process_one :
    (s : Surroundings) (n : ℕ) (r : Notice) (q : Queue)
    → contains q.mailed n ≡ true
    → contains (process_one s r q).0.mailed n ≡ true
unfolding process_one
mailed-process_one s n r q h = elim (Bool-cases (s.malformed r.notice_id)) [
  | inl bad ↦ rw bad h
  | inr good ↦
      rw good (mailed-act_on_probe s n r.notice_id q (check_service s.arrs r r.arr_service) h)
]

mailed-process_all :
    (s : Surroundings) (n : ℕ) (todo : List Notice) (q : Queue)
    → contains q.mailed n ≡ true
    → contains (process_all s todo q).0.mailed n ≡ true
unfolding process_all
mailed-process_all s n [] q h = h
mailed-process_all s n (r ∷ todo) q h =
    let kept = mailed-process_one s n r q h in
    elim (Bool-cases (process_one s r q).1) [
      | inr stopped ↦ rw stopped kept
      | inl goes_on ↦ rw goes_on (mailed-process_all s n todo (process_one s r q).0 kept)
    ]

-- The item of `r` is there, and its mail gets through.
abbrev pub IsArrived : Surroundings → Notice → Type 0
IsArrived s r =
    (check_service s.arrs r r.arr_service ≡ is_ready true) × (s.sends r.notice_id ≡ mail_sent)

arrived-process_one :
    (s : Surroundings) (r : Notice) (q : Queue)
    → s.malformed r.notice_id ≡ false
    → IsArrived s r
    → contains (process_one s r q).0.mailed r.notice_id ≡ true
unfolding process_one act_on_probe mail_row
arrived-process_one s r q formed h =
    let k = r.notice_id in
    let own : contains (k ∷ q.mailed) k ≡ true = ground (arith, ==_self k) in
    rw (formed, h.0, h.1)
      (elim (Bool-cases (s.marks k)) [
        | inl marked ↦ rw marked own
        | inr unmarked ↦
            rw unmarked (mailed-fail_row s k k (record q { mailed = k ∷ q.mailed }) own)
      ])

process_all-arrived :
    (s : Surroundings) (r : Notice) (todo : List Notice) (q : Queue)
    → IsTame s
    → ((n : ℕ) → s.releases n ≡ true)
    → ((n : ℕ) → failures q n + length todo ≤ 1024)
    → IsArrived s r
    → IsIn r todo
    → contains (process_all s todo q).0.mailed r.notice_id ≡ true
unfolding process_all
process_all-arrived s r [] q tame freed few h m = absurd m
process_all-arrived s r (x ∷ todo) q tame freed few h m =
    let k = x.notice_id in
    let first = process_one s x q in
    let step = process_one-Settles s x (ids_of todo) q tame (freed k) (omega (arith, few k)) in
    rw step.0 (elim m [
      | inl here ↦ mailed-process_all s r.notice_id todo first.0 (
          subst (λ y. contains (process_one s y q).0.mailed r.notice_id ≡ true) here
            (arrived-process_one s r q (tame.formed r.notice_id) h))
      | inr later ↦
          process_all-arrived s r todo first.0 tame freed (λ n. omega (arith, few n, step.2 n)) h
            later
    ])

-- Where Mailgun has a client, what the run loads is loaded, the releases are written, no mail of the
-- run is refused for its recipient or subject, no answer of Radarr or Sonarr is malformed, and no row
-- has failed so often that one more failure for each row of the table reaches 1,025: a run mails for
-- every row that was waiting, is not backed off, and whose item Radarr or Sonarr reports as there,
-- unless Mailgun fails on its mail; whether the services can be reached for the other rows, their mails
-- get through and their marks are written does not matter.
pub check_notifications-mails :
    (s : Surroundings) (q : Queue) (r : Notice)
    → s.mailgun ≡ mailgun_client
    → s.loads ≡ true
    → IsTame s
    → ((n : ℕ) → s.releases n ≡ true)
    → ((n : ℕ) → failures q n + length q.rows ≤ 1024)
    → IsIn r q.rows
    → is_queued r.notified ≡ true
    → is_backed_off q.retries r.notice_id s.now ≡ false
    → IsArrived s r
    → contains (check_notifications s q).0.mailed r.notice_id ≡ true
unfolding check_notifications begin_run claim_pending
check_notifications-mails s q r set loaded tame freed few m queued due h =
    let queued_rows = select (λ x. is_queued x.notified) q.rows in
    let b : Notice → Bool = λ x. not (is_backed_off q.retries x.notice_id s.now) in
    let short : length (select b queued_rows) ≤ length q.rows = omega (
      arith,
      length-select-le b queued_rows,
      length-select-le (λ (x : Notice). is_queued x.notified) q.rows,
    ) in
    simp (set, loaded)
      (process_all-arrived s r (select b queued_rows) _ tame freed
        (λ n. omega (arith, few n, short)) h
        (IsIn-select b r queued_rows (ground (arith, due))
          (IsIn-select (λ x. is_queued x.notified) r q.rows queued m)))
