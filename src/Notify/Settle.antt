-- ===== src/Notify/Settle.antt =====
-- Whatever a run of the notifications meets, it leaves no row claimed.

use mediaman.Prelude.{
  ==_self, Bool, Bool-cases, List, [], any, arith, contains, false, inl, inr, length,
  length-select-le, nat_key, not, refl, select, true, update_where, ℕ, ◌&&◌, ◌+◌, ◌||◌, ◌∷◌, ◌≡◌,
  ◌≤◌, ◌⊎◌,
}
use mediaman.Core.Time.{Text}
use mediaman.Notify.Laws.{IsTame, process_all-settles, failures, has_stray}
use mediaman.Notify.Tick.{
  Mailgun, mailgun_client, no_mailgun, bad_sender, begin_run, process_all, deferred, runnable,
  Surroundings, Queue, check_notifications, ids_of,
}
use mediaman.Notify.Claims.{
  is_backed_off, Notice, is_queued, is_claimed, claim_pending, release_claims,
}

-- Some queued row's id is in neither list.
unfoldable uncovered : List ℕ → List ℕ → List Notice → Bool
uncovered ds rs rows =
    any (λ r. is_queued r.notified && not (contains ds r.notice_id || contains rs r.notice_id)) rows

-- A claim of the queued rows and the release of those in `ds` leave only claims on those in `rs`.
stray-claim :
    (stamp : Text) (ds rs : List ℕ) (rows : List Notice)
    → any (λ r. is_claimed r.notified) rows ≡ false
    → uncovered ds rs rows ≡ false
    → has_stray rs (release_claims true ds (claim_pending stamp rows).0) ≡ false
unfolding uncovered has_stray release_claims claim_pending update_where
stray-claim stamp ds rs [] h k = refl
stray-claim stamp ds rs (r ∷ rows) h k = ground (arith, h, k, stray-claim stamp ds rs rows)

module _ (b : ℕ → Bool) (ds rs : List ℕ) where
  covered :
      (rows : List Notice)
      → let queued_rows = select (λ r. is_queued r.notified) rows in
        ((n : ℕ)
          → contains (ids_of (select (λ r. b r.notice_id) queued_rows)) n ≡ true
          → contains ds n ≡ true)
        → ((n : ℕ)
            → contains (ids_of (select (λ r. not (b r.notice_id)) queued_rows)) n ≡ true
            → contains rs n ≡ true)
        → uncovered ds rs rows ≡ false
  unfolding uncovered select
  covered [] hd hr = refl
  covered (r ∷ rows) hd hr = elim (Bool-cases (is_queued r.notified)) [
    | inr settled ↦
        let rest = covered rows (λ n t. hd n (simp settled t)) (λ n t. hr n (simp settled t)) in
        ground (arith, settled, rest)
    | inl waits ↦ elim (Bool-cases (b r.notice_id)) [
      | inl held ↦
          let own : contains ds r.notice_id ≡ true =
            hd r.notice_id (simp (waits, held) (ground (arith, ==_self r.notice_id))) in
          let rest =
            covered rows (λ n t. hd n (simp (waits, held) (ground (arith, t))))
              (λ n t. hr n (simp (waits, held) t)) in
          ground (arith, own, rest)
      | inr free ↦
          let own : contains rs r.notice_id ≡ true =
            hr r.notice_id (simp (waits, free) (ground (arith, ==_self r.notice_id))) in
          let rest =
            covered rows (λ n t. hd n (simp (waits, free) t))
              (λ n t. hr n (simp (waits, free) (ground (arith, t)))) in
          ground (arith, own, rest)
    ]
  ]

all_covered :
    (rs : List ℕ) (rows : List Notice)
    → let queued_rows = select (λ r. is_queued r.notified) rows in
      ((n : ℕ) → contains (ids_of queued_rows) n ≡ true → contains rs n ≡ true)
      → uncovered rs [] rows ≡ false
unfolding uncovered select
all_covered rs [] h = refl
all_covered rs (r ∷ rows) h = elim (Bool-cases (is_queued r.notified)) [
  | inr settled ↦ ground (arith, settled, all_covered rs rows (λ n t. h n (simp settled t)))
  | inl waits ↦
      let own : contains rs r.notice_id ≡ true =
        h r.notice_id (simp waits (ground (arith, ==_self r.notice_id))) in
      let rest = all_covered rs rows (λ n t. h n (simp waits (ground (arith, t)))) in
      ground (arith, own, rest)
]

no_stray :
    (rows : List Notice) → has_stray [] rows ≡ false → any (λ r. is_claimed r.notified) rows ≡ false
unfolding has_stray
no_stray [] h = refl
no_stray (r ∷ rows) h = ground (arith, h, no_stray rows)

Mailgun-cases : (m : Mailgun) → (m ≡ no_mailgun) ⊎ (m ≡ bad_sender) ⊎ (m ≡ mailgun_client)
Mailgun-cases no_mailgun = inl refl
Mailgun-cases bad_sender = inr (inl refl)
Mailgun-cases mailgun_client = inr (inr refl)

-- Where no row is claimed at its start, Mailgun does not refuse the sender, what the run loads is loaded,
-- no mail is refused for its recipient or subject, no answer of Radarr or Sonarr is malformed, the
-- releases are written, and no row has failed so often that one more failure for each row of the table
-- reaches 1,025: a run of the notifications returns, and no row is claimed after it, whether Mailgun is
-- configured, the services can be reached, the mails get through and the marks are written.
pub check_notifications-settles :
    (s : Surroundings) (q : Queue)
    → any (λ r. is_claimed r.notified) q.rows ≡ false
    → (s.mailgun ≡ bad_sender → ⊥)
    → s.loads ≡ true
    → IsTame s
    → s.bulk_releases ≡ true
    → ((n : ℕ) → s.releases n ≡ true)
    → ((n : ℕ) → failures q n + length q.rows ≤ 1024)
    → let run = check_notifications s q in
      (run.1 ≡ true) × (any (λ r. is_claimed r.notified) run.0.rows ≡ false)
unfolding check_notifications begin_run claim_pending
check_notifications-settles s q idle sender loaded tame bulk freed few =
    let queued_rows = select (λ r. is_queued r.notified) q.rows in
    let b : ℕ → Bool = λ n. is_backed_off q.retries n s.now in
    let ds = ids_of (deferred s q queued_rows) in
    let todo = runnable s q queued_rows in
    let short : length todo ≤ length q.rows = omega (
      arith,
      length-select-le (λ r. not (b r.notice_id)) queued_rows,
      length-select-le (λ (r : Notice). is_queued r.notified) q.rows,
    ) in
    elim (Mailgun-cases s.mailgun) [
      | inl unset ↦
          simp (unset, bulk)
            (unfold process_all in
              (
                refl,
                no_stray
                    (release_claims true (ids_of queued_rows) (claim_pending s.claim_text q.rows).0)
                    (stray-claim s.claim_text (ids_of queued_rows) [] q.rows idle
                      (all_covered (ids_of queued_rows) q.rows (λ n t. t))),
              ))
      | inr (inl bad) ↦ absurd (sender bad)
      | inr (inr set) ↦
          simp (set, loaded, bulk)
            (let q' : Queue = record q {
              rows = release_claims true ds (claim_pending s.claim_text q.rows).0;
            } in
              let ran =
                process_all-settles s todo q' tame freed (λ n. omega (arith, few n, short))
                  (stray-claim s.claim_text ds (ids_of todo) q.rows idle
                    (covered b ds (ids_of todo) q.rows (λ n t. t) (λ n t. t))) in
              (ran.0, no_stray (process_all s todo q').0.rows ran.1))
    ]
