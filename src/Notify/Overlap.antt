-- ===== src/Notify/Overlap.antt =====
-- Overlapping runs never hold or mail the same row twice.

use mediaman.Prelude.{
  Bool, Bool-cases, List, [], ap, arith, false, if◌then◌else◌, inl, inr, is_empty, ltb, nat_key,
  not, refl, select, suc, true, zero, ℕ, ◌&&◌, ◌+◌, ◌<◌, ◌==◌, ◌||◌, ◌∙◌, ◌∷◌, ◌≡◌, ◌≤◌, ◌⊎◌,
}
use mediaman.Notify.Steps.{
  proceeds, begins, proceed, restarts, Pending, Service, join_run, after_row, as_service,
  after_step, after_steps, in_hand, Step,
}
use mediaman.Core.Time.{Text}
use mediaman.Notify.Tick.{
  deferred, runnable, start, Mailgun, mailgun_client, no_mailgun, bad_sender, Surroundings, Queue,
  process_one, ids_of, begin_run,
}
use mediaman.Notify.Claims.{
  unclaimed, is_stranded, is_backed_off, Notice, is_queued, with_claim, claim_pending,
  release_claims, reconcile_stranded,
}
use mediaman.Notify.Flight.{
  open_row-reconcile_stranded, times-select_by, process_one-waits, waits-open_row, times_waiting,
  open_row-claim_pending, waits, waits-claim_pending, waits-release_claims, times-select-le,
  contains-times,
}
use mediaman.Notify.Once.{
  process_one-Mails, open_row-release_claims, times, open_row, ids_of-update_where,
  ids_of-release_claims, mailed_open,
}

-- Every write that marks a row as done succeeds.
abbrev pub Marks : Surroundings → Type 0
Marks s = (k : ℕ) → s.marks k ≡ true

abbrev pub AllMarked : List Step → Type 0
AllMarked [] = Unit
AllMarked (begins s ∷ steps) = Marks s × AllMarked steps
AllMarked (proceeds i ∷ steps) = AllMarked steps
AllMarked (restarts cutoff ∷ steps) = AllMarked steps

abbrev RunsMark : List Pending → Type 0
RunsMark [] = Unit
RunsMark (run ∷ runs) = Marks run.0 × RunsMark runs

-- What every step keeps, with how often the runs have a row of `n` in hand.
record IsFair (n : ℕ) (q : Queue) (held : ℕ) : Type 0 where
  unique : times n (ids_of q.rows) ≤ 1
  settled : mailed_open n q ≡ false
  once : times n q.mailed + held ≤ 1
  claimed : (ltb 0 held && waits n q.rows) ≡ false

Nat-cases : (n : ℕ) → (n ≡ 0) ⊎ (0 < n)
Nat-cases zero = inl refl
Nat-cases (suc n) = inr (omega arith)

-- The claim, the release of rows that waited, and the rows that a run takes.
taken-IsFair :
    (s : Surroundings) (ok : Bool) (n : ℕ) (ids : List ℕ) (todo : List Notice) (q : Queue)
    (held : ℕ)
    → IsFair n q held
    → times n ids + times n (ids_of todo)
      ≤ times n (ids_of (select (λ r. is_queued r.notified) q.rows))
    → IsFair n
        (record q { rows = release_claims ok ids (claim_pending s.claim_text q.rows).0 })
        (times n (ids_of todo) + held)
taken-IsFair s ok n ids todo q held h few =
    let claimed = (claim_pending s.claim_text q.rows).0 in
    let rows' = release_claims ok ids claimed in
    let same : ids_of rows' ≡ ids_of q.rows =
      ids_of-release_claims ok ids claimed
      ∙ unfold claim_pending in
        ids_of-update_where (λ r. is_queued r.notified) (with_claim s.claim_text) q.rows
          (λ r. refl) in
    let queued_few = times-select-le n (λ r. is_queued r.notified) q.rows in
    let free : times n ids ≡ 0 → waits n rows' ≡ false = λ t.
      waits-release_claims ok n ids claimed (contains-times n ids t)
      ∙ waits-claim_pending n s.claim_text q.rows in
    elim (Bool-cases (waits n q.rows)) [
      | inr idle ↦
          let none_waits = times_waiting n q.rows idle in
          let none_freed : times n ids ≡ 0 = omega (arith, few, none_waits) in
          let as_before : open_row n rows' ≡ open_row n q.rows =
            open_row-release_claims ok n ids claimed (contains-times n ids none_freed)
            ∙ open_row-claim_pending n s.claim_text q.rows in
          record {
            unique = rw same h.unique;
            settled = rw as_before h.settled;
            once = omega (arith, h.once, few, none_waits);
            claimed = ground (arith, free none_freed);
          }
      | inl busy ↦
          let is_open = waits-open_row n q.rows busy in
          let unmailed : times n q.mailed ≡ 0 = ground (arith, h.settled, is_open) in
          let alone : held ≡ 0 = ground (arith, h.claimed, busy) in
          record {
            unique = rw same h.unique;
            settled = ground (arith, unmailed);
            once = omega (arith, unmailed, alone, few, queued_few, h.unique);
            claimed = elim (Nat-cases (times n (ids_of todo))) [
              | inl untaken ↦ ground (arith, untaken, alone)
              | inr taken ↦ ground (arith, free (omega (arith, few, queued_few, h.unique, taken)))
            ];
          }
    ]

-- A run that begins has its rows in hand, or none where it does not come to its loop.
joined-IsFair :
    (n : ℕ) (q : Queue) (todo : List Notice) (held : ℕ) (b : Bool)
    → IsFair n q (times n (ids_of todo) + held)
    → IsFair n q ((if b then times n (ids_of todo) else 0) + held)
joined-IsFair n q todo held true h = h
joined-IsFair n q todo held false h = record {
  unique = h.unique;
  settled = h.settled;
  once = omega (arith, h.once);
  claimed = ground (arith, h.claimed);
}

-- No row is both released and taken.
times-parted :
    (s : Surroundings) (n : ℕ) (q : Queue) (rows : List Notice)
    → times n (ids_of (deferred s q rows)) + times n (ids_of (runnable s q rows))
      ≤ times n (ids_of rows)
times-parted s n q rows =
    let b : ℕ → Bool = λ k. is_backed_off q.retries k s.now in
    elim (Bool-cases (b n)) [
      | inl held ↦
          let none_runs = times-select_by n (λ k. not (b k)) rows (ground (arith, held)) in
          omega (arith, none_runs, times-select-le n (λ r. b r.notice_id) rows)
      | inr free ↦
          let none_held = times-select_by n b rows free in
          omega (arith, none_held, times-select-le n (λ r. not (b r.notice_id)) rows)
    ]

start-IsFair :
    (s : Surroundings) (n : ℕ) (q : Queue) (held : ℕ) (m : Mailgun)
    → IsFair n q held
    → let (q', todo, goes_on) = start s q (claim_pending s.claim_text q.rows) m in
      IsFair n q' ((if goes_on then times n (ids_of todo) else 0) + held)
unfolding claim_pending release_claims
start-IsFair s n q held no_mailgun h =
    taken-IsFair s s.bulk_releases n (ids_of (select (λ r. is_queued r.notified) q.rows)) [] q held
      h (omega arith)
start-IsFair s n q held bad_sender h =
    joined-IsFair n q' [] held (is_empty (select (λ r. is_queued r.notified) q.rows))
      (taken-IsFair s false n [] [] q held h (omega arith))
  where
    q' : Queue
    q' = record q { rows = (claim_pending s.claim_text q.rows).0 }
start-IsFair s n q held mailgun_client h =
    let queued_rows = select (λ r. is_queued r.notified) q.rows in
    let todo = if s.loads then runnable s q queued_rows else [] in
    let parted = times-parted s n q queued_rows in
    let few : times n (ids_of (deferred s q queued_rows)) + times n (ids_of todo)
        ≤ times n (ids_of queued_rows) =
      elim (Bool-cases s.loads) [
        | inl up ↦ simp up parted
        | inr down ↦ simp down (omega (arith, parted))
      ] in
    joined-IsFair n _ todo held (s.loads || is_empty (runnable s q queued_rows))
      (taken-IsFair s s.bulk_releases n (ids_of (deferred s q queued_rows)) todo q held h few)

-- The runs keep what is known of each.
abbrev HasHand : ℕ → ℕ → Service → Type 0
HasHand n e v = IsFair n v.queue (e + in_hand n v.runs) × RunsMark v.runs

fewer-IsFair :
    (n : ℕ) (q : Queue) (held held' : ℕ) → held' ≤ held → IsFair n q held → IsFair n q held'
fewer-IsFair n q held held' few h = record {
  unique = h.unique;
  settled = h.settled;
  once = omega (arith, h.once, few);
  claimed = ground (arith, h.claimed, few);
}

join_run-HasHand :
    (s : Surroundings) (n : ℕ) (runs : List Pending) (q : Queue) (todo : List Notice) (b : Bool)
    → Marks s
    → RunsMark runs
    → IsFair n q ((if b then times n (ids_of todo) else 0) + in_hand n runs)
    → HasHand n 0 (join_run s runs (q, todo, b))
unfolding in_hand
join_run-HasHand s n runs q todo true marks all h =
    (fewer-IsFair n q _ _ (omega arith) h, (marks, all))
join_run-HasHand s n runs q todo false marks all h = (fewer-IsFair n q _ _ (omega arith) h, all)

begins-HasHand :
    (s : Surroundings) (n : ℕ) (v : Service)
    → Marks s
    → HasHand n 0 v
    → HasHand n 0 (after_step (begins s) v)
unfolding after_step begin_run
begins-HasHand s n v marks h =
    let begun = start s v.queue (claim_pending s.claim_text v.queue.rows) s.mailgun in
    join_run-HasHand s n v.runs begun.0 begun.1 begun.2 marks h.1 (
      start-IsFair s n v.queue (in_hand n v.runs) s.mailgun
        (fewer-IsFair n v.queue _ _ (omega arith) h.0))

-- The head of a run is processed, whether the run goes on or not.
row-IsFair :
    (n : ℕ) (s : Surroundings) (r : Notice) (q : Queue) (held : ℕ)
    → Marks s
    → IsFair n q ((if r.notice_id == n then 1 else 0) + held)
    → IsFair n (process_one s r q).0 held
row-IsFair n s r q held marks h =
    let mailed = process_one-Mails s n r q (marks r.notice_id) h.settled (ground (arith, h.once)) in
    record {
      unique = rw mailed.0 h.unique;
      settled = mailed.1;
      once = omega (arith, mailed.2, h.once);
      claimed = elim (Bool-cases (r.notice_id == n)) [
        | inl same ↦ ground (arith, same, h.once)
        | inr other ↦ ground (arith, h.claimed, process_one-waits s n r q other, other)
      ];
    }

after_row-HasHand :
    (n e : ℕ) (s : Surroundings) (todo : List Notice) (runs : List Pending) (q : Queue) (b : Bool)
    → Marks s
    → RunsMark runs
    → IsFair n q (e + (times n (ids_of todo) + in_hand n runs))
    → HasHand n e (as_service (after_row s todo runs (q, b)))
unfolding in_hand
after_row-HasHand n e s todo runs q true marks all h = (h, (marks, all))
after_row-HasHand n e s todo runs q false marks all h = (fewer-IsFair n q _ _ (omega arith) h, all)

proceed-HasHand :
    (n e i : ℕ) (q : Queue) (runs : List Pending)
    → HasHand n e (as_service (q, runs))
    → HasHand n e (as_service (proceed i q runs))
unfolding proceed in_hand
proceed-HasHand n e i q [] h = h
proceed-HasHand n e zero q ((s, []) ∷ runs) h = (fewer-IsFair n q _ _ (omega arith) h.0, h.1.1)
proceed-HasHand n e zero q ((s, r ∷ todo) ∷ runs) h =
    after_row-HasHand n e s todo runs (process_one s r q).0 (process_one s r q).1 h.1.0 h.1.1
      (row-IsFair n s r q _ h.1.0 (fewer-IsFair n q _ _ (omega arith) h.0))
proceed-HasHand n e (suc i) q ((s, todo) ∷ runs) h =
    let rest =
      proceed-HasHand n (e + times n (ids_of todo)) i q runs
        (fewer-IsFair n q _ _ (omega arith) h.0, h.1.1) in
    (fewer-IsFair n _ _ _ (omega arith) rest.0, (h.1.0, rest.1))

restarts-HasHand :
    (n : ℕ) (cutoff : Text) (v : Service)
    → HasHand n 0 v
    → HasHand n 0 (after_step (restarts cutoff) v)
unfolding after_step in_hand
restarts-HasHand n cutoff v h =
    let same : ids_of (reconcile_stranded cutoff v.queue.rows).0 ≡ ids_of v.queue.rows =
      unfold reconcile_stranded in
      ids_of-update_where (is_stranded cutoff) unclaimed v.queue.rows (λ r. refl) in
    (
      record {
        unique = rw same h.0.unique;
        settled = ground (arith, h.0.settled, open_row-reconcile_stranded n cutoff v.queue.rows);
        once = omega (arith, h.0.once);
        claimed = refl;
      },
      tt,
    )

after_steps-HasHand :
    (n : ℕ) (steps : List Step) (v : Service)
    → AllMarked steps
    → HasHand n 0 v
    → HasHand n 0 (after_steps steps v)
unfolding after_steps
after_steps-HasHand n [] v marked h = h
after_steps-HasHand n (begins s ∷ steps) v marked h =
    after_steps-HasHand n steps (after_step (begins s) v) marked.1 (begins-HasHand s n v marked.0 h)
after_steps-HasHand n (proceeds i ∷ steps) v marked h =
    after_steps-HasHand n steps (after_step (proceeds i) v) marked
      (unfold after_step in proceed-HasHand n 0 i v.queue v.runs h)
after_steps-HasHand n (restarts cutoff ∷ steps) v marked h =
    after_steps-HasHand n steps (after_step (restarts cutoff) v) marked
      (restarts-HasHand n cutoff v h)

-- Where no two rows of the table share an id, no mail was sent yet and no run is under way: after any
-- steps of any number of overlapping runs, and restarts between the steps, in any order, a row is in
-- hand of one run at most, and was mailed for once at most; never both; as long as every write that
-- marks a row as done succeeds. Whether releases are written, mails get through, answers are malformed
-- and runs are ended by an exception does not matter.
pub after_steps-once :
    (n : ℕ) (steps : List Step) (q : Queue)
    → AllMarked steps
    → times n (ids_of q.rows) ≤ 1
    → q.mailed ≡ []
    → let v = after_steps steps (record { queue = q; runs = [] }) in
      times n v.queue.mailed + in_hand n v.runs ≤ 1
unfolding in_hand
after_steps-once n steps q marked unique fresh =
    let none_yet : times n q.mailed ≡ 0 = ap (times n) fresh in
    let hand =
      after_steps-HasHand n steps (record { queue = q; runs = [] }) marked
        (
          record {
            unique = unique;
            settled = ground (arith, none_yet);
            once = omega (arith, none_yet);
            claimed = refl;
          },
          tt,
        ) in
    omega (arith, hand.0.once)
