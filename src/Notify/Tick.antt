-- ===== src/Notify/Tick.antt =====
-- src/mediaman/services/downloads/notifications.py: one run of `check_download_notifications`.

use mediaman.Prelude.{
  Bool, List, Option, [], false, if◌then◌else◌, is_empty, map, nat_key, none, not, select, some,
  true, update_where, ℕ, ◌==◌, ◌||◌, ◌∷◌,
}
use mediaman.Core.Time.{Text}
use mediaman.Notify.Claims.{
  done_row, Notice, claim_pending, release_claims, BackoffState, is_backed_off, record_arr_failure,
  record_poll_attempt, clear_backoff,
}
use mediaman.Notify.Probe.{
  Arrs, Availability, arr_unreachable, no_such_service, is_ready, check_service,
}

-- What `MailgunClient.send` comes to: it returns, raises what the handler of the row catches, or
-- raises the `ValueError` of a recipient or a subject that it refuses, which nothing catches.
pub data Posting : Type 0 where
  mail_sent mail_refused mail_invalid : Posting

-- What `_build_mailgun_client` comes to: no client where a setting is empty, or the `ValueError` of a
-- sender that the client refuses.
pub data Mailgun : Type 0 where
  mailgun_client no_mailgun bad_sender : Mailgun

-- What the run meets, by the id of a row: what its mail comes to, whether an answer of Radarr or Sonarr
-- about it has a form that raises what nothing catches, and whether the write that marks the row as
-- done, and the one that releases it, succeed; whether the bulk releases do; what becomes of the
-- client of Mailgun; and whether what is loaded for all rows before the loop is loaded, or raises.
pub record Surroundings : Type 0 where
  pub arrs : Arrs
  pub mailgun : Mailgun
  pub sends : ℕ → Posting
  pub malformed : ℕ → Bool
  pub marks : ℕ → Bool
  pub releases : ℕ → Bool
  pub bulk_releases : Bool
  pub loads : Bool
  pub claim_text : Text
  pub now : ℕ

-- The table, the memory of retries, and the rows whose mail was sent, the first one last.
pub record Queue : Type 0 where
  pub rows : List Notice
  pub retries : BackoffState
  pub mailed : List ℕ

-- `UPDATE download_notifications SET notified=1 WHERE id=?`
abbrev pub set_done : ℕ → List Notice → List Notice
set_done row_id rows =
    update_where (λ r. r.notice_id == row_id) (λ r. record r { notified = done_row }) rows

abbrev pub release_row : Surroundings → ℕ → Queue → Queue
release_row s row_id q = record q { rows = release_claims (s.releases row_id) (row_id ∷ []) q.rows }

abbrev pub with_retries : Surroundings → ℕ → Queue → Option BackoffState → Queue × Bool
with_retries s row_id q none = (q, false)
with_retries s row_id q (some state) = (release_row s row_id (record q { retries = state }), true)

-- `_record_arr_failure` and `_release_claim`; `false` where the first raises.
unfoldable pub fail_row : Surroundings → ℕ → Queue → Queue × Bool
fail_row s row_id q = with_retries s row_id q (record_arr_failure q.retries row_id s.now)

abbrev pub after_mail : Surroundings → ℕ → Queue → Posting → Queue × Bool
after_mail s row_id q mail_refused = fail_row s row_id q
after_mail s row_id q mail_invalid = (q, false)
after_mail s row_id q mail_sent =
    let posted = record q { mailed = row_id ∷ q.mailed } in
    let marked : Queue = record posted {
      rows = set_done row_id q.rows;
      retries = clear_backoff q.retries row_id;
    } in
    if s.marks row_id then (marked, true) else fail_row s row_id posted

-- The mail of a row that is ready, and the mark after it.
unfoldable pub mail_row : Surroundings → ℕ → Queue → Queue × Bool
mail_row s row_id q = after_mail s row_id q (s.sends row_id)

unfoldable pub act_on_probe : Surroundings → ℕ → Queue → Availability → Queue × Bool
act_on_probe s row_id q arr_unreachable = fail_row s row_id q
act_on_probe s row_id q no_such_service =
    if s.marks row_id
    then (record q { rows = set_done row_id q.rows }, true)
    else fail_row s row_id q
act_on_probe s row_id q (is_ready false) =
    (release_row s row_id (record q { retries = record_poll_attempt q.retries row_id s.now }), true)
act_on_probe s row_id q (is_ready true) = mail_row s row_id q

-- `_process_one_notification`, and whether it returns.
unfoldable pub process_one : Surroundings → Notice → Queue → Queue × Bool
process_one s r q =
    let handled = act_on_probe s r.notice_id q (check_service s.arrs r r.arr_service) in
    if s.malformed r.notice_id then (q, false) else handled

-- The loop over the runnable rows, which an exception that is not caught ends.
unfoldable pub process_all : Surroundings → List Notice → Queue → Queue × Bool
process_all s [] q = (q, true)
process_all s (r ∷ runnable) q =
    let first = process_one s r q in
    let rest = process_all s runnable first.0 in if first.1 then rest else first

abbrev pub ids_of : List Notice → List ℕ
ids_of rows = map (λ (r : Notice). r.notice_id) rows

-- `_partition_runnable`: the rows that are not backed off; the others are released.
abbrev pub deferred : Surroundings → Queue → List Notice → List Notice
deferred s q queued_rows = select (λ r. is_backed_off q.retries r.notice_id s.now) queued_rows

abbrev pub runnable : Surroundings → Queue → List Notice → List Notice
runnable s q queued_rows = select (λ r. not (is_backed_off q.retries r.notice_id s.now)) queued_rows

abbrev pub start :
    Surroundings → Queue → List Notice × List Notice → Mailgun → Queue × List Notice × Bool
start s q (claimed, queued_rows) no_mailgun =
    (record q { rows = release_claims s.bulk_releases (ids_of queued_rows) claimed }, [], true)
start s q (claimed, queued_rows) bad_sender =
    (record q { rows = claimed }, [], is_empty queued_rows)
start s q (claimed, queued_rows) mailgun_client = (
  record q { rows = release_claims s.bulk_releases (ids_of (deferred s q queued_rows)) claimed },
  if s.loads then runnable s q queued_rows else [],
  s.loads || is_empty (runnable s q queued_rows),
)

-- `check_download_notifications` before its loop: the claim, and the release of what this run does not
-- process; the rows to process; and whether it comes to the loop or the end.
unfoldable pub begin_run : Surroundings → Queue → Queue × List Notice × Bool
begin_run s q = start s q (claim_pending s.claim_text q.rows) s.mailgun

-- `check_download_notifications`, and whether it returns.
unfoldable pub check_notifications : Surroundings → Queue → Queue × Bool
check_notifications s q =
    let (begun, todo, goes_on) = begin_run s q in
    let run = process_all s todo begun in if goes_on then run else (begun, false)
