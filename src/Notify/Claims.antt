-- ===== src/Notify/Claims.antt =====
-- src/mediaman/services/downloads/_notification_claims.py and _notification_backoff.py: the rows of
-- `download_notifications`, their claims, and when a row is tried again.

use mediaman.Prelude.{
  Bool, List, Option, [], contains, count_where, false, if◌then◌else◌, inl, inr, is_some, ltb,
  nat_key, none, not, select, some, true, update_where, ℕ, ◌&&◌, ◌++◌, ◌+◌, ◌||◌, ◌∷◌,
}
use mediaman.Prelude.Dict.{erase, insert, lookup, Dict}
use mediaman.Core.Time.{Text, sql_lt}
use mediaman.Search.Backoff.{delay, finite, ExponentialBackoff, Result}

-- `notified`: 0, 2 and 1.
pub data Notified : Type 0 where
  queued_row claimed_row done_row : Notified

pub data ArrService : Type 0 where
  radarr_service sonarr_service unknown_service : ArrService

-- A row; what only the mail shows is left out.
pub record Notice : Type 0 where
  pub notice_id : ℕ
  pub arr_service : ArrService
  pub notice_tmdb : Option ℕ
  pub notice_tvdb : Option ℕ
  pub notified : Notified
  pub claimed_at : Option Text

abbrev pub is_queued : Notified → Bool
is_queued queued_row = true
is_queued claimed_row = false
is_queued done_row = false

abbrev pub is_claimed : Notified → Bool
is_claimed queued_row = false
is_claimed claimed_row = true
is_claimed done_row = false

abbrev pub is_done : Notified → Bool
is_done queued_row = false
is_done claimed_row = false
is_done done_row = true

abbrev pub with_claim : Text → Notice → Notice
with_claim stamp r = record r { notified = claimed_row; claimed_at = some stamp }

abbrev pub unclaimed : Notice → Notice
unclaimed r = record r { notified = queued_row; claimed_at = none }

-- `_claim_pending_notifications`: the table, and the rows that were claimed.
unfoldable pub claim_pending : Text → List Notice → List Notice × List Notice
claim_pending stamp rows = (
  update_where (λ r. is_queued r.notified) (with_claim stamp) rows,
  select (λ r. is_queued r.notified) rows,
)

-- `_release_claim` and `_release_claims_bulk`, with whether the write succeeds; one that fails is
-- only logged.
unfoldable pub release_claims : Bool → List ℕ → List Notice → List Notice
release_claims succeeds ids rows =
    if succeeds then update_where (λ r. contains ids r.notice_id) unclaimed rows else rows

-- A claim that `reconcile_stranded_notifications` resets.
abbrev pub is_stranded : Text → Notice → Bool
is_stranded cutoff r =
    is_claimed r.notified && (not (is_some r.claimed_at) || sql_lt r.claimed_at cutoff)

unfoldable pub reconcile_stranded : Text → List Notice → List Notice × ℕ
reconcile_stranded cutoff rows =
    (update_where (is_stranded cutoff) unclaimed rows, count_where (is_stranded cutoff) rows)

-- `_backoff_state`: the failures of a row, and when it is tried again, in microseconds.
abbrev pub BackoffState : Type 0
BackoffState = Dict ℕ (ℕ × ℕ)

abbrev pub notify_backoff : ExponentialBackoff
notify_backoff = record { base = 60; max_seconds = 1800; jitter = finite 0 }

-- `_is_backed_off`
abbrev pub waits_until : ℕ → Option (ℕ × ℕ) → Bool
waits_until now none = false
waits_until now (some (n, next_retry)) = ltb now next_retry

unfoldable pub is_backed_off : BackoffState → ℕ → ℕ → Bool
is_backed_off state row_id now = waits_until now (lookup row_id state)

abbrev pub failures_of : Option (ℕ × ℕ) → ℕ
failures_of none = 0
failures_of (some (n, next_retry)) = n

abbrev pub failure_delay : Result (Option ℕ) → Option ℕ
failure_delay (inl raised) = none
failure_delay (inr micros) = micros

abbrev pub record_delay : BackoffState → ℕ → ℕ → ℕ → Option ℕ → Option BackoffState
record_delay state row_id now attempts none = none
record_delay state row_id now attempts (some micros) =
    some (insert row_id (attempts, now + micros) state)

-- `_record_arr_failure`; `none` is the `OverflowError` of the delay.
unfoldable pub record_arr_failure : BackoffState → ℕ → ℕ → Option BackoffState
record_arr_failure state row_id now =
    let attempts = failures_of (lookup row_id state) + 1 in
    record_delay state row_id now attempts
      (failure_delay (delay (λ seed j. 0) notify_backoff attempts none))

abbrev pub poll_interval : ℕ
poll_interval = 60000000

-- `_record_poll_attempt`
unfoldable pub record_poll_attempt : BackoffState → ℕ → ℕ → BackoffState
record_poll_attempt state row_id now =
    insert row_id (failures_of (lookup row_id state), now + poll_interval) state

-- `_clear_backoff`
unfoldable pub clear_backoff : BackoffState → ℕ → BackoffState
clear_backoff state row_id = erase row_id state

-- `record_download_notification`: a row that waits, with the id that the table gives out.
unfoldable pub record_download_notification :
    ℕ → ArrService → Option ℕ → Option ℕ → List Notice → List Notice
record_download_notification row_id service tmdb_id tvdb_id rows =
    rows
    ++ (record {
      notice_id = row_id;
      arr_service = service;
      notice_tmdb = tmdb_id;
      notice_tvdb = tvdb_id;
      notified = queued_row;
      claimed_at = none;
    })
      ∷ []
