-- ===== src/Notify/Tests.antt =====
-- Two waiting rows and one whose Radarr cannot be reached, and the theorems of the notifications
-- applied to them.

use mediaman.Prelude.{
  List, Option, [], any, arith, contains, false, inl, nat_key, none, refl, select, some, true,
  update_where, ℕ, ◌+◌, ◌∷◌, ◌≡◌, ◌≤◌,
}
use mediaman.Core.Time.{text_leb}
use mediaman.Notify.Steps.{
  restarts, proceeds, begins, proceed, after_step, after_steps, in_hand, Step,
}
use mediaman.Notify.Laws.{IsTame}
use mediaman.Notify.Overlap.{after_steps-once}
use mediaman.Notify.Arrival.{check_notifications-mails}
use mediaman.Notify.Once.{times}
use mediaman.Prelude.Dict.{erase, insert, lookup}
use mediaman.Notify.Tick.{
  mail_sent, mailgun_client, begin_run, Surroundings, Queue, fail_row, mail_row, act_on_probe,
  process_one, check_notifications,
}
use mediaman.Notify.Settle.{check_notifications-settles}
use mediaman.Notify.Claims.{
  queued_row, radarr_service, Notice, is_claimed, claim_pending, release_claims, reconcile_stranded,
  is_backed_off, record_arr_failure, record_poll_attempt, clear_backoff,
}
use mediaman.Notify.Probe.{Arrs, check_radarr_movie, check_service}

abbrev waiting : ℕ → Option ℕ → Notice
waiting n id = record {
  notice_id = n;
  arr_service = radarr_service;
  notice_tmdb = id;
  notice_tvdb = none;
  notified = queued_row;
  claimed_at = none;
}

abbrev two_movies : Arrs
two_movies = record {
  has_radarr_client = true;
  has_sonarr_client = false;
  radarr_index = some ((603, true) ∷ (604, false) ∷ []);
  sonarr_index = none;
  get_movie = λ n. none;
  get_series = λ n. none;
}

abbrev good_day : Surroundings
good_day = record {
  arrs = two_movies;
  mailgun = mailgun_client;
  sends = λ n. mail_sent;
  malformed = λ n. false;
  marks = λ n. true;
  releases = λ n. true;
  bulk_releases = true;
  loads = true;
  claim_text = 5 ∷ [];
  now = 1000;
}

abbrev small_queue : Queue
small_queue = record {
  rows = waiting 1 (some 603) ∷ waiting 2 (some 604) ∷ waiting 3 none ∷ [];
  retries = [];
  mailed = [];
}

-- Two runs overlap and the process restarts.
abbrev overlap : List Step
overlap =
    begins good_day
    ∷ begins (record good_day { now = 2000 })
    ∷ proceeds 1
    ∷ proceeds 0
    ∷ restarts (9 ∷ [])
    ∷ begins (record good_day { now = 100000000 })
    ∷ proceeds 0
    ∷ []

overlap_run :
    (after_steps overlap (record { queue = small_queue; runs = [] })).queue.mailed ≡ 1 ∷ []
unfolding after_steps after_step begin_run claim_pending proceed process_one release_claims
    check_service check_radarr_movie lookup act_on_probe mail_row fail_row record_arr_failure
    record_poll_attempt clear_backoff is_backed_off select update_where insert erase
    reconcile_stranded text_leb
overlap_run = refl

good_day-IsTame : IsTame good_day
good_day-IsTame = record { valid = λ n e. cc e; formed = λ n. refl }

check_notifications-settles_example :
    let run = check_notifications good_day small_queue in
    (run.1 ≡ true) × (any (λ r. is_claimed r.notified) run.0.rows ≡ false)
check_notifications-settles_example =
    check_notifications-settles good_day small_queue refl (λ e. cc e) refl good_day-IsTame refl
      (λ n. refl) (λ n. unfold lookup in omega arith)

after_steps-once_example :
    let v = after_steps overlap (record { queue = small_queue; runs = [] }) in
    times 1 v.queue.mailed + in_hand 1 v.runs ≤ 1
after_steps-once_example =
    after_steps-once 1 overlap small_queue (λ k. refl, (λ k. refl, (λ k. refl, tt))) (omega arith)
      refl

check_notifications-mails_example :
    contains (check_notifications good_day small_queue).0.mailed 1 ≡ true
check_notifications-mails_example =
    check_notifications-mails good_day small_queue (waiting 1 (some 603)) refl refl good_day-IsTame
      (λ n. refl) (λ n. unfold lookup in omega arith) (inl refl) refl
      (unfold is_backed_off lookup in refl)
      (unfold check_service check_radarr_movie lookup in refl, refl)
