-- ===== src/Scanner/Tests.antt =====
-- Runs of the deletion pass on a small disk, and the theorems of the scanner applied to them.

use mediaman.Prelude.{
  List, Option, String, [], any, arith, contains, count_where, delete_where, false, find,
  if◌then◌else◌, inl, is_empty, is_some, map, none, refl, some, string_key, true, update_where, ℕ,
  ◌&&◌, ◌*◌, ◌+◌, ◌==◌, ◌||◌, ◌∷◌, ◌≡◌,
}
use mediaman.Scanner.EligibilityLaws.{all_quiet, evaluate_item-all_quiet}
use mediaman.Scanner.Eligibility.{day, days_since_reach, evaluate_item}
use mediaman.Scanner.Recovery.{recover_stuck_deletions_complete}
use mediaman.Scanner.Crash.{crash_recovers}
use mediaman.Scanner.Pass.{deletions_in, bytes_in, execute-Credits}
use mediaman.Scanner.Batches.{contains-fetch_guards}
use mediaman.Scanner.Protection.{
  is_protected, is_already_scheduled, fetch_protected_media_ids, fetch_already_scheduled_media_ids,
  cleanup_expired_snoozes,
}
use mediaman.Scanner.Deletion.{
  sweep, unmonitor, settle, credit_deletion, recover_row, recover_rows, recover_stuck_deletions,
  delete_file_on_disk, commit_deletion, mark_intent, unmonitor_arr, delete_one, delete_rows,
  execute_live, refused, movie, missing, removed, execute, DeleteOutcome, Storage, World, Executor,
}
use mediaman.Scanner.Table.{
  pending, log_audit, find_item, stuck_rows, fetch_stuck_deletions, pending_rows,
  fetch_pending_deletions, mark_delete_status, delete_scheduled_action, snoozed, deleting,
  ActionKind, scheduled_deletion, protected_forever, DeleteStatus, Action, MediaItem, Db,
  DeletionRow, deletion_row,
}
use mediaman.Core.Time.{text_leb, Text}

-- A storage that deletes the files named among the roots.
abbrev disk_delete : String → List String → List String → DeleteOutcome × List String
disk_delete p roots files =
    if contains roots p
    then (if contains files p
        then (removed, delete_where (λ f. f == p) files)
        else (missing, files))
    else (refused, files)

abbrev disk : Storage
disk = record { path_within_delete_roots = λ p roots. contains roots p; delete_path = disk_delete }

abbrev live : Executor
live = record {
  storage = disk;
  dry_run = false;
  cleanup_snoozes = true;
  has_radarr = true;
  has_sonarr = true;
  allowed_roots = "/m/alien" ∷ "/m/brazil" ∷ [];
  blank = λ p. p == "";
}

abbrev row_of_action : ℕ → String → ActionKind → Option DeleteStatus → Action
row_of_action id m kind status = record {
  id = id;
  media_item_id = m;
  action = kind;
  execute_at = some (b'2' ∷ []);
  token_used = false;
  snoozed_at = none;
  snooze_duration = none;
  is_reentry = false;
  delete_status = status;
  token_hash = none;
}

abbrev item : String → String → MediaItem
item m path = record {
  item_id = m;
  library_id = 1;
  file_path = path;
  file_size_bytes = some 700;
  radarr_id = some 4;
  sonarr_id = none;
  season_number = none;
}

abbrev db : Db
db = record {
  actions =
      row_of_action 1 "alien" scheduled_deletion none
      ∷ row_of_action 2 "brazil" scheduled_deletion (some deleting)
      ∷ row_of_action 3 "casino" protected_forever none
      ∷ [];
  items = item "alien" "/m/alien" ∷ item "brazil" "/m/brazil" ∷ item "casino" "/m/casino" ∷ [];
  kept_shows =
      (record { show_rating_key = "90"; kept_action = snoozed; kept_until = some (b'1' ∷ []) })
      ∷ (record { show_rating_key = "91"; kept_action = protected_forever; kept_until = none })
      ∷ [];
  audits = [];
  tokens_used = [];
}

-- Brazil was being deleted when the process died, and is gone from the disk.
abbrev world : World
world = record { db = db; files = "/m/alien" ∷ "/m/casino" ∷ []; calls = [] }

abbrev now : Text
now = b'3' ∷ []

abbrev alien : DeletionRow
alien =
    deletion_row (row_of_action 1 "alien" scheduled_deletion none) (some (item "alien" "/m/alien"))

-- The pass recovers Brazil, deletes Alien, and leaves what is protected.
world_executed :
    let (w', result) = execute live now world in
    (w'.files ≡ "/m/casino" ∷ [])
    × (w'.calls ≡ movie 4 ∷ [])
    × (result.deleted_count ≡ 1)
    × (map (λ a. a.audited_id) w'.db.audits ≡ "brazil" ∷ "alien" ∷ [])
    × (map (λ a. a.id) w'.db.actions ≡ 3 ∷ [])
unfolding execute execute_live delete_rows delete_one mark_intent delete_file_on_disk settle
    commit_deletion credit_deletion unmonitor unmonitor_arr recover_stuck_deletions recover_rows
    recover_row fetch_stuck_deletions stuck_rows fetch_pending_deletions pending_rows find_item
    deletion_row mark_delete_status delete_scheduled_action log_audit sweep cleanup_expired_snoozes
    update_where delete_where text_leb find
world_executed = (refl, refl, refl, refl, refl)

-- No other deletion is under way.
abbrev calm_world : World
calm_world = record world {
  db = record db { actions = row_of_action 1 "alien" scheduled_deletion none ∷ [] };
}

crash_recovers_example :
    let w1 = recover_stuck_deletions disk live.allowed_roots (mark_intent alien calm_world) in
    let crashed =
      (delete_file_on_disk disk live.allowed_roots alien (mark_intent alien calm_world)).0 in
    let w2 = recover_stuck_deletions disk live.allowed_roots crashed in
    let done = (delete_one live alien calm_world).0 in
    (w1 ≡ record calm_world { db = mark_delete_status calm_world.db 1 pending })
    × (w2.db ≡ done.db)
    × (w2.files ≡ done.files)
    × (done.db ≡ credit_deletion calm_world.db alien)
    × (done.files ≡ "/m/casino" ∷ [])
    × ((delete_one live alien calm_world).1 ≡ true)
unfolding deletion_row delete_where fetch_pending_deletions pending_rows fetch_stuck_deletions
    stuck_rows find_item find count_where text_leb
crash_recovers_example =
    crash_recovers live now alien calm_world ("/m/casino" ∷ []) (inl refl) refl (omega arith) refl
      refl refl refl refl

recover_stuck_deletions_complete_example :
    let w' = recover_stuck_deletions disk live.allowed_roots world in
    (fetch_stuck_deletions w'.db ≡ [])
    × (w'.files ≡ world.files)
    × (recover_stuck_deletions disk live.allowed_roots w' ≡ w')
recover_stuck_deletions_complete_example =
    recover_stuck_deletions_complete disk live.allowed_roots world

contains-fetch_guards_example :
    (contains (fetch_protected_media_ids db ("casino" ∷ "alien" ∷ []) now) "casino"
      ≡ (contains {A = String} ("casino" ∷ "alien" ∷ []) "casino" && is_protected db now "casino"))
    × (contains (fetch_already_scheduled_media_ids db ("casino" ∷ "alien" ∷ [])) "casino" ≡ (
        contains {A = String} ("casino" ∷ "alien" ∷ []) "casino"
        && is_already_scheduled db "casino"))
contains-fetch_guards_example = contains-fetch_guards db ("casino" ∷ "alien" ∷ []) now "casino"

execute-Credits_example :
    let recovered = recover_stuck_deletions disk live.allowed_roots world in
    let (w', result) = execute live now world in
    (deletions_in w'.db.audits ≡ deletions_in recovered.db.audits + result.deleted_count)
    × (bytes_in w'.db.audits ≡ bytes_in recovered.db.audits + result.reclaimed_bytes)
execute-Credits_example = execute-Credits live now world refl

-- Added a hundred days before, watched forty days before.
evaluate_item-all_quiet_example :
    evaluate_item (100 * day) 0 (some (60 * day) ∷ none ∷ []) 30 30 ≡ (
      days_since_reach (100 * day) 0 30
      && (is_empty {A = Option ℕ} (some (60 * day) ∷ none ∷ [])
          || any {A = Option ℕ} is_some (some (60 * day) ∷ none ∷ [])
            && all_quiet (100 * day) 30 (some (60 * day) ∷ none ∷ [])))
evaluate_item-all_quiet_example =
    evaluate_item-all_quiet (100 * day) 0 (some (60 * day) ∷ none ∷ []) 30 30
