-- ===== src/Keep/PageTests.antt =====
-- A link that is clicked twice, and the theorem of the keep page applied to it.

use mediaman.Prelude.{
  Bool, [], contains, count_where, false, find, none, refl, some, string_key, true, update_where, ℕ,
  ◌∷◌, ◌≡◌, ◌≤◌,
}
use mediaman.Prelude.Dict.{lookup}
use mediaman.Scanner.Table.{scheduled_deletion, Action, MediaItem, Db, log_audit}
use mediaman.Keep.PageLaws.{count_kept, answer_visit-once}
use mediaman.Keep.Page.{
  finite_durations, lookup_verified_action, mark_token_consumed, consume_keep_token_and_apply,
  keep_verified, keep_submit, keep_forever, Visit, answer_visit,
}
use mediaman.Core.Time.{parse_iso_strict_utc, text_leb}
use mediaman.Core.TimeLaws.{one_code}
use mediaman.Keep.{apply_keep_snooze, apply_keep_forever, parse_execute_at, is_pending_unexpired}

abbrev linked : Action
linked = record {
  id = 7;
  media_item_id = "alien";
  action = scheduled_deletion;
  execute_at = some (one_code.isoformat 500);
  token_used = false;
  snoozed_at = none;
  snooze_duration = none;
  is_reentry = false;
  delete_status = none;
  token_hash = some "5e88";
}

abbrev alien : MediaItem
alien = record {
  item_id = "alien";
  library_id = 1;
  file_path = "/media/alien";
  file_size_bytes = none;
  radarr_id = none;
  sonarr_id = none;
  season_number = none;
}

abbrev one_link : Db
one_link = record {
  actions = linked ∷ [];
  items = alien ∷ [];
  kept_shows = [];
  audits = [];
  tokens_used = [];
}

abbrev click : Bool → ℕ → Visit
click for_ever now = record {
  forever = for_ever;
  arrived_at = now;
  request = record {
    within_limit = true;
    token_length = 80;
    hashed = "5e88";
    payload = some ("alien", 7);
    asked = "7 days";
  };
}

two_clicks : count_kept one_code "5e88" (click false 400 ∷ click true 401 ∷ []) one_link ≡ 1
unfolding count_kept answer_visit keep_submit keep_forever keep_verified lookup_verified_action
    consume_keep_token_and_apply mark_token_consumed finite_durations lookup find
    is_pending_unexpired parse_execute_at apply_keep_snooze apply_keep_forever one_code text_leb
    count_where update_where log_audit parse_iso_strict_utc
two_clicks = refl

answer_visit-once_example :
    let visits = click false 400 ∷ click true 401 ∷ [] in
    (count_kept one_code "5e88" visits one_link ≤ 1)
    × (contains one_link.tokens_used "5e88" ≡ true → count_kept one_code "5e88" visits one_link ≡ 0)
answer_visit-once_example =
    answer_visit-once one_code "5e88" (click false 400 ∷ click true 401 ∷ []) one_link
