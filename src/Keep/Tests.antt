-- ===== src/Keep/Tests.antt =====
-- The theorems on keeps applied to one action.

use mediaman.Prelude.{[], arith, count_where, false, none, refl, some, update_where, ◌∷◌, ◌≡◌}
use mediaman.Keep.Laws.{is_due-is_keepable}
use mediaman.Core.Time.{text_leb}
use mediaman.Core.TimeLaws.{one_code, one_code-IsIso}
use mediaman.Keep.{is_keepable, apply_keep_snooze}
use mediaman.Scanner.Table.{scheduled_deletion, Action, Db}

abbrev soon : Action
soon = record {
  id = 7;
  media_item_id = "alien";
  action = scheduled_deletion;
  execute_at = some (one_code.isoformat 500);
  token_used = false;
  snoozed_at = none;
  snooze_duration = none;
  is_reentry = false;
  delete_status = none;
  token_hash = none;
}

abbrev one_action : Db
one_action = record {
  actions = soon ∷ [];
  items = [];
  kept_shows = [];
  audits = [];
  tokens_used = [];
}

-- The first link counts, the second does not.
keep_replayed :
    let (db', first) = apply_keep_snooze one_code one_action 7 "7 days" 7 400 in
    (first ≡ 1) × ((apply_keep_snooze one_code db' 7 "30 days" 30 401).1 ≡ 0)
unfolding apply_keep_snooze one_code text_leb count_where update_where
keep_replayed = (refl, refl)

is_due-is_keepable_example : is_keepable (one_code.isoformat 601) soon ≡ false
unfolding text_leb one_code
is_due-is_keepable_example =
    is_due-is_keepable one_code 600 601 soon one_code-IsIso refl (omega arith)
