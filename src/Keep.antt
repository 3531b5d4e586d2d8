-- ===== src/Keep.antt =====
-- src/mediaman/services/scheduled_actions/_mutations.py: the keep of an item by the link of a mail.

pub mod Laws
pub mod Page
pub mod PageLaws
mod PageTests
mod Tests
use mediaman.Prelude.{
  Bool, Option, String, count_where, false, if◌then◌else◌, ltb, nat_key, none, not, some, true,
  update_where, ℕ, ◌&&◌, ◌*◌, ◌+◌, ◌==◌,
}
use mediaman.Scanner.Eligibility.{day}
use mediaman.Core.Time.{Text, Datetime, parse_iso_strict_utc, sql_ge}
use mediaman.Scanner.Table.{snoozed, protected_forever, is_deletion, Action, is_pending, Db}

-- The `WHERE` of both updates, on the row of the link.
abbrev pub is_keepable : Text → Action → Bool
is_keepable now_iso a =
    is_deletion a.action
    && is_pending a.delete_status
    && not a.token_used
    && sql_ge a.execute_at now_iso

abbrev pub is_target : ℕ → Text → Action → Bool
is_target action_id now_iso a = a.id == action_id && is_keepable now_iso a

abbrev pub snooze : Text → Text → String → Action → Action
snooze new_execute now_iso duration a = record a {
  action = snoozed;
  token_used = true;
  execute_at = some new_execute;
  snoozed_at = some now_iso;
  snooze_duration = some duration;
}

abbrev pub protect : Text → Action → Action
protect now_iso a = record a {
  action = protected_forever;
  token_used = true;
  snoozed_at = some now_iso;
  snooze_duration = some "forever";
}

-- An `UPDATE`, and its row count.
abbrev pub update_counted : (Action → Bool) → (Action → Action) → Db → Db × ℕ
update_counted p f db =
    (record db { actions = update_where p f db.actions }, count_where p db.actions)

-- `apply_keep_snooze`
unfoldable pub apply_keep_snooze : Datetime → Db → ℕ → String → ℕ → ℕ → Db × ℕ
apply_keep_snooze lib db action_id duration days now =
    update_counted (is_target action_id (lib.isoformat now))
      (snooze (lib.isoformat (now + days * day)) (lib.isoformat now) duration) db

-- `apply_keep_forever`
unfoldable pub apply_keep_forever : Datetime → Db → ℕ → ℕ → Db × ℕ
apply_keep_forever lib db action_id now =
    update_counted (is_target action_id (lib.isoformat now)) (protect (lib.isoformat now)) db

-- `parse_execute_at`: what does not parse is the default.
abbrev pub or_default : ℕ → Option ℕ → ℕ
or_default d none = d
or_default d (some t) = t

unfoldable pub parse_execute_at : Datetime → Option Text → ℕ → ℕ
parse_execute_at lib raw default = or_default default (parse_iso_strict_utc lib raw)

-- `is_pending_unexpired`
unfoldable pub is_pending_unexpired : Datetime → Action → ℕ → Bool
is_pending_unexpired lib a now =
    if ltb (parse_execute_at lib a.execute_at now) now
    then false
    else if not (is_deletion a.action)
    then false
    else is_pending a.delete_status
