-- ===== src/Scanner/Table.antt =====
-- The tables `scheduled_actions`, `media_items`, `kept_shows` and `audit_log`, and the deletion
-- lifecycle of src/mediaman/scanner/repository/scheduled_actions.py. Columns that only a page shows
-- are left out.
use mediaman.Prelude.{
  Bool, List, Option, String, [], contains, count_where, delete_where, false, find, if◌then◌else◌,
  nat_key, none, not, some, string_key, true, update_where, ℕ, ◌&&◌, ◌++◌, ◌==◌, ◌∷◌,
}
use mediaman.Core.Time.{Text, sql_le}

pub data ActionKind : Type 0 where
  scheduled_deletion snoozed protected_forever : ActionKind

abbrev pub is_deletion : ActionKind → Bool
is_deletion scheduled_deletion = true
is_deletion _ = false

abbrev pub is_snoozed : ActionKind → Bool
is_snoozed snoozed = true
is_snoozed _ = false

abbrev pub is_forever : ActionKind → Bool
is_forever protected_forever = true
is_forever _ = false

pub data DeleteStatus : Type 0 where
  pending deleting : DeleteStatus

-- A row of `scheduled_actions`; a NULL is `none`.
pub record Action : Type 0 where
  pub id : ℕ
  pub media_item_id : String
  pub action : ActionKind
  pub execute_at : Option Text
  pub token_used : Bool
  pub snoozed_at : Option Text
  pub snooze_duration : Option String
  pub is_reentry : Bool
  pub delete_status : Option DeleteStatus
  pub token_hash : Option String

pub record MediaItem : Type 0 where
  pub item_id : String
  pub library_id : ℕ
  pub file_path : String
  pub file_size_bytes : Option ℕ
  pub radarr_id : Option ℕ
  pub sonarr_id : Option ℕ
  pub season_number : Option ℕ

-- A row of `kept_shows`.
pub record KeptShow : Type 0 where
  pub show_rating_key : String
  pub kept_action : ActionKind
  pub kept_until : Option Text

pub data AuditKind : Type 0 where
  deleted_audit dry_run_skip delete_failed_permanent scheduled_audit snoozed_audit scan_cleared :
      AuditKind

pub record Audit : Type 0 where
  pub audited_id : String
  pub kind : AuditKind
  pub space_bytes : Option ℕ

-- The database.
pub record Db : Type 0 where
  pub actions : List Action
  pub items : List MediaItem
  pub kept_shows : List KeptShow
  pub audits : List Audit
  pub tokens_used : List String

-- `log_audit` of src/mediaman/core/audit.py
unfoldable pub log_audit : Db → String → AuditKind → Option ℕ → Db
log_audit db media_id kind space = record db {
  audits = db.audits ++ (record { audited_id = media_id; kind = kind; space_bytes = space }) ∷ [];
}

-- `DeletionRow`: an action joined with its item, whose columns are NULL where there is none.
pub record DeletionRow : Type 0 where
  pub row_id : ℕ
  pub row_media_id : String
  pub row_path : Option String
  pub row_size : Option ℕ
  pub row_radarr_id : Option ℕ
  pub row_sonarr_id : Option ℕ
  pub row_season : Option ℕ

unfoldable pub find_item : String → List MediaItem → Option MediaItem
find_item media_id items = find (λ i. i.item_id == media_id) items

unfoldable pub deletion_row : Action → Option MediaItem → DeletionRow
deletion_row a none = record {
  row_id = a.id;
  row_media_id = a.media_item_id;
  row_path = none;
  row_size = none;
  row_radarr_id = none;
  row_sonarr_id = none;
  row_season = none;
}
deletion_row a (some i) = record {
  row_id = a.id;
  row_media_id = a.media_item_id;
  row_path = some i.file_path;
  row_size = i.file_size_bytes;
  row_radarr_id = i.radarr_id;
  row_sonarr_id = i.sonarr_id;
  row_season = i.season_number;
}

abbrev pub is_deleting : Option DeleteStatus → Bool
is_deleting (some deleting) = true
is_deleting _ = false

-- `delete_status IS NULL OR delete_status = 'pending'`
abbrev pub is_pending : Option DeleteStatus → Bool
is_pending none = true
is_pending (some pending) = true
is_pending (some deleting) = false

unfoldable pub stuck_rows : List MediaItem → List Action → List DeletionRow
stuck_rows items [] = []
stuck_rows items (a ∷ actions) =
    if is_deleting a.delete_status
    then deletion_row a (find_item a.media_item_id items) ∷ stuck_rows items actions
    else stuck_rows items actions

-- `fetch_stuck_deletions`: a LEFT JOIN.
unfoldable pub fetch_stuck_deletions : Db → List DeletionRow
fetch_stuck_deletions db = stuck_rows db.items db.actions

-- The `WHERE` of `fetch_pending_deletions`.
abbrev pub is_due : Text → Action → Bool
is_due now_iso a = is_deletion a.action && sql_le a.execute_at now_iso && is_pending a.delete_status

unfoldable pub pending_rows : Text → List MediaItem → List Action → List DeletionRow
pending_rows now_iso items [] = []
pending_rows now_iso items (a ∷ actions) =
    if is_due now_iso a
    then (elim (find_item a.media_item_id items) [
      | none ↦ pending_rows now_iso items actions
      | some i ↦ deletion_row a (some i) ∷ pending_rows now_iso items actions
    ])
    else pending_rows now_iso items actions

-- `fetch_pending_deletions`: an inner join.
unfoldable pub fetch_pending_deletions : Db → Text → List DeletionRow
fetch_pending_deletions db now_iso = pending_rows now_iso db.items db.actions

unfoldable pub mark_delete_status : Db → ℕ → DeleteStatus → Db
mark_delete_status db action_id status = record db {
  actions =
      update_where (λ a. a.id == action_id) (λ a. record a { delete_status = some status })
        db.actions;
}

unfoldable pub delete_scheduled_action : Db → ℕ → Db
delete_scheduled_action db action_id = record db {
  actions = delete_where (λ a. a.id == action_id) db.actions;
}

-- `delete_actions_for_media_items`; its chunks of 500 ids are only how many go into one statement.
unfoldable pub delete_actions_for_media_items : Db → List String → Db
delete_actions_for_media_items db ids = record db {
  actions = delete_where (λ a. contains ids a.media_item_id) db.actions;
}

-- A deletion whose token has not been used.
abbrev pub is_open_deletion : Action → Bool
is_open_deletion a = is_deletion a.action && not a.token_used

unfoldable pub count_pending_deletions : Db → ℕ
count_pending_deletions db = count_where is_open_deletion db.actions

-- `clear_pending_deletions`, with whether an actor was given: the deletion and its audit row are one
-- transaction, which an audit that fails rolls back.
unfoldable pub clear_pending_deletions : Db → Bool → Bool → Option (Db × ℕ)
clear_pending_deletions db has_actor audit_fails =
    let cleared = count_pending_deletions db in
    let db' = record db { actions = delete_where is_open_deletion db.actions } in
    if has_actor
    then (if audit_fails
        then none
        else some (log_audit db' "_security" scan_cleared (some cleared), cleared))
    else some (db', cleared)
