-- ===== src/Scanner/Deletion.antt =====
-- src/mediaman/scanner/deletions.py: the deletion pass, its two phases and the recovery after a crash.
-- The file system is the list of the paths that are there. What the storage layer does to it, and
-- the clients that unmonitor an item, are parameters.
use mediaman.Prelude.{
  Bool, List, Option, String, [], contains, false, if◌then◌else◌, is_empty, ltb, none, not, some,
  string_key, true, ℕ, ◌&&◌, ◌++◌, ◌+◌, ◌==◌, ◌∷◌,
}
use mediaman.Scanner.Table.{
  deleting, pending, deleted_audit, dry_run_skip, delete_failed_permanent, Db, log_audit,
  DeletionRow, fetch_stuck_deletions, fetch_pending_deletions, mark_delete_status,
  delete_scheduled_action,
}
use mediaman.Scanner.Protection.{cleanup_expired_snoozes}
use mediaman.Core.Time.{Text}

-- How `delete_path` ends: it returns, or raises `DeletionRefused`, `FileNotFoundError`, another
-- `OSError`, or something else.
pub data DeleteOutcome : Type 0 where
  removed refused missing os_error unexpected : DeleteOutcome

abbrev pub is_removed : DeleteOutcome → Bool
is_removed removed = true
is_removed _ = false

-- The storage layer, src/mediaman/services/infra/storage/deletion.py: `path_within_delete_roots`,
-- and `delete_path` on a path, the allowed roots and the files.
pub record Storage : Type 0 where
  pub path_within_delete_roots : String → List String → Bool
  pub delete_path : String → List String → List String → DeleteOutcome × List String

-- A call to Radarr or Sonarr.
pub data Unmonitor : Type 0 where
  movie : ℕ → Unmonitor
  season : ℕ → ℕ → Unmonitor

-- The database, the files, and the calls made to Radarr and Sonarr so far.
pub record World : Type 0 where
  pub db : Db
  pub files : List String
  pub calls : List Unmonitor

abbrev pub path_text : Option String → String
path_text none = ""
path_text (some p) = p

-- `row.file_path or ""` is there on disk.
abbrev pub lexists : DeletionRow → List String → Bool
lexists row files = not (path_text row.row_path == "") && contains files (path_text row.row_path)

-- The audit row and the end of the action, in one transaction.
unfoldable pub credit_deletion : Db → DeletionRow → Db
credit_deletion db row =
    delete_scheduled_action (log_audit db row.row_media_id deleted_audit row.row_size) row.row_id

-- One row of `recover_stuck_deletions`.
unfoldable pub recover_row : Storage → List String → List String → DeletionRow → Db → Db
recover_row storage roots files row db =
    if lexists row files
    then mark_delete_status db row.row_id pending
    else if not (storage.path_within_delete_roots (path_text row.row_path) roots)
    then mark_delete_status db row.row_id pending
    else credit_deletion db row

unfoldable pub recover_rows : Storage → List String → List String → List DeletionRow → Db → Db
recover_rows storage roots files [] db = db
recover_rows storage roots files (row ∷ rows) db =
    recover_rows storage roots files rows (recover_row storage roots files row db)

unfoldable pub recover_stuck_deletions : Storage → List String → World → World
recover_stuck_deletions storage roots w = record w {
  db = recover_rows storage roots w.files (fetch_stuck_deletions w.db) w.db;
}

-- The `except` clauses of `_delete_file_on_disk`.
unfoldable pub settle : DeleteOutcome → DeletionRow → Db → Db
settle removed row db = db
settle refused row db = mark_delete_status db row.row_id pending
settle missing row db = db
settle os_error row db = log_audit db row.row_media_id delete_failed_permanent none
settle unexpected row db = log_audit db row.row_media_id delete_failed_permanent none

unfoldable pub delete_file_on_disk : Storage → List String → DeletionRow → World → World × Bool
delete_file_on_disk storage roots row w =
    let (outcome, files') = storage.delete_path (path_text row.row_path) roots w.files in
    (record w { db = settle outcome row w.db; files = files' }, is_removed outcome)

-- `_commit_deletion`
unfoldable pub commit_deletion : DeletionRow → World → World
commit_deletion row w = record w { db = credit_deletion w.db row }

-- The row whose file is about to go is marked first, in a transaction of its own.
unfoldable pub mark_intent : DeletionRow → World → World
mark_intent row w = record w { db = mark_delete_status w.db row.row_id deleting }

-- `not (row.file_path or "").strip()`, where `blank` says which texts are white space.
unfoldable pub park : DeletionRow → World → World
park row w = record w {
  db =
      delete_scheduled_action (log_audit w.db row.row_media_id delete_failed_permanent none)
        row.row_id;
}

movie_calls : Bool → Option ℕ → List Unmonitor
movie_calls false id = []
movie_calls true none = []
movie_calls true (some id) = if ltb 0 id then movie id ∷ [] else []

season_calls : Bool → Option ℕ → Option ℕ → List Unmonitor
season_calls true (some id) (some n) = if ltb 0 id then season id n ∷ [] else []
season_calls _ _ _ = []

-- `_unmonitor_arr`: the calls that are made, in order; whether they fail changes nothing.
unfoldable pub unmonitor_arr : Bool → Bool → DeletionRow → List Unmonitor
unfolding movie_calls season_calls
unmonitor_arr radarr sonarr row =
    movie_calls radarr row.row_radarr_id ++ season_calls sonarr row.row_sonarr_id row.row_season

-- `DeletionExecutor`: its settings, and what it reads from the environment.
pub record Executor : Type 0 where
  pub storage : Storage
  pub dry_run : Bool
  pub cleanup_snoozes : Bool
  pub has_radarr : Bool
  pub has_sonarr : Bool
  pub allowed_roots : List String
  pub blank : String → Bool

-- The calls come after the commit of the deletion.
unfoldable pub unmonitor : Executor → DeletionRow → World → World
unmonitor e row w = record w { calls = w.calls ++ unmonitor_arr e.has_radarr e.has_sonarr row }

-- `_delete_one`
unfoldable pub delete_one : Executor → DeletionRow → World → World × Bool
delete_one e row w =
    if e.blank (path_text row.row_path)
    then (park row w, false)
    else (let (w', gone) = delete_file_on_disk e.storage e.allowed_roots row (mark_intent row w) in
        if gone then (unmonitor e row (commit_deletion row w'), true) else (w', false))

-- What a pass returns.
pub record DeletionResult : Type 0 where
  pub deleted_count : ℕ
  pub reclaimed_bytes : ℕ

abbrev pub size_of : Option ℕ → ℕ
size_of none = 0
size_of (some n) = n

abbrev pub count_row : Bool → DeletionRow → DeletionResult → DeletionResult
count_row false row acc = acc
count_row true row acc = record {
  deleted_count = acc.deleted_count + 1;
  reclaimed_bytes = acc.reclaimed_bytes + size_of row.row_size;
}

-- The loop of `_execute_live`.
unfoldable pub delete_rows :
    Executor → List DeletionRow → DeletionResult → World → World × DeletionResult
delete_rows e [] acc w = (w, acc)
delete_rows e (row ∷ rows) acc w =
    let (w', gone) = delete_one e row w in delete_rows e rows (count_row gone row acc) w'

abbrev pub nothing_deleted : DeletionResult
nothing_deleted = record { deleted_count = 0; reclaimed_bytes = 0 }

-- The snoozes that have run out, unless the caller asks not to.
unfoldable pub sweep : Bool → Text → World → World
sweep false now_iso w = w
sweep true now_iso w = record w { db = cleanup_expired_snoozes w.db now_iso }

unfoldable pub execute_live : Executor → Text → List DeletionRow → World → World × DeletionResult
execute_live e now_iso rows w =
    let (w', result) =
      (if is_empty e.allowed_roots
        then (w, nothing_deleted)
        else delete_rows e rows nothing_deleted w) in
    (sweep e.cleanup_snoozes now_iso w', result)

unfoldable pub preview : List DeletionRow → Db → Db
preview [] db = db
preview (row ∷ rows) db = preview rows (log_audit db row.row_media_id dry_run_skip none)

-- `execute`
unfoldable pub execute : Executor → Text → World → World × DeletionResult
execute e now_iso w =
    if e.dry_run
    then (record w { db = preview (fetch_pending_deletions w.db now_iso) w.db }, nothing_deleted)
    else (let w' = recover_stuck_deletions e.storage e.allowed_roots w in
        execute_live e now_iso (fetch_pending_deletions w'.db now_iso) w')
