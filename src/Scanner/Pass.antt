-- ===== src/Scanner/Pass.antt =====
-- What a live pass of `DeletionExecutor.execute` reports, against what the audit log says.

use mediaman.Prelude.{
  Bool, Bool-cases, List, Option, String, [], arith, false, if◌then◌else◌, inl, inr, is_empty, none,
  refl, true, ℕ, ◌++◌, ◌+◌, ◌∷◌, ◌≡◌,
}
use mediaman.Scanner.Protection.{cleanup_expired_snoozes}
use mediaman.Scanner.Deletion.{
  sweep, recover_stuck_deletions, count_row, execute_live, DeletionResult, delete_rows, removed,
  refused, missing, unexpected, unmonitor, settle, park, DeleteOutcome, os_error, path_text,
  credit_deletion, delete_file_on_disk, commit_deletion, mark_intent, delete_one, execute, World,
  Executor, size_of, nothing_deleted,
}
use mediaman.Scanner.Table.{
  delete_failed_permanent, mark_delete_status, delete_scheduled_action, AuditKind, deleted_audit,
  Audit, Db, log_audit, DeletionRow, fetch_pending_deletions,
}
use mediaman.Core.Time.{Text}

abbrev is_deleted_audit : AuditKind → Bool
is_deleted_audit deleted_audit = true
is_deleted_audit _ = false

-- How many deletions a list of audit rows records.
unfoldable pub deletions_in : List Audit → ℕ
deletions_in [] = 0
deletions_in (a ∷ audits) = (if is_deleted_audit a.kind then 1 else 0) + deletions_in audits

-- How many bytes they freed.
unfoldable pub bytes_in : List Audit → ℕ
bytes_in [] = 0
bytes_in (a ∷ audits) =
    (if is_deleted_audit a.kind then size_of a.space_bytes else 0) + bytes_in audits

pub deletions_in-append :
    (xs ys : List Audit) → deletions_in (xs ++ ys) ≡ deletions_in xs + deletions_in ys
unfolding deletions_in
deletions_in-append [] ys = omega arith
deletions_in-append (x ∷ xs) ys = rw (deletions_in-append xs ys) (omega arith)

pub bytes_in-append : (xs ys : List Audit) → bytes_in (xs ++ ys) ≡ bytes_in xs + bytes_in ys
unfolding bytes_in
bytes_in-append [] ys = omega arith
bytes_in-append (x ∷ xs) ys = rw (bytes_in-append xs ys) (omega arith)

-- `db'` records, beyond what `db` does, `n` deletions that freed `bytes`.
abbrev pub Credits : Db → Db → ℕ → ℕ → Type 0
Credits db db' n bytes =
    (deletions_in db'.audits ≡ deletions_in db.audits + n)
    × (bytes_in db'.audits ≡ bytes_in db.audits + bytes)

log_audit-Credits :
    (db : Db) (id : String) (kind : AuditKind) (space : Option ℕ)
    → Credits db
        (log_audit db id kind space)
        (if is_deleted_audit kind then 1 else 0)
        (if is_deleted_audit kind then size_of space else 0)
unfolding log_audit deletions_in bytes_in
log_audit-Credits db id kind space = (
  rw
      (deletions_in-append db.audits
        ((record { audited_id = id; kind = kind; space_bytes = space }) ∷ []))
      (omega arith),
  rw
      (bytes_in-append db.audits
        ((record { audited_id = id; kind = kind; space_bytes = space }) ∷ []))
      (omega arith),
)

delete_path-Credits :
    (e : Executor) (row : DeletionRow) (w : World) (outcome : DeleteOutcome) (files' : List String)
    → e.blank (path_text row.row_path) ≡ false
    → e.storage.delete_path (path_text row.row_path) e.allowed_roots w.files ≡ (outcome, files')
    → let r = delete_one e row w in
      Credits w.db r.0.db (if r.1 then 1 else 0) (if r.1 then size_of row.row_size else 0)
unfolding delete_one mark_intent delete_file_on_disk commit_deletion unmonitor settle
    delete_scheduled_action mark_delete_status credit_deletion log_audit
delete_path-Credits e row w removed files' named gone =
    rw (named, gone) (log_audit-Credits w.db row.row_media_id deleted_audit row.row_size)
delete_path-Credits e row w refused files' named gone = rw (named, gone) (omega arith, omega arith)
delete_path-Credits e row w missing files' named gone = rw (named, gone) (omega arith, omega arith)
delete_path-Credits e row w os_error files' named gone =
    rw (named, gone) (log_audit-Credits w.db row.row_media_id delete_failed_permanent none)
delete_path-Credits e row w unexpected files' named gone =
    rw (named, gone) (log_audit-Credits w.db row.row_media_id delete_failed_permanent none)

delete_one-Credits :
    (e : Executor) (row : DeletionRow) (w : World)
    → let r = delete_one e row w in
      Credits w.db r.0.db (if r.1 then 1 else 0) (if r.1 then size_of row.row_size else 0)
unfolding delete_one park mark_intent delete_file_on_disk commit_deletion unmonitor
    delete_scheduled_action mark_delete_status credit_deletion
delete_one-Credits e row w = elim (Bool-cases (e.blank (path_text row.row_path))) [
  | inl blank ↦ rw blank (log_audit-Credits w.db row.row_media_id delete_failed_permanent none)
  | inr named ↦
      let p = e.storage.delete_path (path_text row.row_path) e.allowed_roots w.files in
      delete_path-Credits e row w p.0 p.1 named refl
]

-- `acc` grew to `result` by what the pass from `db` to `db'` recorded.
abbrev pub Accounts : DeletionResult → DeletionResult → Db → Db → Type 0
Accounts acc result db db' =
    (acc.deleted_count + deletions_in db'.audits ≡ result.deleted_count + deletions_in db.audits)
    × (acc.reclaimed_bytes + bytes_in db'.audits ≡ result.reclaimed_bytes + bytes_in db.audits)

count_row-Accounts :
    (gone : Bool) (row : DeletionRow) (acc result : DeletionResult) (db db₁ db₂ : Db)
    → Credits db db₁ (if gone then 1 else 0) (if gone then size_of row.row_size else 0)
    → Accounts (count_row gone row acc) result db₁ db₂
    → Accounts acc result db db₂
count_row-Accounts true row acc result db db₁ db₂ h rest =
    (omega (arith, h.0, rest.0), omega (arith, h.1, rest.1))
count_row-Accounts false row acc result db db₁ db₂ h rest =
    (omega (arith, h.0, rest.0), omega (arith, h.1, rest.1))

delete_rows-Accounts :
    (e : Executor) (rows : List DeletionRow) (acc : DeletionResult) (w : World)
    → let r = delete_rows e rows acc w in Accounts acc r.1 w.db r.0.db
unfolding delete_rows
delete_rows-Accounts e [] acc w = (refl, refl)
delete_rows-Accounts e (row ∷ rows) acc w =
    let (w', gone) = delete_one e row w in
    let r = delete_rows e rows (count_row gone row acc) w' in
    count_row-Accounts gone row acc r.1 w.db w'.db r.0.db (delete_one-Credits e row w)
      (delete_rows-Accounts e rows (count_row gone row acc) w')

pub sweep-audits :
    (clean : Bool) (now_iso : Text) (w : World)
    → ((sweep clean now_iso w).db.audits ≡ w.db.audits)
      × ((sweep clean now_iso w).files ≡ w.files)
      × ((sweep clean now_iso w).calls ≡ w.calls)
unfolding sweep cleanup_expired_snoozes
sweep-audits false now_iso w = (refl, refl, refl)
sweep-audits true now_iso w = (refl, refl, refl)

execute_live-Credits :
    (e : Executor) (now_iso : Text) (rows : List DeletionRow) (w : World)
    → let (w', result) = execute_live e now_iso rows w in
      Credits w.db w'.db result.deleted_count result.reclaimed_bytes
unfolding execute_live
execute_live-Credits e now_iso rows w = elim (Bool-cases (is_empty e.allowed_roots)) [
  | inl unset ↦ rw (unset, (sweep-audits e.cleanup_snoozes now_iso w).0) (omega arith, omega arith)
  | inr set ↦
      let r = delete_rows e rows nothing_deleted w in
      let h = delete_rows-Accounts e rows nothing_deleted w in
      rw (set, (sweep-audits e.cleanup_snoozes now_iso r.0).0)
        (omega (arith, h.0), omega (arith, h.1))
]

-- What a live pass returns is what the database says it did: its count and its bytes are those of the
-- `deleted` audit rows that it added after the recovery.
pub execute-Credits :
    (e : Executor) (now_iso : Text) (w : World)
    → e.dry_run ≡ false
    → let recovered = recover_stuck_deletions e.storage e.allowed_roots w in
      let (w', result) = execute e now_iso w in
      (deletions_in w'.db.audits ≡ deletions_in recovered.db.audits + result.deleted_count)
      × (bytes_in w'.db.audits ≡ bytes_in recovered.db.audits + result.reclaimed_bytes)
unfolding execute
execute-Credits e now_iso w live =
    let recovered = recover_stuck_deletions e.storage e.allowed_roots w in
    simp live
      (execute_live-Credits e now_iso (fetch_pending_deletions recovered.db now_iso) recovered)
