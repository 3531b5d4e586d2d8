-- ===== src/Scanner/DryRun.antt =====
-- The passes of `DeletionExecutor.execute` that must not delete: the dry run, and the pass without
-- configured roots.

use mediaman.Prelude.{
  Bool-cases, List, String, [], ap, arith, false, inl, inr, none, refl, sym, true, ◌++◌, ◌∙◌, ◌∷◌,
  ◌≡◌,
}
use mathlib.Core.List.{append_assoc, append-nil}
use mediaman.Scanner.Deletion.{
  lexists, execute, sweep, preview, Storage, World, path_text, recover_row, recover_rows,
  recover_stuck_deletions, Executor, nothing_deleted, execute_live,
}
use mediaman.Scanner.Pass.{
  deletions_in, bytes_in, deletions_in-append, bytes_in-append, Credits, sweep-audits,
}
use mediaman.Scanner.Table.{
  pending, dry_run_skip, Audit, Db, log_audit, DeletionRow, fetch_stuck_deletions,
  fetch_pending_deletions, mark_delete_status,
}
use mediaman.Core.Time.{Text}

-- The audit rows of a preview.
unfoldable pub skip_audits : List DeletionRow → List Audit
skip_audits [] = []
skip_audits (row ∷ rows) =
    (record { audited_id = row.row_media_id; kind = dry_run_skip; space_bytes = none })
    ∷ skip_audits rows

preview-audits :
    (rows : List DeletionRow) (db : Db)
    → preview rows db ≡ record db { audits = db.audits ++ skip_audits rows }
unfolding preview skip_audits log_audit
preview-audits [] db = ap (λ xs. record db { audits = xs }) (sym (append-nil db.audits))
preview-audits (row ∷ rows) db =
    preview-audits rows (log_audit db row.row_media_id dry_run_skip none)
    ∙ ap (λ xs. record db { audits = xs })
        (append_assoc db.audits
          ((record { audited_id = row.row_media_id; kind = dry_run_skip; space_bytes = none }) ∷ [])
          (skip_audits rows))

-- A dry run touches no file, no action, no item, no kept show and no token, and calls neither Radarr
-- nor Sonarr: all it does is to add, for each due row in order, one `dry_run_skip` audit row, and it
-- reports that nothing was deleted.
pub execute-dry_run :
    (e : Executor) (now_iso : Text) (w : World)
    → e.dry_run ≡ true
    → execute e now_iso w ≡ (
      record w {
        db = record w.db {
          audits = w.db.audits ++ skip_audits (fetch_pending_deletions w.db now_iso);
        };
      },
      nothing_deleted,
    )
unfolding execute
execute-dry_run e now_iso w dry =
    rw (dry, preview-audits (fetch_pending_deletions w.db now_iso) w.db) refl

skip_audits-deletions :
    (rows : List DeletionRow)
    → (deletions_in (skip_audits rows) ≡ 0) × (bytes_in (skip_audits rows) ≡ 0)
unfolding skip_audits deletions_in bytes_in
skip_audits-deletions [] = (refl, refl)
skip_audits-deletions (row ∷ rows) =
    (omega (arith, (skip_audits-deletions rows).0), omega (arith, (skip_audits-deletions rows).1))

skip_audits-Credits :
    (rows : List DeletionRow) (db : Db)
    → Credits db (record db { audits = db.audits ++ skip_audits rows }) 0 0
skip_audits-Credits rows db = (
  omega (arith, deletions_in-append db.audits (skip_audits rows), (skip_audits-deletions rows).0),
  omega (arith, bytes_in-append db.audits (skip_audits rows), (skip_audits-deletions rows).1),
)

recover_row_outside :
    (storage : Storage) (files : List String) (row : DeletionRow) (db : Db)
    → ((p : String) → storage.path_within_delete_roots p [] ≡ false)
    → recover_row storage [] files row db ≡ mark_delete_status db row.row_id pending
unfolding recover_row
recover_row_outside storage files row db outside = elim (Bool-cases (lexists row files)) [
  | inl there ↦ rw there refl
  | inr gone ↦ rw (gone, outside (path_text row.row_path)) refl
]

recover_rows-Credits :
    (storage : Storage) (files : List String) (rows : List DeletionRow) (db : Db)
    → ((p : String) → storage.path_within_delete_roots p [] ≡ false)
    → Credits db (recover_rows storage [] files rows db) 0 0
unfolding recover_rows mark_delete_status
recover_rows-Credits storage files [] db outside = (omega arith, omega arith)
recover_rows-Credits storage files (row ∷ rows) db outside =
    rw (recover_rows, recover_row_outside storage files row db outside)
      (recover_rows-Credits storage files rows (mark_delete_status db row.row_id pending) outside)

execute_live-no_roots :
    (e : Executor) (now_iso : Text) (rows : List DeletionRow) (w : World)
    → e.allowed_roots ≡ []
    → execute_live e now_iso rows w ≡ (sweep e.cleanup_snoozes now_iso w, nothing_deleted)
unfolding execute_live
execute_live-no_roots e now_iso rows w unset = simp unset refl

execute-sweep :
    (e : Executor) (now_iso : Text) (w : World)
    → e.dry_run ≡ false
    → e.allowed_roots ≡ []
    → execute e now_iso w
      ≡ (sweep e.cleanup_snoozes now_iso (recover_stuck_deletions e.storage [] w), nothing_deleted)
unfolding execute
execute-sweep e now_iso w live unset =
    let recovered = recover_stuck_deletions e.storage e.allowed_roots w in
    simp live (
      execute_live-no_roots e now_iso (fetch_pending_deletions recovered.db now_iso) recovered unset
      ∙ ap
          (λ roots. (
            sweep e.cleanup_snoozes now_iso (recover_stuck_deletions e.storage roots w),
            nothing_deleted,
          ))
          unset)

-- If no path is within no roots, a pass without configured roots fails closed: no file changes,
-- neither Radarr nor Sonarr is called, and no deletion is reported or recorded.
pub execute-no_roots :
    (e : Executor) (now_iso : Text) (w : World)
    → e.allowed_roots ≡ []
    → ((p : String) → e.storage.path_within_delete_roots p [] ≡ false)
    → let (w', result) = execute e now_iso w in
      (w'.files ≡ w.files)
      × (w'.calls ≡ w.calls)
      × (result ≡ nothing_deleted)
      × Credits w.db w'.db 0 0
unfolding execute recover_stuck_deletions
execute-no_roots e now_iso w unset outside = elim (Bool-cases e.dry_run) [
  | inl dry ↦
      rw (execute-dry_run e now_iso w dry)
        (refl, refl, refl, skip_audits-Credits (fetch_pending_deletions w.db now_iso) w.db)
  | inr live ↦
      let recovered = recover_stuck_deletions e.storage [] w in
      let s = sweep-audits e.cleanup_snoozes now_iso recovered in
      rw (execute-sweep e now_iso w live unset, s.0)
        (
          s.1,
          s.2,
          refl,
          recover_rows-Credits e.storage w.files (fetch_stuck_deletions w.db) w.db outside,
        )
]
