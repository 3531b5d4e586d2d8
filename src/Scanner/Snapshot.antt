-- ===== src/Scanner/Snapshot.antt =====
-- What the rows that a pass has fetched decide, whatever becomes of the tables while it runs.

use mediaman.Prelude.{Bool-cases, List, [], inl, inr, refl, ◌∷◌, ◌≡◌}
use mediaman.Scanner.Deletion.{
  unmonitor, park, is_removed, World, path_text, delete_file_on_disk, commit_deletion, mark_intent,
  Executor, delete_one, DeletionResult, count_row, delete_rows,
}
use mediaman.Scanner.Table.{DeletionRow}

delete_one_snapshot :
    (e : Executor) (row : DeletionRow) (w w' : World)
    → w.files ≡ w'.files
    → ((delete_one e row w).0.files ≡ (delete_one e row w').0.files)
      × ((delete_one e row w).1 ≡ (delete_one e row w').1)
unfolding delete_one park mark_intent delete_file_on_disk commit_deletion unmonitor
delete_one_snapshot e row w w' same = elim (Bool-cases (e.blank (path_text row.row_path))) [
  | inl blank ↦ rw blank (same, refl)
  | inr named ↦
      let p = e.storage.delete_path (path_text row.row_path) e.allowed_roots w'.files in
      elim (Bool-cases (is_removed p.0)) [
        | inl gone ↦ rw (named, same, gone) (refl, refl)
        | inr kept ↦ rw (named, same, kept) (refl, refl)
      ]
]

-- Which files a pass removes, and what it reports, is settled by the rows that it fetched and by the
-- files alone: with the same rows and files, two databases that differ in any way, the actions of the
-- very rows included, lose the same files.
pub delete_rows_snapshot :
    (e : Executor) (rows : List DeletionRow) (acc : DeletionResult) (w w' : World)
    → w.files ≡ w'.files
    → ((delete_rows e rows acc w).0.files ≡ (delete_rows e rows acc w').0.files)
      × ((delete_rows e rows acc w).1 ≡ (delete_rows e rows acc w').1)
unfolding delete_rows
delete_rows_snapshot e [] acc w w' same = (same, refl)
delete_rows_snapshot e (row ∷ rows) acc w w' same =
    let h = delete_one_snapshot e row w w' same in
    let rest =
      delete_rows_snapshot e rows (count_row (delete_one e row w').1 row acc) (delete_one e row w).0
        (delete_one e row w').0 h.0 in
    rw (delete_rows, h.1) rest
