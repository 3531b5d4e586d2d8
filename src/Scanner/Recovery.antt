-- ===== src/Scanner/Recovery.antt =====
-- `recover_stuck_deletions` as a whole.

use mediaman.Prelude.{
  Bool, Bool-cases, List, Option, String, [], any, ap, arith, delete_where, false, if◌then◌else◌,
  inl, inr, nat_key, none, refl, some, true, update_where, ℕ, ◌==◌, ◌∷◌, ◌≡◌,
}
use mediaman.Scanner.Deletion.{
  lexists, Storage, World, path_text, credit_deletion, recover_row, recover_rows,
  recover_stuck_deletions,
}
use mediaman.Scanner.Table.{
  pending, Action, MediaItem, Db, log_audit, DeletionRow, find_item, deletion_row, is_deleting,
  stuck_rows, fetch_stuck_deletions, mark_delete_status, delete_scheduled_action,
}

-- The ids of the rows that a list of stuck rows names.
abbrev pub names_id : ℕ → List DeletionRow → Bool
names_id id rows = any (λ r. r.row_id == id) rows

-- No action is left in `deleting` but those that `rows` names.
abbrev StuckIn : List DeletionRow → List Action → Type 0
StuckIn rows [] = Unit
StuckIn rows (a ∷ actions) =
    (is_deleting a.delete_status ≡ true → names_id a.id rows ≡ true) × StuckIn rows actions

deletion_row_id : (a : Action) (i : Option MediaItem) → (deletion_row a i).row_id ≡ a.id
unfolding deletion_row
deletion_row_id a none = refl
deletion_row_id a (some i) = refl

StuckIn-cons :
    (r : DeletionRow) (rows : List DeletionRow) (actions : List Action)
    → StuckIn rows actions
    → StuckIn (r ∷ rows) actions
StuckIn-cons r rows [] h = tt
StuckIn-cons r rows (a ∷ actions) h = (λ d. ground (arith, h.0 d), StuckIn-cons r rows actions h.1)

StuckIn-join :
    (a : Action) (i : Option MediaItem) (rows : List DeletionRow) (actions : List Action) (b : Bool)
    → is_deleting a.delete_status ≡ b
    → StuckIn rows actions
    → StuckIn (if b then deletion_row a i ∷ rows else rows) (a ∷ actions)
StuckIn-join a i rows actions true stuck h =
    (λ d. ground (arith, deletion_row_id a i), StuckIn-cons (deletion_row a i) rows actions h)
StuckIn-join a i rows actions false free h = (λ d. cc, h)

StuckIn-fetch :
    (items : List MediaItem) (actions : List Action) → StuckIn (stuck_rows items actions) actions
unfolding stuck_rows
StuckIn-fetch items [] = tt
StuckIn-fetch items (a ∷ actions) =
    StuckIn-join a (find_item a.media_item_id items) (stuck_rows items actions) actions
      (is_deleting a.delete_status) refl (StuckIn-fetch items actions)

StuckIn-mark :
    (r : DeletionRow) (rows : List DeletionRow) (actions : List Action)
    → StuckIn (r ∷ rows) actions
    → StuckIn rows (
        update_where
          (λ a. a.id == r.row_id)
          (λ a. record a { delete_status = some pending })
          actions)
unfolding update_where
StuckIn-mark r rows [] h = tt
StuckIn-mark r rows (a ∷ actions) h = elim (Bool-cases (a.id == r.row_id)) [
  | inl same ↦ rw same (λ d. cc, StuckIn-mark r rows actions h.1)
  | inr other ↦ rw other (λ d. ground (arith, h.0 d, other), StuckIn-mark r rows actions h.1)
]

StuckIn-delete :
    (r : DeletionRow) (rows : List DeletionRow) (actions : List Action)
    → StuckIn (r ∷ rows) actions
    → StuckIn rows (delete_where (λ a. a.id == r.row_id) actions)
unfolding delete_where
StuckIn-delete r rows [] h = tt
StuckIn-delete r rows (a ∷ actions) h = elim (Bool-cases (a.id == r.row_id)) [
  | inl same ↦ rw same (StuckIn-delete r rows actions h.1)
  | inr other ↦ rw other (λ d. ground (arith, h.0 d, other), StuckIn-delete r rows actions h.1)
]

StuckIn-recover_row :
    (storage : Storage) (roots files : List String) (r : DeletionRow) (rows : List DeletionRow)
    (db : Db)
    → StuckIn (r ∷ rows) db.actions
    → StuckIn rows (recover_row storage roots files r db).actions
unfolding recover_row mark_delete_status credit_deletion delete_scheduled_action log_audit
StuckIn-recover_row storage roots files r rows db h = elim (Bool-cases (lexists r files)) [
  | inl there ↦ rw there (StuckIn-mark r rows db.actions h)
  | inr gone ↦ elim (Bool-cases (storage.path_within_delete_roots (path_text r.row_path) roots)) [
    | inl within ↦ rw (gone, within) (StuckIn-delete r rows db.actions h)
    | inr outside ↦ rw (gone, outside) (StuckIn-mark r rows db.actions h)
  ]
]

StuckIn-recover_rows :
    (storage : Storage) (roots files : List String) (rows : List DeletionRow) (db : Db)
    → StuckIn rows db.actions
    → StuckIn [] (recover_rows storage roots files rows db).actions
unfolding recover_rows
StuckIn-recover_rows storage roots files [] db h = h
StuckIn-recover_rows storage roots files (r ∷ rows) db h =
    StuckIn-recover_rows storage roots files rows (recover_row storage roots files r db)
      (StuckIn-recover_row storage roots files r rows db h)

none_stuck :
    (items : List MediaItem) (actions : List Action)
    → StuckIn [] actions
    → stuck_rows items actions ≡ []
unfolding stuck_rows
none_stuck items [] h = refl
none_stuck items (a ∷ actions) h = elim (Bool-cases (is_deleting a.delete_status)) [
  | inl stuck ↦ cc (h.0 stuck)
  | inr free ↦ rw free (none_stuck items actions h.1)
]

recover_rows-fetch :
    (storage : Storage) (roots files : List String) (db : Db)
    → fetch_stuck_deletions (recover_rows storage roots files (fetch_stuck_deletions db) db) ≡ []
unfolding fetch_stuck_deletions
recover_rows-fetch storage roots files db =
    none_stuck (recover_rows storage roots files (stuck_rows db.items db.actions) db).items
      (recover_rows storage roots files (stuck_rows db.items db.actions) db).actions
      (StuckIn-recover_rows storage roots files (stuck_rows db.items db.actions) db
        (StuckIn-fetch db.items db.actions))

recover_rows-nil :
    (storage : Storage) (roots files : List String) (rows : List DeletionRow) (db : Db)
    → rows ≡ []
    → recover_rows storage roots files rows db ≡ db
unfolding recover_rows
recover_rows-nil storage roots files [] db e = refl
recover_rows-nil storage roots files (r ∷ rows) db e = cc e

-- After the recovery no action is left in `deleting`, no file has changed, and a second recovery
-- changes nothing.
pub recover_stuck_deletions_complete :
    (storage : Storage) (roots : List String) (w : World)
    → let w' = recover_stuck_deletions storage roots w in
      (fetch_stuck_deletions w'.db ≡ [])
      × (w'.files ≡ w.files)
      × (recover_stuck_deletions storage roots w' ≡ w')
unfolding recover_stuck_deletions
recover_stuck_deletions_complete storage roots w =
    let db' = recover_rows storage roots w.files (fetch_stuck_deletions w.db) w.db in
    let clear = recover_rows-fetch storage roots w.files w.db in
    (
      clear,
      refl,
      ap (λ db. record w { db = db })
          (recover_rows-nil storage roots w.files (fetch_stuck_deletions db') db' clear),
    )
