-- ===== src/Scanner/Crash.antt =====
-- The two phases of a deletion: where a crash may strike, and what the recovery makes of it.

use mediaman.Prelude.{
  ==_self, Bool, Bool-cases, List, Option, String, [], ap, arith, count_where,
  delete_where-update_where, false, if◌then◌else◌, inl, inr, nat_key, none, refl, some, sym, true,
  update_where, update_where_twice, ℕ, ◌<◌, ◌==◌, ◌∙◌, ◌∷◌, ◌≡◌, ◌≤◌, ◌⊎◌,
}
use mediaman.Core.Time.{Text}
use mediaman.Scanner.Deletion.{
  recover_rows, recover_stuck_deletions, removed, lexists, settle, unmonitor, World, path_text,
  credit_deletion, recover_row, delete_file_on_disk, commit_deletion, mark_intent, Executor,
  delete_one,
}
use mediaman.Scanner.Table.{
  fetch_stuck_deletions, fetch_pending_deletions, is_deleting, Action, MediaItem, find_item,
  deletion_row, stuck_rows, is_due, pending_rows, deleting, pending, DeleteStatus, Db, log_audit,
  DeletionRow, mark_delete_status, delete_scheduled_action,
}

mark_delete_status_twice :
    (db : Db) (id : ℕ) (s t : DeleteStatus)
    → mark_delete_status (mark_delete_status db id s) id t ≡ mark_delete_status db id t
unfolding mark_delete_status
mark_delete_status_twice db id s t =
    ap (λ rows. record db { actions = rows })
      (update_where_twice (λ a. a.id == id) (λ a. record a { delete_status = some s })
        (λ a. record a { delete_status = some t }) db.actions (λ a. refl) (λ a. refl))

credit-mark :
    (db : Db) (row : DeletionRow) (s : DeleteStatus)
    → credit_deletion (mark_delete_status db row.row_id s) row ≡ credit_deletion db row
unfolding credit_deletion mark_delete_status delete_scheduled_action log_audit
credit-mark db row s =
    ap (λ rows. record (credit_deletion db row) { actions = rows })
      (delete_where-update_where (λ a. a.id == row.row_id)
        (λ a. record a { delete_status = some s }) db.actions (λ a. refl))

abbrev pub IsListed : DeletionRow → List DeletionRow → Type 0
IsListed r [] = ⊥
IsListed r (x ∷ rows) = (r ≡ x) ⊎ IsListed r rows

abbrev pub has_id : ℕ → Action → Bool
has_id id a = a.id == id

-- A row does not show its status.
deletion_row-status :
    (a : Action) (i : Option MediaItem) (t : Option DeleteStatus)
    → deletion_row (record a { delete_status = t }) i ≡ deletion_row a i
unfolding deletion_row
deletion_row-status a none t = refl
deletion_row-status a (some i) t = refl

IsListed-pending_rows :
    (now_iso : Text) (items : List MediaItem) (r : DeletionRow) (a : Action) (actions : List Action)
    → IsListed r (pending_rows now_iso items (a ∷ actions))
    → (r ≡ deletion_row a (find_item a.media_item_id items))
      ⊎ IsListed r (pending_rows now_iso items actions)
unfolding pending_rows
IsListed-pending_rows now_iso items r a actions =
    go (is_due now_iso a) (find_item a.media_item_id items)
  where
    rest : List DeletionRow
    rest = pending_rows now_iso items actions

    go :
        (due : Bool) (i : Option MediaItem)
        → IsListed r (
            if due
            then (elim i [ none ↦ rest | some x ↦ deletion_row a (some x) ∷ rest ])
            else rest)
        → (r ≡ deletion_row a i) ⊎ IsListed r rest
    go false i h = inr h
    go true none h = inr h
    go true (some x) h = h

has_id-deletion_row :
    (r : DeletionRow) (a : Action) (i : Option MediaItem)
    → r ≡ deletion_row a i
    → has_id r.row_id a ≡ true
unfolding deletion_row
has_id-deletion_row r a none e = rw (ap (λ x. x.row_id) e) (==_self a.id)
has_id-deletion_row r a (some i) e = rw (ap (λ x. x.row_id) e) (==_self a.id)

count_where-IsListed :
    (now_iso : Text) (items : List MediaItem) (r : DeletionRow) (actions : List Action)
    → IsListed r (pending_rows now_iso items actions)
    → 0 < count_where (has_id r.row_id) actions
unfolding count_where pending_rows
count_where-IsListed now_iso items r [] h = absurd h
count_where-IsListed now_iso items r (a ∷ actions) h =
    elim (IsListed-pending_rows now_iso items r a actions h) [
      | inl here ↦
          simp (has_id-deletion_row r a (find_item a.media_item_id items) here) (omega arith)
      | inr later ↦ ground (arith, count_where-IsListed now_iso items r actions later)
    ]

update_where-none :
    (p : Action → Bool) (f : Action → Action) (actions : List Action)
    → count_where p actions ≡ 0
    → update_where p f actions ≡ actions
unfolding count_where update_where
update_where-none p f [] h = refl
update_where-none p f (a ∷ actions) h = elim (Bool-cases (p a)) [
  | inl hit ↦ absurd (ground (arith, h, hit))
  | inr free ↦ rw (free, update_where-none p f actions (ground (arith, h, free))) refl
]

stuck_rows-cons :
    (items : List MediaItem) (a : Action) (actions : List Action)
    → stuck_rows items (a ∷ actions) ≡ []
    → (is_deleting a.delete_status ≡ false) × (stuck_rows items actions ≡ [])
unfolding stuck_rows
stuck_rows-cons items a actions h = elim (Bool-cases (is_deleting a.delete_status)) [
  | inl stuck ↦ absurd (ground (arith, h, stuck))
  | inr free ↦ (free, ground (arith, h, free))
]

stuck_rows-update_where :
    (now_iso : Text) (items : List MediaItem) (r : DeletionRow) (actions : List Action)
    → stuck_rows items actions ≡ []
    → count_where (has_id r.row_id) actions ≤ 1
    → IsListed r (pending_rows now_iso items actions)
    → stuck_rows items
        (update_where (has_id r.row_id) (λ a. record a { delete_status = some deleting }) actions)
      ≡ r ∷ []
unfolding stuck_rows update_where count_where pending_rows
stuck_rows-update_where now_iso items r [] idle few h = absurd h
stuck_rows-update_where now_iso items r (a ∷ actions) idle few h =
    let i = find_item a.media_item_id items in
    let calm = stuck_rows-cons items a actions idle in
    elim (IsListed-pending_rows now_iso items r a actions h) [
      | inl here ↦
          let own = has_id-deletion_row r a i here in
          let alone : count_where (has_id r.row_id) actions ≡ 0 = ground (arith, few, own) in
          rw
            (
              own,
              update_where-none (has_id r.row_id) (λ x. record x { delete_status = some deleting })
                  actions alone,
              calm.1,
              deletion_row-status a i (some deleting),
            )
            (ap (λ x. x ∷ []) (sym here))
      | inr later ↦
          let more = count_where-IsListed now_iso items r actions later in
          let other : has_id r.row_id a ≡ false = ground (arith, few, more) in
          rw (other, calm.0)
            (stuck_rows-update_where now_iso items r actions calm.1 (ground (arith, few, other))
              later)
    ]

-- The world in which a row is the only one whose deletion is under way.
recover_only :
    (e : Executor) (row : DeletionRow) (w : World)
    → fetch_stuck_deletions w.db ≡ row ∷ []
    → recover_stuck_deletions e.storage e.allowed_roots w
      ≡ record w { db = recover_row e.storage e.allowed_roots w.files row w.db }
unfolding recover_stuck_deletions recover_rows
recover_only e row w only =
    ap (λ rows. record w { db = recover_rows e.storage e.allowed_roots w.files rows w.db }) only

marked_is_stuck :
    (now_iso : Text) (row : DeletionRow) (w : World)
    → IsListed row (fetch_pending_deletions w.db now_iso)
    → fetch_stuck_deletions w.db ≡ []
    → count_where (has_id row.row_id) w.db.actions ≤ 1
    → fetch_stuck_deletions (mark_intent row w).db ≡ row ∷ []
unfolding fetch_pending_deletions fetch_stuck_deletions mark_intent mark_delete_status
marked_is_stuck now_iso row w due idle unique =
    stuck_rows-update_where now_iso w.db.items row w.db.actions idle unique due

-- For a row that a pass takes as due, the only one of its id, with a path in the allowed roots whose
-- file is there and is removed when asked, while no other deletion is under way.
-- A crash between the commit of the intent and the removal of the file: the next recovery puts the
-- action back to `pending`, and changes nothing else.
-- A crash between the removal and its commit: the next recovery leaves the files and the database as
-- the uninterrupted deletion does, which is the one audit row of the deletion and the end of the action.
pub crash_recovers :
    (e : Executor) (now_iso : Text) (row : DeletionRow) (w : World) (files' : List String)
    → IsListed row (fetch_pending_deletions w.db now_iso)
    → fetch_stuck_deletions w.db ≡ []
    → count_where (has_id row.row_id) w.db.actions ≤ 1
    → lexists row w.files ≡ true
    → e.storage.delete_path (path_text row.row_path) e.allowed_roots w.files ≡ (removed, files')
    → lexists row files' ≡ false
    → e.storage.path_within_delete_roots (path_text row.row_path) e.allowed_roots ≡ true
    → e.blank (path_text row.row_path) ≡ false
    → let w1 = recover_stuck_deletions e.storage e.allowed_roots (mark_intent row w) in
      let crashed = (delete_file_on_disk e.storage e.allowed_roots row (mark_intent row w)).0 in
      let w2 = recover_stuck_deletions e.storage e.allowed_roots crashed in
      let done = (delete_one e row w).0 in
      (w1 ≡ record w { db = mark_delete_status w.db row.row_id pending })
      × (w2.db ≡ done.db)
      × (w2.files ≡ done.files)
      × (done.db ≡ credit_deletion w.db row)
      × (done.files ≡ files')
      × ((delete_one e row w).1 ≡ true)
unfolding mark_intent delete_file_on_disk delete_one commit_deletion unmonitor settle recover_row
crash_recovers e now_iso row w files' due idle unique there gone absent within named =
    let marked = mark_intent row w in
    let left : World = record marked { files = files' } in
    let stuck = marked_is_stuck now_iso row w due idle unique in
    let crashed : (delete_file_on_disk e.storage e.allowed_roots row marked).0 ≡ left =
      rw gone refl in
    let back =
      ap (λ db. record w { db = db })
        (simp there (mark_delete_status_twice w.db row.row_id deleting pending)) in
    let done : (delete_one e row w).0.db ≡ credit_deletion w.db row =
      rw (named, gone) (credit-mark w.db row deleting) in
    let done_files : (delete_one e row w).0.files ≡ files' = rw (named, gone) refl in
    let recovered : recover_row e.storage e.allowed_roots files' row marked.db
        ≡ credit_deletion w.db row =
      simp (absent, within) (credit-mark w.db row deleting) in
    let second =
      ap (recover_stuck_deletions e.storage e.allowed_roots) crashed
      ∙ recover_only e row left stuck in
    (
      recover_only e row marked stuck ∙ back,
      ap (λ (v : World). v.db) second ∙ recovered ∙ sym done,
      ap (λ (v : World). v.files) second ∙ sym done_files,
      done,
      done_files,
      rw (named, gone) refl,
    )
