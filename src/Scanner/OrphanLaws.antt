-- ===== src/Scanner/OrphanLaws.antt =====
-- What `remove_orphans` removes and what it never touches.

use mediaman.Prelude.{
  Bool, Bool-cases, List, String, [], any, ap, arith, contains, delete_where, false, if◌then◌else◌,
  inl, inr, length, nat_key, not, refl, select, string_key, ℕ, ◌&&◌, ◌==◌, ◌∙◌, ◌∷◌, ◌≡◌,
}
use mediaman.Scanner.Orphans.{
  drop_rows, meet, is_suspicious, resolve_prune_libs, in_libraries, count_items_in_libraries,
  remove_orphans, prune, fetch_ids_in_libraries, delete_media_items, ids_where,
}
use mediaman.Scanner.Table.{Db, delete_actions_for_media_items, MediaItem}

-- The row that `key` reads as `m` is there.
module _ {ℓ} {A : Type ℓ} (key : A → String) where
  any-delete_keys :
      (ids : List String) (m : String) (rows : List A)
      → any (λ r. key r == m) (delete_where (λ r. contains ids (key r)) rows)
        ≡ (any (λ r. key r == m) rows && not (contains ids m))
  unfolding delete_where
  any-delete_keys ids m [] = refl
  any-delete_keys ids m (r ∷ rows) = elim (Bool-cases (key r == m)) [
    | inl same ↦ ground (
      arith,
      any-delete_keys ids m rows,
      same,
      ap (contains ids) ((string_key.same_iff (key r) m).0 same),
    )
    | inr other ↦ ground (arith, any-delete_keys ids m rows, other)
  ]

contains-select-ids_where :
    (q : String → Bool) (p : MediaItem → Bool) (m : String) (items : List MediaItem)
    → contains (select q (ids_where p items)) m
      ≡ any (λ i. i.item_id == m && (p i && q i.item_id)) items
unfolding ids_where select
contains-select-ids_where q p m [] = refl
contains-select-ids_where q p m (i ∷ items) = ground (arith, contains-select-ids_where q p m items)

-- The item is in a library that is pruned, and Plex no longer has it.
abbrev pub is_orphan : List String → List ℕ → MediaItem → Bool
is_orphan seen libs i = contains libs i.library_id && not (contains seen i.item_id)

-- Some row with the key `m` is an orphan.
abbrev pub has_orphan : List String → List ℕ → String → List MediaItem → Bool
has_orphan seen libs m items = any (λ i. i.item_id == m && is_orphan seen libs i) items

drop_rows-any :
    (db : Db) (ids : List String) (m : String)
    → let db' = (drop_rows db ids).0 in
      (any (λ i. i.item_id == m) db'.items
        ≡ (any (λ i. i.item_id == m) db.items && not (contains ids m)))
      × (any (λ a. a.media_item_id == m) db'.actions
          ≡ (any (λ a. a.media_item_id == m) db.actions && not (contains ids m)))
unfolding drop_rows delete_media_items delete_actions_for_media_items
drop_rows-any db [] m = (ground arith, ground arith)
drop_rows-any db (i ∷ ids) m = (
  any-delete_keys (λ r. r.item_id) (i ∷ ids) m db.items,
  any-delete_keys (λ r. r.media_item_id) (i ∷ ids) m db.actions,
)

has_orphan_nowhere :
    (seen : List String) (m : String) (items : List MediaItem) → has_orphan seen [] m items ≡ false
has_orphan_nowhere seen m [] = refl
has_orphan_nowhere seen m (i ∷ items) = ground (arith, has_orphan_nowhere seen m items)

prune-any :
    (db : Db) (seen : List String) (libs : List ℕ) (m : String)
    → let db' = (prune db seen libs).0 in
      (any (λ i. i.item_id == m) db'.items
        ≡ (any (λ i. i.item_id == m) db.items && not (has_orphan seen libs m db.items)))
      × (any (λ a. a.media_item_id == m) db'.actions
          ≡ (any (λ a. a.media_item_id == m) db.actions && not (has_orphan seen libs m db.items)))
unfolding prune
prune-any db seen [] m = rw (has_orphan_nowhere seen m db.items) (ground arith, ground arith)
prune-any db seen (l ∷ libs) m =
    let orphans = select (λ i. not (contains seen i)) (fetch_ids_in_libraries db (l ∷ libs)) in
    let named =
      contains-select-ids_where (λ i. not (contains seen i)) (in_libraries (l ∷ libs)) m db.items in
    let h = drop_rows-any db orphans m in
    (
      h.0 ∙ ap (λ b. any (λ i. i.item_id == m) db.items && not b) named,
      h.1 ∙ ap (λ b. any (λ a. a.media_item_id == m) db.actions && not b) named,
    )

-- The libraries that a scan of `scanned` may prune: all of them, or, when the scan is suspicious, those
-- that were waiting for a second look.
abbrev pub trusted : (ℕ → ℕ → Bool) → List String → List ℕ → List ℕ → Db → List ℕ
trusted below_ratio seen scanned pending db =
    if is_suspicious below_ratio (length seen) (count_items_in_libraries db scanned)
    then meet scanned pending
    else scanned

trusted_none :
    (below_ratio : ℕ → ℕ → Bool) (seen : List String) (pending : List ℕ) (db : Db)
    → trusted below_ratio seen [] pending db ≡ []
unfolding select
trusted_none below_ratio seen pending db =
    elim (Bool-cases (is_suspicious below_ratio (length seen) (count_items_in_libraries db []))) [
      | inl smaller ↦ rw smaller refl
      | inr healthy ↦ rw healthy refl
    ]

-- A media item goes, with its actions, exactly if it is in a library that was scanned and is trusted,
-- and Plex no longer has it: the scan is not suspicious, or the library waited for a second look.
-- Everything else stays in both tables.
pub remove_orphans-any :
    (below_ratio : ℕ → ℕ → Bool) (seen : List String) (scanned pending : List ℕ) (db : Db)
    (m : String)
    → let db' = (remove_orphans below_ratio seen scanned pending db).1.0 in
      let gone = has_orphan seen (trusted below_ratio seen scanned pending db) m db.items in
      (any (λ i. i.item_id == m) db'.items ≡ (any (λ i. i.item_id == m) db.items && not gone))
      × (any (λ a. a.media_item_id == m) db'.actions
          ≡ (any (λ a. a.media_item_id == m) db.actions && not gone))
unfolding remove_orphans resolve_prune_libs
remove_orphans-any below_ratio seen [] pending db m =
    rw (trusted_none below_ratio seen pending db, has_orphan_nowhere seen m db.items)
      (ground arith, ground arith)
remove_orphans-any below_ratio seen (l ∷ scanned) pending db m =
    elim (Bool-cases
      (is_suspicious below_ratio (length seen) (count_items_in_libraries db (l ∷ scanned)))) [
        | inl smaller ↦ rw smaller (prune-any db seen (meet (l ∷ scanned) pending) m)
        | inr healthy ↦ rw healthy (prune-any db seen (l ∷ scanned) m)
      ]
