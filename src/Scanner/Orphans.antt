-- ===== src/Scanner/Orphans.antt =====
-- src/mediaman/scanner/phases/delete.py: the removal of items that Plex no longer has. A set is the
-- list of its members.

use mediaman.Prelude.{
  Bool, List, String, [], contains, count_where, delete_where, if◌then◌else◌, is_empty, leb, length,
  ltb, nat_key, not, select, string_key, ℕ, ◌&&◌, ◌++◌, ◌||◌, ◌∷◌,
}
use mediaman.Scanner.Table.{MediaItem, delete_actions_for_media_items, Db}

-- The members of `xs` that are in `ys`, and those that are not.
abbrev pub meet : List ℕ → List ℕ → List ℕ
meet xs ys = select (λ x. contains ys x) xs

abbrev pub minus : List ℕ → List ℕ → List ℕ
minus xs ys = select (λ x. not (contains ys x)) xs

abbrev pub min_items : ℕ
min_items = 5

abbrev pub min_items_for_ratio : ℕ
min_items_for_ratio = 50

-- `_suspicious_reason`, as whether there is one. The test of the ratio, `current_count <
-- previous_count * 0.10` on floats, is a parameter.
unfoldable pub is_suspicious : (ℕ → ℕ → Bool) → ℕ → ℕ → Bool
is_suspicious below_ratio current previous =
    ltb current min_items && leb min_items previous
    || ltb min_items_for_ratio previous && below_ratio current previous

-- `_resolve_prune_libs`: the libraries to prune, and those that wait for a second look.
unfoldable pub resolve_prune_libs : List ℕ → List ℕ → Bool → List ℕ × List ℕ
resolve_prune_libs pending scanned suspicious =
    if suspicious
    then (meet scanned pending, minus pending scanned ++ minus scanned pending)
    else (scanned, minus pending scanned)

abbrev pub in_libraries : List ℕ → MediaItem → Bool
in_libraries libs i = contains libs i.library_id

unfoldable pub count_items_in_libraries : Db → List ℕ → ℕ
count_items_in_libraries db libs = count_where (in_libraries libs) db.items

-- The ids of the rows that `p` selects.
unfoldable pub ids_where : (MediaItem → Bool) → List MediaItem → List String
ids_where p [] = []
ids_where p (i ∷ items) = let rest = ids_where p items in if p i then i.item_id ∷ rest else rest

abbrev pub fetch_ids_in_libraries : Db → List ℕ → List String
fetch_ids_in_libraries db libs = ids_where (in_libraries libs) db.items

unfoldable pub delete_media_items : Db → List String → Db
delete_media_items db ids = record db {
  items = delete_where (λ i. contains ids i.item_id) db.items;
}

-- The rows of the orphans go from both tables, in one transaction.
unfoldable pub drop_rows : Db → List String → Db × ℕ
drop_rows db orphans =
    if is_empty orphans
    then (db, 0)
    else (delete_media_items (delete_actions_for_media_items db orphans) orphans, length orphans)

unfoldable pub prune : Db → List String → List ℕ → Db × ℕ
prune db seen libs =
    if is_empty libs
    then (db, 0)
    else drop_rows db (select (λ i. not (contains seen i)) (fetch_ids_in_libraries db libs))

-- `remove_orphans`: the libraries that wait, the tables, and how many rows went.
unfoldable pub remove_orphans :
    (ℕ → ℕ → Bool) → List String → List ℕ → List ℕ → Db → List ℕ × (Db × ℕ)
remove_orphans below_ratio seen scanned pending db =
    let suspicious =
      is_suspicious below_ratio (length seen) (count_items_in_libraries db scanned) in
    let (libs, waiting) = resolve_prune_libs pending scanned suspicious in
    if is_empty scanned then (pending, (db, 0)) else (waiting, prune db seen libs)
