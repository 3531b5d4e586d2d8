-- ===== src/Scanner/OrphanGuard.antt =====
-- The guard of `remove_orphans`: which libraries wait for a second look, and that both tables agree.

use mediaman.Prelude.{
  Bool, Bool-cases, List, String, [], any, ap, arith, contains, false, inl, inr, length, nat_key,
  not, refl, select, string_key, true, ℕ, ◌&&◌, ◌++◌, ◌==◌, ◌||◌, ◌∷◌, ◌≡◌,
}
use mediaman.Scanner.Orphans.{
  minus, is_suspicious, resolve_prune_libs, count_items_in_libraries, remove_orphans,
}
use mediaman.Scanner.OrphanLaws.{remove_orphans-any}
use mediaman.Scanner.Table.{Db}

-- Every action belongs to an item.
abbrev pub Refers : Db → Type 0
Refers db =
    (m : String)
    → any (λ a. a.media_item_id == m) db.actions ≡ true
    → any (λ i. i.item_id == m) db.items ≡ true

-- Where every action has its item before, it has after, whatever is removed.
remove_orphans-Refers :
    (below_ratio : ℕ → ℕ → Bool) (seen : List String) (scanned pending : List ℕ) (db : Db)
    → Refers db
    → Refers (remove_orphans below_ratio seen scanned pending db).1.0
remove_orphans-Refers below_ratio seen scanned pending db refers m there =
    ground (arith, remove_orphans-any below_ratio seen scanned pending db m, refers m, there)

contains-select :
    (q : ℕ → Bool) (l : ℕ) (xs : List ℕ) → contains (select q xs) l ≡ (contains xs l && q l)
unfolding select
contains-select q l [] = refl
contains-select q l (x ∷ xs) = elim (Bool-cases (x == l)) [
  | inl same ↦ ground (arith, contains-select q l xs, same, ap q ((nat_key.same_iff x l).0 same))
  | inr other ↦ ground (arith, contains-select q l xs, other)
]

contains-append :
    (l : ℕ) (xs ys : List ℕ) → contains (xs ++ ys) l ≡ (contains xs l || contains ys l)
contains-append l [] ys = refl
contains-append l (x ∷ xs) ys = ground (arith, contains-append l xs ys)

resolve_prune_libs-waiting :
    (pending scanned : List ℕ) (suspicious : Bool) (l : ℕ)
    → contains (resolve_prune_libs pending scanned suspicious).1 l ≡ (
        contains pending l && not (contains scanned l)
        || suspicious && (contains scanned l && not (contains pending l)))
unfolding resolve_prune_libs
resolve_prune_libs-waiting pending scanned true l = ground (
  arith,
  contains-append l (minus pending scanned) (minus scanned pending),
  contains-select (λ x. not (contains scanned x)) l pending,
  contains-select (λ x. not (contains pending x)) l scanned,
)
resolve_prune_libs-waiting pending scanned false l =
    ground (arith, contains-select (λ x. not (contains scanned x)) l pending)

-- A library waits for a second look after a scan if it waited before and was not scanned, or if it
-- was scanned, did not wait, and the scan was suspicious. So two suspicious scans in a row are needed
-- to prune a library, and a healthy scan between them starts afresh.
pub remove_orphans-waiting :
    (below_ratio : ℕ → ℕ → Bool) (seen : List String) (scanned pending : List ℕ) (db : Db) (l : ℕ)
    → contains (remove_orphans below_ratio seen scanned pending db).0 l ≡ (
        contains pending l && not (contains scanned l)
        || is_suspicious below_ratio (length seen) (count_items_in_libraries db scanned)
          && (contains scanned l && not (contains pending l)))
unfolding remove_orphans
remove_orphans-waiting below_ratio seen [] pending db l = ground arith
remove_orphans-waiting below_ratio seen (s ∷ scanned) pending db l =
    resolve_prune_libs-waiting pending (s ∷ scanned)
      (is_suspicious below_ratio (length seen) (count_items_in_libraries db (s ∷ scanned))) l
