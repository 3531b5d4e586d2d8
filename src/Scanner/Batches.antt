-- ===== src/Scanner/Batches.antt =====
-- The batched reads of `_protection.py` answer as the reads of one item do.

use mediaman.Prelude.{
  Bool, Bool-cases, List, Option, String, [], any, arith, contains, drop, false, find, inl, inr,
  length, none, refl, some, string_key, suc, take, zero, ℕ, ◌&&◌, ◌++◌, ◌==◌, ◌||◌, ◌∙◌, ◌∷◌, ◌≡◌,
  ◌≤◌,
}
use mediaman.Scanner.Table.{KeptShow, is_open_deletion, Action, Db}
use mediaman.Scanner.Protection.{
  is_already_scheduled, keeps_show, is_show_kept_pure, chunk_size,
  fetch_already_scheduled_media_ids, select_keys, fetch_kept_show_keys, protects, is_protected,
  select_ids, in_chunks, fetch_protected_media_ids,
}
use mediaman.Core.Time.{Text}

contains-append :
    (xs ys : List String) (m : String) → contains (xs ++ ys) m ≡ (contains xs m || contains ys m)
contains-append [] ys m = refl
contains-append (x ∷ xs) ys m = ground (arith, contains-append xs ys m)

contains-take-drop :
    (n : ℕ) (xs : List String) (m : String)
    → (contains (take n xs) m || contains (drop n xs) m) ≡ contains xs m
contains-take-drop zero xs m = refl
contains-take-drop (suc n) [] m = refl
contains-take-drop (suc n) (x ∷ xs) m = ground (arith, contains-take-drop n xs m)

length-drop-le : (n : ℕ) (xs : List String) → length (drop n xs) ≤ length xs
length-drop-le zero xs = omega arith
length-drop-le (suc n) [] = omega arith
length-drop-le (suc n) (x ∷ xs) = omega (arith, length-drop-le n xs)

-- A query that finds `m` in a chunk exactly if `m` is in it and `q` holds finds it so in the whole.
contains-in_chunks :
    (fuel size : ℕ) (query : List String → List String) (ids : List String) (m : String) (q : Bool)
    → ((chunk : List String) → contains (query chunk) m ≡ (contains chunk m && q))
    → length ids ≤ fuel
    → contains (in_chunks fuel (suc size) query ids) m ≡ (contains ids m && q)
unfolding in_chunks
contains-in_chunks zero size query [] m q spec h = refl
contains-in_chunks zero size query (i ∷ ids) m q spec h = absurd (omega arith)
contains-in_chunks (suc fuel) size query [] m q spec h = refl
contains-in_chunks (suc fuel) size query (i ∷ ids) m q spec h = ground (
  arith,
  contains-append (query (i ∷ take size ids)) (in_chunks fuel (suc size) query (drop size ids)) m,
  spec (i ∷ take size ids),
  contains-in_chunks fuel size query (drop size ids) m q spec
      (omega (arith, length-drop-le size ids)),
  contains-take-drop size ids m,
)

contains-select_ids :
    (p : Action → Bool) (chunk : List String) (actions : List Action) (m : String)
    → contains (select_ids p chunk actions) m
      ≡ (contains chunk m && any (λ a. a.media_item_id == m && p a) actions)
unfolding select_ids
contains-select_ids p chunk [] m = ground arith
contains-select_ids p chunk (a ∷ actions) m =
    ground (arith, contains-select_ids p chunk actions m, string_key.same_iff a.media_item_id m)

contains-chunked :
    (p : Action → Bool) (actions : List Action) (ids : List String) (m : String)
    → contains (in_chunks (length ids) chunk_size (λ chunk. select_ids p chunk actions) ids) m
      ≡ (contains ids m && any (λ a. a.media_item_id == m && p a) actions)
contains-chunked p actions ids m =
    contains-in_chunks (length ids) 499 (λ chunk. select_ids p chunk actions) ids m
      (any (λ a. a.media_item_id == m && p a) actions)
      (λ chunk. contains-select_ids p chunk actions m) (omega arith)

-- An item is in the batch-loaded set of protected items exactly if it was asked for and is
-- protected, and in that of scheduled items exactly if it was asked for and is already scheduled.
pub contains-fetch_guards :
    (db : Db) (media_ids : List String) (now_iso : Text) (m : String)
    → (contains (fetch_protected_media_ids db media_ids now_iso) m
        ≡ (contains media_ids m && is_protected db now_iso m))
      × (contains (fetch_already_scheduled_media_ids db media_ids) m
          ≡ (contains media_ids m && is_already_scheduled db m))
unfolding is_protected is_already_scheduled fetch_protected_media_ids
    fetch_already_scheduled_media_ids
contains-fetch_guards db media_ids now_iso m = (
  contains-chunked (protects now_iso) db.actions media_ids m,
  contains-chunked is_open_deletion db.actions media_ids m,
)

-- `show_rating_key` is UNIQUE.
abbrev pub DistinctShows : List KeptShow → Type 0
DistinctShows [] = Unit
DistinctShows (k ∷ shows) =
    (find (λ j. j.show_rating_key == k.show_rating_key) shows ≡ none) × DistinctShows shows

-- The answer of the read of one show.
abbrev pub found_kept : Text → Option KeptShow → Bool
found_kept now_iso none = false
found_kept now_iso (some k) = keeps_show now_iso k

contains-select_keys-none :
    (now_iso : Text) (chunk : List String) (shows : List KeptShow) (key : String)
    → find (λ k. k.show_rating_key == key) shows ≡ none
    → contains (select_keys now_iso chunk shows) key ≡ false
unfolding select_keys find
contains-select_keys-none now_iso chunk [] key h = refl
contains-select_keys-none now_iso chunk (k ∷ shows) key h =
    ground (arith, contains-select_keys-none now_iso chunk shows key)

contains-select_keys :
    (now_iso : Text) (chunk : List String) (shows : List KeptShow) (key : String)
    → DistinctShows shows
    → contains (select_keys now_iso chunk shows) key
      ≡ (contains chunk key && found_kept now_iso (find (λ k. k.show_rating_key == key) shows))
unfolding select_keys find
contains-select_keys now_iso chunk [] key d = ground arith
contains-select_keys now_iso chunk (k ∷ shows) key d =
    elim (Bool-cases (k.show_rating_key == key)) [
      | inl same ↦ ground (
        arith,
        same,
        string_key.same_iff k.show_rating_key key,
        contains-select_keys-none now_iso chunk shows key
            (rw (← (string_key.same_iff k.show_rating_key key).0 same) d.0),
      )
      | inr other ↦ ground (arith, other, contains-select_keys now_iso chunk shows key d.1)
    ]

-- Where no show has two rows, a show whose key is not empty is in the batch-loaded set of kept shows
-- exactly if it was asked for and is kept.
pub contains-fetch_kept :
    (db : Db) (keys : List String) (now_iso : Text) (key : String)
    → DistinctShows db.kept_shows
    → (key == "") ≡ false
    → contains (fetch_kept_show_keys db keys now_iso) key
      ≡ (contains keys key && is_show_kept_pure db (some key) now_iso)
unfolding is_show_kept_pure fetch_kept_show_keys
contains-fetch_kept db keys now_iso key d named =
    contains-in_chunks (length keys) 499 (λ chunk. select_keys now_iso chunk db.kept_shows) keys key
      (found_kept now_iso (find (λ k. k.show_rating_key == key) db.kept_shows))
      (λ chunk. contains-select_keys now_iso chunk db.kept_shows key d) (omega arith)
    ∙ ground (arith, named)
