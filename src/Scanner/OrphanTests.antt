-- ===== src/Scanner/OrphanTests.antt =====
-- Two scans of a library that has shrunk to nothing, and the theorems on orphans applied there.

use mediaman.Prelude.{
  Bool, String, [], any, arith, count_where, delete_where, false, ltb, nat_key, none, not, refl,
  select, string_key, ℕ, ◌&&◌, ◌*◌, ◌==◌, ◌∷◌, ◌≡◌,
}
use mediaman.Scanner.Orphans.{
  prune, ids_where, delete_media_items, drop_rows, is_suspicious, resolve_prune_libs,
  count_items_in_libraries, remove_orphans,
}
use mediaman.Scanner.OrphanLaws.{trusted, has_orphan, remove_orphans-any}
use mediaman.Scanner.OrphanGuard.{Refers}
use mediaman.Scanner.Table.{delete_actions_for_media_items, scheduled_deletion, MediaItem, Db}

abbrev episode : String → MediaItem
episode m = record {
  item_id = m;
  library_id = 1;
  file_path = "/tv";
  file_size_bytes = none;
  radarr_id = none;
  sonarr_id = none;
  season_number = none;
}

abbrev tv : Db
tv = record {
  actions =
      (record {
        id = 1;
        media_item_id = "a";
        action = scheduled_deletion;
        execute_at = none;
        token_used = false;
        snoozed_at = none;
        snooze_duration = none;
        is_reentry = false;
        delete_status = none;
        token_hash = none;
      })
      ∷ [];
  items = episode "a" ∷ episode "b" ∷ episode "c" ∷ episode "d" ∷ episode "e" ∷ [];
  kept_shows = [];
  audits = [];
  tokens_used = [];
}

abbrev tenth : ℕ → ℕ → Bool
tenth current previous = ltb (10 * current) previous

-- The first look removes nothing and makes the library wait, the second removes all.
two_looks :
    (remove_orphans tenth [] (1 ∷ []) [] tv ≡ (1 ∷ [], (tv, 0)))
    × (remove_orphans tenth [] (1 ∷ []) (1 ∷ []) tv
        ≡ ([], (record tv { actions = []; items = [] }, 5)))
unfolding remove_orphans resolve_prune_libs is_suspicious count_items_in_libraries prune count_where
    select drop_rows ids_where delete_media_items delete_actions_for_media_items delete_where
two_looks = (refl, refl)

remove_orphans-any_example :
    let db' = (remove_orphans tenth ("b" ∷ []) (1 ∷ []) (1 ∷ []) tv).1.0 in
    let gone = has_orphan ("b" ∷ []) (trusted tenth ("b" ∷ []) (1 ∷ []) (1 ∷ []) tv) "a" tv.items in
    (any (λ i. i.item_id == "a") db'.items ≡ (any (λ i. i.item_id == "a") tv.items && not gone))
    × (any (λ a. a.media_item_id == "a") db'.actions
        ≡ (any (λ a. a.media_item_id == "a") tv.actions && not gone))
remove_orphans-any_example = remove_orphans-any tenth ("b" ∷ []) (1 ∷ []) (1 ∷ []) tv "a"

tv-Refers : Refers tv
tv-Refers m there = ground arith
