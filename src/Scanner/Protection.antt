-- ===== src/Scanner/Protection.antt =====
-- src/mediaman/scanner/repository/_protection.py: which items and shows are kept.

use mediaman.Prelude.{
  Bool, List, Option, String, [], any, contains, count_where, delete_where, drop, false, find,
  if◌then◌else◌, is_some, length, none, not, some, string_key, suc, take, true, zero, ℕ, ◌&&◌, ◌++◌,
  ◌==◌, ◌||◌, ◌∷◌,
}
use mediaman.Scanner.Table.{is_snoozed, is_forever, Action, KeptShow, Db, is_open_deletion}
use mediaman.Core.Time.{Text, sql_le, sql_ge, sql_lt}

-- A protection that is in force at `now`.
abbrev pub protects : Text → Action → Bool
protects now_iso a = is_forever a.action || is_snoozed a.action && sql_ge a.execute_at now_iso

unfoldable pub is_protected : Db → Text → String → Bool
is_protected db now_iso media_id =
    any (λ a. a.media_item_id == media_id && protects now_iso a) db.actions

unfoldable pub is_already_scheduled : Db → String → Bool
is_already_scheduled db media_id =
    any (λ a. a.media_item_id == media_id && is_open_deletion a) db.actions

unfoldable pub has_expired_snooze : Db → String → Bool
has_expired_snooze db media_id =
    any (λ a. a.media_item_id == media_id && (is_snoozed a.action && a.token_used)) db.actions

-- A live row of `kept_shows`: `action` is `protected_forever`, or `execute_at` lies in the future.
abbrev pub keeps_show : Text → KeptShow → Bool
keeps_show now_iso k =
    is_forever k.kept_action || not (sql_le k.kept_until now_iso) && is_some k.kept_until

unfoldable pub is_show_kept_pure : Db → Option String → Text → Bool
is_show_kept_pure db none now_iso = false
is_show_kept_pure db (some key) now_iso =
    if key == "" then false else (elim (find (λ k. k.show_rating_key == key) db.kept_shows) [
      | none ↦ false
      | some k ↦ keeps_show now_iso k
    ])

-- A snoozed keep that has lapsed.
abbrev pub lapsed : Text → KeptShow → Bool
lapsed now_iso k = is_snoozed k.kept_action && sql_le k.kept_until now_iso

unfoldable pub cleanup_expired_show_snoozes : Db → Text → Db × ℕ
cleanup_expired_show_snoozes db now_iso = (
  record db { kept_shows = delete_where (lapsed now_iso) db.kept_shows },
  count_where (lapsed now_iso) db.kept_shows,
)

unfoldable pub is_show_kept : Db → Option String → Text → Db × Bool
is_show_kept db key now_iso =
    let kept = is_show_kept_pure db key now_iso in
    let swept = (cleanup_expired_show_snoozes db now_iso).0 in
    elim key [
      | none ↦ (db, false)
      | some k ↦ if k == "" then (db, false) else if kept then (db, true) else (swept, false)
    ]

-- The rows of one `SELECT ... WHERE media_item_id IN (chunk)`.
unfoldable pub select_ids : (Action → Bool) → List String → List Action → List String
select_ids p chunk [] = []
select_ids p chunk (a ∷ actions) =
    if contains chunk a.media_item_id && p a
    then a.media_item_id ∷ select_ids p chunk actions
    else select_ids p chunk actions

-- The loop over chunks of `size` ids, on fuel: one round for each chunk, so that the number of ids
-- is enough.
unfoldable pub in_chunks : ℕ → ℕ → (List String → List String) → List String → List String
in_chunks zero size query ids = []
in_chunks (suc fuel) size query [] = []
in_chunks (suc fuel) size query (i ∷ ids) =
    let rest = in_chunks fuel size query (drop size (i ∷ ids)) in
    query (take size (i ∷ ids)) ++ rest

abbrev pub chunk_size : ℕ
chunk_size = 500

-- `fetch_protected_media_ids`: the set of those among `media_ids` that are protected.
unfoldable pub fetch_protected_media_ids : Db → List String → Text → List String
fetch_protected_media_ids db media_ids now_iso =
    in_chunks (length media_ids) chunk_size
      (λ chunk. select_ids (protects now_iso) chunk db.actions) media_ids

unfoldable pub fetch_already_scheduled_media_ids : Db → List String → List String
fetch_already_scheduled_media_ids db media_ids =
    in_chunks (length media_ids) chunk_size (λ chunk. select_ids is_open_deletion chunk db.actions)
      media_ids

unfoldable pub select_keys : Text → List String → List KeptShow → List String
select_keys now_iso chunk [] = []
select_keys now_iso chunk (k ∷ shows) =
    if contains chunk k.show_rating_key && keeps_show now_iso k
    then k.show_rating_key ∷ select_keys now_iso chunk shows
    else select_keys now_iso chunk shows

unfoldable pub fetch_kept_show_keys : Db → List String → Text → List String
fetch_kept_show_keys db show_keys now_iso =
    in_chunks (length show_keys) chunk_size (λ chunk. select_keys now_iso chunk db.kept_shows)
      show_keys

-- An unconsumed snooze that has expired.
abbrev pub swept_snooze : Text → Action → Bool
swept_snooze now_iso a = is_snoozed a.action && not a.token_used && sql_lt a.execute_at now_iso

unfoldable pub cleanup_expired_snoozes : Db → Text → Db
cleanup_expired_snoozes db now_iso = record db {
  actions = delete_where (swept_snooze now_iso) db.actions;
}
