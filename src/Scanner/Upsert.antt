-- ===== src/Scanner/Upsert.antt =====
-- src/mediaman/scanner/phases/upsert.py: what the scan writes for an item. An item
-- carries the instant at which it is judged, the one at which it is written, and the steps at which its
-- handling raises one of the exceptions that the loop catches.

use mediaman.Prelude.{
  Bool, List, Option, String, [], any, false, if◌then◌else◌, none, some, string_key, true,
  update_where, ℕ, ◌&&◌, ◌*◌, ◌++◌, ◌+◌, ◌==◌, ◌||◌, ◌∷◌,
}
use mediaman.Crypto.Tokens.{Codec, Cache}
use mediaman.Crypto.Kinds.{ascii, seconds, generate_keep_token}
use mediaman.Scanner.ArrDates.{arr_date_of}
use mediaman.Scanner.Table.{
  pending, scheduled_deletion, Action, MediaItem, scheduled_audit, Db, log_audit, is_pending,
  is_open_deletion,
}
use mediaman.Scanner.Eligibility.{viewed, day, most_recent}
use mediaman.Prelude.Dict.{erase, lookup, insert, Dict}
use mediaman.Core.Time.{normalise, Text, Datetime, parse_iso_utc, text_leb}

pub data Stage : Type 0 where
  upserting watching evaluating inserting hashing auditing : Stage

-- `PlexItemFetch`
pub record Fetch : Type 0 where
  pub rating_key : String
  pub show_key : Option String
  pub of_library : ℕ
  pub path : String
  pub size_bytes : Option ℕ
  pub season : Option ℕ
  pub plex_added_at : Option ℕ
  pub watch_history : List (Option ℕ)
  pub at : ℕ
  pub written_at : ℕ
  pub raises : Stage → Bool

-- What the scan writes: the tables, the last id that AUTOINCREMENT gave out, the columns `added_at`
-- and `last_watched_at` of `media_items`, and the cache of sub-keys.
pub record ScanStore : Type 0 where
  pub db : Db
  pub last_id : ℕ
  pub added_at : Dict String Text
  pub last_watched : Dict String Text
  pub subkeys : Cache

-- `ScanEngine`; `sha256_hex` is `hashlib.sha256(...).hexdigest()`, `offset_iso` the `isoformat()` of
-- what `fromisoformat` makes of a text, in the offset of the text, or in UTC where it has none. The dates
-- are those that the arrs have answered; the requests that load them are not modelled.
pub record Engine : Type 0 where
  pub lib : Datetime
  pub codec : Codec
  pub sha256_hex : Text → String
  pub offset_iso : Text → Text
  pub secret_key : Text
  pub min_age_days : ℕ
  pub inactivity_days : ℕ
  pub grace_days : ℕ
  pub preview_only : Bool
  pub arr_dates : Dict Text Text

-- The `added_at` that is stored, from the date of the arr, that of Plex and the present.
unfoldable pub plex_text : Datetime → Option ℕ → ℕ → Text
plex_text lib none now = lib.isoformat now
plex_text lib (some t) now = lib.isoformat t

unfoldable pub parsed_text : (Text → Text) → Option ℕ → Text → Text
parsed_text offset_iso none raw = raw
parsed_text offset_iso (some t) raw = offset_iso (normalise raw)

unfoldable pub stored_added_at : (Text → Text) → Datetime → Option Text → Option ℕ → ℕ → Text
stored_added_at offset_iso lib none plex now = plex_text lib plex now
stored_added_at offset_iso lib (some []) plex now = plex_text lib plex now
stored_added_at offset_iso lib (some (c ∷ s)) plex now =
    parsed_text offset_iso (parse_iso_utc lib (some (c ∷ s))) (c ∷ s)

-- What the latest Plex view owns of a row.
abbrev pub refreshed : Fetch → MediaItem → MediaItem
refreshed f i = record i {
  library_id = f.of_library;
  file_path = f.path;
  file_size_bytes = f.size_bytes;
  season_number = f.season;
}

abbrev pub fresh_item : Fetch → MediaItem
fresh_item f = record {
  item_id = f.rating_key;
  library_id = f.of_library;
  file_path = f.path;
  file_size_bytes = f.size_bytes;
  radarr_id = none;
  sonarr_id = none;
  season_number = f.season;
}

-- `upsert_media_item`: a row that is new has no `last_watched_at`.
unfoldable pub upsert_media_item : Engine → Fetch → ScanStore → ScanStore
upsert_media_item e f s =
    let present = any (λ i. i.item_id == f.rating_key) s.db.items in
    let date = arr_date_of e.arr_dates f.path in
    let items' =
      (if present
        then update_where (λ i. i.item_id == f.rating_key) (refreshed f) s.db.items
        else s.db.items ++ fresh_item f ∷ []) in
    record s {
      db = record s.db { items = items' };
      added_at =
          insert f.rating_key (stored_added_at e.offset_iso e.lib date f.plex_added_at f.written_at)
            s.added_at;
      last_watched = if present then s.last_watched else erase f.rating_key s.last_watched;
    }

-- `MAX(?, COALESCE(last_watched_at, ''))`
unfoldable pub later_text : Text → Option Text → Text
later_text t none = t
later_text t (some old) = if text_leb old t then t else old

unfoldable pub watched_at : Datetime → List ℕ → Option Text → Option Text
watched_at lib [] old = old
watched_at lib (t ∷ ts) old = some (later_text (lib.isoformat (most_recent t ts)) old)

unfoldable pub set_or_keep : String → Option Text → Dict String Text → Dict String Text
set_or_keep k none d = d
set_or_keep k (some t) d = insert k t d

unfoldable pub update_last_watched : Engine → Fetch → ScanStore → ScanStore
update_last_watched e f s = record s {
  last_watched =
      set_or_keep f.rating_key
        (watched_at e.lib (viewed f.watch_history) (lookup f.rating_key s.last_watched))
        s.last_watched;
}

-- `upsert_item`, and whether it got through.
unfoldable pub upsert_item : Engine → Fetch → ScanStore → ScanStore × Bool
upsert_item e f s =
    let s' = upsert_media_item e f s in
    if f.raises upserting
    then (s, false)
    else if f.raises watching
    then (s', false)
    else (update_last_watched e f s', true)

pub data Scheduled : Type 0 where
  was_scheduled was_skipped has_raised : Scheduled

-- What the partial unique index counts.
abbrev pub is_active : Action → Bool
is_active a = is_open_deletion a && is_pending a.delete_status

unfoldable pub violates_unique : Db → String → Bool
violates_unique db media_id = any (λ a. a.media_item_id == media_id && is_active a) db.actions

abbrev pub token_ttl_days : ℕ
token_ttl_days = 30

-- `expires_at` of the keep token.
abbrev pub keep_expiry : ℕ → ℕ
keep_expiry now = seconds (now + token_ttl_days * day)

-- The keep token of the row that comes next.
unfoldable pub next_token : Engine → String → ℕ → ScanStore → Text × Cache
next_token e media_id now s =
    generate_keep_token e.codec (ascii media_id) (s.last_id + 1) (keep_expiry now) e.secret_key
      s.subkeys

abbrev pub scheduled_row : Engine → String → Bool → ℕ → ℕ → Option String → Action
scheduled_row e media_id reentry now row_id hash = record {
  id = row_id;
  media_item_id = media_id;
  action = scheduled_deletion;
  execute_at = some (e.lib.isoformat (now + e.grace_days * day));
  token_used = false;
  snoozed_at = none;
  snooze_duration = none;
  is_reentry = reentry;
  delete_status = some pending;
  token_hash = hash;
}

-- The INSERT and the UPDATE of the new row, which sets its hash unless it raises.
unfoldable pub insert_action : Engine → String → Bool → Fetch → ScanStore → ScanStore
insert_action e media_id reentry f s =
    let (token, subkeys') = next_token e media_id f.at s in
    let hash = (if f.raises hashing then none else some (e.sha256_hex token)) in
    record s {
      db = record s.db {
        actions = s.db.actions ++ scheduled_row e media_id reentry f.at (s.last_id + 1) hash ∷ [];
      };
      last_id = s.last_id + 1;
      subkeys = subkeys';
    }

-- `schedule_deletion`
unfoldable pub schedule_deletion :
    Engine → String → Bool → Fetch → ScanStore → ScanStore × Scheduled
schedule_deletion e media_id reentry f s =
    let s' = insert_action e media_id reentry f s in
    if f.raises inserting
    then (s, has_raised)
    else if violates_unique s.db media_id
    then (s, was_skipped)
    else if f.raises hashing || f.raises auditing
    then (s', has_raised)
    else (record s' { db = log_audit s'.db media_id scheduled_audit none }, was_scheduled)
