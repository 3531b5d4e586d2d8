-- ===== src/Search/Throttle.antt =====
-- src/mediaman/services/arr/_throttle_state.py and _throttle_persistence.py: what is remembered of the
-- searches, in memory and in a table. Instants are in microseconds, and 0 stands for `0.0`.

use mediaman.Prelude.{
  Bool, Option, String, [], if◌then◌else◌, is_some, length, ltb, nat_beq, none, some, string_key, ℕ,
  ◌&&◌, ◌*◌, ◌-◌, ◌||◌, ◌∷◌,
}
use mediaman.Prelude.Dict.{insert, lookup, erase, Dict}
use mediaman.Core.Time.{Text, Datetime, parse_iso_utc, text_leb}
use mediaman.Search.Backoff.{finite, delay, ExponentialBackoff, Result, Uniform}

-- The dicts that the lock guards.
pub record Throttle : Type 0 where
  pub last_search_trigger : Dict String ℕ
  pub search_count : Dict String ℕ
  pub reservation_tokens : Dict String String
  pub last_search_trigger_by_arr : Dict String (ℕ × String)

-- A row of `arr_search_throttle`.
pub record ThrottleRow : Type 0 where
  pub last_triggered_at : Text
  pub row_count : ℕ

abbrev pub ThrottleTable : Type 0
ThrottleTable = Dict String ThrottleRow

pub record Store : Type 0 where
  pub memory : Throttle
  pub table : ThrottleTable

-- What the searches take from outside: the instants as text, the generator of jitter, and the bytes
-- of an id and an instant.
pub record Library : Type 0 where
  pub datetime : Datetime
  pub uniform : Uniform
  pub seed : String → ℕ → Text

-- `d.get(key, default)`
unfoldable pub default : {A : Type 0} → A → Option A → A
default x none = x
default x (some y) = y

abbrev pub last_of : Throttle → String → ℕ
last_of s dl_id = default 0 (lookup dl_id s.last_search_trigger)

abbrev pub searches_of : Throttle → String → ℕ
searches_of s dl_id = default 0 (lookup dl_id s.search_count)

abbrev pub search_backoff : ExponentialBackoff
search_backoff = record { base = 120; max_seconds = 86400; jitter = finite 100000 }

-- `_search_backoff_seconds`: seconds in millionths, which are microseconds.
unfoldable pub search_backoff_seconds : Library → ℕ → String → ℕ → Result (Option ℕ)
search_backoff_seconds lib count dl_id last =
    delay lib.uniform search_backoff count (some (lib.seed dl_id last))

-- `_arr_throttle_key`
unfoldable pub arr_throttle_key : String → String
arr_throttle_key service = service

unfoldable pub read_row : Library → Option ThrottleRow → ℕ × ℕ
read_row lib none = (0, 0)
read_row lib (some row) =
    (default 0 (parse_iso_utc lib.datetime (some row.last_triggered_at)), row.row_count)

-- `_load_throttle_from_db`; a table that cannot be read counts as empty.
unfoldable pub load_throttle_from_db : Library → Bool → ThrottleTable → String → ℕ × ℕ
load_throttle_from_db lib readable table dl_id =
    if readable then read_row lib (lookup dl_id table) else (0, 0)

-- `_save_trigger_to_db`; an error of the database is swallowed.
unfoldable pub save_trigger_to_db : Library → Bool → ThrottleTable → String → ℕ → ℕ → ThrottleTable
save_trigger_to_db lib writable table dl_id epoch count =
    if writable
    then insert dl_id
        (record { last_triggered_at = lib.datetime.isoformat epoch; row_count = count }) table
    else table

-- The cache after a read of the table, of an item that the cache knows nothing of.
unfoldable pub warm_info : Throttle → String → ℕ → ℕ → Throttle
warm_info s dl_id epoch count = record {
  last_search_trigger =
      if is_some (lookup dl_id s.last_search_trigger)
      then s.last_search_trigger
      else insert dl_id epoch s.last_search_trigger;
  search_count =
      if ltb (searches_of s dl_id) count then insert dl_id count s.search_count else s.search_count;
  reservation_tokens = s.reservation_tokens;
  last_search_trigger_by_arr = s.last_search_trigger_by_arr;
}

-- `get_search_info`; `readable` is false where the connection or the read fails.
unfoldable pub get_search_info : Library → Bool → Store → String → Store × (ℕ × ℕ)
get_search_info lib readable s dl_id =
    let m = s.memory in
    let (epoch, count) = load_throttle_from_db lib readable s.table dl_id in
    let m' = warm_info m dl_id epoch count in
    if ltb 0 (searches_of m dl_id) || ltb 0 (last_of m dl_id)
    then (s, (searches_of m dl_id, last_of m dl_id))
    else if nat_beq epoch 0 && nat_beq count 0
    then (s, (0, 0))
    else (record { memory = m'; table = s.table }, (searches_of m' dl_id, last_of m' dl_id))

-- The rows that were touched since the cutoff.
unfoldable pub keep_recent : Text → ThrottleTable → ThrottleTable
keep_recent cutoff [] = []
keep_recent cutoff ((key, row) ∷ rows) =
    let rest = keep_recent cutoff rows in
    if text_leb cutoff row.last_triggered_at then (key, row) ∷ rest else rest

abbrev pub stranded_throttle_ttl : ℕ
stranded_throttle_ttl = 90 * 24 * 60 * 60 * 1000000

-- `reconcile_stranded_throttle`
unfoldable pub reconcile_stranded_throttle :
    Library → Bool → ThrottleTable → ℕ → ℕ → ThrottleTable × ℕ
reconcile_stranded_throttle lib writable table now ttl =
    let table' = keep_recent (lib.datetime.isoformat (now - ttl)) table in
    if writable then (table', length table - length table') else (table, 0)

abbrev pub forget_service : Option String → Dict String (ℕ × String) → Dict String (ℕ × String)
forget_service none by_arr = by_arr
forget_service (some service) by_arr = erase (arr_throttle_key service) by_arr

-- `clear_throttle`
unfoldable pub clear_throttle : Bool → Store → String → Option String → Store
clear_throttle writable s dl_id service = record {
  memory = record {
    last_search_trigger = erase dl_id s.memory.last_search_trigger;
    search_count = erase dl_id s.memory.search_count;
    reservation_tokens = s.memory.reservation_tokens;
    last_search_trigger_by_arr = forget_service service s.memory.last_search_trigger_by_arr;
  };
  table = if writable then erase dl_id s.table else s.table;
}
