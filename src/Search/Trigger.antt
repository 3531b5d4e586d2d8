-- ===== src/Search/Trigger.antt =====
-- src/mediaman/services/arr/search_trigger.py: whether a search for an item is sent, in three phases.

use mediaman.Prelude.{
  Bool, List, Option, String, [], false, if◌then◌else◌, inl, inr, is_empty, ltb, nat_beq, none, not,
  some, string_key, suc, true, ℕ, ◌&&◌, ◌*◌, ◌-◌, ◌==◌, ◌||◌, ◌∷◌,
}
use mediaman.Prelude.Dict.{erase, lookup, insert}
use mediaman.Core.Time.{Text}
use mediaman.Search.Throttle.{
  searches_of, default, Throttle, Store, Library, last_of, search_backoff_seconds, arr_throttle_key,
  load_throttle_from_db, save_trigger_to_db,
}
use mediaman.Search.Backoff.{Error, Result}

-- What an item says; `none` is a missing value or one of another type.
pub record Item : Type 0 where
  pub is_upcoming : Bool
  pub arr_id : Option ℕ
  pub added_at : Option ℕ
  pub dl_id : Option String
  pub kind : Option String

abbrev pub search_stale_seconds : ℕ
search_stale_seconds = 5 * 60 * 1000000

abbrev pub per_arr_throttle_seconds : ℕ
per_arr_throttle_seconds = 15 * 60 * 1000000

pub record TriggerInputs : Type 0 where
  pub dl_id : String
  pub arr_id : ℕ
  pub kind : String
  pub service : String
  pub throttle_key : String
  pub now : ℕ

-- `_parse_trigger_inputs`
unfoldable pub parse_trigger_inputs : Item → Bool → Text → ℕ → Option TriggerInputs
parse_trigger_inputs item matched_nzb secret_key now =
    let arr_id = default 0 item.arr_id in
    let kind = default "" item.kind in
    let service = if kind == "movie" then "radarr" else "sonarr" in
    if item.is_upcoming
      || matched_nzb
      || is_empty secret_key
      || nat_beq arr_id 0
      || ltb (now - default 0 item.added_at) search_stale_seconds
      || not (kind == "movie" || kind == "series")
    then none
    else some (record {
      dl_id = default "" item.dl_id;
      arr_id = arr_id;
      kind = kind;
      service = service;
      throttle_key = arr_throttle_key service;
      now = now;
    })

-- What comes of the first phase: nothing, an exception, or a slot with the instant and the count
-- that stood before.
pub data Reservation : Type 0 where
  skipped : Reservation
  raised : Error → Reservation
  reserved : ℕ → ℕ → Reservation

-- The cache with what the table says.
unfoldable pub warm : Throttle → String → ℕ → ℕ → Throttle
warm s dl_id epoch count = record {
  last_search_trigger =
      if nat_beq (last_of s dl_id) 0 && ltb 0 epoch
      then insert dl_id epoch s.last_search_trigger
      else s.last_search_trigger;
  search_count =
      if ltb (searches_of s dl_id) count then insert dl_id count s.search_count else s.search_count;
  reservation_tokens = s.reservation_tokens;
  last_search_trigger_by_arr = s.last_search_trigger_by_arr;
}

-- The slot taken at `now`.
unfoldable pub mark : Throttle → String → ℕ → String → Throttle
mark s dl_id now token = record {
  last_search_trigger = insert dl_id now s.last_search_trigger;
  search_count = s.search_count;
  reservation_tokens = insert dl_id token s.reservation_tokens;
  last_search_trigger_by_arr = s.last_search_trigger_by_arr;
}

-- The gate of the item's own back-off; no instant is before a wait that is NaN.
unfoldable pub claim :
    Throttle → String → ℕ → String → ℕ → ℕ → Result (Option ℕ) → Throttle × Reservation
claim s dl_id now token last count (inl e) = (s, raised e)
claim s dl_id now token last count (inr none) = (mark s dl_id now token, reserved last count)
claim s dl_id now token last count (inr (some wait)) =
    if ltb (now - last) wait then (s, skipped) else (mark s dl_id now token, reserved last count)

-- Whether another item's search on the instance is too recent.
unfoldable pub is_capped : String → ℕ → ℕ × String → Bool
is_capped dl_id now (epoch, other) =
    not (other == dl_id) && ltb (now - epoch) per_arr_throttle_seconds

-- Phase 1 of `maybe_trigger_search`, under the lock.
unfoldable pub reserve :
    Library → Throttle → TriggerInputs → ℕ × ℕ → String → Throttle × Reservation
reserve lib s i (epoch, count) token =
    let s' = warm s i.dl_id epoch count in
    let last = last_of s' i.dl_id in
    let previous_count = searches_of s' i.dl_id in
    if is_capped i.dl_id i.now
      (default (0, "") (lookup i.throttle_key s.last_search_trigger_by_arr))
    then (s, skipped)
    else claim s' i.dl_id i.now token last previous_count
        (search_backoff_seconds lib previous_count i.dl_id last)

unfoldable pub is_own : String → Option String → Bool
is_own token none = false
is_own token (some t) = t == token

-- A search was sent.
unfoldable pub commit : Throttle → TriggerInputs → ℕ → String → Throttle
commit s i previous_count token = record {
  last_search_trigger = s.last_search_trigger;
  search_count = insert i.dl_id (suc previous_count) s.search_count;
  reservation_tokens =
      if is_own token (lookup i.dl_id s.reservation_tokens)
      then erase i.dl_id s.reservation_tokens
      else s.reservation_tokens;
  last_search_trigger_by_arr = insert i.throttle_key (i.now, i.dl_id) s.last_search_trigger_by_arr;
}

-- None was sent.
unfoldable pub rollback : Throttle → TriggerInputs → ℕ → String → Throttle
rollback s i prev_last token =
    if is_own token (lookup i.dl_id s.reservation_tokens)
    then record {
      last_search_trigger =
          if ltb 0 prev_last
          then insert i.dl_id prev_last s.last_search_trigger
          else erase i.dl_id s.last_search_trigger;
      search_count = s.search_count;
      reservation_tokens = erase i.dl_id s.reservation_tokens;
      last_search_trigger_by_arr = s.last_search_trigger_by_arr;
    }
    else s

-- `_commit_or_rollback_reservation`
unfoldable pub commit_or_rollback_reservation :
    Library → Bool → Store → TriggerInputs → Bool → ℕ → ℕ → String → Store
commit_or_rollback_reservation lib writable s i true previous_count prev_last token = record {
  memory = commit s.memory i previous_count token;
  table = save_trigger_to_db lib writable s.table i.dl_id i.now (suc previous_count);
}
commit_or_rollback_reservation lib writable s i false previous_count prev_last token = record {
  memory = rollback s.memory i prev_last token;
  table = s.table;
}

-- What the second phase meets: no client, an exception that is caught, another one, or an answer.
pub data Answer : Type 0 where
  no_client failed crashed searched : Answer

unfoldable pub is_searched : Answer → Bool
is_searched no_client = false
is_searched failed = false
is_searched crashed = false
is_searched searched = true

-- A call of `maybe_trigger_search` and what it finds outside.
pub record Call : Type 0 where
  pub item : Item
  pub matched_nzb : Bool
  pub secret_key : Text
  pub now : ℕ
  pub token : String
  pub readable : Bool
  pub writable : Bool
  pub answer : Answer

-- A search that the instance answered.
pub record Search : Type 0 where
  pub service : String
  pub dl_id : String
  pub sent_at : ℕ

abbrev pub search_of : TriggerInputs → Search
search_of i = record { service = i.service; dl_id = i.dl_id; sent_at = i.now }

unfoldable pub is_crashed : Answer → Bool
is_crashed no_client = false
is_crashed failed = false
is_crashed crashed = true
is_crashed searched = false

unfoldable pub is_error : Result (Option ℕ) → Bool
is_error (inl e) = true
is_error (inr wait) = false

-- The store, the searches that were answered, and whether an exception leaves the function.
abbrev pub Report : Type 0
Report = Store × List Search × Bool

-- Phases 2 and 3. The log line after a search computes the next wait.
unfoldable pub conclude : Library → Call → TriggerInputs → Store → Reservation → Report
conclude lib c i s skipped = (s, [], false)
conclude lib c i s (raised e) = (s, [], true)
conclude lib c i s (reserved prev_last previous_count) =
    let triggered = is_searched c.answer in
    let s' =
      commit_or_rollback_reservation lib c.writable s i triggered previous_count prev_last
        c.token in
    if triggered
    then (
      s',
      search_of i ∷ [],
      is_error (search_backoff_seconds lib (suc previous_count) i.dl_id i.now),
    )
    else (s', [], is_crashed c.answer)

unfoldable pub trigger_inputs : Library → Call → Store → Option TriggerInputs → Report
trigger_inputs lib c s none = (s, [], false)
trigger_inputs lib c s (some i) =
    let persisted = load_throttle_from_db lib c.readable s.table i.dl_id in
    let (memory, outcome) = reserve lib s.memory i persisted c.token in
    conclude lib c i (record { memory = memory; table = s.table }) outcome

-- `maybe_trigger_search`
unfoldable pub maybe_trigger_search : Library → Store → Call → Report
maybe_trigger_search lib s c =
    trigger_inputs lib c s (parse_trigger_inputs c.item c.matched_nzb c.secret_key c.now)
