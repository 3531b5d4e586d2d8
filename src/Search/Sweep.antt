-- ===== src/Search/Sweep.antt =====
-- src/mediaman/services/arr/search_trigger.py: the scheduled sweep over everything that is missing.

use mediaman.Prelude.{
  Bool, List, Option, String, [], contains, false, if◌then◌else◌, ltb, nat_beq, nat_key, none, not,
  some, string_key, true, ℕ, ◌&&◌, ◌++◌, ◌-◌, ◌==◌, ◌∷◌,
}
use mediaman.Prelude.Dict.{lookup}
use mediaman.Core.Time.{Text}
use mediaman.Search.Throttle.{default, Store, Library, arr_throttle_key}
use mediaman.Search.Trigger.{
  Item, per_arr_throttle_seconds, Answer, Call, Report, maybe_trigger_search,
}
use mediaman.Search.Abandon.{Card, Arr, maybe_auto_abandon}
use Prim.Native.String.{◌++◌ as ◌<>◌}

-- What one call of a sweep finds outside.
pub record Turn : Type 0 where
  pub now : ℕ
  pub token : String
  pub readable : Bool
  pub writable : Bool
  pub answer : Answer

abbrev pub call_of : Text → Item → Turn → Call
call_of secret_key item t = record {
  item = item;
  matched_nzb = false;
  secret_key = secret_key;
  now = t.now;
  token = t.token;
  readable = t.readable;
  writable = t.writable;
  answer = t.answer;
}

-- The loop over the queue at the instant `now`, which an exception of a search leaves.
unfoldable pub search_queue : Library → Text → Bool → Arr → ℕ → Store → List (Card × Turn) → Report
search_queue lib secret_key enabled arr now s [] = (s, [], false)
search_queue lib secret_key enabled arr now s ((card, t) ∷ rest) =
    let (s', sent, error) = maybe_trigger_search lib s (call_of secret_key card.item t) in
    let s'' = (maybe_auto_abandon enabled arr t.writable card now s').0 in
    let (s3, sent', error') = search_queue lib secret_key enabled arr now s'' rest in
    if error then (s', sent, true) else (s3, sent ++ sent', error')

-- The ids of the series that the queue has.
unfoldable pub already_poked : List (Card × Turn) → List ℕ
already_poked [] = []
already_poked ((card, t) ∷ rest) =
    let ids = already_poked rest in
    let arr_id = default 0 card.item.arr_id in
    if default "" card.item.kind == "series" && not (nat_beq arr_id 0) then arr_id ∷ ids else ids

-- A series of which episodes are missing, as an item.
abbrev pub missing_item : ℕ → String → Item
missing_item series_id title = record {
  is_upcoming = false;
  arr_id = some series_id;
  added_at = some 0;
  dl_id = some ("sonarr:" <> title);
  kind = some "series";
}

unfoldable pub search_missing : Library → Text → List ℕ → Store → List (ℕ × String × Turn) → Report
search_missing lib secret_key poked s [] = (s, [], false)
search_missing lib secret_key poked s ((series_id, title, t) ∷ rest) =
    let c = call_of secret_key (missing_item series_id title) t in
    let (s', sent, error) = maybe_trigger_search lib s c in
    let (s'', sent', error') = search_missing lib secret_key poked s' rest in
    let skipped = search_missing lib secret_key poked s rest in
    if contains poked series_id
    then skipped
    else if error
    then (s', sent, true)
    else (s'', sent ++ sent', error')

-- `_trigger_sonarr_partial_missing`; `missing` is none where there is no client or it fails.
unfoldable pub trigger_sonarr_partial_missing :
    Library → Text → List ℕ → ℕ → Store → Option (List (ℕ × String × Turn)) → Report
trigger_sonarr_partial_missing lib secret_key poked now s none = (s, [], false)
trigger_sonarr_partial_missing lib secret_key poked now s (some missing) =
    let by_arr = s.memory.last_search_trigger_by_arr in
    let stamp = default (0, "") (lookup (arr_throttle_key "sonarr") by_arr) in
    if ltb (now - stamp.0) per_arr_throttle_seconds
    then (s, [], false)
    else search_missing lib secret_key poked s missing

-- `trigger_pending_searches`; a queue that cannot be fetched is empty.
unfoldable pub trigger_pending_searches :
    Library
    → Text
    → Bool
    → Arr
    → ℕ
    → ℕ
    → Store
    → Option (List (Card × Turn))
    → Option (List (ℕ × String × Turn))
    → Report
trigger_pending_searches lib secret_key enabled arr now now' s queue missing =
    let items = default [] queue in
    let (s', sent, error) = search_queue lib secret_key enabled arr now s items in
    let (s'', sent', error') =
      trigger_sonarr_partial_missing lib secret_key (already_poked items) now' s' missing in
    if error then (s', sent, true) else (s'', sent ++ sent', error')
