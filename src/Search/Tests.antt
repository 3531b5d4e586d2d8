-- ===== src/Search/Tests.antt =====
-- The delay at the settings of the search throttle.

use mediaman.Prelude.{
  List, String, [], arith, false, map, none, refl, some, string_key, suc, true, ℕ, ◌*◌, ◌+◌, ◌∷◌,
  ◌≡◌,
}
use mediaman.Search.Abandon.{
  truth, whole, audit, Card, Arr, unmonitor_season, parse_season_number, should_auto_abandon,
  insert_number, positive_seasons, unmonitor_seasons, abandon_seasons, abandon_series_with_audit,
  act_on, maybe_auto_abandon,
}
use mediaman.Prelude.Dict.{erase, insert, lookup}
use mediaman.Core.Time.{parse_iso_utc}
use mediaman.Core.TimeLaws.{one_code}
use mediaman.Search.TriggerLaws.{stamp_of}
use mediaman.Search.Throttle.{
  default, Throttle, Store, Library, last_of, searches_of, search_backoff_seconds, arr_throttle_key,
  read_row, load_throttle_from_db, save_trigger_to_db,
}
use mediaman.Search.Sending.{warmed, maybe_trigger_search-sends}
use mediaman.Search.Trigger.{
  mark, commit, conclude, claim, warm, searched, reserve, Item, TriggerInputs, parse_trigger_inputs,
  is_capped, is_own, commit_or_rollback_reservation, is_searched, Call, search_of, trigger_inputs,
  maybe_trigger_search,
}
use mediaman.Search.Spacing.{trigger_all, ArePairwiseSpaced, trigger_all-ArePairwiseSpaced}
use mediaman.Search.BackoffLaws.{IsWithin}
use mediaman.Search.Backoff.{
  with_jitter, delay_from, is_positive, delay, scale, finite, ExponentialBackoff, Uniform,
}

abbrev steady : Uniform
steady seed j = scale + j

steady-IsWithin : IsWithin steady
steady-IsWithin seed j = (omega arith, omega arith)

abbrev search_backoff_example : ExponentialBackoff
search_backoff_example = record { base = 120; max_seconds = 86400; jitter = finite 100000 }

abbrev example_library : Library
example_library = record { datetime = one_code; uniform = steady; seed = λ dl_id last. last ∷ [] }

abbrev empty_memory : Throttle
empty_memory = record {
  last_search_trigger = [];
  search_count = [];
  reservation_tokens = [];
  last_search_trigger_by_arr = [];
}

abbrev empty_store : Store
empty_store = record { memory = empty_memory; table = [] }

abbrev movie : String → ℕ → Item
movie dl_id arr_id = record {
  is_upcoming = false;
  arr_id = some arr_id;
  added_at = none;
  dl_id = some dl_id;
  kind = some "movie";
}

abbrev call_at : ℕ → String → Call
call_at now dl_id = record {
  item = movie dl_id 7;
  matched_nzb = false;
  secret_key = 1 ∷ [];
  now = now;
  token = "t";
  readable = true;
  writable = true;
  answer = searched;
}

abbrev inputs_at : ℕ → String → TriggerInputs
inputs_at now dl_id = record {
  dl_id = dl_id;
  arr_id = 7;
  kind = "movie";
  service = "radarr";
  throttle_key = "radarr";
  now = now;
}

abbrev start_time : ℕ
start_time = 86400000000

abbrev example_calls : List Call
example_calls =
    call_at start_time "radarr:A"
    ∷ call_at (start_time + 1000000) "radarr:B"
    ∷ call_at (start_time + 140000000) "radarr:A"
    ∷ call_at (start_time + 1200000000) "radarr:B"
    ∷ []

-- The second call comes too early for another item, the others are answered.
example_calls-sent :
    map (λ x. x.sent_at) (trigger_all example_library empty_store example_calls)
    ≡ start_time ∷ (start_time + 140000000) ∷ (start_time + 1200000000) ∷ []
unfolding trigger_all maybe_trigger_search trigger_inputs parse_trigger_inputs default
    load_throttle_from_db read_row reserve is_capped warm claim search_backoff_seconds delay
    delay_from with_jitter is_positive conclude commit_or_rollback_reservation commit mark is_own
    is_searched arr_throttle_key lookup insert erase save_trigger_to_db parse_iso_utc
example_calls-sent = refl

trigger_all-ArePairwiseSpaced_example :
    ArePairwiseSpaced (trigger_all example_library empty_store example_calls)
trigger_all-ArePairwiseSpaced_example =
    trigger_all-ArePairwiseSpaced example_library 0 empty_store example_calls steady-IsWithin
      (omega arith, (omega arith, (omega arith, (omega arith, tt))))

maybe_trigger_search-sends_example :
    let i = inputs_at start_time "radarr:A" in
    let r = maybe_trigger_search example_library empty_store (call_at start_time "radarr:A") in
    (r.1 ≡ search_of i ∷ [])
    × (r.2 ≡ false)
    × (last_of r.0.memory i.dl_id ≡ i.now)
    × (searches_of r.0.memory i.dl_id
        ≡ suc (searches_of (warmed example_library true empty_store i.dl_id) i.dl_id))
    × (stamp_of r.0.memory i.throttle_key ≡ (i.now, i.dl_id))
unfolding parse_trigger_inputs default arr_throttle_key is_capped lookup load_throttle_from_db
    read_row warm
maybe_trigger_search-sends_example =
    maybe_trigger_search-sends example_library empty_store (call_at start_time "radarr:A")
      (inputs_at start_time "radarr:A") steady-IsWithin refl refl (omega arith) (omega arith) refl

abbrev stuck_card : Card
stuck_card = record {
  item = record {
    is_upcoming = false;
    arr_id = some 7;
    added_at = some 1;
    dl_id = some "sonarr:A";
    kind = some "series";
  };
  released_at = some 1;
  episodes = whole 2 ∷ truth ∷ whole 1 ∷ whole 2 ∷ [];
}

abbrev willing : Arr
willing = record {
  audit_ok = true;
  has_client = true;
  movie_ok = λ n. true;
  season_ok = λ i n. true;
}

-- Both seasons are unmonitored once, in order.
stuck_card-events :
    (maybe_auto_abandon true willing true stuck_card (31 * start_time) empty_store).1
    ≡ audit "sonarr:A" 7 (1 ∷ 2 ∷ []) ∷ unmonitor_season 7 1 ∷ unmonitor_season 7 2 ∷ []
unfolding maybe_auto_abandon should_auto_abandon act_on abandon_series_with_audit abandon_seasons
    unmonitor_seasons positive_seasons insert_number parse_season_number default
stuck_card-events = refl
