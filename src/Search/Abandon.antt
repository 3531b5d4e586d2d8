-- ===== src/Search/Abandon.antt =====
-- src/mediaman/services/arr/auto_abandon.py and services/downloads/abandon.py: giving up on items that
-- were searched for too long.

use mediaman.Prelude.{
  Bool, List, Option, String, [], if◌then◌else◌, is_empty, ltb, nat_beq, none, not, some,
  string_key, ℕ, ◌&&◌, ◌*◌, ◌-◌, ◌==◌, ◌||◌, ◌∷◌,
}
use mediaman.Search.Throttle.{default, Store, clear_throttle}
use mediaman.Search.Trigger.{Item}

-- The `season_number` of an episode, as JSON has it; a number below zero is 0 here.
pub data RawSeason : Type 0 where
  no_dict missing_number truth : RawSeason
  whole : ℕ → RawSeason
  digits : Option ℕ → RawSeason

-- An item with what the policy asks of it.
pub record Card : Type 0 where
  pub item : Item
  pub released_at : Option ℕ
  pub episodes : List RawSeason

-- What Radarr and Sonarr answer: whether there is a client, and whether a call succeeds; and whether
-- the write of the audit row does, whose failure is only logged.
pub record Arr : Type 0 where
  pub audit_ok : Bool
  pub has_client : Bool
  pub movie_ok : ℕ → Bool
  pub season_ok : ℕ → ℕ → Bool

-- What is done, in order: a row of the audit log, and calls.
pub data Event : Type 0 where
  audit : String → ℕ → List ℕ → Event
  unmonitor_movie : ℕ → Event
  unmonitor_season : ℕ → ℕ → Event

pub record AbandonResult : Type 0 where
  pub succeeded : List ℕ
  pub failed : List ℕ

abbrev pub auto_abandon_after : ℕ
auto_abandon_after = 14 * 86400 * 1000000

abbrev pub release_grace : ℕ
release_grace = 30 * 86400 * 1000000

pub record AbandonDecision : Type 0 where
  pub dl_id : String
  pub arr_id : ℕ

-- `_parse_season_number`
unfoldable pub parse_season_number : RawSeason → ℕ
parse_season_number no_dict = 0
parse_season_number missing_number = 0
parse_season_number truth = 0
parse_season_number (whole n) = n
parse_season_number (digits t) = default 0 t

-- `_should_auto_abandon`
unfoldable pub should_auto_abandon : Bool → Card → ℕ → Option AbandonDecision
should_auto_abandon enabled card now =
    let released_at = default 0 card.released_at in
    let added_at = default 0 card.item.added_at in
    let dl_id = default "" card.item.dl_id in
    let arr_id = default 0 card.item.arr_id in
    if not enabled
      || card.item.is_upcoming
      || nat_beq released_at 0
      || ltb (now - released_at) release_grace
      || nat_beq added_at 0
      || ltb (now - added_at) auto_abandon_after
      || dl_id == ""
      || nat_beq arr_id 0
    then none
    else some (record { dl_id = dl_id; arr_id = arr_id })

-- One more number in a set of numbers, in ascending order.
unfoldable pub insert_number : ℕ → List ℕ → List ℕ
insert_number n [] = n ∷ []
insert_number n (m ∷ ms) =
    let rest = insert_number n ms in
    if nat_beq n m then m ∷ ms else if ltb n m then n ∷ m ∷ ms else m ∷ rest

-- `sorted({n for n in ... if n > 0})`
unfoldable pub positive_seasons : List RawSeason → List ℕ
positive_seasons [] = []
positive_seasons (e ∷ es) =
    let rest = positive_seasons es in
    let n = parse_season_number e in if ltb 0 n then insert_number n rest else rest

-- The store, what was done, and the result.
abbrev pub Abandoned : Type 0
Abandoned = Store × List Event × AbandonResult

-- `abandon_movie`
unfoldable pub abandon_movie : Arr → Bool → Store → ℕ → String → Abandoned
abandon_movie arr writable s arr_id dl_id =
    if not arr.has_client
    then (s, [], record { succeeded = []; failed = 0 ∷ [] })
    else if not (arr.movie_ok arr_id)
    then (s, unmonitor_movie arr_id ∷ [], record { succeeded = []; failed = 0 ∷ [] })
    else (
      clear_throttle writable s dl_id (some "radarr"),
      unmonitor_movie arr_id ∷ [],
      record { succeeded = 0 ∷ []; failed = [] },
    )

-- The loop of `abandon_seasons`.
unfoldable pub unmonitor_seasons : Arr → ℕ → List ℕ → List Event × AbandonResult
unmonitor_seasons arr series_id [] = ([], record { succeeded = []; failed = [] })
unmonitor_seasons arr series_id (n ∷ ns) =
    let (events, r) = unmonitor_seasons arr series_id ns in
    (
      unmonitor_season series_id n ∷ events,
      if arr.season_ok series_id n
          then record { succeeded = n ∷ r.succeeded; failed = r.failed }
          else record { succeeded = r.succeeded; failed = n ∷ r.failed },
    )

-- `abandon_seasons`, of seasons that are not none.
unfoldable pub abandon_seasons : Arr → Bool → Store → ℕ → List ℕ → String → Abandoned
abandon_seasons arr writable s series_id seasons dl_id =
    let (events, r) = unmonitor_seasons arr series_id seasons in
    if not arr.has_client then (s, [], record { succeeded = []; failed = seasons }) else (
      if not (is_empty r.succeeded) && is_empty r.failed
          then clear_throttle writable s dl_id (some "sonarr")
          else s,
      events,
      r,
    )

-- `abandon_series`; the answer of Sonarr is the seasons that it monitors, if it is one.
unfoldable pub abandon_series : Arr → Bool → Store → ℕ → Option (List ℕ) → String → Abandoned
abandon_series arr writable s series_id none dl_id =
    (s, [], record { succeeded = []; failed = 0 ∷ [] })
abandon_series arr writable s series_id (some []) dl_id =
    if arr.has_client
    then (
      clear_throttle writable s dl_id (some "sonarr"),
      [],
      record { succeeded = []; failed = [] },
    )
    else (s, [], record { succeeded = []; failed = 0 ∷ [] })
abandon_series arr writable s series_id (some (n ∷ ns)) dl_id =
    if arr.has_client
    then abandon_seasons arr writable s series_id (n ∷ ns) dl_id
    else (s, [], record { succeeded = []; failed = 0 ∷ [] })

-- `security_event`, before what follows it.
abbrev pub with_audit : Arr → AbandonDecision → List ℕ → List Event → List Event
with_audit arr d seasons events =
    if arr.audit_ok then audit d.dl_id d.arr_id seasons ∷ events else events

-- `_abandon_movie_with_audit`
unfoldable pub abandon_movie_with_audit : Arr → Bool → Store → AbandonDecision → Store × List Event
abandon_movie_with_audit arr writable s d =
    let (s', events, r) = abandon_movie arr writable s d.arr_id d.dl_id in
    (s', with_audit arr d [] events)

-- `_abandon_series_with_audit`, of the seasons above 0.
unfoldable pub abandon_series_with_audit :
    Arr → Bool → Store → AbandonDecision → List ℕ → Store × List Event
abandon_series_with_audit arr writable s d [] = (s, [])
abandon_series_with_audit arr writable s d (n ∷ ns) =
    let (s', events, r) = abandon_seasons arr writable s d.arr_id (n ∷ ns) d.dl_id in
    (s', with_audit arr d (n ∷ ns) events)

unfoldable pub act_on : Arr → Bool → Card → Store → Option AbandonDecision → Store × List Event
act_on arr writable card s none = (s, [])
act_on arr writable card s (some d) =
    if default "" card.item.kind == "movie"
    then abandon_movie_with_audit arr writable s d
    else abandon_series_with_audit arr writable s d (positive_seasons card.episodes)

-- `maybe_auto_abandon`
unfoldable pub maybe_auto_abandon : Bool → Arr → Bool → Card → ℕ → Store → Store × List Event
maybe_auto_abandon enabled arr writable card now s =
    act_on arr writable card s (should_auto_abandon enabled card now)
