-- ===== src/Search/AbandonLaws.antt =====
-- An item is abandoned only when it is due, and only after the audit row.

use mediaman.Prelude.{
  Bool, List, String, [], false, if◌then◌else◌, some, string_key, true, ℕ, ◌+◌, ◌<◌, ◌∷◌, ◌≡◌, ◌≤◌,
  ◌⊎◌,
}
use mediaman.Search.Throttle.{Store, clear_throttle, default}
use mediaman.Search.Abandon.{
  Arr, audit, unmonitor_movie, unmonitor_season, Card, Event, unmonitor_movie, unmonitor_season,
  auto_abandon_after, release_grace, AbandonDecision,
}

-- The setting is on, the item is not upcoming, and both of its instants are known and old enough.
pub record IsStuck (enabled : Bool) (card : Card) (now : ℕ) : Type 0 where
  pub on : enabled ≡ true
  pub out : card.item.is_upcoming ≡ false
  pub released :
      (0 < default 0 card.released_at) × (default 0 card.released_at + release_grace ≤ now)
  pub added :
      (0 < default 0 card.item.added_at) × (default 0 card.item.added_at + auto_abandon_after ≤ now)

-- Every call is one that unmonitors the item of that id.
abbrev pub AreAbout : ℕ → List Event → Type 0
AreAbout arr_id [] = Unit
AreAbout arr_id (audit dl_id other seasons ∷ es) = ⊥
AreAbout arr_id (unmonitor_movie other ∷ es) = (other ≡ arr_id) × AreAbout arr_id es
AreAbout arr_id (unmonitor_season other n ∷ es) = (other ≡ arr_id) × (0 < n) × AreAbout arr_id es

abbrev pub AllPositive : List ℕ → Type 0
AllPositive [] = Unit
AllPositive (n ∷ ns) = (0 < n) × AllPositive ns

-- The store is as it was, or without its throttle of the item.
abbrev pub IsKeptOrCleared : Bool → String → Store → Store → Type 0
IsKeptOrCleared writable dl_id s s' =
    (s' ≡ s) ⊎ ((service : String) × (s' ≡ clear_throttle writable s dl_id (some service)))

-- What is known of a call that the decision let pass.
abbrev pub IsAudited : Arr → Bool → Store → AbandonDecision → Store × List Event → Type 0
IsAudited arr writable s d r =
    ((r.0 ≡ s) × (r.1 ≡ []))
    ⊎ ((seasons : List ℕ) × (calls : List Event) × (r.1
          ≡ (if arr.audit_ok then audit d.dl_id d.arr_id seasons ∷ calls else calls))
        × AreAbout d.arr_id calls
        × IsKeptOrCleared writable d.dl_id s r.0)
