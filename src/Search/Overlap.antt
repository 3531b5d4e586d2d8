-- ===== src/Search/Overlap.antt =====
-- Two calls that overlap, for two items.

use mediaman.Prelude.{
  Bool-cases, Option, String, [], arith, if◌then◌else◌, inl, inr, ltb, nat_beq, none, refl, some,
  string_key, ℕ, ◌&&◌, ◌-◌, ◌∙◌, ◌≡◌, ◌≢◌, ◌⊎◌,
}
use mediaman.Prelude.Dict.{lookup, Dict}
use mediaman.Search.TriggerLaws.{stamp_of, default-insert, last_of-insert}
use mediaman.Search.Throttle.{
  default, Throttle, Library, last_of, searches_of, search_backoff_seconds,
}
use mediaman.Search.Trigger.{
  skipped, mark, warm, claim, reserve, TriggerInputs, Reservation, is_capped,
}
use mediaman.Search.Backoff.{Result}
use mediaman.Search.Race.{reserve-open, reserve-capped}

-- What a reservation answers, of what is remembered of its item and its instance.
abbrev blank : Throttle
blank = record {
  last_search_trigger = [];
  search_count = [];
  reservation_tokens = [];
  last_search_trigger_by_arr = [];
}

answer_of : Library → ℕ → ℕ → Dict String (ℕ × String) → TriggerInputs → ℕ × ℕ → Reservation
answer_of lib last count by_arr j (epoch, stored) =
    let last' = if nat_beq last 0 && ltb 0 epoch then epoch else last in
    let count' = if ltb count stored then stored else count in
    let wait = search_backoff_seconds lib count' j.dl_id last' in
    if is_capped j.dl_id j.now (default (0, "") (lookup j.throttle_key by_arr))
    then skipped
    else (claim blank j.dl_id j.now "" last' count' wait).1

claim-answer :
    (m m' : Throttle) (dl_id token token' : String) (now last count : ℕ) (r : Result (Option ℕ))
    → (claim m dl_id now token last count r).1 ≡ (claim m' dl_id now token' last count r).1
unfolding claim
claim-answer m m' dl_id token token' now last count (inl e) = refl
claim-answer m m' dl_id token token' now last count (inr none) = refl
claim-answer m m' dl_id token token' now last count (inr (some w)) = ground arith

warm-last_of :
    (m : Throttle) (dl_id : String) (epoch stored : ℕ)
    → last_of (warm m dl_id epoch stored) dl_id
      ≡ (if nat_beq (last_of m dl_id) 0 && ltb 0 epoch then epoch else last_of m dl_id)
unfolding warm
warm-last_of m dl_id epoch stored =
    ground (arith, default-insert dl_id 0 epoch m.last_search_trigger)

warm-searches_of :
    (m : Throttle) (dl_id : String) (epoch stored : ℕ)
    → searches_of (warm m dl_id epoch stored) dl_id
      ≡ (if ltb (searches_of m dl_id) stored then stored else searches_of m dl_id)
unfolding warm
warm-searches_of m dl_id epoch stored = ground (arith, default-insert dl_id 0 stored m.search_count)

reserve-answer_of :
    (lib : Library) (m : Throttle) (j : TriggerInputs) (epoch stored : ℕ) (token : String)
    → (reserve lib m j (epoch, stored) token).1
      ≡ answer_of lib
          (last_of m j.dl_id)
          (searches_of m j.dl_id)
          m.last_search_trigger_by_arr
          j
          (epoch, stored)
unfolding reserve answer_of
reserve-answer_of lib m j epoch stored token =
    let last = if nat_beq (last_of m j.dl_id) 0 && ltb 0 epoch then epoch else last_of m j.dl_id in
    let count = if ltb (searches_of m j.dl_id) stored then stored else searches_of m j.dl_id in
    elim (Bool-cases (is_capped j.dl_id j.now (stamp_of m j.throttle_key))) [
      | inl full ↦ rw full refl
      | inr free ↦
          rw (free, warm-last_of m j.dl_id epoch stored, warm-searches_of m j.dl_id epoch stored)
            (claim-answer (warm m j.dl_id epoch stored) blank j.dl_id token "" j.now last count
              (search_backoff_seconds lib count j.dl_id last))
    ]

-- What is remembered of one item and the instances.
record IsSameFor (dl_id : String) (m m' : Throttle) : Type 0 where
  last : last_of m' dl_id ≡ last_of m dl_id
  count : searches_of m' dl_id ≡ searches_of m dl_id
  by_arr : m'.last_search_trigger_by_arr ≡ m.last_search_trigger_by_arr

claim-branches :
    (m : Throttle) (dl_id : String) (now : ℕ) (token : String) (last count : ℕ)
    (r : Result (Option ℕ))
    → ((claim m dl_id now token last count r).0 ≡ m)
      ⊎ ((claim m dl_id now token last count r).0 ≡ mark m dl_id now token)
unfolding claim
claim-branches m dl_id now token last count (inl e) = inl refl
claim-branches m dl_id now token last count (inr none) = inr refl
claim-branches m dl_id now token last count (inr (some w)) =
    elim (Bool-cases (ltb (now - last) w)) [ inl e ↦ rw e (inl refl) | inr e ↦ rw e (inr refl) ]

claim-IsSameFor :
    (m : Throttle) (dl_id other token : String) (now last count : ℕ) (r : Result (Option ℕ))
    → dl_id ≢ other
    → IsSameFor other m (claim m dl_id now token last count r).0
claim-IsSameFor m dl_id other token now last count r differ =
    let same : IsSameFor other m m = record { last = refl; count = refl; by_arr = refl } in
    let marked : IsSameFor other m (mark m dl_id now token) = record {
      last =
          unfold mark in
          ground (
            arith,
            last_of-insert m.last_search_trigger dl_id other now,
            string_key.same_iff dl_id other,
            differ,
          );
      count = unfold mark in refl;
      by_arr = unfold mark in refl;
    } in
    elim (claim-branches m dl_id now token last count r) [ inl h ↦ rw h same | inr h ↦ rw h marked ]

warm-IsSameFor :
    (m : Throttle) (dl_id other : String) (epoch stored : ℕ)
    → dl_id ≢ other
    → IsSameFor other m (warm m dl_id epoch stored)
unfolding warm
warm-IsSameFor m dl_id other epoch stored differ = record {
  last = ground (
    arith,
    last_of-insert m.last_search_trigger dl_id other epoch,
    string_key.same_iff dl_id other,
    differ,
  );
  count = ground (
    arith,
    last_of-insert m.search_count dl_id other stored,
    string_key.same_iff dl_id other,
    differ,
  );
  by_arr = refl;
}

-- A reservation leaves what is remembered of another item.
reserve-IsSameFor :
    (lib : Library) (m : Throttle) (i : TriggerInputs) (epoch stored : ℕ) (token other : String)
    → i.dl_id ≢ other
    → IsSameFor other m (reserve lib m i (epoch, stored) token).0
reserve-IsSameFor lib m i epoch stored token other differ =
    let m' = warm m i.dl_id epoch stored in
    let last = last_of m' i.dl_id in
    let count = searches_of m' i.dl_id in
    let first = warm-IsSameFor m i.dl_id other epoch stored differ in
    let next =
      claim-IsSameFor m' i.dl_id other token i.now last count
        (search_backoff_seconds lib count i.dl_id last) differ in
    elim (Bool-cases (is_capped i.dl_id i.now (stamp_of m i.throttle_key))) [
      | inl full ↦
          rw (reserve-capped lib m i epoch stored token full)
            (record { last = refl; count = refl; by_arr = refl })
      | inr free ↦ rw (reserve-open lib m i epoch stored token free) (record {
        last = next.last ∙ first.last;
        count = next.count ∙ first.count;
        by_arr = next.by_arr ∙ first.by_arr;
      })
    ]

-- Of two items, a call for the second is answered the same in its first phase whether or not a call
-- for the first has just reserved its slot and not yet finished, on whichever instance: a
-- reservation holds off no other item, and two that overlap are both granted if each alone is.
pub reserve_others :
    (lib : Library) (m : Throttle) (i j : TriggerInputs) (persisted persisted' : ℕ × ℕ)
    (token token' : String)
    → i.dl_id ≢ j.dl_id
    → (reserve lib (reserve lib m i persisted token).0 j persisted' token').1
      ≡ (reserve lib m j persisted' token').1
reserve_others lib m i j persisted persisted' token token' differ =
    let m' = (reserve lib m i persisted token).0 in
    let same = reserve-IsSameFor lib m i persisted.0 persisted.1 token j.dl_id differ in
    rw
      (
        reserve-answer_of lib m' j persisted'.0 persisted'.1 token',
        reserve-answer_of lib m j persisted'.0 persisted'.1 token',
        same.last,
        same.count,
        same.by_arr,
      )
      refl
