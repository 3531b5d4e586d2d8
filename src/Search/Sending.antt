-- ===== src/Search/Sending.antt =====
-- A search is sent once its waits are over.

use mediaman.Prelude.{
  Bool, String, [], arith, false, inr, ltb, refl, some, suc, ℕ, ◌*◌, ◌+◌, ◌-◌, ◌<◌, ◌∷◌, ◌≡◌, ◌≤◌,
}
use mediaman.Search.TriggerLaws.{default-insert, stamp_of}
use mediaman.Search.Throttle.{
  default, Throttle, Store, Library, last_of, searches_of, search_backoff_seconds,
  load_throttle_from_db,
}
use mediaman.Search.BackoffLaws.{spread, IsWithin, delay-spread, spread_most}
use mediaman.Search.Trigger.{
  searched, mark, commit, conclude, claim, warm, reserve, TriggerInputs, parse_trigger_inputs,
  is_capped, commit_or_rollback_reservation, is_searched, Call, search_of, is_error, trigger_inputs,
  maybe_trigger_search,
}
use mediaman.Search.Backoff.{scale, max_exponent}

-- What is remembered after the table was read for an item.
abbrev pub warmed : Library → Bool → Store → String → Throttle
warmed lib readable s dl_id =
    let persisted = load_throttle_from_db lib readable s.table dl_id in
    warm s.memory dl_id persisted.0 persisted.1

search_backoff_seconds-most :
    (lib : Library) (count : ℕ) (dl_id : String) (last : ℕ)
    → IsWithin lib.uniform
    → count ≤ suc max_exponent
    → (w : ℕ) × (search_backoff_seconds lib count dl_id last ≡ inr (some w)) × (w ≤ 86400 * scale)
unfolding search_backoff_seconds
search_backoff_seconds-most lib count dl_id last within few =
    let seed = lib.seed dl_id last in
    (
      spread lib.uniform 120 86400 100000 seed count,
      delay-spread lib.uniform 120 86400 100000 count seed few,
      spread_most lib.uniform 120 86400 100000 seed within count,
    )

-- Where the jitter stays within its range and the call passes the guards on its item: if no other
-- item's search on the instance is younger than 15 minutes, the item's own last search, by memory
-- or table, is at least 24 hours old, fewer than 1,024 were sent, and the instance answers, then
-- the search is sent, counted, and the item remembered as searched now.
pub maybe_trigger_search-sends :
    (lib : Library) (s : Store) (c : Call) (i : TriggerInputs)
    → IsWithin lib.uniform
    → parse_trigger_inputs c.item c.matched_nzb c.secret_key c.now ≡ some i
    → is_capped i.dl_id i.now (stamp_of s.memory i.throttle_key) ≡ false
    → let m = warmed lib c.readable s i.dl_id in
      last_of m i.dl_id + 86400 * scale ≤ i.now
      → searches_of m i.dl_id < suc max_exponent
      → c.answer ≡ searched
      → let r = maybe_trigger_search lib s c in
        (r.1 ≡ search_of i ∷ [])
        × (r.2 ≡ false)
        × (last_of r.0.memory i.dl_id ≡ i.now)
        × (searches_of r.0.memory i.dl_id ≡ suc (searches_of m i.dl_id))
        × (stamp_of r.0.memory i.throttle_key ≡ (i.now, i.dl_id))
unfolding maybe_trigger_search trigger_inputs reserve claim conclude commit_or_rollback_reservation
    commit is_searched mark default is_error
maybe_trigger_search-sends lib s c i within parsed free old few answers =
    let m = warmed lib c.readable s i.dl_id in
    let count = searches_of m i.dl_id in
    let last = last_of m i.dl_id in
    let wait = search_backoff_seconds-most lib count i.dl_id last within (omega (arith, few)) in
    let next = search_backoff_seconds-most lib (suc count) i.dl_id i.now within few in
    let passed : ltb (i.now - last) wait.0 ≡ false = ground (arith, wait.2, old) in
    rw (parsed, free, wait.1, passed, answers, next.1)
      (
        refl,
        refl,
        default-insert i.dl_id 0 i.now m.last_search_trigger,
        default-insert i.dl_id 0 (suc count) m.search_count,
        default-insert i.throttle_key (0, "") (i.now, i.dl_id) m.last_search_trigger_by_arr,
      )
