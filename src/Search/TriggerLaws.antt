-- ===== src/Search/TriggerLaws.antt =====
-- What one call does to what is remembered: nothing is forgotten, and a search is sent only after
-- its waits.

use mediaman.Prelude.{
  ==_self, Bool-cases, Option, String, [], ap, arith, false, if◌then◌else◌, inl, inr, leb, ltb,
  none, refl, some, string_key, suc, ℕ, ◌*◌, ◌+◌, ◌-◌, ◌<◌, ◌==◌, ◌∷◌, ◌≡◌, ◌≤◌, ◌⊎◌,
}
use mediaman.Prelude.Dict.{erase, lookup, insert, Dict, lookup-insert, lookup-erase}
use mediaman.Search.Throttle.{
  Store, load_throttle_from_db, searches_of, search_backoff, default, Throttle, Library, last_of,
  search_backoff_seconds,
}
use mediaman.Search.BackoffLaws.{
  spread, delay-nan_or_overflow, delay-spread, spread_least, IsWithin,
}
use mediaman.Search.Trigger.{
  commit, conclude, commit_or_rollback_reservation, is_searched, Call, search_of, trigger_inputs,
  reserve, reserved, raised, skipped, claim, rollback, mark, is_own, warm, TriggerInputs, is_capped,
}
use mediaman.Search.Backoff.{Result, Error, max_exponent}

abbrev pub least_wait : ℕ
least_wait = 120 * 900000

abbrev pub stamp_of : Throttle → String → ℕ × String
stamp_of m key = default (0, "") (lookup key m.last_search_trigger_by_arr)

-- No search was sent.
pub record IsQuiet (m m' : Throttle) : Type 0 where
  pub later : (dl_id : String) → last_of m dl_id ≤ last_of m' dl_id
  pub same : m'.last_search_trigger_by_arr ≡ m.last_search_trigger_by_arr

pub IsQuiet-refl : (m : Throttle) → IsQuiet m m
IsQuiet-refl m = record { later = λ d. omega arith; same = refl }

-- The search of `i` was sent.
pub record IsSent (i : TriggerInputs) (m m' : Throttle) : Type 0 where
  pub free : is_capped i.dl_id i.now (stamp_of m i.throttle_key) ≡ false
  pub rested : last_of m i.dl_id + least_wait ≤ i.now
  pub later : (dl_id : String) → last_of m dl_id ≤ last_of m' dl_id
  pub marked : last_of m' i.dl_id ≡ i.now
  pub stamped :
      m'.last_search_trigger_by_arr
      ≡ insert i.throttle_key (i.now, i.dl_id) m.last_search_trigger_by_arr

pub default-insert :
    {V : Type 0} (k : String) (u v : V) (d : Dict String V)
    → default u (lookup k (insert k v d)) ≡ v
unfolding default
default-insert k u v d = rw (lookup-insert k k v d, ==_self k)

pub last_of-insert :
    (d : Dict String ℕ) (dl_id other : String) (t : ℕ)
    → default 0 (lookup other (insert dl_id t d))
      ≡ (if dl_id == other then t else default 0 (lookup other d))
unfolding default
last_of-insert d dl_id other t = rw (lookup-insert dl_id other t d) (ground arith)

last_of-erase :
    (d : Dict String ℕ) (dl_id other : String)
    → default 0 (lookup other (erase dl_id d))
      ≡ (if dl_id == other then 0 else default 0 (lookup other d))
unfolding default
last_of-erase d dl_id other = rw (lookup-erase dl_id other d) (ground arith)

pub warm-IsQuiet :
    (m : Throttle) (dl_id : String) (epoch count : ℕ) → IsQuiet m (warm m dl_id epoch count)
unfolding warm
warm-IsQuiet m dl_id epoch count = record {
  later = λ other. ground (
    arith,
    last_of-insert m.last_search_trigger dl_id other epoch,
    string_key.same_iff dl_id other,
  );
  same = refl;
}

-- The item's own wait is a number, and never below two minutes less the jitter.
pub search_backoff_seconds-least :
    (lib : Library) (count : ℕ) (dl_id : String) (last : ℕ) (wait : Option ℕ)
    → IsWithin lib.uniform
    → search_backoff_seconds lib count dl_id last ≡ inr wait
    → (w : ℕ) × (wait ≡ some w) × (least_wait ≤ w)
unfolding search_backoff_seconds
search_backoff_seconds-least lib count dl_id last wait within h =
    let seed = lib.seed dl_id last in
    elim (Bool-cases (leb count (suc max_exponent))) [
      | inl e ↦
          let few : count ≤ suc max_exponent = ground (arith, e) in
          let found = delay-spread lib.uniform 120 86400 100000 count seed few in
          (
            spread lib.uniform 120 86400 100000 seed count,
            ground (arith, h, found),
            spread_least lib.uniform 120 86400 100000 seed within count (omega arith),
          )
      | inr e ↦
          let many : suc max_exponent < count = ground (arith, e) in
          let found =
            (delay-nan_or_overflow lib.uniform 0 0 count seed (omega arith)).1 many
              search_backoff in
          ground (arith, h, found)
    ]

mark-last_of :
    (m : Throttle) (dl_id other token : String) (now : ℕ)
    → last_of (mark m dl_id now token) other ≡ (if dl_id == other then now else last_of m other)
unfolding mark
mark-last_of m dl_id other token now = last_of-insert m.last_search_trigger dl_id other now

-- Taking back a slot that is still one's own leaves every item's last search as it was.
pub rollback-mark :
    (m : Throttle) (i : TriggerInputs) (token other : String)
    → last_of (rollback (mark m i.dl_id i.now token) i (last_of m i.dl_id) token) other
      ≡ last_of m other
unfolding rollback mark is_own
rollback-mark m i token other =
    rw (lookup-insert i.dl_id i.dl_id token m.reservation_tokens, ==_self i.dl_id, ==_self token)
      (let l = last_of m i.dl_id in
        let d = insert i.dl_id i.now m.last_search_trigger in
        ground (
          arith,
          last_of-insert d i.dl_id other l,
          last_of-erase d i.dl_id other,
          last_of-insert m.last_search_trigger i.dl_id other i.now,
          string_key.same_iff i.dl_id other,
        ))

-- The gate, given what the wait is.
claim-cases :
    (m : Throttle) (i : TriggerInputs) (token : String) (last count : ℕ) (r : Result (Option ℕ))
    → ((wait : Option ℕ) → r ≡ inr wait → (w : ℕ) × (wait ≡ some w) × (least_wait ≤ w))
    → (claim m i.dl_id i.now token last count r ≡ (m, skipped))
      ⊎ ((e : Error) × (claim m i.dl_id i.now token last count r ≡ (m, raised e)))
      ⊎ ((claim m i.dl_id i.now token last count r
            ≡ (mark m i.dl_id i.now token, reserved last count))
          × (last + least_wait ≤ i.now))
unfolding claim
claim-cases m i token last count (inl e) waits = inr (inl (e, refl))
claim-cases m i token last count (inr none) waits = ground (arith, (waits none refl).1)
claim-cases m i token last count (inr (some w)) waits =
    let long = (waits (some w) refl) in
    elim (Bool-cases (ltb (i.now - last) w)) [
      | inl e ↦ rw e (inl refl)
      | inr e ↦ rw e (inr (inr (refl, ground (arith, e, long.1, long.2))))
    ]

-- The first phase: the slot is taken only after both waits.
pub reserve-cases :
    (lib : Library) (m : Throttle) (i : TriggerInputs) (epoch count : ℕ) (token : String)
    → IsWithin lib.uniform
    → let m' = warm m i.dl_id epoch count in
      let r = reserve lib m i (epoch, count) token in
      ((r ≡ (m, skipped)) ⊎ (r ≡ (m', skipped)))
      ⊎ ((e : Error) × (r ≡ (m', raised e)))
      ⊎ ((r ≡ (mark m' i.dl_id i.now token, reserved (last_of m' i.dl_id) (searches_of m' i.dl_id)))
          × (last_of m' i.dl_id + least_wait ≤ i.now)
          × (is_capped i.dl_id i.now (stamp_of m i.throttle_key) ≡ false))
unfolding reserve
reserve-cases lib m i epoch count token within =
    let m' = warm m i.dl_id epoch count in
    let last = last_of m' i.dl_id in
    let previous_count = searches_of m' i.dl_id in
    elim (Bool-cases (is_capped i.dl_id i.now (stamp_of m i.throttle_key))) [
      | inl capped ↦ rw capped (inl (inl refl))
      | inr free ↦
          rw free
            (elim (claim-cases m' i token last previous_count
              (search_backoff_seconds lib previous_count i.dl_id last)
              (λ wait h.
                search_backoff_seconds-least lib previous_count i.dl_id last wait within h)) [
                  | inl h ↦ inl (inr h)
                  | inr (inl h) ↦ inr (inl h)
                  | inr (inr h) ↦ inr (inr (h.0, h.1, refl))
                ])
    ]

mark-rollback-IsQuiet :
    (m m' : Throttle) (i : TriggerInputs) (token : String)
    → IsQuiet m m'
    → IsQuiet m (rollback (mark m' i.dl_id i.now token) i (last_of m' i.dl_id) token)
unfolding rollback mark
mark-rollback-IsQuiet m m' i token quiet = record {
  later = λ other. rw (rollback-mark m' i token other) (quiet.later other);
  same = ground (arith, quiet.same);
}

mark-commit-IsSent :
    (m m' : Throttle) (i : TriggerInputs) (count : ℕ) (token : String)
    → IsQuiet m m'
    → last_of m' i.dl_id + least_wait ≤ i.now
    → is_capped i.dl_id i.now (stamp_of m i.throttle_key) ≡ false
    → IsSent i m (commit (mark m' i.dl_id i.now token) i count token)
unfolding commit
mark-commit-IsSent m m' i count token quiet rested free = record {
  free = free;
  rested = omega (arith, quiet.later i.dl_id, rested);
  later = λ other. ground (
    arith,
    mark-last_of m' i.dl_id other token i.now,
    string_key.same_iff i.dl_id other,
    quiet.later other,
    rested,
  );
  marked = ground (arith, mark-last_of m' i.dl_id i.dl_id token i.now, ==_self i.dl_id);
  stamped = unfold mark in ap (insert i.throttle_key (i.now, i.dl_id)) quiet.same;
}

conclude-cases :
    (lib : Library) (c : Call) (i : TriggerInputs) (s : Store) (m' : Throttle)
    → IsQuiet s.memory m'
    → last_of m' i.dl_id + least_wait ≤ i.now
    → is_capped i.dl_id i.now (stamp_of s.memory i.throttle_key) ≡ false
    → let taken : Store = record { memory = mark m' i.dl_id i.now c.token; table = s.table } in
      let r = conclude lib c i taken (reserved (last_of m' i.dl_id) (searches_of m' i.dl_id)) in
      (IsQuiet s.memory r.0.memory × (r.1 ≡ []))
      ⊎ (IsSent i s.memory r.0.memory × (r.1 ≡ search_of i ∷ []))
unfolding conclude commit_or_rollback_reservation
conclude-cases lib c i s m' quiet rested free = elim (Bool-cases (is_searched c.answer)) [
  | inl e ↦ rw e (
      inr
        (mark-commit-IsSent s.memory m' i (searches_of m' i.dl_id) c.token quiet rested free, refl))
  | inr e ↦ rw e (inl (mark-rollback-IsQuiet s.memory m' i c.token quiet, refl))
]

-- One call either sends nothing and takes nothing back, or sends its search after both waits.
pub trigger_inputs-cases :
    (lib : Library) (c : Call) (i : TriggerInputs) (s : Store)
    → IsWithin lib.uniform
    → let r = trigger_inputs lib c s (some i) in
      (IsQuiet s.memory r.0.memory × (r.1 ≡ []))
      ⊎ (IsSent i s.memory r.0.memory × (r.1 ≡ search_of i ∷ []))
unfolding trigger_inputs conclude
trigger_inputs-cases lib c i s within =
    let persisted = load_throttle_from_db lib c.readable s.table i.dl_id in
    let warmed = warm-IsQuiet s.memory i.dl_id persisted.0 persisted.1 in
    elim (reserve-cases lib s.memory i persisted.0 persisted.1 c.token within) [
      | inl (inl h) ↦ rw h (inl (IsQuiet-refl s.memory, refl))
      | inl (inr h) ↦ rw h (inl (warmed, refl))
      | inr (inl h) ↦ rw h.1 (inl (warmed, refl))
      | inr (inr h) ↦
          rw h.0 (
            conclude-cases lib c i s (warm s.memory i.dl_id persisted.0 persisted.1) warmed h.1 h.2)
    ]
