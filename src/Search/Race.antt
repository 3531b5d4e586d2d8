-- ===== src/Search/Race.antt =====
-- Calls whose phases interleave.

use mediaman.Prelude.{
  ==_self, Bool, Bool-cases, Option, String, ap, arith, false, inl, inr, ltb, none, refl, some,
  string_key, sym, true, ℕ, ◌-◌, ◌∙◌, ◌≡◌, ◌≢◌,
}
use mathlib.Core.Path.{subst}
use mediaman.Search.TriggerLaws.{stamp_of}
use mediaman.Search.Backoff.{Result}
use mediaman.Prelude.Dict.{insert, erase, Dict, lookup-insert, lookup-erase, lookup}
use mediaman.Search.Throttle.{last_of, searches_of, search_backoff_seconds, Throttle, Library}
use mediaman.Search.Trigger.{
  skipped, reserved, claim, warm, is_capped, rollback, mark, reserve, commit, TriggerInputs, is_own,
}

-- What other calls, with tokens of their own, do to the memory.
pub data Step (lib : Library) (mine : String) : Throttle → Throttle → Type 0 where
  reserving :
      (m : Throttle) (i : TriggerInputs) (persisted : ℕ × ℕ) (token : String)
      → token ≢ mine
      → Step lib mine m (reserve lib m i persisted token).0
  committing :
      (m : Throttle) (i : TriggerInputs) (count : ℕ) (token : String)
      → token ≢ mine
      → Step lib mine m (commit m i count token)
  rolling_back :
      (m : Throttle) (i : TriggerInputs) (prev_last : ℕ) (token : String)
      → token ≢ mine
      → Step lib mine m (rollback m i prev_last token)

pub data Steps (lib : Library) (mine : String) : Throttle → Throttle → Type 0 where
  done : (m : Throttle) → Steps lib mine m m
  then_ : (m m' m'' : Throttle) → Step lib mine m m' → Steps lib mine m' m'' → Steps lib mine m m''

abbrev holds : String → String → Throttle → Bool
holds mine dl_id m = is_own mine (lookup dl_id m.reservation_tokens)

is_own-erase :
    (mine k other : String) (d : Dict String String)
    → is_own mine (lookup other d) ≡ false
    → is_own mine (lookup other (erase k d)) ≡ false
unfolding is_own
is_own-erase mine k other d h = rw (lookup-erase k other d) (ground (arith, h))

is_own-insert :
    (mine k other token : String) (d : Dict String String)
    → token ≢ mine
    → is_own mine (lookup other d) ≡ false
    → is_own mine (lookup other (insert k token d)) ≡ false
unfolding is_own
is_own-insert mine k other token d differ h =
    rw (lookup-insert k other token d) (ground (arith, h, string_key.same_iff token mine, differ))

claim-holds :
    (m : Throttle) (i : TriggerInputs) (last count : ℕ) (token mine other : String)
    (r : Result (Option ℕ))
    → token ≢ mine
    → holds mine other m ≡ false
    → holds mine other (claim m i.dl_id i.now token last count r).0 ≡ false
unfolding claim mark
claim-holds m i last count token mine other (inl e) differ h = h
claim-holds m i last count token mine other (inr none) differ h =
    is_own-insert mine i.dl_id other token m.reservation_tokens differ h
claim-holds m i last count token mine other (inr (some w)) differ h =
    let taken = is_own-insert mine i.dl_id other token m.reservation_tokens differ h in
    elim (Bool-cases (ltb (i.now - last) w)) [ inl e ↦ rw e h | inr e ↦ rw e taken ]

reserve-holds :
    (lib : Library) (m : Throttle) (i : TriggerInputs) (persisted : ℕ × ℕ)
    (token mine other : String)
    → token ≢ mine
    → holds mine other m ≡ false
    → holds mine other (reserve lib m i persisted token).0 ≡ false
unfolding reserve
reserve-holds lib m i persisted token mine other differ h =
    let m' = warm m i.dl_id persisted.0 persisted.1 in
    let last = last_of m' i.dl_id in
    let count = searches_of m' i.dl_id in
    let h' : holds mine other m' ≡ false = unfold warm in h in
    elim (Bool-cases (is_capped i.dl_id i.now (stamp_of m i.throttle_key))) [
      | inl e ↦ rw e h
      | inr e ↦ rw e (
          claim-holds m' i last count token mine other
            (search_backoff_seconds lib count i.dl_id last) differ h')
    ]

commit-holds :
    (m : Throttle) (i : TriggerInputs) (count : ℕ) (token mine other : String)
    → holds mine other m ≡ false
    → holds mine other (commit m i count token) ≡ false
unfolding commit
commit-holds m i count token mine other h =
    let freed = is_own-erase mine i.dl_id other m.reservation_tokens h in
    elim (Bool-cases (is_own token (lookup i.dl_id m.reservation_tokens))) [
      | inl e ↦ rw e freed
      | inr e ↦ rw e h
    ]

rollback-holds :
    (m : Throttle) (i : TriggerInputs) (prev_last : ℕ) (token mine other : String)
    → holds mine other m ≡ false
    → holds mine other (rollback m i prev_last token) ≡ false
unfolding rollback
rollback-holds m i prev_last token mine other h =
    let freed = is_own-erase mine i.dl_id other m.reservation_tokens h in
    elim (Bool-cases (is_own token (lookup i.dl_id m.reservation_tokens))) [
      | inl e ↦ rw e freed
      | inr e ↦ rw e h
    ]

Steps-holds :
    (lib : Library) (mine other : String) (m m' : Throttle)
    → Steps lib mine m m'
    → holds mine other m ≡ false
    → holds mine other m' ≡ false
Steps-holds lib mine other m m' (done n) h = h
Steps-holds lib mine other m m'' (then_ n m' k (reserving p i persisted token differ) rest) h =
    Steps-holds lib mine other m' m'' rest
      (reserve-holds lib m i persisted token mine other differ h)
Steps-holds lib mine other m m'' (then_ n m' k (committing p i count token differ) rest) h =
    Steps-holds lib mine other m' m'' rest (commit-holds m i count token mine other h)
Steps-holds lib mine other m m'' (then_ n m' k (rolling_back p i prev_last token differ) rest) h =
    Steps-holds lib mine other m' m'' rest (rollback-holds m i prev_last token mine other h)

claim-taken :
    (m : Throttle) (dl_id token mine : String) (now last count prev prev_count : ℕ)
    (r : Result (Option ℕ))
    → token ≢ mine
    → (claim m dl_id now token last count r).1 ≡ reserved prev prev_count
    → holds mine dl_id (claim m dl_id now token last count r).0 ≡ false
unfolding claim mark is_own
claim-taken m dl_id token mine now last count prev prev_count (inl e) differ h = ground (arith, h)
claim-taken m dl_id token mine now last count prev prev_count (inr none) differ h =
    rw (lookup-insert dl_id dl_id token m.reservation_tokens, ==_self dl_id)
      (ground (arith, string_key.same_iff token mine, differ))
claim-taken m dl_id token mine now last count prev prev_count (inr (some w)) differ h = ground (
  arith,
  h,
  lookup-insert dl_id dl_id token m.reservation_tokens,
  ==_self dl_id,
  string_key.same_iff token mine,
  differ,
)

pub reserve-open :
    (lib : Library) (m : Throttle) (j : TriggerInputs) (epoch stored : ℕ) (token : String)
    → is_capped j.dl_id j.now (stamp_of m j.throttle_key) ≡ false
    → let m' = warm m j.dl_id epoch stored in
      let last = last_of m' j.dl_id in
      let count = searches_of m' j.dl_id in
      reserve lib m j (epoch, stored) token
      ≡ claim m' j.dl_id j.now token last count (search_backoff_seconds lib count j.dl_id last)
unfolding reserve
reserve-open lib m j epoch stored token free = rw free refl

pub reserve-capped :
    (lib : Library) (m : Throttle) (j : TriggerInputs) (epoch stored : ℕ) (token : String)
    → is_capped j.dl_id j.now (stamp_of m j.throttle_key) ≡ true
    → reserve lib m j (epoch, stored) token ≡ (m, skipped)
unfolding reserve
reserve-capped lib m j epoch stored token full = rw full refl

reserve-taken :
    (lib : Library) (m : Throttle) (j : TriggerInputs) (persisted : ℕ × ℕ) (theirs mine : String)
    (prev prev_count : ℕ)
    → theirs ≢ mine
    → (reserve lib m j persisted theirs).1 ≡ reserved prev prev_count
    → holds mine j.dl_id (reserve lib m j persisted theirs).0 ≡ false
reserve-taken lib m j persisted theirs mine prev prev_count differ h =
    let m' = warm m j.dl_id persisted.0 persisted.1 in
    let last = last_of m' j.dl_id in
    let count = searches_of m' j.dl_id in
    elim (Bool-cases (is_capped j.dl_id j.now (stamp_of m j.throttle_key))) [
      | inl full ↦ ground (arith, h, reserve-capped lib m j persisted.0 persisted.1 theirs full)
      | inr free ↦
          let opened = reserve-open lib m j persisted.0 persisted.1 theirs free in
          rw opened (
            claim-taken m' j.dl_id theirs mine j.now last count prev prev_count
              (search_backoff_seconds lib count j.dl_id last) differ
              (sym (ap (λ r. r.1) opened) ∙ h))
    ]

-- Once another call has reserved the slot of the same item, and whatever further calls do, all with
-- tokens of their own, the failure of the first call takes nothing back.
rollback-overtaken :
    (lib : Library) (m m' : Throttle) (i j : TriggerInputs) (persisted : ℕ × ℕ)
    (mine theirs : String) (prev_last prev prev_count : ℕ)
    → theirs ≢ mine
    → j.dl_id ≡ i.dl_id
    → (reserve lib m j persisted theirs).1 ≡ reserved prev prev_count
    → Steps lib mine (reserve lib m j persisted theirs).0 m'
    → rollback m' i prev_last mine ≡ m'
unfolding rollback
rollback-overtaken lib m m' i j persisted mine theirs prev_last prev prev_count differ same taken
      steps =
    let free = reserve-taken lib m j persisted theirs mine prev prev_count differ taken in
    let free' = Steps-holds lib mine j.dl_id (reserve lib m j persisted theirs).0 m' steps free in
    let free'' = subst (λ d. holds mine d m' ≡ false) same free' in rw free'' refl
