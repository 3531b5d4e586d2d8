-- ===== src/Search/Spacing.antt =====
-- Searches over any sequence of calls are spaced.

use mediaman.Prelude.{
  Bool, Bool-cases, List, Option-cases, String, [], ap, arith, false, if◌then◌else◌, inl, inr, refl,
  some, string_key, sym, ℕ, ◌++◌, ◌+◌, ◌==◌, ◌∙◌, ◌∷◌, ◌≡◌, ◌≢◌, ◌≤◌, ◌⊎◌,
}
use mathlib.Core.Path.{subst}
use mediaman.Search.BackoffLaws.{IsWithin}
use mediaman.Prelude.Dict.{lookup-insert}
use mediaman.Core.Time.{Text}
use mediaman.Search.TriggerLaws.{
  IsQuiet-refl, trigger_inputs-cases, least_wait, stamp_of, IsQuiet, IsSent,
}
use mediaman.Search.Throttle.{default, Throttle, Store, Library, last_of, arr_throttle_key}
use mediaman.Search.Trigger.{
  trigger_inputs, Item, per_arr_throttle_seconds, TriggerInputs, parse_trigger_inputs, is_capped,
  Call, Search, search_of, maybe_trigger_search,
}

-- The calls one after another, and the searches that were answered.
unfoldable pub trigger_all : Library → Store → List Call → List Search
trigger_all lib s [] = []
trigger_all lib s (c ∷ cs) = let r = maybe_trigger_search lib s c in r.1 ++ trigger_all lib r.0 cs

-- The calls are in the order of time.
abbrev pub IsTimed : ℕ → List Call → Type 0
IsTimed clock [] = Unit
IsTimed clock (c ∷ cs) = (clock ≤ c.now) × IsTimed c.now cs

-- The later search waited for the earlier one.
pub record IsSpaced (x y : Search) : Type 0 where
  pub own : x.dl_id ≡ y.dl_id → x.sent_at + least_wait ≤ y.sent_at
  pub shared :
      x.service ≡ y.service → x.dl_id ≢ y.dl_id → x.sent_at + per_arr_throttle_seconds ≤ y.sent_at

abbrev pub AllSpaced : Search → List Search → Type 0
AllSpaced x [] = Unit
AllSpaced x (y ∷ ys) = IsSpaced x y × AllSpaced x ys

abbrev pub ArePairwiseSpaced : List Search → Type 0
ArePairwiseSpaced [] = Unit
ArePairwiseSpaced (x ∷ xs) = AllSpaced x xs × ArePairwiseSpaced xs

-- What is remembered of a search that was sent.
record Remembers (clock : ℕ) (m : Throttle) (x : Search) : Type 0 where
  item : x.sent_at ≤ last_of m x.dl_id
  instance_ : x.sent_at ≤ (stamp_of m x.service).0
  other :
      x.dl_id ≢ (stamp_of m x.service).1
      → x.sent_at + per_arr_throttle_seconds ≤ (stamp_of m x.service).0
  past : (stamp_of m x.service).0 ≤ clock

parse_trigger_inputs-fields :
    (item : Item) (matched_nzb : Bool) (secret_key : Text) (now : ℕ) (i : TriggerInputs)
    → parse_trigger_inputs item matched_nzb secret_key now ≡ some i
    → (i.throttle_key ≡ i.service) × (i.now ≡ now)
unfolding parse_trigger_inputs arr_throttle_key
parse_trigger_inputs-fields item matched_nzb secret_key now i h = ground (arith, h)

IsQuiet-Remembers :
    (clock now : ℕ) (m m' : Throttle) (x : Search)
    → clock ≤ now
    → IsQuiet m m'
    → Remembers clock m x
    → Remembers now m' x
IsQuiet-Remembers clock now m m' x h quiet seen = record {
  item = omega (arith, seen.item, quiet.later x.dl_id);
  instance_ = rw quiet.same seen.instance_;
  other = rw quiet.same seen.other;
  past = rw quiet.same (omega (arith, seen.past, h));
}

stamp_of-sent :
    (i : TriggerInputs) (m m' : Throttle) (key : String)
    → IsSent i m m'
    → stamp_of m' key ≡ (if i.throttle_key == key then (i.now, i.dl_id) else stamp_of m key)
unfolding default
stamp_of-sent i m m' key sent =
    rw
      (sent.stamped, lookup-insert i.throttle_key key (i.now, i.dl_id) m.last_search_trigger_by_arr)
      (ground arith)

-- Another item's search on the same instance waits for the whole window.
gap_of_others :
    (clock : ℕ) (i : TriggerInputs) (m m' : Throttle) (x : Search)
    → clock ≤ i.now
    → i.throttle_key ≡ x.service
    → x.dl_id ≢ i.dl_id
    → IsSent i m m'
    → Remembers clock m x
    → x.sent_at + per_arr_throttle_seconds ≤ i.now
unfolding is_capped
gap_of_others clock i m m' x h same differ sent seen =
    let stamp = stamp_of m x.service in
    let free = subst (λ k. is_capped i.dl_id i.now (stamp_of m k) ≡ false) same sent.free in
    elim (Bool-cases (stamp.1 == i.dl_id)) [
      | inl e ↦
          let own : stamp.1 ≡ i.dl_id = (string_key.same_iff stamp.1 i.dl_id).0 e in
          omega (arith, seen.other (λ d. differ (d ∙ own)), seen.past, h)
      | inr e ↦ ground (arith, free, e, seen.instance_)
    ]

IsSent-Remembers :
    (clock : ℕ) (i : TriggerInputs) (m m' : Throttle) (x : Search)
    → clock ≤ i.now
    → i.throttle_key ≡ i.service
    → IsSent i m m'
    → Remembers clock m x
    → IsSpaced x (search_of i) × Remembers i.now m' x
unfolding is_capped
IsSent-Remembers clock i m m' x h key sent seen = (
  record {
    own = λ e. omega (arith, seen.item, sent.rested, ap (last_of m) e);
    shared = λ e d. gap_of_others clock i m m' x h (key ∙ sym e) d sent seen;
  },
  record {
    item = omega (arith, seen.item, sent.later x.dl_id);
    instance_ = ground (arith, stamp_of-sent i m m' x.service sent, seen.instance_, seen.past, h);
    other = elim (Bool-cases (i.throttle_key == x.service)) [
      | inl e ↦
          let same = (string_key.same_iff i.throttle_key x.service).0 e in
          rw (stamp_of-sent i m m' x.service sent, e)
            (λ d. gap_of_others clock i m m' x h same d sent seen)
      | inr e ↦ rw (stamp_of-sent i m m' x.service sent, e) seen.other
    ];
    past = ground (arith, stamp_of-sent i m m' x.service sent, seen.past, h);
  },
)

IsSent-Remembers_own :
    (i : TriggerInputs) (m m' : Throttle)
    → i.throttle_key ≡ i.service
    → IsSent i m m'
    → Remembers i.now m' (search_of i)
IsSent-Remembers_own i m m' key sent =
    let stamp : stamp_of m' i.service ≡ (i.now, i.dl_id) = ground (
      arith,
      stamp_of-sent i m m' i.service sent,
      string_key.same_iff i.throttle_key i.service,
      key,
    ) in
    record {
      item = omega (arith, sent.marked);
      instance_ = rw stamp (omega arith);
      other = rw stamp (λ d. absurd (d refl));
      past = rw stamp (omega arith);
    }

pub maybe_trigger_search-cases :
    (lib : Library) (s : Store) (c : Call)
    → IsWithin lib.uniform
    → let r = maybe_trigger_search lib s c in
      (IsQuiet s.memory r.0.memory × (r.1 ≡ []))
      ⊎ ((i : TriggerInputs) × (i.throttle_key ≡ i.service)
          × (i.now ≡ c.now)
          × IsSent i s.memory r.0.memory
          × (r.1 ≡ search_of i ∷ []))
unfolding maybe_trigger_search
maybe_trigger_search-cases lib s c within =
    elim (Option-cases (parse_trigger_inputs c.item c.matched_nzb c.secret_key c.now)) [
      | inl e ↦ rw e (unfold trigger_inputs in inl (IsQuiet-refl s.memory, refl))
      | inr (i, e) ↦
          let fields = parse_trigger_inputs-fields c.item c.matched_nzb c.secret_key c.now i e in
          rw e (elim (trigger_inputs-cases lib c i s within) [
            | inl h ↦ inl h
            | inr h ↦ inr (i, fields.0, fields.1, h.0, h.1)
          ])
    ]

-- Every search after an earlier one is spaced from it.
trigger_all-AllSpaced :
    (lib : Library) (x : Search) (clock : ℕ) (s : Store) (cs : List Call)
    → IsWithin lib.uniform
    → IsTimed clock cs
    → Remembers clock s.memory x
    → AllSpaced x (trigger_all lib s cs)
unfolding trigger_all
trigger_all-AllSpaced lib x clock s [] within timed seen = tt
trigger_all-AllSpaced lib x clock s (c ∷ cs) within timed seen =
    let s' = (maybe_trigger_search lib s c).0 in
    elim (maybe_trigger_search-cases lib s c within) [
      | inl h ↦ rw h.1 (
          trigger_all-AllSpaced lib x c.now s' cs within timed.1
            (IsQuiet-Remembers clock c.now s.memory s'.memory x timed.0 h.0 seen))
      | inr (i, key, at, sent, e) ↦
          let next =
            IsSent-Remembers clock i s.memory s'.memory x (omega (arith, timed.0, at)) key sent
              seen in
          rw e (
            next.0,
            trigger_all-AllSpaced lib x c.now s' cs within timed.1
                (subst (λ t. Remembers t s'.memory x) at next.1),
          )
    ]

-- Where the jitter stays within its range: over any calls in the order of time, on any store, two
-- searches for one item are at least 108 seconds apart, and two for different items on the same
-- instance at least 15 minutes.
pub trigger_all-ArePairwiseSpaced :
    (lib : Library) (clock : ℕ) (s : Store) (cs : List Call)
    → IsWithin lib.uniform
    → IsTimed clock cs
    → ArePairwiseSpaced (trigger_all lib s cs)
unfolding trigger_all
trigger_all-ArePairwiseSpaced lib clock s [] within timed = tt
trigger_all-ArePairwiseSpaced lib clock s (c ∷ cs) within timed =
    let s' = (maybe_trigger_search lib s c).0 in
    let rest = trigger_all-ArePairwiseSpaced lib c.now s' cs within timed.1 in
    elim (maybe_trigger_search-cases lib s c within) [
      | inl h ↦ rw h.1 rest
      | inr (i, key, at, sent, e) ↦
          let seen = IsSent-Remembers_own i s.memory s'.memory key sent in
          rw e (
            trigger_all-AllSpaced lib (search_of i) c.now s' cs within timed.1
                (subst (λ t. Remembers t s'.memory (search_of i)) at seen),
            rest,
          )
    ]
