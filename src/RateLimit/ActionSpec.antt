-- ===== src/RateLimit/ActionSpec.antt =====
-- `ActionRateLimiter.check` against an ideal limiter that forgets nothing: it keeps every instant
-- at which an action was granted, and counts those in the burst window and in the last day.
use mediaman.Prelude.{
  Bool, Bool-cases, List, String, [], arith, if◌then◌else◌, inl, inr, is_empty, leb, length, ltb,
  none, refl, select, string_key, true, ℕ, ◌&&◌, ◌++◌, ◌==◌, ◌||◌, ◌∷◌, ◌≡◌,
}
use mediaman.Prelude.Dict.{
  insert-IsDict, erase-IsDict, IsDict, lookup, Dict, insert, erase, lookup-insert, lookup-erase,
}
use mediaman.RateLimit.Window.{in_window, is_fresh, drop_stale}
use mediaman.RateLimit.Action.{prune_daily, one_day, ActionRateLimiter, log_of, trim_actor}

-- The instants at which each actor was granted an action, oldest first.
abbrev pub Grants : Type 0
Grants = String → List ℕ

abbrev pub record_grant : Grants → ℕ → String → Grants
record_grant g now actor a = if actor == a then g a ++ now ∷ [] else g a

-- Fewer than `max_in_window` grants in the window, and fewer than `max_per_day` (where that is
-- not 0) within the last day.
unfoldable pub allows : ActionRateLimiter → Grants → ℕ → String → Bool
allows l g now actor =
    (leb l.max_per_day 0 || ltb (length (select (is_fresh one_day now) (g actor))) l.max_per_day)
    && ltb (length (select (in_window l.window now) (g actor))) l.max_in_window

pub log_of-insert :
    (k j : String) (log : List ℕ) (d : Dict String (List ℕ))
    → log_of j (insert k log d) ≡ (if k == j then log else log_of j d)
log_of-insert k j log d = ground (arith, lookup-insert k j log d)

log_of-erase :
    (k j : String) (d : Dict String (List ℕ))
    → log_of j (erase k d) ≡ (if k == j then [] else log_of j d)
log_of-erase k j d = ground (arith, lookup-erase k j d)

is_empty-eq : (log : List ℕ) → is_empty log ≡ true → log ≡ []
is_empty-eq [] h = refl
is_empty-eq (t ∷ log) h = cc

pub log_of-trim_actor :
    (now : ℕ) (k j : String) (d : Dict String (List ℕ))
    → log_of j (trim_actor now k d)
      ≡ (if k == j then drop_stale one_day now (log_of j d) else log_of j d)
unfolding trim_actor drop_stale
log_of-trim_actor now k j d = elim (Bool-cases (is_empty (drop_stale one_day now (log_of k d)))) [
  | inl gone ↦ ground (
    arith,
    string_key.same_iff k j,
    lookup-erase k j d,
    gone,
    is_empty-eq (drop_stale one_day now (log_of k d)) gone,
  )
  | inr left ↦ ground (
    arith,
    string_key.same_iff k j,
    lookup-insert k j (drop_stale one_day now (log_of k d)) d,
    left,
  )
]

pub trim_actor-IsDict :
    (now : ℕ) (k : String) (d : Dict String (List ℕ)) → IsDict d → IsDict (trim_actor now k d)
unfolding trim_actor
trim_actor-IsDict now k d h =
    ground (arith, erase-IsDict k d h, insert-IsDict k (drop_stale one_day now (log_of k d)) d h)

lookup-prune_daily-none :
    (now : ℕ) (j : String) (d : Dict String (List ℕ))
    → lookup j d ≡ none
    → lookup j (prune_daily now d) ≡ none
unfolding lookup prune_daily
lookup-prune_daily-none now j [] h = refl
lookup-prune_daily-none now j ((k, log) ∷ d) h = ground (arith, lookup-prune_daily-none now j d)

pub log_of-prune_daily :
    (now : ℕ) (j : String) (d : Dict String (List ℕ))
    → IsDict d
    → log_of j (prune_daily now d) ≡ drop_stale one_day now (log_of j d)
unfolding lookup prune_daily drop_stale
log_of-prune_daily now j [] h = refl
log_of-prune_daily now j ((k, log) ∷ d) h = ground (
  arith,
  string_key.same_iff k j,
  log_of-prune_daily now j d h.1,
  lookup-prune_daily-none now j d,
  is_empty-eq (drop_stale one_day now log),
  h.0,
)

pub prune_daily-IsDict :
    (now : ℕ) (d : Dict String (List ℕ)) → IsDict d → IsDict (prune_daily now d)
unfolding prune_daily
prune_daily-IsDict now [] h = h
prune_daily-IsDict now ((k, log) ∷ d) h =
    ground (arith, prune_daily-IsDict now d h.1, lookup-prune_daily-none now k d h.0)
