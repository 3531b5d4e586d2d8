-- ===== src/Scanner/Eligibility.antt =====
-- src/mediaman/scanner/_eligibility.py and phases/evaluate.py: whether an item is old and unwatched
-- enough to be scheduled for deletion. An instant is in microseconds, a day has a fixed length.

use mediaman.Prelude.{
  Bool, List, Option, [], false, if◌then◌else◌, leb, ltb, none, not, some, true, ℕ, ◌&&◌, ◌-◌, ◌/◌,
  ◌∷◌,
}

abbrev pub day : ℕ
day = 86400000000

-- `(now - t).days >= n`: the days are rounded down, below zero for a `t` that is still to come.
unfoldable pub days_since_reach : ℕ → ℕ → ℕ → Bool
days_since_reach now t n = leb t now && leb n ((now - t) / day)

-- `is_old_enough`; the settings are natural numbers.
unfoldable pub is_old_enough : ℕ → ℕ → ℕ → Bool
is_old_enough now added_at min_age_days = days_since_reach now added_at min_age_days

-- The entries that have an instant in `viewed_at`.
unfoldable pub viewed : List (Option ℕ) → List ℕ
viewed [] = []
viewed (none ∷ history) = viewed history
viewed (some t ∷ history) = t ∷ viewed history

-- `max(timestamps)`
unfoldable pub most_recent : ℕ → List ℕ → ℕ
most_recent t [] = t
most_recent t (u ∷ us) = most_recent (if ltb t u then u else t) us

abbrev pub quiet : ℕ → ℕ → List ℕ → Bool
quiet now n [] = false
quiet now n (t ∷ ts) = days_since_reach now (most_recent t ts) n

-- `is_inactive`, on the `viewed_at` of the entries.
unfoldable pub is_inactive : ℕ → List (Option ℕ) → ℕ → Bool
is_inactive now [] inactivity_days = true
is_inactive now (e ∷ history) inactivity_days = quiet now inactivity_days (viewed (e ∷ history))

-- `evaluate_item`, as whether it answers "schedule_deletion".
unfoldable pub evaluate_item : ℕ → ℕ → List (Option ℕ) → ℕ → ℕ → Bool
evaluate_item now added_at history min_age_days inactivity_days =
    if not (is_old_enough now added_at min_age_days)
    then false
    else if not (is_inactive now history inactivity_days)
    then false
    else true
