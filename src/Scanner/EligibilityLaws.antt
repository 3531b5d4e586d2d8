-- ===== src/Scanner/EligibilityLaws.antt =====
-- Which items `evaluate_item` schedules.

use mediaman.Prelude.{
  Bool, Bool-cases, List, Option, [], any, ap, arith, inl, inr, is_empty, is_some, leb, ltb, none,
  not, refl, some, true, ℕ, ◌&&◌, ◌||◌, ◌∷◌, ◌≡◌,
}
use mediaman.Scanner.Eligibility.{
  quiet, viewed, days_since_reach, is_old_enough, most_recent, is_inactive, evaluate_item,
}

-- Every viewing that has an instant is `n` days back or more.
unfoldable pub all_quiet : ℕ → ℕ → List (Option ℕ) → Bool
all_quiet now n [] = true
all_quiet now n (none ∷ history) = all_quiet now n history
all_quiet now n (some t ∷ history) = days_since_reach now t n && all_quiet now n history

abbrev pub all_reach : ℕ → ℕ → List ℕ → Bool
all_reach now n [] = true
all_reach now n (t ∷ ts) = days_since_reach now t n && all_reach now n ts

earlier_quiet :
    (now n s t : ℕ)
    → leb s t ≡ true
    → days_since_reach now t n ≡ true
    → days_since_reach now s n ≡ true
unfolding days_since_reach
earlier_quiet now n s t order h = ground arith

most_recent-reach :
    (now n t : ℕ) (us : List ℕ)
    → days_since_reach now (most_recent t us) n ≡ (days_since_reach now t n && all_reach now n us)
unfolding most_recent
most_recent-reach now n t [] = ground arith
most_recent-reach now n t (u ∷ us) = elim (Bool-cases (ltb t u)) [
  | inl later ↦
      rw later (ground (arith, most_recent-reach now n u us, earlier_quiet now n t u, later))
  | inr not_later ↦
      rw not_later
        (ground (arith, most_recent-reach now n t us, earlier_quiet now n u t, not_later))
]

viewed-all_quiet :
    (now n : ℕ) (history : List (Option ℕ))
    → all_reach now n (viewed history) ≡ all_quiet now n history
unfolding viewed all_quiet
viewed-all_quiet now n [] = refl
viewed-all_quiet now n (none ∷ history) = viewed-all_quiet now n history
viewed-all_quiet now n (some t ∷ history) =
    ap (λ b. days_since_reach now t n && b) (viewed-all_quiet now n history)

viewed-is_empty :
    (history : List (Option ℕ)) → is_empty (viewed history) ≡ not (any is_some history)
unfolding viewed
viewed-is_empty [] = refl
viewed-is_empty (none ∷ history) = viewed-is_empty history
viewed-is_empty (some t ∷ history) = refl

quiet-all_reach :
    (now n : ℕ) (ts : List ℕ) → quiet now n ts ≡ (not (is_empty ts) && all_reach now n ts)
quiet-all_reach now n [] = refl
quiet-all_reach now n (t ∷ ts) = most_recent-reach now n t ts

-- An item is scheduled exactly if it was added at least `min_age_days` ago and was never watched, or
-- all of its viewings that have an instant, of which there is one at least, are at least
-- `inactivity_days` back.
pub evaluate_item-all_quiet :
    (now added_at : ℕ) (history : List (Option ℕ)) (min_age_days inactivity_days : ℕ)
    → evaluate_item now added_at history min_age_days inactivity_days ≡ (
        days_since_reach now added_at min_age_days
        && (is_empty history || any is_some history && all_quiet now inactivity_days history))
unfolding evaluate_item is_inactive is_old_enough
evaluate_item-all_quiet now added_at [] min_age_days inactivity_days = ground arith
evaluate_item-all_quiet now added_at (e ∷ history) min_age_days inactivity_days = ground (
  arith,
  quiet-all_reach now inactivity_days (viewed (e ∷ history)),
  viewed-is_empty (e ∷ history),
  viewed-all_quiet now inactivity_days (e ∷ history),
)
