-- ===== src/RateLimit/Window.antt =====
-- Windows of time over a log of instants: the two tests of the limiters and their loops.

use mediaman.Prelude.{
  Bool, Bool-cases, List, [], ap, arith, if◌then◌else◌, inl, inr, leb, ltb, refl, select,
  select-select_of_imp, sym, true, ℕ, ◌++◌, ◌+◌, ◌∙◌, ◌∷◌, ◌≡◌, ◌≤◌,
}

-- `now - t < window`, over signed differences.
abbrev pub in_window : ℕ → ℕ → ℕ → Bool
in_window window now t = ltb now (t + window)

-- The negation of `t < now - span`.
abbrev pub is_fresh : ℕ → ℕ → ℕ → Bool
is_fresh span now t = leb now (t + span)

-- `while log and log[0] < cutoff: log.popleft()`
unfoldable pub drop_stale : ℕ → ℕ → List ℕ → List ℕ
drop_stale span now [] = []
drop_stale span now (t ∷ log) =
    let rest = drop_stale span now log in if is_fresh span now t then t ∷ log else rest

-- Every instant of the log lies between `lo` and `hi`, and none before its predecessor.
abbrev pub Ascends : ℕ → ℕ → List ℕ → Type 0
Ascends lo hi [] = lo ≤ hi
Ascends lo hi (t ∷ log) = (lo ≤ t) × Ascends t hi log

pub Ascends-weaken :
    (lo lo' hi : ℕ) (log : List ℕ) → lo' ≤ lo → Ascends lo hi log → Ascends lo' hi log
Ascends-weaken lo lo' hi [] h a = omega arith
Ascends-weaken lo lo' hi (t ∷ log) h a = (omega arith, a.1)

pub Ascends-extend :
    (lo hi hi' : ℕ) (log : List ℕ) → hi ≤ hi' → Ascends lo hi log → Ascends lo hi' log
Ascends-extend lo hi hi' [] h a = omega arith
Ascends-extend lo hi hi' (t ∷ log) h a = (a.0, Ascends-extend t hi hi' log h a.1)

pub Ascends-append :
    (lo hi now : ℕ) (log : List ℕ) → hi ≤ now → Ascends lo hi log → Ascends lo now (log ++ now ∷ [])
Ascends-append lo hi now [] h a = (omega arith, omega arith)
Ascends-append lo hi now (t ∷ log) h a = (a.0, Ascends-append t hi now log h a.1)

-- In an ascending log that starts at a fresh instant, all are fresh.
select_fresh_all :
    (span now lo hi : ℕ) (log : List ℕ)
    → Ascends lo hi log
    → is_fresh span now lo ≡ true
    → select (is_fresh span now) log ≡ log
unfolding select
select_fresh_all span now lo hi [] a h = refl
select_fresh_all span now lo hi (t ∷ log) a h =
    let ht : is_fresh span now t ≡ true = ground arith in
    rw (ht, select_fresh_all span now t hi log a.1 ht)

-- On an ascending log the loop that drops from the left is a filter.
pub drop_stale-eq-select :
    (span now lo hi : ℕ) (log : List ℕ)
    → Ascends lo hi log
    → drop_stale span now log ≡ select (is_fresh span now) log
unfolding select drop_stale
drop_stale-eq-select span now lo hi [] a = refl
drop_stale-eq-select span now lo hi (t ∷ log) a = elim (Bool-cases (is_fresh span now t)) [
  | inl fresh ↦ rw (fresh, select_fresh_all span now t hi log a.1 fresh)
  | inr stale ↦ rw stale (drop_stale-eq-select span now t hi log a.1)
]

pub Ascends-drop_stale :
    (span now lo hi : ℕ) (log : List ℕ)
    → Ascends lo hi log
    → Ascends lo hi (drop_stale span now log)
unfolding drop_stale
Ascends-drop_stale span now lo hi [] a = a
Ascends-drop_stale span now lo hi (t ∷ log) a = elim (Bool-cases (is_fresh span now t)) [
  | inl fresh ↦ rw fresh a
  | inr stale ↦ rw stale (
      Ascends-weaken t lo hi (drop_stale span now log) a.0
        (Ascends-drop_stale span now t hi log a.1))
]

-- Where two logs agree on one window, they agree on every later one.
pub in_window_later :
    (window now later : ℕ) (xs ys : List ℕ)
    → now ≤ later
    → select (in_window window now) xs ≡ select (in_window window now) ys
    → select (in_window window later) xs ≡ select (in_window window later) ys
in_window_later window now later xs ys h e =
    sym (
      select-select_of_imp (in_window window now) (in_window window later) xs (λ t p. ground arith))
    ∙ ap (select (in_window window later)) e
    ∙ select-select_of_imp (in_window window now) (in_window window later) ys (λ t p. ground arith)

pub is_fresh_later :
    (span now later : ℕ) (xs ys : List ℕ)
    → now ≤ later
    → select (is_fresh span now) xs ≡ select (is_fresh span now) ys
    → select (is_fresh span later) xs ≡ select (is_fresh span later) ys
is_fresh_later span now later xs ys h e =
    sym (select-select_of_imp (is_fresh span now) (is_fresh span later) xs (λ t p. ground arith))
    ∙ ap (select (is_fresh span later)) e
    ∙ select-select_of_imp (is_fresh span now) (is_fresh span later) ys (λ t p. ground arith)
