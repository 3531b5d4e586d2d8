-- ===== src/RateLimit/ActionCaps.antt =====
-- What `ActionRateLimiter` promises over any sequence of calls in the order of time: never more
-- grants than its caps, in any burst window and in any period of a day.

use mediaman.Prelude.{
  Bool, List, String, [], arith, if◌then◌else◌, length, refl, select, string_key, sym, true, ℕ,
  ◌++◌, ◌+◌, ◌<◌, ◌∷◌, ◌≡◌, ◌≤◌,
}
use mediaman.RateLimit.ActionRun.{Refines, Refines-new, Refines-later, check-Refines}
use mediaman.RateLimit.ActionSpec.{allows, Grants, record_grant}
use mediaman.RateLimit.Window.{in_window, is_fresh}
use mediaman.RateLimit.Action.{new_limiter, admit, check, one_day, ActionRateLimiter, check_window}

-- Calls to `check`, each at its instant, with the record of those that were granted.
unfoldable pub serve : ActionRateLimiter → Grants → List (ℕ × String) → ActionRateLimiter × Grants
serve l g [] = (l, g)
serve l g ((now, k) ∷ calls) =
    serve (check l now k).0 (if (check l now k).1 then record_grant g now k else g) calls

-- The calls come in the order of time, from `lo` to `hi`.
abbrev pub InOrder : ℕ → ℕ → List (ℕ × String) → Type 0
InOrder lo hi [] = lo ≤ hi
InOrder lo hi ((now, k) ∷ calls) = (lo ≤ now) × InOrder now hi calls

pub record Capped (l : ActionRateLimiter) (g : Grants) (now : ℕ) : Type 0 where
  pub burst_cap : (a : String) → length (select (in_window l.window now) (g a)) ≤ l.max_in_window
  pub day_cap :
      0 < l.max_per_day
      → (a : String) → length (select (is_fresh one_day now) (g a)) ≤ l.max_per_day

-- The configuration never changes.
pub check_config :
    (l : ActionRateLimiter) (now : ℕ) (k : String)
    → ((check l now k).0.max_in_window ≡ l.max_in_window)
      × ((check l now k).0.window ≡ l.window)
      × ((check l now k).0.max_per_day ≡ l.max_per_day)
unfolding check check_window admit
check_config l now k = ground arith

length-select-snoc :
    (p : ℕ → Bool) (log : List ℕ) (t : ℕ)
    → length (select p (log ++ t ∷ [])) ≤ length (select p log) + 1
unfolding select
length-select-snoc p [] t = ground arith
length-select-snoc p (s ∷ log) t = ground (arith, length-select-snoc p log t)

-- A later window holds no more than an earlier one.
length-select_later :
    (p q : ℕ → Bool) (log : List ℕ)
    → ((t : ℕ) → q t ≡ true → p t ≡ true)
    → length (select q log) ≤ length (select p log)
unfolding select
length-select_later p q [] h = omega arith
length-select_later p q (t ∷ log) h = ground (arith, h t, length-select_later p q log h)

Capped-later :
    (l : ActionRateLimiter) (g : Grants) (now later : ℕ)
    → now ≤ later
    → Capped l g now
    → Capped l g later
Capped-later l g now later h c = record {
  burst_cap = λ a. omega (
    arith,
    c.burst_cap a,
    length-select_later (in_window l.window now) (in_window l.window later) (g a)
        (λ t p. ground arith),
  );
  day_cap = λ p a. omega (
    arith,
    c.day_cap p a,
    length-select_later (is_fresh one_day now) (is_fresh one_day later) (g a) (λ t p. ground arith),
  );
}

Capped-grant :
    (l : ActionRateLimiter) (g : Grants) (now : ℕ) (k : String)
    → Capped l g now
    → Capped l (if allows l g now k then record_grant g now k else g) now
unfolding allows
Capped-grant l g now k c = record {
  burst_cap = λ a. ground (
    arith,
    string_key.same_iff k a,
    c.burst_cap a,
    length-select-snoc (in_window l.window now) (g k) now,
  );
  day_cap = λ p a. ground (
    arith,
    string_key.same_iff k a,
    c.day_cap p a,
    length-select-snoc (is_fresh one_day now) (g k) now,
  );
}

Capped-config :
    (l m : ActionRateLimiter) (g : Grants) (now : ℕ)
    → m.max_in_window ≡ l.max_in_window
    → m.window ≡ l.window
    → m.max_per_day ≡ l.max_per_day
    → Capped l g now
    → Capped m g now
Capped-config l m g now same_max same_window same_day c = record {
  burst_cap = λ a. rw (same_max, same_window) (c.burst_cap a);
  day_cap = λ p a. rw same_day (c.day_cap (omega arith) a);
}

-- One call keeps both the relation to the ideal limiter and the caps.
check-Capped :
    (l : ActionRateLimiter) (g : Grants) (now : ℕ) (k : String)
    → Refines l g now
    → Capped l g now
    → Capped (check l now k).0 (if (check l now k).1 then record_grant g now k else g) now
check-Capped l g now k r c =
    let (same_max, same_window, same_day) = check_config l now k in
    Capped-config l (check l now k).0 (if (check l now k).1 then record_grant g now k else g) now
      same_max same_window same_day (rw ((check-Refines l g now k r).0) (Capped-grant l g now k c))

serve-Capped :
    (calls : List (ℕ × String)) (l : ActionRateLimiter) (g : Grants) (lo hi : ℕ)
    → InOrder lo hi calls
    → Refines l g lo
    → Capped l g lo
    → Refines (serve l g calls).0 (serve l g calls).1 hi
      × Capped (serve l g calls).0 (serve l g calls).1 hi
unfolding serve
serve-Capped [] l g lo hi o r c = (Refines-later l g lo hi o r, Capped-later l g lo hi o c)
serve-Capped ((now, k) ∷ calls) l g lo hi o r c =
    let r' = Refines-later l g lo now o.0 r in
    serve-Capped calls (check l now k).0 (if (check l now k).1 then record_grant g now k else g) now
      hi o.1 (rw ((check-Refines l g now k r').0) ((check-Refines l g now k r').1))
      (check-Capped l g now k r' (Capped-later l g lo now o.0 c))

Capped-new :
    (max_in_window window max_per_day : ℕ)
    → Capped (new_limiter max_in_window window max_per_day) (λ a. []) 0
unfolding new_limiter select
Capped-new m w p = record { burst_cap = λ a. omega arith; day_cap = λ h a. omega arith }

serve_config :
    (calls : List (ℕ × String)) (l : ActionRateLimiter) (g : Grants)
    → ((serve l g calls).0.max_in_window ≡ l.max_in_window)
      × ((serve l g calls).0.window ≡ l.window)
      × ((serve l g calls).0.max_per_day ≡ l.max_per_day)
unfolding serve
serve_config [] l g = (refl, refl, refl)
serve_config ((now, k) ∷ calls) l g = ground (
  arith,
  check_config l now k,
  serve_config calls (check l now k).0 (if (check l now k).1 then record_grant g now k else g),
)

-- From a new limiter, after any calls in the order of time and at any later instant `now`, each
-- actor was granted at most `max_in_window` actions in the burst window that ends at `now`, and,
-- where a daily cap is set, at most `max_per_day` in the day that ends at `now`.
pub serve_within_caps :
    (max_in_window window max_per_day now : ℕ) (calls : List (ℕ × String)) (a : String)
    → InOrder 0 now calls
    → let granted = (serve (new_limiter max_in_window window max_per_day) (λ a. []) calls).1 a in
      (length (select (in_window window now) granted) ≤ max_in_window)
      × (0 < max_per_day → length (select (is_fresh one_day now) granted) ≤ max_per_day)
unfolding new_limiter
serve_within_caps m w p now calls a o =
    let l = new_limiter m w p in
    let (same_max, same_window, same_day) = serve_config calls l (λ a. []) in
    let capped : Capped l (serve l (λ a. []) calls).1 now =
      Capped-config (serve l (λ a. []) calls).0 l (serve l (λ a. []) calls).1 now (sym same_max)
        (sym same_window) (sym same_day)
        ((serve-Capped calls l (λ a. []) 0 now o (Refines-new m w p 0) (Capped-new m w p)).1) in
    (capped.burst_cap a, λ h. capped.day_cap h a)
