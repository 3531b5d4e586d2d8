-- ===== src/RateLimit/ActionRun.antt =====
-- `ActionRateLimiter` over any sequence of calls, against the ideal limiter of `ActionSpec`.

use mediaman.Prelude.{
  Bool, Bool-cases, List, String, [], ap, arith, false, if◌then◌else◌, inl, inr, leb, length, ltb,
  ltb→lt, not, refl, select, select-append, select-select_of_imp, string_key, sym, true, ℕ, ◌++◌,
  ◌+◌, ◌<◌, ◌||◌, ◌∙◌, ◌∷◌, ◌≡◌, ◌≤◌,
}
use mathlib.Core.Path.{subst}
use native.Mathlib.Nat.{le_refl}
use mediaman.Prelude.Dict.{insert, Dict, insert-IsDict, IsDict, lookup}
use mediaman.RateLimit.ActionSpec.{
  allows, log_of-prune_daily, prune_daily-IsDict, record_grant, log_of-insert, trim_actor-IsDict,
  log_of-trim_actor, Grants,
}
use mediaman.RateLimit.Action.{
  check, daily_prune_every, prune_daily, check_window, admit, log_of, trim_actor, one_day,
  new_limiter, ActionRateLimiter,
}
use mediaman.RateLimit.Window.{
  Ascends-append, Ascends-extend, drop_stale-eq-select, Ascends-drop_stale, is_fresh_later,
  drop_stale, in_window, in_window_later, is_fresh, Ascends,
}

-- What the limiter's state holds of the grants so far, at the instant `now`.
pub record Refines (l : ActionRateLimiter) (g : Grants) (now : ℕ) : Type 0 where
  pub burst :
      (a : String)
      → select (in_window l.window now) (log_of a l.attempts)
        ≡ select (in_window l.window now) (g a)
  pub day :
      0 < l.max_per_day
      → (a : String)
      → select (is_fresh one_day now) (log_of a l.daily) ≡ select (is_fresh one_day now) (g a)
  pub ordered : (a : String) → Ascends 0 now (log_of a l.daily)
  pub dict : IsDict l.daily

pub Refines-new :
    (max_in_window window max_per_day now : ℕ)
    → Refines (new_limiter max_in_window window max_per_day) (λ a. []) now
unfolding new_limiter lookup
Refines-new m w p now = record {
  burst = λ a. refl;
  day = λ h a. refl;
  ordered = λ a. omega arith;
  dict = tt;
}

-- Time passes: nothing is lost.
pub Refines-later :
    (l : ActionRateLimiter) (g : Grants) (now later : ℕ)
    → now ≤ later
    → Refines l g now
    → Refines l g later
Refines-later l g now later h r = record {
  burst = λ a. in_window_later l.window now later (log_of a l.attempts) (g a) h (r.burst a);
  day = λ p a. is_fresh_later one_day now later (log_of a l.daily) (g a) h (r.day p a);
  ordered = λ a. Ascends-extend 0 now later (log_of a l.daily) h (r.ordered a);
  dict = r.dict;
}

-- The stale head that is dropped does not count.
select-drop_stale :
    (now later lo hi : ℕ) (log : List ℕ)
    → Ascends lo hi log
    → select (is_fresh one_day now) (drop_stale one_day now log) ≡ select (is_fresh one_day now) log
select-drop_stale now later lo hi log a =
    ap (select (is_fresh one_day now)) (drop_stale-eq-select one_day now lo hi log a)
    ∙ select-select_of_imp (is_fresh one_day now) (is_fresh one_day now) log (λ t p. p)

Refines-trim :
    (l : ActionRateLimiter) (g : Grants) (now : ℕ) (k : String)
    → Refines l g now
    → Refines (record l { daily = trim_actor now k l.daily }) g now
Refines-trim l g now k r = record {
  burst = r.burst;
  day = λ p a. ground (
    arith,
    log_of-trim_actor now k a l.daily,
    r.day p a,
    select-drop_stale now now 0 now (log_of a l.daily) (r.ordered a),
  );
  ordered = λ a. ground (
    arith,
    log_of-trim_actor now k a l.daily,
    r.ordered a,
    Ascends-drop_stale one_day now 0 now (log_of a l.daily) (r.ordered a),
  );
  dict = trim_actor-IsDict now k l.daily r.dict;
}

select_self :
    (w now : ℕ) (log : List ℕ)
    → select (in_window w now) (select (in_window w now) log) ≡ select (in_window w now) log
select_self w now log = select-select_of_imp (in_window w now) (in_window w now) log (λ t p. p)

-- One more grant at the end of both logs.
window_append :
    (w now : ℕ) (xs ys : List ℕ)
    → select (in_window w now) xs ≡ select (in_window w now) ys
    → select (in_window w now) (select (in_window w now) xs ++ now ∷ [])
      ≡ select (in_window w now) (ys ++ now ∷ [])
window_append w now xs ys e =
    select-append (in_window w now) (select (in_window w now) xs) (now ∷ [])
    ∙ ap (λ l. l ++ select (in_window w now) (now ∷ [])) (select_self w now xs ∙ e)
    ∙ sym (select-append (in_window w now) ys (now ∷ []))

day_append :
    (now : ℕ) (xs ys : List ℕ)
    → select (is_fresh one_day now) xs ≡ select (is_fresh one_day now) ys
    → select (is_fresh one_day now) (xs ++ now ∷ [])
      ≡ select (is_fresh one_day now) (ys ++ now ∷ [])
day_append now xs ys e =
    select-append (is_fresh one_day now) xs (now ∷ [])
    ∙ ap (λ l. l ++ select (is_fresh one_day now) (now ∷ [])) e
    ∙ sym (select-append (is_fresh one_day now) ys (now ∷ []))

module _ (l : ActionRateLimiter) (g : Grants) (now : ℕ) (k : String) (r : Refines l g now) where
  logged : Dict String (List ℕ)
  logged = insert k (log_of k l.daily ++ now ∷ []) l.daily

  logged-Ascends : (a : String) → Ascends 0 now (log_of a logged)
  unfolding logged
  logged-Ascends a = ground (
    arith,
    log_of-insert k a (log_of k l.daily ++ now ∷ []) l.daily,
    r.ordered a,
    Ascends-append 0 now now (log_of k l.daily) (le_refl now) (r.ordered k),
  )

  logged-IsDict : IsDict logged
  unfolding logged
  logged-IsDict = insert-IsDict k (log_of k l.daily ++ now ∷ []) l.daily r.dict

  logged_day :
      0 < l.max_per_day
      → (a : String)
      → select (is_fresh one_day now) (log_of a logged)
        ≡ select (is_fresh one_day now) (record_grant g now k a)
  unfolding logged
  logged_day p a = ground (
    arith,
    string_key.same_iff k a,
    log_of-insert k a (log_of k l.daily ++ now ∷ []) l.daily,
    r.day p a,
    day_append now (log_of k l.daily) (g k) (r.day p k),
  )

  logged_burst :
      (a : String)
      → select (in_window l.window now) (
          log_of a (
            insert k
              (select (in_window l.window now) (log_of k l.attempts) ++ now ∷ [])
              l.attempts))
        ≡ select (in_window l.window now) (record_grant g now k a)
  logged_burst a = ground (
    arith,
    string_key.same_iff k a,
    log_of-insert k a (select (in_window l.window now) (log_of k l.attempts) ++ now ∷ [])
        l.attempts,
    r.burst a,
    window_append l.window now (log_of k l.attempts) (g k) (r.burst k),
  )

  pruned_day :
      0 < l.max_per_day
      → (a : String)
      → select (is_fresh one_day now) (log_of a (prune_daily now logged))
        ≡ select (is_fresh one_day now) (record_grant g now k a)
  pruned_day p a =
      ap (select (is_fresh one_day now)) (log_of-prune_daily now a logged logged-IsDict)
      ∙ select-drop_stale now now 0 now (log_of a logged) (logged-Ascends a)
      ∙ logged_day p a

  pruned-Ascends : (a : String) → Ascends 0 now (log_of a (prune_daily now logged))
  pruned-Ascends a =
      subst (Ascends 0 now) (sym (log_of-prune_daily now a logged logged-IsDict))
        (Ascends-drop_stale one_day now 0 now (log_of a logged) (logged-Ascends a))

  admit-Refines :
      Refines
        (admit l now k (select (in_window l.window now) (log_of k l.attempts)))
        (record_grant g now k)
        now
  unfolding admit logged
  admit-Refines = elim (Bool-cases (ltb 0 l.max_per_day)) [
    | inl capped ↦ elim (Bool-cases (leb daily_prune_every (l.calls_since_prune + 1))) [
      | inl due ↦
          rw (capped, due, admit)
            (record {
              burst = logged_burst;
              day = pruned_day;
              ordered = pruned-Ascends;
              dict = prune_daily-IsDict now logged logged-IsDict;
            })
      | inr early ↦
          rw (capped, early, admit)
            (record {
              burst = logged_burst;
              day = logged_day;
              ordered = logged-Ascends;
              dict = logged-IsDict;
            })
    ]
    | inr uncapped ↦
        rw (uncapped, admit)
          (record {
            burst = logged_burst;
            day = λ p. absurd (ground arith);
            ordered = r.ordered;
            dict = r.dict;
          })
  ]

  -- The burst window answers as the ideal limiter does, and keeps the relation.
  window_ok : Bool
  window_ok = ltb (length (select (in_window l.window now) (g k))) l.max_in_window

  window_full :
      leb l.max_in_window (length (select (in_window l.window now) (log_of k l.attempts)))
      ≡ not window_ok
  unfolding window_ok
  window_full = ground (arith, ap length (r.burst k))

  -- A refused call stores the pruned window, which says the same.
  pruned_burst :
      (a : String)
      → select
          (in_window l.window now)
          (log_of a (insert k (select (in_window l.window now) (log_of k l.attempts)) l.attempts))
        ≡ select (in_window l.window now) (g a)
  pruned_burst a = ground (
    arith,
    string_key.same_iff k a,
    log_of-insert k a (select (in_window l.window now) (log_of k l.attempts)) l.attempts,
    r.burst a,
    select_self l.window now (log_of k l.attempts),
  )

  check_window-Refines :
      ((check_window l now k).1 ≡ window_ok)
      × Refines (check_window l now k).0 (if window_ok then record_grant g now k else g) now
  unfolding check_window
  check_window-Refines = elim (Bool-cases window_ok) [
    | inl room ↦ rw (window_full, room) (refl, admit-Refines)
    | inr full ↦
        rw (window_full, full)
          (refl, record { burst = pruned_burst; day = r.day; ordered = r.ordered; dict = r.dict })
  ]

-- `check` as a whole.
module _ (l : ActionRateLimiter) (g : Grants) (now : ℕ) (k : String) (r : Refines l g now) where
  trimmed_count :
      0 < l.max_per_day
      → length (log_of k (trim_actor now k l.daily)) ≡ length (select (is_fresh one_day now) (g k))
  trimmed_count p = ap length (
      ground (
        arith,
        string_key.same_iff k k,
        log_of-trim_actor now k k l.daily,
        r.day p k,
        drop_stale-eq-select one_day now 0 now (log_of k l.daily) (r.ordered k),
      ))

  allows_room :
      leb l.max_per_day 0 || ltb (length (select (is_fresh one_day now) (g k))) l.max_per_day ≡ true
      → allows l g now k ≡ window_ok l g now k r
  unfolding allows window_ok
  allows_room h = rw h

  -- A call answers as the ideal limiter does on all the grants so far, and the new state stands
  -- for those grants with this one, if it was granted.
  pub check-Refines :
      ((check l now k).1 ≡ allows l g now k)
      × Refines (check l now k).0 (if allows l g now k then record_grant g now k else g) now
  unfolding check
  check-Refines = elim (Bool-cases (ltb 0 l.max_per_day)) [
    | inl capped ↦
        elim (Bool-cases (leb l.max_per_day (length (log_of k (trim_actor now k l.daily))))) [
          | inl spent ↦
              let refused : allows l g now k ≡ false =
                unfold allows in ground (arith, trimmed_count (ltb→lt 0 l.max_per_day capped)) in
              rw (capped, spent, refused) (refl, Refines-trim l g now k r)
          | inr left ↦
              let room : allows l g now k ≡ window_ok l g now k r =
                allows_room (ground (arith, trimmed_count (ltb→lt 0 l.max_per_day capped))) in
              rw (capped, left, room)
                (unfold window_ok in
                  check_window-Refines (record l { daily = trim_actor now k l.daily }) g now k
                    (Refines-trim l g now k r))
        ]
    | inr uncapped ↦ rw (uncapped, allows_room (ground arith)) (check_window-Refines l g now k r)
  ]
