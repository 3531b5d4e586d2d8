-- ===== src/RateLimit/Tests.antt =====
-- The rate limiters at concrete inputs.

use mediaman.Prelude.{
  List, String, [], arith, false, if◌then◌else◌, length, refl, select, string_key, ℕ, ◌<◌, ◌∷◌, ◌≡◌,
  ◌≤◌,
}
use mediaman.Prelude.Dict.{erase, insert, lookup}
use mediaman.RateLimit.ActionSpec.{allows, record_grant}
use mediaman.RateLimit.IpBounds.{IsBounded}
use mediaman.RateLimit.IpCheck.{check_key-IsBounded}
use mediaman.RateLimit.Window.{in_window, is_fresh, drop_stale}
use mediaman.RateLimit.ActionCaps.{serve, serve_within_caps}
use mediaman.RateLimit.ActionRun.{Refines, Refines-new, check-Refines}
use mediaman.RateLimit.Action.{
  admit, check, one_day, ActionRateLimiter, new_limiter, trim_actor, prune_daily, check_window,
}
use mediaman.RateLimit.Ip.{RateLimiter, check_key}

abbrev strict : ActionRateLimiter
strict = record {
  max_in_window = 2;
  window = 60000;
  max_per_day = 3;
  attempts = [];
  daily = [];
  calls_since_prune = 0;
}

strict-Refines : Refines strict (λ a. []) 5
strict-Refines = unfold new_limiter in Refines-new 2 60000 3 5

check-Refines_example :
    ((check strict 5 "ada").1 ≡ allows strict (λ a. []) 5 "ada")
    × Refines
        (check strict 5 "ada").0
        (if allows strict (λ a. []) 5 "ada" then record_grant (λ a. []) 5 "ada" else (λ a. []))
        5
check-Refines_example = check-Refines strict (λ a. []) 5 "ada" strict-Refines

abbrev calls : List (ℕ × String)
calls = (0, "ada") ∷ (10, "ada") ∷ (20, "bob") ∷ (30, "ada") ∷ (61000, "ada") ∷ (122000, "ada") ∷ []

-- The third call of ada is over the burst cap, and the fifth over the daily cap.
calls_granted : (serve (new_limiter 2 60000 3) (λ a. []) calls).1 "ada" ≡ 0 ∷ 10 ∷ 61000 ∷ []
unfolding serve check check_window admit trim_actor prune_daily new_limiter select lookup insert
    erase drop_stale
calls_granted = refl

serve_within_caps_example :
    (length
        (select (in_window 60000 122000) ((serve (new_limiter 2 60000 3) (λ a. []) calls).1 "ada"))
      ≤ 2)
    × (0 < 3
        → length (
            select
              (is_fresh one_day 122000)
              ((serve (new_limiter 2 60000 3) (λ a. []) calls).1 "ada"))
          ≤ 3)
serve_within_caps_example = serve_within_caps 2 60000 3 122000 calls "ada" (omega arith)

abbrev login : RateLimiter
login = record {
  max_attempts = 2;
  window = 60;
  attempts = ("10.0.0.0/24", 100 ∷ 110 ∷ []) ∷ ("10.0.1.0/24", 90 ∷ []) ∷ [];
  calls_since_prune = 255;
}

login-IsBounded : IsBounded login 120
unfolding lookup select
login-IsBounded = record {
  positive = omega arith;
  dict = (refl, (refl, tt));
  buckets = omega arith;
  capped = λ key.
      ground (arith, string_key.same_iff "10.0.0.0/24" key, string_key.same_iff "10.0.1.0/24" key);
}

login_refused : (check_key login 120 "10.0.0.0/24").1 ≡ false
unfolding check_key lookup select
login_refused = refl

check_key-IsBounded_example : IsBounded (check_key login 120 "10.0.1.0/24").0 120
check_key-IsBounded_example = check_key-IsBounded login 120 "10.0.1.0/24" login-IsBounded
