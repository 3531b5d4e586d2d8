-- ===== src/Http/Tests.antt =====
-- A call against a server that fails twice, and the theorems of the retry loop applied to it.

use mediaman.Prelude.{Option, [], arith, none, refl, some, suc, zero, ℕ, ◌*◌, ◌∷◌, ◌≡◌, ◌≤◌}
use mediaman.Core.Time.{strip, Text, strip_left}
use mediaman.Http.Retry.{
  answered, of_micros, Calls, one_second, cap_number, retry_after_seconds, Attempt, transport_error,
  fixed_jitter, RetryPolicy, compute_delay, status_delay, raises_typed, finalise_response,
  handle_retryable_status, take_attempt, dispatch_from, dispatch_loop,
}
use mediaman.Http.RetryLaws.{streak, first_from, dispatch_loop-first}
use mediaman.Http.RetryBounds.{total, dispatch_loop-IsBounded}

abbrev quiet_calls : Calls
quiet_calls = record {
  float = λ s. some (of_micros 3000000);
  parsedate = λ s. none;
  uniform = λ n. n;
}

-- Three attempts, and an end after two responses 5xx in a row.
abbrev three_attempts : Option ℕ → RetryPolicy
three_attempts limit = record {
  attempts = 3;
  jitter = fixed_jitter;
  abort_after = limit;
  statuses = none;
}

abbrev reply : ℕ → Option Text → Attempt
reply status advice =
    answered
      (record { status_code = status; content = status ∷ []; retry_after = advice; arrived = 0 })

-- A transport error, then 503 with advice, then 200.
abbrev recovering : ℕ → Attempt
recovering zero = transport_error
recovering (suc zero) = reply 503 (some (51 ∷ []))
recovering (suc (suc n)) = reply 200 none

-- 502 for ever.
abbrev broken : ℕ → Attempt
broken n = reply 502 none

recovering_run :
    (dispatch_loop quiet_calls (three_attempts none) recovering).sleeps ≡ 500000 ∷ 3000000 ∷ []
unfolding dispatch_loop dispatch_from take_attempt handle_retryable_status status_delay
    retry_after_seconds compute_delay cap_number finalise_response strip strip_left
recovering_run = refl

dispatch_loop-first_example :
    let run = dispatch_loop quiet_calls (three_attempts (some 2)) broken in
    (run.ending ≡ raises_typed 502 (502 ∷ [])) × (run.dispatches ≡ 2)
unfolding first_from streak status_delay
dispatch_loop-first_example =
    dispatch_loop-first quiet_calls (three_attempts (some 2)) broken (omega arith)

dispatch_loop-IsBounded_example :
    let run = dispatch_loop quiet_calls (three_attempts none) recovering in
    (run.dispatches ≤ 3) × (total run.sleeps ≤ 120 * one_second)
dispatch_loop-IsBounded_example =
    dispatch_loop-IsBounded quiet_calls (three_attempts none) recovering (omega arith) refl
