-- ===== src/Http/Retry.antt =====
-- src/mediaman/services/infra/http/retry.py: the retry loop of an outbound call. A delay is in
-- microseconds, and so is an instant. The body and the headers are texts of bytes.

use mediaman.Prelude.{
  Bool, List, Option, [], contains, false, if◌then◌else◌, is_empty, leb, ltb, min, nat_key, none,
  some, suc, take, true, zero, ℕ, ◌&&◌, ◌*◌, ◌+◌, ◌-◌, ◌==◌, ◌^◌, ◌∷◌,
}
use mediaman.Crypto.Kinds.{ascii}
use mediaman.Core.Time.{strip, Text}

-- What `float(raw)` makes of a header that is a number.
pub data Number : Type 0 where
  not_numeric below_zero infinite : Number
  of_micros : ℕ → Number

-- What the program calls: `float`, `none` where it raises `ValueError`,
-- `email.utils.parsedate_to_datetime`, `none` where it raises, and `random.uniform(0, n)`.
pub record Calls : Type 0 where
  pub float : Text → Option Number
  pub parsedate : Text → Option ℕ
  pub uniform : ℕ → ℕ

abbrev pub one_second : ℕ
one_second = 1000000

abbrev pub retry_after_max : ℕ
retry_after_max = 60 * one_second

-- A delay that the loop sleeps for; `time.sleep` of a NaN raises `ValueError`.
pub data Delay : Type 0 where
  nan_delay : Delay
  delay_of : ℕ → Delay

-- `min(seconds, _RETRY_AFTER_MAX_SECONDS)`, which is NaN for a NaN, as no comparison with it holds.
unfoldable pub cap_number : Number → Delay
cap_number not_numeric = nan_delay
cap_number below_zero = delay_of 0
cap_number infinite = delay_of retry_after_max
cap_number (of_micros n) = delay_of (min n retry_after_max)

abbrev pub until_date : ℕ → Option ℕ → Option Delay
until_date now none = none
until_date now (some target) = some (delay_of (min (target - now) retry_after_max))

abbrev pub number_or_date : Calls → Text → ℕ → Option Number → Option Delay
number_or_date c raw now none = until_date now (c.parsedate raw)
number_or_date c raw now (some n) = some (cap_number n)

-- `_retry_after_seconds`
unfoldable pub retry_after_seconds : Calls → Option Text → ℕ → Option Delay
retry_after_seconds c none now = none
retry_after_seconds c (some value) now =
    let raw = strip value in
    let parsed = number_or_date c raw now (c.float raw) in if is_empty raw then none else parsed

-- A response: its status, body and `Retry-After`, and the instant at which it came.
pub record Response : Type 0 where
  pub status_code : ℕ
  pub content : Text
  pub retry_after : Option Text
  pub arrived : ℕ

-- What one attempt comes to: a transport error that is retried, another exception, a response whose
-- body breaks the cap or the type asked for, or a response that is read.
pub data Attempt : Type 0 where
  transport_error : Attempt
  other_exception : Attempt
  unreadable : Response → Attempt
  answered : Response → Attempt

pub data Jitter : Type 0 where
  fixed_jitter full_jitter : Jitter

-- The arguments of `dispatch_loop`.
pub record RetryPolicy : Type 0 where
  pub attempts : ℕ
  pub jitter : Jitter
  pub abort_after : Option ℕ
  pub statuses : Option (List ℕ)

abbrev pub default_statuses : List ℕ
default_statuses = 429 ∷ 502 ∷ 503 ∷ 504 ∷ []

-- `retryable_statuses or _RETRYABLE_STATUSES`
abbrev pub retryable : Option (List ℕ) → List ℕ
retryable none = default_statuses
retryable (some []) = default_statuses
retryable (some (s ∷ statuses)) = s ∷ statuses

abbrev pub retry_after_statuses : List ℕ
retry_after_statuses = 429 ∷ 503 ∷ []

-- `_compute_delay`
unfoldable pub compute_delay : Calls → Jitter → ℕ → ℕ
compute_delay c full_jitter attempt = c.uniform (2 ^ attempt * one_second)
compute_delay c fixed_jitter attempt = if attempt == 0 then 500000 else one_second

abbrev pub advised_or : ℕ → Option Delay → Delay
advised_or d none = delay_of d
advised_or d (some advised) = advised

-- The delay after a retryable status.
unfoldable pub status_delay : Calls → RetryPolicy → ℕ → Response → Delay
status_delay c p attempt r =
    let scheduled = compute_delay c p.jitter attempt in
    if contains retry_after_statuses r.status_code
    then advised_or scheduled (retry_after_seconds c r.retry_after r.arrived)
    else delay_of scheduled

-- `_LoopState`, with whether there is a `last_exc`.
pub record LoopState : Type 0 where
  pub has_exception : Bool
  pub last_status : Option ℕ
  pub last_snippet : Text
  pub consecutive_5xx : ℕ

abbrev pub fresh_loop : LoopState
fresh_loop = record {
  has_exception = false;
  last_status = none;
  last_snippet = [];
  consecutive_5xx = 0;
}

-- How a call ends: with the response, with the error of `make_error`, or with an exception of another
-- kind.
pub data Ending : Type 0 where
  returns_response : Response → Ending
  raises_typed : ℕ → Text → Ending
  raises_other : Ending

-- `_snippet`
abbrev pub snippet : Text → Text
snippet body = take 512 body

abbrev pub transport_text : Text
transport_text = ascii "transport error"

-- What a call does: how often it dispatches, its sleeps, and its end.
pub record Run : Type 0 where
  pub ending : Ending
  pub dispatches : ℕ
  pub sleeps : List ℕ

abbrev pub ends_with : Ending → Run
ends_with e = record { ending = e; dispatches = 1; sleeps = [] }

-- One more attempt and the sleep after it, before the rest.
abbrev pub after_sleep : ℕ → Run → Run
after_sleep d r = record { ending = r.ending; dispatches = r.dispatches + 1; sleeps = d ∷ r.sleeps }

abbrev pub sleep_then : Delay → Run → Run
sleep_then nan_delay rest = ends_with raises_other
sleep_then (delay_of d) rest = after_sleep d rest

abbrev pub is_success : ℕ → Bool
is_success s = leb 200 s && ltb s 300

abbrev pub is_5xx : ℕ → Bool
is_5xx s = leb 500 s && ltb s 600

-- `_finalise_response`
unfoldable pub finalise_response : Response → Ending
finalise_response r =
    if is_success r.status_code
    then returns_response r
    else raises_typed r.status_code (snippet r.content)

abbrev pub reaches : Option ℕ → ℕ → Bool
reaches none n = false
reaches (some limit) n = leb limit n

abbrev pub streak_after : LoopState → Response → ℕ
streak_after st r = if is_5xx r.status_code then st.consecutive_5xx + 1 else 0

-- The state after a transport error, and after a retryable status.
abbrev pub noted_error : LoopState → LoopState
noted_error st = record st { has_exception = true; consecutive_5xx = 0 }

abbrev pub noted_status : LoopState → Response → LoopState
noted_status st r = record st {
  last_status = some r.status_code;
  last_snippet = snippet r.content;
  consecutive_5xx = streak_after st r;
}

-- `_handle_retryable_status`, before the rest of the loop.
unfoldable pub handle_retryable_status : Calls → RetryPolicy → ℕ → Response → LoopState → Run → Run
handle_retryable_status c p attempt r st rest =
    if reaches p.abort_after (streak_after st r)
    then ends_with (raises_typed r.status_code (snippet r.content))
    else sleep_then (status_delay c p attempt r) rest

-- The code after the loop.
abbrev pub exhausted : LoopState → Option ℕ → Ending
exhausted st (some s) = raises_typed s st.last_snippet
exhausted st none =
    if st.has_exception
    then raises_other
    else raises_typed 0 (ascii "retry loop exhausted with no recorded result")

abbrev pub next_state : LoopState → Attempt → LoopState
next_state st (answered r) = noted_status st r
next_state st transport_error = noted_error st
next_state st _ = st

-- One round of the loop, before the rest of it.
unfoldable pub take_attempt : Calls → RetryPolicy → ℕ → LoopState → Run → Attempt → Run
take_attempt c p attempt st rest transport_error =
    if ltb (attempt + 1) p.attempts
    then after_sleep (compute_delay c p.jitter attempt) rest
    else ends_with (raises_typed 0 transport_text)
take_attempt c p attempt st rest other_exception = ends_with raises_other
take_attempt c p attempt st rest (unreadable r) =
    ends_with (raises_typed r.status_code (ascii "unreadable body"))
take_attempt c p attempt st rest (answered r) =
    if contains (retryable p.statuses) r.status_code && ltb (attempt + 1) p.attempts
    then handle_retryable_status c p attempt r st rest
    else ends_with (finalise_response r)

-- The loop from one attempt on, with as many rounds as are left of `range(attempts)`; the server's
-- answers by attempt.
unfoldable pub dispatch_from : Calls → RetryPolicy → (ℕ → Attempt) → ℕ → ℕ → LoopState → Run
dispatch_from c p server zero attempt st = record {
  ending = exhausted st st.last_status;
  dispatches = 0;
  sleeps = [];
}
dispatch_from c p server (suc rounds) attempt st =
    take_attempt c p attempt st
      (dispatch_from c p server rounds (attempt + 1) (next_state st (server attempt)))
      (server attempt)

-- `dispatch_loop`
unfoldable pub dispatch_loop : Calls → RetryPolicy → (ℕ → Attempt) → Run
dispatch_loop c p server =
    if ltb p.attempts 1
    then record {
      ending = raises_typed 0 (ascii "invalid attempt budget");
      dispatches = 0;
      sleeps = [];
    }
    else dispatch_from c p server p.attempts 0 fresh_loop
