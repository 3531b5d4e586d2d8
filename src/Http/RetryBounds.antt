-- ===== src/Http/RetryBounds.antt =====
-- How often the retry loop dispatches and how long it sleeps.

use mediaman.Prelude.{
  Bool-cases, List, Option, [], arith, contains, false, inl, inr, is_empty, ltb, nat_key, none,
  refl, some, suc, sym, true, zero, ℕ, ◌&&◌, ◌*◌, ◌+◌, ◌-◌, ◌∷◌, ◌≡◌, ◌≤◌,
}
use mathlib.Core.Path.{subst}
use mediaman.Core.Time.{strip, Text}
use mediaman.Http.Retry.{
  reaches, retryable, answered, infinite, unreadable, Number, not_numeric, below_zero, of_micros,
  Calls, one_second, retry_after_max, Delay, nan_delay, delay_of, cap_number, until_date,
  number_or_date, retry_after_seconds, Response, Attempt, transport_error, other_exception,
  fixed_jitter, RetryPolicy, retry_after_statuses, compute_delay, advised_or, status_delay,
  LoopState, fresh_loop, Run, sleep_then, streak_after, handle_retryable_status, next_state,
  take_attempt, dispatch_from, dispatch_loop,
}

abbrev pub total : List ℕ → ℕ
total [] = 0
total (d ∷ ds) = d + total ds

abbrev pub IsShort : Delay → Type 0
IsShort nan_delay = Unit
IsShort (delay_of d) = d ≤ retry_after_max

cap_number-IsShort : (n : Number) → IsShort (cap_number n)
unfolding cap_number
cap_number-IsShort not_numeric = tt
cap_number-IsShort below_zero = omega arith
cap_number-IsShort infinite = omega arith
cap_number-IsShort (of_micros n) = omega arith

advised_or-IsShort :
    (d : ℕ) (advised : Option Delay)
    → d ≤ retry_after_max
    → ((a : Delay) → advised ≡ some a → IsShort a)
    → IsShort (advised_or d advised)
advised_or-IsShort d none h k = h
advised_or-IsShort d (some a) h k = k a refl

-- The fixed schedule sleeps a second at most.
compute_delay-fixed : (c : Calls) (i : ℕ) → compute_delay c fixed_jitter i ≤ one_second
unfolding compute_delay
compute_delay-fixed c i = ground arith

number_or_date-IsShort :
    (c : Calls) (raw : Text) (now : ℕ) (n : Option Number) (d : ℕ)
    → d ≤ retry_after_max
    → IsShort (advised_or d (number_or_date c raw now n))
number_or_date-IsShort c raw now (some n) d h = cap_number-IsShort n
number_or_date-IsShort c raw now none d h = go (c.parsedate raw)
  where
    go : (t : Option ℕ) → IsShort (advised_or d (until_date now t))
    go none = h
    go (some t) = omega arith

retry_after-IsShort :
    (c : Calls) (value : Option Text) (now d : ℕ)
    → d ≤ retry_after_max
    → IsShort (advised_or d (retry_after_seconds c value now))
unfolding retry_after_seconds
retry_after-IsShort c none now d h = h
retry_after-IsShort c (some value) now d h = elim (Bool-cases (is_empty (strip value))) [
  | inl blank ↦ rw blank h
  | inr given ↦ rw given (number_or_date-IsShort c (strip value) now (c.float (strip value)) d h)
]

status_delay-IsShort :
    (c : Calls) (p : RetryPolicy) (i : ℕ) (r : Response)
    → compute_delay c p.jitter i ≤ retry_after_max
    → IsShort (status_delay c p i r)
unfolding status_delay
status_delay-IsShort c p i r h = elim (Bool-cases (contains retry_after_statuses r.status_code)) [
  | inl advised ↦ simp advised (retry_after-IsShort c r.retry_after r.arrived _ h)
  | inr plain ↦ simp plain h
]

-- At most `n` dispatches, with short sleeps between them only.
abbrev IsWithin : ℕ → Run → Type 0
IsWithin n run = (run.dispatches ≤ n) × (total run.sleeps + retry_after_max ≤ n * retry_after_max)

sleep_then-IsWithin :
    (d : Delay) (n : ℕ) (rest : Run)
    → IsShort d
    → IsWithin n rest
    → IsWithin (suc n) (sleep_then d rest)
sleep_then-IsWithin nan_delay n rest h k = (omega arith, omega arith)
sleep_then-IsWithin (delay_of d) n rest h k = (omega (arith, k.0), omega (arith, h, k.1))

take_attempt-IsWithin :
    (c : Calls) (p : RetryPolicy) (i n : ℕ) (st : LoopState) (rest : Run) (a : Attempt)
    → compute_delay c p.jitter i ≤ retry_after_max
    → (ltb (i + 1) p.attempts ≡ true → IsWithin n rest)
    → IsWithin (suc n) (take_attempt c p i st rest a)
unfolding take_attempt handle_retryable_status
take_attempt-IsWithin c p i n st rest other_exception h k = (omega arith, omega arith)
take_attempt-IsWithin c p i n st rest (unreadable r) h k = (omega arith, omega arith)
take_attempt-IsWithin c p i n st rest transport_error h k =
    elim (Bool-cases (ltb (i + 1) p.attempts)) [
      | inl more ↦
          simp more (sleep_then-IsWithin (delay_of (compute_delay c p.jitter i)) n rest h (k more))
      | inr over ↦ simp over (omega arith, omega arith)
    ]
take_attempt-IsWithin c p i n st rest (answered r) h k =
    elim (Bool-cases (contains (retryable p.statuses) r.status_code && ltb (i + 1) p.attempts)) [
      | inl again ↦ simp again (elim (Bool-cases (reaches p.abort_after (streak_after st r))) [
        | inl cut ↦ simp cut (omega arith, omega arith)
        | inr on ↦ simp on (
            sleep_then-IsWithin (status_delay c p i r) n rest (status_delay-IsShort c p i r h)
              (k (ground (arith, again))))
      ])
      | inr ends ↦ simp ends (omega arith, omega arith)
    ]

dispatch_from-IsWithin :
    (c : Calls) (p : RetryPolicy) (server : ℕ → Attempt) (rounds i : ℕ) (st : LoopState)
    → ((j : ℕ) → compute_delay c p.jitter j ≤ retry_after_max)
    → i + suc rounds ≡ p.attempts
    → IsWithin (suc rounds) (dispatch_from c p server (suc rounds) i st)
unfolding dispatch_from
dispatch_from-IsWithin c p server zero i st h budget =
    take_attempt-IsWithin c p i 0 st _ (server i) (h i)
      (λ more. absurd (ground (arith, more, budget)))
dispatch_from-IsWithin c p server (suc rounds) i st h budget =
    take_attempt-IsWithin c p i (suc rounds) st _ (server i) (h i) (λ more.
      dispatch_from-IsWithin c p server rounds (i + 1) (next_state st (server i)) h
        (omega (arith, budget)))

-- Under the fixed schedule and a budget of one attempt at least, a call dispatches no more often than
-- the budget says, and sleeps for no more than a minute between two attempts on average, whatever
-- the server answers and asks for in `Retry-After`.
pub dispatch_loop-IsBounded :
    (c : Calls) (p : RetryPolicy) (server : ℕ → Attempt)
    → 1 ≤ p.attempts
    → p.jitter ≡ fixed_jitter
    → let run = dispatch_loop c p server in
      (run.dispatches ≤ p.attempts) × (total run.sleeps ≤ (p.attempts - 1) * (60 * one_second))
unfolding dispatch_loop
dispatch_loop-IsBounded c p server h fixed =
    let n = p.attempts - 1 in
    let budget : suc n ≡ p.attempts = omega (arith, h) in
    let short : (j : ℕ) → compute_delay c p.jitter j ≤ retry_after_max = λ j.
      subst (λ k. compute_delay c k j ≤ retry_after_max) (sym fixed)
        (omega (arith, compute_delay-fixed c j)) in
    let ran =
      subst (λ r. IsWithin r (dispatch_from c p server r 0 fresh_loop)) budget
        (dispatch_from-IsWithin c p server n 0 fresh_loop short (omega (arith, budget))) in
    let enough : ltb p.attempts 1 ≡ false = ground (arith, h) in
    simp enough (ran.0, omega (arith, ran.1, h))
