-- ===== src/Http/RetryLaws.antt =====
-- When the retry loop stops, and how it ends.

use mediaman.Prelude.{
  Bool, Bool-cases, arith, contains, false, if◌then◌else◌, inl, inr, ltb, nat_key, not, refl, suc,
  sym, true, zero, ℕ, ◌&&◌, ◌+◌, ◌-◌, ◌||◌, ◌∙◌, ◌≡◌, ◌≤◌,
}
use mathlib.Core.Path.{subst}
use native.Mathlib.Numerals.{unary_clauses}
use mediaman.Crypto.Kinds.{ascii}
use mediaman.Http.Retry.{
  fresh_loop, dispatch_loop, dispatch_from, sleep_then, next_state, snippet, reaches, retryable,
  answered, unreadable, Calls, Delay, nan_delay, delay_of, Attempt, transport_error,
  other_exception, RetryPolicy, status_delay, LoopState, Ending, raises_typed, raises_other,
  transport_text, Run, is_5xx, finalise_response, handle_retryable_status, take_attempt,
}

-- An answer's part in the streak of responses with a status 5xx.
abbrev pub streak_with : Attempt → ℕ → ℕ
streak_with (answered r) n = if is_5xx r.status_code then n + 1 else 0
streak_with (unreadable r) n = 0
streak_with transport_error n = 0
streak_with other_exception n = 0

-- How many of the answers up to the `i`-th, in a row, are responses with a status 5xx.
unfoldable pub streak : (ℕ → Attempt) → ℕ → ℕ
streak server zero = streak_with (server zero) 0
streak server (suc i) = streak_with (server (suc i)) (streak server i)

abbrev pub is_nan : Delay → Bool
is_nan nan_delay = true
is_nan (delay_of d) = false

-- A failure that may pass: a transport error, or a retryable status.
abbrev pub is_transient : RetryPolicy → Attempt → Bool
is_transient p transport_error = true
is_transient p other_exception = false
is_transient p (unreadable r) = false
is_transient p (answered r) = contains (retryable p.statuses) r.status_code

-- Something other than success, a lasting failure or the budget ends the loop: the streak, or a
-- `Retry-After` that cannot be slept.
abbrev pub is_cut : Calls → RetryPolicy → ℕ → ℕ → Attempt → Bool
is_cut c p i n transport_error = false
is_cut c p i n other_exception = false
is_cut c p i n (unreadable r) = false
is_cut c p i n (answered r) = reaches p.abort_after n || is_nan (status_delay c p i r)

-- The `i`-th answer is the last one asked for.
abbrev pub stops : Calls → RetryPolicy → (ℕ → Attempt) → ℕ → Bool
stops c p server i =
    not (is_transient p (server i) && ltb (i + 1) p.attempts)
    || is_cut c p i (streak server i) (server i)

-- How a call ends on its last answer.
abbrev pub verdict : RetryPolicy → ℕ → ℕ → Attempt → Ending
verdict p i n transport_error = raises_typed 0 transport_text
verdict p i n other_exception = raises_other
verdict p i n (unreadable r) = raises_typed r.status_code (ascii "unreadable body")
verdict p i n (answered r) =
    if contains (retryable p.statuses) r.status_code && ltb (i + 1) p.attempts
    then (if reaches p.abort_after n
        then raises_typed r.status_code (snippet r.content)
        else raises_other)
    else finalise_response r

-- The first index from `i` on at which `q` holds, among `n`.
unfoldable pub first_from : (ℕ → Bool) → ℕ → ℕ → ℕ
first_from q zero i = i
first_from q (suc n) i = let later = first_from q n (i + 1) in if q i then i else later

-- The streak that the loop has counted before the `i`-th answer.
abbrev before : (ℕ → Attempt) → ℕ → ℕ
before server zero = 0
before server (suc i) = streak server i

before_next : (server : ℕ → Attempt) (i : ℕ) → before server (i + 1) ≡ streak server i
before_next server i = simp unary_clauses refl

streak-before :
    (server : ℕ → Attempt) (i : ℕ) → streak server i ≡ streak_with (server i) (before server i)
unfolding streak
streak-before server zero = refl
streak-before server (suc i) = refl

slept :
    (d : Delay) (rest : Run)
    → ((sleep_then d rest).ending ≡ (if is_nan d then raises_other else rest.ending))
      × ((sleep_then d rest).dispatches ≡ (if is_nan d then 1 else rest.dispatches + 1))
slept nan_delay rest = (refl, refl)
slept (delay_of d) rest = (refl, refl)

-- One round: the loop stops here with the verdict, or goes on.
round :
    (c : Calls) (p : RetryPolicy) (i : ℕ) (st : LoopState) (rest : Run) (a : Attempt) (n : ℕ)
    → n ≡ streak_with a st.consecutive_5xx
    → let r = take_attempt c p i st rest a in
      let stopped = not (is_transient p a && ltb (i + 1) p.attempts) || is_cut c p i n a in
      (r.ending ≡ (if stopped then verdict p i n a else rest.ending))
      × (r.dispatches ≡ (if stopped then 1 else rest.dispatches + 1))
unfolding take_attempt handle_retryable_status
round c p i st rest transport_error n h = ground arith
round c p i st rest other_exception n h = ground arith
round c p i st rest (unreadable r) n h = ground arith
round c p i st rest (answered r) n h = ground (arith, h, slept (status_delay c p i r) rest)

first_from_next :
    (q : ℕ → Bool) (n i : ℕ) → first_from q (suc n) i ≡ (if q i then i else first_from q n (i + 1))
unfolding first_from
first_from_next q n i = refl

next_streak :
    (p : RetryPolicy) (st : LoopState) (a : Attempt)
    → is_transient p a ≡ true
    → (next_state st a).consecutive_5xx ≡ streak_with a st.consecutive_5xx
next_streak p st transport_error t = refl
next_streak p st other_exception t = cc
next_streak p st (unreadable r) t = cc
next_streak p st (answered r) t = refl

-- The run ends on the `k`-th answer, after `n` more dispatches than `i`.
abbrev EndsOn : RetryPolicy → (ℕ → Attempt) → ℕ → ℕ → Run → Type 0
EndsOn p server i k run =
    (run.ending ≡ verdict p k (streak server k) (server k)) × (run.dispatches + i ≡ k + 1)

first_here : (q : ℕ → Bool) (n i : ℕ) → q i ≡ true → first_from q (suc n) i ≡ i
first_here q n i h = rw (first_from_next q n i, h) refl

first_later :
    (q : ℕ → Bool) (n i : ℕ) → q i ≡ false → first_from q (suc n) i ≡ first_from q n (i + 1)
first_later q n i h = rw (first_from_next q n i, h) refl

-- A round that stops the loop is the last.
stopping-EndsOn :
    (c : Calls) (p : RetryPolicy) (server : ℕ → Attempt) (i : ℕ) (st : LoopState) (rest : Run)
    → st.consecutive_5xx ≡ before server i
    → stops c p server i ≡ true
    → EndsOn p server i i (take_attempt c p i st rest (server i))
stopping-EndsOn c p server i st rest counted ends =
    let now =
      round c p i st rest (server i) (streak server i) (rw counted (streak-before server i)) in
    let once : (take_attempt c p i st rest (server i)).dispatches ≡ 1 = now.1 ∙ rw ends refl in
    (now.0 ∙ rw ends refl, omega (arith, once))

going-EndsOn :
    (c : Calls) (p : RetryPolicy) (server : ℕ → Attempt) (i k : ℕ) (st : LoopState) (rest : Run)
    → st.consecutive_5xx ≡ before server i
    → stops c p server i ≡ false
    → EndsOn p server (i + 1) k rest
    → EndsOn p server i k (take_attempt c p i st rest (server i))
going-EndsOn c p server i k st rest counted on later =
    let now =
      round c p i st rest (server i) (streak server i) (rw counted (streak-before server i)) in
    let more : (take_attempt c p i st rest (server i)).dispatches ≡ rest.dispatches + 1 =
      now.1 ∙ rw on refl in
    (now.0 ∙ rw on later.0, omega (arith, more, later.1))

dispatch_from-EndsOn :
    (c : Calls) (p : RetryPolicy) (server : ℕ → Attempt) (rounds i : ℕ) (st : LoopState)
    → i + suc rounds ≡ p.attempts
    → st.consecutive_5xx ≡ before server i
    → EndsOn p server i
        (first_from (stops c p server) (suc rounds) i)
        (dispatch_from c p server (suc rounds) i st)
unfolding dispatch_from
dispatch_from-EndsOn c p server zero i st budget counted =
    let ends : stops c p server i ≡ true = ground (arith, budget) in
    rw (first_here (stops c p server) 0 i ends) (stopping-EndsOn c p server i st _ counted ends)
dispatch_from-EndsOn c p server (suc rounds) i st budget counted =
    elim (Bool-cases (stops c p server i)) [
      | inl ends ↦
          rw (first_here (stops c p server) (suc rounds) i ends)
            (stopping-EndsOn c p server i st _ counted ends)
      | inr on ↦
          let count : (next_state st (server i)).consecutive_5xx ≡ before server (i + 1) =
            next_streak p st (server i) (ground (arith, on))
            ∙ (rw counted (sym (streak-before server i)) ∙ sym (before_next server i)) in
          rw (first_later (stops c p server) (suc rounds) i on) (
            going-EndsOn c p server i _ st _ counted on (
              dispatch_from-EndsOn c p server rounds (i + 1) (next_state st (server i))
                (omega (arith, budget)) count))
    ]

-- With a budget of one attempt at least, the loop dispatches up to the first answer, of those in the
-- budget, that is a success, a lasting failure, the last one, the end of a streak of responses 5xx
-- as long as the policy bears, or has a `Retry-After` of NaN on a failure to be retried, and it ends
-- as that answer says: with the response if its status is 2xx, with an untyped exception if the
-- answer was one or has that `Retry-After`, and otherwise with the typed error of its status.
pub dispatch_loop-first :
    (c : Calls) (p : RetryPolicy) (server : ℕ → Attempt)
    → 1 ≤ p.attempts
    → let run = dispatch_loop c p server in
      let k = first_from (stops c p server) p.attempts 0 in
      (run.ending ≡ verdict p k (streak server k) (server k)) × (run.dispatches ≡ k + 1)
unfolding dispatch_loop
dispatch_loop-first c p server h =
    let n = p.attempts - 1 in
    let budget : suc n ≡ p.attempts = omega (arith, h) in
    let ran =
      subst
        (λ r.
          EndsOn p server 0 (first_from (stops c p server) r 0)
            (dispatch_from c p server r 0 fresh_loop))
        budget (dispatch_from-EndsOn c p server n 0 fresh_loop (omega (arith, budget)) refl) in
    let enough : ltb p.attempts 1 ≡ false = ground (arith, h) in
    simp enough (ran.0, omega (arith, ran.1))
