-- ===== src/Search/Backoff.antt =====
-- src/mediaman/core/backoff.py: the delay that doubles with every failure, up to a ceiling.
-- Floats are exact: a factor is counted in millionths, and so is what a factor was applied to.

use mediaman.Prelude.{
  Bool, Option, false, if◌then◌else◌, inl, inr, is_some, leb, ltb, min, nat_beq, none, not, some,
  true, ℕ, ◌&&◌, ◌*◌, ◌-◌, ◌^◌, ◌⊎◌,
}
use mediaman.Core.Time.{Text}

-- A float, as far as the checks on it ask.
pub data Float : Type 0 where
  finite : ℕ → Float
  negative infinite nan : Float

-- The exceptions: three of the constructor, two of `delay`.
pub data Error : Type 0 where
  bad_jitter bad_base bad_max max_below_base : Error
  no_seed overflow : Error

abbrev pub scale : ℕ
scale = 1000000

-- A jitter is counted in millionths.
pub record ExponentialBackoff : Type 0 where
  pub base : ℕ
  pub max_seconds : ℕ
  pub jitter : Float

-- `jitter < 0.0 or jitter >= 1.0`
unfoldable pub is_bad_jitter : Float → Bool
is_bad_jitter (finite j) = leb scale j
is_bad_jitter negative = true
is_bad_jitter infinite = true
is_bad_jitter nan = false

abbrev pub Result : Type 0 → Type 0
Result A = Error ⊎ A

unfoldable pub init_range : Float → ℕ → ℕ → Result ExponentialBackoff
init_range jitter base top =
    if ltb top base
    then inl max_below_base
    else inr (record { base = base; max_seconds = top; jitter = jitter })

unfoldable pub init_max : Float → ℕ → Float → Result ExponentialBackoff
init_max jitter base (finite top) = init_range jitter base top
init_max jitter base top = inl bad_max

unfoldable pub init_base : Float → Float → Float → Result ExponentialBackoff
init_base jitter (finite base) top = init_max jitter base top
init_base jitter base top = inl bad_base

-- `ExponentialBackoff.__init__`
unfoldable pub init : Float → Float → Float → Result ExponentialBackoff
init base top jitter = if is_bad_jitter jitter then inl bad_jitter else init_base jitter base top

-- `random.Random(n).uniform(1.0 - j, 1.0 + j)` for the number of a seed, in millionths; with a
-- jitter that is no number the result is none.
abbrev pub Uniform : Type 0
Uniform = Text → ℕ → ℕ

-- The largest power of two that is a float.
abbrev pub max_exponent : ℕ
max_exponent = 1023

-- `min(base_delay * multiplier, max)` where the first may be NaN, written `none`.
unfoldable pub with_jitter : Uniform → ExponentialBackoff → Text → ℕ → Float → Option ℕ
with_jitter uniform b seed base_delay (finite j) =
    if nat_beq j 0
    then some (base_delay * scale)
    else some (min (base_delay * uniform seed j) (b.max_seconds * scale))
with_jitter uniform b seed base_delay j = none

unfoldable pub delay_from : Uniform → ExponentialBackoff → ℕ → Option Text → Option ℕ
delay_from uniform b base_delay none = some (base_delay * scale)
delay_from uniform b base_delay (some seed) = with_jitter uniform b seed base_delay b.jitter

unfoldable pub is_positive : Float → Bool
is_positive (finite j) = ltb 0 j
is_positive negative = false
is_positive infinite = true
is_positive nan = false

-- `ExponentialBackoff.delay`; no number of attempts is below zero here, and each up to one gives the
-- base.
unfoldable pub delay : Uniform → ExponentialBackoff → ℕ → Option Text → Result (Option ℕ)
delay uniform b attempts seed =
    if is_positive b.jitter && not (is_some seed)
    then inl no_seed
    else if ltb max_exponent (attempts - 1)
    then inl overflow
    else inr (delay_from uniform b (min (b.base * 2 ^ (attempts - 1)) b.max_seconds) seed)
