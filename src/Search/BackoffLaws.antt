-- ===== src/Search/BackoffLaws.antt =====
-- The delay stays between its bounds, grows with the failures, and where it cannot.

use mediaman.Prelude.{
  Bool-cases, arith, if◌then◌else◌, inl, inr, min, nat_beq, none, some, suc, ℕ, ◌*◌, ◌+◌, ◌-◌, ◌<◌,
  ◌^◌, ◌≡◌, ◌≤◌,
}
use native.Mathlib.Nat.{mul-le-mul, pow-le-pow_right, one-le-pow}
use mediaman.Core.Time.{Text}
use mediaman.Search.Backoff.{
  overflow, nan, finite, scale, delay, init, ExponentialBackoff, is_bad_jitter, init_range,
  init_max, init_base, Uniform, max_exponent, with_jitter, delay_from, is_positive,
}

-- What `uniform` promises.
abbrev pub IsWithin : Uniform → Type 0
IsWithin uniform =
    (seed : Text) (j : ℕ) → (scale - j ≤ uniform seed j) × (uniform seed j ≤ scale + j)

pub init_finite :
    (base top j : ℕ) (b : ExponentialBackoff)
    → init (finite base) (finite top) (finite j) ≡ inr b
    → (j < scale)
      × (base ≤ top)
      × (b ≡ record { base = base; max_seconds = top; jitter = finite j })
unfolding init init_base init_max init_range is_bad_jitter
init_finite base top j b h = ground (arith, h)

-- The delay without its jitter.
abbrev pub curve : ℕ → ℕ → ℕ → ℕ
curve base top attempts = min (base * 2 ^ (attempts - 1)) top

-- The delay with it, in millionths.
unfoldable pub spread : Uniform → ℕ → ℕ → ℕ → Text → ℕ → ℕ
spread uniform base top j seed attempts =
    if nat_beq j 0
    then curve base top attempts * scale
    else min (curve base top attempts * uniform seed j) (top * scale)

pub delay-spread :
    (uniform : Uniform) (base top j attempts : ℕ) (seed : Text)
    → attempts ≤ suc max_exponent
    → delay uniform
        (record { base = base; max_seconds = top; jitter = finite j })
        attempts
        (some seed)
      ≡ inr (some (spread uniform base top j seed attempts))
unfolding delay delay_from with_jitter is_positive spread
delay-spread uniform base top j attempts seed few = elim (Bool-cases (nat_beq j 0)) [
  | inl e ↦ rw e (ground (arith, few))
  | inr e ↦ rw e (ground (arith, few))
]

curve_mono : (base top n m : ℕ) → n ≤ m → curve base top n ≤ curve base top m
curve_mono base top n m h =
    let less : n - 1 ≤ m - 1 = omega (arith, h) in
    let two : 0 < 2 = omega arith in
    let here : base ≤ base = omega arith in
    ground (arith, mul-le-mul here (pow-le-pow_right two less))

curve_least : (base top n : ℕ) → base ≤ top → base ≤ curve base top n
curve_least base top n h =
    let two : 0 < 2 = omega arith in
    let here : base ≤ base = omega arith in
    ground (arith, h, mul-le-mul here (one-le-pow (n - 1) 2 two))

module _ (uniform : Uniform) (base top j : ℕ) (seed : Text) (within : IsWithin uniform) where
  spread_mono :
      (n m : ℕ) → n ≤ m → spread uniform base top j seed n ≤ spread uniform base top j seed m
  unfolding spread
  spread_mono n m h =
      let same : scale ≤ scale = omega arith in
      let same' : uniform seed j ≤ uniform seed j = omega arith in
      let more = curve_mono base top n m h in
      ground (arith, mul-le-mul more same, mul-le-mul more same')

  pub spread_least : (n : ℕ) → base ≤ top → base * (scale - j) ≤ spread uniform base top j seed n
  unfolding spread
  spread_least n h =
      let less : scale - j ≤ scale = omega arith in
      let more = curve_least base top n h in
      ground (arith, mul-le-mul more less, mul-le-mul more (within seed j).0, mul-le-mul h less)

  pub spread_most : (n : ℕ) → spread uniform base top j seed n ≤ top * scale
  unfolding spread
  spread_most n =
      let less : curve base top n ≤ top = ground arith in
      let same : scale ≤ scale = omega arith in ground (arith, mul-le-mul less same)

  -- Where the factor stays within the jitter and the constructor accepts the settings: for up to 1024
  -- failures a delay is returned, which is at least the base less the jitter and at most the
  -- ceiling, and which more failures never shorten.
  delay-IsBounded :
      (b : ExponentialBackoff) (n m : ℕ)
      → init (finite base) (finite top) (finite j) ≡ inr b
      → n ≤ m
      → m ≤ suc max_exponent
      → (d : ℕ) × (d' : ℕ) × (delay uniform b n (some seed) ≡ inr (some d))
        × (delay uniform b m (some seed) ≡ inr (some d'))
        × (base * (scale - j) ≤ d)
        × (d ≤ d')
        × (d' ≤ top * scale)
  delay-IsBounded b n m made h few =
      let settings = init_finite base top j b made in
      rw settings.2 (
        spread uniform base top j seed n,
        spread uniform base top j seed m,
        delay-spread uniform base top j n seed (omega (arith, h, few)),
        delay-spread uniform base top j m seed few,
        spread_least n settings.1,
        spread_mono n m h,
        spread_most m,
      )

-- Where the base is at most the ceiling: the constructor accepts a jitter that is no number, and
-- then each delay with a seed, for up to 1024 failures, is no number either; beyond them, under
-- any configuration, an overflow is raised in place of the ceiling.
pub delay-nan_or_overflow :
    (uniform : Uniform) (base top attempts : ℕ) (seed : Text)
    → base ≤ top
    → (attempts ≤ suc max_exponent
        → (b : ExponentialBackoff) × (init (finite base) (finite top) nan ≡ inr b)
          × (delay uniform b attempts (some seed) ≡ inr none))
      × (suc max_exponent < attempts
          → (b : ExponentialBackoff) → delay uniform b attempts (some seed) ≡ inl overflow)
unfolding init init_base init_max init_range is_bad_jitter delay delay_from with_jitter is_positive
delay-nan_or_overflow uniform base top attempts seed h = (
  λ few. (
    record { base = base; max_seconds = top; jitter = nan },
    ground (arith, h),
    ground (arith, few),
  ),
  λ many b. ground (arith, many),
)
