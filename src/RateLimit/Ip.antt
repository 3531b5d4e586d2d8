-- ===== src/RateLimit/Ip.antt =====
-- `RateLimiter` of src/mediaman/services/rate_limit/limiters.py: buckets of one network each, in
-- an `OrderedDict` from the least to the most recently used.

use mediaman.Prelude.{
  Bool, List, Option, String, [], false, if◌then◌else◌, is_some, leb, length, ltb, max, none, not,
  select, some, string_key, true, ℕ, ◌&&◌, ◌++◌, ◌+◌, ◌∷◌,
}
use mathlib.Core.List.{foldl}
use mediaman.Prelude.Dict.{lookup, insert, Dict, move_to_end, pop_first}
use mediaman.RateLimit.Window.{in_window}
use mediaman.RateLimit.Action.{log_of}

-- `_MAX_BUCKETS`
abbrev pub max_buckets : ℕ
max_buckets = 10000

-- `_PRUNE_EVERY`
abbrev pub prune_every : ℕ
prune_every = 256

pub data IpFamily : Type 0 where
  ipv4 ipv6 : IpFamily

-- What the limiter takes from Python's `ipaddress`: the family of an address, `none` where
-- `ip_address` raises, and the text of `ip_network(...).network_address`.
pub record IpAddress : Type 0 where
  pub ip_address : String → Option IpFamily
  pub network_address : String → IpFamily → String
  pub with_prefix : String → IpFamily → String

-- `_bucket_key`
unfoldable pub bucket_key : IpAddress → String → String
bucket_key lib ip = elim (lib.ip_address ip) [
  | none ↦ ip
  | some family ↦ lib.with_prefix (lib.network_address ip family) family
]

pub record RateLimiter : Type 0 where
  pub max_attempts : ℕ
  pub window : ℕ
  pub attempts : Dict String (List ℕ)
  pub calls_since_prune : ℕ

-- `now - max(times) >= window`, or no times at all
unfoldable pub is_stale : ℕ → ℕ → List ℕ → Bool
is_stale window now [] = true
is_stale window now (t ∷ times) = leb (foldl max t times + window) now

-- Dropping the stale keys one after the other.
unfoldable pub drop_stale_buckets : ℕ → ℕ → Dict String (List ℕ) → Dict String (List ℕ)
drop_stale_buckets window now [] = []
drop_stale_buckets window now ((key, times) ∷ d) =
    if is_stale window now times
    then drop_stale_buckets window now d
    else (key, times) ∷ drop_stale_buckets window now d

-- `_maybe_prune`
unfoldable pub maybe_prune : RateLimiter → ℕ → RateLimiter
maybe_prune l now =
    if ltb (l.calls_since_prune + 1) prune_every
    then record l { calls_since_prune = l.calls_since_prune + 1 }
    else record l { attempts = drop_stale_buckets l.window now l.attempts; calls_since_prune = 0 }

-- `_evict_oldest`
unfoldable pub evict_oldest : Dict String (List ℕ) → Dict String (List ℕ)
evict_oldest d = pop_first d

-- Storing a bucket makes it the most recently used one.
unfoldable pub store : String → List ℕ → Dict String (List ℕ) → Dict String (List ℕ)
store key times d = move_to_end key (insert key times d)

-- Room for a new key: the cap is inclusive.
unfoldable pub make_room : String → Dict String (List ℕ) → Dict String (List ℕ)
make_room key d =
    if not (is_some (lookup key d)) && leb max_buckets (length d) then evict_oldest d else d

-- `check`, on the bucket's key.
unfoldable pub check_key : RateLimiter → ℕ → String → RateLimiter × Bool
check_key l now key =
    let recent = select (in_window l.window now) (log_of key l.attempts) in
    if leb l.max_attempts (length recent)
    then (maybe_prune (record l { attempts = store key recent l.attempts }) now, false)
    else (
      maybe_prune
          (record l { attempts = store key (recent ++ now ∷ []) (make_room key l.attempts) }) now,
      true,
    )

unfoldable pub check_ip : IpAddress → RateLimiter → ℕ → String → RateLimiter × Bool
check_ip lib l now ip = check_key l now (bucket_key lib ip)
