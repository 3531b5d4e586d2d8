-- ===== src/RateLimit/Action.antt =====
-- `ActionRateLimiter` of src/mediaman/services/rate_limit/limiters.py. Instants of the monotonic
-- clock are counted in whole ticks, `ticks_per_second` to the second, in place of floats.
use mediaman.Prelude.{
  Bool, List, String, [], false, if◌then◌else◌, is_empty, leb, length, ltb, none, select, some,
  string_key, true, ℕ, ◌*◌, ◌++◌, ◌+◌, ◌∷◌,
}
use mediaman.Prelude.Dict.{Dict, lookup, insert, erase}
use mediaman.RateLimit.Window.{in_window, drop_stale}

abbrev pub ticks_per_second : ℕ
ticks_per_second = 1000

-- `_ONE_DAY_SECONDS`
abbrev pub one_day : ℕ
one_day = 86400 * ticks_per_second

-- `_DAILY_PRUNE_EVERY`
abbrev pub daily_prune_every : ℕ
daily_prune_every = 512

pub record ActionRateLimiter : Type 0 where
  pub max_in_window : ℕ
  pub window : ℕ
  pub max_per_day : ℕ
  pub attempts : Dict String (List ℕ)
  pub daily : Dict String (List ℕ)
  pub calls_since_prune : ℕ

-- `__init__`
unfoldable pub new_limiter : ℕ → ℕ → ℕ → ActionRateLimiter
new_limiter max_in_window window max_per_day = record {
  max_in_window = max_in_window;
  window = window;
  max_per_day = max_per_day;
  attempts = [];
  daily = [];
  calls_since_prune = 0;
}

-- `d.get(actor, [])`
abbrev pub log_of : String → Dict String (List ℕ) → List ℕ
log_of actor d = elim (lookup actor d) [ none ↦ [] | some log ↦ log ]

-- The day log of one actor loses its stale head, and goes when it is empty.
unfoldable pub trim_actor : ℕ → String → Dict String (List ℕ) → Dict String (List ℕ)
trim_actor now actor daily = elim (lookup actor daily) [
  | none ↦ daily
  | some log ↦
      let log' = drop_stale one_day now log in
      if is_empty log' then erase actor daily else insert actor log' daily
]

-- `_prune_daily`
unfoldable pub prune_daily : ℕ → Dict String (List ℕ) → Dict String (List ℕ)
prune_daily now [] = []
prune_daily now ((actor, log) ∷ daily) =
    let log' = drop_stale one_day now log in
    if is_empty log' then prune_daily now daily else (actor, log') ∷ prune_daily now daily

-- The second half of `check`: the action is logged in both dicts.
unfoldable pub admit : ActionRateLimiter → ℕ → String → List ℕ → ActionRateLimiter
admit l now actor recent =
    let attempts' = insert actor (recent ++ now ∷ []) l.attempts in
    let daily' = insert actor (log_of actor l.daily ++ now ∷ []) l.daily in
    if ltb 0 l.max_per_day
    then (if leb daily_prune_every (l.calls_since_prune + 1)
        then record l {
          attempts = attempts';
          daily = prune_daily now daily';
          calls_since_prune = 0;
        }
        else record l {
          attempts = attempts';
          daily = daily';
          calls_since_prune = l.calls_since_prune + 1;
        })
    else record l { attempts = attempts' }

-- The burst window of `check`, after the daily cap has passed.
unfoldable pub check_window : ActionRateLimiter → ℕ → String → ActionRateLimiter × Bool
check_window l now actor =
    let recent = select (in_window l.window now) (log_of actor l.attempts) in
    if leb l.max_in_window (length recent)
    then (record l { attempts = insert actor recent l.attempts }, false)
    else (admit l now actor recent, true)

unfoldable pub check : ActionRateLimiter → ℕ → String → ActionRateLimiter × Bool
check l now actor =
    if ltb 0 l.max_per_day
    then (let l' = record l { daily = trim_actor now actor l.daily } in
        if leb l.max_per_day (length (log_of actor l'.daily))
        then (l', false)
        else check_window l' now actor)
    else check_window l now actor

unfoldable pub reset : ActionRateLimiter → ActionRateLimiter
reset l = record l { attempts = []; daily = []; calls_since_prune = 0 }
