-- ===== src/RateLimit/IpBounds.antt =====
-- What `RateLimiter.check` keeps: a bounded number of buckets, and a bounded number of instants
-- in each bucket's window.

use mediaman.Prelude.{
  Bool, Bool-cases, List, String, [], arith, if◌then◌else◌, inl, inr, leb→le, length, ltb, max,
  none, refl, select, string_key, true, ℕ, ◌+◌, ◌-◌, ◌<◌, ◌==◌, ◌∷◌, ◌≡◌, ◌≤◌,
}
use mathlib.Core.List.{foldl}
use mediaman.Prelude.Dict.{
  length-insert-le, length-insert_of_some, length-move_to_end-le, insert, lookup, Dict,
  lookup-insert, IsDict, insert-IsDict, pop_first, lookup-move_to_end, move_to_end-IsDict,
}
use mediaman.RateLimit.Window.{in_window}
use mediaman.RateLimit.Action.{log_of}
use mediaman.RateLimit.Ip.{
  prune_every, maybe_prune, store, max_buckets, RateLimiter, is_stale, drop_stale_buckets,
  evict_oldest, make_room,
}

pub record IsBounded (l : RateLimiter) (now : ℕ) : Type 0 where
  pub positive : 0 < l.max_attempts
  pub dict : IsDict l.attempts
  pub buckets : length l.attempts ≤ max_buckets
  pub capped :
      (key : String)
      → length (select (in_window l.window now) (log_of key l.attempts)) ≤ l.max_attempts

pub log_of-store :
    (k j : String) (times : List ℕ) (d : Dict String (List ℕ))
    → log_of j (store k times d) ≡ (if k == j then times else log_of j d)
unfolding store
log_of-store k j times d =
    ground (arith, lookup-move_to_end k j (insert k times d), lookup-insert k j times d)

pub store-IsDict :
    (k : String) (times : List ℕ) (d : Dict String (List ℕ)) → IsDict d → IsDict (store k times d)
unfolding store
store-IsDict k times d h = move_to_end-IsDict k (insert k times d) (insert-IsDict k times d h)

pop_first-IsDict : (d : Dict String (List ℕ)) → IsDict d → IsDict (pop_first d)
unfolding pop_first
pop_first-IsDict [] h = h
pop_first-IsDict (x ∷ d) h = h.1

pub make_room-IsDict : (k : String) (d : Dict String (List ℕ)) → IsDict d → IsDict (make_room k d)
unfolding make_room evict_oldest
make_room-IsDict k d h = ground (arith, pop_first-IsDict d h)

length-pop_first : (d : Dict String (List ℕ)) → length (pop_first d) ≡ length d - 1
unfolding pop_first
length-pop_first [] = omega arith
length-pop_first (x ∷ d) = omega arith

-- A new bucket never brings the number over the cap.
pub length-store_room :
    (k : String) (times : List ℕ) (d : Dict String (List ℕ))
    → length d ≤ max_buckets
    → length (store k times (make_room k d)) ≤ max_buckets
unfolding store make_room evict_oldest
length-store_room k times d h = ground (
  arith,
  length-move_to_end-le k (insert k times d),
  length-move_to_end-le k (insert k times (pop_first d)),
  length-insert-le k times d,
  length-insert-le k times (pop_first d),
  length-insert_of_some k times d,
  length-pop_first d,
)

select_nil : (p : ℕ → Bool) → select p [] ≡ []
unfolding select
select_nil p = refl

lookup-drop_stale_none :
    (w now : ℕ) (j : String) (d : Dict String (List ℕ))
    → lookup j d ≡ none
    → lookup j (drop_stale_buckets w now d) ≡ none
unfolding lookup drop_stale_buckets
lookup-drop_stale_none w now j [] h = refl
lookup-drop_stale_none w now j ((k, log) ∷ d) h = ground (arith, lookup-drop_stale_none w now j d)

drop_stale-IsDict :
    (w now : ℕ) (d : Dict String (List ℕ)) → IsDict d → IsDict (drop_stale_buckets w now d)
unfolding drop_stale_buckets
drop_stale-IsDict w now [] h = h
drop_stale-IsDict w now ((k, log) ∷ d) h =
    ground (arith, drop_stale-IsDict w now d h.1, lookup-drop_stale_none w now k d h.0)

length-drop_stale-le :
    (w now : ℕ) (d : Dict String (List ℕ)) → length (drop_stale_buckets w now d) ≤ length d
unfolding drop_stale_buckets
length-drop_stale-le w now [] = omega arith
length-drop_stale-le w now ((k, log) ∷ d) = ground (arith, length-drop_stale-le w now d)

foldl-max-le : (m w now : ℕ) (log : List ℕ) → foldl max m log + w ≤ now → m + w ≤ now
foldl-max-le m w now [] h = h
foldl-max-le m w now (t ∷ log) h = omega (arith, foldl-max-le (max m t) w now log h)

select_stale :
    (m w now : ℕ) (log : List ℕ) → foldl max m log + w ≤ now → select (in_window w now) log ≡ []
unfolding select
select_stale m w now [] h = refl
select_stale m w now (t ∷ log) h =
    ground (arith, select_stale (max m t) w now log h, foldl-max-le (max m t) w now log h)

-- A stale bucket has no instant in the window.
is_stale-select :
    (w now : ℕ) (log : List ℕ) → is_stale w now log ≡ true → select (in_window w now) log ≡ []
unfolding is_stale
is_stale-select w now [] h = unfold select in refl
is_stale-select w now (t ∷ log) h =
    unfold select in
    ground (arith, select_stale t w now log (leb→le _ _ h), foldl-max-le t w now log (leb→le _ _ h))

-- Pruning changes nothing that a window shows.
pub select-drop_stale_buckets :
    (w now : ℕ) (j : String) (d : Dict String (List ℕ))
    → IsDict d
    → select (in_window w now) (log_of j (drop_stale_buckets w now d))
      ≡ select (in_window w now) (log_of j d)
unfolding lookup drop_stale_buckets
select-drop_stale_buckets w now j [] h = refl
select-drop_stale_buckets w now j ((k, log) ∷ d) h = ground (
  arith,
  string_key.same_iff k j,
  select-drop_stale_buckets w now j d h.1,
  h.0,
  lookup-drop_stale_none w now j d,
  is_stale-select w now log,
  select_nil (in_window w now),
)

pub maybe_prune-IsBounded :
    (l : RateLimiter) (now : ℕ) → IsBounded l now → IsBounded (maybe_prune l now) now
unfolding maybe_prune
maybe_prune-IsBounded l now b = elim (Bool-cases (ltb (l.calls_since_prune + 1) prune_every)) [
  | inl early ↦
      rw (early, maybe_prune)
        (record { positive = b.positive; dict = b.dict; buckets = b.buckets; capped = b.capped })
  | inr due ↦
      rw (due, maybe_prune)
        (record {
          positive = b.positive;
          dict = drop_stale-IsDict l.window now l.attempts b.dict;
          buckets = omega (arith, b.buckets, length-drop_stale-le l.window now l.attempts);
          capped = λ key.
              rw (select-drop_stale_buckets l.window now key l.attempts b.dict) (b.capped key);
        })
]
