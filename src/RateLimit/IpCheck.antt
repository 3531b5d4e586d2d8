-- ===== src/RateLimit/IpCheck.antt =====
-- `RateLimiter.check`: its bounds over any calls, and how far one network's calls reach.

use mediaman.Prelude.{
  ==_self, Bool, Bool-cases, List, String, [], ap, arith, false, if◌then◌else◌, inl, inr, is_some,
  leb, length, length-append, length-select-le, ltb, none, not, refl, select, select-append,
  select-select_of_imp, string_key, true, ℕ, ◌&&◌, ◌++◌, ◌+◌, ◌<◌, ◌==◌, ◌∙◌, ◌∷◌, ◌≡◌, ◌≢◌, ◌≤◌,
  ◌⊎◌,
}
use mediaman.Prelude.Dict.{
  insert, length-insert_of_some, length-move_to_end-le, lookup, Dict, IsDict, pop_first,
}
use mediaman.RateLimit.IpBounds.{
  select-drop_stale_buckets, log_of-store, store-IsDict, make_room-IsDict, length-store_room,
  maybe_prune-IsBounded, IsBounded,
}
use mediaman.RateLimit.Window.{in_window}
use mediaman.RateLimit.Action.{log_of}
use mediaman.RateLimit.Ip.{
  prune_every, maybe_prune, check_key, store, max_buckets, RateLimiter, evict_oldest, make_room,
}

log_of-pop_first :
    (j : String) (d : Dict String (List ℕ))
    → IsDict d
    → (log_of j (pop_first d) ≡ log_of j d) ⊎ (log_of j (pop_first d) ≡ [])
unfolding lookup pop_first
log_of-pop_first j [] h = inl refl
log_of-pop_first j ((k, log) ∷ d) h = ground (arith, string_key.same_iff k j, h.0)

-- Evicting a bucket forgets its instants, and adds none to another.
length-make_room-le :
    (p : ℕ → Bool) (k j : String) (d : Dict String (List ℕ)) (n : ℕ)
    → IsDict d
    → length (select p (log_of j d)) ≤ n
    → length (select p (log_of j (make_room k d))) ≤ n
unfolding make_room evict_oldest select
length-make_room-le p k j d n h b =
    elim (Bool-cases (not (is_some (lookup k d)) && leb max_buckets (length d))) [
      | inl full ↦ elim (log_of-pop_first j d h) [
        | inl same ↦ rw (full, same) b
        | inr gone ↦ rw (full, gone) (omega arith)
      ]
      | inr free ↦ rw free b
    ]

length-select-snoc :
    (p : ℕ → Bool) (log : List ℕ) (t : ℕ)
    → length (select p (log ++ t ∷ [])) ≤ length (select p log) + 1
length-select-snoc p log t = omega (
  arith,
  ap length (select-append p log (t ∷ [])),
  length-append (select p log) (select p (t ∷ [])),
  length-select-le p (t ∷ []),
)

module _ (l : RateLimiter) (now : ℕ) (k : String) (b : IsBounded l now) where
  recent : List ℕ
  recent = select (in_window l.window now) (log_of k l.attempts)

  recent-recent : select (in_window l.window now) recent ≡ recent
  unfolding recent
  recent-recent =
      select-select_of_imp (in_window l.window now) (in_window l.window now) (log_of k l.attempts)
        (λ t p. p)

  full_of_recent : leb l.max_attempts (length recent) ≡ true → lookup k l.attempts ≢ none
  unfolding recent select
  full_of_recent full missing = ground (arith, b.positive)

  length-recent-le : length recent ≤ l.max_attempts
  unfolding recent
  length-recent-le = b.capped k

  refused-IsBounded :
      leb l.max_attempts (length recent) ≡ true
      → IsBounded (record l { attempts = store k recent l.attempts }) now
  unfolding store
  refused-IsBounded full = record {
    positive = b.positive;
    dict = unfold store in store-IsDict k recent l.attempts b.dict;
    buckets = omega (
      arith,
      b.buckets,
      length-move_to_end-le k (insert k recent l.attempts),
      length-insert_of_some k recent l.attempts (full_of_recent full),
    );
    capped = λ j. ground (
      arith,
      log_of-store k j recent l.attempts,
      ap length recent-recent,
      b.capped j,
      length-recent-le,
    );
  }

  granted-IsBounded :
      leb l.max_attempts (length recent) ≡ false
      → IsBounded
          (record l { attempts = store k (recent ++ now ∷ []) (make_room k l.attempts) })
          now
  granted-IsBounded room = record {
    positive = b.positive;
    dict =
        store-IsDict k (recent ++ now ∷ []) (make_room k l.attempts)
          (make_room-IsDict k l.attempts b.dict);
    buckets = length-store_room k (recent ++ now ∷ []) l.attempts b.buckets;
    capped = λ j. ground (
      arith,
      log_of-store k j (recent ++ now ∷ []) (make_room k l.attempts),
      ap length recent-recent,
      length-select-snoc (in_window l.window now) recent now,
      length-make_room-le (in_window l.window now) k j l.attempts l.max_attempts b.dict
          (b.capped j),
    );
  }

  -- Every call keeps the number of buckets within the cap and each bucket's window within the
  -- allowed number of attempts.
  pub check_key-IsBounded : IsBounded (check_key l now k).0 now
  unfolding check_key
  check_key-IsBounded = elim (Bool-cases (leb l.max_attempts (length recent))) [
    | inl full ↦
        unfold recent in
        rw full (
          maybe_prune-IsBounded (record l { attempts = store k recent l.attempts }) now
            (refused-IsBounded full))
    | inr room ↦
        unfold recent in
        rw room (
          maybe_prune-IsBounded
            (record l { attempts = store k (recent ++ now ∷ []) (make_room k l.attempts) }) now
            (granted-IsBounded room))
  ]

-- The periodic sweep shows in no window.
maybe_prune_window :
    (m : RateLimiter) (now : ℕ) (j : String)
    → IsDict m.attempts
    → select (in_window m.window now) (log_of j (maybe_prune m now).attempts)
      ≡ select (in_window m.window now) (log_of j m.attempts)
unfolding maybe_prune
maybe_prune_window m now j d = elim (Bool-cases (ltb (m.calls_since_prune + 1) prune_every)) [
  | inl early ↦ rw (early, maybe_prune)
  | inr due ↦ rw (due, maybe_prune) (select-drop_stale_buckets m.window now j m.attempts d)
]

-- The window of `j` after a call of `k`, by the outcome of the call.
module _ (l : RateLimiter) (now : ℕ) (k j : String) (b : IsBounded l now) where
  refused_window :
      leb l.max_attempts (length (recent l now k b)) ≡ true
      → (select (in_window l.window now) (log_of j (check_key l now k).0.attempts)
          ≡ select
              (in_window l.window now)
              (if k == j then recent l now k b else log_of j l.attempts))
        × ((check_key l now k).1 ≡ false)
  unfolding check_key recent
  refused_window full = rw full (
    maybe_prune_window (record l { attempts = store k (recent l now k b) l.attempts }) now j
          (store-IsDict k (recent l now k b) l.attempts b.dict)
        ∙ ap (select (in_window l.window now)) (log_of-store k j (recent l now k b) l.attempts),
    refl,
  )

  granted_window :
      leb l.max_attempts (length (recent l now k b)) ≡ false
      → (select (in_window l.window now) (log_of j (check_key l now k).0.attempts)
          ≡ select
              (in_window l.window now)
              (if k == j then recent l now k b ++ now ∷ [] else log_of j (make_room k l.attempts)))
        × ((check_key l now k).1 ≡ true)
  unfolding check_key recent
  granted_window room = rw room (
    maybe_prune_window
          (record l { attempts = store k (recent l now k b ++ now ∷ []) (make_room k l.attempts) })
          now j
          (store-IsDict k (recent l now k b ++ now ∷ []) (make_room k l.attempts)
            (make_room-IsDict k l.attempts b.dict))
        ∙ ap (select (in_window l.window now))
            (log_of-store k j (recent l now k b ++ now ∷ []) (make_room k l.attempts)),
    refl,
  )

-- Nothing is evicted for a known key, or below the cap.
make_room_same :
    (k : String) (d : Dict String (List ℕ))
    → (lookup k d ≢ none) ⊎ (length d < max_buckets)
    → make_room k d ≡ d
unfolding make_room
make_room_same k d stays = ground arith

-- One network's calls leave another's window alone, unless they evict its bucket, for which the
-- caller must be new and the buckets at their cap.
pub check_key_others :
    (l : RateLimiter) (now : ℕ) (k j : String)
    → IsBounded l now
    → (k == j) ≡ false
    → (lookup k l.attempts ≢ none) ⊎ (length l.attempts < max_buckets)
    → select (in_window l.window now) (log_of j (check_key l now k).0.attempts)
      ≡ select (in_window l.window now) (log_of j l.attempts)
check_key_others l now k j b other stays =
    elim (Bool-cases (leb l.max_attempts (length (recent l now k b)))) [
      | inl full ↦ (refused_window l now k j b full).0 ∙ rw other
      | inr room ↦
          (granted_window l now k j b room).0 ∙ rw (other, make_room_same k l.attempts stays)
    ]

select_now : (w now : ℕ) → 0 < w → select (in_window w now) (now ∷ []) ≡ now ∷ []
unfolding select
select_now w now h = ground arith

recent_plus_now :
    (l : RateLimiter) (now : ℕ) (k : String) (b : IsBounded l now)
    → 0 < l.window
    → length (select (in_window l.window now) (recent l now k b ++ now ∷ []))
      ≡ length (select (in_window l.window now) (log_of k l.attempts)) + 1
unfolding recent
recent_plus_now l now k b w = omega (
  arith,
  ap length (select-append (in_window l.window now) (recent l now k b) (now ∷ [])),
  length-append (select (in_window l.window now) (recent l now k b))
      (select (in_window l.window now) (now ∷ [])),
  ap length (select_now l.window now w),
  ap length (recent-recent l now k b),
)

-- A granted call adds its instant to the window of its own network; a refused one finds the
-- window full and leaves it so.
pub check_key_self :
    (l : RateLimiter) (now : ℕ) (k : String)
    → IsBounded l now
    → 0 < l.window
    → length (select (in_window l.window now) (log_of k (check_key l now k).0.attempts)) ≡ (
        if (check_key l now k).1
        then length (select (in_window l.window now) (log_of k l.attempts)) + 1
        else l.max_attempts)
check_key_self l now k b w = elim (Bool-cases (leb l.max_attempts (length (recent l now k b)))) [
  | inl full ↦
      let (window, refused) = refused_window l now k k b full in
      rw (refused, window, ==_self k)
        (ground (arith, ap length (recent-recent l now k b), length-recent-le l now k b))
  | inr room ↦
      let (window, granted) = granted_window l now k k b room in
      rw (granted, window, ==_self k) (recent_plus_now l now k b w)
]
