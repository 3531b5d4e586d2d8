-- ===== src/Scanner/ScanOnce.antt =====
-- No scan gives an item a second open deletion.

use mediaman.Prelude.{
  Bool, Bool-cases, List, Option, String, [], any, ap, arith, contains, count_where, false,
  if◌then◌else◌, inl, inr, none, not, refl, some, string_key, true, ℕ, ◌&&◌, ◌++◌, ◌+◌, ◌==◌, ◌||◌,
  ◌∷◌, ◌≡◌, ◌≤◌,
}
use mathlib.Core.Path.{subst}
use mediaman.Scanner.Batches.{contains-fetch_guards}
use mediaman.Core.Time.{Text}
use mediaman.Scanner.Scan.{
  schedule, skip_guard, skip_eval, route, ScanDecision, skip_guard, skip_eval, rating_keys,
  build_guard_sets, evaluate_scan_item, apply_scan_decision, scan_item, scan_loop, scan_items,
  Progress, after_schedule,
}
use mediaman.Scanner.ScanLaws.{guards-after_schedule}
use mediaman.Scanner.Table.{Action, Db, log_audit, is_open_deletion}
use mediaman.Scanner.Protection.{has_expired_snooze, is_already_scheduled}
use mediaman.Scanner.ScanSteps.{
  is_already_scheduled-schedule_deletion, is_already_scheduled-upsert_item, is_schedule, is_wanted,
  evaluate_scan_item-upsert_item, store-after_schedule, actions-upsert_item, any-append,
}
use mediaman.Scanner.Upsert.{
  Scheduled, inserting, hashing, Fetch, ScanStore, Engine, upsert_item, is_active, violates_unique,
  next_token, scheduled_row, insert_action, schedule_deletion,
}

unfoldable pub count_open : Db → String → ℕ
count_open db m = count_where (λ a. a.media_item_id == m && is_open_deletion a) db.actions

count_where-append :
    (p : Action → Bool) (xs ys : List Action)
    → count_where p (xs ++ ys) ≡ count_where p xs + count_where p ys
unfolding count_where
count_where-append p [] ys = omega arith
count_where-append p (x ∷ xs) ys = ground (arith, count_where-append p xs ys)

count_where_none : (p : Action → Bool) (xs : List Action) → any p xs ≡ false → count_where p xs ≡ 0
unfolding count_where
count_where_none p [] h = refl
count_where_none p (x ∷ xs) h = ground (arith, h, count_where_none p xs)

count_open_none : (db : Db) (m : String) → is_already_scheduled db m ≡ false → count_open db m ≡ 0
unfolding is_already_scheduled count_open
count_open_none db m = count_where_none _ db.actions

count_open-upsert_item :
    (e : Engine) (f : Fetch) (s : ScanStore) (m : String)
    → count_open (upsert_item e f s).0.db m ≡ count_open s.db m
unfolding count_open
count_open-upsert_item e f s m =
    ap (count_where (λ a. a.media_item_id == m && is_open_deletion a)) (actions-upsert_item e f s)

violates_unique-upsert_item :
    (e : Engine) (f : Fetch) (s : ScanStore) (m : String)
    → violates_unique (upsert_item e f s).0.db m ≡ violates_unique s.db m
unfolding violates_unique
violates_unique-upsert_item e f s m =
    ap (any (λ a. a.media_item_id == m && is_active a)) (actions-upsert_item e f s)

module _ (e : Engine) (k : String) (reentry : Bool) (f : Fetch) (s : ScanStore) where
  -- The row that the INSERT adds.
  abbrev new_row : Action
  new_row =
      scheduled_row e k reentry f.at (s.last_id + 1)
        (if f.raises hashing then none else some (e.sha256_hex (next_token e k f.at s).0))

  actions-schedule_deletion : (schedule_deletion e k reentry f s).0.db.actions ≡ (
      if f.raises inserting || violates_unique s.db k
      then s.db.actions
      else s.db.actions ++ new_row ∷ [])
  unfolding schedule_deletion insert_action log_audit
  actions-schedule_deletion = ground arith

  count_open-schedule_deletion :
      (m : String)
      → count_open (schedule_deletion e k reentry f s).0.db m
        ≡ count_open s.db m
          + (if (k == m) && not (f.raises inserting) && not (violates_unique s.db k) then 1 else 0)
  unfolding count_open count_where
  count_open-schedule_deletion m = rw actions-schedule_deletion (
      ground (
        arith,
        count_where-append (λ a. a.media_item_id == m && is_open_deletion a) s.db.actions
            (new_row ∷ []),
      ))

  violates_unique-schedule_deletion :
      (m : String)
      → violates_unique (schedule_deletion e k reentry f s).0.db m
        ≡ (violates_unique s.db m || (k == m) && not (f.raises inserting))
  unfolding violates_unique
  violates_unique-schedule_deletion m = rw actions-schedule_deletion (
      ground (
        arith,
        string_key.same_iff k m,
        any-append (λ a. a.media_item_id == m && is_active a) s.db.actions (new_row ∷ []),
      ))

-- `m` has one open deletion at most, and one that no guard holds is in the unique index.
abbrev IsOnceAt : Progress → String → Bool → Type 0
IsOnceAt p m asked =
    (count_open p.scan_store.db m ≤ 1)
    × (asked ≡ true
        → is_already_scheduled p.scan_store.db m ≡ true
        → (contains p.guards.already_scheduled m || violates_unique p.scan_store.db m) ≡ true)

after_schedule-IsOnceAt :
    (k : String) (outcome : Scheduled) (q : Progress) (m : String) (asked : Bool)
    → IsOnceAt q m asked
    → IsOnceAt (after_schedule k outcome q) m asked
after_schedule-IsOnceAt k outcome q m asked h =
    rw (store-after_schedule k m outcome q)
      (h.0, λ a o. ground (arith, h.1 a o, (guards-after_schedule k outcome q m).0))

scheduled-IsOnceAt :
    (e : Engine) (k : String) (reentry : Bool) (f : Fetch) (q : Progress) (m : String)
    (asked : Bool)
    → ((k == m) ≡ true → contains q.guards.already_scheduled m ≡ false)
    → ((k == m) ≡ true → asked ≡ true)
    → IsOnceAt q m asked
    → IsOnceAt (record q { scan_store = (schedule_deletion e k reentry f q.scan_store).0 }) m asked
scheduled-IsOnceAt e k reentry f q m asked unguarded mine h = (
  rw (count_open-schedule_deletion e k reentry f q.scan_store m) (elim (Bool-cases (k == m)) [
    | inl same ↦
        let here : k ≡ m = (string_key.same_iff k m).0 same in
        rw here (elim (Bool-cases (is_already_scheduled q.scan_store.db m)) [
          | inl taken ↦ ground (arith, h.0, h.1 (mine same) taken, unguarded same)
          | inr free ↦ ground (arith, count_open_none q.scan_store.db m free)
        ])
    | inr other ↦ rw other (ground (arith, h.0))
  ]),
  λ a o. ground (
    arith,
    h.1 a,
    o,
    is_already_scheduled-schedule_deletion e k reentry f q.scan_store m,
    violates_unique-schedule_deletion e k reentry f q.scan_store m,
  ),
)

route-IsOnceAt :
    (e : Engine) (f : Fetch) (d : Option ScanDecision) (q : Progress) (m : String) (asked : Bool)
    → e.preview_only ≡ false
    → (is_schedule d ≡ true
        → (f.rating_key == m) ≡ true
        → contains q.guards.already_scheduled m ≡ false)
    → ((f.rating_key == m) ≡ true → asked ≡ true)
    → IsOnceAt q m asked
    → IsOnceAt (route e f d q) m asked
unfolding route apply_scan_decision
route-IsOnceAt e f none q m asked live free mine h = h
route-IsOnceAt e f (some skip_guard) q m asked live free mine h = h
route-IsOnceAt e f (some skip_eval) q m asked live free mine h = h
route-IsOnceAt e f (some schedule) q m asked live free mine h =
    let k = f.rating_key in
    let reentry = has_expired_snooze q.scan_store.db k in
    simp live (
      after_schedule-IsOnceAt k (schedule_deletion e k reentry f q.scan_store).1
        (record q { scan_store = (schedule_deletion e k reentry f q.scan_store).0 }) m asked
        (scheduled-IsOnceAt e k reentry f q m asked (free refl) mine h))

scan_item-IsOnceAt :
    (e : Engine) (evaluate : Fetch → ℕ → Bool) (f : Fetch) (p : Progress) (m : String)
    (asked : Bool)
    → e.preview_only ≡ false
    → ((f.rating_key == m) ≡ true → asked ≡ true)
    → IsOnceAt p m asked
    → IsOnceAt (scan_item e evaluate f p) m asked
unfolding scan_item is_wanted
scan_item-IsOnceAt e evaluate f p m asked live mine h =
    let r = evaluate_scan_item e evaluate p.guards f p.scan_store in
    let same_store = (evaluate_scan_item-upsert_item e evaluate p.guards f p.scan_store).0 in
    let decided = (evaluate_scan_item-upsert_item e evaluate p.guards f p.scan_store).1 in
    route-IsOnceAt e f r.1 _ m asked live
      (λ yes here.
        subst (λ k. contains p.guards.already_scheduled k ≡ false)
          ((string_key.same_iff f.rating_key m).0 here) (ground (arith, decided, yes)))
      mine
      (rw
        (
          same_store,
          is_already_scheduled-upsert_item e f p.scan_store m,
          count_open-upsert_item e f p.scan_store m,
          violates_unique-upsert_item e f p.scan_store m,
        )
        h)

scan_loop-IsOnceAt :
    (e : Engine) (evaluate : Fetch → ℕ → Bool) (fetched : List Fetch) (p : Progress) (m : String)
    (asked : Bool)
    → e.preview_only ≡ false
    → (contains (rating_keys fetched) m ≡ true → asked ≡ true)
    → IsOnceAt p m asked
    → IsOnceAt (scan_loop e evaluate fetched p) m asked
unfolding scan_loop
scan_loop-IsOnceAt e evaluate [] p m asked live mine h = h
scan_loop-IsOnceAt e evaluate (f ∷ fetched) p m asked live mine h =
    scan_loop-IsOnceAt e evaluate fetched (scan_item e evaluate f p) m asked live
      (λ t. mine (ground (arith, t)))
      (scan_item-IsOnceAt e evaluate f p m asked live (λ t. mine (ground (arith, t))) h)

-- A live scan of one library gives no item a second open deletion.
pub scan_items-once :
    (e : Engine) (evaluate : Fetch → ℕ → Bool) (now_iso : Text) (fetched : List Fetch)
    (p : Progress) (m : String)
    → e.preview_only ≡ false
    → count_open p.scan_store.db m ≤ 1
    → count_open (scan_items e evaluate now_iso fetched p).scan_store.db m ≤ 1
unfolding scan_items build_guard_sets
scan_items-once e evaluate now_iso fetched p m live h =
    let batch = contains-fetch_guards p.scan_store.db (rating_keys fetched) now_iso m in
    (scan_loop-IsOnceAt e evaluate fetched _ m (contains (rating_keys fetched) m) live (λ t. t)
      (h, λ a o. ground (arith, a, o, batch.1))).0
