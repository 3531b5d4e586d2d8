-- ===== src/Scanner/ScanWatched.antt =====
-- What a scan writes into `last_watched_at`.

use mediaman.Prelude.{
  ==_self, Bool, Bool-cases, List, Option, String, [], any, arith, false, inl, inr, nat_key, none,
  refl, some, string_key, sym, true, update_where, ℕ, ◌++◌, ◌+◌, ◌==◌, ◌∙◌, ◌∷◌, ◌≡◌,
}
use mathlib.Core.Path.{subst}
use mediaman.Scanner.Eligibility.{viewed}
use mediaman.Scanner.Table.{MediaItem, Db, log_audit}
use mediaman.Scanner.Protection.{has_expired_snooze}
use mediaman.Scanner.ScanSteps.{evaluate_scan_item-upsert_item, store-after_schedule}
use mediaman.Scanner.Upsert.{
  watching, refreshed, upserting, Fetch, ScanStore, Engine, fresh_item, upsert_media_item,
  later_text, watched_at, set_or_keep, update_last_watched, upsert_item, insert_action,
  schedule_deletion,
}
use mediaman.Prelude.Dict.{lookup, Dict, lookup-insert, lookup-erase}
use mediaman.Keep.Laws.{text_leb_trans}
use mediaman.Core.Time.{Text, Datetime, text_leb}
use mediaman.Scanner.Scan.{
  schedule, skip_guard, skip_eval, route, ScanDecision, rating_keys, build_guard_sets, Progress,
  set_add, evaluate_scan_item, apply_scan_decision, scan_item, scan_loop, scan_items, schedule,
  skip_guard, skip_eval,
}

unfoldable pub is_present : Db → String → Bool
is_present db m = any (λ i. i.item_id == m) db.items

-- A text that is not there precedes every text.
abbrev pub not_after : Option Text → Option Text → Bool
not_after none t = true
not_after (some s) none = false
not_after (some s) (some t) = text_leb s t

text_leb_refl : (t : Text) → text_leb t t ≡ true
unfolding text_leb
text_leb_refl [] = refl
text_leb_refl (c ∷ t) = ground (arith, text_leb_refl t, ==_self c)

not_after_refl : (t : Option Text) → not_after t t ≡ true
not_after_refl none = refl
not_after_refl (some t) = text_leb_refl t

not_after_trans :
    (r s t : Option Text) → not_after r s ≡ true → not_after s t ≡ true → not_after r t ≡ true
not_after_trans none s t h k = refl
not_after_trans (some r) none t h k = cc
not_after_trans (some r) (some s) none h k = cc
not_after_trans (some r) (some s) (some t) h k = text_leb_trans r s t h k

watched_at-not_after :
    (lib : Datetime) (ts : List ℕ) (old : Option Text)
    → not_after old (watched_at lib ts old) ≡ true
unfolding watched_at later_text
watched_at-not_after lib [] old = not_after_refl old
watched_at-not_after lib (t ∷ ts) none = refl
watched_at-not_after lib (t ∷ ts) (some o) = ground (arith, text_leb_refl o)

lookup-set_or_keep :
    (k : String) (t : Option Text) (d : Dict String Text) (m : String)
    → not_after (lookup k d) t ≡ true
    → not_after (lookup m d) (lookup m (set_or_keep k t d)) ≡ true
unfolding set_or_keep
lookup-set_or_keep k none d m h = not_after_refl (lookup m d)
lookup-set_or_keep k (some t) d m h = elim (Bool-cases (k == m)) [
  | inl same ↦
      let here : k ≡ m = (string_key.same_iff k m).0 same in
      rw (lookup-insert k m t d, same) (subst (λ j. not_after (lookup j d) (some t) ≡ true) here h)
  | inr other ↦ rw (lookup-insert k m t d, other) (not_after_refl (lookup m d))
]

present_append :
    (items : List MediaItem) (i : MediaItem) (m : String)
    → any (λ j. j.item_id == m) items ≡ true
    → any (λ j. j.item_id == m) (items ++ i ∷ []) ≡ true
present_append [] i m h = cc
present_append (j ∷ items) i m h = ground (arith, h, present_append items i m)

present-update_where :
    (items : List MediaItem) (f : Fetch) (m : String)
    → any (λ j. j.item_id == m) (update_where (λ j. j.item_id == f.rating_key) (refreshed f) items)
      ≡ any (λ j. j.item_id == m) items
unfolding update_where
present-update_where [] f m = refl
present-update_where (j ∷ items) f m = ground (arith, present-update_where items f m)

-- `m` is there still, and its `last_watched_at` is no earlier.
abbrev pub Advances : String → ScanStore → ScanStore → Type 0
Advances m s s' =
    is_present s.db m ≡ true
    → (is_present s'.db m ≡ true)
      × (not_after (lookup m s.last_watched) (lookup m s'.last_watched) ≡ true)

Advances-trans : (m : String) (r s t : ScanStore) → Advances m r s → Advances m s t → Advances m r t
Advances-trans m r s t h k there =
    let first = h there in let next = k first.0 in (next.0, not_after_trans _ _ _ first.1 next.1)

true-false : true ≡ false → ⊥
true-false h = cc

upsert_media_item-Advances :
    (e : Engine) (f : Fetch) (s : ScanStore) (m : String) → Advances m s (upsert_media_item e f s)
unfolding upsert_media_item is_present
upsert_media_item-Advances e f s m there =
    elim (Bool-cases (any (λ i. i.item_id == f.rating_key) s.db.items)) [
      | inl present ↦
          rw present
            (present-update_where s.db.items f m ∙ there, not_after_refl (lookup m s.last_watched))
      | inr new ↦ rw new (
        present_append s.db.items (fresh_item f) m there,
        elim (Bool-cases (f.rating_key == m)) [
          | inl same ↦
              let here : f.rating_key ≡ m = (string_key.same_iff f.rating_key m).0 same in
              absurd (
                true-false
                  (sym there ∙ subst (λ k. any (λ i. i.item_id == k) s.db.items ≡ false) here new))
          | inr other ↦
              rw (lookup-erase f.rating_key m s.last_watched, other)
                (not_after_refl (lookup m s.last_watched))
        ],
      )
    ]

update_last_watched-Advances :
    (e : Engine) (f : Fetch) (s : ScanStore) (m : String) → Advances m s (update_last_watched e f s)
unfolding update_last_watched is_present
update_last_watched-Advances e f s m there = (
  there,
  lookup-set_or_keep f.rating_key _ s.last_watched m
      (watched_at-not_after e.lib (viewed f.watch_history) (lookup f.rating_key s.last_watched)),
)

upsert_item-Advances :
    (e : Engine) (f : Fetch) (s : ScanStore) (m : String) → Advances m s (upsert_item e f s).0
unfolding upsert_item
upsert_item-Advances e f s m = elim (Bool-cases (f.raises upserting)) [
  | inl failed ↦ rw failed (λ there. (there, not_after_refl (lookup m s.last_watched)))
  | inr fine ↦ rw fine (elim (Bool-cases (f.raises watching)) [
    | inl stopped ↦ rw stopped (upsert_media_item-Advances e f s m)
    | inr on ↦ rw on (
        Advances-trans m s (upsert_media_item e f s)
          (update_last_watched e f (upsert_media_item e f s)) (upsert_media_item-Advances e f s m)
          (update_last_watched-Advances e f (upsert_media_item e f s) m))
  ])
]

schedule_deletion-Advances :
    (e : Engine) (k : String) (reentry : Bool) (f : Fetch) (s : ScanStore)
    → let s' = (schedule_deletion e k reentry f s).0 in
      (s'.db.items ≡ s.db.items) × (s'.last_watched ≡ s.last_watched)
unfolding schedule_deletion insert_action log_audit
schedule_deletion-Advances e k reentry f s = ground arith

route-Advances :
    (e : Engine) (f : Fetch) (d : Option ScanDecision) (q : Progress) (m : String)
    → Advances m q.scan_store (route e f d q).scan_store
unfolding route apply_scan_decision is_present
route-Advances e f none q m there = (there, not_after_refl (lookup m q.scan_store.last_watched))
route-Advances e f (some skip_guard) q m there =
    (there, not_after_refl (lookup m q.scan_store.last_watched))
route-Advances e f (some skip_eval) q m there =
    (there, not_after_refl (lookup m q.scan_store.last_watched))
route-Advances e f (some schedule) q m there = elim (Bool-cases e.preview_only) [
  | inl dry ↦ simp dry (there, not_after_refl (lookup m q.scan_store.last_watched))
  | inr live ↦
      let reentry = has_expired_snooze q.scan_store.db f.rating_key in
      let r = schedule_deletion e f.rating_key reentry f q.scan_store in
      let same = schedule_deletion-Advances e f.rating_key reentry f q.scan_store in
      simp
        (
          live,
          store-after_schedule f.rating_key m r.1 (record q { scan_store = r.0 }),
          same.0,
          same.1,
        )
        (there, not_after_refl (lookup m q.scan_store.last_watched))
]

scan_loop-Advances :
    (e : Engine) (evaluate : Fetch → ℕ → Bool) (fetched : List Fetch) (p : Progress) (m : String)
    → Advances m p.scan_store (scan_loop e evaluate fetched p).scan_store
unfolding scan_loop scan_item
scan_loop-Advances e evaluate [] p m =
    λ there. (there, not_after_refl (lookup m p.scan_store.last_watched))
scan_loop-Advances e evaluate (f ∷ fetched) p m =
    let r = evaluate_scan_item e evaluate p.guards f p.scan_store in
    let q : Progress = record p {
      scan_store = r.0;
      summary = record p.summary { scanned = p.summary.scanned + 1 };
      seen = set_add f.rating_key p.seen;
    } in
    let upserted : Advances m p.scan_store r.0 =
      rw ((evaluate_scan_item-upsert_item e evaluate p.guards f p.scan_store).0)
        (upsert_item-Advances e f p.scan_store m) in
    let routed = route-Advances e f r.1 q m in
    Advances-trans m p.scan_store (scan_item e evaluate f p).scan_store
      (scan_loop e evaluate fetched (scan_item e evaluate f p)).scan_store
      (Advances-trans m p.scan_store r.0 (scan_item e evaluate f p).scan_store upserted routed)
      (scan_loop-Advances e evaluate fetched (scan_item e evaluate f p) m)

-- An item in `media_items` is there still after a scan of a library's items, and its `last_watched_at`
-- is never set back: its text sorts no earlier than the one before, whatever watch history Plex
-- gives this time.
pub scan_items-not_after :
    (e : Engine) (evaluate : Fetch → ℕ → Bool) (now_iso : Text) (fetched : List Fetch)
    (p : Progress) (m : String)
    → is_present p.scan_store.db m ≡ true
    → let s' = (scan_items e evaluate now_iso fetched p).scan_store in
      (is_present s'.db m ≡ true)
      × (not_after (lookup m p.scan_store.last_watched) (lookup m s'.last_watched) ≡ true)
unfolding scan_items
scan_items-not_after e evaluate now_iso fetched p m =
    scan_loop-Advances e evaluate fetched
      (record p { guards = build_guard_sets p.scan_store.db (rating_keys fetched) now_iso }) m
