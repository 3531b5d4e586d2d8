-- ===== src/Scanner/ScanSteps.antt =====
-- What one round of the scan does to the open deletions.

use mediaman.Prelude.{
  Bool, Bool-cases, List, Option, String, [], any, ap, arith, contains, false, if◌then◌else◌, inl,
  inr, none, not, refl, some, string_key, true, ℕ, ◌&&◌, ◌++◌, ◌+◌, ◌==◌, ◌||◌, ◌∷◌, ◌≡◌,
}
use mediaman.Scanner.Table.{Action, Db, log_audit, is_open_deletion}
use mediaman.Scanner.Protection.{is_already_scheduled, has_expired_snooze}
use mediaman.Scanner.Upsert.{
  evaluating, watching, hashing, upserting, inserting, Fetch, ScanStore, Engine, upsert_media_item,
  update_last_watched, upsert_item, Scheduled, was_scheduled, was_skipped, has_raised,
  violates_unique, next_token, scheduled_row, insert_action, schedule_deletion,
}
use mediaman.Scanner.Scan.{
  route, ScanDecision, GuardSets, Progress, set_add, resolve_added_at, evaluate_scan_item,
  after_schedule, apply_scan_decision, scan_item, schedule, skip_guard, skip_eval,
}

-- The rows of `scheduled_actions` are none of the upsert's business.
pub actions-upsert_item :
    (e : Engine) (f : Fetch) (s : ScanStore) → (upsert_item e f s).0.db.actions ≡ s.db.actions
unfolding upsert_item upsert_media_item update_last_watched
actions-upsert_item e f s = ground arith

pub upsert_item_raises :
    (e : Engine) (f : Fetch) (s : ScanStore)
    → (upsert_item e f s).1 ≡ (not (f.raises upserting) && not (f.raises watching))
unfolding upsert_item
upsert_item_raises e f s = ground arith

pub any-append :
    (p : Action → Bool) (xs ys : List Action) → any p (xs ++ ys) ≡ (any p xs || any p ys)
any-append p [] ys = refl
any-append p (x ∷ xs) ys = ground (arith, any-append p xs ys)

pub any_imp :
    (p q : Action → Bool) (xs : List Action)
    → ((a : Action) → p a ≡ true → q a ≡ true)
    → any p xs ≡ true
    → any q xs ≡ true
any_imp p q [] h t = t
any_imp p q (x ∷ xs) h t = ground (arith, h x, any_imp p q xs h)

pub is_already_scheduled-violates_unique :
    (db : Db) (m : String) → violates_unique db m ≡ true → is_already_scheduled db m ≡ true
unfolding violates_unique is_already_scheduled
is_already_scheduled-violates_unique db m =
    any_imp _ _ db.actions (λ a. ground (arith, a.delete_status))

open_append :
    (db : Db) (e : Engine) (k : String) (reentry : Bool) (now n : ℕ) (hash : Option String)
    (m : String)
    → is_already_scheduled
        (record db { actions = db.actions ++ scheduled_row e k reentry now n hash ∷ [] })
        m
      ≡ (is_already_scheduled db m || k == m)
unfolding is_already_scheduled
open_append db e k reentry now n hash m = ground (
  arith,
  any-append (λ a. a.media_item_id == m && is_open_deletion a) db.actions
      (scheduled_row e k reentry now n hash ∷ []),
)

pub is_already_scheduled-schedule_deletion :
    (e : Engine) (k : String) (reentry : Bool) (f : Fetch) (s : ScanStore) (m : String)
    → is_already_scheduled (schedule_deletion e k reentry f s).0.db m
      ≡ (is_already_scheduled s.db m || (k == m) && not (f.raises inserting))
unfolding schedule_deletion insert_action log_audit is_already_scheduled
is_already_scheduled-schedule_deletion e k reentry f s m = elim (Bool-cases (f.raises inserting)) [
  | inl failed ↦ ground (arith, failed)
  | inr fine ↦ elim (Bool-cases (violates_unique s.db k)) [
    | inl taken ↦
        ground
          (arith, fine, taken, is_already_scheduled-violates_unique s.db k, string_key.same_iff k m)
    | inr free ↦ ground (
      arith,
      fine,
      free,
      open_append s.db e k reentry f.at (s.last_id + 1)
          (if f.raises hashing then none else some (e.sha256_hex (next_token e k f.at s).0)) m,
    )
  ]
]

pub is_already_scheduled-upsert_item :
    (e : Engine) (f : Fetch) (s : ScanStore) (m : String)
    → is_already_scheduled (upsert_item e f s).0.db m ≡ is_already_scheduled s.db m
unfolding is_already_scheduled
is_already_scheduled-upsert_item e f s m =
    ap (any (λ a. a.media_item_id == m && is_open_deletion a)) (actions-upsert_item e f s)

abbrev pub is_schedule : Option ScanDecision → Bool
is_schedule (some schedule) = true
is_schedule (some skip_guard) = false
is_schedule (some skip_eval) = false
is_schedule none = false

-- The item gets as far as the INSERT, on what the evaluator says and whether a guard holds it.
unfoldable pub is_wanted : Engine → (Fetch → ℕ → Bool) → Bool → Fetch → Bool
is_wanted e evaluate guarded f =
    not (f.raises upserting)
    && not (f.raises watching)
    && not guarded
    && not (f.raises evaluating)
    && evaluate f (resolve_added_at e f)

abbrev pub guarded : GuardSets → Fetch → Bool
guarded guards f =
    contains guards.protected f.rating_key || contains guards.already_scheduled f.rating_key

pub evaluate_scan_item-upsert_item :
    (e : Engine) (evaluate : Fetch → ℕ → Bool) (guards : GuardSets) (f : Fetch) (s : ScanStore)
    → ((evaluate_scan_item e evaluate guards f s).0 ≡ (upsert_item e f s).0)
      × (is_schedule (evaluate_scan_item e evaluate guards f s).1
          ≡ is_wanted e evaluate (guarded guards f) f)
unfolding evaluate_scan_item is_wanted
evaluate_scan_item-upsert_item e evaluate guards f s = ground (arith, upsert_item_raises e f s)

pub store-after_schedule :
    (k m : String) (outcome : Scheduled) (q : Progress)
    → (after_schedule k outcome q).scan_store ≡ q.scan_store
unfolding after_schedule
store-after_schedule k m was_scheduled q = refl
store-after_schedule k m was_skipped q = refl
store-after_schedule k m has_raised q = refl

open-route :
    (e : Engine) (f : Fetch) (d : Option ScanDecision) (q : Progress) (m : String)
    → e.preview_only ≡ false
    → is_already_scheduled (route e f d q).scan_store.db m ≡ (
        is_already_scheduled q.scan_store.db m
        || (f.rating_key == m) && is_schedule d && not (f.raises inserting))
unfolding route apply_scan_decision
open-route e f none q m live = ground arith
open-route e f (some skip_guard) q m live = ground arith
open-route e f (some skip_eval) q m live = ground arith
open-route e f (some schedule) q m live =
    let r =
      schedule_deletion e f.rating_key (has_expired_snooze q.scan_store.db f.rating_key) f
        q.scan_store in
    simp
      (
        live,
        store-after_schedule f.rating_key m r.1 (record q { scan_store = r.0 }),
        is_already_scheduled-schedule_deletion e f.rating_key
            (has_expired_snooze q.scan_store.db f.rating_key) f q.scan_store m,
      )
      (ground arith)

-- One round opens a deletion for the item exactly if it is wanted, and no guard holds it.
pub open-scan_item :
    (e : Engine) (evaluate : Fetch → ℕ → Bool) (f : Fetch) (p : Progress) (m : String)
    → e.preview_only ≡ false
    → is_already_scheduled (scan_item e evaluate f p).scan_store.db m ≡ (
        is_already_scheduled p.scan_store.db m
        || (f.rating_key == m)
          && is_wanted e evaluate (guarded p.guards f) f
          && not (f.raises inserting))
unfolding scan_item
open-scan_item e evaluate f p m live =
    let r = evaluate_scan_item e evaluate p.guards f p.scan_store in
    rw
      (
        open-route e f r.1
            (record p {
              scan_store = r.0;
              summary = record p.summary { scanned = p.summary.scanned + 1 };
              seen = set_add f.rating_key p.seen;
            })
            m live,
        (evaluate_scan_item-upsert_item e evaluate p.guards f p.scan_store).0,
        (evaluate_scan_item-upsert_item e evaluate p.guards f p.scan_store).1,
        is_already_scheduled-upsert_item e f p.scan_store m,
      )
      refl
