-- ===== src/Scanner/ScanLaws.antt =====
-- Which items a scan schedules.

use mediaman.Prelude.{
  ==_self, Bool, Bool-cases, List, Option, String, [], any, ap, arith, contains, false, inl, inr,
  none, not, refl, some, string_key, true, ℕ, ◌&&◌, ◌==◌, ◌||◌, ◌∙◌, ◌∷◌, ◌≡◌,
}
use mathlib.Core.Path.{subst}
use mediaman.Scanner.Batches.{contains-fetch_guards}
use mediaman.Scanner.Protection.{is_protected, is_already_scheduled, has_expired_snooze}
use mediaman.Scanner.ScanSteps.{
  is_already_scheduled-schedule_deletion, is_already_scheduled-upsert_item, is_wanted,
  evaluate_scan_item-upsert_item, store-after_schedule, open-scan_item,
}
use mediaman.Scanner.Upsert.{
  inserting, Fetch, ScanStore, Engine, Scheduled, was_scheduled, was_skipped, has_raised,
  schedule_deletion,
}
use mediaman.Core.Time.{Text}
use mediaman.Scanner.Scan.{
  route, ScanDecision, rating_keys, build_guard_sets, Progress, set_add, evaluate_scan_item,
  after_schedule, apply_scan_decision, scan_item, scan_loop, scan_items, schedule, skip_guard,
  skip_eval,
}

pub contains-set_add :
    (k : String) (xs : List String) (m : String)
    → contains (set_add k xs) m ≡ (k == m || contains xs m)
unfolding set_add
contains-set_add k xs m = ground (arith, string_key.same_iff k m)

abbrev pub is_settled : Scheduled → Bool
is_settled has_raised = false
is_settled was_scheduled = true
is_settled was_skipped = true

pub settled_inserts :
    (e : Engine) (k : String) (reentry : Bool) (f : Fetch) (s : ScanStore)
    → is_settled (schedule_deletion e k reentry f s).1 ≡ true
    → f.raises inserting ≡ false
unfolding schedule_deletion
settled_inserts e k reentry f s = elim (Bool-cases (f.raises inserting)) [
  | inl failed ↦ λ h. absurd (ground (arith, h, failed))
  | inr fine ↦ λ h. fine
]

pub guards-after_schedule :
    (k : String) (outcome : Scheduled) (q : Progress) (m : String)
    → (contains (after_schedule k outcome q).guards.already_scheduled m
        ≡ (contains q.guards.already_scheduled m || (k == m) && is_settled outcome))
      × ((after_schedule k outcome q).guards.protected ≡ q.guards.protected)
unfolding after_schedule
guards-after_schedule k was_scheduled q m =
    ground (arith, contains-set_add k q.guards.already_scheduled m)
guards-after_schedule k was_skipped q m =
    ground (arith, contains-set_add k q.guards.already_scheduled m)
guards-after_schedule k has_raised q m = ground arith

-- A guard that holds `m` is right: `m` has an open deletion.
abbrev IsSoundAt : Progress → String → Type 0
IsSoundAt p m =
    contains p.guards.already_scheduled m ≡ true → is_already_scheduled p.scan_store.db m ≡ true

after_schedule-IsSoundAt :
    (k : String) (outcome : Scheduled) (q : Progress) (m : String)
    → IsSoundAt q m
    → (is_settled outcome ≡ true → is_already_scheduled q.scan_store.db k ≡ true)
    → IsSoundAt (after_schedule k outcome q) m
after_schedule-IsSoundAt k outcome q m h new got =
    rw (store-after_schedule k m outcome q) (elim (Bool-cases (k == m)) [
      | inl same ↦ ground (
        arith,
        got,
        h,
        new,
        same,
        string_key.same_iff k m,
        (guards-after_schedule k outcome q m).0,
      )
      | inr other ↦ ground (arith, got, h, other, (guards-after_schedule k outcome q m).0)
    ])

route-IsSoundAt :
    (e : Engine) (f : Fetch) (d : Option ScanDecision) (q : Progress) (m : String)
    → e.preview_only ≡ false
    → IsSoundAt q m
    → IsSoundAt (route e f d q) m × ((route e f d q).guards.protected ≡ q.guards.protected)
unfolding route apply_scan_decision
route-IsSoundAt e f none q m live h = (h, refl)
route-IsSoundAt e f (some skip_guard) q m live h = (h, refl)
route-IsSoundAt e f (some skip_eval) q m live h = (h, refl)
route-IsSoundAt e f (some schedule) q m live h =
    let k = f.rating_key in
    let reentry = has_expired_snooze q.scan_store.db k in
    let r = schedule_deletion e k reentry f q.scan_store in
    let q' : Progress = record q { scan_store = r.0 } in
    let grown = is_already_scheduled-schedule_deletion e k reentry f q.scan_store in
    simp live (
      after_schedule-IsSoundAt k r.1 q' m (λ got. ground (arith, h got, grown m))
          (λ ok. ground (arith, settled_inserts e k reentry f q.scan_store ok, grown k, ==_self k)),
      (guards-after_schedule k r.1 q' m).1,
    )

scan_item-IsSoundAt :
    (e : Engine) (evaluate : Fetch → ℕ → Bool) (f : Fetch) (p : Progress) (m : String)
    → e.preview_only ≡ false
    → IsSoundAt p m
    → IsSoundAt (scan_item e evaluate f p) m
      × ((scan_item e evaluate f p).guards.protected ≡ p.guards.protected)
unfolding scan_item
scan_item-IsSoundAt e evaluate f p m live h =
    let r = evaluate_scan_item e evaluate p.guards f p.scan_store in
    route-IsSoundAt e f r.1 _ m live (
      rw
        (
          (evaluate_scan_item-upsert_item e evaluate p.guards f p.scan_store).0,
          is_already_scheduled-upsert_item e f p.scan_store m,
        )
        h)

-- The item is inserted, on whether it is protected.
abbrev pub is_due_now : Engine → (Fetch → ℕ → Bool) → Bool → Fetch → Bool
is_due_now e evaluate protected f = is_wanted e evaluate protected f && not (f.raises inserting)

pub open-scan_loop :
    (e : Engine) (evaluate : Fetch → ℕ → Bool) (fetched : List Fetch) (p : Progress) (m : String)
    → e.preview_only ≡ false
    → IsSoundAt p m
    → is_already_scheduled (scan_loop e evaluate fetched p).scan_store.db m ≡ (
        is_already_scheduled p.scan_store.db m
        || any
            (λ f.
              (f.rating_key == m)
              && is_due_now e evaluate (contains p.guards.protected f.rating_key) f)
            fetched)
unfolding scan_loop is_wanted
open-scan_loop e evaluate [] p m live h = ground arith
open-scan_loop e evaluate (f ∷ fetched) p m live h =
    let p' = scan_item e evaluate f p in
    let kept = scan_item-IsSoundAt e evaluate f p m live h in
    rw
      (
        open-scan_loop e evaluate fetched p' m live kept.0,
        kept.1,
        open-scan_item e evaluate f p m live,
      )
      (elim (Bool-cases (f.rating_key == m)) [
        | inl same ↦ ground (arith, same, held same)
        | inr other ↦ ground (arith, other)
      ])
  where
    held :
        (f.rating_key == m) ≡ true
        → contains p.guards.already_scheduled f.rating_key ≡ true
        → is_already_scheduled p.scan_store.db m ≡ true
    held same got = h (
        subst (λ k. contains p.guards.already_scheduled k ≡ true)
          ((string_key.same_iff f.rating_key m).0 same) got)

any_congr :
    (p q : Fetch → Bool) (xs : List Fetch)
    → ((f : Fetch) → contains (rating_keys xs) f.rating_key ≡ true → p f ≡ q f)
    → any p xs ≡ any q xs
any_congr p q [] h = refl
any_congr p q (x ∷ xs) h =
    rw
      (
        h x (ground (arith, ==_self x.rating_key)),
        any_congr p q xs (λ f t. h f (ground (arith, t))),
      )
      refl

-- In a live scan of a library's items, with a guard for each that is read once in the beginning: an
-- item has an open deletion afterwards exactly if it had one, or one of the items fetched has its
-- key, is not protected, is judged worth deleting at the date that is resolved for it, and is
-- handled without an exception up to the INSERT.
pub scan_items-schedules :
    (e : Engine) (evaluate : Fetch → ℕ → Bool) (now_iso : Text) (fetched : List Fetch)
    (p : Progress) (m : String)
    → e.preview_only ≡ false
    → is_already_scheduled (scan_items e evaluate now_iso fetched p).scan_store.db m ≡ (
        is_already_scheduled p.scan_store.db m
        || any
            (λ f.
              (f.rating_key == m)
              && is_due_now e evaluate (is_protected p.scan_store.db now_iso f.rating_key) f)
            fetched)
unfolding scan_items
scan_items-schedules e evaluate now_iso fetched p m live =
    let g = build_guard_sets p.scan_store.db (rating_keys fetched) now_iso in
    let batch = contains-fetch_guards p.scan_store.db (rating_keys fetched) now_iso in
    open-scan_loop e evaluate fetched (record p { guards = g }) m live
      (λ held. unfold build_guard_sets in ground (arith, held, (batch m).1))
    ∙ ap (λ b. is_already_scheduled p.scan_store.db m || b)
        (any_congr
          (λ f. (f.rating_key == m) && is_due_now e evaluate (contains g.protected f.rating_key) f)
          (λ f.
            (f.rating_key == m)
            && is_due_now e evaluate (is_protected p.scan_store.db now_iso f.rating_key) f)
          fetched (λ f asked. unfold build_guard_sets in rw ((batch f.rating_key).0, asked) refl))
