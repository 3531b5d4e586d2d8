-- ===== src/Scanner/ScanCounts.antt =====
-- What a scan counts, and what a scan that only previews leaves alone.

use mediaman.Prelude.{
  Bool, Bool-cases, List, Option, String, [], arith, inl, inr, length, none, refl, some, true, ℕ,
  ◌+◌, ◌∙◌, ◌∷◌, ◌≡◌,
}
use mathlib.Core.Path.{subst}
use mediaman.Scanner.Protection.{has_expired_snooze}
use mediaman.Scanner.ScanSteps.{evaluate_scan_item-upsert_item}
use mediaman.Scanner.Upsert.{
  Fetch, ScanStore, Engine, upsert_media_item, update_last_watched, upsert_item, Scheduled,
  was_scheduled, was_skipped, has_raised, schedule_deletion,
}
use mediaman.Scanner.Scan.{
  route, ScanDecision, Summary, Progress, set_add, evaluate_scan_item, after_schedule,
  apply_scan_decision, scan_item, scan_loop, schedule, skip_guard, skip_eval,
}

abbrev pub outcomes : Summary → ℕ
outcomes s = s.scheduled + s.skipped + s.errors

-- `n` more items were scanned, and as many outcomes were counted.
abbrev pub Counts : ℕ → Summary → Summary → Type 0
Counts n s s' = (s'.scanned ≡ s.scanned + n) × (outcomes s' ≡ outcomes s + n)

after_schedule-Counts :
    (k : String) (outcome : Scheduled) (q : Progress)
    → let s' = (after_schedule k outcome q).summary in
      (s'.scanned ≡ q.summary.scanned) × (outcomes s' ≡ outcomes q.summary + 1)
unfolding after_schedule
after_schedule-Counts k was_scheduled q = (refl, omega arith)
after_schedule-Counts k was_skipped q = (refl, omega arith)
after_schedule-Counts k has_raised q = (refl, omega arith)

route-Counts :
    (e : Engine) (f : Fetch) (d : Option ScanDecision) (q : Progress)
    → let s' = (route e f d q).summary in
      (s'.scanned ≡ q.summary.scanned) × (outcomes s' ≡ outcomes q.summary + 1)
unfolding route apply_scan_decision
route-Counts e f none q = (refl, omega arith)
route-Counts e f (some skip_guard) q = (refl, omega arith)
route-Counts e f (some skip_eval) q = (refl, omega arith)
route-Counts e f (some schedule) q =
    let r =
      schedule_deletion e f.rating_key (has_expired_snooze q.scan_store.db f.rating_key) f
        q.scan_store in
    let q' : Progress = record q { scan_store = r.0 } in
    elim (Bool-cases e.preview_only) [
      | inl dry ↦ simp dry (refl, omega arith)
      | inr live ↦ simp live (after_schedule-Counts f.rating_key r.1 q')
    ]

pub scan_loop-Counts :
    (e : Engine) (evaluate : Fetch → ℕ → Bool) (fetched : List Fetch) (p : Progress)
    → Counts (length fetched) p.summary (scan_loop e evaluate fetched p).summary
unfolding scan_loop
scan_loop-Counts e evaluate [] p = (omega arith, omega arith)
scan_loop-Counts e evaluate (f ∷ fetched) p =
    let step : Counts 1 p.summary (scan_item e evaluate f p).summary =
      unfold scan_item in
      ground (
        arith,
        route-Counts e f (evaluate_scan_item e evaluate p.guards f p.scan_store).1 (record p {
          scan_store = (evaluate_scan_item e evaluate p.guards f p.scan_store).0;
          summary = record p.summary { scanned = p.summary.scanned + 1 };
          seen = set_add f.rating_key p.seen;
        }),
      ) in
    let rest = scan_loop-Counts e evaluate fetched (scan_item e evaluate f p) in
    (omega (arith, step.0, rest.0), omega (arith, step.1, rest.1))

-- The tables that a preview does not touch, from those of the store.
abbrev pub Untouched : ScanStore → ScanStore → Type 0
Untouched s s' =
    (s'.db.actions ≡ s.db.actions)
    × (s'.db.audits ≡ s.db.audits)
    × (s'.db.tokens_used ≡ s.db.tokens_used)
    × (s'.last_id ≡ s.last_id)

upsert_item-Untouched : (e : Engine) (f : Fetch) (s : ScanStore) → Untouched s (upsert_item e f s).0
unfolding upsert_item upsert_media_item update_last_watched
upsert_item-Untouched e f s = ground arith

route-Untouched :
    (e : Engine) (f : Fetch) (d : Option ScanDecision) (q : Progress)
    → e.preview_only ≡ true
    → (route e f d q).scan_store ≡ q.scan_store
unfolding route apply_scan_decision
route-Untouched e f none q dry = refl
route-Untouched e f (some skip_guard) q dry = refl
route-Untouched e f (some skip_eval) q dry = refl
route-Untouched e f (some schedule) q dry = simp dry refl

pub scan_loop-Untouched :
    (e : Engine) (evaluate : Fetch → ℕ → Bool) (fetched : List Fetch) (p : Progress)
    → e.preview_only ≡ true
    → Untouched p.scan_store (scan_loop e evaluate fetched p).scan_store
unfolding scan_loop scan_item
scan_loop-Untouched e evaluate [] p dry = (refl, refl, refl, refl)
scan_loop-Untouched e evaluate (f ∷ fetched) p dry =
    let r = evaluate_scan_item e evaluate p.guards f p.scan_store in
    let q : Progress = record p {
      scan_store = r.0;
      summary = record p.summary { scanned = p.summary.scanned + 1 };
      seen = set_add f.rating_key p.seen;
    } in
    let step : (scan_item e evaluate f p).scan_store ≡ (upsert_item e f p.scan_store).0 =
      route-Untouched e f r.1 q dry
      ∙ (evaluate_scan_item-upsert_item e evaluate p.guards f p.scan_store).0 in
    let rest = scan_loop-Untouched e evaluate fetched (scan_item e evaluate f p) dry in
    let here = upsert_item-Untouched e f p.scan_store in
    let there : Untouched (upsert_item e f p.scan_store).0
        (scan_loop e evaluate fetched (scan_item e evaluate f p)).scan_store =
      subst (λ s. Untouched s (scan_loop e evaluate fetched (scan_item e evaluate f p)).scan_store)
        step rest in
    (there.0 ∙ here.0, there.1 ∙ here.1, there.2 ∙ here.2, there.3 ∙ here.3)
