-- ===== src/Scanner/Scan.antt =====
-- src/mediaman/scanner/_scan_library.py: the scan of the items of one library.

use mediaman.Prelude.{
  Bool, List, Option, String, [], contains, if◌then◌else◌, map, none, not, some, string_key, ℕ, ◌+◌,
  ◌∷◌,
}
use mediaman.Scanner.ArrDates.{arr_date_of}
use mediaman.Scanner.Table.{Db}
use mediaman.Scanner.Protection.{
  has_expired_snooze, fetch_protected_media_ids, fetch_already_scheduled_media_ids,
}
use mediaman.Scanner.Upsert.{
  evaluating, ScanStore, Fetch, Engine, upsert_item, Scheduled, was_scheduled, was_skipped,
  has_raised, schedule_deletion,
}
use mediaman.Core.Time.{Text, parse_iso_utc}

-- `ScanDecision`
pub data ScanDecision : Type 0 where
  schedule skip_guard skip_eval : ScanDecision

-- `_GuardSets`; a set is the list of its members.
pub record GuardSets : Type 0 where
  pub protected : List String
  pub already_scheduled : List String

abbrev pub rating_keys : List Fetch → List String
rating_keys fetched = map (λ (f : Fetch). f.rating_key) fetched

-- `_build_guard_sets`
unfoldable pub build_guard_sets : Db → List String → Text → GuardSets
build_guard_sets db media_ids now_iso = record {
  protected = fetch_protected_media_ids db media_ids now_iso;
  already_scheduled = fetch_already_scheduled_media_ids db media_ids;
}

pub record Summary : Type 0 where
  pub scanned : ℕ
  pub scheduled : ℕ
  pub skipped : ℕ
  pub errors : ℕ

-- What the loop carries.
pub record Progress : Type 0 where
  pub scan_store : ScanStore
  pub guards : GuardSets
  pub summary : Summary
  pub seen : List String

unfoldable pub set_add : String → List String → List String
set_add k xs = if contains xs k then xs else k ∷ xs

-- The date that Plex gives, or the present.
abbrev pub ensure_tz : Option ℕ → ℕ → ℕ
ensure_tz none now = now
ensure_tz (some t) now = t

abbrev pub first_date : Option ℕ → Option ℕ → ℕ → ℕ
first_date none plex now = ensure_tz plex now
first_date (some t) plex now = t

-- `_resolve_added_at`; an empty date does not parse.
unfoldable pub resolve_added_at : Engine → Fetch → ℕ
resolve_added_at e f =
    first_date (parse_iso_utc e.lib (arr_date_of e.arr_dates f.path)) f.plex_added_at f.at

-- `_evaluate_scan_item`, on whether the evaluator answers "schedule_deletion"; `none` where the
-- handling raises.
unfoldable pub evaluate_scan_item :
    Engine → (Fetch → ℕ → Bool) → GuardSets → Fetch → ScanStore → ScanStore × Option ScanDecision
evaluate_scan_item e evaluate guards f s =
    let (s', upserted) = upsert_item e f s in
    let decision =
      (if not upserted
        then none
        else if contains guards.protected f.rating_key
        then some skip_guard
        else if contains guards.already_scheduled f.rating_key
        then some skip_guard
        else if f.raises evaluating
        then none
        else if evaluate f (resolve_added_at e f)
        then some schedule
        else some skip_eval) in
    (s', decision)

abbrev pub count_error : Progress → Progress
count_error p = record p { summary = record p.summary { errors = p.summary.errors + 1 } }

abbrev pub count_skipped : Progress → Progress
count_skipped p = record p { summary = record p.summary { skipped = p.summary.skipped + 1 } }

abbrev pub count_scheduled : Progress → Progress
count_scheduled p = record p { summary = record p.summary { scheduled = p.summary.scheduled + 1 } }

abbrev pub guard_too : String → Progress → Progress
guard_too m p = record p {
  guards = record p.guards { already_scheduled = set_add m p.guards.already_scheduled };
}

unfoldable pub after_schedule : String → Scheduled → Progress → Progress
after_schedule m has_raised p = count_error p
after_schedule m was_skipped p = count_scheduled (guard_too m p)
after_schedule m was_scheduled p = count_scheduled (guard_too m p)

-- `_apply_scan_decision`
unfoldable pub apply_scan_decision : Engine → Fetch → Progress → Progress
apply_scan_decision e f p =
    let (s, outcome) =
      schedule_deletion e f.rating_key (has_expired_snooze p.scan_store.db f.rating_key) f
        p.scan_store in
    if e.preview_only
    then count_scheduled p
    else after_schedule f.rating_key outcome (record p { scan_store = s })

unfoldable pub route : Engine → Fetch → Option ScanDecision → Progress → Progress
route e f none p = count_error p
route e f (some schedule) p = apply_scan_decision e f p
route e f (some skip_guard) p = count_skipped p
route e f (some skip_eval) p = count_skipped p

-- One round of the loop of `scan_items`.
unfoldable pub scan_item : Engine → (Fetch → ℕ → Bool) → Fetch → Progress → Progress
scan_item e evaluate f p =
    let (s, decision) = evaluate_scan_item e evaluate p.guards f p.scan_store in
    route e f decision (record p {
      scan_store = s;
      summary = record p.summary { scanned = p.summary.scanned + 1 };
      seen = set_add f.rating_key p.seen;
    })

unfoldable pub scan_loop : Engine → (Fetch → ℕ → Bool) → List Fetch → Progress → Progress
scan_loop e evaluate [] p = p
scan_loop e evaluate (f ∷ fetched) p = scan_loop e evaluate fetched (scan_item e evaluate f p)

-- `scan_items`
unfoldable pub scan_items : Engine → (Fetch → ℕ → Bool) → Text → List Fetch → Progress → Progress
scan_items e evaluate now_iso fetched p =
    scan_loop e evaluate fetched
      (record p { guards = build_guard_sets p.scan_store.db (rating_keys fetched) now_iso })
