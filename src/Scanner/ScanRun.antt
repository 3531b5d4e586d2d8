-- ===== src/Scanner/ScanRun.antt =====
-- What holds of a whole scan: its counts, previews, and open deletions.

use mediaman.Prelude.{
  Bool, Bool-cases, List, Option, Option-cases, String, [], arith, false, inl, inr, none, refl,
  some, sym, true, ℕ, ◌+◌, ◌∙◌, ◌∷◌, ◌≡◌, ◌≤◌,
}
use mediaman.Scanner.ScanOnce.{count_open, scan_items-once}
use mediaman.Scanner.DryRun.{execute-dry_run}
use mediaman.Scanner.Deletion.{World, Executor, nothing_deleted}
use mediaman.Scanner.Protection.{cleanup_expired_show_snoozes, fetch_kept_show_keys}
use mediaman.Scanner.ScanCounts.{Untouched, scan_loop-Untouched, outcomes, scan_loop-Counts}
use mediaman.Scanner.Scan.{rating_keys, build_guard_sets, Summary, Progress, scan_items}
use mediaman.Scanner.ScanLibrary.{
  after_libraries, finish_scan, see_skipped, show_keys, evaluate_season, PlexLibrary,
  cleanup_orphans_per_library, before_scan, ScanReport, run_scan, FetchedLibrary, evaluate_movie,
  scan_movie_library, scan_tv_library, LibraryType, movie_library, show_library, other_library,
  SeenByLib, scan_library, is_supported, known_type, scan_all_libraries,
}
use mediaman.Scanner.Upsert.{Fetch, ScanStore, Engine}
use mediaman.Core.Time.{Text}

abbrev IsBalanced : Summary → Type 0
IsBalanced s = s.scanned ≡ outcomes s

scan_items-IsBalanced :
    (e : Engine) (evaluate : Fetch → ℕ → Bool) (now_iso : Text) (fetched : List Fetch)
    (p : Progress)
    → IsBalanced p.summary
    → IsBalanced (scan_items e evaluate now_iso fetched p).summary
unfolding scan_items
scan_items-IsBalanced e evaluate now_iso fetched p h =
    let q : Progress = record p {
      guards = build_guard_sets p.scan_store.db (rating_keys fetched) now_iso;
    } in
    let counted = scan_loop-Counts e evaluate fetched q in
    counted.0 ∙ omega (arith, h) ∙ sym counted.1

scan_library-IsBalanced :
    (e : Engine) (t : LibraryType) (l : PlexLibrary) (fetched : FetchedLibrary) (p : Progress)
    → IsBalanced p.summary
    → IsBalanced (scan_library e t l fetched p).summary
unfolding scan_library scan_movie_library scan_tv_library
scan_library-IsBalanced e movie_library l fetched p h =
    scan_items-IsBalanced e (evaluate_movie e) l.guards_now fetched.found _ h
scan_library-IsBalanced e show_library l fetched p h =
    scan_items-IsBalanced e _ l.guards_now fetched.found _ h
scan_library-IsBalanced e other_library l fetched p h = h

-- What every library's scan keeps, the scan of all libraries keeps; it speaks of the store and the
-- counts alone.
scan_all_libraries-keeps :
    (P : ScanStore → Summary → Type 0) (e : Engine)
    → ((t : LibraryType) (l : PlexLibrary) (fetched : FetchedLibrary) (p : Progress)
        → P p.scan_store p.summary
        → let p' = scan_library e t l fetched p in P p'.scan_store p'.summary)
    → (libs : List PlexLibrary) (p : Progress) (seen_by : SeenByLib) → P p.scan_store p.summary
    → let p' = (scan_all_libraries e libs p seen_by).0.0 in P p'.scan_store p'.summary
unfolding scan_all_libraries
scan_all_libraries-keeps P e step [] p seen_by h = h
scan_all_libraries-keeps P e step (l ∷ libs) p seen_by h =
    elim (Bool-cases (is_supported l.library_type)) [
      | inr other ↦ rw other (scan_all_libraries-keeps P e step libs p seen_by h)
      | inl known ↦ rw known (elim (Option-cases l.contents) [
        | inl failed ↦ rw failed h
        | inr (fetched, got) ↦ rw got (
            scan_all_libraries-keeps P e step libs _ _
              (step (known_type l.library_type) l fetched (record p { seen = [] }) h))
      ])
    ]

preview-scan_items :
    (e : Engine) (evaluate : Fetch → ℕ → Bool) (now_iso : Text) (fetched : List Fetch)
    (p : Progress)
    → e.preview_only ≡ true
    → Untouched p.scan_store (scan_items e evaluate now_iso fetched p).scan_store
unfolding scan_items
preview-scan_items e evaluate now_iso fetched p dry =
    scan_loop-Untouched e evaluate fetched
      (record p { guards = build_guard_sets p.scan_store.db (rating_keys fetched) now_iso }) dry

preview-scan_library :
    (e : Engine) (t : LibraryType) (l : PlexLibrary) (fetched : FetchedLibrary) (p : Progress)
    → e.preview_only ≡ true
    → Untouched p.scan_store (scan_library e t l fetched p).scan_store
unfolding scan_library scan_movie_library scan_tv_library cleanup_expired_show_snoozes
preview-scan_library e movie_library l fetched p dry =
    preview-scan_items e (evaluate_movie e) l.guards_now fetched.found
      (see_skipped fetched.skipped_keys p) dry
preview-scan_library e show_library l fetched p dry =
    let swept = (cleanup_expired_show_snoozes p.scan_store.db l.shows_now).0 in
    let p' = see_skipped fetched.skipped_keys p in
    preview-scan_items e
      (evaluate_season e (fetch_kept_show_keys swept (show_keys fetched.found) l.shows_now))
      l.guards_now fetched.found (record p' { scan_store = record p'.scan_store { db = swept } })
      dry
preview-scan_library e other_library l fetched p dry = (refl, refl, refl, refl)

scan_all_libraries-Untouched :
    (e : Engine) (libs : List PlexLibrary) (s : ScanStore)
    → e.preview_only ≡ true
    → Untouched s (scan_all_libraries e libs (before_scan s) []).0.0.scan_store
scan_all_libraries-Untouched e libs s dry =
    scan_all_libraries-keeps (λ s' counts. Untouched s s') e
      (λ t l fetched p h.
        let k = preview-scan_library e t l fetched p dry in
        (k.0 ∙ h.0, k.1 ∙ h.1, k.2 ∙ h.2, k.3 ∙ h.3))
      libs (before_scan s) [] (refl, refl, refl, refl)

scan_library-once :
    (e : Engine) (t : LibraryType) (l : PlexLibrary) (fetched : FetchedLibrary) (p : Progress)
    (m : String)
    → e.preview_only ≡ false
    → count_open p.scan_store.db m ≤ 1
    → count_open (scan_library e t l fetched p).scan_store.db m ≤ 1
unfolding scan_library scan_movie_library scan_tv_library
scan_library-once e movie_library l fetched p m live h =
    scan_items-once e (evaluate_movie e) l.guards_now fetched.found
      (see_skipped fetched.skipped_keys p) m live h
scan_library-once e show_library l fetched p m live h =
    let swept = (cleanup_expired_show_snoozes p.scan_store.db l.shows_now).0 in
    let p' = see_skipped fetched.skipped_keys p in
    scan_items-once e
      (evaluate_season e (fetch_kept_show_keys swept (show_keys fetched.found) l.shows_now))
      l.guards_now fetched.found (record p' { scan_store = record p'.scan_store { db = swept } }) m
      live (unfold cleanup_expired_show_snoozes count_open in h)
scan_library-once e other_library l fetched p m live h = h

-- Where no item has two open deletions, none has two after the live scan of all libraries, with items
-- that are fetched twice, in one library or in two, deletions under way that the unique index does
-- not see, handlings that raise, and a fetch that raises.
pub scan_all_libraries-once :
    (e : Engine) (libs : List PlexLibrary) (s : ScanStore) (m : String)
    → e.preview_only ≡ false
    → count_open s.db m ≤ 1
    → count_open (scan_all_libraries e libs (before_scan s) []).0.0.scan_store.db m ≤ 1
scan_all_libraries-once e libs s m live h =
    scan_all_libraries-keeps (λ s' counts. count_open s'.db m ≤ 1) e
      (λ t l fetched p. scan_library-once e t l fetched p m live) libs (before_scan s) [] h

-- Nothing was removed and nothing deleted.
abbrev pub IsIdle : Option ScanReport → Type 0
IsIdle none = Unit
IsIdle (some r) = (r.orphans_removed ≡ 0) × (r.of_deletions ≡ nothing_deleted)

-- Each item that was scanned was counted once: as scheduled, as skipped, or as an error.
abbrev pub AddsUp : Option ScanReport → Type 0
AddsUp none = Unit
AddsUp (some r) = r.of_items.scanned ≡ r.of_items.scheduled + r.of_items.skipped + r.of_items.errors

-- The tables and files of a preview.
abbrev pub LeavesAlone : ScanStore → World → World → Type 0
LeavesAlone s w w' = (w'.db.actions ≡ s.db.actions) × (w'.files ≡ w.files) × (w'.calls ≡ w.calls)

finish_scan-LeavesAlone :
    (is_complete : Bool) (p : Progress) (s : ScanStore) (w : World) (r : World × ScanReport)
    → p.scan_store.db.actions ≡ s.db.actions
    → LeavesAlone s w r.0
    → IsIdle (some r.1)
    → let run = finish_scan is_complete p w r in LeavesAlone s w run.0 × IsIdle run.1
unfolding finish_scan
finish_scan-LeavesAlone true p s w r h k i = (k, i)
finish_scan-LeavesAlone false p s w r h k i = ((h, refl, refl), tt)

finish_scan-AddsUp :
    (is_complete : Bool) (p : Progress) (w : World) (r : World × ScanReport)
    → AddsUp (some r.1)
    → AddsUp (finish_scan is_complete p w r).1
unfolding finish_scan
finish_scan-AddsUp true p w r h = h
finish_scan-AddsUp false p w r h = tt

module _ (e : Engine) (ex : Executor) (below_ratio : ℕ → ℕ → Bool) (pending_libs : List ℕ)
    (now_iso : Text) (libs : List PlexLibrary) (s : ScanStore) (w : World) where
  after_libraries-dry :
      (p : Progress) (seen_by : SeenByLib)
      → e.preview_only ≡ true
      → let r = after_libraries e ex below_ratio pending_libs now_iso p seen_by w in
        (r.0.db.actions ≡ p.scan_store.db.actions)
        × (r.0.files ≡ w.files)
        × (r.0.calls ≡ w.calls)
        × IsIdle (some r.1)
  unfolding after_libraries cleanup_orphans_per_library
  after_libraries-dry p seen_by dry = simp dry (
      rw
        (execute-dry_run (record ex { dry_run = true; cleanup_snoozes = false }) now_iso
          (record w { db = p.scan_store.db }) refl)
        (refl, refl, refl, (refl, refl)))

  -- A scan that only previews adds, takes and changes no row of `scheduled_actions`, touches no file
  -- and asks no arr to unmonitor anything, also where a fetch raises and ends it; where it finishes it
  -- reports that no orphan was removed and nothing was deleted.
  pub run_scan-preview :
      e.preview_only ≡ true
      → let run = run_scan e ex below_ratio pending_libs now_iso libs s w in
        LeavesAlone s w run.0 × IsIdle run.1
  unfolding run_scan
  run_scan-preview dry =
      let r = scan_all_libraries e libs (before_scan s) [] in
      let kept = (scan_all_libraries-Untouched e libs s dry).0 in
      let after = after_libraries-dry r.0.0 r.0.1 dry in
      finish_scan-LeavesAlone r.1 r.0.0 s w
        (after_libraries e ex below_ratio pending_libs now_iso r.0.0 r.0.1 w) kept
        (after.0 ∙ kept, after.1, after.2) after.3

  -- A scan reports, where it finishes, that each item that it scanned was counted once: as scheduled,
  -- as skipped, or as an error.
  pub run_scan-counts : AddsUp (run_scan e ex below_ratio pending_libs now_iso libs s w).1
  unfolding run_scan after_libraries
  run_scan-counts =
      let r = scan_all_libraries e libs (before_scan s) [] in
      finish_scan-AddsUp r.1 r.0.0 w
        (after_libraries e ex below_ratio pending_libs now_iso r.0.0 r.0.1 w)
        (scan_all_libraries-keeps (λ s' counts. IsBalanced counts) e
          (λ t l fetched p h. scan_library-IsBalanced e t l fetched p h) libs (before_scan s) []
          refl)
