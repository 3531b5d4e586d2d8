-- ===== src/Scanner/ScanLibrary.antt =====
-- src/mediaman/scanner/fetch.py, _scan_library.py and engine.py: the scan of whole libraries.

use mediaman.Prelude.{
  Bool, List, Option, String, [], contains, false, if◌then◌else◌, length, nat_key, none, not, some,
  string_key, true, ℕ, ◌+◌, ◌∷◌,
}
use mediaman.Scanner.Orphans.{remove_orphans}
use mediaman.Scanner.Scan.{rating_keys, GuardSets, Summary, Progress, set_add, scan_items}
use mediaman.Scanner.Table.{Db}
use mediaman.Scanner.Eligibility.{evaluate_item}
use mediaman.Scanner.Protection.{cleanup_expired_show_snoozes, fetch_kept_show_keys}
use mediaman.Scanner.Upsert.{Fetch, ScanStore, Engine, upsert_item}
use mediaman.Prelude.Dict.{insert, Dict}
use mediaman.Core.Time.{Text}
use mediaman.Scanner.Deletion.{execute, World, Executor, DeletionResult}

-- `FetchedLibrary`
pub record FetchedLibrary : Type 0 where
  pub found : List Fetch
  pub skipped_keys : List String

-- `_fetch_movies` and `_fetch_show_seasons`, on what Plex lists, each with whether its watch history
-- could be read.
unfoldable pub fetch_listed : List (Fetch × Bool) → FetchedLibrary
fetch_listed [] = record { found = []; skipped_keys = [] }
fetch_listed ((f, is_read) ∷ listed) =
    let rest = fetch_listed listed in
    if is_read
    then record rest { found = f ∷ rest.found }
    else record rest { skipped_keys = set_add f.rating_key rest.skipped_keys }

-- `seen_keys.update(keys)`
unfoldable pub see_all : List String → List String → List String
see_all [] seen = seen
see_all (k ∷ keys) seen = see_all keys (set_add k seen)

abbrev pub see_skipped : List String → Progress → Progress
see_skipped keys p = record p { seen = see_all keys p.seen }

-- The evaluator of `scan_movie_library`.
unfoldable pub evaluate_movie : Engine → Fetch → ℕ → Bool
evaluate_movie e f added_at =
    evaluate_item f.at added_at f.watch_history e.min_age_days e.inactivity_days

unfoldable pub scan_movie_library : Engine → Text → FetchedLibrary → Progress → Progress
scan_movie_library e now_iso fetched p =
    scan_items e (evaluate_movie e) now_iso fetched.found (see_skipped fetched.skipped_keys p)

abbrev pub add_show : Option String → List String → List String
add_show none keys = keys
add_show (some k) keys = set_add k keys

-- The keys of the shows of the seasons fetched.
unfoldable pub show_keys : List Fetch → List String
show_keys [] = []
show_keys (f ∷ fetched) = add_show f.show_key (show_keys fetched)

abbrev pub in_kept : List String → Option String → Bool
in_kept kept none = false
in_kept kept (some k) = contains kept k

-- The evaluator of `scan_tv_library`.
unfoldable pub evaluate_season : Engine → List String → Fetch → ℕ → Bool
evaluate_season e kept f added_at =
    let verdict = evaluate_movie e f added_at in if in_kept kept f.show_key then false else verdict

-- The clock is read for the shows that are kept, and again for the guards.
unfoldable pub scan_tv_library : Engine → Text → Text → FetchedLibrary → Progress → Progress
scan_tv_library e shows_now guards_now fetched p =
    let swept = (cleanup_expired_show_snoozes p.scan_store.db shows_now).0 in
    let kept = fetch_kept_show_keys swept (show_keys fetched.found) shows_now in
    let p' = see_skipped fetched.skipped_keys p in
    scan_items e (evaluate_season e kept) guards_now fetched.found
      (record p' { scan_store = record p'.scan_store { db = swept } })

pub data LibraryType : Type 0 where
  movie_library show_library other_library : LibraryType

-- A configured library: its type, where it is known, and what the fetch gives, `none` where it
-- raises.
pub record PlexLibrary : Type 0 where
  pub library_key : ℕ
  pub library_type : Option LibraryType
  pub contents : Option FetchedLibrary
  pub shows_now : Text
  pub guards_now : Text

-- `seen_by_lib[lib_id] = seen`, after the scan of the library.
abbrev pub SeenByLib : Type 0
SeenByLib = Dict ℕ (List String)

unfoldable pub scan_library :
    Engine → LibraryType → PlexLibrary → FetchedLibrary → Progress → Progress
scan_library e movie_library l fetched p = scan_movie_library e l.guards_now fetched p
scan_library e show_library l fetched p = scan_tv_library e l.shows_now l.guards_now fetched p
scan_library e other_library l fetched p = p

abbrev pub is_supported : Option LibraryType → Bool
is_supported none = false
is_supported (some other_library) = false
is_supported (some movie_library) = true
is_supported (some show_library) = true

abbrev pub known_type : Option LibraryType → LibraryType
known_type none = other_library
known_type (some t) = t

-- `_scan_all_libraries`; `false` where a fetch raises, after the commits of the libraries before.
unfoldable pub scan_all_libraries :
    Engine → List PlexLibrary → Progress → SeenByLib → (Progress × SeenByLib) × Bool
scan_all_libraries e [] p seen_by = ((p, seen_by), true)
scan_all_libraries e (l ∷ libs) p seen_by =
    if not (is_supported l.library_type)
    then scan_all_libraries e libs p seen_by
    else (elim l.contents [
      | none ↦ ((p, seen_by), false)
      | some fetched ↦
          let p' = scan_library e (known_type l.library_type) l fetched (record p { seen = [] }) in
          scan_all_libraries e libs p' (insert l.library_key p'.seen seen_by)
    ])

-- The loop of `_cleanup_orphans_per_library`: the libraries that wait, the tables, and how many rows
-- went.
unfoldable pub remove_orphans_in : (ℕ → ℕ → Bool) → SeenByLib → List ℕ → Db → ℕ → List ℕ × (Db × ℕ)
remove_orphans_in below_ratio [] pending_libs db gone = (pending_libs, (db, gone))
remove_orphans_in below_ratio ((l, seen) ∷ seen_by) pending_libs db gone =
    let (waiting, (db', n)) = remove_orphans below_ratio seen (l ∷ []) pending_libs db in
    remove_orphans_in below_ratio seen_by waiting db' (gone + n)

unfoldable pub cleanup_orphans_per_library :
    Engine → (ℕ → ℕ → Bool) → SeenByLib → List ℕ → Db → List ℕ × (Db × ℕ)
cleanup_orphans_per_library e below_ratio seen_by pending_libs db =
    if e.preview_only
    then (pending_libs, (db, 0))
    else remove_orphans_in below_ratio seen_by pending_libs db 0

abbrev pub no_guards : GuardSets
no_guards = record { protected = []; already_scheduled = [] }

abbrev pub no_counts : Summary
no_counts = record { scanned = 0; scheduled = 0; skipped = 0; errors = 0 }

abbrev pub before_scan : ScanStore → Progress
before_scan s = record { scan_store = s; guards = no_guards; summary = no_counts; seen = [] }

-- What a scan reports.
pub record ScanReport : Type 0 where
  pub of_items : Summary
  pub orphans_removed : ℕ
  pub of_deletions : DeletionResult

-- The executor that the engine builds.
abbrev pub engine_executor : Engine → Executor → Executor
engine_executor e ex = record ex { dry_run = e.preview_only; cleanup_snoozes = not e.preview_only }

-- The second half of `run_scan`, up to its followups: the orphans and the deletions. The tables of
-- the world are those of the store.
unfoldable pub after_libraries :
    Engine
    → Executor
    → (ℕ → ℕ → Bool)
    → List ℕ
    → Text
    → Progress
    → SeenByLib
    → World
    → World × ScanReport
after_libraries e ex below_ratio pending_libs now_iso p seen_by w =
    let (waiting, (db', n)) =
      cleanup_orphans_per_library e below_ratio seen_by pending_libs p.scan_store.db in
    let (w', deletions) = execute (engine_executor e ex) now_iso (record w { db = db' }) in
    (w', record { of_items = p.summary; orphans_removed = n; of_deletions = deletions })

-- A fetch that raises ends the scan.
unfoldable pub finish_scan :
    Bool → Progress → World → World × ScanReport → World × Option ScanReport
finish_scan false p w r = (record w { db = p.scan_store.db }, none)
finish_scan true p w r = (r.0, some r.1)

unfoldable pub run_scan :
    Engine
    → Executor
    → (ℕ → ℕ → Bool)
    → List ℕ
    → Text
    → List PlexLibrary
    → ScanStore
    → World
    → World × Option ScanReport
run_scan e ex below_ratio pending_libs now_iso libs s w =
    let r = scan_all_libraries e libs (before_scan s) [] in
    finish_scan r.1 r.0.0 w (after_libraries e ex below_ratio pending_libs now_iso r.0.0 r.0.1 w)

-- The upserts of one library in `_sync_phase_write`, which catch nothing.
unfoldable pub upsert_all : Engine → List Fetch → ScanStore → Option ScanStore
upsert_all e [] s = some s
upsert_all e (f ∷ fetched) s =
    let (s', upserted) = upsert_item e f s in
    let rest = upsert_all e fetched s' in if upserted then rest else none

-- What `sync_library` carries: the store, the libraries that wait for their orphans' removal, and
-- its summary.
pub record SyncState : Type 0 where
  pub synced_store : ScanStore
  pub waiting_libs : List ℕ
  pub synced : ℕ
  pub sync_errors : ℕ
  pub sync_removed : ℕ

-- The rounds of `_sync_phase_fetch` and `_sync_phase_write` for one library.
unfoldable pub sync_one :
    Engine → (ℕ → ℕ → Bool) → ℕ → FetchedLibrary → ScanStore → SyncState → SyncState
sync_one e below_ratio l fetched s' st =
    let seen = see_all fetched.skipped_keys (see_all (rating_keys fetched.found) []) in
    let (waiting, (db', n)) = remove_orphans below_ratio seen (l ∷ []) st.waiting_libs s'.db in
    record {
      synced_store = record s' { db = db' };
      waiting_libs = waiting;
      synced = st.synced + length fetched.found;
      sync_errors = st.sync_errors;
      sync_removed = st.sync_removed + n;
    }

-- `sync_library`; `none` where an upsert raises. The libraries' fetches all precede the writes, which
-- no fetch depends on.
unfoldable pub sync_library :
    Engine → (ℕ → ℕ → Bool) → List (ℕ × Option FetchedLibrary) → SyncState → Option SyncState
sync_library e below_ratio [] st = some st
sync_library e below_ratio ((l, none) ∷ libs) st =
    sync_library e below_ratio libs (record st { sync_errors = st.sync_errors + 1 })
sync_library e below_ratio ((l, some fetched) ∷ libs) st =
    elim (upsert_all e fetched.found st.synced_store) [
      | none ↦ none
      | some s' ↦ sync_library e below_ratio libs (sync_one e below_ratio l fetched s' st)
    ]
