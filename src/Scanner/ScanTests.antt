-- ===== src/Scanner/ScanTests.antt =====
-- A scan of a small library, and the theorems of the scan applied to it.

use mediaman.Prelude.{
  Bool, List, Option, String, [], arith, count_where, false, find, none, refl, some, string_key,
  true, ℕ, ◌*◌, ◌∷◌, ◌≡◌, ◌≤◌,
}
use mediaman.Prelude.Dict.{lookup}
use mediaman.Scanner.ArrDates.{arr_date_of}
use mediaman.Scanner.ScanWatched.{is_present, not_after, scan_items-not_after}
use mediaman.Scanner.Deletion.{removed, World, Executor}
use mediaman.Scanner.ScanShows.{scan_tv_library-schedules}
use mediaman.Crypto.Tokens.{Codec}
use mediaman.Scanner.ScanRun.{IsIdle, LeavesAlone, run_scan-preview, scan_all_libraries-once}
use mediaman.Scanner.Scan.{resolve_added_at, scan_items}
use mediaman.Scanner.ScanLaws.{scan_items-schedules}
use mediaman.Scanner.ScanLibrary.{
  run_scan, FetchedLibrary, evaluate_movie, scan_tv_library, movie_library, other_library,
  PlexLibrary, scan_all_libraries, before_scan,
}
use mediaman.Scanner.Table.{
  deleting, pending, ActionKind, scheduled_deletion, protected_forever, DeleteStatus, Action,
}
use mediaman.Scanner.Eligibility.{
  viewed, day, days_since_reach, is_old_enough, most_recent, is_inactive, evaluate_item,
}
use mediaman.Scanner.ScanOnce.{count_open}
use mediaman.Scanner.Protection.{is_show_kept_pure, is_protected, is_already_scheduled}
use mediaman.Scanner.ScanSteps.{is_wanted}
use mediaman.Scanner.Upsert.{auditing, Stage, Fetch, ScanStore, Engine, fresh_item}
use mediaman.Core.Time.{Text, parse_iso_utc}
use mediaman.Core.TimeLaws.{one_code}

abbrev no_codec : Codec
no_codec = record {
  urlsafe_b64encode = λ t. t;
  urlsafe_b64decode = λ t. some t;
  hmac = λ k t. t;
  sha256 = λ t. t;
  json_dumps = λ p. [];
  json_loads = λ t. none;
}

-- An engine that deletes after 30 days of age, 10 of quiet, and 14 of grace.
abbrev office : Bool → Engine
office preview = record {
  lib = one_code;
  codec = no_codec;
  sha256_hex = λ t. "hash";
  secret_key = [];
  min_age_days = 30;
  inactivity_days = 10;
  grace_days = 14;
  preview_only = preview;
  arr_dates = [];
  offset_iso = λ t. t;
}

abbrev scan_time : ℕ
scan_time = 100 * day

abbrev scan_text : Text
scan_text = one_code.isoformat scan_time

-- An item added on a day and watched on another, if at all, whose handling raises at one step.
abbrev film : String → ℕ → List (Option ℕ) → (Stage → Bool) → Fetch
film k added history trouble = record {
  rating_key = k;
  show_key = none;
  of_library = 1;
  path = "/data/movies/film.mkv";
  size_bytes = some 5;
  season = none;
  plex_added_at = some (added * day);
  watch_history = history;
  at = scan_time;
  written_at = scan_time;
  raises = trouble;
}

abbrev never : Stage → Bool
never s = false

abbrev when_auditing : Stage → Bool
when_auditing auditing = true
when_auditing _ = false

abbrev season_of : String → Fetch → Fetch
season_of show f = record f { show_key = some show }

abbrev listing : List Fetch
listing =
    film "alien" 10 [] never
    ∷ film "alien" 10 [] never
    ∷ film "brazil" 10 [] never
    ∷ film "casablanca" 10 [] never
    ∷ film "dune" 10 (some (20 * day) ∷ []) when_auditing
    ∷ film "dune" 10 (some (20 * day) ∷ []) when_auditing
    ∷ film "eraserhead" 90 [] never
    ∷ []

abbrev bare_action : ℕ → String → ActionKind → Option DeleteStatus → Action
bare_action n m kind status = record {
  id = n;
  media_item_id = m;
  action = kind;
  execute_at = none;
  token_used = false;
  snoozed_at = none;
  snooze_duration = none;
  is_reentry = false;
  delete_status = status;
  token_hash = none;
}

-- Brazil is kept for ever, Casablanca is being deleted, and the show of Fargo is kept.
abbrev small_store : ScanStore
small_store = record {
  db = record {
    actions =
        bare_action 1 "brazil" protected_forever (some pending)
        ∷ bare_action 2 "casablanca" scheduled_deletion (some deleting)
        ∷ [];
    items = fresh_item (film "dune" 10 [] never) ∷ [];
    kept_shows =
        (record { show_rating_key = "fargo"; kept_action = protected_forever; kept_until = none })
        ∷ [];
    audits = [];
    tokens_used = [];
  };
  last_id = 2;
  added_at = [];
  last_watched = ("dune", one_code.isoformat (30 * day)) ∷ [];
  subkeys = [];
}

scan_items-schedules_example :
    is_already_scheduled
      (scan_items
        (office false)
        (evaluate_movie (office false))
        scan_text
        listing
        (before_scan small_store)).scan_store.db
      "dune"
    ≡ true
unfolding is_already_scheduled is_protected is_wanted evaluate_movie evaluate_item is_old_enough
    is_inactive viewed most_recent days_since_reach resolve_added_at parse_iso_utc lookup
    arr_date_of
scan_items-schedules_example =
    scan_items-schedules (office false) (evaluate_movie (office false)) scan_text listing
      (before_scan small_store) "dune" refl

abbrev tv_listing : FetchedLibrary
tv_listing = record {
  found =
      season_of "fargo" (film "fargo1" 10 [] never)
      ∷ season_of "glow" (film "glow1" 10 [] never)
      ∷ [];
  skipped_keys = "hannibal1" ∷ [];
}

scan_tv_library-schedules_example :
    let after =
      (scan_tv_library
        (office false)
        scan_text
        scan_text
        tv_listing
        (before_scan small_store)).scan_store.db in
    is_already_scheduled after "fargo1" ≡ false
unfolding is_already_scheduled is_protected is_wanted evaluate_movie evaluate_item is_old_enough
    is_inactive viewed most_recent days_since_reach resolve_added_at parse_iso_utc is_show_kept_pure
    find lookup arr_date_of
scan_tv_library-schedules_example =
    scan_tv_library-schedules (office false) scan_text scan_text tv_listing
      (before_scan small_store) "fargo1" refl (unfold find in (refl, tt)) refl

abbrev libraries : List PlexLibrary
libraries =
    (record {
      library_key = 1;
      library_type = some movie_library;
      contents = some (record { found = listing; skipped_keys = [] });
      shows_now = scan_text;
      guards_now = scan_text;
    })
    ∷ (record {
      library_key = 2;
      library_type = some other_library;
      contents = none;
      shows_now = scan_text;
      guards_now = scan_text;
    })
    ∷ []

scan_all_libraries-once_example :
    count_open
      (scan_all_libraries (office false) libraries (before_scan small_store) []).0.0.scan_store.db
      "dune"
    ≤ 1
unfolding count_open count_where
scan_all_libraries-once_example =
    scan_all_libraries-once (office false) libraries small_store "dune" refl (omega arith)

abbrev idle_executor : Executor
idle_executor = record {
  storage = record {
    path_within_delete_roots = λ p roots. true;
    delete_path = λ p roots files. (removed, []);
  };
  dry_run = false;
  cleanup_snoozes = true;
  has_radarr = true;
  has_sonarr = true;
  allowed_roots = "/data/movies" ∷ [];
  blank = λ p. false;
}

abbrev small_world : World
small_world = record { db = small_store.db; files = "/data/movies/film.mkv" ∷ []; calls = [] }

run_scan-preview_example :
    let run =
      run_scan
        (office true)
        idle_executor
        (λ a b. false)
        []
        scan_text
        libraries
        small_store
        small_world in
    LeavesAlone small_store small_world run.0 × IsIdle run.1
run_scan-preview_example =
    run_scan-preview (office true) idle_executor (λ a b. false) [] scan_text libraries small_store
      small_world refl

scan_items-not_after_example :
    let s' =
      (scan_items
        (office false)
        (evaluate_movie (office false))
        scan_text
        listing
        (before_scan small_store)).scan_store in
    (is_present s'.db "dune" ≡ true)
    × (not_after (some (one_code.isoformat (30 * day))) (lookup "dune" s'.last_watched) ≡ true)
unfolding is_present lookup
scan_items-not_after_example =
    scan_items-not_after (office false) (evaluate_movie (office false)) scan_text listing
      (before_scan small_store) "dune" refl
