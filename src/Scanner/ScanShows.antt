-- ===== src/Scanner/ScanShows.antt =====
-- Which seasons the scan of a TV library schedules, against the read of one show.

use mediaman.Prelude.{
  ==_self, Bool, Bool-cases, List, Option, String, [], any, ap, arith, contains, delete_where,
  false, find, inl, inr, none, not, refl, some, string_key, true, ℕ, ◌&&◌, ◌==◌, ◌||◌, ◌∙◌, ◌∷◌,
  ◌≡◌,
}
use mediaman.Scanner.Scan.{Progress, resolve_added_at}
use mediaman.Scanner.ScanLaws.{scan_items-schedules, contains-set_add, is_due_now}
use mediaman.Scanner.ScanLibrary.{
  FetchedLibrary, scan_tv_library, evaluate_movie, add_show, show_keys, in_kept, evaluate_season,
}
use mediaman.Scanner.Table.{KeptShow, Db}
use mediaman.Scanner.Batches.{DistinctShows, contains-fetch_kept}
use mediaman.Scanner.Protection.{
  is_already_scheduled, lapsed, is_protected, is_show_kept_pure, cleanup_expired_show_snoozes,
  fetch_kept_show_keys,
}
use mediaman.Scanner.ScanSteps.{is_wanted}
use mediaman.Scanner.Sweeps.{cleanup_expired_show_snoozes_unseen}
use mediaman.Scanner.Upsert.{Fetch, Engine}
use mediaman.Core.Time.{Text}

find-none-delete_where :
    (p q : KeptShow → Bool) (shows : List KeptShow)
    → find p shows ≡ none
    → find p (delete_where q shows) ≡ none
unfolding find delete_where
find-none-delete_where p q [] h = refl
find-none-delete_where p q (k ∷ shows) h = ground (arith, h, find-none-delete_where p q shows)

delete_where-DistinctShows :
    (q : KeptShow → Bool) (shows : List KeptShow)
    → DistinctShows shows
    → DistinctShows (delete_where q shows)
unfolding delete_where
delete_where-DistinctShows q [] d = d
delete_where-DistinctShows q (k ∷ shows) d = elim (Bool-cases (q k)) [
  | inl gone ↦ rw gone (delete_where-DistinctShows q shows d.1)
  | inr stays ↦ rw stays (
    find-none-delete_where (λ j. j.show_rating_key == k.show_rating_key) q shows d.0,
    delete_where-DistinctShows q shows d.1,
  )
]

or_congr : (a : Bool) {b b' c c' : Bool} → b ≡ b' → c ≡ c' → (a && b || c) ≡ (a && b' || c')
or_congr a p q = rw (p, q) refl

-- No season has a show with an empty key.
abbrev pub is_named : Option String → Bool
is_named none = true
is_named (some k) = not (k == "")

-- `scan_tv_library` asks for the season's show.
abbrev is_asked : List String → Option String → Bool
is_asked keys none = true
is_asked keys (some k) = contains keys k

in_kept-is_show_kept_pure :
    (db : Db) (keys : List String) (now_iso : Text) (key : Option String)
    → DistinctShows db.kept_shows
    → is_named key ≡ true
    → is_asked keys key ≡ true
    → in_kept (fetch_kept_show_keys (cleanup_expired_show_snoozes db now_iso).0 keys now_iso) key
      ≡ is_show_kept_pure db key now_iso
in_kept-is_show_kept_pure db keys now_iso none d named asked = unfold is_show_kept_pure in refl
in_kept-is_show_kept_pure db keys now_iso (some k) d named asked =
    let swept = (cleanup_expired_show_snoozes db now_iso).0 in
    let distinct : DistinctShows swept.kept_shows =
      unfold cleanup_expired_show_snoozes in
      delete_where-DistinctShows (lapsed now_iso) db.kept_shows d in
    ground (
      arith,
      contains-fetch_kept swept keys now_iso k distinct (ground (arith, named)),
      (cleanup_expired_show_snoozes_unseen db now_iso (some k) d).0,
      asked,
    )

asked-add_show :
    (key : Option String) (keys : List String) (k : String)
    → contains keys k ≡ true
    → contains (add_show key keys) k ≡ true
asked-add_show none keys k h = h
asked-add_show (some j) keys k h = ground (arith, h, contains-set_add j keys k)

own_asked : (key : Option String) (keys : List String) → is_asked (add_show key keys) key ≡ true
own_asked none keys = refl
own_asked (some k) keys = ground (arith, contains-set_add k keys k, ==_self k)

-- The evaluator of a season, with the read of one show.
abbrev pub judge_season : Engine → Db → Text → Fetch → ℕ → Bool
judge_season e db now_iso f added_at =
    not (is_show_kept_pure db f.show_key now_iso) && evaluate_movie e f added_at

is_due_now_congr :
    (e : Engine) (p q : Fetch → ℕ → Bool) (protected : Bool) (f : Fetch)
    → p f (resolve_added_at e f) ≡ q f (resolve_added_at e f)
    → is_due_now e p protected f ≡ is_due_now e q protected f
unfolding is_wanted
is_due_now_congr e p q protected f h = rw h refl

is_asked_mono :
    (key : Option String) (keys keys' : List String)
    → ((k : String) → contains keys k ≡ true → contains keys' k ≡ true)
    → is_asked keys key ≡ true
    → is_asked keys' key ≡ true
is_asked_mono none keys keys' h t = t
is_asked_mono (some k) keys keys' h t = h k t

any-judge_season :
    (e : Engine) (db : Db) (shows_now guards_now : Text) (keys : List String) (m : String)
    (fetched : List Fetch)
    → DistinctShows db.kept_shows
    → any (λ f. not (is_named f.show_key)) fetched ≡ false
    → ((k : String) → contains (show_keys fetched) k ≡ true → contains keys k ≡ true)
    → let kept =
        fetch_kept_show_keys (cleanup_expired_show_snoozes db shows_now).0 keys shows_now in
      any
        (λ f.
          (f.rating_key == m)
          && is_due_now e (evaluate_season e kept) (is_protected db guards_now f.rating_key) f)
        fetched
      ≡ any
          (λ f.
            (f.rating_key == m)
            && is_due_now e
                (judge_season e db shows_now)
                (is_protected db guards_now f.rating_key)
                f)
          fetched
unfolding show_keys evaluate_season
any-judge_season e db shows_now guards_now keys m [] d named asked = refl
any-judge_season e db shows_now guards_now keys m (f ∷ fetched) d named asked =
    let kept = fetch_kept_show_keys (cleanup_expired_show_snoozes db shows_now).0 keys shows_now in
    let own = is_asked_mono f.show_key _ keys asked (own_asked f.show_key (show_keys fetched)) in
    let read : in_kept kept f.show_key ≡ is_show_kept_pure db f.show_key shows_now =
      in_kept-is_show_kept_pure db keys shows_now f.show_key d (ground (arith, named)) own in
    let rest =
      any-judge_season e db shows_now guards_now keys m fetched d (ground (arith, named))
        (λ k h. asked k (asked-add_show f.show_key (show_keys fetched) k h)) in
    let here =
      is_due_now_congr e (evaluate_season e kept) (judge_season e db shows_now)
        (is_protected db guards_now f.rating_key) f (ground (arith, read)) in
    or_congr (f.rating_key == m) here rest

-- In a live scan of a TV library, where no show has two rows among the keeps and no season has a
-- show with an empty key: an item has an open deletion afterwards exactly if it had one, or one of
-- the seasons fetched has its key, is neither protected nor of a show that is kept, was added and
-- last watched long enough ago, and is handled without an exception up to the INSERT. Whether the
-- show is kept is the read of one show, on the tables before the lapsed keeps are swept.
pub scan_tv_library-schedules :
    (e : Engine) (shows_now guards_now : Text) (fetched : FetchedLibrary) (p : Progress)
    (m : String)
    → e.preview_only ≡ false
    → DistinctShows p.scan_store.db.kept_shows
    → any (λ f. not (is_named f.show_key)) fetched.found ≡ false
    → is_already_scheduled (scan_tv_library e shows_now guards_now fetched p).scan_store.db m ≡ (
        is_already_scheduled p.scan_store.db m
        || any
            (λ f.
              (f.rating_key == m)
              && is_due_now e
                  (judge_season e p.scan_store.db shows_now)
                  (is_protected p.scan_store.db guards_now f.rating_key)
                  f)
            fetched.found)
unfolding scan_tv_library
scan_tv_library-schedules e shows_now guards_now fetched p m live d named =
    let db = p.scan_store.db in
    let swept = (cleanup_expired_show_snoozes db shows_now).0 in
    let kept = fetch_kept_show_keys swept (show_keys fetched.found) shows_now in
    scan_items-schedules e (evaluate_season e kept) guards_now fetched.found _ m live
    ∙ unfold cleanup_expired_show_snoozes is_already_scheduled is_protected in
      ap (λ b. is_already_scheduled db m || b)
        (any-judge_season e db shows_now guards_now (show_keys fetched.found) m fetched.found d
          named (λ k h. h))
