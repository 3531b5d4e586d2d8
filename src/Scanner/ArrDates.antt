-- ===== src/Scanner/ArrDates.antt =====
-- src/mediaman/scanner/arr_dates.py: the dates at which Radarr and Sonarr have seen a file arrive.

use mediaman.Prelude.{
  Bool, List, Option, String, [], contains, false, if◌then◌else◌, is_empty, list_key, ltb, nat_key,
  none, some, true, ◌==◌, ◌||◌, ◌∷◌,
}
use mediaman.Crypto.Kinds.{ascii}
use mathlib.Core.List.{reverse}
use mediaman.Prelude.Dict.{insert, lookup, Dict}
use mediaman.Core.Time.{zulu, Moment, with_offset, Datetime, Text, naive}

-- `path.strip("/")`
unfoldable pub lstrip_slash : Text → Text
lstrip_slash [] = []
lstrip_slash (c ∷ s) = if c == b'/' then lstrip_slash s else c ∷ s

unfoldable pub strip_slash : Text → Text
strip_slash s = reverse (lstrip_slash (reverse (lstrip_slash s)))

-- `s.split("/", 1)`: what stands before the first slash, and after it, where there is one.
unfoldable pub split_slash : Text → Text × Option Text
split_slash [] = ([], none)
split_slash (c ∷ s) =
    let (head, tail) = split_slash s in if c == b'/' then ([], some s) else (c ∷ head, tail)

abbrev pub generic_roots : List Text
generic_roots = ascii "data" ∷ ascii "media" ∷ ascii "share" ∷ []

unfoldable pub below_root : Text → Text → Text → Option Text → Text
below_root path stripped root none = path
below_root path stripped root (some below) = if contains generic_roots root then below else stripped

unfoldable pub normalise_path : Text → Text
normalise_path path =
    let stripped = strip_slash path in
    let (root, below) = split_slash stripped in below_root path stripped root below

-- `get`, of a cache that is loaded.
unfoldable pub arr_date_of : Dict Text Text → String → Option Text
arr_date_of dates file_path = lookup (normalise_path (ascii file_path)) dates

-- A file as the arr lists it; a missing text is empty.
pub record ArrFile : Type 0 where
  pub file_path : Text
  pub date_added : Text

-- `_parse_arr_iso`: a time without an offset stays one.
unfoldable pub parse_arr_iso : Datetime → Text → Option Moment
parse_arr_iso lib [] = none
parse_arr_iso lib (c ∷ s) = lib.fromisoformat (zulu (c ∷ s))

abbrev pub parse_existing : Datetime → Option Text → Option Moment
parse_existing lib none = none
parse_existing lib (some s) = parse_arr_iso lib s

-- `path.rsplit("/", 1)[0]`
unfoldable pub drop_last_part : Text → Option Text
drop_last_part [] = none
drop_last_part (c ∷ s) = elim (drop_last_part s) [
  | none ↦ if c == b'/' then some [] else none
  | some t ↦ some (c ∷ t)
]

abbrev pub season_dir : Text → Option Text → Text
season_dir path none = path
season_dir path (some dir) = dir

-- `existing_dt is None or new_dt > existing_dt`; `none` is the `TypeError` of comparing a time that
-- has an offset with one that has none.
unfoldable pub is_newer : Moment → Option Moment → Option Bool
is_newer new none = some true
is_newer (naive t) (some (naive u)) = some (ltb u t)
is_newer (with_offset t) (some (with_offset u)) = some (ltb u t)
is_newer (naive t) (some (with_offset u)) = none
is_newer (with_offset t) (some (naive u)) = none

abbrev pub store_newer : Text → Text → Dict Text Text → Option Bool → Option (Dict Text Text)
store_newer k date dates none = none
store_newer k date dates (some false) = some dates
store_newer k date dates (some true) = some (insert k date dates)

abbrev pub add_parsed :
    Datetime → Text → Text → Dict Text Text → Option Moment → Option (Dict Text Text)
add_parsed lib k date dates none = some dates
add_parsed lib k date dates (some new) =
    store_newer k date dates (is_newer new (parse_existing lib (lookup k dates)))

-- One episode file.
unfoldable pub add_episode : Datetime → ArrFile → Dict Text Text → Option (Dict Text Text)
add_episode lib f dates =
    let k = normalise_path (season_dir f.file_path (drop_last_part f.file_path)) in
    if is_empty f.file_path || is_empty f.date_added
    then some dates
    else add_parsed lib k f.date_added dates (parse_arr_iso lib f.date_added)

-- The files of one series.
unfoldable pub add_episodes : Datetime → List ArrFile → Dict Text Text → Option (Dict Text Text)
add_episodes lib [] dates = some dates
add_episodes lib (f ∷ files) dates = elim (add_episode lib f dates) [
  | none ↦ none
  | some dates' ↦ add_episodes lib files dates'
]

-- The series, each with its files, `none` where their fetch raises an error that is caught.
unfoldable pub add_series :
    Datetime → List (Option (List ArrFile)) → Dict Text Text → Option (Dict Text Text)
add_series lib [] dates = some dates
add_series lib (none ∷ series) dates = add_series lib series dates
add_series lib (some files ∷ series) dates = elim (add_episodes lib files dates) [
  | none ↦ none
  | some dates' ↦ add_series lib series dates'
]

unfoldable pub add_movies : List ArrFile → Dict Text Text → Dict Text Text
add_movies [] dates = dates
add_movies (f ∷ movies) dates = add_movies movies (
    if is_empty f.file_path || is_empty f.date_added
    then dates
    else insert (normalise_path f.file_path) f.date_added dates)

abbrev pub listed_movies : Option (List ArrFile) → List ArrFile
listed_movies none = []
listed_movies (some movies) = movies

abbrev pub listed_series : Option (List (Option (List ArrFile))) → List (Option (List ArrFile))
listed_series none = []
listed_series (some series) = series

-- `_build`, on what Radarr and Sonarr list, `none` where there is no client or its fetch raises an
-- error that is caught. The result is `none` where a `TypeError` escapes.
unfoldable pub build :
    Datetime
    → Option (List ArrFile)
    → Option (List (Option (List ArrFile)))
    → Dict Text Text
    → Option (Dict Text Text)
build lib radarr sonarr dates =
    add_series lib (listed_series sonarr) (add_movies (listed_movies radarr) dates)
