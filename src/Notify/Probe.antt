-- ===== src/Notify/Probe.antt =====
-- src/mediaman/services/downloads/notifications.py: whether Radarr or Sonarr has the files of a row.

use mediaman.Prelude.{
  Bool, List, Option, [], false, if◌then◌else◌, ltb, nat_key, none, not, some, suc, true, zero, ℕ,
  ◌&&◌, ◌==◌, ◌||◌, ◌∷◌,
}
use mediaman.Prelude.Dict.{insert, lookup, Dict}
use mediaman.Notify.Claims.{ArrService, radarr_service, sonarr_service, unknown_service, Notice}

-- A series of Sonarr: its ids and `episodeFileCount`.
pub record Series : Type 0 where
  pub tvdb : Option ℕ
  pub tmdb : Option ℕ
  pub episode_files : ℕ

-- `LazyArrClients` and the indexes fetched before the rows, `none` where the fetch failed. What a row
-- asks for itself is a function of its id, `none` where it raises.
pub record Arrs : Type 0 where
  pub has_radarr_client : Bool
  pub has_sonarr_client : Bool
  pub radarr_index : Option (Dict ℕ Bool)
  pub sonarr_index : Option (List Series)
  pub get_movie : ℕ → Option (Option Bool)
  pub get_series : ℕ → Option (List Series)

-- An id that is there and not 0.
abbrev pub is_id : Option ℕ → Bool
is_id none = false
is_id (some zero) = false
is_id (some (suc n)) = true

-- `wanted and s.get(...) == wanted`
abbrev pub same_id : Option ℕ → Option ℕ → Bool
same_id none got = false
same_id (some n) none = false
same_id (some n) (some m) = not (n == 0) && n == m

-- `_sonarr_has_files`
unfoldable pub sonarr_has_files : Option ℕ → Option ℕ → List Series → Bool
sonarr_has_files tvdb_id tmdb_id [] = false
sonarr_has_files tvdb_id tmdb_id (s ∷ series) =
    if same_id tvdb_id s.tvdb
    then ltb 0 s.episode_files
    else if same_id tmdb_id s.tmdb
    then ltb 0 s.episode_files
    else sonarr_has_files tvdb_id tmdb_id series

-- What a probe finds: the arr cannot be reached, the service is not known, or whether the item is
-- there.
pub data Availability : Type 0 where
  arr_unreachable no_such_service : Availability
  is_ready : Bool → Availability

abbrev pub id_or_zero : Option ℕ → ℕ
id_or_zero none = 0
id_or_zero (some n) = n

-- `movie and movie.get("hasFile")`
abbrev pub has_file : Option Bool → Bool
has_file none = false
has_file (some b) = b

abbrev pub movie_answer : Option (Option Bool) → Availability
movie_answer none = arr_unreachable
movie_answer (some movie) = is_ready (has_file movie)

abbrev pub probe_movie : Arrs → Notice → Option (Dict ℕ Bool) → Availability
probe_movie arr r none = movie_answer (arr.get_movie r.notice_id)
probe_movie arr r (some index) = is_ready (has_file (lookup (id_or_zero r.notice_tmdb) index))

-- `_check_radarr_movie`
unfoldable pub check_radarr_movie : Arrs → Notice → Availability
check_radarr_movie arr r =
    if arr.has_radarr_client && is_id r.notice_tmdb
    then probe_movie arr r arr.radarr_index
    else is_ready false

abbrev pub series_answer : Notice → Option (List Series) → Availability
series_answer r none = arr_unreachable
series_answer r (some series) = is_ready (sonarr_has_files r.notice_tvdb r.notice_tmdb series)

abbrev pub probe_series : Arrs → Notice → Option (List Series) → Availability
probe_series arr r none = series_answer r (arr.get_series r.notice_id)
probe_series arr r (some series) = series_answer r (some series)

-- `_check_sonarr_series`
unfoldable pub check_sonarr_series : Arrs → Notice → Availability
check_sonarr_series arr r =
    if arr.has_sonarr_client && (is_id r.notice_tvdb || is_id r.notice_tmdb)
    then probe_series arr r arr.sonarr_index
    else is_ready false

-- The branches of `_check_arr_availability`.
unfoldable pub check_service : Arrs → Notice → ArrService → Availability
check_service arr r radarr_service = check_radarr_movie arr r
check_service arr r sonarr_service = check_sonarr_series arr r
check_service arr r unknown_service = no_such_service

-- `_build_radarr_index`: the movies with an id, the later of two standing.
unfoldable pub build_radarr_index : List (Option ℕ × Bool) → Dict ℕ Bool → Dict ℕ Bool
build_radarr_index [] index = index
build_radarr_index ((id, file) ∷ movies) index =
    build_radarr_index movies (if is_id id then insert (id_or_zero id) file index else index)
