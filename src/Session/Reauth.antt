-- ===== src/Session/Reauth.antt =====
-- src/mediaman/web/auth/reauth.py: the tickets of sessions whose user gave the password again.

use mediaman.Prelude.{
  Bool, Option, String, [], false, if◌then◌else◌, is_empty, length, list_key, ltb, nat_key, none,
  not, some, string_key, true, ℕ, ◌&&◌, ◌*◌, ◌+◌, ◌-◌, ◌==◌, ◌||◌, ◌∷◌,
}
use Prim.Native.String.{◌++◌ as ◌<>◌}
use mediaman.Prelude.Dict.{lookup, insert, Dict}
use mediaman.Core.Time.{Text, Datetime, parse_iso_strict_utc}
use mediaman.Auth.Lockout.{Failures, is_locked_out, record_failure, record_success}
use mediaman.Auth.Login.{Accounts, authenticate}
use mediaman.Session.Store.{Session, Ticket, Sessions, revoke_reauth_by_hash, unexpired_tickets}
use mediaman.Session.Validate.{SessionLibrary}

abbrev pub default_reauth_window_seconds : ℕ
default_reauth_window_seconds = 300

-- What the environment says: nothing, no number, or a number; one below zero is 0 here.
pub data Setting : Type 0 where
  unset not_a_number : Setting
  number_of : ℕ → Setting

-- `reauth_window_seconds`
unfoldable pub reauth_window_seconds : Setting → ℕ
reauth_window_seconds unset = default_reauth_window_seconds
reauth_window_seconds not_a_number = default_reauth_window_seconds
reauth_window_seconds (number_of value) =
    if ltb value 30 then 30 else if ltb 3600 value then 3600 else value

unfoldable pub window_or : Setting → Option ℕ → ℕ
window_or setting none = reauth_window_seconds setting
window_or setting (some seconds) = seconds

-- `grant_recent_reauth`
unfoldable pub grant_recent_reauth :
    SessionLibrary → Setting → ℕ → Text → String → Option ℕ → Sessions → Sessions
grant_recent_reauth lib setting now token username window s =
    let lasts = window_or setting window * 1000000 in
    let ticket : Ticket = record {
      username = username;
      granted_at = lib.datetime.isoformat now;
      expires_at = lib.datetime.isoformat (now + lasts);
    } in
    if is_empty token || username == ""
    then s
    else record s { reauth_tickets = insert (lib.hash_token token) ticket s.reauth_tickets }

-- Both instants of a ticket, against the clock.
unfoldable pub is_recent : ℕ → ℕ → Option ℕ → Option ℕ → Bool
is_recent now max_age none expires = false
is_recent now max_age (some granted) none = false
is_recent now max_age (some granted) (some expires) =
    not (ltb expires now) && not (ltb max_age (now - granted))

unfoldable pub check_ticket : SessionLibrary → ℕ → String → ℕ → Option Ticket → Bool
check_ticket lib now username max_age none = false
check_ticket lib now username max_age (some ticket) =
    (ticket.username == username)
    && is_recent now max_age (parse_iso_strict_utc lib.datetime (some ticket.granted_at))
        (parse_iso_strict_utc lib.datetime (some ticket.expires_at))

-- `has_recent_reauth`; a `max_age` below zero is 0.
unfoldable pub has_recent_reauth :
    SessionLibrary → Setting → ℕ → Text → String → Option ℕ → Sessions → Bool
has_recent_reauth lib setting now token username max_age s =
    let seconds = window_or setting max_age * 1000000 in
    if is_empty token || username == ""
    then false
    else check_ticket lib now username seconds (lookup (lib.hash_token token) s.reauth_tickets)

-- `revoke_reauth`
unfoldable pub revoke_reauth : SessionLibrary → Text → Sessions → Sessions
revoke_reauth lib token s =
    if is_empty token
    then s
    else record s { reauth_tickets = revoke_reauth_by_hash (lib.hash_token token) s.reauth_tickets }

-- `cleanup_expired_reauth`, with the number of rows.
unfoldable pub cleanup_expired_reauth : Text → Dict Text Ticket → Dict Text Ticket × ℕ
cleanup_expired_reauth now_iso tickets =
    let kept = unexpired_tickets now_iso tickets in (kept, length tickets - length kept)

unfoldable pub tickets_of_others : String → Dict Text Ticket → Dict Text Ticket
tickets_of_others username [] = []
tickets_of_others username ((h, t) ∷ rows) =
    let rest = tickets_of_others username rows in
    if t.username == username then rest else (h, t) ∷ rest

-- `revoke_all_reauth_for`, with the number of rows.
unfoldable pub revoke_all_reauth_for : String → Dict Text Ticket → Dict Text Ticket × ℕ
revoke_all_reauth_for username tickets =
    let kept = tickets_of_others username tickets in
    if username == "" then (tickets, 0) else (kept, length tickets - length kept)

unfoldable pub sessions_of_others : String → Dict Text Session → Dict Text Session
sessions_of_others username [] = []
sessions_of_others username ((h, row) ∷ rows) =
    let rest = sessions_of_others username rows in
    if row.username == username then rest else (h, row) ∷ rest

-- `destroy_all_sessions_for`; an error in the revocation of the tickets is swallowed.
unfoldable pub destroy_all_sessions_for : Bool → String → Sessions → Sessions × ℕ
destroy_all_sessions_for revokes username s =
    let kept = sessions_of_others username s.admin_sessions in
    (
      record {
        admin_sessions = kept;
        reauth_tickets =
            if revokes
            then (revoke_all_reauth_for username s.reauth_tickets).0
            else s.reauth_tickets;
        last_cleanup_at = s.last_cleanup_at;
      },
      length s.admin_sessions - length kept,
    )

-- `verify_reauth_password`: failures count under a name of their own.
unfoldable pub verify_reauth_password :
    Accounts → Datetime → ℕ → String → String → Failures → Failures × Bool
verify_reauth_password accounts lib now admin password table =
    let namespace = "reauth:" <> admin in
    let (table', known) = authenticate accounts lib now admin password false table in
    if is_locked_out lib now namespace table
    then ((record_failure lib now namespace table).0, false)
    else if known
    then (record_success namespace table', true)
    else ((record_failure lib now namespace table').0, false)
