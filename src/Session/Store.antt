-- ===== src/Session/Store.antt =====
-- src/mediaman/web/auth/session_store/_writes.py: the tables of sessions and of tickets, by the hash
-- of a token, and the transactions on them.

use mediaman.Prelude.{
  Bool, Option, String, [], if◌then◌else◌, is_empty, list_key, nat_key, some, ℕ, ◌==◌, ◌∷◌,
}
use mediaman.Prelude.Dict.{erase, Dict}
use mediaman.Core.Time.{Text, sql_lt}

-- A row of `admin_sessions`.
pub record Session : Type 0 where
  pub username : String
  pub created_at : Text
  pub expires_at : Text
  pub last_used_at : Option Text
  pub fingerprint : Text
  pub issued_ip : Text

-- A row of `reauth_tickets`.
pub record Ticket : Type 0 where
  pub username : String
  pub granted_at : Text
  pub expires_at : Text

-- Both tables, and when the last sweep ended.
pub record Sessions : Type 0 where
  pub admin_sessions : Dict Text Session
  pub reauth_tickets : Dict Text Ticket
  pub last_cleanup_at : ℕ

-- `revoke_reauth_by_hash`
unfoldable pub revoke_reauth_by_hash : Text → Dict Text Ticket → Dict Text Ticket
revoke_reauth_by_hash token_hash tickets =
    if is_empty token_hash then tickets else erase token_hash tickets

-- `_delete_session_with_commit`
unfoldable pub delete_session : Text → Sessions → Sessions
delete_session token_hash s = record {
  admin_sessions = erase token_hash s.admin_sessions;
  reauth_tickets = revoke_reauth_by_hash token_hash s.reauth_tickets;
  last_cleanup_at = s.last_cleanup_at;
}

-- `_try_delete_session`: an error of the database is swallowed.
unfoldable pub try_delete_session : Bool → Text → Sessions → Sessions
try_delete_session writable token_hash s = if writable then delete_session token_hash s else s

unfoldable pub stamp_last_used : Text → Text → Dict Text Session → Dict Text Session
stamp_last_used token_hash now_iso [] = []
stamp_last_used token_hash now_iso ((h, row) ∷ rows) =
    let rest = stamp_last_used token_hash now_iso rows in
    if h == token_hash
    then (h, record row { last_used_at = some now_iso }) ∷ rest
    else (h, row) ∷ rest

-- `_refresh_last_used_with_commit`
unfoldable pub refresh_last_used : Text → Text → Sessions → Sessions
refresh_last_used token_hash now_iso s = record s {
  admin_sessions = stamp_last_used token_hash now_iso s.admin_sessions;
}

unfoldable pub unexpired_sessions : Text → Dict Text Session → Dict Text Session
unexpired_sessions now_iso [] = []
unexpired_sessions now_iso ((h, row) ∷ rows) =
    let rest = unexpired_sessions now_iso rows in
    if sql_lt (some row.expires_at) now_iso then rest else (h, row) ∷ rest

unfoldable pub unexpired_tickets : Text → Dict Text Ticket → Dict Text Ticket
unexpired_tickets now_iso [] = []
unexpired_tickets now_iso ((h, row) ∷ rows) =
    let rest = unexpired_tickets now_iso rows in
    if sql_lt (some row.expires_at) now_iso then rest else (h, row) ∷ rest

-- `_cleanup_expired_with_commit`; an error in the sweep of the tickets is swallowed.
unfoldable pub cleanup_expired : Bool → Text → Sessions → Sessions
cleanup_expired tickets_writable now_iso s = record {
  admin_sessions = unexpired_sessions now_iso s.admin_sessions;
  reauth_tickets =
      if tickets_writable then unexpired_tickets now_iso s.reauth_tickets else s.reauth_tickets;
  last_cleanup_at = s.last_cleanup_at;
}
