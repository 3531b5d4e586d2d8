-- ===== src/Session/Validate.antt =====
-- src/mediaman/web/auth/session_store/: creating, validating and destroying sessions.

use mediaman.Prelude.{
  Bool, Option, String, [], false, if◌then◌else◌, is_empty, is_some, leb, length, list_key, ltb,
  nat_beq, nat_key, none, not, some, true, ℕ, ◌&&◌, ◌*◌, ◌+◌, ◌-◌, ◌==◌, ◌||◌, ◌∷◌,
}
use mediaman.Prelude.Dict.{insert, lookup}
use mediaman.Core.Time.{Text, Datetime, parse_iso_strict_utc}
use mediaman.Session.Store.{
  Session, Sessions, delete_session, try_delete_session, refresh_last_used, cleanup_expired,
}
use mediaman.Session.Fingerprint.{Mode, Client, is_off, client_fingerprint}

-- The instants as text, the hash of a token, and what a fingerprint is made of.
pub record SessionLibrary : Type 0 where
  pub datetime : Datetime
  pub hash_token : Text → Text
  pub client : Client
  pub mode : Mode

abbrev pub hard_expiry : ℕ
hard_expiry = 24 * 60 * 60 * 1000000

unfoldable pub is_hex : ℕ → Bool
is_hex c = (leb b'0' c && leb c b'9') || (leb b'a' c && leb c b'f')

unfoldable pub all_hex : Text → Bool
all_hex [] = true
all_hex (c ∷ s) = is_hex c && all_hex s

-- `_SESSION_TOKEN_RE.fullmatch`
unfoldable pub is_session_token : Text → Bool
is_session_token token = nat_beq (length token) 64 && all_hex token

abbrev pub idle_timeout : ℕ
idle_timeout = 24 * 60 * 60 * 1000000

abbrev pub lifetime : Option ℕ → ℕ
lifetime none = hard_expiry
lifetime (some seconds) = seconds * 1000000

-- The row of a new session, bound to what its client says of itself.
unfoldable pub new_session : SessionLibrary → ℕ → String → Text → Text → Option ℕ → Session
new_session lib now username user_agent client_ip ttl =
    let bound = not (is_off lib.mode) && not (is_empty user_agent && is_empty client_ip) in
    record {
      username = username;
      created_at = lib.datetime.isoformat now;
      expires_at = lib.datetime.isoformat (now + lifetime ttl);
      last_used_at = some (lib.datetime.isoformat now);
      fingerprint =
          if bound then client_fingerprint lib.client lib.mode user_agent client_ip else [];
      issued_ip = client_ip;
    }

-- `create_session`; a token that is there already is an error.
unfoldable pub create_session :
    SessionLibrary → ℕ → Text → String → Text → Text → Option ℕ → Sessions → Option Sessions
create_session lib now token username user_agent client_ip ttl s =
    let token_hash = lib.hash_token token in
    let row = new_session lib now username user_agent client_ip ttl in
    if is_some (lookup token_hash s.admin_sessions)
    then none
    else some (record s { admin_sessions = insert token_hash row s.admin_sessions })

-- A request with a token: its clocks, what its client says of itself, and whether the writes of
-- this request succeed.
pub record SessionRequest : Type 0 where
  pub token : Text
  pub now : ℕ
  pub monotonic : ℕ
  pub monotonic_after : ℕ
  pub user_agent : Option Text
  pub client_ip : Option Text
  pub request_supplied : Option Bool
  pub deletes : Bool
  pub refreshes : Bool
  pub sweeps : Bool
  pub sweeps_tickets : Bool

-- What `validate_session` returns: nobody, a user, or an exception of the sweep.
pub data SessionAnswer : Type 0 where
  nobody : SessionAnswer
  user : String → SessionAnswer
  raised : SessionAnswer

-- `_parse_last_used`
unfoldable pub parse_last_used : Datetime → Option Text → Option ℕ
parse_last_used lib raw = parse_iso_strict_utc lib raw

unfoldable pub is_given : Option Text → Bool
is_given none = false
is_given (some s) = not (is_empty s)

-- `_idle_expired`, without the delete.
unfoldable pub is_idle : ℕ → Option Text → Option ℕ → Bool
is_idle now raw none = is_given raw
is_idle now raw (some last) = ltb idle_timeout (now - last)

unfoldable pub differs : SessionLibrary → Text → Option Text → Option Text → Bool
differs lib stored none client_ip = false
differs lib stored (some user_agent) none = false
differs lib stored (some user_agent) (some client_ip) =
    not (client_fingerprint lib.client lib.mode user_agent client_ip == stored)

unfoldable pub is_supplied : SessionRequest → Bool
is_supplied r = elim r.request_supplied [
  | none ↦ is_some r.user_agent || is_some r.client_ip
  | some b ↦ b
]

-- `_fingerprint_mismatch`, without the delete.
unfoldable pub is_mismatch : SessionLibrary → SessionRequest → Text → Bool
is_mismatch lib r stored =
    if is_off lib.mode || is_empty stored
    then false
    else if not (is_supplied r)
    then true
    else differs lib stored r.user_agent r.client_ip

abbrev pub refresh_interval : ℕ
refresh_interval = 60 * 1000000

unfoldable pub needs_refresh : ℕ → Option ℕ → Bool
needs_refresh now none = true
needs_refresh now (some last) = leb refresh_interval (now - last)

-- `_maybe_refresh_last_used`
unfoldable pub maybe_refresh : SessionLibrary → SessionRequest → Option ℕ → Sessions → Sessions
maybe_refresh lib r last s =
    if needs_refresh r.now last && r.refreshes
    then refresh_last_used (lib.hash_token r.token) (lib.datetime.isoformat r.now) s
    else s

abbrev pub expired_cleanup_interval : ℕ
expired_cleanup_interval = 60 * 1000000

-- `_maybe_sweep_expired`; the end of the sweep is stamped even where it raises.
unfoldable pub maybe_sweep : SessionLibrary → SessionRequest → Sessions → Sessions × Bool
maybe_sweep lib r s =
    let swept = cleanup_expired r.sweeps_tickets (lib.datetime.isoformat r.now) s in
    if ltb (r.monotonic - s.last_cleanup_at) expired_cleanup_interval
    then (s, true)
    else if r.sweeps
    then (record swept { last_cleanup_at = r.monotonic_after }, true)
    else (record s { last_cleanup_at = r.monotonic_after }, false)

-- The hard expiry fails closed.
unfoldable pub is_expired : ℕ → Option ℕ → Bool
is_expired now none = true
is_expired now (some expires) = ltb expires now

-- The session's row passed every test.
unfoldable pub accept_row :
    SessionLibrary → SessionRequest → Sessions → Session → Option ℕ → Sessions × SessionAnswer
accept_row lib r s row last =
    let (s', swept) = maybe_sweep lib r (maybe_refresh lib r last s) in
    (s', if swept then user row.username else raised)

-- The tests on a row, in order.
unfoldable pub is_refused : SessionLibrary → SessionRequest → Session → Bool
is_refused lib r row =
    is_expired r.now (parse_iso_strict_utc lib.datetime (some row.expires_at))
    || is_idle r.now row.last_used_at (parse_last_used lib.datetime row.last_used_at)
    || is_mismatch lib r row.fingerprint

unfoldable pub check_row :
    SessionLibrary → SessionRequest → Sessions → Option Session → Sessions × SessionAnswer
check_row lib r s none = (s, nobody)
check_row lib r s (some row) =
    if is_refused lib r row
    then (try_delete_session r.deletes (lib.hash_token r.token) s, nobody)
    else accept_row lib r s row (parse_last_used lib.datetime row.last_used_at)

-- `validate_session`
unfoldable pub validate_session :
    SessionLibrary → Sessions → SessionRequest → Sessions × SessionAnswer
validate_session lib s r =
    if is_session_token r.token
    then check_row lib r s (lookup (lib.hash_token r.token) s.admin_sessions)
    else (s, nobody)

-- `destroy_session`: the audit row is in the transaction; whether it was committed.
unfoldable pub destroy_session : SessionLibrary → Bool → Text → Sessions → Sessions × Bool
destroy_session lib audited token s =
    if audited then (delete_session (lib.hash_token token) s, true) else (s, false)
