-- ===== src/Session/Life.antt =====
-- The life of a session: from its creation to its expiry, over any requests of its client.

use mediaman.Prelude.{
  Bool, Bool-cases, String, [], ap, arith, false, inl, inr, list_key, list_same, ltb, nat_key, refl,
  some, true, ℕ, ◌&&◌, ◌+◌, ◌-◌, ◌||◌, ◌∙◌, ◌∷◌, ◌≡◌, ◌≤◌,
}
use mediaman.Session.SweepLaws.{stamped, lookup-stamp_last_used}
use mediaman.Prelude.Dict.{lookup, Dict}
use mediaman.Core.Time.{Text, sql_lt}
use mediaman.Core.TimeLaws.{parse_iso_strict_utc-isoformat, IsIso}
use mediaman.Session.Store.{
  Session, Sessions, refresh_last_used, unexpired_sessions, cleanup_expired,
}
use mediaman.Session.Validate.{
  user, SessionRequest, parse_last_used, is_idle, is_expired, accept_row, is_session_token,
  idle_timeout, is_mismatch, needs_refresh, maybe_refresh, expired_cleanup_interval, maybe_sweep,
  is_refused, check_row, validate_session, SessionLibrary,
}

-- The row of a token, of which the sweep and the refresh change nothing but the last use.
pub record IsAlive (lib : SessionLibrary) (token : Text) (name : String) (bound : Text)
    (ends last : ℕ) (s : Sessions) : Type 0 where
  pub row : Session
  pub found : lookup (lib.hash_token token) s.admin_sessions ≡ some row
  pub named : row.username ≡ name
  pub print : row.fingerprint ≡ bound
  pub expiry : row.expires_at ≡ lib.datetime.isoformat ends
  pub used : row.last_used_at ≡ some (lib.datetime.isoformat last)

lookup-unexpired_kept :
    (token_hash now_iso : Text) (row : Session) (rows : Dict Text Session)
    → lookup token_hash rows ≡ some row
    → sql_lt (some row.expires_at) now_iso ≡ false
    → lookup token_hash (unexpired_sessions now_iso rows) ≡ some row
unfolding lookup unexpired_sessions
lookup-unexpired_kept token_hash now_iso row [] h kept = ground (arith, h)
lookup-unexpired_kept token_hash now_iso row ((j, other) ∷ rows) h kept =
    let rest = lookup-unexpired_kept token_hash now_iso row rows in
    (elim (Bool-cases (list_same j token_hash)) [
      | inl e ↦ ground (arith, h, kept, e)
      | inr e ↦ ground (arith, h, kept, e, rest)
    ])

module _ (lib : SessionLibrary) (iso : IsIso lib.datetime) (token : Text) (name : String)
    (bound : Text) (ends : ℕ) where
  cleanup_expired-IsAlive :
      (now last : ℕ) (tickets : Bool) (s : Sessions)
      → now ≤ ends
      → IsAlive lib token name bound ends last s
      → IsAlive lib token name bound ends last
          (cleanup_expired tickets (lib.datetime.isoformat now) s)
  unfolding cleanup_expired
  cleanup_expired-IsAlive now last tickets s early alive = record {
    row = alive.row;
    found =
        lookup-unexpired_kept (lib.hash_token token) (lib.datetime.isoformat now) alive.row
          s.admin_sessions alive.found
          (rw (alive.expiry, iso.ordered now ends) (ground (arith, early)));
    named = alive.named;
    print = alive.print;
    expiry = alive.expiry;
    used = alive.used;
  }

  refresh_last_used-IsAlive :
      (now last : ℕ) (s : Sessions)
      → IsAlive lib token name bound ends last s
      → IsAlive lib token name bound ends now
          (refresh_last_used (lib.hash_token token) (lib.datetime.isoformat now) s)
  unfolding refresh_last_used stamped
  refresh_last_used-IsAlive now last s alive = record {
    row = record alive.row { last_used_at = some (lib.datetime.isoformat now) };
    found =
        (rw
          (
            lookup-stamp_last_used (lib.hash_token token) (lib.datetime.isoformat now)
                s.admin_sessions,
            alive.found,
            stamped,
          )
          refl);
    named = alive.named;
    print = alive.print;
    expiry = alive.expiry;
    used = refl;
  }

  -- What the writes after a successful test leave, where the sweep does not fail.
  maybe_refresh-IsAlive :
      (r : SessionRequest) (last : ℕ) (s : Sessions)
      → r.token ≡ token
      → last ≤ r.now
      → IsAlive lib token name bound ends last s
      → (last' : ℕ) × (last ≤ last')
        × (last' ≤ r.now)
        × IsAlive lib token name bound ends last' (maybe_refresh lib r (some last) s)
  unfolding maybe_refresh
  maybe_refresh-IsAlive r last s own since alive =
      elim (Bool-cases (needs_refresh r.now (some last) && r.refreshes)) [
        | inl e ↦
            rw (e, own) (r.now, since, omega arith, refresh_last_used-IsAlive r.now last s alive)
        | inr e ↦ rw e (last, omega arith, since, alive)
      ]

  stamp-IsAlive :
      (at last : ℕ) (s : Sessions)
      → IsAlive lib token name bound ends last s
      → IsAlive lib token name bound ends last (record s { last_cleanup_at = at })
  stamp-IsAlive at last s alive = record {
    row = alive.row;
    found = alive.found;
    named = alive.named;
    print = alive.print;
    expiry = alive.expiry;
    used = alive.used;
  }

  maybe_sweep-IsAlive :
      (r : SessionRequest) (last : ℕ) (s : Sessions)
      → r.now ≤ ends
      → r.sweeps ≡ true
      → IsAlive lib token name bound ends last s
      → IsAlive lib token name bound ends last (maybe_sweep lib r s).0
        × ((maybe_sweep lib r s).1 ≡ true)
  unfolding maybe_sweep
  maybe_sweep-IsAlive r last s early works alive =
      let swept = cleanup_expired-IsAlive r.now last r.sweeps_tickets s early alive in
      let marked =
        stamp-IsAlive r.monotonic_after last
          (cleanup_expired r.sweeps_tickets (lib.datetime.isoformat r.now) s) swept in
      elim (Bool-cases (ltb (r.monotonic - s.last_cleanup_at) expired_cleanup_interval)) [
        | inl e ↦ rw e (alive, refl)
        | inr e ↦ rw (e, works) (marked, refl)
      ]

  is_refused-IsAlive :
      (r : SessionRequest) (last : ℕ) (s : Sessions)
      (alive : IsAlive lib token name bound ends last s)
      → is_refused lib r alive.row
        ≡ ltb ends r.now || ltb idle_timeout (r.now - last) || is_mismatch lib r bound
  unfolding is_refused is_expired is_idle parse_last_used
  is_refused-IsAlive r last s alive =
      rw
        (
          alive.expiry,
          alive.used,
          alive.print,
          parse_iso_strict_utc-isoformat lib.datetime iso ends,
          parse_iso_strict_utc-isoformat lib.datetime iso last,
        )
        refl

-- A request of the session's own client before the end.
module _ (lib : SessionLibrary) (iso : IsIso lib.datetime) (name : String) (bound : Text)
    (ends : ℕ) where
  pub validate_session-IsAlive :
      (r : SessionRequest) (last : ℕ) (s : Sessions)
      → is_session_token r.token ≡ true
      → r.now ≤ ends
      → last ≤ r.now
      → r.now ≤ last + idle_timeout
      → is_mismatch lib r bound ≡ false
      → r.sweeps ≡ true
      → IsAlive lib r.token name bound ends last s
      → (last' : ℕ) × (last ≤ last')
        × (last' ≤ r.now)
        × IsAlive lib r.token name bound ends last' (validate_session lib s r).0
        × ((validate_session lib s r).1 ≡ user name)
  unfolding validate_session check_row accept_row parse_last_used
  validate_session-IsAlive r last s form early since busy fits works alive =
      let passed : is_refused lib r alive.row ≡ false =
        is_refused-IsAlive lib iso r.token name bound ends r last s alive
        ∙ ground (arith, early, busy, fits) in
      let fresh = maybe_refresh-IsAlive lib iso r.token name bound ends r last s refl since alive in
      let swept =
        maybe_sweep-IsAlive lib iso r.token name bound ends r fresh.0
          (maybe_refresh lib r (some last) s) early works fresh.3 in
      let parsed = parse_iso_strict_utc-isoformat lib.datetime iso last in
      rw (form, alive.found, passed, alive.used, parsed, swept.1)
        (fresh.0, fresh.1, fresh.2, swept.0, ap user alive.named)
