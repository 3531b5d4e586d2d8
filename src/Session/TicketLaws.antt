-- ===== src/Session/TicketLaws.antt =====
-- When a ticket of re-authentication is honoured, and what a logout takes away.

use mediaman.Prelude.{
  ==_self, Bool-cases, Option, String, ap, arith, false, if◌then◌else◌, inl, inr, is_empty, leb,
  list_key, nat_key, none, refl, string_key, true, ℕ, ◌&&◌, ◌*◌, ◌+◌, ◌-◌, ◌==◌, ◌≡◌,
}
use mediaman.Prelude.Dict.{erase, lookup, lookup-insert, lookup-erase}
use mediaman.Core.Time.{Text}
use mediaman.Core.TimeLaws.{IsIso, parse_iso_strict_utc-isoformat}
use mediaman.Session.Store.{Ticket, Sessions, revoke_reauth_by_hash, delete_session}
use mediaman.Session.Reauth.{
  Setting, window_or, grant_recent_reauth, is_recent, check_ticket, has_recent_reauth,
}
use mediaman.Session.Validate.{
  nobody, SessionLibrary, SessionRequest, check_row, validate_session, destroy_session,
}

-- Where `isoformat` keeps its laws and neither text is empty: after a grant, the ticket that is looked
-- for is the granted one if the tokens have one hash, and then it must name that user and be young
-- enough by its own expiry and by the caller's limit; for any other token nothing has changed.
pub has_recent_reauth-grant :
    (lib : SessionLibrary) (setting : Setting) (now now' : ℕ) (token token' : Text)
    (name name' : String) (window max_age : Option ℕ) (s : Sessions)
    → IsIso lib.datetime
    → is_empty token ≡ false
    → (name == "") ≡ false
    → is_empty token' ≡ false
    → (name' == "") ≡ false
    → has_recent_reauth lib setting now' token' name' max_age
        (grant_recent_reauth lib setting now token name window s)
      ≡ (if lib.hash_token token == lib.hash_token token'
          then (name == name')
            && leb now' (now + window_or setting window * 1000000)
            && leb (now' - now) (window_or setting max_age * 1000000)
          else has_recent_reauth lib setting now' token' name' max_age s)
unfolding has_recent_reauth grant_recent_reauth check_ticket is_recent
has_recent_reauth-grant lib setting now now' token token' name name' window max_age s iso given
      named given' named' =
    let h = lib.hash_token token in
    let h' = lib.hash_token token' in
    let ends = now + window_or setting window * 1000000 in
    let ticket : Ticket = record {
      username = name;
      granted_at = lib.datetime.isoformat now;
      expires_at = lib.datetime.isoformat ends;
    } in
    elim (Bool-cases (h == h')) [
      | inl e ↦
          rw
            (
              given,
              named,
              given',
              named',
              lookup-insert h h' ticket s.reauth_tickets,
              e,
              parse_iso_strict_utc-isoformat lib.datetime iso now,
              parse_iso_strict_utc-isoformat lib.datetime iso ends,
            )
            (ground arith)
      | inr e ↦
          rw (given, named, given', named', lookup-insert h h' ticket s.reauth_tickets, e) refl
    ]

-- Where the hash of the token is not empty and the audit row was written: after a logout no request
-- with the token is answered with a user, at any time, and no ticket of the token is honoured.
pub destroy_session-ends :
    (lib : SessionLibrary) (setting : Setting) (token : Text) (s : Sessions) (r : SessionRequest)
    (now : ℕ) (name : String) (max_age : Option ℕ)
    → is_empty (lib.hash_token token) ≡ false
    → r.token ≡ token
    → let s' = (destroy_session lib true token s).0 in
      ((validate_session lib s' r).1 ≡ nobody)
      × (has_recent_reauth lib setting now token name max_age s' ≡ false)
unfolding destroy_session delete_session revoke_reauth_by_hash validate_session check_row
    has_recent_reauth check_ticket
destroy_session-ends lib setting token s r now name max_age given own =
    let h = lib.hash_token token in
    let no_ticket : lookup h (erase h s.reauth_tickets) ≡ none =
      rw (lookup-erase h h s.reauth_tickets, ==_self h) refl in
    let no_row : lookup (lib.hash_token r.token) (erase h s.admin_sessions) ≡ none =
      rw (ap lib.hash_token own, lookup-erase h h s.admin_sessions, ==_self h) refl in
    (rw no_row (ground arith), rw (given, no_ticket) (ground arith))
