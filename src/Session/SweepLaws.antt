-- ===== src/Session/SweepLaws.antt =====
-- What the writes on both tables leave.

use mediaman.Prelude.{
  Bool-cases, Option, [], arith, if◌then◌else◌, inl, inr, leb, list_key, list_same, list_same_iff,
  nat_key, none, refl, some, true, ℕ, ◌∙◌, ◌∷◌, ◌≡◌,
}
use mediaman.Core.TimeLaws.{IsIso}
use mathlib.Core.Path.{subst}
use mediaman.Prelude.Dict.{lookup, Dict, IsDict}
use mediaman.Core.Time.{Text, Datetime, sql_lt}
use mediaman.Session.Store.{
  Session, Ticket, Sessions, stamp_last_used, unexpired_sessions, unexpired_tickets,
  cleanup_expired,
}

-- Each hash has one row.
abbrev pub IsTable : Sessions → Type 0
IsTable s = IsDict s.admin_sessions × IsDict s.reauth_tickets

unfoldable pub kept_session : Text → Option Session → Option Session
kept_session now_iso none = none
kept_session now_iso (some row) = if sql_lt (some row.expires_at) now_iso then none else some row

unfoldable pub kept_ticket : Text → Option Ticket → Option Ticket
kept_ticket now_iso none = none
kept_ticket now_iso (some t) = if sql_lt (some t.expires_at) now_iso then none else some t

lookup-unexpired_sessions :
    (token_hash now_iso : Text) (rows : Dict Text Session)
    → IsDict rows
    → lookup token_hash (unexpired_sessions now_iso rows)
      ≡ kept_session now_iso (lookup token_hash rows)
unfolding lookup unexpired_sessions kept_session
lookup-unexpired_sessions token_hash now_iso [] h = refl
lookup-unexpired_sessions token_hash now_iso ((j, row) ∷ rows) h =
    let rest = lookup-unexpired_sessions token_hash now_iso rows h.1 in
    (elim (Bool-cases (list_same j token_hash)) [
      | inl e ↦
          let gone = subst (λ k. lookup k rows ≡ none) ((list_same_iff j token_hash).0 e) h.0 in
          rw e (ground (arith, rest, gone, e))
      | inr e ↦ rw e (ground (arith, rest, e))
    ])

lookup-unexpired_tickets :
    (token_hash now_iso : Text) (rows : Dict Text Ticket)
    → IsDict rows
    → lookup token_hash (unexpired_tickets now_iso rows)
      ≡ kept_ticket now_iso (lookup token_hash rows)
unfolding lookup unexpired_tickets kept_ticket
lookup-unexpired_tickets token_hash now_iso [] h = refl
lookup-unexpired_tickets token_hash now_iso ((j, row) ∷ rows) h =
    let rest = lookup-unexpired_tickets token_hash now_iso rows h.1 in
    (elim (Bool-cases (list_same j token_hash)) [
      | inl e ↦
          let gone = subst (λ k. lookup k rows ≡ none) ((list_same_iff j token_hash).0 e) h.0 in
          rw e (ground (arith, rest, gone, e))
      | inr e ↦ rw e (ground (arith, rest, e))
    ])

unfoldable pub stamped : Text → Option Session → Option Session
stamped now_iso none = none
stamped now_iso (some row) = some (record row { last_used_at = some now_iso })

pub lookup-stamp_last_used :
    (token_hash now_iso : Text) (rows : Dict Text Session)
    → lookup token_hash (stamp_last_used token_hash now_iso rows)
      ≡ stamped now_iso (lookup token_hash rows)
unfolding lookup stamp_last_used stamped
lookup-stamp_last_used token_hash now_iso [] = refl
lookup-stamp_last_used token_hash now_iso ((j, row) ∷ rows) =
    let rest = lookup-stamp_last_used token_hash now_iso rows in
    (elim (Bool-cases (list_same j token_hash)) [
      | inl e ↦ rw e (ground (arith, e))
      | inr e ↦ rw e (ground (arith, rest, e))
    ])

-- Where `isoformat` keeps its laws, each hash has one row, and the sweep of the tickets does not
-- fail: of a session and a ticket under one hash the sweep keeps each exactly until its own expiry,
-- so that a ticket that ends later outlives its session.
cleanup_expired-apart :
    (lib : Datetime) (now ends ends' : ℕ) (token_hash : Text) (s : Sessions) (row : Session)
    (ticket : Ticket)
    → IsIso lib
    → IsTable s
    → lookup token_hash s.admin_sessions ≡ some row
    → row.expires_at ≡ lib.isoformat ends
    → lookup token_hash s.reauth_tickets ≡ some ticket
    → ticket.expires_at ≡ lib.isoformat ends'
    → let s' = cleanup_expired true (lib.isoformat now) s in
      (lookup token_hash s'.admin_sessions ≡ (if leb now ends then some row else none))
      × (lookup token_hash s'.reauth_tickets ≡ (if leb now ends' then some ticket else none))
unfolding cleanup_expired kept_session kept_ticket
cleanup_expired-apart lib now ends ends' token_hash s row ticket iso tables found expiry found'
      expiry' =
    let now_iso = lib.isoformat now in
    (
      lookup-unexpired_sessions token_hash now_iso s.admin_sessions tables.0
          ∙ rw (found, expiry, iso.ordered now ends) (ground arith),
      lookup-unexpired_tickets token_hash now_iso s.reauth_tickets tables.1
          ∙ rw (found', expiry', iso.ordered now ends') (ground arith),
    )
