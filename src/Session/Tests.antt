-- ===== src/Session/Tests.antt =====
-- A session and a ticket at concrete instants.

use mediaman.Prelude.{
  List, [], arith, false, list_key, map, nat_key, none, refl, some, suc, true, zero, ℕ, ◌+◌, ◌∷◌,
  ◌≡◌,
}
use mediaman.Prelude.Dict.{insert, lookup}
use mediaman.Session.Fingerprint.{loose}
use mediaman.Core.Time.{Text}
use mediaman.Core.TimeLaws.{one_code, one_code-IsIso}
use mediaman.Session.Store.{Session, Ticket, Sessions}
use mediaman.Session.Run.{answers, IsOwn, due_answer, create_session-answers}
use mediaman.Session.TicketLaws.{has_recent_reauth-grant, destroy_session-ends}
use mediaman.Session.Reauth.{
  unset, reauth_window_seconds, window_or, grant_recent_reauth, has_recent_reauth,
}
use mediaman.Session.Validate.{
  nobody, user, SessionLibrary, hard_expiry, is_hex, all_hex, is_session_token, new_session,
  create_session, SessionRequest, validate_session, destroy_session,
}

abbrev example_library : SessionLibrary
example_library = record {
  datetime = one_code;
  hash_token = λ s. s;
  client = record { sha256_hex = λ s. s; ip_address = λ s. none };
  mode = loose;
}

abbrev empty_sessions : Sessions
empty_sessions = record { admin_sessions = []; reauth_tickets = []; last_cleanup_at = 0 }

unfoldable repeat : ℕ → Text
repeat zero = []
repeat (suc n) = b'a' ∷ repeat n

abbrev example_token : Text
example_token = repeat 64

abbrev mozilla : Text
mozilla = b'M' ∷ []

abbrev address : Text
address = b'1' ∷ []

abbrev request_at : ℕ → SessionRequest
request_at now = record {
  token = example_token;
  now = now;
  monotonic = now;
  monotonic_after = now;
  user_agent = some mozilla;
  client_ip = some address;
  request_supplied = none;
  deletes = true;
  refreshes = true;
  sweeps = true;
  sweeps_tickets = true;
}

abbrev example_session : Session
example_session = new_session example_library 5 "anna" mozilla address none

abbrev with_session : Sessions
with_session = record {
  admin_sessions = (example_token, example_session) ∷ [];
  reauth_tickets = [];
  last_cleanup_at = 0;
}

abbrev three_requests : List SessionRequest
three_requests = request_at 7 ∷ request_at 80000000000 ∷ request_at 90000000000 ∷ []

-- The first two come within the day.
three_requests-due :
    map (due_answer "anna" (5 + hard_expiry)) three_requests
    ≡ user "anna" ∷ user "anna" ∷ nobody ∷ []
three_requests-due = refl

request_at-IsOwn : (now : ℕ) → IsOwn example_token mozilla address (request_at now)
request_at-IsOwn now = record {
  token_own = refl;
  agent_own = refl;
  ip_own = refl;
  inferred = refl;
  works = refl;
}

create_session-answers_example :
    answers example_library with_session three_requests
    ≡ map (due_answer "anna" (5 + hard_expiry)) three_requests
unfolding is_session_token all_hex is_hex repeat create_session lookup insert
create_session-answers_example =
    create_session-answers example_library one_code-IsIso example_token "anna" mozilla address 5
      refl empty_sessions with_session three_requests refl
      (request_at-IsOwn 7, (request_at-IsOwn 80000000000, (request_at-IsOwn 90000000000, tt)))
      (omega arith, (omega arith, (omega arith, tt)))

has_recent_reauth-grant_example :
    has_recent_reauth example_library unset 100 example_token "anna" none
      (grant_recent_reauth example_library unset 5 example_token "anna" none with_session)
    ≡ true
unfolding repeat window_or reauth_window_seconds
has_recent_reauth-grant_example =
    has_recent_reauth-grant example_library unset 5 100 example_token example_token "anna" "anna"
      none none with_session one_code-IsIso refl refl refl refl

destroy_session-ends_example :
    let s' = (destroy_session example_library true example_token with_session).0 in
    ((validate_session example_library s' (request_at 7)).1 ≡ nobody)
    × (has_recent_reauth example_library unset 7 example_token "anna" none s' ≡ false)
unfolding repeat
destroy_session-ends_example =
    destroy_session-ends example_library unset example_token with_session (request_at 7) 7 "anna"
      none refl refl

abbrev example_ticket : Ticket
example_ticket = record {
  username = "anna";
  granted_at = one_code.isoformat 86400000000;
  expires_at = one_code.isoformat 86700000000;
}

abbrev with_ticket : Sessions
with_ticket = record {
  admin_sessions = (example_token, example_session) ∷ [];
  reauth_tickets = (example_token, example_ticket) ∷ [];
  last_cleanup_at = 0;
}
