-- ===== src/Session/Run.antt =====
-- The answers to all requests of a client, from the creation of its session on.

use mediaman.Prelude.{
  ==_self, Bool, Bool-cases, List, String, [], ap, arith, false, if◌then◌else◌, inl, inr, is_empty,
  leb, list_key, map, nat_key, none, not, refl, some, sym, true, ℕ, ◌&&◌, ◌+◌, ◌<◌, ◌∷◌, ◌≡◌, ◌≤◌,
  ◌⊎◌,
}
use mathlib.Core.Path.{subst}
use mediaman.Prelude.Dict.{insert, lookup-insert, lookup, lookup-erase}
use mediaman.Core.Time.{parse_iso_strict_utc, Text}
use mediaman.Core.TimeLaws.{parse_iso_strict_utc-isoformat, IsIso}
use mediaman.Session.Life.{validate_session-IsAlive, IsAlive}
use mediaman.Session.Store.{Session, Sessions, delete_session, try_delete_session}
use mediaman.Session.Fingerprint.{is_off, client_fingerprint}
use mediaman.Session.Validate.{
  user, new_session, SessionAnswer, is_expired, nobody, differs, SessionLibrary, hard_expiry,
  is_session_token, create_session, SessionRequest, is_supplied, is_mismatch, is_refused, check_row,
  validate_session,
}

-- The row of a token is gone, or has that expiry.
abbrev pub IsGone : SessionLibrary → Text → ℕ → Sessions → Type 0
IsGone lib token ends s =
    (lookup (lib.hash_token token) s.admin_sessions ≡ none)
    ⊎ ((row : Session) × (lookup (lib.hash_token token) s.admin_sessions ≡ some row)
        × (row.expires_at ≡ lib.datetime.isoformat ends))

try_delete_session-IsGone :
    (lib : SessionLibrary) (token : Text) (ends : ℕ) (writable : Bool) (s : Sessions)
    → IsGone lib token ends s
    → IsGone lib token ends (try_delete_session writable (lib.hash_token token) s)
unfolding try_delete_session delete_session
try_delete_session-IsGone lib token ends true s gone =
    let h = lib.hash_token token in inl (rw (lookup-erase h h s.admin_sessions, ==_self h) refl)
try_delete_session-IsGone lib token ends false s gone = gone

-- A request after the end.
validate_session-IsGone :
    (lib : SessionLibrary) (ends : ℕ) (r : SessionRequest) (s : Sessions)
    → IsIso lib.datetime
    → ends < r.now
    → IsGone lib r.token ends s
    → ((validate_session lib s r).1 ≡ nobody) × IsGone lib r.token ends (validate_session lib s r).0
unfolding validate_session check_row is_refused is_expired
validate_session-IsGone lib ends r s iso late gone =
    let deleted = try_delete_session-IsGone lib r.token ends r.deletes s gone in
    elim (Bool-cases (is_session_token r.token)) [
      | inr e ↦ rw e (refl, gone)
      | inl e ↦ elim (gone) [
        | inl missing ↦ rw (e, missing) (refl, inl missing)
        | inr (row, found, expiry) ↦
            let refused : is_expired r.now (parse_iso_strict_utc lib.datetime (some row.expires_at))
                ≡ true =
              rw (expiry, parse_iso_strict_utc-isoformat lib.datetime iso ends)
                (ground (arith, late)) in
            rw (e, found, refused) (refl, deleted)
      ]
    ]

-- A request of the client that a session was created for, with a sweep that does not fail.
pub record IsOwn (token user_agent client_ip : Text) (r : SessionRequest) : Type 0 where
  pub token_own : r.token ≡ token
  pub agent_own : r.user_agent ≡ some user_agent
  pub ip_own : r.client_ip ≡ some client_ip
  pub inferred : r.request_supplied ≡ none
  pub works : r.sweeps ≡ true

abbrev print_of : SessionLibrary → Text → Text → Text
print_of lib user_agent client_ip =
    if not (is_off lib.mode) && not (is_empty user_agent && is_empty client_ip)
    then client_fingerprint lib.client lib.mode user_agent client_ip
    else []

IsOwn-is_mismatch :
    (lib : SessionLibrary) (token user_agent client_ip : Text) (r : SessionRequest)
    → IsOwn token user_agent client_ip r
    → is_mismatch lib r (print_of lib user_agent client_ip) ≡ false
unfolding is_mismatch is_supplied differs
IsOwn-is_mismatch lib token user_agent client_ip r own =
    rw (own.agent_own, own.ip_own, own.inferred) ground
      (arith, ==_self (client_fingerprint lib.client lib.mode user_agent client_ip))

create_session-rows :
    (lib : SessionLibrary) (now : ℕ) (token : Text) (name : String) (user_agent client_ip : Text)
    (s s' : Sessions)
    → create_session lib now token name user_agent client_ip none s ≡ some s'
    → s'.admin_sessions
      ≡ insert
          (lib.hash_token token)
          (new_session lib now name user_agent client_ip none)
          s.admin_sessions
unfolding create_session
create_session-rows lib now token name user_agent client_ip s s' h = ground (arith, h)

create_session-IsAlive :
    (lib : SessionLibrary) (now : ℕ) (token : Text) (name : String) (user_agent client_ip : Text)
    (s s' : Sessions)
    → create_session lib now token name user_agent client_ip none s ≡ some s'
    → IsAlive lib token name (print_of lib user_agent client_ip) (now + hard_expiry) now s'
create_session-IsAlive lib now token name user_agent client_ip s s' h =
    let row = new_session lib now name user_agent client_ip none in
    let token_hash = lib.hash_token token in
    let rows = create_session-rows lib now token name user_agent client_ip s s' h in
    record {
      row = row;
      found =
          rw (rows, lookup-insert token_hash token_hash row s.admin_sessions, ==_self token_hash)
            refl;
      named = unfold new_session in refl;
      print = unfold new_session in refl;
      expiry = unfold new_session in refl;
      used = unfold new_session in refl;
    }

unfoldable pub answers : SessionLibrary → Sessions → List SessionRequest → List SessionAnswer
answers lib s [] = []
answers lib s (r ∷ rs) = let x = validate_session lib s r in x.1 ∷ answers lib x.0 rs

-- The clocks of the requests go on.
abbrev pub AreTimed : ℕ → List SessionRequest → Type 0
AreTimed clock [] = Unit
AreTimed clock (r ∷ rs) = (clock ≤ r.now) × AreTimed r.now rs

abbrev pub AreOwn : Text → Text → Text → List SessionRequest → Type 0
AreOwn token user_agent client_ip [] = Unit
AreOwn token user_agent client_ip (r ∷ rs) =
    IsOwn token user_agent client_ip r × AreOwn token user_agent client_ip rs

AreTimed-earlier :
    (clock' clock : ℕ) (rs : List SessionRequest)
    → clock' ≤ clock
    → AreTimed clock rs
    → AreTimed clock' rs
AreTimed-earlier clock' clock [] h timed = tt
AreTimed-earlier clock' clock (r ∷ rs) h timed = (omega (arith, h, timed.0), timed.1)

-- The user until the end, and nobody after it.
abbrev pub due_answer : String → ℕ → SessionRequest → SessionAnswer
due_answer name ends r = if leb r.now ends then user name else nobody

module _ (lib : SessionLibrary) (iso : IsIso lib.datetime) (token : Text) (name : String)
    (user_agent client_ip : Text) (start : ℕ) (form : is_session_token token ≡ true) where
  answers-gone :
      (s : Sessions) (clock : ℕ) (rs : List SessionRequest)
      → start + hard_expiry < clock
      → IsGone lib token (start + hard_expiry) s
      → AreOwn token user_agent client_ip rs
      → AreTimed clock rs
      → answers lib s rs ≡ map (due_answer name (start + hard_expiry)) rs
  unfolding answers
  answers-gone s clock [] late gone own timed = refl
  answers-gone s clock (r ∷ rs) late gone own timed =
      (let ends = start + hard_expiry in
        let late' : ends < r.now = omega (arith, late, timed.0) in
        let next =
          validate_session-IsGone lib ends r s iso late'
            (subst (λ t. IsGone lib t ends s) (sym own.0.token_own) gone) in
        let s' = (validate_session lib s r).0 in
        let gone' = subst (λ t. IsGone lib t ends s') own.0.token_own next.1 in
        let due : due_answer name ends r ≡ nobody = ground (arith, late') in
        rw (next.0, due)
          (ap (λ l. nobody ∷ l) (answers-gone s' r.now rs late' gone' own.1 timed.1)))

  answers-alive :
      (s : Sessions) (last : ℕ) (rs : List SessionRequest)
      → start ≤ last
      → IsAlive lib token name (print_of lib user_agent client_ip) (start + hard_expiry) last s
      → AreOwn token user_agent client_ip rs
      → AreTimed last rs
      → answers lib s rs ≡ map (due_answer name (start + hard_expiry)) rs
  unfolding answers
  answers-alive s last [] since alive own timed = refl
  answers-alive s last (r ∷ rs) since alive own timed =
      (let ends = start + hard_expiry in
        let print = print_of lib user_agent client_ip in
        let s' = (validate_session lib s r).0 in
        elim (Bool-cases (leb r.now ends)) [
          | inl e ↦
              let early : r.now ≤ ends = ground (arith, e) in
              let next =
                validate_session-IsAlive lib iso name print ends r last s (rw own.0.token_own form)
                  early timed.0 (omega (arith, early, since))
                  (IsOwn-is_mismatch lib token user_agent client_ip r own.0) own.0.works
                  (subst (λ t. IsAlive lib t name print ends last s) (sym own.0.token_own) alive) in
              let alive' =
                subst (λ t. IsAlive lib t name print ends next.0 s') own.0.token_own next.3 in
              rw (e, next.4)
                (ap (λ l. user name ∷ l)
                  (answers-alive s' next.0 rs (omega (arith, since, next.1)) alive' own.1
                    (AreTimed-earlier next.0 r.now rs next.2 timed.1)))
          | inr e ↦
              let late : ends < r.now = ground (arith, e) in
              let gone : IsGone lib token ends s = inr (alive.row, alive.found, alive.expiry) in
              answers-gone s r.now (r ∷ rs) late gone own (omega arith, timed.1)
        ])

  -- Where `isoformat` keeps its laws and the token has the form of one: a session is created without
  -- a lifetime of its own, and whatever requests its client makes afterwards (with its token, its
  -- user agent and its address), in the order of time and with sweeps that do not fail, each is
  -- answered with the user up to one day after the creation, and with nobody from then on.
  pub create_session-answers :
      (s s' : Sessions) (rs : List SessionRequest)
      → create_session lib start token name user_agent client_ip none s ≡ some s'
      → AreOwn token user_agent client_ip rs
      → AreTimed start rs
      → answers lib s' rs ≡ map (due_answer name (start + hard_expiry)) rs
  create_session-answers s s' rs created own timed =
      answers-alive s' start rs (omega arith)
        (create_session-IsAlive lib start token name user_agent client_ip s s' created) own timed
