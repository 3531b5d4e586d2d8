-- ===== src/Keep/Page.antt =====
-- src/mediaman/web/routes/keep.py and src/mediaman/services/scheduled_actions/_lookup.py: the routes of
-- the keep page that write. A token is its hash and the payload that its signature covers.

use mediaman.Prelude.{
  Bool, Option, String, [], any, contains, false, find, if◌then◌else◌, ltb, nat_key, none, not,
  some, string_key, suc, true, zero, ℕ, ◌&&◌, ◌==◌, ◌∷◌,
}
use mediaman.Scanner.Table.{Action, snoozed_audit, Db, log_audit}
use mediaman.Prelude.Dict.{lookup, Dict}
use mediaman.Core.Time.{Datetime}
use mediaman.Keep.{apply_keep_snooze, apply_keep_forever, is_pending_unexpired}

-- What `validate_keep_token` gives of the token of a request: its item and its action.
pub record KeepRequest : Type 0 where
  pub within_limit : Bool
  pub token_length : ℕ
  pub hashed : String
  pub payload : Option (String × ℕ)
  pub asked : String

-- The answers of the routes: 302 or 200, 400, 409, 429.
pub data Reply : Type 0 where
  kept invalid_or_expired already_processed too_many_requests : Reply

-- `VALID_KEEP_DURATIONS`, without the one that is for ever.
unfoldable pub finite_durations : Dict String ℕ
finite_durations = ("7 days", 7) ∷ ("30 days", 30) ∷ ("90 days", 90) ∷ []

abbrev pub has_hash : String → Option String → Bool
has_hash hashed none = false
has_hash hashed (some h) = h == hashed

-- The join of `lookup_verified_action`.
abbrev pub is_linked : Db → String → Action → Bool
is_linked db hashed a =
    has_hash hashed a.token_hash && any (λ i. i.item_id == a.media_item_id) db.items

abbrev pub check_link : String × ℕ → Option Action → Option Action
check_link (media_id, action_id) none = none
check_link (media_id, action_id) (some a) =
    if a.media_item_id == media_id && a.id == action_id then some a else none

-- `lookup_verified_action`
unfoldable pub lookup_verified_action : Db → String → Option (String × ℕ) → Option Action
lookup_verified_action db hashed none = none
lookup_verified_action db hashed (some p) = check_link p (find (is_linked db hashed) db.actions)

-- `is_keep_token_consumed`
abbrev pub is_keep_token_consumed : Db → String → Bool
is_keep_token_consumed db hashed = contains db.tokens_used hashed

-- `mark_token_consumed`
unfoldable pub mark_token_consumed : Db → String → Db × Bool
mark_token_consumed db hashed =
    if contains db.tokens_used hashed
    then (db, false)
    else (record db { tokens_used = hashed ∷ db.tokens_used }, true)

-- What follows the guarded update, on its row count.
abbrev pub after_update : String → Db × ℕ → Db × Reply
after_update media_id (db, zero) = (db, already_processed)
after_update media_id (db, suc n) = (log_audit db media_id snoozed_audit none, kept)

abbrev pub after_mark : String → (Db → Db × ℕ) → Db × Bool → Db × Reply
after_mark media_id apply (db, false) = (db, already_processed)
after_mark media_id apply (db, true) = after_update media_id (apply db)

-- `_consume_keep_token_and_apply`
unfoldable pub consume_keep_token_and_apply : String → String → (Db → Db × ℕ) → Db → Db × Reply
consume_keep_token_and_apply hashed media_id apply db =
    after_mark media_id apply (mark_token_consumed db hashed)

-- The rest of both routes once the token is looked up, with their update.
unfoldable pub keep_verified :
    Datetime → ℕ → String → (ℕ → Db → Db × ℕ) → Db → Option Action → Db × Reply
keep_verified lib now hashed apply db none = (db, invalid_or_expired)
keep_verified lib now hashed apply db (some a) =
    if is_keep_token_consumed db hashed
    then (db, already_processed)
    else if not (is_pending_unexpired lib a now)
    then (db, invalid_or_expired)
    else consume_keep_token_and_apply hashed a.media_item_id (apply a.id) db

abbrev pub keep_for : Datetime → ℕ → KeepRequest → Db → Option ℕ → Db × Reply
keep_for lib now r db none = (db, invalid_or_expired)
keep_for lib now r db (some days) =
    keep_verified lib now r.hashed (λ id d. apply_keep_snooze lib d id r.asked days now) db
      (lookup_verified_action db r.hashed r.payload)

-- `keep_submit`
unfoldable pub keep_submit : Datetime → ℕ → KeepRequest → Db → Db × Reply
keep_submit lib now r db =
    let kept_for = keep_for lib now r db (lookup r.asked finite_durations) in
    if not r.within_limit
    then (db, too_many_requests)
    else if ltb 4096 r.token_length
    then (db, invalid_or_expired)
    else kept_for

-- `keep_forever`, of an administrator.
unfoldable pub keep_forever : Datetime → ℕ → KeepRequest → Db → Db × Reply
keep_forever lib now r db =
    if not r.within_limit
    then (db, too_many_requests)
    else if ltb 4096 r.token_length
    then (db, invalid_or_expired)
    else keep_verified lib now r.hashed (λ id d. apply_keep_forever lib d id now) db
        (lookup_verified_action db r.hashed r.payload)

-- A visit of one of the two routes.
pub record Visit : Type 0 where
  pub forever : Bool
  pub arrived_at : ℕ
  pub request : KeepRequest

unfoldable pub answer_visit : Datetime → Visit → Db → Db × Reply
answer_visit lib v db =
    if v.forever
    then keep_forever lib v.arrived_at v.request db
    else keep_submit lib v.arrived_at v.request db

abbrev pub is_kept : Reply → Bool
is_kept kept = true
is_kept invalid_or_expired = false
is_kept already_processed = false
is_kept too_many_requests = false
