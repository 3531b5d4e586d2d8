-- ===== src/Keep/PageLaws.antt =====
-- A token of the keep page counts once.

use mediaman.Prelude.{
  ==_self, Bool, Bool-cases, List, Option, String, [], arith, contains, false, if◌then◌else◌, inl,
  inr, ltb, none, not, refl, some, string_key, suc, sym, true, zero, ℕ, ◌&&◌, ◌+◌, ◌==◌, ◌∷◌, ◌≡◌,
  ◌≤◌,
}
use mathlib.Core.Path.{subst}
use mediaman.Prelude.Dict.{lookup}
use mediaman.Scanner.Table.{Action, Db, log_audit}
use mediaman.Keep.Page.{
  Reply, invalid_or_expired, already_processed, too_many_requests, finite_durations,
  lookup_verified_action, mark_token_consumed, after_update, consume_keep_token_and_apply,
  keep_verified, keep_for, keep_submit, keep_forever, Visit, is_kept, answer_visit, KeepRequest,
}
use mediaman.Core.Time.{Datetime}
use mediaman.Keep.{apply_keep_snooze, apply_keep_forever, is_pending_unexpired}

-- An outcome on a token: no record of a token is lost, and what keeps records its token, which was
-- not there before.
record IsRecorded (hashed : String) (db : Db) (out : Db × Reply) : Type 0 where
  grows : (x : String) → contains db.tokens_used x ≡ true → contains out.0.tokens_used x ≡ true
  fresh : is_kept out.1 ≡ true → contains db.tokens_used hashed ≡ false
  recorded : is_kept out.1 ≡ true → contains out.0.tokens_used hashed ≡ true

turned_away :
    (hashed : String) (db : Db) (reply : Reply)
    → is_kept reply ≡ false
    → IsRecorded hashed db (db, reply)
turned_away hashed db reply e = record {
  grows = λ x h. h;
  fresh = λ h. absurd (ground (arith, e, h));
  recorded = λ h. absurd (ground (arith, e, h));
}

-- An update that leaves the record of tokens alone.
abbrev Frames : (Db → Db × ℕ) → Type 0
Frames apply = (d : Db) → (apply d).0.tokens_used ≡ d.tokens_used

after_update-tokens :
    (media_id : String) (out : Db × ℕ)
    → (after_update media_id out).0.tokens_used ≡ out.0.tokens_used
unfolding log_audit
after_update-tokens media_id (db, zero) = refl
after_update-tokens media_id (db, suc n) = refl

consume-IsRecorded :
    (hashed media_id : String) (apply : Db → Db × ℕ) (db : Db)
    → Frames apply
    → IsRecorded hashed db (consume_keep_token_and_apply hashed media_id apply db)
unfolding consume_keep_token_and_apply mark_token_consumed
consume-IsRecorded hashed media_id apply db frame =
    elim (Bool-cases (contains db.tokens_used hashed)) [
      | inl used ↦ simp used (turned_away hashed db already_processed refl)
      | inr unused ↦
          let marked = record db { tokens_used = hashed ∷ db.tokens_used } in
          let same : (after_update media_id (apply marked)).0.tokens_used
              ≡ hashed ∷ db.tokens_used =
            rw (after_update-tokens media_id (apply marked)) (frame marked) in
          simp unused (record {
            grows = λ x h. rw same (ground (arith, h));
            fresh = λ h. unused;
            recorded = λ h. rw same (ground (arith, ==_self hashed));
          })
    ]

keep_verified-IsRecorded :
    (lib : Datetime) (now : ℕ) (hashed : String) (apply : ℕ → Db → Db × ℕ) (db : Db)
    (found : Option Action)
    → ((id : ℕ) → Frames (apply id))
    → IsRecorded hashed db (keep_verified lib now hashed apply db found)
unfolding keep_verified
keep_verified-IsRecorded lib now hashed apply db none frame =
    turned_away hashed db invalid_or_expired refl
keep_verified-IsRecorded lib now hashed apply db (some a) frame =
    elim (Bool-cases (contains db.tokens_used hashed)) [
      | inl used ↦ rw used (turned_away hashed db already_processed refl)
      | inr unused ↦ elim (Bool-cases (is_pending_unexpired lib a now)) [
        | inl pending ↦
            rw (unused, pending)
              (consume-IsRecorded hashed a.media_item_id (apply a.id) db (frame a.id))
        | inr past ↦ rw (unused, past) (turned_away hashed db invalid_or_expired refl)
      ]
    ]

guarded-IsRecorded :
    (hashed : String) (db : Db) (admitted long : Bool) (out : Db × Reply)
    → IsRecorded hashed db out
    → IsRecorded hashed db (
        if not admitted
        then (db, too_many_requests)
        else if long
        then (db, invalid_or_expired)
        else out)
guarded-IsRecorded hashed db false long out h = turned_away hashed db too_many_requests refl
guarded-IsRecorded hashed db true true out h = turned_away hashed db invalid_or_expired refl
guarded-IsRecorded hashed db true false out h = h

keep_for-IsRecorded :
    (lib : Datetime) (now : ℕ) (r : KeepRequest) (db : Db) (days : Option ℕ)
    → IsRecorded r.hashed db (keep_for lib now r db days)
unfolding apply_keep_snooze
keep_for-IsRecorded lib now r db none = turned_away r.hashed db invalid_or_expired refl
keep_for-IsRecorded lib now r db (some days) =
    keep_verified-IsRecorded lib now r.hashed (λ id d. apply_keep_snooze lib d id r.asked days now)
      db (lookup_verified_action db r.hashed r.payload) (λ id d. refl)

answer_visit-IsRecorded :
    (lib : Datetime) (v : Visit) (db : Db) → IsRecorded v.request.hashed db (answer_visit lib v db)
unfolding answer_visit keep_submit keep_forever apply_keep_forever
answer_visit-IsRecorded lib v db = elim (Bool-cases v.forever) [
  | inl always ↦ rw always (
      guarded-IsRecorded v.request.hashed db v.request.within_limit
        (ltb 4096 v.request.token_length) _
        (keep_verified-IsRecorded lib v.arrived_at v.request.hashed
          (λ id d. apply_keep_forever lib d id v.arrived_at) db
          (lookup_verified_action db v.request.hashed v.request.payload) (λ id d. refl)))
  | inr some_days ↦ rw some_days (
      guarded-IsRecorded v.request.hashed db v.request.within_limit
        (ltb 4096 v.request.token_length) _
        (keep_for-IsRecorded lib v.arrived_at v.request db
          (lookup v.request.asked finite_durations)))
]

-- How many visits with a token are answered by a keep.
unfoldable pub count_kept : Datetime → String → List Visit → Db → ℕ
count_kept lib hashed [] db = 0
count_kept lib hashed (v ∷ visits) db =
    let (db', reply) = answer_visit lib v db in
    let rest = count_kept lib hashed visits db' in
    if v.request.hashed == hashed && is_kept reply then 1 + rest else rest

spent_token :
    (lib : Datetime) (hashed : String) (visits : List Visit) (db : Db)
    → contains db.tokens_used hashed ≡ true
    → count_kept lib hashed visits db ≡ 0
unfolding count_kept
spent_token lib hashed [] db h = refl
spent_token lib hashed (v ∷ visits) db h =
    let step = answer_visit-IsRecorded lib v db in
    let later = spent_token lib hashed visits (answer_visit lib v db).0 (step.grows hashed h) in
    elim (Bool-cases (v.request.hashed == hashed)) [
      | inr other ↦ simp other later
      | inl same ↦
          let again : contains db.tokens_used v.request.hashed ≡ true =
            subst (λ x. contains db.tokens_used x ≡ true)
              (sym ((string_key.same_iff v.request.hashed hashed).0 same)) h in
          elim (Bool-cases (is_kept (answer_visit lib v db).1)) [
            | inl counted ↦ absurd (ground (arith, step.fresh counted, again))
            | inr refused ↦ simp (same, refused) later
          ]
    ]

-- However often the two routes of the keep page are visited with one token, at whatever instants and
-- in whatever order with visits with other tokens, at most one of the visits is answered by a keep,
-- and none once the token is recorded.
pub answer_visit-once :
    (lib : Datetime) (hashed : String) (visits : List Visit) (db : Db)
    → (count_kept lib hashed visits db ≤ 1)
      × (contains db.tokens_used hashed ≡ true → count_kept lib hashed visits db ≡ 0)
unfolding count_kept
answer_visit-once lib hashed [] db = (omega arith, λ h. refl)
answer_visit-once lib hashed (v ∷ visits) db =
    let step = answer_visit-IsRecorded lib v db in
    let later = answer_visit-once lib hashed visits (answer_visit lib v db).0 in
    let most : count_kept lib hashed (v ∷ visits) db ≤ 1 =
      elim (Bool-cases (v.request.hashed == hashed)) [
        | inr other ↦ simp other later.0
        | inl same ↦ elim (Bool-cases (is_kept (answer_visit lib v db).1)) [
          | inr refused ↦ simp (same, refused) later.0
          | inl counted ↦
              let now_there : contains (answer_visit lib v db).0.tokens_used hashed ≡ true =
                subst (λ x. contains (answer_visit lib v db).0.tokens_used x ≡ true)
                  ((string_key.same_iff v.request.hashed hashed).0 same) (step.recorded counted) in
              simp (same, counted, later.1 now_there) (omega arith)
        ]
      ] in
    (most, spent_token lib hashed (v ∷ visits) db)
