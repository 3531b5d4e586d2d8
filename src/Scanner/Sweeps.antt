-- ===== src/Scanner/Sweeps.antt =====
-- The sweeps of expired snoozes in `_protection.py` change no answer at the instant they are run.

use mediaman.Prelude.{
  Bool, Bool-cases, List, Option, String, [], any, arith, count_where, delete_where, false, find,
  inl, inr, length, none, refl, some, string_key, true, ◌&&◌, ◌+◌, ◌==◌, ◌∷◌, ◌≡◌,
}
use mediaman.Scanner.Table.{is_snoozed, KeptShow, Db, is_open_deletion}
use mediaman.Scanner.Batches.{DistinctShows, found_kept}
use mediaman.Scanner.Protection.{
  protects, lapsed, is_protected, is_already_scheduled, has_expired_snooze, is_show_kept_pure,
  cleanup_expired_show_snoozes, swept_snooze, cleanup_expired_snoozes,
}
use mediaman.Core.Time.{Text}

any-delete_where {ℓ} :
    {A : Type ℓ} (p q : A → Bool) (rows : List A)
    → ((r : A) → q r ≡ true → p r ≡ false)
    → any p (delete_where q rows) ≡ any p rows
unfolding delete_where
any-delete_where p q [] h = refl
any-delete_where p q (r ∷ rows) h = ground (arith, h r, any-delete_where p q rows h)

-- The sweep of expired snoozes changes neither which items are protected, nor which are scheduled,
-- nor which come back after a snooze that was used.
pub cleanup_expired_snoozes_unseen :
    (db : Db) (now_iso : Text) (m : String)
    → (is_protected (cleanup_expired_snoozes db now_iso) now_iso m ≡ is_protected db now_iso m)
      × (is_already_scheduled (cleanup_expired_snoozes db now_iso) m ≡ is_already_scheduled db m)
      × (has_expired_snooze (cleanup_expired_snoozes db now_iso) m ≡ has_expired_snooze db m)
unfolding is_protected is_already_scheduled has_expired_snooze cleanup_expired_snoozes
cleanup_expired_snoozes_unseen db now_iso m = (
  any-delete_where (λ a. a.media_item_id == m && protects now_iso a) (swept_snooze now_iso)
      db.actions (λ a h. ground arith),
  any-delete_where (λ a. a.media_item_id == m && is_open_deletion a) (swept_snooze now_iso)
      db.actions (λ a h. ground arith),
  any-delete_where (λ a. a.media_item_id == m && (is_snoozed a.action && a.token_used))
      (swept_snooze now_iso) db.actions (λ a h. ground arith),
)

find-delete_lapsed :
    (now_iso : Text) (key : String) (shows : List KeptShow)
    → DistinctShows shows
    → found_kept now_iso
        (find (λ k. k.show_rating_key == key) (delete_where (lapsed now_iso) shows))
      ≡ found_kept now_iso (find (λ k. k.show_rating_key == key) shows)
unfolding find delete_where
find-delete_lapsed now_iso key [] d = refl
find-delete_lapsed now_iso key (k ∷ shows) d = elim (Bool-cases (lapsed now_iso k)) [
  | inl gone ↦ elim (Bool-cases (k.show_rating_key == key)) [
    | inl here ↦ ground (
      arith,
      gone,
      here,
      find-delete_lapsed now_iso key shows d.1,
      subst_none k.show_rating_key key shows here d.0,
    )
    | inr other ↦ ground (arith, gone, other, find-delete_lapsed now_iso key shows d.1)
  ]
  | inr stays ↦ ground (arith, stays, find-delete_lapsed now_iso key shows d.1)
]
  where
    subst_none :
        (j key : String) (shows : List KeptShow)
        → (j == key) ≡ true
        → find (λ k. k.show_rating_key == j) shows ≡ none
        → find (λ k. k.show_rating_key == key) shows ≡ none
    subst_none j key shows e h = rw (← (string_key.same_iff j key).0 e) h

any-lapsed-delete :
    (now_iso : Text) (shows : List KeptShow)
    → any (lapsed now_iso) (delete_where (lapsed now_iso) shows) ≡ false
unfolding delete_where
any-lapsed-delete now_iso [] = refl
any-lapsed-delete now_iso (k ∷ shows) = ground (arith, any-lapsed-delete now_iso shows)

count-delete :
    (now_iso : Text) (shows : List KeptShow)
    → length (delete_where (lapsed now_iso) shows) + count_where (lapsed now_iso) shows
      ≡ length shows
unfolding delete_where count_where
count-delete now_iso [] = refl
count-delete now_iso (k ∷ shows) = ground (arith, count-delete now_iso shows)

-- Where no show has two rows, the sweep of lapsed show keeps leaves none behind, returns how many it removed, and changes the
-- answer for no show.
pub cleanup_expired_show_snoozes_unseen :
    (db : Db) (now_iso : Text) (key : Option String)
    → DistinctShows db.kept_shows
    → let (swept, removed) = cleanup_expired_show_snoozes db now_iso in
      (is_show_kept_pure swept key now_iso ≡ is_show_kept_pure db key now_iso)
      × (any (lapsed now_iso) swept.kept_shows ≡ false)
      × (length swept.kept_shows + removed ≡ length db.kept_shows)
unfolding is_show_kept_pure cleanup_expired_show_snoozes
cleanup_expired_show_snoozes_unseen db now_iso none d =
    (refl, any-lapsed-delete now_iso db.kept_shows, count-delete now_iso db.kept_shows)
cleanup_expired_show_snoozes_unseen db now_iso (some key) d = (
  ground (arith, find-delete_lapsed now_iso key db.kept_shows d),
  any-lapsed-delete now_iso db.kept_shows,
  count-delete now_iso db.kept_shows,
)
