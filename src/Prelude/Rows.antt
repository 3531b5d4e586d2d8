-- ===== src/Prelude/Rows.antt =====
-- Database tables as lists of rows: what `UPDATE ... WHERE`, `DELETE ... WHERE` and
-- `SELECT ... LIMIT 1` do to them.
use Prim.Native.Nat.{ℕ, suc}
use mathlib.Core.Bool.{Bool}
use mathlib.Core.Option.{Option, none, some}
use mathlib.Core.List.{List, [], ◌∷◌}
use mathlib.Core.Path.{◌≡◌, refl}
use mathlib.Core.Logic.{inl, inr}
use mediaman.Prelude.Tests.{if◌then◌else◌, Bool-cases}

module _ {ℓ} {A : Type ℓ} where
  -- `UPDATE t SET f WHERE p`
  unfoldable pub update_where : (A → Bool) → (A → A) → List A → List A
  update_where p f [] = []
  update_where p f (r ∷ rows) =
      if p r then f r ∷ update_where p f rows else r ∷ update_where p f rows

  -- `DELETE FROM t WHERE p`
  unfoldable pub delete_where : (A → Bool) → List A → List A
  delete_where p [] = []
  delete_where p (r ∷ rows) = if p r then delete_where p rows else r ∷ delete_where p rows

  -- `SELECT * FROM t WHERE p LIMIT 1`
  unfoldable pub find : (A → Bool) → List A → Option A
  find p [] = none
  find p (r ∷ rows) = if p r then some r else find p rows

  -- `SELECT COUNT(*) FROM t WHERE p`, and the `rowcount` of an `UPDATE` or `DELETE`
  unfoldable pub count_where : (A → Bool) → List A → ℕ
  count_where p [] = 0
  count_where p (r ∷ rows) = if p r then suc (count_where p rows) else count_where p rows

  -- What a filter drops does not depend on an update that the filter does not see.
  pub delete_where-update_where :
      (p : A → Bool) (f : A → A) (rows : List A)
      → ((r : A) → p (f r) ≡ p r)
      → delete_where p (update_where p f rows) ≡ delete_where p rows
  unfolding update_where delete_where
  delete_where-update_where p f [] h = refl
  delete_where-update_where p f (r ∷ rows) h = elim (Bool-cases (p r)) [
    | inl yes' ↦ rw (yes', h r, yes') (delete_where-update_where p f rows h)
    | inr no' ↦ rw (no', no', delete_where-update_where p f rows h)
  ]

  -- The second of two updates wins, where it overwrites what the first wrote.
  pub update_where_twice :
      (p : A → Bool) (f g : A → A) (rows : List A)
      → ((r : A) → p (f r) ≡ p r)
      → ((r : A) → g (f r) ≡ g r)
      → update_where p g (update_where p f rows) ≡ update_where p g rows
  unfolding update_where
  update_where_twice p f g [] h k = refl
  update_where_twice p f g (r ∷ rows) h k = elim (Bool-cases (p r)) [
    | inl yes' ↦ rw (yes', h r, yes', k r, update_where_twice p f g rows h k)
    | inr no' ↦ rw (no', no', update_where_twice p f g rows h k)
  ]
