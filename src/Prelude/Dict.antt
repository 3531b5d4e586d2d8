-- ===== src/Prelude/Dict.antt =====
-- A Python dict as an association list in insertion order: `d.get(k)`, `d[k] = v`, `d.pop(k, None)`
-- and an `OrderedDict`'s `move_to_end` and `popitem(last=False)`.
use Prim.Native.Nat.{◌+◌, ◌≤◌, ◌<◌}
use mathlib.Core.Path.{◌≡◌, refl, ◌∙◌}
use mathlib.Core.Logic.{◌≢◌, inl, inr}
use mathlib.Core.Bool.{false}
use mathlib.Core.Option.{Option, none, some}
use mathlib.Core.List.{List, [], ◌∷◌, ◌++◌}
use native.Mathlib.Omega.{arith}
use mediaman.Prelude.Tests.{if◌then◌else◌, Bool-cases, Option-cases}
use mediaman.Prelude.Keys.{Key, ◌==◌}
use mediaman.Prelude.Lists.{length, length-append}

abbrev pub Dict {ℓ κ} : Type ℓ → Type κ → Type (ℓ ⊔ κ)
Dict K V = List (K × V)

module _ {ℓ κ} {K : Type ℓ} {V : Type κ} ⦃e : Key K⦄ where
  unfoldable pub lookup : K → Dict K V → Option V
  lookup k [] = none
  lookup k ((j, v) ∷ d) = if j == k then some v else lookup k d

  unfoldable pub insert : K → V → Dict K V → Dict K V
  insert k v [] = (k, v) ∷ []
  insert k v ((j, w) ∷ d) = if j == k then (j, v) ∷ d else (j, w) ∷ insert k v d

  -- Keys are unique, so that every entry of `k` is the entry of `k`.
  unfoldable pub erase : K → Dict K V → Dict K V
  erase k [] = []
  erase k ((j, v) ∷ d) = if j == k then erase k d else (j, v) ∷ erase k d

  pub lookup-insert :
      (k j : K) (v : V) (d : Dict K V)
      → lookup j (insert k v d) ≡ (if k == j then some v else lookup j d)
  unfolding lookup insert
  lookup-insert k j v [] = refl
  lookup-insert k j v ((i, w) ∷ d) =
      ground (arith, e.same_iff k j, e.same_iff i k, e.same_iff i j, lookup-insert k j v d)

  pub lookup-erase :
      (k j : K) (d : Dict K V) → lookup j (erase k d) ≡ (if k == j then none else lookup j d)
  unfolding lookup erase
  lookup-erase k j [] = ground arith
  lookup-erase k j ((i, w) ∷ d) =
      ground (arith, e.same_iff k j, e.same_iff i k, e.same_iff i j, lookup-erase k j d)

  -- No key stands twice: what makes an association list a dict.
  abbrev pub IsDict : Dict K V → Type κ
  IsDict [] = Unit
  IsDict ((k, v) ∷ d) = (lookup k d ≡ none) × IsDict d

  pub insert-IsDict : (k : K) (v : V) (d : Dict K V) → IsDict d → IsDict (insert k v d)
  unfolding insert
  insert-IsDict k v [] h = (unfold lookup in refl, tt)
  insert-IsDict k v ((j, w) ∷ d) h = elim (Bool-cases (j == k)) [
    | inl same ↦ rw same h
    | inr other ↦
        rw other (rw lookup-insert (rw (beq_sym_false j k other) h.0), insert-IsDict k v d h.1)
  ]
    where
      beq_sym_false : (a b : K) → (a == b) ≡ false → (b == a) ≡ false
      beq_sym_false a b p = ground (arith, e.same_iff a b, e.same_iff b a)

  pub erase-IsDict : (k : K) (d : Dict K V) → IsDict d → IsDict (erase k d)
  unfolding erase
  erase-IsDict k [] h = h
  erase-IsDict k ((j, w) ∷ d) h = elim (Bool-cases (j == k)) [
    | inl same ↦ rw same (erase-IsDict k d h.1)
    | inr other ↦ rw other (ground (arith, lookup-erase k j d, h.0), erase-IsDict k d h.1)
  ]

  -- `d.move_to_end(k)`, on a key that is there.
  unfoldable pub move_to_end : K → Dict K V → Dict K V
  move_to_end k d = elim (lookup k d) [ none ↦ d | some v ↦ erase k d ++ (k, v) ∷ [] ]

  -- `d.popitem(last=False)`
  unfoldable pub pop_first : Dict K V → Dict K V
  pop_first [] = []
  pop_first (x ∷ d) = d

  pub lookup-append :
      (j : K) (c d : Dict K V)
      → lookup j (c ++ d) ≡ elim (lookup j c) [ none ↦ lookup j d | some v ↦ some v ]
  unfolding lookup
  lookup-append j [] d = refl
  lookup-append j ((k, v) ∷ c) d = ground (arith, lookup-append j c d)

  -- The order of the entries is all that `move_to_end` changes.
  pub lookup-move_to_end : (k j : K) (d : Dict K V) → lookup j (move_to_end k d) ≡ lookup j d
  unfolding move_to_end
  lookup-move_to_end k j d = elim (Option-cases (lookup k d)) [
    | inl missing ↦ rw (missing, move_to_end)
    | inr (v, found) ↦
        rw (found, move_to_end)
          (lookup-append j (erase k d) ((k, v) ∷ [])
            ∙ unfold lookup in ground (arith, lookup-erase k j d, e.same_iff k j, found))
  ]

  pub length-insert-le : (k : K) (v : V) (d : Dict K V) → length (insert k v d) ≤ length d + 1
  unfolding insert
  length-insert-le k v [] = omega arith
  length-insert-le k v ((j, w) ∷ d) = ground (arith, length-insert-le k v d)

  pub length-insert_of_some :
      (k : K) (v : V) (d : Dict K V) → lookup k d ≢ none → length (insert k v d) ≡ length d
  unfolding lookup insert
  length-insert_of_some k v [] h = absurd (h refl)
  length-insert_of_some k v ((j, w) ∷ d) h = ground (arith, length-insert_of_some k v d)

  length-erase-le : (k : K) (d : Dict K V) → length (erase k d) ≤ length d
  unfolding erase
  length-erase-le k [] = omega arith
  length-erase-le k ((j, w) ∷ d) = ground (arith, length-erase-le k d)

  length-erase_lt : (k : K) (d : Dict K V) → lookup k d ≢ none → length (erase k d) < length d
  unfolding lookup erase
  length-erase_lt k [] h = absurd (h refl)
  length-erase_lt k ((j, w) ∷ d) h = ground (arith, length-erase_lt k d, length-erase-le k d)

  pub length-move_to_end-le : (k : K) (d : Dict K V) → length (move_to_end k d) ≤ length d
  unfolding move_to_end
  length-move_to_end-le k d = elim (Option-cases (lookup k d)) [
    | inl missing ↦ rw (missing, move_to_end) (omega arith)
    | inr (v, found) ↦
        rw (found, move_to_end)
          (omega (
            arith,
            length-append (erase k d) ((k, v) ∷ []),
            length-erase_lt k d (λ p. (cc (p, found))),
          ))
  ]

  append_fresh-IsDict :
      (k : K) (v : V) (d : Dict K V) → IsDict d → lookup k d ≡ none → IsDict (d ++ (k, v) ∷ [])
  append_fresh-IsDict k v [] h p = (unfold lookup in refl, tt)
  append_fresh-IsDict k v ((j, w) ∷ d) h p = (
    unfold lookup in
        ground (arith, lookup-append j d ((k, v) ∷ []), h.0, p, e.same_iff k j, e.same_iff j k),
    append_fresh-IsDict k v d h.1 (unfold lookup in ground (arith, p)),
  )

  pub move_to_end-IsDict : (k : K) (d : Dict K V) → IsDict d → IsDict (move_to_end k d)
  unfolding move_to_end
  move_to_end-IsDict k d h = elim (Option-cases (lookup k d)) [
    | inl missing ↦ rw (missing, move_to_end) h
    | inr (v, found) ↦
        rw (found, move_to_end)
          (append_fresh-IsDict k v (erase k d) (erase-IsDict k d h)
            (rw (lookup-erase k k d, (e.same_iff k k).1 refl)))
  ]
