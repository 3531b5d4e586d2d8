-- ===== src/Prelude/Keys.antt =====
-- Equality of what the program looks up: numbers and texts.
use Prim.Native.Nat.{ℕ}
use Prim.Native.String.{String}
use text.Mathlib.Text.{◌==◌ as text_same}
use text.Mathlib.TextEquality.{eq_iff}
use mathlib.Core.Path.{◌≡◌, refl}
use mathlib.Core.Logic.{◌↔◌}
use mathlib.Core.Bool.{Bool, true, false, ◌&&◌}
use mathlib.Core.List.{List, [], ◌∷◌}
use native.Mathlib.Omega.{arith}
use mediaman.Prelude.Tests.{nat_beq, nat_beq_iff}

-- A type whose values serve as keys.
pub record Key {ℓ} (K : Type ℓ) : Type ℓ where
  pub same : K → K → Bool
  pub same_iff : (j k : K) → (same j k ≡ true) ↔ (j ≡ k)

instance abbrev pub string_key : Key String
string_key = record { same = text_same; same_iff = eq_iff }

instance abbrev pub nat_key : Key ℕ
nat_key = record { same = nat_beq; same_iff = nat_beq_iff }

module _ {ℓ} {K : Type ℓ} ⦃key : Key K⦄ where
  infix 50 ◌==◌
  abbrev pub ◌==◌ : K → K → Bool
  j == k = key.same j k

  pub ==_self : (k : K) → (k == k) ≡ true
  ==_self k = (key.same_iff k k).1 refl

-- Pairs of keys.
module _ {ℓ κ} {J : Type ℓ} {K : Type κ} ⦃a : Key J⦄ ⦃b : Key K⦄ where
  abbrev pub pair_same : J × K → J × K → Bool
  pair_same p q = a.same p.0 q.0 && b.same p.1 q.1

  pub pair_same_iff : (p q : J × K) → (pair_same p q ≡ true) ↔ (p ≡ q)
  pair_same_iff p q = ground (arith, a.same_iff p.0 q.0, b.same_iff p.1 q.1)

  instance abbrev pub pair_key : Key (J × K)
  pair_key = record { same = pair_same; same_iff = pair_same_iff }

-- Lists of keys.
module _ {ℓ} {K : Type ℓ} ⦃key : Key K⦄ where
  abbrev pub list_same : List K → List K → Bool
  list_same [] [] = true
  list_same [] (k ∷ ks) = false
  list_same (j ∷ js) [] = false
  list_same (j ∷ js) (k ∷ ks) = key.same j k && list_same js ks

  pub list_same_iff : (js ks : List K) → (list_same js ks ≡ true) ↔ (js ≡ ks)
  list_same_iff [] [] = ground arith
  list_same_iff [] (k ∷ ks) = ground arith
  list_same_iff (j ∷ js) [] = ground arith
  list_same_iff (j ∷ js) (k ∷ ks) = ground (arith, key.same_iff j k, list_same_iff js ks)

  instance abbrev pub list_key : Key (List K)
  list_key = record { same = list_same; same_iff = list_same_iff }
