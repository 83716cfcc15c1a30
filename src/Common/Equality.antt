-- ===== src/Common/Equality.antt =====
-- Equality tests: `==` on the types that the code compares, and byte strings. A Go string is the
-- list of its bytes.
use Prim.Native.Char.{code}
use Prim.Native.Nat.{ℕ}
use Prim.Native.String.{String}
use mathlib.Core.Path.{◌≡◌, refl}
use mathlib.Core.Logic.{◌↔◌}
use mathlib.Core.Bool.{Bool, true, false, ◌&&◌}
use mathlib.Core.List.{List, [], ◌∷◌}
use native.Mathlib.Omega.{arith}
use dax_kiro_proxy.Common.Tests.{nat_eq, nat_eq_iff}

pub record Comparable {ℓ} (A : Type ℓ) : Type ℓ where
  pub same_as : A → A → Bool
  pub same_iff : (x y : A) → (same_as x y ≡ true) ↔ (x ≡ y)

infix 50 ◌==◌
abbrev pub ◌==◌ {ℓ} : {A : Type ℓ} ⦃e : Comparable A⦄ → A → A → Bool
◌==◌ ⦃e⦄ = e.same_as

pub ==_iff {ℓ} : {A : Type ℓ} ⦃e : Comparable A⦄ (a b : A) → ((a == b) ≡ true) ↔ (a ≡ b)
==_iff ⦃e⦄ = e.same_iff

pub ==_refl {ℓ} : {A : Type ℓ} ⦃e : Comparable A⦄ (a : A) → (a == a) ≡ true
==_refl a = (==_iff a a).1 refl

instance abbrev pub ℕ_eq : Comparable ℕ
ℕ_eq = record { same_as = nat_eq; same_iff = nat_eq_iff }

-- `slices.Equal`.
module _ {ℓ} {A : Type ℓ} ⦃e : Comparable A⦄ where
  unfoldable pub equal : List A → List A → Bool
  equal [] [] = true
  equal (x ∷ xs) (y ∷ ys) = x == y && equal xs ys
  equal _ _ = false

  equal→≡ : (xs ys : List A) → equal xs ys ≡ true → xs ≡ ys
  unfolding equal
  equal→≡ [] [] h = refl
  equal→≡ [] (y ∷ ys) h = ground arith
  equal→≡ (x ∷ xs) [] h = ground arith
  equal→≡ (x ∷ xs) (y ∷ ys) h = ground (arith, equal→≡ xs ys, ==_iff x y)

  equal_refl : (xs : List A) → equal xs xs ≡ true
  unfolding equal
  equal_refl [] = refl
  equal_refl (x ∷ xs) = ground (arith, equal_refl xs, ==_refl x)

  pub equal_iff : (xs ys : List A) → (equal xs ys ≡ true) ↔ (xs ≡ ys)
  equal_iff xs ys = (equal→≡ xs ys, λ h. rw h (equal_refl ys))

abbrev pub Bytes : Type 0
Bytes = List ℕ

instance abbrev pub Bytes_eq : Comparable Bytes
Bytes_eq = record { same_as = equal; same_iff = equal_iff }

-- The bytes of an ASCII text.
abbrev pub bytes : String → Bytes
bytes String.[] = []
bytes (String.◌∷◌ c s) = code c ∷ bytes s
