-- ===== src/Common/Keys.antt =====
-- Association lists by their keys: maps in the order of insertion, with no key twice.
use mathlib.Core.Path.{◌≡◌, refl, ap, sym, subst, ◌∙◌}
use mathlib.Core.Bool.{Bool, true, false}
use mathlib.Core.Logic.{◌⊎◌, inl, inr}
use mathlib.Core.List.{List, [], ◌∷◌, ◌++◌}
use mathlib.Core.Option.{none, some}
use native.Mathlib.Omega.{arith}
use Prim.Native.Nat.{suc}
use dax_kiro_proxy.Common.Tests.{if◌then◌else◌, is_some, Bool-cases}
use dax_kiro_proxy.Common.Lists.{length}
use dax_kiro_proxy.Common.Equality.{Comparable, ◌==◌, ==_iff, ==_refl}
use dax_kiro_proxy.Common.Maps.{lookup, insert, delete}

module _ {ℓ κ} {K : Type ℓ} {V : Type κ} where
  abbrev pub keys : List (K × V) → List K
  keys [] = []
  keys ((k, v) ∷ m) = k ∷ keys m

  pub keys-append : (m n : List (K × V)) → keys (m ++ n) ≡ keys m ++ keys n
  keys-append [] n = refl
  keys-append ((k, v) ∷ m) n = ap (◌∷◌ k) (keys-append m n)

  pub length-keys : (m : List (K × V)) → length (keys m) ≡ length m
  length-keys [] = refl
  length-keys ((k, v) ∷ m) = omega (arith, length-keys m)

  -- A cut of the keys is a cut of the entries.
  pub split_keys :
      (m : List (K × V)) (xs ys : List K)
      → keys m ≡ xs ++ ys
      → (front back : List (K × V)) × (m ≡ front ++ back) × (keys front ≡ xs) × (keys back ≡ ys)
  split_keys m [] ys e = ([], m, refl, refl, e)
  split_keys [] (x ∷ xs) ys e = ground arith
  split_keys ((k, v) ∷ m) (x ∷ xs) ys e =
      let (front, back, cut, here, there) = split_keys m xs ys (ground arith) in
      ((k, v) ∷ front, back, ap (◌∷◌ (k, v)) cut, ground arith, there)

module _ {ℓ κ} {K : Type ℓ} {V : Type κ} ⦃e : Comparable K⦄ where
  abbrev pub UniqueKeys : List (K × V) → Type κ
  UniqueKeys [] = Unit
  UniqueKeys ((k, v) ∷ m) = (lookup k m ≡ none) × UniqueKeys m

  pub insert-fresh :
      (k : K) (v : V) (m : List (K × V)) → lookup k m ≡ none → insert k v m ≡ m ++ (k, v) ∷ []
  unfolding lookup insert
  insert-fresh k v [] h = refl
  insert-fresh k v ((j, w) ∷ m) h = ground (arith, insert-fresh k v m)

  pub length-insert :
      (k : K) (v : V) (m : List (K × V))
      → length (insert k v m) ≡ (if is_some (lookup k m) then length m else suc (length m))
  unfolding lookup insert
  length-insert k v [] = refl
  length-insert k v ((j, w) ∷ m) = ground (arith, length-insert k v m)

  pub lookup-insert_same : (k : K) (v : V) (m : List (K × V)) → lookup k (insert k v m) ≡ some v
  unfolding lookup insert
  lookup-insert_same k v [] = ground (arith, ==_refl k)
  lookup-insert_same k v ((j, w) ∷ m) = ground (arith, lookup-insert_same k v m, ==_refl k)

  lookup-insert_other :
      (i k : K) (v : V) (m : List (K × V)) → (k == i) ≡ false → lookup i (insert k v m) ≡ lookup i m
  unfolding lookup insert
  lookup-insert_other i k v [] h = ground arith
  lookup-insert_other i k v ((j, w) ∷ m) h = ground (arith, lookup-insert_other i k v m, ==_iff j k)

  -- What a key finds after an insertion: the new value, or what it found before.
  pub lookup-insert :
      (i k : K) (v : V) (m : List (K × V))
      → ((k ≡ i) × (lookup i (insert k v m) ≡ some v)) ⊎ (lookup i (insert k v m) ≡ lookup i m)
  lookup-insert i k v m = compared (k == i) refl
    where
      compared :
          (b : Bool)
          → (k == i) ≡ b
          → ((k ≡ i) × (lookup i (insert k v m) ≡ some v)) ⊎ (lookup i (insert k v m) ≡ lookup i m)
      compared true h =
          let same = (==_iff k i).0 h in
          inl (same, subst (λ j. lookup j (insert k v m) ≡ some v) same (lookup-insert_same k v m))
      compared false h = inr (lookup-insert_other i k v m h)

  pub delete-absent : (k : K) (m : List (K × V)) → lookup k m ≡ none → delete k m ≡ m
  unfolding lookup delete
  delete-absent k [] h = refl
  delete-absent k ((j, w) ∷ m) h = ground (arith, delete-absent k m)

  pub lookup-append_none :
      (k : K) (m n : List (K × V)) → lookup k m ≡ none → lookup k (m ++ n) ≡ lookup k n
  unfolding lookup
  lookup-append_none k [] n h = refl
  lookup-append_none k ((j, w) ∷ m) n h = ground (arith, lookup-append_none k m n)

  pub lookup-head : (k : K) (v : V) (m : List (K × V)) → lookup k ((k, v) ∷ m) ≡ some v
  unfolding lookup
  lookup-head k v m = ground (arith, ==_refl k)

  pub delete-head :
      (k : K) (v : V) (m : List (K × V)) → lookup k m ≡ none → delete k ((k, v) ∷ m) ≡ m
  unfolding delete
  delete-head k v m h = ground (arith, ==_refl k, delete-absent k m)

  lookup-one : (j k : K) (v : V) → (j == k) ≡ false → lookup j ((k, v) ∷ []) ≡ none
  unfolding lookup
  lookup-one j k v h = ground (arith, ==_iff j k, ==_iff k j)

  pub UniqueKeys-append_one :
      (k : K) (v : V) (m : List (K × V))
      → lookup k m ≡ none
      → UniqueKeys m
      → UniqueKeys (m ++ (k, v) ∷ [])
  unfolding lookup
  UniqueKeys-append_one k v [] h u = (refl, tt)
  UniqueKeys-append_one k v ((j, w) ∷ m) h u = (
    lookup-append_none j m ((k, v) ∷ []) u.0 ∙ lookup-one j k v (ground (arith)),
    UniqueKeys-append_one k v m (ground arith) u.1,
  )

  pub UniqueKeys-drop : (m n : List (K × V)) → UniqueKeys (m ++ n) → UniqueKeys n
  UniqueKeys-drop [] n u = u
  UniqueKeys-drop ((k, v) ∷ m) n u = UniqueKeys-drop m n u.1

  -- A key that is there keeps its place.
  pub keys-insert :
      (k : K) (v w : V) (m : List (K × V)) → lookup k m ≡ some w → keys (insert k v m) ≡ keys m
  unfolding lookup insert
  keys-insert k v w [] h = ground arith
  keys-insert k v w ((j, u) ∷ m) h = elim (Bool-cases (j == k)) [
    | inl e ↦ rw e (ap (λ i. i ∷ keys m) (sym ((==_iff j k).0 e)))
    | inr e ↦ rw e (ap (◌∷◌ j) (keys-insert k v w m (rw e at h)))
  ]

  pub UniqueKeys-insert :
      (k : K) (v : V) (m : List (K × V)) → UniqueKeys m → UniqueKeys (insert k v m)
  unfolding lookup insert
  UniqueKeys-insert k v [] u = (refl, tt)
  UniqueKeys-insert k v ((j, w) ∷ m) u = elim (Bool-cases (j == k)) [
    | inl e ↦ rw e ((subst (λ i. lookup i m ≡ none) ((==_iff j k).0 e) u.0, u.1))
    | inr e ↦ rw e (
        (
          lookup-insert_other j k v m (ground (arith, e, ==_iff j k, ==_iff k j)) ∙ u.0,
          UniqueKeys-insert k v m u.1,
        ))
  ]
