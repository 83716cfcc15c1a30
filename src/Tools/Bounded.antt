-- ===== src/Tools/Bounded.antt =====
-- The walk of `bounded` against the size of a value.
use dax_kiro_proxy.Common.{
  ℕ, zero, suc, ◌+◌, ◌-◌, ◌≡◌, Bool, true, false, ◌&&◌, ◌||◌, ℕ_eq, ◌==◌, [], ◌∷◌, drop, length,
  refl, ap, Option, none, some, arith, Bytes, leb, ◌∙◌, Bool-cases, inl, inr, if◌then◌else◌,
}
use dax_kiro_proxy.Tools.Schema.{
  Value, mapping, array, number, string, scalar, Entries, no_entry, entry, Items, no_item, item,
  exponent_of, small_exponent, number_ok, bounded, bounded_entries, bounded_items,
}

-- The nodes of a value.
mutual
  pub size : Value → ℕ
  size (mapping es) = suc (entries_size es)
  size (array vs) = suc (items_size vs)
  size (number s) = 1
  size (string s) = 1
  size scalar = 1

  entries_size : Entries → ℕ
  entries_size no_entry = 0
  entries_size (entry k v es) = size v + entries_size es

  items_size : Items → ℕ
  items_size no_item = 0
  items_size (item v vs) = size v + items_size vs

-- Where the first `e` or `E` stands in a text, its length if there is none.
abbrev exponent_place : Bytes → ℕ
exponent_place [] = 0
exponent_place (b ∷ s) = if b == 69 || b == 101 then 0 else suc (exponent_place s)

-- Whether what follows the place `i` is a number from -1000 to 1000.
abbrev exponent_fits : (Bytes → Option (Bool × ℕ)) → ℕ → Bytes → Bool
exponent_fits atoi i s = elim (atoi (drop (suc i) s)) [
  | none ↦ false
  | some (negative, n) ↦ leb n 1000
]

-- A number has at most 128 bytes and no exponent, or one that fits.
abbrev number_fits : (Bytes → Option (Bool × ℕ)) → Bytes → Bool
number_fits atoi s =
    let i = exponent_place s in leb (length s) 128 && (i == length s || exponent_fits atoi i s)

exponent_lem :
    (atoi : Bytes → Option (Bool × ℕ)) (s : Bytes)
    → small_exponent atoi (exponent_of s)
      ≡ (exponent_place s == length s || exponent_fits atoi (exponent_place s) s)
exponent_lem atoi [] = refl
exponent_lem atoi (b ∷ s) = ground (arith, exponent_lem atoi s)

number_ok-fits :
    (atoi : Bytes → Option (Bool × ℕ)) (s : Bytes) → number_ok atoi s ≡ number_fits atoi s
unfolding number_ok
number_ok-fits atoi s = ap (λ b. leb (length s) 128 && b) (exponent_lem atoi s)

-- Whether every number in a value fits.
mutual
  pub numbers_ok : (Bytes → Option (Bool × ℕ)) → Value → Bool
  numbers_ok atoi (mapping es) = entries_ok atoi es
  numbers_ok atoi (array vs) = items_ok atoi vs
  numbers_ok atoi (number s) = number_fits atoi s
  numbers_ok atoi (string s) = true
  numbers_ok atoi scalar = true

  entries_ok : (Bytes → Option (Bool × ℕ)) → Entries → Bool
  entries_ok atoi no_entry = true
  entries_ok atoi (entry k v es) = numbers_ok atoi v && entries_ok atoi es

  items_ok : (Bytes → Option (Bool × ℕ)) → Items → Bool
  items_ok atoi no_item = true
  items_ok atoi (item v vs) = numbers_ok atoi v && items_ok atoi vs

abbrev within : Bool → ℕ → ℕ → Option ℕ
within ok size n = if ok && leb size n then some (n - size) else none

within-suc :
    (ok : Bool) (size n : ℕ)
    → within ok size n ≡ (if ok && leb (suc size) (suc n) then some (suc n - suc size) else none)
within-suc ok size n = ground arith

within-bind :
    (ok ok' : Bool) (size size' n : ℕ) (m : Option ℕ) (f : ℕ → Option ℕ)
    → m ≡ within ok size n
    → f (n - size) ≡ within ok' size' (n - size)
    → (elim m [ none ↦ none | some k ↦ f k ]) ≡ within (ok && ok') (size + size') n
within-bind ok ok' size size' n none f h k = ground arith
within-bind ok ok' size size' n (some j) f h k = elim (Bool-cases (ok && leb size n)) [
  | inl e ↦ ground arith
  | inr e ↦ ground arith
]

mutual
  unfolding bounded bounded_entries bounded_items numbers_ok entries_ok items_ok size entries_size
      items_size

  value_lem :
      (atoi : Bytes → Option (Bool × ℕ)) (v : Value) (n : ℕ)
      → bounded atoi v n ≡ (if numbers_ok atoi v && leb (size v) n then some (n - size v) else none)
  value_lem atoi (mapping es) zero = ground arith
  value_lem atoi (array vs) zero = ground arith
  value_lem atoi (number s) zero = ground arith
  value_lem atoi (string s) zero = ground arith
  value_lem atoi scalar zero = ground arith
  value_lem atoi (mapping es) (suc n) =
      entries_lem atoi es n ∙ within-suc (entries_ok atoi es) (entries_size es) n
  value_lem atoi (array vs) (suc n) =
      items_lem atoi vs n ∙ within-suc (items_ok atoi vs) (items_size vs) n
  value_lem atoi (number s) (suc n) = rw (number_ok-fits atoi s) (ground arith)
  value_lem atoi (string s) (suc n) = ground arith
  value_lem atoi scalar (suc n) = ground arith

  entries_lem :
      (atoi : Bytes → Option (Bool × ℕ)) (es : Entries) (n : ℕ)
      → bounded_entries atoi es n ≡ within (entries_ok atoi es) (entries_size es) n
  entries_lem atoi no_entry n = ground arith
  entries_lem atoi (entry k v es) n =
      within-bind (numbers_ok atoi v) (entries_ok atoi es) (size v) (entries_size es) n
        (bounded atoi v n) (bounded_entries atoi es) (value_lem atoi v n)
        (entries_lem atoi es (n - size v))

  items_lem :
      (atoi : Bytes → Option (Bool × ℕ)) (vs : Items) (n : ℕ)
      → bounded_items atoi vs n ≡ within (items_ok atoi vs) (items_size vs) n
  items_lem atoi no_item n = ground arith
  items_lem atoi (item v vs) n =
      within-bind (numbers_ok atoi v) (items_ok atoi vs) (size v) (items_size vs) n
        (bounded atoi v n) (bounded_items atoi vs) (value_lem atoi v n)
        (items_lem atoi vs (n - size v))

-- `bounded` accepts a value if and only if each of its numbers has at most 128 bytes and, if it has an
-- `e` or `E`, a number from -1000 to 1000 behind the first one, and the value has at most as many
-- nodes as are left; then `bounded` takes just that many.
pub bounded-size :
    (atoi : Bytes → Option (Bool × ℕ)) (v : Value) (n : ℕ)
    → bounded atoi v n ≡ (if numbers_ok atoi v && leb (size v) n then some (n - size v) else none)
bounded-size atoi v n = value_lem atoi v n
