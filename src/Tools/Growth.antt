-- ===== src/Tools/Growth.antt =====
-- The loop over the aliases ends, and its keys are distinct.
use dax_kiro_proxy.Common.{
  ℕ, zero, suc, ◌+◌, ◌-◌, ◌*◌, ◌%◌, ◌≤◌, ◌≡◌, ◌≢◌, refl, List, [], ◌∷◌, some, ℕ_eq, Bytes_eq, Bytes,
  length, any, map, if◌then◌else◌, arith, Option-cases, Bool-cases, inl, inr,
}
use dax_kiro_proxy.Tools.Aliases.{
  Entry, new_entry, is_shared, grow, exhausted, distinguish, aliases_of,
}

-- Every size is even and at most that of a digest.
abbrev Sized : List Entry → Type 0
Sized [] = Unit
Sized (e ∷ es) = (e.size ≤ 64) × (e.size % 2 ≡ 0) × Sized es

-- The letters that are left.
unused : List Entry → ℕ
unused [] = 0
unused (e ∷ es) = (64 - e.size) + unused es

grow-Sized : (all es es' : List Entry) → grow all es ≡ some es' → Sized es → Sized es'
unfolding grow
grow-Sized all [] es' h s = ground arith
grow-Sized all (e ∷ es) es' h s = elim (Option-cases (grow all es)) [
  | inl none_ ↦ ground arith
  | inr (rest, some_) ↦ ground (arith, grow-Sized all es rest some_ s.2)
]

-- A round with a shared key uses some letters up.
grow-unused :
    (all es es' : List Entry)
    → grow all es ≡ some es'
    → Sized es
    → unused es' + (if any (is_shared all) es then 1 else 0) ≤ unused es
unfolding grow unused
grow-unused all [] es' h s = ground arith
grow-unused all (e ∷ es) es' h s = elim (Option-cases (grow all es)) [
  | inl none_ ↦ ground arith
  | inr (rest, some_) ↦ ground (arith, grow-unused all es rest some_ s.2)
]

distinguish-ne-exhausted :
    (fuel : ℕ) (es : List Entry) → Sized es → unused es + 1 ≤ fuel → distinguish fuel es ≢ exhausted
unfolding distinguish
distinguish-ne-exhausted zero es s h = absurd (omega arith)
distinguish-ne-exhausted (suc fuel) es s h = elim (Bool-cases (any (is_shared es) es)) [
  | inr e ↦ rw (e, distinguish) (ground arith)
  | inl e ↦ elim (Option-cases (grow es es)) [
    | inl none_ ↦ rw (e, none_, distinguish) (ground arith)
    | inr (es', some_) ↦
        let less = grow-unused es es es' some_ s in
        rw (e, some_, distinguish)
          (distinguish-ne-exhausted fuel es' (grow-Sized es es es' some_ s) (ground (arith, less)))
  ]
]

new-Sized : (hashes : List Bytes) → Sized (map new_entry hashes)
new-Sized [] = tt
new-Sized (h ∷ hs) = (omega arith, refl, new-Sized hs)

new-unused :
    (hashes : List Bytes) → unused (map new_entry hashes) ≤ 48 * length (map new_entry hashes)
unfolding unused
new-unused [] = omega arith
new-unused (h ∷ hs) = omega (arith, new-unused hs)

-- The loop that makes the aliases longer ends, within 48 rounds for each tool: it finds distinct keys or
-- it refuses.
pub aliases_of-ne-exhausted : (hashes : List Bytes) → aliases_of hashes ≢ exhausted
unfolding aliases_of
aliases_of-ne-exhausted hashes =
    distinguish-ne-exhausted _ (map new_entry hashes) (new-Sized hashes)
      (omega (arith, new-unused hashes))
