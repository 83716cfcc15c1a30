-- ===== src/Catalog/Identifiers.antt =====
-- The client identifiers of a catalog lead back to its models.
use dax_kiro_proxy.Common.{
  ℕ, zero, suc, ◌≡◌, refl, sym, ap, subst, ◌∙◌, Bool, true, false, not, ◌&&◌, ◌||◌, ◌⊎◌, inl, inr,
  List, [], ◌∷◌, ◌++◌, Option, none, some, ℕ_eq, Bytes_eq, Bytes, length, lookup, insert,
  lookup-insert, lookup-insert_same, get_elem?, leb, is_some, is_empty, ◌>>◌, check, Post,
  bind-Post, skip-Post, arith, Option-cases, Bool-cases,
}
use dax_kiro_proxy.Catalog.Models.{
  Backend, Catalog, Texts, model_ok, valid_id, Indexed, add_model, add_models, add_current,
  name_models, new_with_id, resolve, client_id, backend_of, max_models, max_bytes,
}

module _ {ℓ} {A : Type ℓ} where
  get_elem?-append :
      (xs ys : List A) (j : ℕ) (y : A) → get_elem? xs j ≡ some y → get_elem? (xs ++ ys) j ≡ some y
  get_elem?-append [] ys j y h = ground arith
  get_elem?-append (x ∷ xs) ys zero y h = h
  get_elem?-append (x ∷ xs) ys (suc j) y h = get_elem?-append xs ys j y h

  get_elem?-end : (xs : List A) (x : A) → get_elem? (xs ++ x ∷ []) (length xs) ≡ some x
  get_elem?-end [] x = refl
  get_elem?-end (y ∷ xs) x = get_elem?-end xs x

  get_elem?-append_one :
      (xs : List A) (x : A) (j : ℕ) (y : A)
      → get_elem? (xs ++ x ∷ []) j ≡ some y
      → (get_elem? xs j ≡ some y) ⊎ ((j ≡ length xs) × (x ≡ y))
  get_elem?-append_one [] x zero y h = inr (refl, ground arith)
  get_elem?-append_one [] x (suc j) y h = ground arith
  get_elem?-append_one (z ∷ xs) x zero y h = inl h
  get_elem?-append_one (z ∷ xs) x (suc j) y h = elim (get_elem?-append_one xs x j y h) [
    | inl e ↦ inl e
    | inr (e, f) ↦ inr (ap suc e, f)
  ]

-- Each identifier in the map is that of the model at its place.
abbrev Placed : Indexed → Type 0
Placed (models, backend) =
    (k : Bytes) (i : ℕ)
    → lookup k backend ≡ some i
    → (m : Backend) × (get_elem? models i ≡ some m) × (m.id ≡ k)

add_model-Placed : (m : Backend) (c : Indexed) → Placed c → Placed (add_model m c)
add_model-Placed m (models, backend) placed k i h =
    elim (lookup-insert k m.id (length models) backend) [
      | inl (same, found) ↦
          let here : length models ≡ i = ground (arith, sym found ∙ h) in
          (
            m,
            subst (λ j. get_elem? (models ++ m ∷ []) j ≡ some m) here (get_elem?-end models m),
            same,
          )
      | inr other ↦
          let (m', there, e) = placed k i (sym other ∙ h) in
          (m', get_elem?-append models (m ∷ []) i m' there, e)
    ]

add_models-Placed :
    (ok : Backend → Bool) (ms : List Backend) (c : Indexed)
    → Placed c
    → Post Placed (add_models ok ms c)
unfolding add_models
add_models-Placed ok [] c placed = placed
add_models-Placed ok (m ∷ ms) c placed =
    skip-Post Placed (check (ok m && not (is_some (lookup m.id c.1)))) _
      (λ u. add_models-Placed ok ms (add_model m c) (add_model-Placed m c placed))

add_current-Placed : (current : Bytes) (c : Indexed) → Placed c → Placed (add_current current c)
unfolding add_current
add_current-Placed current c placed =
    elim (Bool-cases (is_empty current || is_some (lookup current c.1))) [
      | inl e ↦ rw e placed
      | inr e ↦ rw e (add_model-Placed _ c placed)
    ]

-- Each client identifier leads to its place.
abbrev Reversed : List Bytes × List (Bytes × ℕ) → Type 0
Reversed (ids, reverse) = (j : ℕ) (k : Bytes) → get_elem? ids j ≡ some k → lookup k reverse ≡ some j

named-Reversed :
    (id : Bytes) (ids : List Bytes) (reverse : List (Bytes × ℕ))
    → lookup id reverse ≡ none
    → Reversed (ids, reverse)
    → Reversed (ids ++ id ∷ [], insert id (length ids) reverse)
named-Reversed id ids reverse fresh h j k e = elim (get_elem?-append_one ids id j k e) [
  | inr (here, same) ↦
      subst (λ i. lookup k (insert id (length ids) reverse) ≡ some i) (sym here)
        (subst (λ i. lookup i (insert id (length ids) reverse) ≡ some (length ids)) same
          (lookup-insert_same id (length ids) reverse))
  | inl there ↦ elim (lookup-insert k id (length ids) reverse) [
    | inr other ↦ other ∙ h j k there
    | inl (same, _) ↦
        let clash : none ≡ some j = sym fresh ∙ ap (λ i. lookup i reverse) same ∙ h j k there in
        ground (arith, clash)
  ]
]

check-Post {ℓ κ} :
    {A : Type ℓ} (Q : A → Type κ) (b : Bool) (m : Option A)
    → (b ≡ true → Post Q m)
    → Post Q (check b >> m)
check-Post Q true m h = h refl
check-Post Q false m h = tt

name_models-Reversed :
    (derive : Bytes → Bytes) (ms : List Backend) (ids : List Bytes) (reverse : List (Bytes × ℕ))
    → Reversed (ids, reverse)
    → Post Reversed (name_models derive ms ids reverse)
unfolding name_models
name_models-Reversed derive [] ids reverse h = h
name_models-Reversed derive (m ∷ ms) ids reverse h =
    check-Post Reversed (not (is_some (lookup (derive m.id) reverse))) _ (λ e.
      name_models-Reversed derive ms (ids ++ derive m.id ∷ [])
        (insert (derive m.id) (length ids) reverse)
        (named-Reversed (derive m.id) ids reverse (ground arith) h))

abbrev Sound : Catalog → Type 0
Sound c = Placed (c.models, c.backend) × Reversed (c.client_ids, c.reverse)

Placed-empty : Placed ([], [])
unfolding lookup
Placed-empty k i h = absurd (ground arith)

new_with_id-Sound :
    (t : Texts) (models : List Backend) (current : Bytes) (derive : Bytes → Bytes)
    → Post Sound (new_with_id t models current derive)
unfolding new_with_id
new_with_id-Sound t models current derive =
    check-Post Sound (leb (length models) max_models && (is_empty current || valid_id t current)) _
      (λ e.
        bind-Post Placed Sound (add_models (model_ok t) models ([], [])) _
          (add_models-Placed (model_ok t) models ([], []) Placed-empty)
          (λ added placed.
            let c = add_current current added in
            check-Post Sound (not (is_empty c.0) && leb (length c.0) max_models) _ (λ f.
              bind-Post Reversed Sound (name_models derive c.0 [] []) _
                (name_models-Reversed derive c.0 [] [] (λ j k h. absurd (ground arith)))
                (λ named reversed.
                  check-Post Sound (leb (t.encoded c.0) max_bytes) _
                    (λ g. (add_current-Placed current added placed, reversed))))))

-- In a catalog that `New` accepts, the client identifier of a backend model resolves to that model and no
-- other, however the identifiers are derived.
pub new_with_id-client_id :
    (t : Texts) (models : List Backend) (current : Bytes) (derive : Bytes → Bytes) (c : Catalog)
    (id cid : Bytes)
    → new_with_id t models current derive ≡ some c
    → client_id c id ≡ some cid
    → (m : Backend) × (resolve c cid ≡ some m) × (backend_of c id ≡ some m) × (m.id ≡ id)
unfolding client_id resolve backend_of
new_with_id-client_id t models current derive c id cid h e =
    elim (Option-cases (lookup id c.backend)) [
      | inl none_ ↦ absurd (ground (arith, rw (none_, client_id) at e))
      | inr (i, some_) ↦
          let (placed, reversed) =
            subst (Post Sound) h (new_with_id-Sound t models current derive) in
          let (m, here, same) = placed id i some_ in
          let listed : get_elem? c.client_ids i ≡ some cid = rw (some_, client_id) at e in
          let back = reversed i cid listed in
          (m, rw (back, resolve) here, rw (some_, backend_of) here, same)
    ]
