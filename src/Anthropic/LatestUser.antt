-- ===== src/Anthropic/LatestUser.antt =====
-- What `LatestUserIndex` finds.
use dax_kiro_proxy.Common.{
  ℕ, zero, suc, ◌<◌, ◌≡◌, List, [], ◌∷◌, some, arith, Bytes_eq, ◌==◌, ==_iff, get_elem?, length,
  Bool-cases, Option-cases, inl, inr,
}
use dax_kiro_proxy.Anthropic.{Message, Request, user, system, latest_user_below, latest_user_index}

pub get_elem?-lt {ℓ} :
    {A : Type ℓ} (xs : List A) (i : ℕ) (x : A) → get_elem? xs i ≡ some x → i < length xs
get_elem?-lt [] i x h = ground arith
get_elem?-lt (y ∷ ys) zero x h = omega arith
get_elem?-lt (y ∷ ys) (suc i) x h = omega (arith, get_elem?-lt ys i x h)

latest_user_below-some :
    (ms : List Message) (n i : ℕ)
    → latest_user_below ms n ≡ some i
    → (m : Message) × (get_elem? ms i ≡ some m) × (m.role ≡ user)
unfolding latest_user_below
latest_user_below-some ms zero i h = ground arith
latest_user_below-some ms (suc n) i h = elim (Option-cases (get_elem? ms n)) [
  | inl e ↦ ground arith
  | inr (m, e) ↦ elim (Bool-cases (m.role == system)) [
    | inl s ↦ latest_user_below-some ms n i (ground arith)
    | inr t ↦ (m, ground arith, ground (arith, ==_iff m.role user))
  ]
]

-- The index is that of a user message.
pub latest_user_index-some :
    (r : Request) (i : ℕ)
    → latest_user_index r ≡ some i
    → (m : Message) × (get_elem? r.messages i ≡ some m) × (m.role ≡ user)
unfolding latest_user_index
latest_user_index-some r i h = latest_user_below-some r.messages (length r.messages) i h

pub latest_user_index-lt :
    (r : Request) (i : ℕ) → latest_user_index r ≡ some i → i < length r.messages
latest_user_index-lt r i h =
    let (m, e, _) = latest_user_index-some r i h in get_elem?-lt r.messages i m e
