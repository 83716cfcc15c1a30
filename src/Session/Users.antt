-- ===== src/Session/Users.antt =====
-- The starts that use a binding, and those behind its gate.
use dax_kiro_proxy.Common.{
  ℕ, zero, suc, ◌+◌, ◌≤◌, ◌≡◌, ap, subst, ◌∙◌, Bool, true, false, ◌&&◌, inl, inr, List, [], ◌∷◌,
  some, ℕ_eq, Bytes_eq, Bytes, ◌==◌, ==_refl, lookup, lookup-insert, insert, get_elem?, set,
  if◌then◌else◌, arith,
}
use dax_kiro_proxy.Session.Manager.{Binding}
use dax_kiro_proxy.Session.Starts.{Phase, gated, Active, remove_at}
use dax_kiro_proxy.Session.Bindings.{Shrinks}

abbrev pub is_gated : Phase → Bool
is_gated gated = true
is_gated _ = false

-- The active starts of a binding, and those of them that hold its gate.
unfoldable pub uses : ℕ → List Active → ℕ
uses b [] = 0
uses b (a ∷ actives) = (if a.binding == b then 1 else 0) + uses b actives

unfoldable pub gates : ℕ → List Active → ℕ
gates b [] = 0
gates b (a ∷ actives) = (if a.binding == b && is_gated a.phase then 1 else 0) + gates b actives

-- Every active start finds its binding under its key.
abbrev pub Known : List (Bytes × ℕ) → List Active → Type 0
Known m [] = Unit
Known m (a ∷ actives) = (lookup a.key m ≡ some a.binding) × Known m actives

pub uses-set :
    (b i : ℕ) (a : Active) (phase : Phase) (actives : List Active)
    → get_elem? actives i ≡ some a
    → uses b (set actives i (record a { phase = phase })) ≡ uses b actives
unfolding uses
uses-set b i a phase [] h = ground arith
uses-set b zero a phase (c ∷ actives) h = ground arith
uses-set b (suc i) a phase (c ∷ actives) h = ground (arith, uses-set b i a phase actives)

pub gates-set :
    (b i : ℕ) (a : Active) (phase : Phase) (actives : List Active)
    → get_elem? actives i ≡ some a
    → gates b (set actives i (record a { phase = phase }))
        + (if a.binding == b && is_gated a.phase then 1 else 0)
      ≡ gates b actives + (if a.binding == b && is_gated phase then 1 else 0)
unfolding gates
gates-set b i a phase [] h = ground arith
gates-set b zero a phase (c ∷ actives) h = ground arith
gates-set b (suc i) a phase (c ∷ actives) h = ground (arith, gates-set b i a phase actives)

pub Known-set :
    (m : List (Bytes × ℕ)) (i : ℕ) (a : Active) (phase : Phase) (actives : List Active)
    → get_elem? actives i ≡ some a
    → Known m actives
    → Known m (set actives i (record a { phase = phase }))
Known-set m i a phase [] h k = tt
Known-set m zero a phase (c ∷ actives) h (here, there) =
    let same : c ≡ a = ground arith in
    (subst (λ (x : Active). lookup x.key m ≡ some x.binding) same here, there)
Known-set m (suc i) a phase (c ∷ actives) h (here, there) =
    (here, Known-set m i a phase actives h there)

pub uses-remove_at :
    (b i : ℕ) (a : Active) (actives : List Active)
    → get_elem? actives i ≡ some a
    → uses b (remove_at i actives) + (if a.binding == b then 1 else 0) ≡ uses b actives
unfolding uses
uses-remove_at b i a [] h = ground arith
uses-remove_at b zero a (c ∷ actives) h = ground arith
uses-remove_at b (suc i) a (c ∷ actives) h = ground (arith, uses-remove_at b i a actives)

pub gates-remove_at :
    (b i : ℕ) (actives : List Active) → gates b (remove_at i actives) ≤ gates b actives
unfolding gates
gates-remove_at b i [] = omega arith
gates-remove_at b zero (c ∷ actives) = omega arith
gates-remove_at b (suc i) (c ∷ actives) = omega (arith, gates-remove_at b i actives)

pub Known-remove_at :
    (m : List (Bytes × ℕ)) (i : ℕ) (actives : List Active)
    → Known m actives
    → Known m (remove_at i actives)
Known-remove_at m i [] k = tt
Known-remove_at m zero (c ∷ actives) (here, there) = there
Known-remove_at m (suc i) (c ∷ actives) (here, there) = (here, Known-remove_at m i actives there)

-- The bindings of active starts are in use, so a map that shrinks keeps them.
pub Known-Shrinks :
    (bindings : ℕ → Binding) (m m' : List (Bytes × ℕ)) (actives : List Active)
    → Shrinks bindings m m'
    → ((b : ℕ) → uses b actives ≤ (bindings b).users)
    → Known m actives
    → Known m' actives
unfolding uses
Known-Shrinks bindings m m' [] h le k = tt
Known-Shrinks bindings m m' (a ∷ actives) h le (here, there) = (
  h.found a.key a.binding (ground (arith, le a.binding, ==_refl a.binding)) here,
  Known-Shrinks bindings m m' actives h (λ b. ground (arith, le b)) there,
)

-- A new key leaves the others.
pub Known-insert :
    (k : Bytes) (b : ℕ) (m : List (Bytes × ℕ)) (actives : List Active)
    → ((a : ℕ) → lookup k m ≡ some a → ⊥)
    → Known m actives
    → Known (insert k b m) actives
Known-insert k b m [] h u = tt
Known-insert k b m (a ∷ actives) h (here, there) = (
  elim (lookup-insert a.key k b m) [
    | inl (same, _) ↦ absurd (h a.binding (ap (λ j. lookup j m) same ∙ here))
    | inr other ↦ other ∙ here
  ],
  Known-insert k b m actives h there,
)

pub gates-le-uses : (b : ℕ) (actives : List Active) → gates b actives ≤ uses b actives
unfolding gates uses
gates-le-uses b [] = omega arith
gates-le-uses b (a ∷ actives) = ground (arith, gates-le-uses b actives)
