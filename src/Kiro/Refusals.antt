-- ===== src/Kiro/Refusals.antt =====
-- The history of an effort: its methods in any order, and the pairs that the peer refused.
use dax_kiro_proxy.Common.{
  ◌≤◌, ◌≡◌, Bool, true, false, not, List, [], ◌∷◌, ◌++◌, none, some, ℕ_eq, Bytes_eq, Bytes, length,
  if◌then◌else◌,
}
use dax_kiro_proxy.Json.{Json}
use dax_kiro_proxy.Kiro.Effort.{
  Capability, current, Pair, same_pair, has_pair, Status, Effort, max_probes, model_changed,
  process_changed, Answer, broken, refused, result, sync, advertise,
}

-- The methods of an effort, one after the other.
pub data Event : Type 0 where
  advertises : Bytes → Event
  changes_model changes_process : Event
  syncs : Answer → Bytes → Bytes → Bytes → Event

unfoldable pub step : Json → (Bytes → Bytes) → Event → Effort → Effort
step json clean (advertises raw) c = elim (advertise json raw c) [ none ↦ c | some c' ↦ c' ]
step json clean changes_model c = model_changed c
step json clean changes_process c = process_changed c
step json clean (syncs a session model requested) c = (sync clean a session model requested c).after

unfoldable pub run : Json → (Bytes → Bytes) → List Event → Effort → Effort
run json clean [] c = c
run json clean (e ∷ es) c = run json clean es (step json clean e c)

abbrev pub is_refusal : Answer → Bool
is_refusal refused = true
is_refusal (result accepted) = not accepted
is_refusal broken = false

-- The pair that a call of `Sync` asked for, if the peer refused it.
unfoldable pub refusal : (Bytes → Bytes) → Event → Effort → List Pair
refusal clean (syncs a session model requested) c =
    elim (sync clean a session model requested c).asked [
      | none ↦ []
      | some p ↦ if is_refusal a then p ∷ [] else []
    ]
refusal clean _ c = []

-- All pairs that the peer refused in the history of a session, the last one first.
unfoldable pub refusals : Json → (Bytes → Bytes) → List Event → Effort → List Pair
refusals json clean [] c = []
refusals json clean (e ∷ es) c = refusals json clean es (step json clean e c) ++ refusal clean e c

abbrev pub is_current : Capability → Bool
is_current current = true
is_current _ = false

abbrev pub Distinct : List Pair → Type 0
Distinct [] = Unit
Distinct (p ∷ ps) = (has_pair p ps ≡ false) × Distinct ps

abbrev pub status_pair : Status → Pair
status_pair s = record { model = s.model; effort = s.requested }

pub record Inv (c : Effort) : Type 0 where
  pub once : Distinct c.rejected
  pub few : length c.rejected ≤ max_probes
  pub honest : is_current c.status.state ≡ true → same_pair c.applied (status_pair c.status) ≡ true
