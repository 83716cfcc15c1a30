-- ===== src/Examples/WebsearchExamples.antt =====
-- Two runs that interleave for a budget of one search.
use dax_kiro_proxy.Common.{◌≤◌, ◌≡◌, refl, true, List, [], ◌∷◌, some}
use dax_kiro_proxy.Websearch.Budget.{
  granted, refused, Access, budget_root, start_taking, take_slot, count_slots, budget_count, Event,
  start, round_of, System, round_at, step, run,
}
use dax_kiro_proxy.Websearch.Slots.{grants, granted_count, run-grants, budget_count-grants}

abbrev access : Access
access = record { opens = true; closes = true }

-- Both start; one takes the slot, the other finds it taken and then no other.
abbrev events : List Event
events = start true ∷ start true ∷ round_of 0 access ∷ round_of 1 access ∷ round_of 1 access ∷ []

abbrev before : System
before = record { files = []; takers = [] }

abbrev after : System
after = record { files = 0 ∷ []; takers = granted 0 ∷ refused ∷ [] }

runs : run 1 events before ≡ after
unfolding run step round_at take_slot start_taking budget_root
runs = refl

run-grants_example :
    (grants 0 (run 1 events before).takers ≤ 1) × (granted_count (run 1 events before).takers ≤ 1)
run-grants_example = run-grants 1 events [] 0

counts : budget_count true (λ i. true) (run 1 events before).files 1 ≡ some 1
unfolding run step round_at take_slot start_taking budget_root budget_count count_slots
counts = refl

budget_count-grants_example : (granted_count (run 1 events before).takers ≤ 1) × (1 ≤ 1)
budget_count-grants_example = budget_count-grants 1 events [] true (λ i. true) 1 counts
