-- ===== src/Examples/ManagerExamples.antt =====
-- Two starts of one conversation, the second while the first is behind the gate.
use dax_kiro_proxy.Common.{
  ℕ, ◌≤◌, ◌≡◌, refl, false, List, [], ◌∷◌, some, ℕ_eq, Bytes_eq, Bytes, bytes, equal, length,
  lookup, insert, delete,
}
use dax_kiro_proxy.Session.Manager.{
  State, unstarted, ManagerConfig, prune, evict, find_oldest, idle_binding, bind, take_new,
  take_binding, admit,
}
use dax_kiro_proxy.Session.Starts.{
  gated, leaving, Active, initial, Event, begins, expires, enters, drives, begin_start, expire_at,
  enter_at, drive_at, proceed, step, run,
}
use dax_kiro_proxy.Session.Users.{gates}
use dax_kiro_proxy.Session.Exclusion.{run-gates, run-one_binding}

abbrev config : ManagerConfig
config = record { max_sessions = 1; idle_ttl = 10 }

abbrev rest : ℕ → State
rest d = unstarted

abbrev key : Bytes
key = bytes "k"

abbrev events : List Event
events =
    begins key 0 rest rest
    ∷ expires 0 false
    ∷ enters 0
    ∷ drives 0
    ∷ begins key 1 rest rest
    ∷ expires 0 false
    ∷ enters 0
    ∷ begins (bytes "l") 20 rest rest
    ∷ []

-- The second start finds the gate taken, and a start of another conversation finds no room.
second_leaves :
    (run config events initial).actives
    ≡ record { key = key; binding = 0; phase = leaving }
      ∷ record { key = key; binding = 0; phase = gated }
      ∷ []
unfolding run step proceed begin_start expire_at enter_at drive_at admit take_binding take_new bind
    prune evict find_oldest idle_binding lookup insert delete equal
second_leaves = refl

run-gates_example :
    (length (run config events initial).manager.entries ≤ 1)
    × (gates 0 (run config events initial).actives ≤ 1)
run-gates_example = run-gates config events 0

abbrev first_start : Active
first_start = record { key = key; binding = 0; phase = gated }

abbrev second_start : Active
second_start = record { key = key; binding = 0; phase = leaving }

run-one_binding_example :
    (first_start.binding ≡ second_start.binding)
    × (lookup key (run config events initial).manager.entries ≡ some 0)
unfolding run step proceed begin_start expire_at enter_at drive_at admit take_binding take_new bind
    prune evict find_oldest idle_binding lookup insert delete equal
run-one_binding_example = run-one_binding config events 1 0 first_start second_start refl refl refl
