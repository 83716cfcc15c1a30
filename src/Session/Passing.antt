-- ===== src/Session/Passing.antt =====
-- The later sections of a start keep the invariant of the bindings.
use dax_kiro_proxy.Common.{
  ℕ, ◌≡◌, Bool, true, false, List, some, ℕ_eq, Bytes_eq, ==_iff, get_elem?, set, arith,
}
use dax_kiro_proxy.Session.Manager.{Binding, Manager, change, drop_user}
use dax_kiro_proxy.Session.Starts.{Phase, ready, gated, leaving, Active, remove_at, set_gate}
use dax_kiro_proxy.Session.Users.{
  is_gated, uses-set, gates-set, Known-set, uses-remove_at, gates-remove_at, Known-remove_at,
}
use dax_kiro_proxy.Session.Taking.{Inv}

-- What a change leaves of a binding, for the starts that use it.
pub change-Inv :
    (max : ℕ) (m : Manager) (b : ℕ) (f : Binding → Binding) (actives : List Active)
    → ((e : Binding) → (f e).users ≡ e.users)
    → ((e : Binding) → (f e).gate ≡ e.gate)
    → Inv max m actives
    → Inv max (change b f m) actives
change-Inv max m b f actives users gate inv = record {
  size = inv.size;
  users = λ c. ground (arith, inv.users c, users (m.bindings c));
  gates_held = λ c. ground (arith, inv.gates_held c, gate (m.bindings c));
  unborn = λ c h. ground (arith, inv.unborn c h, users (m.bindings c));
  born = inv.born;
  known = inv.known;
}

-- A start goes on, away from the gate.
pub pass-Inv :
    (max i : ℕ) (a : Active) (phase : Phase) (m : Manager) (actives : List Active)
    → get_elem? actives i ≡ some a
    → is_gated phase ≡ false
    → Inv max m actives
    → Inv max m (set actives i (record a { phase = phase }))
pass-Inv max i a phase m actives here free inv = record {
  size = inv.size;
  users = λ c. ground (arith, inv.users c, uses-set c i a phase actives here);
  gates_held = λ c. ground (arith, inv.gates_held c, gates-set c i a phase actives here);
  unborn = inv.unborn;
  born = inv.born;
  known = Known-set m.entries i a phase actives here inv.known;
}

pub enter-Inv :
    (max i : ℕ) (a : Active) (m : Manager) (actives : List Active)
    → get_elem? actives i ≡ some a
    → a.phase ≡ ready
    → (m.bindings a.binding).gate ≡ false
    → Inv max m actives
    → Inv max (change a.binding (set_gate true) m) (set actives i (record a { phase = gated }))
enter-Inv max i a m actives here at_gate open_gate inv = record {
  size = inv.size;
  users = λ c. ground (arith, inv.users c, uses-set c i a gated actives here);
  gates_held = λ c. ground (
    arith,
    inv.gates_held c,
    gates-set c i a gated actives here,
    ==_iff c a.binding,
    ==_iff a.binding c,
  );
  unborn = λ c h. ground (arith, inv.unborn c h);
  born = inv.born;
  known = Known-set m.entries i a gated actives here inv.known;
}

pub exit-Inv :
    (max i : ℕ) (a : Active) (m : Manager) (actives : List Active)
    → get_elem? actives i ≡ some a
    → a.phase ≡ gated
    → Inv max m actives
    → Inv max (change a.binding (set_gate false) m) (set actives i (record a { phase = leaving }))
exit-Inv max i a m actives here behind inv = record {
  size = inv.size;
  users = λ c. ground (arith, inv.users c, uses-set c i a leaving actives here);
  gates_held = λ c. ground (
    arith,
    inv.gates_held c,
    gates-set c i a leaving actives here,
    ==_iff c a.binding,
    ==_iff a.binding c,
  );
  unborn = λ c h. ground (arith, inv.unborn c h);
  born = inv.born;
  known = Known-set m.entries i a leaving actives here inv.known;
}

pub leave-Inv :
    (max i : ℕ) (a : Active) (m : Manager) (actives : List Active)
    → get_elem? actives i ≡ some a
    → Inv max m actives
    → Inv max (change a.binding drop_user m) (remove_at i actives)
leave-Inv max i a m actives here inv = record {
  size = inv.size;
  users = λ c. ground (
    arith,
    inv.users c,
    uses-remove_at c i a actives here,
    ==_iff c a.binding,
    ==_iff a.binding c,
  );
  gates_held = λ c. ground (arith, inv.gates_held c, gates-remove_at c i actives);
  unborn = λ c h. ground (arith, inv.unborn c h);
  born = inv.born;
  known = Known-remove_at m.entries i actives inv.known;
}

-- The parts of the manager that the invariant does not read.
pub flags-Inv :
    (max : ℕ) (m : Manager) (closed failed : Bool) (actives : List Active)
    → Inv max m actives
    → Inv max (record m { closed = closed; cleanup_failed = failed }) actives
flags-Inv max m closed failed actives inv = record {
  size = inv.size;
  users = inv.users;
  gates_held = inv.gates_held;
  unborn = inv.unborn;
  born = inv.born;
  known = inv.known;
}
