-- ===== src/Session/Exclusion.antt =====
-- Whatever the starts do, one binding serves each key, and one start is behind its gate.
use dax_kiro_proxy.Common.{
  ℕ, zero, suc, ◌≤◌, ◌≡◌, sym, ap, subst, ◌∙◌, List, [], ◌∷◌, some, ℕ_eq, Bytes_eq, Bytes, length,
  lookup, get_elem?, arith,
}
use dax_kiro_proxy.Session.Manager.{ManagerConfig}
use dax_kiro_proxy.Session.Starts.{Active, initial, Event, run}
use dax_kiro_proxy.Session.Users.{gates, Known}
use dax_kiro_proxy.Session.Events.{initial-Inv}

Known-found :
    (m : List (Bytes × ℕ)) (i : ℕ) (a : Active) (actives : List Active)
    → Known m actives
    → get_elem? actives i ≡ some a
    → lookup a.key m ≡ some a.binding
Known-found m i a [] k h = ground arith
Known-found m zero a (c ∷ actives) (here, _) h =
    let same : c ≡ a = ground arith in
    subst (λ (x : Active). lookup x.key m ≡ some x.binding) same here
Known-found m (suc i) a (c ∷ actives) (_, there) h = Known-found m i a actives there h

-- However the calls of `Start` interleave with turns, pruning and closing, the map has at most
-- `max_sessions` bindings, and at most one start is behind the gate of each binding.
pub run-gates :
    (cfg : ManagerConfig) (es : List Event) (b : ℕ)
    → (length (run cfg es initial).manager.entries ≤ cfg.max_sessions)
      × (gates b (run cfg es initial).actives ≤ 1)
run-gates cfg es b = let inv = initial-Inv cfg es in (inv.size, ground (arith, inv.gates_held b))

-- Two starts with the same key that are under way at the same time use the same binding, and the map
-- still leads from the key to it: a binding in use is neither pruned nor evicted.
pub run-one_binding :
    (cfg : ManagerConfig) (es : List Event) (i j : ℕ) (a c : Active)
    → get_elem? (run cfg es initial).actives i ≡ some a
    → get_elem? (run cfg es initial).actives j ≡ some c
    → a.key ≡ c.key
    → (a.binding ≡ c.binding) × (lookup a.key (run cfg es initial).manager.entries ≡ some a.binding)
run-one_binding cfg es i j a c here there same =
    let s = run cfg es initial in
    let inv = initial-Inv cfg es in
    let first = Known-found s.manager.entries i a s.actives inv.known here in
    let second = Known-found s.manager.entries j c s.actives inv.known there in
    let both : some a.binding ≡ some c.binding =
      sym first ∙ ap (λ k. lookup k s.manager.entries) same ∙ second in
    (ground (arith, both), first)
