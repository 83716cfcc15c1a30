-- ===== src/Session/Taking.antt =====
-- The invariant of the bindings, and the first section of a start.
use dax_kiro_proxy.Common.{
  ℕ, suc, ◌≤◌, ◌<◌, ◌≡◌, refl, sym, ◌∙◌, Bool, true, ◌||◌, inl, inr, List, [], ◌∷◌, Option, none,
  some, ℕ_eq, Bytes_eq, Bytes, ==_iff, length, length-insert, lookup-insert_same, lookup, insert,
  all, ltb, if◌then◌else◌, arith, Bool-cases,
}
use dax_kiro_proxy.Session.Manager.{
  State, ManagerConfig, Manager, prune, evict, change, use_binding, bind, take_new, take_binding,
  admit,
}
use dax_kiro_proxy.Session.Starts.{closing, Active}
use dax_kiro_proxy.Session.Bindings.{Shrinks, prune-Shrinks, evict-Shrinks}
use dax_kiro_proxy.Session.Users.{uses, gates, Known, Known-Shrinks, Known-insert, gates-le-uses}

abbrev pub is_born : ℕ → Bytes × ℕ → Bool
is_born next e = ltb e.1 next

pub record Inv (max : ℕ) (m : Manager) (actives : List Active) : Type 0 where
  pub size : length m.entries ≤ max
  pub users : (b : ℕ) → uses b actives ≤ (m.bindings b).users
  pub gates_held : (b : ℕ) → gates b actives ≤ (if (m.bindings b).gate then 1 else 0)
  pub unborn : (b : ℕ) → m.next ≤ b → (m.bindings b).users ≡ 0
  pub born : all (is_born m.next) m.entries ≡ true
  pub known : Known m.entries actives

all-insert :
    (p : Bytes × ℕ → Bool) (k : Bytes) (b : ℕ) (m : List (Bytes × ℕ))
    → ((j : Bytes) → p (j, b) ≡ true)
    → all p m ≡ true
    → all p (insert k b m) ≡ true
unfolding insert
all-insert p k b [] h e = ground (arith, h k)
all-insert p k b ((j, c) ∷ m) h e = ground (arith, h k, all-insert p k b m h)

born_later :
    (next : ℕ) (m : List (Bytes × ℕ))
    → all (is_born next) m ≡ true
    → all (is_born (suc next)) m ≡ true
born_later next [] h = refl
born_later next (e ∷ m) h = ground (arith, born_later next m)

lookup-born :
    (next : ℕ) (k : Bytes) (b : ℕ) (m : List (Bytes × ℕ))
    → all (is_born next) m ≡ true
    → lookup k m ≡ some b
    → b < next
unfolding lookup
lookup-born next k b [] h e = ground arith
lookup-born next k b ((j, c) ∷ m) h e = ground (arith, lookup-born next k b m)

shrunk-Inv :
    (max : ℕ) (m : Manager) (entries : List (Bytes × ℕ)) (actives : List Active)
    → Shrinks m.bindings m.entries entries
    → Inv max m actives
    → Inv max (record m { entries = entries }) actives
shrunk-Inv max m entries actives h inv = record {
  size = omega (arith, h.size, inv.size);
  users = inv.users;
  gates_held = inv.gates_held;
  unborn = inv.unborn;
  born = h.kept (is_born m.next) inv.born;
  known = Known-Shrinks m.bindings m.entries entries actives h inv.users inv.known;
}

abbrev pub joined : Bytes → ℕ → Active
joined key b = record { key = key; binding = b; phase = closing }

join-Inv :
    (max : ℕ) (m : Manager) (key : Bytes) (b : ℕ) (actives : List Active)
    → lookup key m.entries ≡ some b
    → Inv max m actives
    → Inv max (change b use_binding m) (joined key b ∷ actives)
unfolding uses gates
join-Inv max m key b actives here inv = record {
  size = inv.size;
  users = λ c. ground (arith, inv.users c, ==_iff c b);
  gates_held = λ c. ground (arith, inv.gates_held c);
  unborn = λ c h. ground (arith, inv.unborn c h, lookup-born m.next key b m.entries inv.born here);
  born = inv.born;
  known = (here, inv.known);
}

bind-Inv :
    (max now : ℕ) (m : Manager) (key : Bytes) (actives : List Active)
    → lookup key m.entries ≡ none
    → length m.entries < max
    → Inv max m actives
    → Inv max (bind key now m) (joined key m.next ∷ actives)
unfolding uses gates bind
bind-Inv max now m key actives fresh room inv = record {
  size = ground (arith, length-insert key m.next m.entries);
  users = λ c. ground (arith, inv.users c, inv.unborn m.next (omega arith));
  gates_held = λ c. ground (
    arith,
    inv.gates_held c,
    gates-le-uses m.next actives,
    inv.users m.next,
    inv.unborn m.next (omega arith),
  );
  unborn = λ c h. ground (arith, inv.unborn c);
  born =
      all-insert (is_born (suc m.next)) key m.next m.entries (λ j. ground arith)
        (born_later m.next m.entries inv.born);
  known = (
    lookup-insert_same key m.next m.entries,
    Known-insert key m.next m.entries actives (λ a e. ground (arith, sym fresh ∙ e)) inv.known,
  );
}

-- The state after a start took a binding, or none.
abbrev pub taken_actives : Bytes → Option ℕ → List Active → List Active
taken_actives key none actives = actives
taken_actives key (some b) actives = joined key b ∷ actives

abbrev pub Taken : ℕ → Bytes → List Active → Option ℕ × Manager → Type 0
Taken max key actives (taken, m) = Inv max m (taken_actives key taken actives)

take_new-Taken :
    (cfg : ManagerConfig) (key : Bytes) (now : ℕ) (m : Manager) (actives : List Active)
    → lookup key m.entries ≡ none
    → Inv cfg.max_sessions m actives
    → Taken cfg.max_sessions key actives (take_new cfg key now m)
unfolding take_new
take_new-Taken cfg key now m actives fresh inv =
    elim (Bool-cases (ltb (length m.entries) cfg.max_sessions)) [
      | inl e ↦ rw e (bind-Inv cfg.max_sessions now m key actives fresh (ground arith) inv)
      | inr e ↦ rw e inv
    ]

take_binding-Taken :
    (cfg : ManagerConfig) (states : ℕ → State) (key : Bytes) (now : ℕ) (m : Manager)
    (actives : List Active)
    → Inv cfg.max_sessions m actives
    → Taken cfg.max_sessions key actives (take_binding cfg states key now m)
unfolding take_binding evict
take_binding-Taken cfg states key now m actives inv = looked_up (lookup key m.entries) refl
  where
    looked_up :
        (o : Option ℕ)
        → lookup key m.entries ≡ o
        → Taken cfg.max_sessions key actives (elim o [
          | some b ↦ (some b, change b use_binding m)
          | none ↦ take_new cfg key now (evict cfg states m)
        ])
    looked_up (some b) e = join-Inv cfg.max_sessions m key b actives e inv
    looked_up none e =
        take_new-Taken cfg key now (evict cfg states m) actives
          ((evict-Shrinks cfg states m).missing key e)
          (shrunk-Inv cfg.max_sessions m (evict cfg states m).entries actives
            (evict-Shrinks cfg states m) inv)

pub prune-Inv :
    (cfg : ManagerConfig) (states : ℕ → State) (now : ℕ) (m : Manager) (actives : List Active)
    → Inv cfg.max_sessions m actives
    → Inv cfg.max_sessions (prune cfg states now m) actives
unfolding prune
prune-Inv cfg states now m actives inv =
    shrunk-Inv cfg.max_sessions m (prune cfg states now m).entries actives
      (prune-Shrinks cfg states now m) inv

pub admit-Taken :
    (cfg : ManagerConfig) (states states' : ℕ → State) (key : Bytes) (now : ℕ) (m : Manager)
    (actives : List Active)
    → Inv cfg.max_sessions m actives
    → Taken cfg.max_sessions key actives (admit cfg states states' key now m)
unfolding admit
admit-Taken cfg states states' key now m actives inv =
    elim (Bool-cases (m.closed || m.cleanup_failed)) [
      | inl e ↦ rw e inv
      | inr e ↦ rw e (
          take_binding-Taken cfg states' key now (prune cfg states now m) actives
            (prune-Inv cfg states now m actives inv))
    ]
