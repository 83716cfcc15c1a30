-- ===== src/Session/Manager.antt =====
-- internal/session/manager.go: the bindings of a manager, one function for each section under its lock. A
-- binding is a number, since a start and a turn keep it while the map changes; the states of the drivers
-- are an argument of each walk over them. The drivers that a walk hands on to be closed are left out.
use dax_kiro_proxy.Common.{
  ℕ, suc, ◌-◌, ◌*◌, Bool, true, false, not, ◌&&◌, ◌||◌, List, [], ◌∷◌, Option, none, some, ℕ_eq,
  Bytes_eq, Bytes, ◌==◌, length, lookup, insert, delete, keys, keep_if, ltb, leb, if◌then◌else◌,
}

pub data State : Type 0 where
  unstarted starting idle prompting waiting_tools closed : State

pub record Binding : Type 0 where
  pub driver : Option ℕ
  pub gate : Bool  -- whether a start holds it
  pub users : ℕ
  pub touched : ℕ

pub record ManagerConfig : Type 0 where
  pub max_sessions : ℕ
  pub idle_ttl : ℕ

pub record Manager : Type 0 where
  pub entries : List (Bytes × ℕ)
  pub bindings : ℕ → Binding
  pub next : ℕ
  pub closed : Bool
  pub cleanup_failed : Bool

abbrev hour : ℕ
hour = 3600000000000

-- The limits of `NewManager`, for numbers that are not below zero.
abbrev or_default : ℕ → ℕ → ℕ
or_default n other = if n == 0 then other else n

unfoldable pub new_config : ManagerConfig → Option ManagerConfig
new_config cfg =
    let full : ManagerConfig = record {
      max_sessions = or_default cfg.max_sessions 8;
      idle_ttl = or_default cfg.idle_ttl hour;
    } in
    if leb full.max_sessions 128 && leb full.idle_ttl (24 * hour) then some full else none

abbrev pub new_binding : ℕ → Binding
new_binding now = record { driver = none; gate = false; users = 0; touched = now }

abbrev pub new_manager : Manager
new_manager = record {
  entries = [];
  bindings = λ b. new_binding 0;
  next = 0;
  closed = false;
  cleanup_failed = false;
}

abbrev resting : State → Bool
resting idle = true
resting unstarted = true
resting closed = true
resting _ = false

-- `idleBinding`, for the states of the drivers.
unfoldable pub idle_binding : (ℕ → State) → Binding → Bool
idle_binding states e =
    e.users == 0 && (elim e.driver [ none ↦ false | some d ↦ resting (states d) ])

abbrev pub is_expired : ManagerConfig → (ℕ → State) → ℕ → Binding → Bool
is_expired cfg states now e = idle_binding states e && leb cfg.idle_ttl (now - e.touched)

-- `pruneLocked`.
unfoldable pub prune : ManagerConfig → (ℕ → State) → ℕ → Manager → Manager
prune cfg states now m = record m {
  entries = keep_if (λ (e : Bytes × ℕ). not (is_expired cfg states now (m.bindings e.1))) m.entries;
}

-- Whether a binding is touched before the one that was found so far.
abbrev pub older : (ℕ → Binding) → ℕ → Option (Bytes × ℕ) → Bool
older bindings b none = true
older bindings b (some (k, c)) = ltb (bindings b).touched (bindings c).touched

-- The idle binding that was touched first, over the keys of the map.
unfoldable pub find_oldest :
    (ℕ → State) → Manager → List Bytes → Option (Bytes × ℕ) → Option (Bytes × ℕ)
find_oldest states m [] found = found
find_oldest states m (k ∷ ks) found = find_oldest states m ks (elim (lookup k m.entries) [
  | none ↦ found
  | some b ↦
      if idle_binding states (m.bindings b) && older m.bindings b found then some (k, b) else found
])

abbrev pub remaining : Option (Bytes × ℕ) → List (Bytes × ℕ) → List (Bytes × ℕ)
remaining none m = m
remaining (some (k, b)) m = delete k m

-- Room for a new binding, if the map is full.
unfoldable pub evict : ManagerConfig → (ℕ → State) → Manager → Manager
evict cfg states m = record m {
  entries =
      if leb cfg.max_sessions (length m.entries)
      then remaining (find_oldest states m (keys m.entries) none) m.entries
      else m.entries;
}

abbrev pub change : ℕ → (Binding → Binding) → Manager → Manager
change b f m = record m { bindings = λ c. if c == b then f (m.bindings c) else m.bindings c }

abbrev pub use_binding : Binding → Binding
use_binding e = record e { users = suc e.users }

abbrev pub drop_user : Binding → Binding
drop_user e = record e { users = e.users - 1 }

-- A new binding for a key, with its first user.
unfoldable pub bind : Bytes → ℕ → Manager → Manager
bind key now m = record m {
  entries = insert key m.next m.entries;
  bindings = λ c. if c == m.next then use_binding (new_binding now) else m.bindings c;
  next = suc m.next;
}

unfoldable pub take_new : ManagerConfig → Bytes → ℕ → Manager → Option ℕ × Manager
take_new cfg key now m =
    if ltb (length m.entries) cfg.max_sessions then (some m.next, bind key now m) else (none, m)

-- The binding of a key that a start takes; `none` if the map is full.
unfoldable pub take_binding : ManagerConfig → (ℕ → State) → Bytes → ℕ → Manager → Option ℕ × Manager
take_binding cfg states key now m = elim (lookup key m.entries) [
  | some b ↦ (some b, change b use_binding m)
  | none ↦ take_new cfg key now (evict cfg states m)
]

-- The first section of `Start`.
unfoldable pub admit :
    ManagerConfig → (ℕ → State) → (ℕ → State) → Bytes → ℕ → Manager → Option ℕ × Manager
admit cfg states states' key now m =
    if m.closed || m.cleanup_failed
    then (none, m)
    else take_binding cfg states' key now (prune cfg states now m)

-- The end of `closeExpired`, and whether the start goes on.
abbrev pub close_expired : Bool → Manager → Manager
close_expired failed m = record m { cleanup_failed = m.cleanup_failed || failed }

-- `touch`.
abbrev pub touch : ℕ → ℕ → Manager → Manager
touch b now m = change b (λ e. record e { touched = now }) m

-- `Prune`, up to `closeExpired`.
unfoldable pub prune_all : ManagerConfig → (ℕ → State) → ℕ → Manager → Manager
prune_all cfg states now m = if m.closed || m.cleanup_failed then m else prune cfg states now m
