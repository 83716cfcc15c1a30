-- ===== src/Session/Starts.antt =====
-- internal/session/manager.go: the calls of `Start` at any moments. Each event is one section under the
-- lock, or the attempt to take the gate of a binding.
use dax_kiro_proxy.Common.{
  ℕ, zero, suc, Bool, true, false, List, [], ◌∷◌, Option, none, some, ℕ_eq, Bytes, get_elem?, set,
  is_empty, ◌&&◌, if◌then◌else◌,
}
use dax_kiro_proxy.Session.Manager.{
  State, Binding, ManagerConfig, Manager, new_manager, change, drop_user, admit, close_expired,
  touch, prune_all,
}

-- Where a start is: closing what expired, before the gate, behind it, or on its way out.
pub data Phase : Type 0 where
  closing ready gated leaving : Phase

pub record Active : Type 0 where
  pub key : Bytes
  pub binding : ℕ
  pub phase : Phase

-- `drivers` counts the drivers that were made.
pub record System : Type 0 where
  pub manager : Manager
  pub actives : List Active
  pub drivers : ℕ

abbrev pub initial : System
initial = record { manager = new_manager; actives = []; drivers = 0 }

pub data Event : Type 0 where
  begins : Bytes → ℕ → (ℕ → State) → (ℕ → State) → Event
  expires : ℕ → Bool → Event  -- the place of a start, and whether `closeExpired` failed
  enters : ℕ → Event
  drives : ℕ → Event
  returns : ℕ → Option ℕ → Event  -- the time of the touch, if the driver refused
  leaves : ℕ → Event
  touches : ℕ → ℕ → Event
  prunes : ℕ → (ℕ → State) → Event
  sweeps : Bool → Event
  closes clears : Event

abbrev pub remove_at : ℕ → List Active → List Active
remove_at i [] = []
remove_at zero (a ∷ rest) = rest
remove_at (suc i) (a ∷ rest) = a ∷ remove_at i rest

abbrev pub move : ℕ → Active → Phase → System → System
move i a phase s = record s { actives = set s.actives i (record a { phase = phase }) }

abbrev pub with_manager : Manager → System → System
with_manager m s = record s { manager = m }

unfoldable pub begin_start : ManagerConfig → Bytes → ℕ → (ℕ → State) → (ℕ → State) → System → System
begin_start cfg key now states states' s =
    let (taken, m) = admit cfg states states' key now s.manager in
    elim taken [
      | none ↦ with_manager m s
      | some b ↦ record s {
        manager = m;
        actives = record { key = key; binding = b; phase = closing } ∷ s.actives;
      }
    ]

abbrev pub set_gate : Bool → Binding → Binding
set_gate held e = record e { gate = held }

abbrev pub set_driver : ℕ → Binding → Binding
set_driver d e = record e { driver = some (elim e.driver [ none ↦ d | some old ↦ old ]) }

-- What a start does next, by its phase.
unfoldable pub expire_at : Bool → Phase → ℕ → Active → System → System
expire_at failed closing i a s =
    let m = close_expired failed s.manager in
    move i a (if m.cleanup_failed then leaving else ready) (with_manager m s)
expire_at failed _ i a s = s

unfoldable pub enter_at : Phase → ℕ → Active → System → System
enter_at ready i a s =
    if (s.manager.bindings a.binding).gate
    then move i a leaving s
    else move i a gated (with_manager (change a.binding (set_gate true) s.manager) s)
enter_at _ i a s = s

unfoldable pub drive_at : Phase → ℕ → Active → System → System
drive_at gated i a s =
    with_manager (change a.binding (set_driver s.drivers) s.manager)
      (record s { drivers = suc s.drivers })
drive_at _ i a s = s

abbrev pub touch_if : Option ℕ → ℕ → Manager → Manager
touch_if none b m = m
touch_if (some now) b m = touch b now m

unfoldable pub return_at : Option ℕ → Phase → ℕ → Active → System → System
return_at refused gated i a s =
    let m = touch_if refused a.binding s.manager in
    move i a leaving (with_manager (change a.binding (set_gate false) m) s)
return_at refused _ i a s = s

unfoldable pub leave_at : Phase → ℕ → Active → System → System
leave_at leaving i a s = record s {
  manager = change a.binding drop_user s.manager;
  actives = remove_at i s.actives;
}
leave_at _ i a s = s

-- One section of the start at a place.
abbrev pub advance : Event → ℕ → Active → System → System
advance (expires _ failed) i a s = expire_at failed a.phase i a s
advance (enters _) i a s = enter_at a.phase i a s
advance (drives _) i a s = drive_at a.phase i a s
advance (returns _ refused) i a s = return_at refused a.phase i a s
advance (leaves _) i a s = leave_at a.phase i a s
advance _ i a s = s

abbrev pub place_of : Event → ℕ
place_of (expires i failed) = i
place_of (enters i) = i
place_of (drives i) = i
place_of (returns i refused) = i
place_of (leaves i) = i
place_of _ = 0

-- The second section of `Close` waits for every start.
unfoldable pub clear : System → System
clear s =
    if s.manager.closed && is_empty s.actives
    then with_manager (record s.manager { entries = [] }) s
    else s

unfoldable pub proceed : Event → System → System
proceed e s = elim (get_elem? s.actives (place_of e)) [
  | none ↦ s
  | some a ↦ advance e (place_of e) a s
]

unfoldable pub step : ManagerConfig → Event → System → System
step cfg (begins key now states states') s = begin_start cfg key now states states' s
step cfg (touches b now) s = with_manager (touch b now s.manager) s
step cfg (prunes now states) s = with_manager (prune_all cfg states now s.manager) s
step cfg (sweeps failed) s = with_manager (close_expired failed s.manager) s
step cfg closes s = with_manager (record s.manager { closed = true }) s
step cfg clears s = clear s
step cfg (expires i failed) s = proceed (expires i failed) s
step cfg (enters i) s = proceed (enters i) s
step cfg (drives i) s = proceed (drives i) s
step cfg (returns i refused) s = proceed (returns i refused) s
step cfg (leaves i) s = proceed (leaves i) s

unfoldable pub run : ManagerConfig → List Event → System → System
run cfg [] s = s
run cfg (e ∷ es) s = run cfg es (step cfg e s)
