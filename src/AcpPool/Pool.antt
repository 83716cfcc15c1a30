-- ===== src/AcpPool/Pool.antt =====
-- internal/acppool/pool.go: the pool. A Go map is walked in any order: `groups` is the map in the order
-- of the walk, and a step of `Runs` may reorder it. Each function is one section under the lock; what a
-- goroutine waits for in between is an event of its own. Times are milliseconds.
use dax_kiro_proxy.Common.{
  ℕ, zero, suc, ◌+◌, ◌-◌, min, Bool, true, false, not, ◌&&◌, ◌||◌, List, [], ◌∷◌, ◌++◌, Option,
  none, some, ℕ_eq, Bytes, Bytes_eq, ◌==◌, length, ltb, leb, if◌then◌else◌, is_some, is_empty,
}
use dax_kiro_proxy.AcpPool.Group.{
  Error, closed_error, parameters_error, overloaded_error, Config, Lease, Group, new_group,
  add_lease, retire,
}
use dax_kiro_proxy.AcpPool.Moves.{has_room}

pub record Pool : Type 0 where
  pub groups : List (ℕ × Group)
  pub next : ℕ  -- names the next process
  pub closed : Bool
  pub cleanup_err : Option Error

-- The defaults and limits of `New`.
abbrev or_default : ℕ → ℕ → ℕ
or_default n default = if n == 0 then default else n

abbrev in_range : ℕ → ℕ → Bool
in_range n max = leb 1 n && leb n max

unfoldable pub with_defaults : Config → Config
with_defaults c = record {
  max_processes = or_default c.max_processes 4;
  sessions_per_process = or_default c.sessions_per_process 2;
  max_idle = or_default c.max_idle 2;
  event_queue = or_default c.event_queue 64;
  event_bytes = or_default c.event_bytes 16777216;
  idle_ttl = or_default c.idle_ttl 300000;
  setup_timeout = or_default c.setup_timeout 30000;
}

unfoldable pub config_ok : Config → Bool
config_ok c =
    in_range c.max_processes 16
    && in_range c.sessions_per_process 8
    && in_range c.max_idle 16
    && in_range c.event_queue 1024
    && in_range c.event_bytes 67108864
    && in_range c.idle_ttl 3600000
    && in_range c.setup_timeout 60000

-- `New`: the configuration that the pool keeps.
unfoldable pub new_config : Config → Option Config
unfolding with_defaults config_ok
new_config c =
    let d = with_defaults c in
    if config_ok d then some (record d { max_idle = min d.max_idle d.max_processes }) else none

abbrev pub new_pool : Pool
new_pool = record { groups = []; next = 0; closed = false; cleanup_err = none }

-- A function on one process.
unfoldable pub adjust : (Group → Group) → ℕ → List (ℕ × Group) → List (ℕ × Group)
adjust f k [] = []
adjust f k ((j, g) ∷ gs) = if j == k then (j, f g) ∷ adjust f k gs else (j, g) ∷ adjust f k gs

unfoldable pub without : ℕ → List (ℕ × Group) → List (ℕ × Group)
without k [] = []
without k ((j, g) ∷ gs) = if j == k then without k gs else (j, g) ∷ without k gs

-- Since when a process that has not failed is idle.
unfoldable pub idle_since : Group → Option ℕ
idle_since g = if is_some g.err || not (g.busy == 0) then none else g.idle_at

-- The first loop of `pruneLocked`: the processes, the idle ones that expired being retired, and the
-- other idle ones.
unfoldable pub expire : Config → ℕ → List (ℕ × Group) → List (ℕ × Group) × List (ℕ × ℕ)
expire cfg now [] = ([], [])
expire cfg now ((k, g) ∷ gs) =
    let (gs', idle) = expire cfg now gs in
    elim (idle_since g) [
      | none ↦ ((k, g) ∷ gs', idle)
      | some t ↦
          if leb cfg.idle_ttl (now - t)
          then ((k, retire closed_error g) ∷ gs', idle)
          else ((k, g) ∷ gs', (k, t) ∷ idle)
    ]

-- The oldest of the idle processes, the first of those with the earliest time.
unfoldable pub oldest : ℕ × ℕ → List (ℕ × ℕ) → ℕ × ℕ
oldest best [] = best
oldest best (e ∷ es) = oldest (if ltb e.1 best.1 then e else best) es

unfoldable pub without_idle : ℕ → List (ℕ × ℕ) → List (ℕ × ℕ)
without_idle k [] = []
without_idle k ((j, t) ∷ idle) =
    if j == k then without_idle k idle else (j, t) ∷ without_idle k idle

-- The second loop, at most as many rounds as there are idle processes.
unfoldable pub shed : Config → ℕ → List (ℕ × ℕ) → List (ℕ × Group) → List (ℕ × Group)
shed cfg zero idle gs = gs
shed cfg (suc rounds) [] gs = gs
shed cfg (suc rounds) (e ∷ idle) gs =
    let k = (oldest e idle).0 in
    let rest = shed cfg rounds (without_idle k (e ∷ idle)) (adjust (retire closed_error) k gs) in
    if ltb cfg.max_idle (length (e ∷ idle)) then rest else gs

-- `pruneLocked`
unfoldable pub prune : Config → ℕ → Pool → Pool
prune cfg now p =
    let (gs, idle) = expire cfg now p.groups in record p { groups = shed cfg (length idle) idle gs }

-- Whether `acquire` may give a lease of a process to a scope.
unfoldable pub compatible : Config → Bytes → Group → Bool
unfolding has_room
compatible cfg scope g = has_room cfg g && g.scope == scope

-- Another lease of the first such process: the processes, and which one it is.
unfoldable pub share : Config → Bytes → List (ℕ × Group) → Option (List (ℕ × Group) × ℕ)
share cfg scope [] = none
share cfg scope ((k, g) ∷ gs) =
    let later : Option (List (ℕ × Group) × ℕ) = elim (share cfg scope gs) [
      | none ↦ none
      | some (gs', j) ↦ some ((k, g) ∷ gs', j)
    ] in
    if compatible cfg scope g then some ((k, add_lease g) ∷ gs, k) else later

-- The process that is idle longest; the zero time is before all others.
earlier : Option ℕ → Option ℕ → Bool
earlier _ none = false
earlier none (some _) = true
earlier (some t) (some u) = ltb t u

unfoldable pub find_oldest : Option (ℕ × Group) → List (ℕ × Group) → Option ℕ
unfolding earlier
find_oldest none [] = none
find_oldest (some (k, g)) [] = some k
find_oldest none ((k, g) ∷ gs) =
    find_oldest (if is_some g.err || not (g.busy == 0) then none else some (k, g)) gs
find_oldest (some (j, f)) ((k, g) ∷ gs) =
    find_oldest
      (if is_some g.err || not (g.busy == 0)
        then some (j, f)
        else if earlier g.idle_at f.idle_at
        then some (k, g)
        else some (j, f))
      gs

-- What `acquire` decides under the lock: another lease of a process, the first lease of a new one, a
-- process to wait for before it decides again, without `recycle`, or an error.
pub data Acquired : Type 0 where
  shared launched retired : ℕ → Acquired
  refused : Error → Acquired

-- The part behind the checks, from the search for a process on.
unfoldable pub choose : Config → Bytes → Bool → Bool → Pool → Pool × Acquired
choose cfg scope recycle dedicated p = elim (if dedicated then none else share cfg scope p.groups) [
  | some (gs, k) ↦ (record p { groups = gs }, shared k)
  | none ↦
      if leb cfg.max_processes (length p.groups)
      then elim (if recycle then find_oldest none p.groups else none) [
        | some k ↦ (record p { groups = adjust (retire closed_error) k p.groups }, retired k)
        | none ↦ (p, refused overloaded_error)
      ]
      else (
        record p {
          groups = p.groups ++ (p.next, new_group scope dedicated) ∷ [];
          next = suc p.next;
        },
        launched p.next,
      )
]

unfoldable pub acquire : Config → ℕ → Option Error → Bytes → Bool → Bool → Pool → Pool × Acquired
acquire cfg now ctx_err scope recycle dedicated p₀ = elim ctx_err [
  | some e ↦ (p₀, refused e)
  | none ↦
      if is_empty scope || ltb 256 (length scope)
      then (p₀, refused parameters_error)
      else let p = prune cfg now p₀ in
        elim p.cleanup_err [
          | some e ↦ (p, refused e)
          | none ↦
              if p.closed then (p, refused closed_error) else choose cfg scope recycle dedicated p
        ]
]

-- The end of the goroutine of `retireLocked`: the process has closed, with an error or without.
unfoldable pub clean : ℕ → Option Error → Pool → Pool
unfolding without
clean k close_err p = record p {
  groups = without k p.groups;
  cleanup_err = elim p.cleanup_err [ none ↦ close_err | some e ↦ some e ];
}

unfoldable pub retire_all : List (ℕ × Group) → List (ℕ × Group)
retire_all [] = []
retire_all ((k, g) ∷ gs) = (k, retire closed_error g) ∷ retire_all gs

-- The first section of `Close`.
unfoldable pub close : Pool → Pool
unfolding retire_all
close p = record p { closed = true; groups = retire_all p.groups }

pub record Stats : Type 0 where
  pub processes : ℕ
  pub sessions : ℕ
  pub busy : ℕ
  pub idle : ℕ

abbrev pub live_count : List Lease → ℕ
live_count [] = 0
live_count (l ∷ ls) = (if l.live then 1 else 0) + live_count ls

unfoldable pub stats_of : List (ℕ × Group) → Stats
stats_of [] = record { processes = 0; sessions = 0; busy = 0; idle = 0 }
stats_of ((k, g) ∷ gs) =
    let s = stats_of gs in
    record {
      processes = suc s.processes;
      sessions = live_count g.leases + s.sessions;
      busy = g.busy + s.busy;
      idle = if is_some g.err || not (g.busy == 0) then s.idle else suc s.idle;
    }

-- `Stats`
unfoldable pub stats : Pool → Stats
unfolding stats_of
stats p = stats_of p.groups
