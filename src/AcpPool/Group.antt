-- ===== src/AcpPool/Group.antt =====
-- internal/acppool/pool.go: one process of the pool, its leases and its router. A lease is named by its
-- place in the list of all leases that the process ever had; `live` tells whether it is in the map
-- `leases`. Each function is one section under the pool's lock. The client is what `Err` says of it.
use dax_kiro_proxy.Common.{
  ℕ, ◌+◌, ◌-◌, Bool, true, false, not, ◌&&◌, ◌||◌, List, [], ◌∷◌, ◌++◌, Option, none, some, map,
  ℕ_eq, Bytes, Bytes_eq, bytes, ◌==◌, length, get_elem?, set, lookup, insert, ltb, leb,
  if◌then◌else◌, is_some, is_empty,
}
use dax_kiro_proxy.Json.{Json, Fields}
use dax_kiro_proxy.Ndjson.{object}

pub data Error : Type 0 where
  closed_error parameters_error protocol_error overloaded_error : Error
  -- an error of the client, of the launch or of the context
  other_error : Bytes → Error

pub record Config : Type 0 where
  pub max_processes : ℕ
  pub sessions_per_process : ℕ
  pub max_idle : ℕ
  pub event_queue : ℕ
  pub event_bytes : ℕ
  pub idle_ttl : ℕ
  pub setup_timeout : ℕ

pub record Notification : Type 0 where
  pub method : Bytes
  pub session_id : Bytes
  pub params : Bytes

pub record Lease : Type 0 where
  pub id : Bytes
  pub candidate : Bytes
  pub loading : Bool
  pub idle : Bool
  pub err : Option Error
  pub queue : List Notification
  pub total : ℕ  -- `bytes`
  pub activity : Bool
  pub ended : Bool
  pub live : Bool

pub record Group : Type 0 where
  pub scope : Bytes
  pub started : Bool  -- `client != nil`
  pub client_err : Option Error
  pub err : Option Error
  pub leases : List Lease
  pub routes : List (Bytes × Option ℕ)
  pub allocated : ℕ
  pub busy : ℕ
  pub idle_at : Option ℕ  -- the zero time is `none`
  pub creating : Option ℕ
  pub dedicated : Bool

unfoldable pub event_bytes_of : Notification → ℕ
event_bytes_of n = length n.method + length n.session_id + length n.params

abbrev pub or_else : Option Error → Option Error → Option Error
or_else none e = e
or_else (some e) _ = some e

-- Equality of Booleans.
abbrev pub same : Bool → Bool → Bool
same true b = b
same false b = not b

-- `errLocked`
abbrev pub lease_err : Group → Lease → Option Error
lease_err g l = or_else l.err (or_else g.err g.client_err)

-- `newLeaseLocked`
abbrev pub new_lease : Lease
new_lease = record {
  id = [];
  candidate = [];
  loading = false;
  idle = false;
  err = none;
  queue = [];
  total = 0;
  activity = false;
  ended = false;
  live = true;
}

unfoldable pub add_lease : Group → Group
add_lease g = record g {
  leases = g.leases ++ new_lease ∷ [];
  allocated = g.allocated + 1;
  busy = g.busy + 1;
  idle_at = none;
}

-- What `retireLocked` does to a lease of the map.
abbrev pub end_lease : Lease → Lease
end_lease l =
    if l.live then record l { ended = true; queue = []; total = 0; activity = true } else l

-- `retireLocked`; the goroutine that it starts is `cleaned` of the pool.
unfoldable pub retire : Error → Group → Group
retire reason g = elim g.err [
  | some _ ↦ g
  | none ↦ record g { err = some reason; leases = map end_lease g.leases }
]

-- The group that `acquire` makes, before and with its first lease.
abbrev pub no_leases : Bytes → Bool → Group
no_leases scope dedicated = record {
  scope = scope;
  started = false;
  client_err = none;
  err = none;
  leases = [];
  routes = [];
  allocated = 0;
  busy = 0;
  idle_at = none;
  creating = none;
  dedicated = dedicated;
}

unfoldable pub new_group : Bytes → Bool → Group
unfolding add_lease
new_group scope dedicated = add_lease (no_leases scope dedicated)

-- The end of the launch: the client, or why there is none.
unfoldable pub start : Option Error → Group → Group
start none g = record g { started = true }
start (some e) g = retire e g

unfoldable pub go_idle : ℕ → ℕ → Lease → Group → Group
go_idle now h l g = record g {
  leases = set g.leases h (record l { idle = true });
  busy = g.busy - 1;
  idle_at = if g.busy - 1 == 0 then some now else g.idle_at;
}

unfoldable pub go_busy : ℕ → Lease → Group → Group
go_busy h l g = record g {
  leases = set g.leases h (record l { idle = false });
  busy = g.busy + 1;
  idle_at = none;
}

-- `SetIdle`, without the pruning behind it: the error, and whether the pruning is reached.
unfoldable pub set_idle : ℕ → ℕ → Bool → Group → Group × (Option Error × Bool)
set_idle now h idle g = elim (get_elem? g.leases h) [
  | none ↦ (g, (none, false))
  | some l ↦ elim (lease_err g l) [
    | some e ↦ (g, (some e, false))
    | none ↦
        if same l.idle idle
        then (g, (none, false))
        else if idle
        then (go_idle now h l g, (none, true))
        else (go_busy h l g, (none, true))
  ]
]

unfoldable pub any_live : List Lease → Bool
any_live [] = false
any_live (l ∷ ls) = l.live || any_live ls

unfoldable pub released : Lease → Lease
released l = record l {
  err = some closed_error;
  ended = true;
  queue = [];
  total = 0;
  activity = true;
  live = false;
}

unfoldable pub drop_lease : ℕ → Lease → Group → Group
drop_lease h l g = record g {
  leases = set g.leases h (released l);
  routes = if is_empty l.id then g.routes else insert l.id none g.routes;
}

-- `ReleaseIdle`: the group, and the error that it returns at once.
unfoldable pub release_idle : Config → ℕ → Group → Group × Option Error
release_idle cfg h g = elim (get_elem? g.leases h) [
  | none ↦ (g, none)
  | some l ↦
      if is_some l.err
      then (g, none)
      else if not l.idle && not (is_some g.err)
      then (g, some parameters_error)
      else let g' = drop_lease h l g in
        if not (any_live g'.leases) && (g.dedicated || leb cfg.sessions_per_process g.allocated)
        then (retire closed_error g', none)
        else (g', none)
]

-- The oldest notification is taken off a queue.
unfoldable pub take_event : ℕ → Lease → Notification → List Notification → Group → Group
take_event h l n ns g = record g {
  leases = set g.leases h (record l { queue = ns; total = l.total - event_bytes_of n });
}

-- `TryNext`
unfoldable pub try_next : ℕ → Group → Group × (Option Notification × Option Error)
try_next h g = elim (get_elem? g.leases h) [
  | none ↦ (g, (none, none))
  | some l ↦ elim (lease_err g l) [
    | some e ↦ (g, (none, some e))
    | none ↦ elim l.queue [
      | [] ↦ (g, (none, none))
      | n ∷ ns ↦ (take_event h l n ns g, (some n, none))
    ]
  ]
]

unfoldable pub expect : ℕ → Lease → Bytes → Group → Group
expect h l load_id g = record g {
  leases = set g.leases h (record l { loading = not (is_empty load_id); candidate = load_id });
  creating = some h;
}

-- The first section of `Create`.
unfoldable pub begin_create : ℕ → Bytes → Group → Group × Option Error
begin_create h load_id g = elim (get_elem? g.leases h) [
  | none ↦ (g, none)
  | some l ↦ elim (lease_err g l) [
    | some e ↦ (g, some e)
    | none ↦
        if not (is_empty l.id) || is_some g.creating
        then (g, some parameters_error)
        else (expect h l load_id g, none)
  ]
]

-- `fail` of `Create`.
unfoldable pub fail_create : Error → Group → Group
fail_create e g = retire e (record g { creating = none })

-- The identifier that the answer of the process gives, or a protocol error.
unfoldable pub created_id : Json → Bytes → Bytes → Option Bytes
created_id json load_id raw =
    let fields : Option Fields =
      if not (is_empty load_id) && raw == bytes "null" then some [] else object json raw in
    elim fields [
      | none ↦ none
      | some fs ↦
          let id : Option Bytes = elim (lookup (bytes "sessionId") fs) [
            | none ↦ some load_id
            | some [] ↦ none
            | some (c ∷ cs) ↦ if c == 34 then json.unmarshal_string (c ∷ cs) else none
          ] in
          elim id [
            | none ↦ none
            | some i ↦
                if is_empty i
                  || ltb 1024 (length i)
                  || (not (is_empty load_id) && not (i == load_id))
                then none
                else some i
          ]
    ]

unfoldable pub bind_id : ℕ → Lease → Bytes → Group → Group
bind_id h l id g = record g {
  leases = set g.leases h (record l { id = id; loading = false });
  routes = insert id (some h) g.routes;
  creating = none;
}

-- The last section of `Create`.
unfoldable pub end_create : ℕ → Bytes → Group → Group × Option Error
end_create h id g = elim (get_elem? g.leases h) [
  | none ↦ (g, none)
  | some l ↦ elim (lease_err g l) [
    | some e ↦ (record g { creating = none }, some e)
    | none ↦
        if is_some (lookup id g.routes) || (not (is_empty l.candidate) && not (l.candidate == id))
        then (retire protocol_error (record g { creating = none }), some protocol_error)
        else (bind_id h l id g, none)
  ]
]

abbrev pub put_lease : ℕ → Lease → Group → Group
put_lease h l g = record g { leases = set g.leases h l }

abbrev pub queued : Notification → Lease → Lease
queued n l = record l {
  queue = l.queue ++ n ∷ [];
  total = l.total + event_bytes_of n;
  activity = true;
}

-- A notification for the lease at `h`, from `if l.loading` on.
unfoldable pub enqueue : Config → Notification → ℕ → Lease → Group → Group × Bool
enqueue cfg n h l g =
    if l.loading
    then (put_lease h l g, true)
    else if leb cfg.event_queue (length l.queue)
        || ltb (cfg.event_bytes - l.total) (event_bytes_of n)
    then (retire overloaded_error (put_lease h l g), false)
    else (put_lease h (queued n l) g, true)

-- `deliver`: the group, and whether the router goes on.
unfoldable pub deliver : Config → Notification → Group → Group × Bool
deliver cfg n g = elim g.err [
  | some _ ↦ (g, false)
  | none ↦
      if is_empty n.session_id
      then (if n.method == bytes "session/update"
          then (retire protocol_error g, false)
          else (g, true))
      else elim (lookup n.session_id g.routes) [
        | some none ↦ (g, true)
        | some (some h) ↦ elim (get_elem? g.leases h) [
          | none ↦ (g, true)
          | some l ↦ enqueue cfg n h l g
        ]
        | none ↦ elim g.creating [
          | none ↦ (retire protocol_error g, false)
          | some h ↦ elim (get_elem? g.leases h) [
            | none ↦ (g, true)
            | some l ↦
                if not (is_empty l.candidate) && not (l.candidate == n.session_id)
                then (retire protocol_error g, false)
                else enqueue cfg n h (record l { candidate = n.session_id }) g
          ]
        ]
      ]
]
