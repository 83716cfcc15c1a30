-- ===== src/AcpPool/Moves.antt =====
-- The runs of one process of the pool: what its leases' owners, its router and its launch do, in any
-- order. A section of `Create` after the first is reached only by the goroutine that holds the
-- process's create gate, so it runs while `creating` is that lease; an error of the client is final.
use dax_kiro_proxy.Common.{
  ℕ, Bool, false, not, ◌&&◌, Option, none, some, ℕ_eq, Bytes, ◌==◌, ltb, if◌then◌else◌, is_some,
  is_empty,
}
use dax_kiro_proxy.AcpPool.Group.{
  Error, Config, Notification, Group, new_group, add_lease, retire, start, set_idle, release_idle,
  try_next, begin_create, fail_create, end_create, deliver,
}

pub data Move : Type 0 where
  retires : Error → Move
  leases_again : Move
  starts : Option Error → Move
  -- the time, the lease and whether it is to be idle
  sets_idle : ℕ → ℕ → Bool → Move
  releases : ℕ → Move
  begins : ℕ → Bytes → Move
  fails : Error → Move
  creates : ℕ → Bytes → Move
  receives : Notification → Move
  reads : ℕ → Move
  client_ends : Error → Move

-- Whether `acquire` may take another lease of the process.
unfoldable pub has_room : Config → Group → Bool
has_room cfg g =
    not g.dedicated
    && g.started
    && not (is_some g.err)
    && not (is_some g.client_err)
    && ltb g.allocated cfg.sessions_per_process

unfoldable pub is_creating : ℕ → Group → Bool
is_creating h g = elim g.creating [ none ↦ false | some k ↦ k == h ]

unfoldable pub move : Config → Move → Group → Group
unfolding has_room is_creating
move cfg (retires e) g = retire e g
move cfg leases_again g = if has_room cfg g then add_lease g else g
move cfg (starts outcome) g = start outcome g
move cfg (sets_idle now h idle) g = (set_idle now h idle g).0
move cfg (releases h) g = (release_idle cfg h g).0
move cfg (begins h load_id) g = (begin_create h load_id g).0
move cfg (fails e) g = if is_some g.creating then fail_create e g else g
move cfg (creates h id) g =
    if is_creating h g && not (is_empty id) then (end_create h id g).0 else g
move cfg (receives n) g = (deliver cfg n g).0
move cfg (reads h) g = (try_next h g).0
move cfg (client_ends e) g = if is_some g.client_err then g else record g { client_err = some e }

-- The processes that a run of moves leads to.
pub data Reach (cfg : Config) : Group → Type 0 where
  launched : (scope : Bytes) (dedicated : Bool) → Reach cfg (new_group scope dedicated)
  moved : (m : Move) {g : Group} → Reach cfg g → Reach cfg (move cfg m g)
