-- ===== src/Examples/PoolExamples.antt =====
-- A process with two leases, and a pool of one process.
use dax_kiro_proxy.Common.{
  ◌≤◌, ◌*◌, ◌≡◌, refl, true, false, List, [], ◌∷◌, none, some, all, length, arith, bytes, equal,
  lookup, insert,
}
use dax_kiro_proxy.AcpPool.Group.{
  Config, Notification, Lease, Group, new_group, add_lease, start, begin_create, expect, end_create,
  bind_id, deliver, enqueue, set_idle, go_idle, event_bytes_of,
}
use dax_kiro_proxy.AcpPool.Moves.{
  starts, leases_again, begins, creates, receives, move, Reach, launched, moved,
}
use dax_kiro_proxy.AcpPool.Counts.{Counts}
use dax_kiro_proxy.AcpPool.Counting.{Reach-Counts}
use dax_kiro_proxy.AcpPool.Routing.{Routing}
use dax_kiro_proxy.AcpPool.Delivery.{Reach-Routing}
use dax_kiro_proxy.AcpPool.Pool.{
  idle_since, new_pool, adjust, acquire, choose, share, compatible, prune, expire, shed, stats,
  stats_of, close,
}
use dax_kiro_proxy.AcpPool.Runs.{Event, acquires, moves, changes, step, run, Every, all_failed}
use dax_kiro_proxy.AcpPool.Bounds.{run-bounds}
use dax_kiro_proxy.AcpPool.Pruning.{idle_of, recent, prune-idle}
use dax_kiro_proxy.AcpPool.Admission.{is_refused, run-acquire_refused}

abbrev cfg : Config
cfg = record {
  max_processes = 1;
  sessions_per_process = 2;
  max_idle = 1;
  event_queue = 64;
  event_bytes = 100;
  idle_ttl = 10;
  setup_timeout = 30;
}

abbrev update : Notification
update = record { method = bytes "m"; session_id = bytes "s"; params = bytes "{}" }

-- The first lease gets its session after the first notification for it.
abbrev serving : Group
serving = move cfg (receives update) (
    move cfg (creates 0 (bytes "s")) (
      move cfg (receives update) (
        move cfg (begins 0 [])
          (move cfg leases_again (move cfg (starts none) (new_group (bytes "a") false))))))

serving-Reach : Reach cfg serving
serving-Reach = moved (receives update) (
    moved (creates 0 (bytes "s")) (
      moved (receives update) (
        moved (begins 0 [])
          (moved leases_again (moved (starts none) (launched (bytes "a") false))))))

abbrev served : Lease
served = record {
  id = bytes "s";
  candidate = bytes "s";
  loading = false;
  idle = false;
  err = none;
  queue = update ∷ update ∷ [];
  total = 8;
  activity = true;
  ended = false;
  live = true;
}

serves : serving.routes ≡ (bytes "s", some 0) ∷ []
unfolding move start add_lease new_group begin_create expect deliver enqueue end_create bind_id
    lookup insert equal event_bytes_of
serves = refl

Reach-Counts_example : Counts cfg serving
Reach-Counts_example = Reach-Counts cfg (omega arith) serving-Reach

Reach-Routing_example : Routing cfg serving
Reach-Routing_example = Reach-Routing cfg (omega arith) serving-Reach

-- Two leases of one process, one of which becomes idle.
abbrev events : List Event
events =
    acquires 1 none (bytes "a") true false
    ∷ moves 0 (starts none)
    ∷ acquires 2 none (bytes "a") true false
    ∷ changes 0 3 1 true
    ∷ []

two_sessions :
    stats (run cfg events new_pool) ≡ record { processes = 1; sessions = 2; busy = 1; idle = 0 }
unfolding stats stats_of run step acquire choose share compatible prune expire shed adjust move
    start add_lease new_group set_idle go_idle equal idle_since
two_sessions = refl

run-bounds_example :
    ((stats (run cfg events new_pool)).processes ≤ 1)
    × ((stats (run cfg events new_pool)).sessions ≤ (stats (run cfg events new_pool)).processes * 2)
    × Every (λ g. Counts cfg g × Routing cfg g) (run cfg events new_pool).groups
    × ((run cfg events new_pool).closed ≡ true → all_failed (run cfg events new_pool).groups ≡ true)
run-bounds_example = run-bounds cfg events (omega arith)

prune-idle_example :
    (length (idle_of (prune cfg 20 (run cfg events new_pool)).groups) ≤ 1)
    × (all (recent cfg 20) (idle_of (prune cfg 20 (run cfg events new_pool)).groups) ≡ true)
prune-idle_example = prune-idle cfg 20 (run cfg events new_pool)

run-acquire_refused_example :
    (is_refused (acquire cfg 5 none (bytes "a") true false (run cfg events (close new_pool))).1
      ≡ true)
    × (length (acquire cfg 5 none (bytes "a") true false (run cfg events (close new_pool))).0.groups
        ≤ length (close new_pool).groups)
unfolding close
run-acquire_refused_example =
    run-acquire_refused cfg events (close new_pool) 5 none (bytes "a") true false refl
