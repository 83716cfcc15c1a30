-- ===== src/AcpPool/Bounds.antt =====
-- Every run of the pool keeps its bounds.
use dax_kiro_proxy.Common.{
  ℕ, suc, ◌*◌, ◌≤◌, ◌≡◌, refl, ap, ◌∙◌, inl, inr, Bool-cases, Option-cases, Bool, true, false, List,
  [], ◌∷◌, Option, none, some, arith, ℕ_eq, Bytes, Bytes_eq, length, length-append, leb,
  if◌then◌else◌,
}
use dax_kiro_proxy.AcpPool.Group.{Error, closed_error, Config, Lease, Group, new_group, retire}
use dax_kiro_proxy.AcpPool.Counting.{Reach-Counts}
use dax_kiro_proxy.AcpPool.Counts.{Counts}
use dax_kiro_proxy.AcpPool.Routing.{Routing}
use dax_kiro_proxy.AcpPool.Delivery.{Reach-Routing}
use dax_kiro_proxy.AcpPool.Moves.{Move, sets_idle, move, Reach, launched, moved}
use dax_kiro_proxy.AcpPool.Pool.{
  Pool, new_pool, adjust, prune, share, find_oldest, choose, acquire, clean, close, live_count,
  stats_of, stats,
}
use dax_kiro_proxy.AcpPool.Runs.{
  Event, acquires, moves, changes, prunes, cleans, closes, swaps, step, run, Every, all_failed,
  PoolInv, length-adjust, adjust-Every, adjust-all_failed,
}
use dax_kiro_proxy.AcpPool.Members.{
  retire-failed, move-failed, retire-Reach, prune-PoolInv, share-Every, retire_all-Every,
  without-Every, swap_at-Every, append-Every,
}

module _ (cfg : Config) where
  retire_one-PoolInv :
      (k : ℕ) (p : Pool)
      → PoolInv cfg p
      → PoolInv cfg (record p { groups = adjust (retire closed_error) k p.groups })
  retire_one-PoolInv k p i = record {
    every = adjust-Every (retire closed_error) k p.groups (retire-Reach cfg closed_error) i.every;
    few = omega (arith, length-adjust (retire closed_error) k p.groups, i.few);
    shut = λ c.
        adjust-all_failed (retire closed_error) k p.groups (retire-failed closed_error) (i.shut c);
  }

  choose-PoolInv :
      (scope : Bytes) (recycle dedicated : Bool) (p : Pool)
      → p.closed ≡ false
      → PoolInv cfg p
      → PoolInv cfg (choose cfg scope recycle dedicated p).0
  unfolding choose
  choose-PoolInv scope recycle dedicated p open_ i =
      elim (Option-cases (if dedicated then none else share cfg scope p.groups)) [
        | inr ((gs, k), found) ↦
            let (kept, long) = share-Every cfg scope p.groups gs k (ground arith) i.every in
            rw (found, choose)
              (record { every = kept; few = omega (arith, long, i.few); shut = λ c. ground arith })
        | inl nobody ↦ elim (Bool-cases (leb cfg.max_processes (length p.groups))) [
          | inr room ↦
              rw (nobody, choose)
                (rw (room, choose)
                  (record {
                    every =
                        append-Every cfg p.groups p.next (new_group scope dedicated) i.every
                          (launched scope dedicated);
                    few =
                        ground (
                          arith,
                          length-append p.groups ((p.next, new_group scope dedicated) ∷ []),
                        );
                    shut = λ c. ground arith;
                  }))
          | inl crowded ↦
              elim (Option-cases (if recycle then find_oldest none p.groups else none)) [
                | inl none_ ↦ rw (nobody, choose) (rw (crowded, choose) (rw none_ i))
                | inr (k, old) ↦
                    rw (nobody, choose) (rw (crowded, choose) (rw old (retire_one-PoolInv k p i)))
              ]
        ]
      ]

  acquire-PoolInv :
      (now : ℕ) (ctx_err : Option Error) (scope : Bytes) (recycle dedicated : Bool) (p : Pool)
      → PoolInv cfg p
      → PoolInv cfg (acquire cfg now ctx_err scope recycle dedicated p).0
  unfolding acquire
  acquire-PoolInv now (some e) scope recycle dedicated p i = i
  acquire-PoolInv now none scope recycle dedicated p i =
      let q = prune cfg now p in
      let i' = prune-PoolInv cfg now p i in
      ground (arith, i, i', λ (o : q.closed ≡ false). choose-PoolInv scope recycle dedicated q o i')

  move_one-PoolInv :
      (k : ℕ) (m : Move) (p : Pool)
      → PoolInv cfg p
      → PoolInv cfg (record p { groups = adjust (move cfg m) k p.groups })
  move_one-PoolInv k m p i = record {
    every = adjust-Every (move cfg m) k p.groups (λ g r. moved m r) i.every;
    few = omega (arith, length-adjust (move cfg m) k p.groups, i.few);
    shut = λ c. adjust-all_failed (move cfg m) k p.groups (move-failed cfg m) (i.shut c);
  }

  clean-PoolInv :
      (k : ℕ) (close_err : Option Error) (p : Pool)
      → PoolInv cfg p
      → PoolInv cfg (clean k close_err p)
  unfolding clean
  clean-PoolInv k close_err p i =
      let (kept, fewer, failed) = without-Every cfg k p.groups i.every in
      record { every = kept; few = omega (arith, fewer, i.few); shut = λ c. failed (i.shut c) }

  close-PoolInv : (p : Pool) → PoolInv cfg p → PoolInv cfg (close p)
  unfolding close
  close-PoolInv p i =
      let (kept, long, failed) = retire_all-Every cfg p.groups i.every in
      record { every = kept; few = omega (arith, long, i.few); shut = λ c. failed }

  step-PoolInv : (e : Event) (p : Pool) → PoolInv cfg p → PoolInv cfg (step cfg e p)
  unfolding step
  step-PoolInv (acquires now ctx_err scope recycle dedicated) p i =
      acquire-PoolInv now ctx_err scope recycle dedicated p i
  step-PoolInv (moves k m) p i = ground (arith, i, move_one-PoolInv k m p i)
  step-PoolInv (changes k now h idle) p i =
      let i' = move_one-PoolInv k (sets_idle now h idle) p i in
      ground (arith, i', prune-PoolInv cfg now _ i')
  step-PoolInv (prunes now) p i = prune-PoolInv cfg now p i
  step-PoolInv (cleans k close_err) p i = ground (arith, i, clean-PoolInv k close_err p i)
  step-PoolInv closes p i = close-PoolInv p i
  step-PoolInv (swaps n) p i =
      let (kept, long, failed) = swap_at-Every cfg n p.groups i.every in
      record { every = kept; few = omega (arith, long, i.few); shut = λ c. failed ∙ i.shut c }

  run-PoolInv : (es : List Event) (p : Pool) → PoolInv cfg p → PoolInv cfg (run cfg es p)
  unfolding run
  run-PoolInv [] p i = i
  run-PoolInv (e ∷ es) p i = run-PoolInv es (step cfg e p) (step-PoolInv e p i)

  live_count-le : (ls : List Lease) → live_count ls ≤ length ls
  live_count-le [] = omega arith
  live_count-le (l ∷ ls) = ground (arith, live_count-le ls)

  stats_of-bounds :
      (gs : List (ℕ × Group))
      → 1 ≤ cfg.sessions_per_process
      → Every (Reach cfg) gs
      → ((stats_of gs).processes ≡ length gs)
        × ((stats_of gs).sessions ≤ length gs * cfg.sessions_per_process)
        × Every (λ g. Counts cfg g × Routing cfg g) gs
  unfolding stats_of
  stats_of-bounds [] few e = (refl, omega arith, tt)
  stats_of-bounds ((k, g) ∷ gs) few e =
      let (many, small, good) = stats_of-bounds gs few e.1 in
      let counts = Reach-Counts cfg few e.0 in
      (
        ap suc many,
        grind (arith, live_count-le g.leases, counts.within),
        ((counts, Reach-Routing cfg few e.0), good),
      )

  -- In every run of a new pool there are never more processes than the limit, and the sessions are at
  -- most as many as the limits of their processes allow together; the counts and the routes of every
  -- process are right; and once the pool is closed, every process that is left has failed.
  pub run-bounds :
      (es : List Event)
      → 1 ≤ cfg.sessions_per_process
      → ((stats (run cfg es new_pool)).processes ≤ cfg.max_processes)
        × ((stats (run cfg es new_pool)).sessions
            ≤ (stats (run cfg es new_pool)).processes * cfg.sessions_per_process)
        × Every (λ g. Counts cfg g × Routing cfg g) (run cfg es new_pool).groups
        × ((run cfg es new_pool).closed ≡ true → all_failed (run cfg es new_pool).groups ≡ true)
  unfolding stats
  run-bounds es few =
      let p = run cfg es new_pool in
      let i =
        run-PoolInv es new_pool (record { every = tt; few = omega arith; shut = λ c. refl }) in
      let (many, small, good) = stats_of-bounds p.groups few i.every in
      (omega (arith, many, i.few), rw many small, good, i.shut)
