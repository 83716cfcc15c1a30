-- ===== src/AcpPool/Runs.antt =====
-- The runs of the pool, and what bounds them.
use dax_kiro_proxy.Common.{
  ℕ, zero, suc, ◌≤◌, ◌≡◌, refl, inl, inr, Bool-cases, Bool, true, false, ◌&&◌, List, [], ◌∷◌,
  Option, none, some, arith, ℕ_eq, Bytes, Bytes_eq, ◌==◌, length, if◌then◌else◌, is_some,
}
use dax_kiro_proxy.AcpPool.Group.{Error, Config, Group, set_idle}
use dax_kiro_proxy.AcpPool.Moves.{Move, leases_again, sets_idle, move, Reach}
use dax_kiro_proxy.AcpPool.Pool.{Pool, adjust, prune, acquire, clean, close}

-- What happens to a pool: an acquisition decides, a process makes a move that is not the pool's, a
-- lease changes between idle and busy, the idle processes are pruned, a retired process has closed,
-- the pool is closed, and the walk through the map changes.
pub data Event : Type 0 where
  acquires : ℕ → Option Error → Bytes → Bool → Bool → Event
  moves : ℕ → Move → Event
  changes : ℕ → ℕ → ℕ → Bool → Event
  prunes : ℕ → Event
  cleans : ℕ → Option Error → Event
  closes : Event
  swaps : ℕ → Event

abbrev pub by_others : Move → Bool
by_others leases_again = false
by_others (sets_idle now h idle) = false
by_others _ = true

unfoldable pub find_group : ℕ → List (ℕ × Group) → Option Group
find_group k [] = none
find_group k ((j, g) ∷ gs) = if j == k then some g else find_group k gs

-- Whether `SetIdle` reaches the pruning.
unfoldable pub reaches_pruning : ℕ → ℕ → Bool → Option Group → Bool
reaches_pruning now h idle none = false
reaches_pruning now h idle (some g) = (set_idle now h idle g).1.1

unfoldable pub has_failed : Option Group → Bool
has_failed none = false
has_failed (some g) = is_some g.err

unfoldable pub swap_at : ℕ → List (ℕ × Group) → List (ℕ × Group)
swap_at n [] = []
swap_at n (e ∷ []) = e ∷ []
swap_at zero (e ∷ f ∷ gs) = f ∷ e ∷ gs
swap_at (suc n) (e ∷ f ∷ gs) = e ∷ swap_at n (f ∷ gs)

unfoldable pub step : Config → Event → Pool → Pool
unfolding find_group reaches_pruning has_failed swap_at
step cfg (acquires now ctx_err scope recycle dedicated) p =
    (acquire cfg now ctx_err scope recycle dedicated p).0
step cfg (moves k m) p =
    if by_others m then record p { groups = adjust (move cfg m) k p.groups } else p
step cfg (changes k now h idle) p =
    let p' = record p { groups = adjust (move cfg (sets_idle now h idle)) k p.groups } in
    if reaches_pruning now h idle (find_group k p.groups) then prune cfg now p' else p'
step cfg (prunes now) p = prune cfg now p
step cfg (cleans k close_err) p =
    if has_failed (find_group k p.groups) then clean k close_err p else p
step cfg closes p = close p
step cfg (swaps n) p = record p { groups = swap_at n p.groups }

unfoldable pub run : Config → List Event → Pool → Pool
run cfg [] p = p
run cfg (e ∷ es) p = run cfg es (step cfg e p)

abbrev pub Every : (Group → Type 0) → List (ℕ × Group) → Type 0
Every P [] = Unit
Every P ((k, g) ∷ gs) = P g × Every P gs

abbrev pub all_failed : List (ℕ × Group) → Bool
all_failed [] = true
all_failed ((k, g) ∷ gs) = is_some g.err && all_failed gs

-- Every process is one that its own moves lead to; they are at most as many as the limit, and those of
-- a closed pool have all failed.
pub record PoolInv (cfg : Config) (p : Pool) : Type 0 where
  pub every : Every (Reach cfg) p.groups
  pub few : length p.groups ≤ cfg.max_processes
  pub shut : p.closed ≡ true → all_failed p.groups ≡ true

module _ (f : Group → Group) where
  pub length-adjust : (k : ℕ) (gs : List (ℕ × Group)) → length (adjust f k gs) ≡ length gs
  unfolding adjust
  length-adjust k [] = refl
  length-adjust k ((j, g) ∷ gs) = ground (arith, length-adjust k gs)

  pub adjust-Every :
      {P : Group → Type 0} (k : ℕ) (gs : List (ℕ × Group))
      → ((g : Group) → P g → P (f g))
      → Every P gs
      → Every P (adjust f k gs)
  unfolding adjust
  adjust-Every k [] keep e = tt
  adjust-Every k ((j, g) ∷ gs) keep e = elim (Bool-cases (j == k)) [
    | inl here ↦ rw (here, adjust) (keep g e.0, adjust-Every k gs keep e.1)
    | inr apart ↦ rw (apart, adjust) (e.0, adjust-Every k gs keep e.1)
  ]

  pub adjust-all_failed :
      (k : ℕ) (gs : List (ℕ × Group))
      → ((g : Group) → is_some g.err ≡ true → is_some (f g).err ≡ true)
      → all_failed gs ≡ true
      → all_failed (adjust f k gs) ≡ true
  unfolding adjust
  adjust-all_failed k [] keep e = refl
  adjust-all_failed k ((j, g) ∷ gs) keep e = ground (arith, keep g, adjust-all_failed k gs keep)
