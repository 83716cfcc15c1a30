-- ===== src/AcpPool/Admission.antt =====
-- A pool that is closed, or that could not clean up, admits nothing more.
use dax_kiro_proxy.Common.{
  ℕ, zero, suc, ◌≤◌, ◌≡◌, refl, ap, Bool, true, false, ◌||◌, List, [], ◌∷◌, Option, none, some,
  arith, ℕ_eq, Bytes, length, is_some,
}
use dax_kiro_proxy.AcpPool.Group.{Error, Config, Group}
use dax_kiro_proxy.AcpPool.Moves.{sets_idle, move}
use dax_kiro_proxy.AcpPool.Pool.{
  Pool, adjust, without, expire, prune, Acquired, shared, launched, retired, refused, acquire,
  clean, close, retire_all,
}
use dax_kiro_proxy.AcpPool.Runs.{
  Event, acquires, moves, changes, prunes, cleans, closes, swaps, swap_at, step, run, length-adjust,
}
use dax_kiro_proxy.AcpPool.Members.{length-expire, length-shed}

abbrev pub is_stopped : Pool → Bool
is_stopped p = p.closed || is_some p.cleanup_err

abbrev pub is_refused : Acquired → Bool
is_refused (refused e) = true
is_refused (shared k) = false
is_refused (launched k) = false
is_refused (retired k) = false

-- A pool that stays stopped and gets no process more.
abbrev Stays : Pool → Pool → Type 0
Stays p q = (is_stopped q ≡ true) × (length q.groups ≤ length p.groups)

length-without : (k : ℕ) (gs : List (ℕ × Group)) → length (without k gs) ≤ length gs
unfolding without
length-without k [] = omega arith
length-without k ((j, g) ∷ gs) = ground (arith, length-without k gs)

length-retire_all : (gs : List (ℕ × Group)) → length (retire_all gs) ≡ length gs
unfolding retire_all
length-retire_all [] = refl
length-retire_all ((k, g) ∷ gs) = ap suc (length-retire_all gs)

length-swap_at : (n : ℕ) (gs : List (ℕ × Group)) → length (swap_at n gs) ≡ length gs
unfolding swap_at
length-swap_at n [] = refl
length-swap_at n (x ∷ []) = refl
length-swap_at zero (x ∷ y ∷ gs) = refl
length-swap_at (suc n) (x ∷ y ∷ gs) = ap suc (length-swap_at n (y ∷ gs))

module _ (cfg : Config) where
  prune-Stays : (now : ℕ) (p : Pool) → is_stopped p ≡ true → Stays p (prune cfg now p)
  unfolding prune
  prune-Stays now p h =
      let (gs, idle) = expire cfg now p.groups in
      (h, omega (arith, length-shed cfg (length idle) idle gs, length-expire cfg now p.groups))

  acquire-refused :
      (now : ℕ) (ctx_err : Option Error) (scope : Bytes) (recycle dedicated : Bool) (p : Pool)
      → is_stopped p ≡ true
      → (is_refused (acquire cfg now ctx_err scope recycle dedicated p).1 ≡ true)
        × Stays p (acquire cfg now ctx_err scope recycle dedicated p).0
  unfolding acquire
  acquire-refused now (some e) scope recycle dedicated p h = (refl, (h, omega arith))
  acquire-refused now none scope recycle dedicated p h = ground (arith, prune-Stays now p h)

  step-Stays : (e : Event) (p : Pool) → is_stopped p ≡ true → Stays p (step cfg e p)
  unfolding step
  step-Stays (acquires now ctx_err scope recycle dedicated) p h =
      (acquire-refused now ctx_err scope recycle dedicated p h).1
  step-Stays (moves k m) p h = ground (arith, length-adjust (move cfg m) k p.groups)
  step-Stays (changes k now i idle) p h = ground (
    arith,
    length-adjust (move cfg (sets_idle now i idle)) k p.groups,
    prune-Stays now (record p { groups = adjust (move cfg (sets_idle now i idle)) k p.groups }) h,
  )
  step-Stays (prunes now) p h = prune-Stays now p h
  step-Stays (cleans k close_err) p h = unfold clean in (ground (arith, length-without k p.groups))
  step-Stays closes p h = unfold close in (ground (arith, length-retire_all p.groups))
  step-Stays (swaps n) p h = ground (arith, length-swap_at n p.groups)

  run-Stays : (es : List Event) (p : Pool) → is_stopped p ≡ true → Stays p (run cfg es p)
  unfolding run
  run-Stays [] p h = (h, omega arith)
  run-Stays (e ∷ es) p h =
      let (stopped, fewer) = step-Stays e p h in
      let (stays, least) = run-Stays es (step cfg e p) stopped in (stays, omega arith)

  -- Once a pool is closed or a process could not be cleaned up, then after any further events every
  -- acquisition is refused with an error, and there are no more processes than there were.
  pub run-acquire_refused :
      (es : List Event) (p : Pool) (now : ℕ) (ctx_err : Option Error) (scope : Bytes)
      (recycle dedicated : Bool)
      → is_stopped p ≡ true
      → (is_refused (acquire cfg now ctx_err scope recycle dedicated (run cfg es p)).1 ≡ true)
        × (length (acquire cfg now ctx_err scope recycle dedicated (run cfg es p)).0.groups
            ≤ length p.groups)
  run-acquire_refused es p now ctx_err scope recycle dedicated h =
      let (stopped, fewer) = run-Stays es p h in
      let (no_, (_, least)) =
        acquire-refused now ctx_err scope recycle dedicated (run cfg es p) stopped in
      (no_, omega arith)
