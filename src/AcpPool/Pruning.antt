-- ===== src/AcpPool/Pruning.antt =====
-- What `pruneLocked` leaves idle.
use dax_kiro_proxy.Common.{
  ℕ, zero, suc, ◌-◌, ◌≤◌, ◌<◌, ◌≡◌, refl, inl, inr, Option-cases, Bool, true, List, [], ◌∷◌, none,
  some, arith, ℕ_eq, ◌==◌, ==_refl, all, any, length, ltb,
}
use dax_kiro_proxy.AcpPool.Group.{closed_error, Config, Group, retire}
use dax_kiro_proxy.AcpPool.Pool.{
  Pool, adjust, idle_since, expire, oldest, without_idle, shed, prune,
}

-- The idle processes that have not failed, with their times.
abbrev pub idle_of : List (ℕ × Group) → List (ℕ × ℕ)
idle_of [] = []
idle_of ((k, g) ∷ gs) = elim (idle_since g) [ none ↦ idle_of gs | some t ↦ (k, t) ∷ idle_of gs ]

retire-idle : (g : Group) → idle_since (retire closed_error g) ≡ none
unfolding idle_since retire
retire-idle g = ground arith

idle_of-adjust :
    (k : ℕ) (gs : List (ℕ × Group))
    → idle_of (adjust (retire closed_error) k gs) ≡ without_idle k (idle_of gs)
unfolding adjust without_idle
idle_of-adjust k [] = refl
idle_of-adjust k ((j, g) ∷ gs) = ground (arith, retire-idle g, idle_of-adjust k gs)

length-without_idle : (k : ℕ) (idle : List (ℕ × ℕ)) → length (without_idle k idle) ≤ length idle
unfolding without_idle
length-without_idle k [] = omega arith
length-without_idle k ((j, t) ∷ idle) = ground (arith, length-without_idle k idle)

without_idle_shorter :
    (k : ℕ) (idle : List (ℕ × ℕ))
    → any (λ (e : ℕ × ℕ). e.0 == k) idle ≡ true
    → length (without_idle k idle) < length idle
unfolding without_idle
without_idle_shorter k [] h = ground arith
without_idle_shorter k ((j, t) ∷ idle) h =
    ground (arith, length-without_idle k idle, without_idle_shorter k idle)

oldest-any :
    (best : ℕ × ℕ) (idle : List (ℕ × ℕ))
    → any (λ (e : ℕ × ℕ). e.0 == (oldest best idle).0) (best ∷ idle) ≡ true
unfolding oldest
oldest-any best [] = ground (arith, ==_refl best.0)
oldest-any best (e ∷ idle) = ground (arith, oldest-any e idle, oldest-any best idle)

module _ (cfg : Config) (now : ℕ) where
  -- Whether an idle process has not expired.
  abbrev pub recent : ℕ × ℕ → Bool
  recent e = ltb (now - e.1) cfg.idle_ttl

  without_idle-recent :
      (k : ℕ) (idle : List (ℕ × ℕ))
      → all recent idle ≡ true
      → all recent (without_idle k idle) ≡ true
  unfolding without_idle
  without_idle-recent k [] h = refl
  without_idle-recent k ((j, t) ∷ idle) h = ground (arith, without_idle-recent k idle)

  expire-idle :
      (gs : List (ℕ × Group))
      → (idle_of (expire cfg now gs).0 ≡ (expire cfg now gs).1)
        × (all recent (expire cfg now gs).1 ≡ true)
  unfolding expire
  expire-idle [] = (refl, refl)
  expire-idle ((k, g) ∷ gs) =
      let (same_, fresh) = expire-idle gs in
      elim (Option-cases (idle_since g)) [
        | inl busy ↦ ground (arith, same_, fresh)
        | inr (t, idle) ↦ ground (arith, same_, fresh, retire-idle g)
      ]

  shed-idle :
      (rounds : ℕ) (idle : List (ℕ × ℕ)) (gs : List (ℕ × Group))
      → length idle ≤ rounds
      → idle_of gs ≡ idle
      → all recent idle ≡ true
      → (length (idle_of (shed cfg rounds idle gs)) ≤ cfg.max_idle)
        × (all recent (idle_of (shed cfg rounds idle gs)) ≡ true)
  unfolding shed
  shed-idle zero [] gs l e h = ground arith
  shed-idle zero (x ∷ idle) gs l e h = elim l [ ]
  shed-idle (suc rounds) [] gs l e h = ground arith
  shed-idle (suc rounds) (x ∷ idle) gs l e h =
      let k = (oldest x idle).0 in
      let next = without_idle k (x ∷ idle) in
      ground (
        arith,
        without_idle_shorter k (x ∷ idle) (oldest-any x idle),
        without_idle-recent k (x ∷ idle) h,
        idle_of-adjust k gs,
        shed-idle rounds next (adjust (retire closed_error) k gs),
      )

  -- After a pruning at most `MaxIdle` processes that have not failed are idle, and none of them has been
  -- idle for the time to live.
  pub prune-idle :
      (p : Pool)
      → (length (idle_of (prune cfg now p).groups) ≤ cfg.max_idle)
        × (all recent (idle_of (prune cfg now p).groups) ≡ true)
  unfolding prune
  prune-idle p =
      let (same_, fresh) = expire-idle p.groups in
      shed-idle (length (expire cfg now p.groups).1) (expire cfg now p.groups).1
        (expire cfg now p.groups).0 (omega arith) same_ fresh
