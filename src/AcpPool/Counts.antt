-- ===== src/AcpPool/Counts.antt =====
-- The counts of a process: allocated and busy leases, and since when it is idle.
use dax_kiro_proxy.Common.{
  ℕ, zero, suc, ◌+◌, ◌≤◌, ◌<◌, ◌≡◌, refl, ap, ◌⊎◌, inl, inr, Option-cases, Bool, true, false, not,
  ◌&&◌, ◌||◌, List, [], ◌∷◌, ◌++◌, none, some, map, arith, ℕ_eq, Bytes_eq, ◌==◌, all, length,
  length-append, all-append, get_elem?, set, if◌then◌else◌, is_some,
}
use dax_kiro_proxy.AcpPool.Group.{
  Error, Config, Notification, Lease, Group, add_lease, new_lease, end_lease, retire, same, go_idle,
  go_busy, set_idle,
}

-- The leases that are not idle.
abbrev pub busy_count : List Lease → ℕ
busy_count [] = 0
busy_count (l ∷ ls) = (if l.idle then 0 else 1) + busy_count ls

-- A lease has ended exactly if it or its process has failed, and is live until it is released.
abbrev pub lease_ok : Bool → Lease → Bool
lease_ok dead l = same l.ended (dead || is_some l.err) && same l.live (not (is_some l.err))

pub record Counts (cfg : Config) (g : Group) : Type 0 where
  pub allocated : g.allocated ≡ length g.leases
  pub within : length g.leases ≤ cfg.sessions_per_process
  pub alone : g.dedicated ≡ true → length g.leases ≤ 1
  pub busy : g.err ≡ none → g.busy ≡ busy_count g.leases
  pub idle_since : g.err ≡ none → is_some g.idle_at ≡ (g.busy == 0)
  pub leases : all (lease_ok (is_some g.err)) g.leases ≡ true

pub Queue-cases :
    (ns : List Notification)
    → (ns ≡ []) ⊎ ((n : Notification) × (rest : List Notification) × (ns ≡ n ∷ rest))
Queue-cases [] = inl refl
Queue-cases (n ∷ ns) = inr (n, ns, refl)

length-set : (ls : List Lease) (i : ℕ) (l : Lease) → length (set ls i l) ≡ length ls
length-set [] i l = refl
length-set (x ∷ ls) zero l = refl
length-set (x ∷ ls) (suc i) l = ap suc (length-set ls i l)

length-map-end_lease : (ls : List Lease) → length (map end_lease ls) ≡ length ls
length-map-end_lease [] = refl
length-map-end_lease (l ∷ ls) = ap suc (length-map-end_lease ls)

busy_count-set :
    (ls : List Lease) (i : ℕ) (old l : Lease)
    → get_elem? ls i ≡ some old
    → busy_count (set ls i l) + (if old.idle then 0 else 1)
      ≡ busy_count ls + (if l.idle then 0 else 1)
busy_count-set [] i old l e = ground arith
busy_count-set (x ∷ ls) zero old l e = ground arith
busy_count-set (x ∷ ls) (suc i) old l e = omega (arith, busy_count-set ls i old l e)

busy_count-append_one : (ls : List Lease) → busy_count (ls ++ new_lease ∷ []) ≡ busy_count ls + 1
busy_count-append_one [] = refl
busy_count-append_one (l ∷ ls) = omega (arith, busy_count-append_one ls)

lease_ok-end_lease :
    (ls : List Lease)
    → all (lease_ok false) ls ≡ true
    → all (lease_ok true) (map end_lease ls) ≡ true
lease_ok-end_lease [] h = refl
lease_ok-end_lease (l ∷ ls) h = ground (arith, lease_ok-end_lease ls)

module _ (p : Lease → Bool) where
  pub all-set :
      (ls : List Lease) (i : ℕ) (l : Lease)
      → all p ls ≡ true
      → p l ≡ true
      → all p (set ls i l) ≡ true
  all-set [] i l h k = refl
  all-set (x ∷ ls) zero l h k = ground arith
  all-set (x ∷ ls) (suc i) l h k = ground (arith, all-set ls i l)

  pub all-get_elem? :
      (ls : List Lease) (i : ℕ) (l : Lease) → all p ls ≡ true → get_elem? ls i ≡ some l → p l ≡ true
  all-get_elem? [] i l h e = ground arith
  all-get_elem? (x ∷ ls) zero l h e = ground arith
  all-get_elem? (x ∷ ls) (suc i) l h e = ground (arith, all-get_elem? ls i l)

module _ (cfg : Config) where
  pub add_lease-Counts :
      (g : Group)
      → g.err ≡ none
      → g.allocated < cfg.sessions_per_process
      → g.dedicated ≡ false
      → Counts cfg g
      → Counts cfg (add_lease g)
  unfolding add_lease
  add_lease-Counts g ok room d c = ground (
    arith,
    length-append g.leases (new_lease ∷ []),
    busy_count-append_one g.leases,
    all-append (lease_ok (is_some g.err)) g.leases (new_lease ∷ []),
  )

  pub retire-Counts : (e : Error) (g : Group) → Counts cfg g → Counts cfg (retire e g)
  unfolding retire
  retire-Counts e g c = ground (arith, length-map-end_lease g.leases, lease_ok-end_lease g.leases)

  -- A lease that is overwritten, with the busy count that goes with it.
  pub overwrite-Counts :
      (g g' : Group) (h : ℕ) (old l : Lease)
      → get_elem? g.leases h ≡ some old
      → g'.leases ≡ set g.leases h l
      → g'.err ≡ g.err
      → g'.allocated ≡ g.allocated
      → g'.dedicated ≡ g.dedicated
      → lease_ok (is_some g.err) l ≡ true
      → (g.err ≡ none → g'.busy + (if old.idle then 0 else 1) ≡ g.busy + (if l.idle then 0 else 1))
      → (g.err ≡ none → is_some g'.idle_at ≡ (g'.busy == 0))
      → Counts cfg g
      → Counts cfg g'
  overwrite-Counts g g' h old l found ls er al de ok bu id c = record {
    allocated = rw (al, ls, length-set g.leases h l) c.allocated;
    within = rw (ls, length-set g.leases h l) c.within;
    alone = rw (ls, de, length-set g.leases h l) c.alone;
    busy = λ alive.
        let before = c.busy (ground arith) in
        let change = bu (ground arith) in
        rw ls (omega (arith, before, change, busy_count-set g.leases h old l found));
    idle_since = λ alive. id (ground arith);
    leases = rw (ls, er) (all-set (lease_ok (is_some g.err)) g.leases h l c.leases ok);
  }

  -- A lease whose standing stays.
  pub update-Counts :
      (g g' : Group) (h : ℕ) (old l : Lease)
      → get_elem? g.leases h ≡ some old
      → g'.leases ≡ set g.leases h l
      → g'.err ≡ g.err
      → g'.allocated ≡ g.allocated
      → g'.dedicated ≡ g.dedicated
      → g'.busy ≡ g.busy
      → g'.idle_at ≡ g.idle_at
      → (l.idle ≡ old.idle) × (l.ended ≡ old.ended) × (l.live ≡ old.live) × (l.err ≡ old.err)
      → Counts cfg g
      → Counts cfg g'
  update-Counts g g' h old l found ls er al de bu id (idle, ended, live, err) c =
      overwrite-Counts g g' h old l found ls er al de
        (rw (ended, live, err)
          (all-get_elem? (lease_ok (is_some g.err)) g.leases h old c.leases found))
        (λ alive. rw (bu, idle) refl) (λ alive. rw (bu, id) (c.idle_since alive)) c

  go_idle-Counts :
      (now h : ℕ) (l : Lease) (g : Group)
      → get_elem? g.leases h ≡ some l
      → l.idle ≡ false
      → Counts cfg g
      → Counts cfg (go_idle now h l g)
  unfolding go_idle
  go_idle-Counts now h l g found idle c =
      overwrite-Counts g _ h l (record l { idle = true }) found refl refl refl refl
        (all-get_elem? (lease_ok (is_some g.err)) g.leases h l c.leases found)
        (λ alive. omega (
          arith,
          busy_count-set g.leases h l (record l { idle = true }) found,
          c.busy alive,
          weight idle,
        ))
        (λ alive. ground (arith, c.idle_since alive)) c
    where
      weight : l.idle ≡ false → ◌≡◌ {A = ℕ} (if l.idle then 0 else 1) 1
      weight e = ground arith

  go_busy-Counts :
      (h : ℕ) (l : Lease) (g : Group)
      → get_elem? g.leases h ≡ some l
      → l.idle ≡ true
      → Counts cfg g
      → Counts cfg (go_busy h l g)
  unfolding go_busy
  go_busy-Counts h l g found idle c =
      overwrite-Counts g _ h l (record l { idle = false }) found refl refl refl refl
        (all-get_elem? (lease_ok (is_some g.err)) g.leases h l c.leases found)
        (λ alive. ground arith) (λ alive. ground arith) c

  pub set_idle-Counts :
      (now h : ℕ) (idle : Bool) (g : Group) → Counts cfg g → Counts cfg (set_idle now h idle g).0
  unfolding set_idle
  set_idle-Counts now h idle g c = elim (Option-cases (get_elem? g.leases h)) [
    | inl missing ↦ rw (missing, set_idle) c
    | inr (l, found) ↦ ground (arith, go_idle-Counts now h l g found, go_busy-Counts h l g found)
  ]
