-- ===== src/AcpPool/Members.antt =====
-- What the pool does to its processes keeps each one of them, and how many they are.
use dax_kiro_proxy.Common.{
  ℕ, zero, suc, ◌≤◌, ◌≡◌, refl, ap, subst, inl, inr, Bool-cases, Option-cases, true, List, [], ◌∷◌,
  ◌++◌, none, some, arith, ℕ_eq, Bytes, Bytes_eq, ◌==◌, length, is_some,
}
use dax_kiro_proxy.AcpPool.Group.{
  Error, closed_error, Config, Group, add_lease, retire, set_idle, go_idle, go_busy, release_idle,
  drop_lease, try_next, take_event, begin_create, expect, fail_create, end_create, bind_id, deliver,
  start,
}
use dax_kiro_proxy.AcpPool.Moves.{
  Move, retires, leases_again, starts, sets_idle, releases, begins, fails, creates, receives, reads,
  client_ends, move, has_room, Reach, moved,
}
use dax_kiro_proxy.AcpPool.Pool.{
  Pool, adjust, without, expire, oldest, without_idle, shed, prune, compatible, share, retire_all,
}
use dax_kiro_proxy.AcpPool.Runs.{
  swap_at, Every, all_failed, PoolInv, length-adjust, adjust-Every, adjust-all_failed,
}

pub retire-failed : (e : Error) (g : Group) → is_some g.err ≡ true → is_some (retire e g).err ≡ true
unfolding retire
retire-failed e g h = ground arith

retire_fails : (e : Error) (g : Group) → is_some (retire e g).err ≡ true
unfolding retire
retire_fails e g = ground arith

-- Nothing undoes a failure.
pub move-failed :
    (cfg : Config) (m : Move) (g : Group) → is_some g.err ≡ true → is_some (move cfg m g).err ≡ true
unfolding move
move-failed cfg (retires e) g h = retire-failed e g h
move-failed cfg leases_again g h = unfold add_lease in (ground arith)
move-failed cfg (starts none) g h = unfold start in (ground arith)
move-failed cfg (starts (some e)) g h = unfold start in (retire-failed e g h)
move-failed cfg (sets_idle now i idle) g h = unfold set_idle go_idle go_busy in (ground arith)
move-failed cfg (releases i) g h = unfold release_idle drop_lease retire in (ground arith)
move-failed cfg (begins i load_id) g h = unfold begin_create expect in (ground arith)
move-failed cfg (fails e) g h = unfold fail_create retire in (ground arith)
move-failed cfg (creates i id) g h = unfold end_create bind_id retire in (ground arith)
move-failed cfg (receives n) g h = unfold deliver in (ground arith)
move-failed cfg (reads i) g h = unfold try_next take_event in (ground arith)
move-failed cfg (client_ends e) g h = ground arith

module _ (cfg : Config) where
  taken : (g : Group) → has_room cfg g ≡ true → move cfg leases_again g ≡ add_lease g
  unfolding move
  taken g room = ground arith

  pub retire-Reach : (e : Error) (g : Group) → Reach cfg g → Reach cfg (retire e g)
  unfolding move
  retire-Reach e g r = moved (retires e) r

  expire-Every :
      (now : ℕ) (gs : List (ℕ × Group))
      → Every (Reach cfg) gs
      → Every (Reach cfg) (expire cfg now gs).0
  unfolding expire
  expire-Every now [] e = tt
  expire-Every now ((k, g) ∷ gs) e =
      ground (arith, e.0, retire-Reach closed_error g e.0, expire-Every now gs e.1)

  pub length-expire : (now : ℕ) (gs : List (ℕ × Group)) → length (expire cfg now gs).0 ≡ length gs
  unfolding expire
  length-expire now [] = refl
  length-expire now ((k, g) ∷ gs) = ground (arith, length-expire now gs)

  expire-all_failed :
      (now : ℕ) (gs : List (ℕ × Group))
      → all_failed gs ≡ true
      → all_failed (expire cfg now gs).0 ≡ true
  unfolding expire
  expire-all_failed now [] h = refl
  expire-all_failed now ((k, g) ∷ gs) h =
      ground (arith, retire_fails closed_error g, expire-all_failed now gs)

  shed-Every :
      (rounds : ℕ) (idle : List (ℕ × ℕ)) (gs : List (ℕ × Group))
      → Every (Reach cfg) gs
      → Every (Reach cfg) (shed cfg rounds idle gs)
  unfolding shed
  shed-Every zero idle gs e = e
  shed-Every (suc rounds) [] gs e = e
  shed-Every (suc rounds) (x ∷ idle) gs e =
      let k = (oldest x idle).0 in
      let kept = adjust-Every (retire closed_error) k gs (retire-Reach closed_error) e in
      ground (
        arith,
        e,
        shed-Every rounds (without_idle k (x ∷ idle)) (adjust (retire closed_error) k gs) kept,
      )

  pub length-shed :
      (rounds : ℕ) (idle : List (ℕ × ℕ)) (gs : List (ℕ × Group))
      → length (shed cfg rounds idle gs) ≡ length gs
  unfolding shed
  length-shed zero idle gs = refl
  length-shed (suc rounds) [] gs = refl
  length-shed (suc rounds) (x ∷ idle) gs =
      let k = (oldest x idle).0 in
      ground (
        arith,
        length-adjust (retire closed_error) k gs,
        length-shed rounds (without_idle k (x ∷ idle)) (adjust (retire closed_error) k gs),
      )

  shed-all_failed :
      (rounds : ℕ) (idle : List (ℕ × ℕ)) (gs : List (ℕ × Group))
      → all_failed gs ≡ true
      → all_failed (shed cfg rounds idle gs) ≡ true
  unfolding shed
  shed-all_failed zero idle gs h = h
  shed-all_failed (suc rounds) [] gs h = h
  shed-all_failed (suc rounds) (x ∷ idle) gs h =
      let k = (oldest x idle).0 in
      let kept = adjust-all_failed (retire closed_error) k gs (retire-failed closed_error) h in
      ground (
        arith,
        shed-all_failed rounds (without_idle k (x ∷ idle)) (adjust (retire closed_error) k gs) kept,
      )

  pub prune-PoolInv : (now : ℕ) (p : Pool) → PoolInv cfg p → PoolInv cfg (prune cfg now p)
  unfolding prune
  prune-PoolInv now p i =
      let (gs, idle) = expire cfg now p.groups in
      record {
        every = shed-Every (length idle) idle gs (expire-Every now p.groups i.every);
        few = omega (arith, length-shed (length idle) idle gs, length-expire now p.groups, i.few);
        shut =
            λ c. shed-all_failed (length idle) idle gs (expire-all_failed now p.groups (i.shut c));
      }

  compatible_room :
      (scope : Bytes) (g : Group) → compatible cfg scope g ≡ true → has_room cfg g ≡ true
  unfolding compatible
  compatible_room scope g h = ground arith

  share_lease : (g : Group) → has_room cfg g ≡ true → Reach cfg g → Reach cfg (add_lease g)
  share_lease g room r = subst (Reach cfg) (taken g room) (moved leases_again r)

  pub share-Every :
      (scope : Bytes) (gs gs' : List (ℕ × Group)) (k : ℕ)
      → share cfg scope gs ≡ some (gs', k)
      → Every (Reach cfg) gs
      → Every (Reach cfg) gs' × (length gs' ≡ length gs)
  unfolding share
  share-Every scope [] gs' k h e = ground arith
  share-Every scope ((j, g) ∷ gs) gs' k h e = elim (Bool-cases (compatible cfg scope g)) [
    | inl fits ↦
        let is : (j, add_lease g) ∷ gs ≡ gs' = ground arith in
        subst (λ x. Every (Reach cfg) x × (length x ≡ suc (length gs))) is
          ((share_lease g (compatible_room scope g fits) e.0, e.1), refl)
    | inr other ↦ elim (Option-cases (share cfg scope gs)) [
      | inl nobody ↦ ground arith
      | inr ((fs, i), later) ↦
          let is : (j, g) ∷ fs ≡ gs' = ground arith in
          let (kept, long) = share-Every scope gs fs i later e.1 in
          subst (λ x. Every (Reach cfg) x × (length x ≡ suc (length gs))) is
            ((e.0, kept), ap suc long)
    ]
  ]

  pub retire_all-Every :
      (gs : List (ℕ × Group))
      → Every (Reach cfg) gs
      → Every (Reach cfg) (retire_all gs)
        × (length (retire_all gs) ≡ length gs)
        × (all_failed (retire_all gs) ≡ true)
  unfolding retire_all
  retire_all-Every [] e = (tt, refl, refl)
  retire_all-Every ((k, g) ∷ gs) e =
      let (kept, long, failed) = retire_all-Every gs e.1 in
      (
        (retire-Reach closed_error g e.0, kept),
        ap suc long,
        ground (arith, retire_fails closed_error g),
      )

  pub without-Every :
      (k : ℕ) (gs : List (ℕ × Group))
      → Every (Reach cfg) gs
      → Every (Reach cfg) (without k gs)
        × (length (without k gs) ≤ length gs)
        × (all_failed gs ≡ true → all_failed (without k gs) ≡ true)
  unfolding without
  without-Every k [] e = (tt, omega arith, λ h. h)
  without-Every k ((j, g) ∷ gs) e =
      let (kept, fewer, failed) = without-Every k gs e.1 in
      elim (Bool-cases (j == k)) [
        | inl here ↦ rw (here, without) (kept, omega arith, λ h. failed (ground arith))
        | inr apart ↦
            rw (apart, without)
              ((e.0, kept), omega arith, λ h. ground (arith, failed (ground arith)))
      ]

  pub swap_at-Every :
      (n : ℕ) (gs : List (ℕ × Group))
      → Every (Reach cfg) gs
      → Every (Reach cfg) (swap_at n gs)
        × (length (swap_at n gs) ≡ length gs)
        × (all_failed (swap_at n gs) ≡ all_failed gs)
  unfolding swap_at
  swap_at-Every n [] e = (tt, refl, refl)
  swap_at-Every n (x ∷ []) e = (e, refl, refl)
  swap_at-Every zero ((k, g) ∷ (j, f) ∷ gs) e = ((e.1.0, (e.0, e.1.1)), refl, ground arith)
  swap_at-Every (suc n) ((k, g) ∷ x ∷ gs) e =
      let (kept, long, failed) = swap_at-Every n (x ∷ gs) e.1 in
      ((e.0, kept), ap suc long, ground arith)

  pub append-Every :
      (gs : List (ℕ × Group)) (k : ℕ) (g : Group)
      → Every (Reach cfg) gs
      → Reach cfg g
      → Every (Reach cfg) (gs ++ (k, g) ∷ [])
  append-Every [] k g e r = (r, tt)
  append-Every ((j, f) ∷ gs) k g e r = (e.0, append-Every gs k g e.1 r)
