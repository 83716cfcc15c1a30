-- ===== src/Session/Events.antt =====
-- Every event keeps the invariant of the bindings.
use dax_kiro_proxy.Common.{
  ℕ, ◌≡◌, refl, sym, subst, Bool, true, ◌&&◌, ◌||◌, inl, inr, List, [], ◌∷◌, Option, none, some,
  ℕ_eq, Bytes_eq, Bytes, get_elem?, if◌then◌else◌, is_empty, arith, Bool-cases,
}
use dax_kiro_proxy.Session.Manager.{
  State, ManagerConfig, Manager, admit, close_expired, touch, prune_all,
}
use dax_kiro_proxy.Session.Starts.{
  Phase, closing, ready, gated, leaving, Active, System, initial, Event, begins, expires, enters,
  drives, returns, leaves, touches, prunes, sweeps, closes, clears, with_manager, begin_start,
  set_driver, expire_at, enter_at, drive_at, touch_if, return_at, leave_at, advance, place_of,
  clear, proceed, step, run,
}
use dax_kiro_proxy.Session.Users.{uses, gates, Known}
use dax_kiro_proxy.Session.Taking.{Inv, Taken, admit-Taken, prune-Inv}
use dax_kiro_proxy.Session.Passing.{change-Inv, pass-Inv, enter-Inv, exit-Inv, leave-Inv, flags-Inv}

abbrev pub InvAt : ℕ → System → Type 0
InvAt max s = Inv max s.manager s.actives

module _ (cfg : ManagerConfig) where
  begin_start-Inv :
      (key : Bytes) (now : ℕ) (states states' : ℕ → State) (s : System)
      → InvAt cfg.max_sessions s
      → InvAt cfg.max_sessions (begin_start cfg key now states states' s)
  unfolding begin_start
  begin_start-Inv key now states states' s inv =
      begun (admit cfg states states' key now s.manager)
        (admit-Taken cfg states states' key now s.manager s.actives inv)
    where
      begun :
          (result : Option ℕ × Manager)
          → Taken cfg.max_sessions key s.actives result
          → InvAt cfg.max_sessions (elim result.0 [
            | none ↦ with_manager result.1 s
            | some b ↦ record s {
              manager = result.1;
              actives = record { key = key; binding = b; phase = closing } ∷ s.actives;
            }
          ])
      begun (none, m) h = h
      begun (some b, m) h = h

  expire_at-Inv :
      (failed : Bool) (p : Phase) (i : ℕ) (a : Active) (s : System)
      → get_elem? s.actives i ≡ some a
      → InvAt cfg.max_sessions s
      → InvAt cfg.max_sessions (expire_at failed p i a s)
  unfolding expire_at
  expire_at-Inv failed closing i a s here inv =
      pass-Inv cfg.max_sessions i a (if s.manager.cleanup_failed || failed then leaving else ready)
        (close_expired failed s.manager) s.actives here (ground arith)
        (flags-Inv cfg.max_sessions s.manager s.manager.closed (s.manager.cleanup_failed || failed)
          s.actives inv)
  expire_at-Inv failed ready i a s here inv = inv
  expire_at-Inv failed gated i a s here inv = inv
  expire_at-Inv failed leaving i a s here inv = inv

  enter_at-Inv :
      (p : Phase) (i : ℕ) (a : Active) (s : System)
      → a.phase ≡ p
      → get_elem? s.actives i ≡ some a
      → InvAt cfg.max_sessions s
      → InvAt cfg.max_sessions (enter_at p i a s)
  unfolding enter_at
  enter_at-Inv ready i a s phase here inv = elim (Bool-cases (s.manager.bindings a.binding).gate) [
    | inl held ↦ rw held (pass-Inv cfg.max_sessions i a leaving s.manager s.actives here refl inv)
    | inr open_gate ↦
        rw open_gate (enter-Inv cfg.max_sessions i a s.manager s.actives here phase open_gate inv)
  ]
  enter_at-Inv closing i a s phase here inv = inv
  enter_at-Inv gated i a s phase here inv = inv
  enter_at-Inv leaving i a s phase here inv = inv

  drive_at-Inv :
      (p : Phase) (i : ℕ) (a : Active) (s : System)
      → InvAt cfg.max_sessions s
      → InvAt cfg.max_sessions (drive_at p i a s)
  unfolding drive_at
  drive_at-Inv gated i a s inv =
      change-Inv cfg.max_sessions s.manager a.binding (set_driver s.drivers) s.actives (λ e. refl)
        (λ e. refl) inv
  drive_at-Inv closing i a s inv = inv
  drive_at-Inv ready i a s inv = inv
  drive_at-Inv leaving i a s inv = inv

  touch-Inv :
      (b now : ℕ) (m : Manager) (actives : List Active)
      → Inv cfg.max_sessions m actives
      → Inv cfg.max_sessions (touch b now m) actives
  touch-Inv b now m actives inv =
      change-Inv cfg.max_sessions m b (λ e. record e { touched = now }) actives (λ e. refl)
        (λ e. refl) inv

  touch_if-Inv :
      (refused : Option ℕ) (b : ℕ) (m : Manager) (actives : List Active)
      → Inv cfg.max_sessions m actives
      → Inv cfg.max_sessions (touch_if refused b m) actives
  touch_if-Inv none b m actives inv = inv
  touch_if-Inv (some now) b m actives inv = touch-Inv b now m actives inv

  return_at-Inv :
      (refused : Option ℕ) (p : Phase) (i : ℕ) (a : Active) (s : System)
      → a.phase ≡ p
      → get_elem? s.actives i ≡ some a
      → InvAt cfg.max_sessions s
      → InvAt cfg.max_sessions (return_at refused p i a s)
  unfolding return_at
  return_at-Inv refused gated i a s phase here inv =
      exit-Inv cfg.max_sessions i a (touch_if refused a.binding s.manager) s.actives here phase
        (touch_if-Inv refused a.binding s.manager s.actives inv)
  return_at-Inv refused closing i a s phase here inv = inv
  return_at-Inv refused ready i a s phase here inv = inv
  return_at-Inv refused leaving i a s phase here inv = inv

  leave_at-Inv :
      (p : Phase) (i : ℕ) (a : Active) (s : System)
      → get_elem? s.actives i ≡ some a
      → InvAt cfg.max_sessions s
      → InvAt cfg.max_sessions (leave_at p i a s)
  unfolding leave_at
  leave_at-Inv leaving i a s here inv = leave-Inv cfg.max_sessions i a s.manager s.actives here inv
  leave_at-Inv closing i a s here inv = inv
  leave_at-Inv ready i a s here inv = inv
  leave_at-Inv gated i a s here inv = inv

  advance-Inv :
      (e : Event) (i : ℕ) (a : Active) (s : System)
      → get_elem? s.actives i ≡ some a
      → InvAt cfg.max_sessions s
      → InvAt cfg.max_sessions (advance e i a s)
  advance-Inv (expires _ failed) i a s here inv = expire_at-Inv failed a.phase i a s here inv
  advance-Inv (enters _) i a s here inv = enter_at-Inv a.phase i a s refl here inv
  advance-Inv (drives _) i a s here inv = drive_at-Inv a.phase i a s inv
  advance-Inv (returns _ refused) i a s here inv = return_at-Inv refused a.phase i a s refl here inv
  advance-Inv (leaves _) i a s here inv = leave_at-Inv a.phase i a s here inv
  advance-Inv (begins key now states states') i a s here inv = inv
  advance-Inv (touches b now) i a s here inv = inv
  advance-Inv (prunes now states) i a s here inv = inv
  advance-Inv (sweeps failed) i a s here inv = inv
  advance-Inv closes i a s here inv = inv
  advance-Inv clears i a s here inv = inv

  proceed-Inv :
      (e : Event) (s : System) → InvAt cfg.max_sessions s → InvAt cfg.max_sessions (proceed e s)
  unfolding proceed
  proceed-Inv e s inv = placed (get_elem? s.actives (place_of e)) refl
    where
      placed :
          (o : Option Active)
          → get_elem? s.actives (place_of e) ≡ o
          → InvAt cfg.max_sessions (elim o [ none ↦ s | some a ↦ advance e (place_of e) a s ])
      placed none h = inv
      placed (some a) h = advance-Inv e (place_of e) a s h inv

  clear-Inv : (s : System) → InvAt cfg.max_sessions s → InvAt cfg.max_sessions (clear s)
  unfolding clear
  clear-Inv s inv = elim (Bool-cases (s.manager.closed && is_empty s.actives)) [
    | inr e ↦ rw e inv
    | inl e ↦
        let none_left : s.actives ≡ [] = ground arith in
        rw e (record {
          size = omega arith;
          users = inv.users;
          gates_held = inv.gates_held;
          unborn = inv.unborn;
          born = refl;
          known = subst (Known []) (sym none_left) tt;
        })
  ]

  prune_all-Inv :
      (states : ℕ → State) (now : ℕ) (m : Manager) (actives : List Active)
      → Inv cfg.max_sessions m actives
      → Inv cfg.max_sessions (prune_all cfg states now m) actives
  unfolding prune_all
  prune_all-Inv states now m actives inv = elim (Bool-cases (m.closed || m.cleanup_failed)) [
    | inl e ↦ rw e inv
    | inr e ↦ rw e (prune-Inv cfg states now m actives inv)
  ]

  step-Inv :
      (e : Event) (s : System) → InvAt cfg.max_sessions s → InvAt cfg.max_sessions (step cfg e s)
  unfolding step
  step-Inv (begins key now states states') s inv = begin_start-Inv key now states states' s inv
  step-Inv (touches b now) s inv = touch-Inv b now s.manager s.actives inv
  step-Inv (prunes now states) s inv = prune_all-Inv states now s.manager s.actives inv
  step-Inv (sweeps failed) s inv =
      flags-Inv cfg.max_sessions s.manager s.manager.closed (s.manager.cleanup_failed || failed)
        s.actives inv
  step-Inv closes s inv =
      flags-Inv cfg.max_sessions s.manager true s.manager.cleanup_failed s.actives inv
  step-Inv clears s inv = clear-Inv s inv
  step-Inv (expires i failed) s inv = proceed-Inv (expires i failed) s inv
  step-Inv (enters i) s inv = proceed-Inv (enters i) s inv
  step-Inv (drives i) s inv = proceed-Inv (drives i) s inv
  step-Inv (returns i refused) s inv = proceed-Inv (returns i refused) s inv
  step-Inv (leaves i) s inv = proceed-Inv (leaves i) s inv

  run-Inv :
      (es : List Event) (s : System)
      → InvAt cfg.max_sessions s
      → InvAt cfg.max_sessions (run cfg es s)
  unfolding run
  run-Inv [] s inv = inv
  run-Inv (e ∷ es) s inv = run-Inv es (step cfg e s) (step-Inv e s inv)

  pub initial-Inv : (es : List Event) → InvAt cfg.max_sessions (run cfg es initial)
  unfolding uses gates
  initial-Inv es = run-Inv es initial (record {
    size = omega arith;
    users = λ b. omega arith;
    gates_held = λ b. omega arith;
    unborn = λ b h. refl;
    born = refl;
    known = tt;
  })
