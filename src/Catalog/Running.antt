-- ===== src/Catalog/Running.antt =====
-- Every event keeps the invariant of the readers.
use dax_kiro_proxy.Common.{
  ℕ, suc, ◌-◌, ◌≤◌, ◌≡◌, refl, sym, ap, subst, ◌∙◌, Bool, true, false, not, inl, inr, List, [], ◌∷◌,
  Option, none, some, ℕ_eq, ◌==◌, ==_iff, ==_refl, lookup, all, keep_if, leb, is_some, arith,
  Option-cases, Bool-cases,
}
use dax_kiro_proxy.Catalog.Cache.{
  CacheConfig, Kept, Cache, Reply, answer, wait, Discovery, start, may_retry, get, land,
}
use dax_kiro_proxy.Catalog.Readers.{
  System, Event, read, ends, wakes, gives_up, closes, initial, among, note_start, replied,
  read_step, ends_step, wakes_step, step, run,
}
use dax_kiro_proxy.Catalog.Flights.{
  WaitsFor, Reads, get-Reads, flights, is_served, Spaced, first, Inv, all-insert, all-delete,
  all_mono,
}

Spaced-next :
    (interval now : ℕ)
    → 1 ≤ interval
    → (starts : List ℕ)
    → (elim (first starts) [ none ↦ true | some last ↦ leb interval (now - last) ]) ≡ true
    → Spaced interval starts
    → Spaced interval (now ∷ starts)
Spaced-next interval now enough [] h k = tt
Spaced-next interval now enough (t ∷ ts) h k = (ground (arith, enough), k)

more_served :
    (ended : List ℕ) (g : ℕ) (e : ℕ × ℕ)
    → is_served ended none e ≡ true
    → is_served ended (some g) e ≡ true
more_served ended g (r, f) h = ground arith

-- The end of the discovery that runs serves all its readers.
all_ended :
    (ended : List ℕ) (f : ℕ) (e : ℕ × ℕ)
    → is_served ended (some f) e ≡ true
    → is_served (f ∷ ended) none e ≡ true
all_ended ended f (r, g) h = ground (arith, ==_iff g f)

flying : (fl : Option ℕ) (f : ℕ) → among (flights fl) f ≡ true → fl ≡ some f
flying none f h = ground arith
flying (some g) f h = ground (arith, ==_iff g f)

none_left : (f : ℕ) → keep_if (λ g. not (g == f)) (f ∷ []) ≡ []
none_left f = rw (==_refl f) refl

module _ {A : Type 0} (cfg : CacheConfig) (enough : 1 ≤ cfg.retry_interval) where
  replied-Inv :
      (r : ℕ) (reply : Reply A) (s : System A)
      → WaitsFor reply s.cache.flight
      → Inv cfg.retry_interval s
      → Inv cfg.retry_interval (replied r reply s)
  unfolding replied
  replied-Inv r (answer a) s w inv = record {
    single = inv.single;
    served = inv.served;
    attempt = inv.attempt;
    spaced = inv.spaced;
  }
  replied-Inv r (wait f) s w inv = record {
    single = inv.single;
    served =
        all-insert (is_served s.ended s.cache.flight) r f s.waiting
          (rw w (ground (arith, ==_refl f))) inv.served;
    attempt = inv.attempt;
    spaced = inv.spaced;
  }

  note_start-same : (now : ℕ) (s : System A) → note_start now s.cache s ≡ s
  unfolding note_start
  note_start-same now s = rw (==_refl s.cache.next) refl

  note_start-cache : (now : ℕ) (c : Cache A) (s : System A) → (note_start now c s).cache ≡ c
  unfolding note_start
  note_start-cache now c s = elim (Bool-cases (c.next == s.cache.next)) [
    | inl e ↦ rw e refl
    | inr e ↦ rw e refl
  ]

  started-Inv :
      (now : ℕ) (s : System A)
      → s.cache.flight ≡ none
      → may_retry cfg now s.cache ≡ true
      → Inv cfg.retry_interval s
      → Inv cfg.retry_interval (note_start now (start now s.cache) s)
  unfolding note_start start may_retry
  started-Inv now s idle free inv =
      let other : (suc s.cache.next == s.cache.next) ≡ false = ground arith in
      rw other (record {
        single = ap (◌∷◌ s.cache.next) (inv.single ∙ ap flights idle);
        served =
            all_mono (is_served s.ended none) (is_served s.ended (some s.cache.next)) s.waiting
              (more_served s.ended s.cache.next)
              (subst (λ fl. all (is_served s.ended fl) s.waiting ≡ true) idle inv.served);
        attempt = refl;
        spaced =
            Spaced-next cfg.retry_interval now enough s.starts
              (subst
                (λ (last : Option ℕ).
                  (elim last [ none ↦ true | some t ↦ leb cfg.retry_interval (now - t) ]) ≡ true)
                inv.attempt free)
              inv.spaced;
      })

  read_result-Inv :
      (r now : ℕ) (s : System A) (result : Reply A × Cache A)
      → Reads cfg now s.cache result
      → Inv cfg.retry_interval s
      → Inv cfg.retry_interval (replied r result.0 (note_start now result.1 s))
  unfolding start
  read_result-Inv r now s (reply, c') (inl (e, w)) inv =
      rw (e, note_start-same now s) (replied-Inv r reply s w inv)
  read_result-Inv r now s (reply, c') (inr (idle, free, e, w)) inv = rw e (
      replied-Inv r reply (note_start now (start now s.cache) s)
        (subst (λ (c : Cache A). WaitsFor reply c.flight)
          (sym (note_start-cache now (start now s.cache) s)) w)
        (started-Inv now s idle free inv))

  read_step-Inv :
      (r : ℕ) (discover : Bool) (now : ℕ) (s : System A)
      → Inv cfg.retry_interval s
      → Inv cfg.retry_interval (read_step cfg r discover now s)
  unfolding read_step
  read_step-Inv r discover now s inv = elim (Bool-cases (is_some (lookup r s.waiting))) [
    | inl e ↦ rw e inv
    | inr e ↦ rw e (
        read_result-Inv r now s (get cfg discover now s.cache) (get-Reads cfg discover now s.cache)
          inv)
  ]

  pub land-flight : (d : Discovery A) (created : ℕ) (c : Cache A) → (land d created c).flight ≡ none
  unfolding land
  land-flight d created c = ground arith

  land-last_attempt :
      (d : Discovery A) (created : ℕ) (c : Cache A)
      → (land d created c).last_attempt ≡ c.last_attempt
  unfolding land
  land-last_attempt d created c = ground arith

  ends_step-Inv :
      (f : ℕ) (d : Discovery A) (created : ℕ) (s : System A)
      → Inv cfg.retry_interval s
      → Inv cfg.retry_interval (ends_step f d created s)
  unfolding ends_step
  ends_step-Inv f d created s inv = elim (Bool-cases (among s.running f)) [
    | inr e ↦ rw e inv
    | inl e ↦
        let current = flying s.cache.flight f (subst (λ fs. among fs f ≡ true) inv.single e) in
        rw e (record {
          single =
              ap (keep_if (λ g. not (g == f))) (inv.single ∙ ap flights current)
              ∙ none_left f
              ∙ sym (ap flights (land-flight d created s.cache));
          served = rw (land-flight d created s.cache) (
              all_mono (is_served s.ended (some f)) (is_served (f ∷ s.ended) none) s.waiting
                (all_ended s.ended f)
                (subst (λ fl. all (is_served s.ended fl) s.waiting ≡ true) current inv.served));
          attempt = land-last_attempt d created s.cache ∙ inv.attempt;
          spaced = inv.spaced;
        })
  ]

  wakes_step-Inv :
      (r now : ℕ) (s : System A)
      → Inv cfg.retry_interval s
      → Inv cfg.retry_interval (wakes_step cfg r now s)
  unfolding wakes_step
  wakes_step-Inv r now s inv = elim (Option-cases (lookup r s.waiting)) [
    | inl none_ ↦ rw (none_, wakes_step) inv
    | inr (f, some_) ↦
        rw (some_, wakes_step)
          (elim (Bool-cases (among s.ended f)) [
            | inr e ↦ rw e inv
            | inl e ↦ rw e (record {
              single = inv.single;
              served = all-delete (is_served s.ended s.cache.flight) r s.waiting inv.served;
              attempt = inv.attempt;
              spaced = inv.spaced;
            })
          ])
  ]

  step-Inv :
      (e : Event A) (s : System A)
      → Inv cfg.retry_interval s
      → Inv cfg.retry_interval (step cfg e s)
  unfolding step
  step-Inv (read r discover now) s inv = read_step-Inv r discover now s inv
  step-Inv (ends f d created) s inv = ends_step-Inv f d created s inv
  step-Inv (wakes r now) s inv = wakes_step-Inv r now s inv
  step-Inv (gives_up r) s inv = record {
    single = inv.single;
    served = all-delete (is_served s.ended s.cache.flight) r s.waiting inv.served;
    attempt = inv.attempt;
    spaced = inv.spaced;
  }
  step-Inv closes s inv = record {
    single = inv.single;
    served = inv.served;
    attempt = inv.attempt;
    spaced = inv.spaced;
  }

  pub run-Inv :
      (es : List (Event A)) (s : System A)
      → Inv cfg.retry_interval s
      → Inv cfg.retry_interval (run cfg es s)
  unfolding run
  run-Inv [] s inv = inv
  run-Inv (e ∷ es) s inv = run-Inv es (step cfg e s) (step-Inv e s inv)

  pub initial-Inv :
      (es : List (Event A)) (loaded : Option (Kept A))
      → Inv cfg.retry_interval (run cfg es (initial loaded))
  initial-Inv es loaded =
      run-Inv es (initial loaded)
        (record { single = refl; served = refl; attempt = refl; spaced = tt })
