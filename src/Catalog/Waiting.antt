-- ===== src/Catalog/Waiting.antt =====
-- What the readers of a cache can rely on: attempts are rare, and nobody waits for ever.
use dax_kiro_proxy.Common.{
  ℕ, ◌≤◌, ◌≡◌, refl, sym, subst, true, List, [], Option, none, some, ℕ_eq, all, ap, ◌∙◌, ◌++◌, keys,
  length, arith, map, Post, if-Post,
}
use dax_kiro_proxy.Catalog.Cache.{
  CacheConfig, Kept, Discovery, get_again, discovered, new_config, with_defaults, config_ok,
}
use dax_kiro_proxy.Catalog.Readers.{Event, ends, wakes, initial, run}
use dax_kiro_proxy.Catalog.Flights.{flights, is_served, Spaced}
use dax_kiro_proxy.Catalog.Running.{initial-Inv, run-Inv}
use dax_kiro_proxy.Catalog.Serving.{
  covered, waiters, covered-keys, told, newest, wake_all, ends_all, ends-told,
}

new_config_positive :
    (given : CacheConfig) → Post (λ cfg. 1 ≤ cfg.retry_interval) (new_config given)
unfolding new_config
new_config_positive given =
    if-Post (λ (cfg : CacheConfig). 1 ≤ cfg.retry_interval) (config_ok (with_defaults given)) _ _
      (λ e. ground arith) (λ e. tt)

-- At most one discovery of the catalog runs at any time, and each starts at least one retry interval
-- after the one before, whatever the readers do.
pub run-flights :
    {A : Type 0} (given cfg : CacheConfig) (loaded : Option (Kept A)) (es : List (Event A))
    → new_config given ≡ some cfg
    → (length (run cfg es (initial loaded)).running ≤ 1)
      × Spaced cfg.retry_interval (run cfg es (initial loaded)).starts
run-flights given cfg loaded es h =
    let inv =
      initial-Inv cfg (subst (Post (λ cfg. 1 ≤ cfg.retry_interval)) h (new_config_positive given))
        es loaded in
    (rw (inv.single) (few (run cfg es (initial loaded)).cache.flight), inv.spaced)
  where
    few : (fl : Option ℕ) → length (flights fl) ≤ 1
    few none = omega arith
    few (some f) = omega arith

-- Whatever the readers did, once the discovery that runs, if any, has ended, with whatever outcome, and
-- the readers that wait have run on, nobody waits any longer, and answers were given to all readers that
-- waited and to no others. Each of these answers is nothing if the cache is closed. Otherwise it is the
-- catalog of the discovery that ended, or, if that brought none, the catalog that the cache had before,
-- or nothing if it had none; and it calls the catalog stale if it is
-- at least as old as its time to live.
pub run-waiting :
    {A : Type 0} (given cfg : CacheConfig) (loaded : Option (Kept A)) (es : List (Event A))
    (d : Discovery A) (created now : ℕ)
    → new_config given ≡ some cfg
    → let s = run cfg es (initial loaded) in
      let s' = run cfg (map (λ f. ends f d created) s.running) s in
      let t = run cfg (map (λ r. wakes r now) (keys s'.waiting)) s' in
      let a = told cfg now s.cache.closed (newest s.running (discovered d) created s.cache.kept) in
      (t.waiting ≡ [])
      × (readers : List ℕ) × (t.answers ≡ map (λ r. (r, a)) readers ++ s'.answers)
      × (covered readers s'.waiting ≡ true)
      × (waiters readers s'.waiting ≡ true)
run-waiting given cfg loaded es d created now h =
    let enough = subst (Post (λ cfg. 1 ≤ cfg.retry_interval)) h (new_config_positive given) in
    let s = run cfg es (initial loaded) in
    let s' = run cfg (map (λ f. ends f d created) s.running) s in
    let inv = initial-Inv cfg enough es loaded in
    let inv' = run-Inv cfg enough (map (λ f. ends f d created) s.running) s inv in
    let idle =
      subst (λ fs. (run cfg (map (λ f. ends f d created) fs) s).cache.flight ≡ none)
        (sym inv.single) (ends_all cfg enough d created s s.cache.flight refl inv.single) in
    let (empty, readers, answers, cover, wait_) =
      wake_all cfg enough now (keys s'.waiting) s'
        (subst (λ fl. all (is_served s'.ended fl) s'.waiting ≡ true) idle inv'.served)
        (covered-keys s'.waiting) in
    let same =
      subst
        (λ fs.
          get_again cfg now (run cfg (map (λ f. ends f d created) fs) s).cache
          ≡ told cfg now s.cache.closed (newest fs (discovered d) created s.cache.kept))
        (sym inv.single) (ends-told cfg enough d created now s s.cache.flight inv.single) in
    (empty, readers, answers ∙ ap (λ a. map (λ r. (r, a)) readers ++ s'.answers) same, cover, wait_)
