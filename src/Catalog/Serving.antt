-- ===== src/Catalog/Serving.antt =====
-- internal/catalog/cache.go: what the readers that wait are told once the discovery has ended.
use dax_kiro_proxy.Common.{
  ℕ, ◌-◌, ◌≤◌, false, leb, if◌then◌else◌, Bool-cases, ◌≡◌, refl, sym, subst, Bool, true, inl, inr,
  List, [], ◌∷◌, Option, none, some, ℕ_eq, ◌==◌, ==_refl, lookup, delete, delete-absent, any, all,
  any-append, all-append, append_assoc, append-nil, ap, ◌∙◌, ◌++◌, is_some, keys, arith,
  Option-cases, map,
}
use dax_kiro_proxy.Catalog.Cache.{
  CacheConfig, Kept, Cache, Snapshot, Discovery, get_again, discovered, land,
}
use dax_kiro_proxy.Catalog.Readers.{System, ends, wakes, among, wakes_step, ends_step, step, run}
use dax_kiro_proxy.Catalog.Flights.{flights, is_served, all-delete}
use dax_kiro_proxy.Catalog.Running.{land-flight}

-- Every reader in `m` is one of `rs`.
abbrev pub covered : List ℕ → List (ℕ × ℕ) → Bool
covered rs m = all (λ (e : ℕ × ℕ). any (◌==◌ e.0) rs) m

covered-delete :
    (r : ℕ) (rs : List ℕ) (m : List (ℕ × ℕ))
    → covered (r ∷ rs) m ≡ true
    → covered rs (delete r m) ≡ true
unfolding delete
covered-delete r rs [] h = refl
covered-delete r rs ((j, f) ∷ m) h = ground (arith, covered-delete r rs m)

covered_none : (m : List (ℕ × ℕ)) → covered [] m ≡ true → m ≡ []
covered_none [] h = refl
covered_none (e ∷ m) h = ground arith

covered-cons :
    (r : ℕ) (rs : List ℕ) (m : List (ℕ × ℕ)) → covered rs m ≡ true → covered (r ∷ rs) m ≡ true
covered-cons r rs [] h = refl
covered-cons r rs (e ∷ m) h = ground (arith, covered-cons r rs m)

pub covered-keys : (m : List (ℕ × ℕ)) → covered (keys m) m ≡ true
covered-keys [] = refl
covered-keys ((r, f) ∷ m) = ground (arith, ==_refl r, covered-cons r (keys m) m, covered-keys m)

map_append : {A B : Type 0} (f : A → B) (xs ys : List A) → map f (xs ++ ys) ≡ map f xs ++ map f ys
map_append f [] ys = refl
map_append f (x ∷ xs) ys = ap (◌∷◌ (f x)) (map_append f xs ys)

-- Every reader of `rs` waits in `m`.
abbrev pub waiters : List ℕ → List (ℕ × ℕ) → Bool
waiters rs m = all (λ r. is_some (lookup r m)) rs

covered-deleted :
    (r : ℕ) (rs : List ℕ) (m : List (ℕ × ℕ))
    → covered rs (delete r m) ≡ true
    → covered (rs ++ r ∷ []) m ≡ true
unfolding delete
covered-deleted r rs [] h = refl
covered-deleted r rs ((j, f) ∷ m) h =
    ground (arith, covered-deleted r rs m, any-append (◌==◌ j) rs (r ∷ []))

lookup-deleted :
    (q r : ℕ) (m : List (ℕ × ℕ))
    → is_some (lookup q (delete r m)) ≡ true
    → is_some (lookup q m) ≡ true
unfolding lookup delete
lookup-deleted q r [] h = h
lookup-deleted q r ((j, f) ∷ m) h = ground (arith, lookup-deleted q r m)

waiters-deleted :
    (r : ℕ) (rs : List ℕ) (m : List (ℕ × ℕ)) → waiters rs (delete r m) ≡ true → waiters rs m ≡ true
waiters-deleted r [] m h = refl
waiters-deleted r (q ∷ rs) m h = ground (arith, waiters-deleted r rs m, lookup-deleted q r m)

lookup-served :
    (ended : List ℕ) (r f : ℕ) (m : List (ℕ × ℕ))
    → all (is_served ended none) m ≡ true
    → lookup r m ≡ some f
    → among ended f ≡ true
unfolding lookup
lookup-served ended r f [] h k = ground arith
lookup-served ended r f ((j, g) ∷ m) h k = ground (arith, lookup-served ended r f m)

-- What a reader is told of the catalog `kept`: nothing if there is none, or if the cache is closed.
abbrev pub told : {A : Type 0} → CacheConfig → ℕ → Bool → Option (Kept A) → Option (Snapshot A)
told cfg now true kept = none
told cfg now false none = none
told cfg now false (some k) =
    some (record { catalog = k.catalog; stale = leb cfg.ttl (now - k.created) })

-- The catalog of the discovery, if one runs and it brings one, otherwise the catalog of before.
abbrev pub newest : {A : Type 0} → List ℕ → Option A → ℕ → Option (Kept A) → Option (Kept A)
newest [] found created kept = kept
newest (f ∷ fs) none created kept = kept
newest (f ∷ fs) (some found) created kept = some (record { catalog = found; created = created })

module _ {A : Type 0} (cfg : CacheConfig) (enough : 1 ≤ cfg.retry_interval) where
  wakes_step-ended : (r now : ℕ) (s : System A) → (wakes_step cfg r now s).ended ≡ s.ended
  unfolding wakes_step
  wakes_step-ended r now s = ground arith

  -- A reader whose channel is closed goes.
  wakes_step-waiting :
      (r now : ℕ) (s : System A)
      → all (is_served s.ended none) s.waiting ≡ true
      → (wakes_step cfg r now s).waiting ≡ delete r s.waiting
  unfolding wakes_step
  wakes_step-waiting r now s h = elim (Option-cases (lookup r s.waiting)) [
    | inl none_ ↦ rw (none_, wakes_step) (sym (delete-absent r s.waiting none_))
    | inr (f, some_) ↦
        rw (some_, wakes_step) (rw (lookup-served s.ended r f s.waiting h some_) refl)
  ]

  wakes_step-cache : (r now : ℕ) (s : System A) → (wakes_step cfg r now s).cache ≡ s.cache
  unfolding wakes_step
  wakes_step-cache r now s = ground arith

  -- What the end of a wait tells, and to whom.
  wakes_step-Serves :
      (r now : ℕ) (s : System A)
      → all (is_served s.ended none) s.waiting ≡ true
      → (readers : List ℕ) × ((wakes_step cfg r now s).answers
          ≡ map (λ q. (q, get_again cfg now s.cache)) readers ++ s.answers)
        × ((rs : List ℕ)
            → covered rs (delete r s.waiting) ≡ true
            → waiters rs (delete r s.waiting) ≡ true
            → (covered (rs ++ readers) s.waiting ≡ true)
              × (waiters (rs ++ readers) s.waiting ≡ true))
  unfolding wakes_step
  wakes_step-Serves r now s h = elim (Option-cases (lookup r s.waiting)) [
    | inl none_ ↦ (
      [],
      rw (none_, wakes_step) refl,
      λ rs. rw (delete-absent r s.waiting none_, append-nil rs) (λ k w. (k, w)),
    )
    | inr (f, some_) ↦ (
      r ∷ [],
      rw (some_, wakes_step) (rw (lookup-served s.ended r f s.waiting h some_) refl),
      λ rs k w. (
        covered-deleted r rs s.waiting k,
        all-append (λ q. is_some (lookup q s.waiting)) rs (r ∷ [])
            ∙ ground (arith, waiters-deleted r rs s.waiting w, some_),
      ),
    )
  ]

  -- All readers run on, one after the other.
  pub wake_all :
      (now : ℕ) (rs : List ℕ) (s : System A)
      → all (is_served s.ended none) s.waiting ≡ true
      → covered rs s.waiting ≡ true
      → ((run cfg (map (λ r. wakes r now) rs) s).waiting ≡ [])
        × (readers : List ℕ) × ((run cfg (map (λ r. wakes r now) rs) s).answers
            ≡ map (λ q. (q, get_again cfg now s.cache)) readers ++ s.answers)
        × (covered readers s.waiting ≡ true)
        × (waiters readers s.waiting ≡ true)
  unfolding run step
  wake_all now [] s h k = (covered_none s.waiting k, [], refl, k, refl)
  wake_all now (r ∷ rs) s h k =
      let gone = wakes_step-waiting r now s h in
      let (here, told, widen) = wakes_step-Serves r now s h in
      let (empty, later, rest, cover, wait_) =
        wake_all now rs (wakes_step cfg r now s)
          (rw (wakes_step-ended r now s, gone) (all-delete (is_served s.ended none) r s.waiting h))
          (rw gone (covered-delete r rs s.waiting k)) in
      let same = wakes_step-cache r now s in
      (
        empty,
        later ++ here,
        rest
            ∙ ap
                (λ c. map (λ q. (q, get_again cfg now c)) later ++ (wakes_step cfg r now s).answers)
                same
            ∙ ap (λ as'. map (λ q. (q, get_again cfg now s.cache)) later ++ as') told
            ∙ sym (append_assoc (map (λ q. (q, get_again cfg now s.cache)) later) _ s.answers)
            ∙ ap (λ as'. as' ++ s.answers) (sym (map_append _ later here)),
        (widen later (subst (λ m. covered later m ≡ true) gone cover)
            (subst (λ m. waiters later m ≡ true) gone wait_)).0,
        (widen later (subst (λ m. covered later m ≡ true) gone cover)
            (subst (λ m. waiters later m ≡ true) gone wait_)).1,
      )

  pub ends_all :
      (d : Discovery A) (created : ℕ) (s : System A) (fl : Option ℕ)
      → s.cache.flight ≡ fl
      → s.running ≡ flights fl
      → (run cfg (map (λ f. ends f d created) (flights fl)) s).cache.flight ≡ none
  unfolding run step ends_step
  ends_all d created s none idle e = idle
  ends_all d created s (some f) busy e =
      rw (e, ==_refl f) (land-flight cfg enough d created s.cache)

  get_again-told : (now : ℕ) (c : Cache A) → get_again cfg now c ≡ told cfg now c.closed c.kept
  unfolding get_again
  get_again-told now c = cases c.closed c.kept
    where
      cases :
          (b : Bool) (m : Option (Kept A))
          → (elim m [
            | none ↦ none
            | some k ↦
                if b
                then none
                else some (record { catalog = k.catalog; stale = leb cfg.ttl (now - k.created) })
          ])
            ≡ told cfg now b m
      cases true none = refl
      cases false none = refl
      cases true (some k) = refl
      cases false (some k) = refl

  land-told :
      (d : Discovery A) (created now f : ℕ) (c : Cache A)
      → told cfg now (land d created c).closed (land d created c).kept
        ≡ told cfg now c.closed (newest (f ∷ []) (discovered d) created c.kept)
  unfolding land
  land-told d created now f c = elim (Option-cases (discovered d)) [
    | inl e ↦ rw (e, land) refl
    | inr (found, e) ↦ elim (Bool-cases c.closed) [
      | inl b ↦ rw (e, b, land) refl
      | inr b ↦ rw (e, b, land) refl
    ]
  ]

  pub ends-told :
      (d : Discovery A) (created now : ℕ) (s : System A) (fl : Option ℕ)
      → s.running ≡ flights fl
      → get_again cfg now (run cfg (map (λ f. ends f d created) (flights fl)) s).cache
        ≡ told cfg now s.cache.closed (newest (flights fl) (discovered d) created s.cache.kept)
  unfolding run step ends_step
  ends-told d created now s none e = get_again-told now s.cache
  ends-told d created now s (some f) e =
      rw (e, ==_refl f)
        (get_again-told now (land d created s.cache) ∙ land-told d created now f s.cache)
