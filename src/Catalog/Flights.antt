-- ===== src/Catalog/Flights.antt =====
-- What a read does to the cache, and the invariant of the readers: one discovery at a time.
use dax_kiro_proxy.Common.{
  ℕ, ◌+◌, ◌≤◌, ◌≡◌, refl, Bool, true, false, not, ◌&&◌, ◌||◌, ◌⊎◌, inl, inr, List, [], ◌∷◌, Option,
  none, some, ℕ_eq, ◌==◌, insert, delete, all, if◌then◌else◌, is_some, arith,
}
use dax_kiro_proxy.Catalog.Cache.{
  CacheConfig, Kept, Cache, Snapshot, Reply, answer, wait, start, may_retry, is_stale, get_kept,
  get_missing, get,
}
use dax_kiro_proxy.Catalog.Readers.{System, among}

abbrev pub WaitsFor : {A : Type 0} → Reply A → Option ℕ → Type 0
WaitsFor (answer a) flight = Unit
WaitsFor (wait f) flight = flight ≡ some f

-- A read leaves the cache, or it starts the one discovery.
abbrev pub Reads : {A : Type 0} → CacheConfig → ℕ → Cache A → Reply A × Cache A → Type 0
Reads cfg now c (reply, c') =
    ((c' ≡ c) × WaitsFor reply c.flight)
    ⊎ ((c.flight ≡ none)
        × (may_retry cfg now c ≡ true)
        × (c' ≡ start now c)
        × WaitsFor reply (some c.next))

module _ {A : Type 0} (cfg : CacheConfig) where
  kept-Reads :
      (discover : Bool) (now : ℕ) (k : Kept A) (c : Cache A) (b : Bool)
      → (b ≡ true → (c.flight ≡ none) × (may_retry cfg now c ≡ true))
      → (a : Option (Snapshot A)) → Reads cfg now c (answer a, if b then start now c else c)
  kept-Reads discover now k c true h a = inr (((h refl).0, (h refl).1, refl, tt))
  kept-Reads discover now k c false h a = inl ((refl, tt))

  get_missing-Reads :
      (discover : Bool) (now : ℕ) (c : Cache A) (fl : Option ℕ)
      → c.flight ≡ fl
      → Reads cfg now c (elim fl [
        | some f ↦ (wait f, c)
        | none ↦
            if not discover || not (may_retry cfg now c)
            then (answer none, c)
            else (wait c.next, start now c)
      ])
  get_missing-Reads discover now c (some f) e = inl ((refl, e))
  get_missing-Reads discover now c none e = tried (not discover || not (may_retry cfg now c)) refl
    where
      tried :
          (b : Bool)
          → (not discover || not (may_retry cfg now c)) ≡ b
          → Reads cfg now c (if b then (answer none, c) else (wait c.next, start now c))
      tried true h = inl ((refl, tt))
      tried false h = inr ((e, ground arith, refl, refl))

  pub get-Reads :
      (discover : Bool) (now : ℕ) (c : Cache A) → Reads cfg now c (get cfg discover now c)
  unfolding get get_kept get_missing
  get-Reads discover now c = closed c.closed c.kept
    where
      closed :
          (b : Bool) (m : Option (Kept A))
          → Reads cfg now c (
              if b then (answer none, c) else elim m [
                | some k ↦ get_kept cfg discover now k c
                | none ↦ get_missing cfg discover now c
              ])
      closed true m = inl ((refl, tt))
      closed false none = get_missing-Reads discover now c c.flight refl
      closed false (some k) =
          kept-Reads discover now k c
            (is_stale cfg now k && not (is_some c.flight) && may_retry cfg now c && discover)
            (λ h. (ground arith, ground arith))
            (some (record { catalog = k.catalog; stale = is_stale cfg now k }))

-- The channels of the discoveries that run.
abbrev pub flights : Option ℕ → List ℕ
flights none = []
flights (some f) = f ∷ []

-- Whether a reader's channel is closed, or that of the discovery that runs.
abbrev pub is_served : List ℕ → Option ℕ → ℕ × ℕ → Bool
is_served ended none (r, f) = among ended f
is_served ended (some g) (r, f) = among ended f || f == g

-- Each attempt is at least one interval later than the one before.
abbrev pub Spaced : ℕ → List ℕ → Type 0
Spaced interval [] = Unit
Spaced interval (t ∷ []) = Unit
Spaced interval (t ∷ u ∷ ts) = (u + interval ≤ t) × Spaced interval (u ∷ ts)

abbrev pub first : List ℕ → Option ℕ
first [] = none
first (t ∷ ts) = some t

pub record Inv (interval : ℕ) {A : Type 0} (s : System A) : Type 0 where
  pub single : s.running ≡ flights s.cache.flight
  pub served : all (is_served s.ended s.cache.flight) s.waiting ≡ true
  pub attempt : s.cache.last_attempt ≡ first s.starts
  pub spaced : Spaced interval s.starts

pub all-insert :
    (p : ℕ × ℕ → Bool) (r f : ℕ) (m : List (ℕ × ℕ))
    → p (r, f) ≡ true
    → all p m ≡ true
    → all p (insert r f m) ≡ true
unfolding insert
all-insert p r f [] h k = ground arith
all-insert p r f ((j, g) ∷ m) h k = ground (arith, all-insert p r f m)

pub all-delete :
    (p : ℕ × ℕ → Bool) (r : ℕ) (m : List (ℕ × ℕ)) → all p m ≡ true → all p (delete r m) ≡ true
unfolding delete
all-delete p r [] h = refl
all-delete p r ((j, g) ∷ m) h = ground (arith, all-delete p r m)

pub all_mono :
    (p q : ℕ × ℕ → Bool) (m : List (ℕ × ℕ))
    → ((e : ℕ × ℕ) → p e ≡ true → q e ≡ true)
    → all p m ≡ true
    → all q m ≡ true
all_mono p q [] k h = refl
all_mono p q (e ∷ m) k h = ground (arith, all_mono p q m k, k e)
