-- ===== src/Catalog/Readers.antt =====
-- internal/catalog/cache.go: the readers of a cache and its discoveries, at any moments. Each event is one
-- section under the lock, or the end of a wait.
use dax_kiro_proxy.Common.{
  ℕ, Bool, List, [], ◌∷◌, Option, none, some, ℕ_eq, ◌==◌, lookup, insert, delete, any, keep_if, not,
  if◌then◌else◌, is_some,
}
use dax_kiro_proxy.Catalog.Cache.{
  CacheConfig, Kept, Cache, Snapshot, Reply, answer, wait, Discovery, new_cache, get, get_again,
  land, close,
}

-- `running` are the discoveries that have not ended, `ended` the channels that are closed, `starts` the
-- times at which discoveries started, the last one first.
pub record System (A : Type 0) : Type 0 where
  pub cache : Cache A
  pub running : List ℕ
  pub ended : List ℕ
  pub starts : List ℕ
  pub waiting : List (ℕ × ℕ)
  pub answers : List (ℕ × Option (Snapshot A))

pub data Event (A : Type 0) : Type 0 where
  read : ℕ → Bool → ℕ → Event A  -- the reader, whether it can discover, and the time
  ends : ℕ → Discovery A → ℕ → Event A
  wakes : ℕ → ℕ → Event A
  gives_up : ℕ → Event A
  closes : Event A

abbrev pub among : List ℕ → ℕ → Bool
among fs f = any (◌==◌ f) fs

module _ {A : Type 0} where
  abbrev pub initial : Option (Kept A) → System A
  initial loaded = record {
    cache = new_cache loaded;
    running = [];
    ended = [];
    starts = [];
    waiting = [];
    answers = [];
  }

  -- A section that may have started a discovery.
  unfoldable pub note_start : ℕ → Cache A → System A → System A
  note_start now c s =
      if c.next == s.cache.next
      then record s { cache = c }
      else record s { cache = c; running = s.cache.next ∷ s.running; starts = now ∷ s.starts }

  unfoldable pub replied : ℕ → Reply A → System A → System A
  replied r (answer a) s = record s { answers = (r, a) ∷ s.answers }
  replied r (wait f) s = record s { waiting = insert r f s.waiting }

  unfoldable pub read_step : CacheConfig → ℕ → Bool → ℕ → System A → System A
  read_step cfg r discover now s =
      let result = get cfg discover now s.cache in
      if is_some (lookup r s.waiting) then s else replied r result.0 (note_start now result.1 s)

  unfoldable pub ends_step : ℕ → Discovery A → ℕ → System A → System A
  ends_step f d created s =
      if among s.running f
      then record s {
        cache = land d created s.cache;
        running = keep_if (λ g. not (g == f)) s.running;
        ended = f ∷ s.ended;
      }
      else s

  unfoldable pub wakes_step : CacheConfig → ℕ → ℕ → System A → System A
  wakes_step cfg r now s = elim (lookup r s.waiting) [
    | none ↦ s
    | some f ↦
        if among s.ended f
        then record s {
          waiting = delete r s.waiting;
          answers = (r, get_again cfg now s.cache) ∷ s.answers;
        }
        else s
  ]

  unfoldable pub step : CacheConfig → Event A → System A → System A
  step cfg (read r discover now) s = read_step cfg r discover now s
  step cfg (ends f d created) s = ends_step f d created s
  step cfg (wakes r now) s = wakes_step cfg r now s
  step cfg (gives_up r) s = record s { waiting = delete r s.waiting }
  step cfg closes s = record s { cache = close s.cache }

  unfoldable pub run : CacheConfig → List (Event A) → System A → System A
  run cfg [] s = s
  run cfg (e ∷ es) s = run cfg es (step cfg e s)
