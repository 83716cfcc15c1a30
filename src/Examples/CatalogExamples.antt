-- ===== src/Examples/CatalogExamples.antt =====
-- Two readers of an empty cache, one of which starts the discovery.
use dax_kiro_proxy.Common.{
  ℕ_eq, Bytes_eq, Bytes, bytes, equal, ◌==◌, ltb, leb, ℕ, ◌≤◌, ◌≡◌, refl, true, false, List, [],
  ◌∷◌, ◌++◌, none, some, length, map, keys, lookup, insert,
}
use dax_kiro_proxy.Catalog.Cache.{
  CacheConfig, Discovery, discovered, new_config, start, may_retry, get_kept, get_missing, get,
}
use dax_kiro_proxy.Catalog.Readers.{
  Event, read, ends, wakes, initial, note_start, replied, read_step, step, run,
}
use dax_kiro_proxy.Catalog.Models.{
  Backend, Catalog, Texts, model_ok, valid_id, display_text, derive_id, normalize, trim_left,
  trim_right, add_models, add_current, name_models, new_with_id, resolve, client_id, backend_of,
}
use dax_kiro_proxy.Catalog.Identifiers.{new_with_id-client_id}
use dax_kiro_proxy.Catalog.Flights.{Spaced}
use dax_kiro_proxy.Catalog.Serving.{told, newest, covered, waiters}
use dax_kiro_proxy.Catalog.Waiting.{run-flights, run-waiting}

abbrev given : CacheConfig
given = record { ttl = 0; retry_interval = 5; refresh_timeout = 0 }

abbrev config : CacheConfig
config = record { ttl = 86400000000000; retry_interval = 5; refresh_timeout = 30000000000 }

configures : new_config given ≡ some config
unfolding new_config
configures = refl

abbrev events : List (Event ℕ)
events = read 1 true 100 ∷ read 2 true 101 ∷ []

one_starts : (run config events (initial none)).starts ≡ 100 ∷ []
unfolding run step read_step get get_kept get_missing may_retry start note_start replied lookup
    insert
one_starts = refl

both_wait : keys (run config events (initial none)).waiting ≡ 1 ∷ 2 ∷ []
unfolding run step read_step get get_kept get_missing may_retry start note_start replied lookup
    insert
both_wait = refl

run-flights_example :
    (length (run config events (initial none)).running ≤ 1)
    × Spaced 5 (run config events (initial none)).starts
run-flights_example = run-flights given config none events configures

abbrev success : Discovery ℕ
success = record { found = some 7; ended = false; encoded = some []; written = true }

run-waiting_example :
    let s = run config events (initial none) in
    let s' = run config (map (λ f. ends f success 102) s.running) s in
    let t = run config (map (λ r. wakes r 103) (keys s'.waiting)) s' in
    let a =
      told config 103 s.cache.closed (newest s.running (discovered success) 102 s.cache.kept) in
    (t.waiting ≡ [])
    × (readers : List ℕ) × (t.answers ≡ map (λ r. (r, a)) readers ++ s'.answers)
    × (covered readers s'.waiting ≡ true)
    × (waiters readers s'.waiting ≡ true)
run-waiting_example = run-waiting given config none events success 102 103 configures

-- The readers of the example are told of the catalog.
tells_seven :
    let s = run config events (initial none) in
    told config 103 s.cache.closed (newest s.running (discovered success) 102 s.cache.kept)
    ≡ some (record { catalog = 7; stale = false })
unfolding run step read_step get get_kept get_missing may_retry start note_start replied lookup
    insert discovered
tells_seven = refl

abbrev texts : Texts
texts = record {
  runes = λ s. some s;
  is_space = λ r. r == 32;
  is_control = λ r. ltb r 32;
  multiplier_ok = λ v. leb v 1000;
  lower = λ s. s;
  sha256 = λ s. s;
  hex = λ s. s;
  encoded = λ ms. length ms;
}

abbrev backend : Bytes → Backend
backend id = record { id = id; name = []; description = []; multiplier = none }

abbrev named : Bytes → Backend
named id = record { id = id; name = id; description = []; multiplier = none }

-- A listed model, and a current one that is not listed.
abbrev catalog : Catalog
catalog = record {
  models = backend (bytes "a.b") ∷ named (bytes "z") ∷ [];
  client_ids = bytes "claude-dax-a-b-a.b" ∷ bytes "claude-dax-z-z" ∷ [];
  reverse = (bytes "claude-dax-a-b-a.b", 0) ∷ (bytes "claude-dax-z-z", 1) ∷ [];
  backend = (bytes "a.b", 0) ∷ (bytes "z", 1) ∷ [];
  current = bytes "z";
}

accepts :
    new_with_id texts (backend (bytes "a.b") ∷ []) (bytes "z") (derive_id texts) ≡ some catalog
unfolding new_with_id add_models add_current name_models model_ok valid_id display_text derive_id
    normalize trim_left trim_right lookup insert equal
accepts = refl

gives_id : client_id catalog (bytes "z") ≡ some (bytes "claude-dax-z-z")
unfolding client_id lookup equal
gives_id = refl

new_with_id-client_id_example :
    (m : Backend) × (resolve catalog (bytes "claude-dax-z-z") ≡ some m)
    × (backend_of catalog (bytes "z") ≡ some m)
    × (m.id ≡ bytes "z")
new_with_id-client_id_example =
    new_with_id-client_id texts (backend (bytes "a.b") ∷ []) (bytes "z") (derive_id texts) catalog
      (bytes "z") (bytes "claude-dax-z-z") accepts gives_id
