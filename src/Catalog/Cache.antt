-- ===== src/Catalog/Cache.antt =====
-- internal/catalog/cache.go: the cache, one function for each section under its lock. A time is a number
-- of nanoseconds, and the clock may go back; a channel is the number of its discovery. What a discovery
-- finds, the directory and the encoding are arguments.
use dax_kiro_proxy.Common.{
  ℕ, suc, ◌+◌, ◌-◌, ◌*◌, Bool, true, false, not, ◌&&◌, ◌||◌, Option, none, some, ℕ_eq, Bytes_eq,
  Bytes, bytes, ◌==◌, length, lookup, ltb, leb, if◌then◌else◌, is_some, ◌>>=◌, ◌>>◌, check,
}
use dax_kiro_proxy.Json.{Json}
use dax_kiro_proxy.Ndjson.{object}

abbrev pub max_bytes : ℕ
max_bytes = 1048576

abbrev pub second : ℕ
second = 1000000000

pub record CacheConfig : Type 0 where
  pub ttl : ℕ
  pub retry_interval : ℕ
  pub refresh_timeout : ℕ

abbrev or_default : ℕ → ℕ → ℕ
or_default n other = if n == 0 then other else n

abbrev pub with_defaults : CacheConfig → CacheConfig
with_defaults cfg = record {
  ttl = or_default cfg.ttl (86400 * second);
  retry_interval = or_default cfg.retry_interval (60 * second);
  refresh_timeout = or_default cfg.refresh_timeout (30 * second);
}

abbrev pub config_ok : CacheConfig → Bool
config_ok cfg =
    leb cfg.ttl (604800 * second)
    && leb cfg.retry_interval (3600 * second)
    && leb cfg.refresh_timeout (60 * second)

-- The limits of `NewCache`, for durations that are not below zero.
unfoldable pub new_config : CacheConfig → Option CacheConfig
new_config cfg = let full = with_defaults cfg in if config_ok full then some full else none

-- A catalog, and when it was found.
pub record Kept (A : Type 0) : Type 0 where
  pub catalog : A
  pub created : ℕ

-- `flight` is the channel of the discovery that runs, `next` the number of the next one.
pub record Cache (A : Type 0) : Type 0 where
  pub kept : Option (Kept A)
  pub last_attempt : Option ℕ
  pub flight : Option ℕ
  pub next : ℕ
  pub closed : Bool

pub record Snapshot (A : Type 0) : Type 0 where
  pub catalog : A
  pub stale : Bool

-- What a reader gets: an answer, or a channel to wait for.
pub data Reply (A : Type 0) : Type 0 where
  answer : Option (Snapshot A) → Reply A
  wait : ℕ → Reply A

-- What a discovery ends with: its catalog, whether its context ended, the encoded record and the write.
pub record Discovery (A : Type 0) : Type 0 where
  pub found : Option A
  pub ended : Bool
  pub encoded : Option Bytes
  pub written : Bool

module _ {A : Type 0} where
  abbrev pub new_cache : Option (Kept A) → Cache A
  new_cache loaded = record {
    kept = loaded;
    last_attempt = none;
    flight = none;
    next = 0;
    closed = false;
  }

  -- `start`, up to the goroutine.
  unfoldable pub start : ℕ → Cache A → Cache A
  start now c = record c { flight = some c.next; last_attempt = some now; next = suc c.next }

  -- Whether the last attempt is long enough ago.
  unfoldable pub may_retry : CacheConfig → ℕ → Cache A → Bool
  may_retry cfg now c = elim c.last_attempt [
    | none ↦ true
    | some last ↦ leb cfg.retry_interval (now - last)
  ]

  abbrev pub is_stale : CacheConfig → ℕ → Kept A → Bool
  is_stale cfg now k = leb cfg.ttl (now - k.created) || ltb now k.created

  -- `Get` with a catalog at hand.
  unfoldable pub get_kept : CacheConfig → Bool → ℕ → Kept A → Cache A → Reply A × Cache A
  get_kept cfg discover now k c =
      let stale = is_stale cfg now k in
      (
        answer (some (record { catalog = k.catalog; stale = stale })),
        if stale && not (is_some c.flight) && may_retry cfg now c && discover
            then start now c
            else c,
      )

  -- `Get` without one.
  unfoldable pub get_missing : CacheConfig → Bool → ℕ → Cache A → Reply A × Cache A
  get_missing cfg discover now c = elim c.flight [
    | some f ↦ (wait f, c)
    | none ↦
        if not discover || not (may_retry cfg now c)
        then (answer none, c)
        else (wait c.next, start now c)
  ]

  -- The first section of `Get`.
  unfoldable pub get : CacheConfig → Bool → ℕ → Cache A → Reply A × Cache A
  get cfg discover now c = if c.closed then (answer none, c) else elim c.kept [
    | some k ↦ get_kept cfg discover now k c
    | none ↦ get_missing cfg discover now c
  ]

  -- The second section of `Get`, after the channel was closed.
  unfoldable pub get_again : CacheConfig → ℕ → Cache A → Option (Snapshot A)
  get_again cfg now c = elim c.kept [
    | none ↦ none
    | some k ↦
        if c.closed
        then none
        else some (record { catalog = k.catalog; stale = leb cfg.ttl (now - k.created) })
  ]

  -- The catalog that a discovery brings.
  unfoldable pub discovered : Discovery A → Option A
  discovered d = do
    found ← d.found
    check (not d.ended)
    raw ← d.encoded
    check (leb (length raw) max_bytes && d.written)
    some found

  -- The last section of `start`.
  unfoldable pub land : Discovery A → ℕ → Cache A → Cache A
  land d created c = elim (discovered d) [
    | none ↦ record c { flight = none }
    | some found ↦
        if c.closed
        then record c { flight = none }
        else record c { flight = none; kept = some (record { catalog = found; created = created }) }
  ]

  -- The section of `Close`.
  abbrev pub close : Cache A → Cache A
  close c = record c { closed = true }

-- `cacheRecord`.
pub record CacheRecord : Type 0 where
  pub identity : Bytes
  pub created : ℕ
  pub current : Bytes
  pub models : Bytes

-- `decodeRecord`: `unmarshal` is that of a `cacheRecord`, `new` that of the catalog.
unfoldable pub decode_record :
    {A : Type 0}
    → Json
    → (Bytes → Option CacheRecord)
    → (Bytes → Bytes → Option A)
    → Bytes
    → Bytes
    → ℕ
    → Option (Kept A)
decode_record json unmarshal new raw identity now = do
  fields ← object json raw
  version ← lookup (bytes "version") fields
  check (version == bytes "1")
  r ← unmarshal raw
  check (r.identity == identity && ltb 0 r.created && leb r.created (now + 60 * second))
  found ← new r.models r.current
  some (record { catalog = found; created = r.created })
