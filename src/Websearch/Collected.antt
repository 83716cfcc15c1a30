-- ===== src/Websearch/Collected.antt =====
-- internal/websearch/collector.go: what a search session keeps over all its notifications.
use dax_kiro_proxy.Common.{
  ℕ, suc, ◌+◌, ◌≤◌, ◌≡◌, refl, subst, ◌∙◌, true, List, [], ◌∷◌, Option, some, arith, ℕ_eq, Bytes_eq,
  Bytes, length, lookup, keys, UniqueKeys, length-keys, ap, ◌>>=◌, Post, bind-Post, skip-Post,
  Post-mono, if-Post,
}
use dax_kiro_proxy.Json.{Json}
use dax_kiro_proxy.Websearch.SearchCalls.{SearchCall, Decoders, is_final}
use dax_kiro_proxy.Websearch.Collector.{
  Notification, Collector, owner_of, observe_fields, counted, over_limits, observe, new_collector,
}
use dax_kiro_proxy.Ndjson.{object}
use dax_kiro_proxy.Websearch.Settling.{Settled}
use dax_kiro_proxy.Websearch.Collecting.{InStep, observe_fields-Post}

-- What an observed notification leaves.
record Observed (n : Notification) (a b : Collector) : Type 0 where
  events : suc a.events ≤ 4096
  total : a.total + length n.params ≤ 4194304
  in_step : InStep (counted n a) b

observe-Post :
    (json : Json) (d : Decoders) (n : Notification) (a : Collector)
    → Post (Observed n a) (observe json d n a)
unfolding observe
observe-Post json d n a =
    if-Post (Observed n a) (over_limits n (counted n a)) _ _ (λ e. tt)
      (λ e. skip-Post (Observed n a) (object json n.params) _ (λ fields.
        skip-Post (Observed n a) (owner_of json d fields (counted n a)) _ (λ owner.
          Post-mono (InStep (counted n a)) (Observed n a)
            (observe_fields json d n.method owner fields (counted n a))
            (observe_fields-Post json d n.method owner fields (counted n a))
            (λ b h. record { events = ground arith; total = ground arith; in_step = h }))))

-- Once a call of the session is completed or failed, no notification that `observe` accepts changes
-- its status, its identifier, its output, its native results, or the query, if it has one.
pub observe-Settled :
    (json : Json) (d : Decoders) (n : Notification) (a b : Collector) (id : Bytes)
    (call : SearchCall)
    → observe json d n a ≡ some b
    → lookup id a.calls ≡ some call
    → is_final call.status ≡ true
    → (call' : SearchCall) × (lookup id b.calls ≡ some call') × Settled call call'
observe-Settled json d n a b id call e =
    (subst (Post (Observed n a)) e (observe-Post json d n a)).in_step.kept id call

-- A session: its notifications, one after the other, until one is refused.
unfoldable pub observe_all : Json → Decoders → List Notification → Collector → Option Collector
observe_all json d [] c = some c
observe_all json d (n ∷ ns) c = observe json d n c >>= observe_all json d ns

abbrev pub Bounded : ℕ → Collector → Type 0
Bounded limit c =
    (c.limit ≡ limit)
    × (length c.calls ≤ limit)
    × (c.order ≡ keys c.calls)
    × UniqueKeys c.calls
    × (length c.text ≤ 1048576)
    × (c.events ≤ 4096)
    × (c.total ≤ 4194304)

Observed-Bounded :
    (limit : ℕ) (n : Notification) (a b : Collector)
    → Observed n a b
    → Bounded limit a
    → Bounded limit b
Observed-Bounded limit n a b o (e, calls, order, unique, text, events, total) = (
  o.in_step.limit ∙ e,
  omega (arith, o.in_step.calls (omega (arith, e, calls)), o.in_step.limit, e),
  o.in_step.order order,
  o.in_step.unique unique,
  o.in_step.text text,
  omega (arith, o.in_step.events, o.events),
  omega (arith, o.in_step.total, o.total),
)

observe_all-Post :
    (json : Json) (d : Decoders) (limit : ℕ) (ns : List Notification) (a : Collector)
    → Bounded limit a
    → Post (Bounded limit) (observe_all json d ns a)
unfolding observe_all
observe_all-Post json d limit [] a h = h
observe_all-Post json d limit (n ∷ ns) a h =
    bind-Post (Observed n a) (Bounded limit) (observe json d n a) _ (observe-Post json d n a)
      (λ b o. observe_all-Post json d limit ns b (Observed-Bounded limit n a b o h))

-- However many notifications a session accepts, its collector stays within its limits: it has at most
-- `limit` calls, under distinct identifiers, its order lists exactly these identifiers, each once and in
-- the order in which the calls are held, and the text, the events and the bytes stay within
-- 1 MiB, 4096 and 4 MiB.
pub observe_all-Bounded :
    (json : Json) (d : Decoders) (session : Bytes) (limit : ℕ) (ns : List Notification)
    (c : Collector)
    → observe_all json d ns (new_collector session limit) ≡ some c
    → (length c.calls ≤ limit)
      × (c.order ≡ keys c.calls)
      × UniqueKeys c.calls
      × (length c.order ≡ length c.calls)
      × (length c.text ≤ 1048576)
      × (c.events ≤ 4096)
      × (c.total ≤ 4194304)
observe_all-Bounded json d session limit ns c e =
    let start = new_collector session limit in
    let initial : Bounded limit start =
      (refl, omega arith, refl, tt, omega arith, omega arith, omega arith) in
    let (kept, calls, order, unique, text, events, total) =
      subst (Post (Bounded limit)) e (observe_all-Post json d limit ns start initial) in
    (calls, order, unique, ap length order ∙ length-keys c.calls, text, events, total)
