-- ===== src/Relay/Once.antt =====
-- Every queued call is answered exactly once, or is still suspended: `finished` and the suspended
-- calls together hold each handle given out once.
use dax_kiro_proxy.Common.{
  ℕ, ◌+◌, ◌≤◌, ◌≡◌, refl, ap, false, inl, inr, List, [], ◌∷◌, ◌++◌, Option, none, some, map, arith,
  Bytes, Bytes_eq, lookup, insert-fresh, nat_eq, ltb, if◌then◌else◌, Option-cases,
}
use dax_kiro_proxy.Relay.Content.{ToolResult}
use dax_kiro_proxy.Relay.State.{
  Error, Use, PendingCall, Limits, Broker, failure_result, fail, fail_pending, new_broker,
  capacity_error, call_error, closed_error,
}
use dax_kiro_proxy.Relay.Calls.{begin_turn, end_turn, admit, add_call}
use dax_kiro_proxy.Relay.Batches.{seal, delivered, abandon}
use dax_kiro_proxy.Relay.Answers.{Entries, Answers, resolve_cases}
use dax_kiro_proxy.Relay.Invariant.{
  Inv, Step, begins, ends, admits, queues, seals, delivers, resolves, abandons, expires, closes,
  wakes, Reach, here, next, Reach-Inv, enqueue_cases, given_back,
}

-- How often a handle occurs.
abbrev pub occurs : ℕ → List ℕ → ℕ
occurs h [] = 0
occurs h (x ∷ xs) = (if nat_eq x h then 1 else 0) + occurs h xs

occurs-append : (h : ℕ) (xs ys : List ℕ) → occurs h (xs ++ ys) ≡ occurs h xs + occurs h ys
occurs-append h [] ys = omega arith
occurs-append h (x ∷ xs) ys = omega (arith, occurs-append h xs ys)

abbrev pub suspended : Broker → List ℕ
suspended b = map (λ (e : Bytes × PendingCall). e.1.handle) b.pending

abbrev pub answered : Broker → List ℕ
answered b = map (λ (r : ℕ × ToolResult). r.0) b.finished

-- A handle below the next one is suspended or answered, once in all; no other is either.
abbrev pub Once : Broker → Type 0
Once b =
    (h : ℕ)
    → occurs h (suspended b) + occurs h (answered b) ≡ (if ltb h b.next_handle then 1 else 0)

map-handles :
    (h : ℕ) (m n : Entries)
    → occurs h (map (λ (e : Bytes × PendingCall). e.1.handle) (m ++ n))
      ≡ occurs h (map (λ (e : Bytes × PendingCall). e.1.handle) m)
        + occurs h (map (λ (e : Bytes × PendingCall). e.1.handle) n)
map-handles h [] n = omega arith
map-handles h (e ∷ m) n = omega (arith, map-handles h m n)

map-sent :
    (h : ℕ) (xs ys : List (ℕ × ToolResult))
    → occurs h (map (λ (r : ℕ × ToolResult). r.0) (xs ++ ys))
      ≡ occurs h (map (λ (r : ℕ × ToolResult). r.0) xs)
        + occurs h (map (λ (r : ℕ × ToolResult). r.0) ys)
map-sent h [] ys = omega arith
map-sent h (x ∷ xs) ys = omega (arith, map-sent h xs ys)

-- The answers of given-up calls go to these calls.
failed_handles :
    (h : ℕ) (value : ToolResult) (m : Entries)
    → occurs h (
        map
          (λ (r : ℕ × ToolResult). r.0)
          (map (λ (e : Bytes × PendingCall). (e.1.handle, value)) m))
      ≡ occurs h (map (λ (e : Bytes × PendingCall). e.1.handle) m)
failed_handles h value [] = refl
failed_handles h value (e ∷ m) = omega (arith, failed_handles h value m)

answered_handles :
    (h : ℕ) (values : List (Bytes × ToolResult)) (m : Entries) (sent : List (ℕ × ToolResult))
    → Answers values m sent
    → occurs h (map (λ (r : ℕ × ToolResult). r.0) sent)
      ≡ occurs h (map (λ (e : Bytes × PendingCall). e.1.handle) m)
answered_handles h values [] [] a = refl
answered_handles h values [] (r ∷ rs) a = absurd a
answered_handles h values (e ∷ m) [] a = absurd a
answered_handles h values ((id, p) ∷ m) ((handle, value) ∷ sent) a =
    ground (arith, answered_handles h values m sent)

fail-Once : (reason : Error) (b : Broker) → Once b → Once (fail reason b)
unfolding fail
fail-Once reason b o h = ground (
  arith,
  o h,
  map-sent h b.finished
      (map (λ (e : Bytes × PendingCall). (e.1.handle, failure_result reason)) b.pending),
  failed_handles h (failure_result reason) b.pending,
)

add_call-Once :
    (u : Use) (size : ℕ) (b : Broker)
    → lookup u.id b.pending ≡ none
    → Once b
    → Once (add_call u size b)
unfolding add_call
add_call-Once u size b fresh o h =
    let p : PendingCall = record { tool_use = u; size = size; handle = b.next_handle } in
    rw (insert-fresh u.id p b.pending fresh)
      (ground (arith, o h, map-handles h b.pending ((u.id, p) ∷ [])))

Step-Once : {b c : Broker} → Step b c → Inv b → Once b → Once c
unfolding begin_turn end_turn admit seal delivered abandon fail_pending
Step-Once (begins b) v o h = ground (arith, o h)
Step-Once (ends b) v o h =
    ground (arith, o h, fail-Once call_error (record b { active = false }) o h)
Step-Once (admits b id) v o h = ground (arith, o h, fail-Once capacity_error b o h)
Step-Once (queues b c some_place fresh) v o h = elim (enqueue_cases c b) [
  | inl same ↦ rw same (o h)
  | inr q ↦ rw q.state (
      add_call-Once q.tool_use c.encoded_length (given_back b) (rw q.named (fresh q.random q.drawn))
        o h)
]
Step-Once (seals b) v o h = ground (arith, o h)
Step-Once (delivers b number) v o h = ground (arith, o h)
Step-Once (resolves b encoding owner results) v o h =
    elim (resolve_cases encoding owner results b v.ordered v.unique) [
      | inl same ↦ rw same.0 (o h)
      | inr r ↦ rw r.state (
          omega (
            arith,
            o h,
            ap (λ m. occurs h (map (λ (e : Bytes × PendingCall). e.1.handle) m)) r.cut,
            map-handles h r.front r.back,
            map-sent h b.finished r.sent,
            answered_handles h r.values r.front r.sent r.answers,
          ))
    ]
Step-Once (abandons b encoding owner results) v o h =
    ground (arith, o h, fail-Once closed_error b o h)
Step-Once (expires b id handle reason) v o h = ground (arith, o h, fail-Once reason b o h)
Step-Once (closes b) v o h = fail-Once closed_error b o h
Step-Once (wakes b) v o h = o h

new_broker-Once :
    (limits : Limits) (owner secret : Option Bytes) (b : Broker)
    → new_broker limits owner secret ≡ some b
    → Once b
unfolding new_broker
new_broker-Once limits owner secret b e h = ground arith

Reach-keeps :
    (limits : Limits) (owner secret : Option Bytes) {start b : Broker}
    → new_broker limits owner secret ≡ some start
    → Reach start b
    → Once b
Reach-keeps limits owner secret e here = new_broker-Once limits owner secret _ e
Reach-keeps limits owner secret {start} e (next {b = c} r s) =
    Step-Once s (Reach-Inv limits owner secret start c e r) (Reach-keeps limits owner secret e r)

-- After any sequence of steps from a new broker, each handle that was given to a queued call occurs
-- once in all among the suspended calls and the answers sent, and no other handle occurs there: no
-- call is lost, and none is answered twice.
pub Reach-Once :
    (limits : Limits) (owner secret : Option Bytes) (start b : Broker) (h : ℕ)
    → new_broker limits owner secret ≡ some start
    → Reach start b
    → occurs h (suspended b) + occurs h (answered b) ≡ (if ltb h b.next_handle then 1 else 0)
Reach-Once limits owner secret start b h e r = Reach-keeps limits owner secret e r h

lookup-suspended :
    (id : Bytes) (p : PendingCall) (m : Entries)
    → lookup id m ≡ some p
    → 1 ≤ occurs p.handle (map (λ (e : Bytes × PendingCall). e.1.handle) m)
unfolding lookup
lookup-suspended id p [] e = ground arith
lookup-suspended id p ((j, q) ∷ m) e = ground (arith, lookup-suspended id p m)

-- A deadline or cancellation that comes after its call was answered changes nothing, whatever call
-- has that identifier now.
pub fail_pending_late :
    (limits : Limits) (owner secret : Option Bytes) (start b : Broker) (id : Bytes) (h : ℕ)
    (reason : Error)
    → new_broker limits owner secret ≡ some start
    → Reach start b
    → 1 ≤ occurs h (answered b)
    → fail_pending id h reason b ≡ b
unfolding fail_pending
fail_pending_late limits owner secret start b id h reason e r late =
    elim (Option-cases (lookup id b.pending)) [
      | inl miss ↦ ground arith
      | inr (p, hit) ↦ ground (
        arith,
        lookup-suspended id p b.pending hit,
        Reach-Once limits owner secret start b p.handle e r,
      )
    ]
