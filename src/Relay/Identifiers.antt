-- ===== src/Relay/Identifiers.antt =====
-- A request identifier is admitted at most once in the life of a broker.
use dax_kiro_proxy.Common.{◌≡◌, true, inl, inr, none, arith, Bytes, Bytes_eq, ◌==◌, ==_refl, any}
use dax_kiro_proxy.Common.{is_some}
use dax_kiro_proxy.Relay.State.{Broker, fail, fail_pending}
use dax_kiro_proxy.Relay.Calls.{begin_turn, end_turn, admit, add_call}
use dax_kiro_proxy.Relay.Batches.{seal, delivered, abandon}
use dax_kiro_proxy.Relay.Answers.{resolve_cases}
use dax_kiro_proxy.Relay.Invariant.{
  Inv, Step, begins, ends, admits, queues, seals, delivers, resolves, abandons, expires, closes,
  wakes, enqueue_cases, Step-Inv, Reach, here, next,
}

abbrev Knows : Bytes → Broker → Type 0
Knows id b = any (λ k. k == id) b.seen ≡ true

Step-Knows : {b c : Broker} (id : Bytes) → Step b c → Inv b → Knows id b → Knows id c
unfolding begin_turn end_turn admit seal delivered abandon fail_pending fail add_call
Step-Knows id (begins b) v k = ground arith
Step-Knows id (ends b) v k = ground arith
Step-Knows id (admits b id') v k = ground arith
Step-Knows id (queues b c some_place fresh) v k = elim (enqueue_cases c b) [
  | inl same ↦ rw same k
  | inr q ↦ rw q.state k
]
Step-Knows id (seals b) v k = ground arith
Step-Knows id (delivers b number) v k = ground arith
Step-Knows id (resolves b encoding owner results) v k =
    elim (resolve_cases encoding owner results b v.ordered v.unique) [
      | inl same ↦ rw same.0 k
      | inr r ↦ rw r.state k
    ]
Step-Knows id (abandons b encoding owner results) v k = ground arith
Step-Knows id (expires b id' handle reason) v k = ground arith
Step-Knows id (closes b) v k = ground arith
Step-Knows id (wakes b) v k = k

Reach-Knows : (id : Bytes) {b c : Broker} → Reach b c → Inv b → Knows id b → (Inv c) × Knows id c
Reach-Knows id here v k = (v, k)
Reach-Knows id (next r s) v k =
    let (v', k') = Reach-Knows id r v k in (Step-Inv s v', Step-Knows id s v' k')

admit-Knows : (id : Bytes) (b : Broker) → (admit id b).1 ≡ none → Knows id (admit id b).0
unfolding admit
admit-Knows id b e = ground (arith, ==_refl id)

admit_known : (id : Bytes) (b : Broker) → Knows id b → is_some (admit id b).1 ≡ true
unfolding admit
admit_known id b k = ground arith

-- Once a request identifier was admitted, it is refused after whatever steps follow.
pub admit_once :
    (id : Bytes) (b c : Broker)
    → Inv b
    → (admit id b).1 ≡ none
    → Reach (admit id b).0 c
    → is_some (admit id c).1 ≡ true
admit_once id b c v e r =
    admit_known id c (Reach-Knows id r (Step-Inv (admits b id) v) (admit-Knows id b e)).1
