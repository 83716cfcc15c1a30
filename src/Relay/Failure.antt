-- ===== src/Relay/Failure.antt =====
-- The failure of a broker is final, and answers every suspended call.
use dax_kiro_proxy.Common.{◌≡◌, refl, true, inl, inr, [], arith}
use dax_kiro_proxy.Common.{is_some}
use dax_kiro_proxy.Relay.State.{Broker, fail, fail_pending}
use dax_kiro_proxy.Relay.Calls.{begin_turn, end_turn, admit}
use dax_kiro_proxy.Relay.Batches.{seal, delivered, abandon}
use dax_kiro_proxy.Relay.Answers.{resolve_cases}
use dax_kiro_proxy.Relay.Invariant.{
  Inv, Step, begins, ends, admits, queues, seals, delivers, resolves, abandons, expires, closes,
  wakes, enqueue_cases, Step-Inv, Reach, here, next,
}

-- What a failed broker keeps.
pub record Final (b c : Broker) : Type 0 where
  pub same_error : c.err ≡ b.err
  pub no_answer : c.finished ≡ b.finished
  pub no_call : c.pending ≡ []

Step-Final : {b c : Broker} → Step b c → Inv b → is_some b.err ≡ true → Final b c
unfolding begin_turn end_turn admit seal delivered abandon fail_pending fail
Step-Final (begins b) v f = ground arith
Step-Final (ends b) v f = ground arith
Step-Final (admits b id) v f = ground arith
Step-Final (queues b c some_place fresh) v f = elim (enqueue_cases c b) [
  | inl same ↦ rw same (ground arith)
  | inr q ↦ ground (arith, q.running)
]
Step-Final (seals b) v f = ground arith
Step-Final (delivers b number) v f = ground arith
Step-Final (resolves b encoding owner results) v f =
    elim (resolve_cases encoding owner results b v.ordered v.unique) [
      | inl same ↦ rw same.0 (ground arith)
      | inr r ↦ ground (arith, r.running)
    ]
Step-Final (abandons b encoding owner results) v f = ground arith
Step-Final (expires b id handle reason) v f = ground arith
Step-Final (closes b) v f = ground arith
Step-Final (wakes b) v f = ground arith

-- Whatever steps follow a failure, the error stays, no further answer is sent and no call is suspended.
pub Reach-Final : {b c : Broker} → Reach b c → Inv b → is_some b.err ≡ true → Inv c × Final b c
Reach-Final here v f = (v, record { same_error = refl; no_answer = refl; no_call = v.stopped f })
Reach-Final (next {b = c} {c = d} r s) v f =
    let (vc, fc) = Reach-Final r v f in
    let fd = Step-Final s vc (ground (arith, fc.same_error)) in
    (Step-Inv s vc, ground (arith, fc, fd))
