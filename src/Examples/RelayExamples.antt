-- ===== src/Examples/RelayExamples.antt =====
-- A broker with two calls, the first of them delivered and answered.
use dax_kiro_proxy.Common.{
  ◌+◌, ◌≡◌, refl, subst, true, false, ◌⊎◌, List, [], ◌∷◌, ◌++◌, none, some, arith, Bytes, Bytes_eq,
  bytes, equal, lookup, insert, delete,
}
use dax_kiro_proxy.Relay.Content.{ToolResult, Result, validate_result, valid_contents, prepare_from}
use dax_kiro_proxy.Common.{is_some}
use dax_kiro_proxy.Relay.State.{
  Batch, Limits, Broker, new_broker, timeout_error, fail_pending, closed_error, fail,
}
use dax_kiro_proxy.Relay.Calls.{begin_turn, admit, Checked, add_call, enqueue}
use dax_kiro_proxy.Relay.Batches.{
  seal, delivered, resolve, prepare_results, matches_delivered, answer,
}
use dax_kiro_proxy.Relay.Invariant.{
  Inv, begins, admits, queues, seals, delivers, resolves, closes, Reach, here, next, Reach-Inv,
}
use dax_kiro_proxy.Relay.Once.{Reach-Once, fail_pending_late, occurs, suspended, answered}
use dax_kiro_proxy.Relay.Resolution.{IsResolution, resolve_atomic}
use dax_kiro_proxy.Relay.Failure.{Final, Reach-Final}
use dax_kiro_proxy.Relay.Sealing.{Seals, seal-Seals}
use dax_kiro_proxy.Relay.Identifiers.{admit_once}
use dax_kiro_proxy.Examples.Parameters.{lax_encoding}

abbrev zero_limits : Limits
zero_limits = record { pending = 0; pending_bytes = 0; call_history = 0; tool_timeout = 0 }

abbrev owner : Bytes
owner = bytes "o"

abbrev started : Broker
started = record {
  credentials = record { owner = owner; secret = bytes "s" };
  limits = record {
    pending = 64;
    pending_bytes = 16777216;
    call_history = 4096;
    tool_timeout = 300000;
  };
  pending = [];
  seen = [];
  queued = [];
  sealed = [];
  reserved = 0;
  total = 0;
  number = 0;
  delivered = false;
  active = false;
  wake = false;
  err = none;
  next_handle = 0;
  finished = [];
}

start_ok : new_broker zero_limits (some owner) (some (bytes "s")) ≡ some started
unfolding new_broker
start_ok = refl

abbrev checked : Bytes → Checked
checked random = record {
  tool = some (bytes "read", bytes "{}");
  live = true;
  random = some random;
  encoded_length = 40;
}

abbrev call_one : Bytes
call_one = bytes "toolu_" ++ bytes "x"

-- A turn is open, and one call is admitted, queued, sealed and delivered.
abbrev turning : Broker
turning = record started { active = true }

abbrev admitted : Broker
admitted = record turning { seen = bytes "c1" ∷ []; reserved = 1 }

abbrev waiting : Broker
waiting = record admitted {
  pending =
      (
        call_one,
        record {
          tool_use = record { id = call_one; name = bytes "read"; input = bytes "{}" };
          size = 40;
          handle = 0;
        },
      )
      ∷ [];
  reserved = 0;
  queued = call_one ∷ [];
  total = 40;
  wake = true;
  next_handle = 1;
}

abbrev sealed_one : Broker
sealed_one = record waiting { number = 1; queued = []; sealed = call_one ∷ [] }

abbrev offered : Broker
offered = record sealed_one { delivered = true }

abbrev ok_result : ToolResult
ok_result = record { content = []; is_error = false }

abbrev results : List Result
results = record { id = call_one; value = ok_result } ∷ []

abbrev resolved : Broker
resolved = record offered {
  pending = [];
  total = 0;
  finished = (0, ok_result) ∷ [];
  sealed = [];
  delivered = false;
}

turn_begun : (begin_turn started).0 ≡ turning
unfolding begin_turn
turn_begun = refl

call_admitted : (admit (bytes "c1") turning).0 ≡ admitted
unfolding admit
call_admitted = refl

call_queued : (enqueue (checked (bytes "x")) admitted).0 ≡ waiting
unfolding enqueue add_call insert equal
call_queued = refl

batch_sealed : (seal waiting).0 ≡ sealed_one
unfolding seal lookup equal
batch_sealed = refl

batch_delivered : (delivered 1 sealed_one).0 ≡ offered
unfolding delivered
batch_delivered = refl

batch_resolved : (resolve lax_encoding owner results offered).0 ≡ resolved
unfolding resolve prepare_results prepare_from validate_result valid_contents matches_delivered
    answer lookup insert delete equal
batch_resolved = refl

fresh_random :
    (random : Bytes)
    → (checked (bytes "x")).random ≡ some random
    → lookup (bytes "toolu_" ++ random) admitted.pending ≡ none
unfolding lookup
fresh_random random e = refl

-- The steps from the new broker to the delivered batch, and to its answer.
to_waiting : Reach started waiting
to_waiting = subst (Reach started) call_queued (
    next
      (subst (Reach started) call_admitted (
        next (subst (Reach started) turn_begun (next here (begins started)))
          (admits turning (bytes "c1"))))
      (queues admitted (checked (bytes "x")) (omega arith) fresh_random))

to_offered : Reach started offered
to_offered = subst (Reach started) batch_delivered (
    next (subst (Reach started) batch_sealed (next to_waiting (seals waiting)))
      (delivers sealed_one 1))

to_resolved : Reach started resolved
to_resolved =
    subst (Reach started) batch_resolved
      (next to_offered (resolves offered lax_encoding owner results))

waiting-Inv : Inv waiting
waiting-Inv =
    Reach-Inv zero_limits (some owner) (some (bytes "s")) started waiting start_ok to_waiting

offered-Inv : Inv offered
offered-Inv =
    Reach-Inv zero_limits (some owner) (some (bytes "s")) started offered start_ok to_offered

Reach-Inv_example : Inv resolved
Reach-Inv_example =
    Reach-Inv zero_limits (some owner) (some (bytes "s")) started resolved start_ok to_resolved

Reach-Once_example : occurs 0 (suspended resolved) + occurs 0 (answered resolved) ≡ 1
Reach-Once_example =
    Reach-Once zero_limits (some owner) (some (bytes "s")) started resolved 0 start_ok to_resolved

fail_pending_late_example : fail_pending call_one 0 timeout_error resolved ≡ resolved
fail_pending_late_example =
    fail_pending_late zero_limits (some owner) (some (bytes "s")) started resolved call_one 0
      timeout_error start_ok to_resolved (omega arith)

resolve_atomic_example :
    (((resolve lax_encoding owner results offered).0 ≡ offered)
      × (is_some (resolve lax_encoding owner results offered).1 ≡ true))
    ⊎ (((resolve lax_encoding owner results offered).1 ≡ none)
        × IsResolution results offered (resolve lax_encoding owner results offered).0)
resolve_atomic_example = resolve_atomic lax_encoding owner results offered offered-Inv

abbrev sealed_batch : Batch
sealed_batch = record {
  number = 1;
  calls = record { id = call_one; name = bytes "read"; input = bytes "{}" } ∷ [];
}

seal-Seals_example : Seals waiting (seal waiting).0 sealed_batch
unfolding seal lookup equal
seal-Seals_example = seal-Seals waiting sealed_batch waiting-Inv refl

abbrev failed : Broker
failed = fail closed_error offered

failed-Inv : Inv failed
failed-Inv =
    Reach-Inv zero_limits (some owner) (some (bytes "s")) started failed start_ok
      (next to_offered (closes offered))

Reach-Final_example : Inv (seal failed).0 × Final failed (seal failed).0
unfolding fail
Reach-Final_example =
    Reach-Final {b = failed} {c = (seal failed).0} (next here (seals failed)) failed-Inv refl

admit_once_example : is_some (admit (bytes "c1") admitted).1 ≡ true
unfolding admit
admit_once_example =
    admit_once (bytes "c1") turning admitted
      (Reach-Inv zero_limits (some owner) (some (bytes "s")) started turning start_ok
        (subst (Reach started) turn_begun (next here (begins started))))
      refl here
