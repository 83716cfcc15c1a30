-- ===== src/Relay/Batches.antt =====
-- internal/relay/broker.go: batches of calls, their delivery, and the results that answer them.
use dax_kiro_proxy.Common.{
  ℕ, ◌+◌, ◌-◌, ◌%◌, ◌^◌, Bool, true, false, not, ◌&&◌, ◌||◌, List, [], ◌∷◌, ◌++◌, Option, none,
  some, ℕ_eq, Bytes, Bytes_eq, ◌==◌, all, length, drop, lookup, delete, ltb, if◌then◌else◌,
}
use dax_kiro_proxy.Relay.Content.{ToolResult, Result, Encoding, prepare_from, max_batch_bytes}
use dax_kiro_proxy.Common.{is_some}
use dax_kiro_proxy.Relay.State.{
  Error, results_error, capacity_error, closed_error, batch_error, Use, Batch, PendingCall, Broker,
  fail,
}

-- The loop of `Seal`: the longest prefix of the queue that fits into one frame, with its calls.
unfoldable pub take_batch : List (Bytes × PendingCall) → ℕ → List Bytes → List Bytes × List Use
take_batch pending total [] = ([], [])
take_batch pending total (id ∷ ids) = elim (lookup id pending) [
  -- every queued call is pending, so this case does not arise
  | none ↦ ([], [])
  | some p ↦
      let (more, uses) = take_batch pending (total + p.size) ids in
      if ltb max_batch_bytes (total + p.size) then ([], []) else (id ∷ more, p.tool_use ∷ uses)
]

unfoldable pub seal : Broker → Broker × (Option Batch × Option Error)
unfolding take_batch
seal b = elim b.err [
  | some _ ↦ (b, (none, some closed_error))
  | none ↦
      if not (length b.sealed == 0) || length b.queued == 0
      then (b, (none, some batch_error))
      else let number = (b.number + 1) % 2 ^ 64 in
        let (ids, uses) = take_batch b.pending 0 b.queued in
        if length ids == 0 then (record b { number = number }, (none, some capacity_error)) else (
          record b {
            number = number;
            sealed = ids;
            queued = drop (length ids) b.queued;
            delivered = false;
          },
          (some (record { number = number; calls = uses }), none),
        )
]

unfoldable pub delivered : ℕ → Broker → Broker × Option Error
delivered number b =
    if is_some b.err || not (number == b.number) || length b.sealed == 0 || b.delivered
    then (b, some batch_error)
    else (record b { delivered = true }, none)

unfoldable pub matches_delivered : List (Bytes × ToolResult) → Broker → Bool
matches_delivered prepared b =
    not (is_some b.err)
    && b.delivered
    && (length b.sealed == length prepared)
    && all (λ id. is_some (lookup id prepared)) b.sealed

-- The loop of `Resolve` over the sealed calls.
unfoldable pub answer : List (Bytes × ToolResult) → List Bytes → Broker → Broker
answer prepared [] b = b
answer prepared (id ∷ ids) b = elim (lookup id b.pending) [
  -- every sealed call is pending, and has a result
  | none ↦ answer prepared ids b
  | some p ↦ elim (lookup id prepared) [
    | none ↦ answer prepared ids b
    | some value ↦ answer prepared ids (record b {
      finished = b.finished ++ (p.handle, value) ∷ [];
      total = b.total - p.size;
      pending = delete id b.pending;
    })
  ]
]

module _ (encoding : Encoding) where
  unfoldable pub prepare_results : Bytes → List Result → Broker → Option (List (Bytes × ToolResult))
  prepare_results owner results b =
      if not (owner == b.credentials.owner)
        || length results == 0
        || ltb b.limits.pending (length results)
      then none
      else prepare_from encoding 0 [] results

  unfoldable pub resolve : Bytes → List Result → Broker → Broker × Option Error
  resolve owner results b = elim (prepare_results owner results b) [
    | none ↦ (b, some results_error)
    | some prepared ↦
        if not (matches_delivered prepared b)
        then (b, some results_error)
        else let answered = answer prepared b.sealed b in
          (
            record answered {
              sealed = [];
              delivered = false;
              wake = b.wake || not (length b.queued == 0);
            },
            none,
          )
  ]

  unfoldable pub abandon : Bytes → List Result → Broker → Broker × Option Error
  abandon owner results b = elim (prepare_results owner results b) [
    | none ↦ (b, some results_error)
    | some prepared ↦
        if not (matches_delivered prepared b)
        then (b, some results_error)
        else (fail closed_error b, none)
  ]
