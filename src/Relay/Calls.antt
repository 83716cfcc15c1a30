-- ===== src/Relay/Calls.antt =====
-- internal/relay/broker.go: turns, and the admission of a call. A method that takes the lock is one
-- function from the state to the new state and its error, if any; `Call` is cut where it gives the
-- lock away: `check_call`, `admit`, the validation of the arguments, `enqueue`, and the wait, which
-- ends by an answer or by `fail_pending`. The outcome of what runs without the lock is an argument.
-- `admit` and the failure of a broker whose history is full are one step here; the code gives the lock
-- away and takes it again between the two.
use dax_kiro_proxy.Common.{
  ℕ, suc, ◌+◌, ◌-◌, Bool, true, false, not, ◌&&◌, ◌||◌, [], ◌∷◌, ◌++◌, Option, none, some, ℕ_eq,
  Bytes, Bytes_eq, bytes, ◌==◌, any, all, length, insert, ltb, leb, if◌then◌else◌,
}
use dax_kiro_proxy.Relay.State.{
  Error, auth_error, call_error, capacity_error, closed_error, canceled_error, Call, Use, Broker,
  fail, busy,
}

unfoldable pub begin_turn : Broker → Broker × Option Error
unfolding busy
begin_turn b = elim b.err [
  | some _ ↦ (b, some closed_error)
  | none ↦
      if b.active || not (busy b == 0)
      then (b, some call_error)
      else (record b { active = true }, none)
]

unfoldable pub end_turn : Broker → Broker × Option Error
unfolding busy
end_turn b = elim b.err [
  | some _ ↦ (b, some closed_error)
  | none ↦
      if not b.active
      then (b, some call_error)
      else let b' = record b { active = false } in
        if not (busy b == 0) then (fail call_error b', some call_error) else (b', none)
]

-- The characters of an identifier, and `validCallID`.
abbrev id_byte : ℕ → Bool
id_byte c =
    (leb b'a' c && leb c b'z')
    || (leb b'A' c && leb c b'Z')
    || (leb b'0' c && leb c b'9')
    || c == b'_'
    || c == b'-'

unfoldable pub valid_call_id : Bytes → Bool
valid_call_id id = leb 1 (length id) && leb (length id) 96 && all id_byte id

-- The checks of `Call` before the lock. `known` tells whether the registry has the alias,
-- `well_formed` whether `schemawire.Arguments` takes the arguments, `live` whether the context lives.
unfoldable pub check_call : (Bytes → Bool) → (Bytes → Bool) → Bool → Broker → Call → Option Error
unfolding valid_call_id
check_call known well_formed live b c =
    if not (c.owner == b.credentials.owner) || not (c.secret == b.credentials.secret)
    then some auth_error
    else if not (c.version == 1) || not (valid_call_id c.id)
    then some call_error
    else if not (known c.alias)
    then some call_error
    else if not (well_formed c.arguments)
    then some call_error
    else if not live
    then some canceled_error
    else none

-- `Call` under its first lock: the request is recorded and a place reserved.
unfoldable pub admit : Bytes → Broker → Broker × Option Error
unfolding busy
admit id b = elim b.err [
  | some _ ↦ (b, some closed_error)
  | none ↦
      if not b.active
      then (b, some call_error)
      else if leb b.limits.pending (busy b)
      then (b, some capacity_error)
      else if any (λ k. k == id) b.seen
      then (b, some call_error)
      else if leb b.limits.call_history (length b.seen)
      then (fail capacity_error b, some capacity_error)
      else (record b { seen = id ∷ b.seen; reserved = b.reserved + 1 }, none)
]

-- What `Call` found without the lock: the tool's name and the canonical input, or an error, and
-- whether the context lives; the random identifier; the length of the encoded use.
pub record Checked : Type 0 where
  pub tool : Option (Bytes × Bytes)
  pub live : Bool
  pub random : Option Bytes
  pub encoded_length : ℕ

unfoldable pub add_call : Use → ℕ → Broker → Broker
add_call use_ size b = record b {
  pending =
      insert use_.id (record { tool_use = use_; size = size; handle = b.next_handle }) b.pending;
  queued = b.queued ++ use_.id ∷ [];
  total = b.total + size;
  wake = true;
  next_handle = suc b.next_handle;
}

-- `Call` under its second lock: the reserved place is given back, and the call is queued.
unfoldable pub enqueue : Checked → Broker → Broker × Option Error
enqueue checked b₀ =
    let b = record b₀ { reserved = b₀.reserved - 1 } in
    elim b.err [
      | some _ ↦ (b, some closed_error)
      | none ↦ elim checked.tool [
        | none ↦ (b, some call_error)
        | some (name, input) ↦
            if ltb 1048576 (length input)
            then (b, some call_error)
            else if not checked.live
            then (b, some canceled_error)
            else elim checked.random [
              | none ↦ (b, some call_error)
              | some random ↦
                  if ltb b.limits.pending_bytes (b.total + checked.encoded_length)
                  then (b, some capacity_error)
                  else (
                    add_call (record { id = bytes "toolu_" ++ random; name = name; input = input })
                        checked.encoded_length b,
                    none,
                  )
            ]
      ]
    ]
