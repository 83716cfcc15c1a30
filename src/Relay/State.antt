-- ===== src/Relay/State.antt =====
-- internal/relay/broker.go: the state of the broker, its start and its failure. The `done` channel of
-- a call is the list `finished`, of the calls' handles and results in the order sent; a handle stands
-- for the pointer to a `pendingCall`, and counts the calls. `wake` is the channel of capacity one.
-- Random identifiers are arguments.
use dax_kiro_proxy.Common.{
  ℕ, ◌+◌, Bool, true, false, not, ◌&&◌, List, [], ◌∷◌, ◌++◌, Option, none, some, map, ℕ_eq, Bytes,
  Bytes_eq, bytes, ◌==◌, length, lookup, leb, if◌then◌else◌,
}
use dax_kiro_proxy.Relay.Content.{ToolResult}

pub data Error : Type 0 where
  auth_error call_error results_error capacity_error timeout_error closed_error batch_error : Error
  -- `context.Canceled`
  canceled_error : Error

pub record Credentials : Type 0 where
  pub owner : Bytes
  pub secret : Bytes

pub record Call : Type 0 where
  pub version : ℕ
  pub owner : Bytes
  pub secret : Bytes
  pub id : Bytes
  pub alias : Bytes
  pub arguments : Bytes

pub record Use : Type 0 where
  pub id : Bytes
  pub name : Bytes
  pub input : Bytes

pub record Batch : Type 0 where
  pub number : ℕ
  pub calls : List Use

pub record Limits : Type 0 where
  pub pending : ℕ
  pub pending_bytes : ℕ
  pub call_history : ℕ
  pub tool_timeout : ℕ

pub record PendingCall : Type 0 where
  pub tool_use : Use
  pub size : ℕ
  pub handle : ℕ

pub record Broker : Type 0 where
  pub credentials : Credentials
  pub limits : Limits
  pub pending : List (Bytes × PendingCall)
  pub seen : List Bytes
  pub queued : List Bytes
  pub sealed : List Bytes
  pub reserved : ℕ
  pub total : ℕ  -- `bytes`
  pub number : ℕ  -- uint64
  pub delivered : Bool
  pub active : Bool
  pub wake : Bool
  pub err : Option Error
  pub next_handle : ℕ
  pub finished : List (ℕ × ToolResult)

-- Zero fields take their defaults; the timeout is in milliseconds.
or_default : ℕ → ℕ → ℕ
or_default n default = if n == 0 then default else n

unfoldable pub with_defaults : Limits → Limits
unfolding or_default
with_defaults l = record {
  pending = or_default l.pending 64;
  pending_bytes = or_default l.pending_bytes 16777216;
  call_history = or_default l.call_history 4096;
  tool_timeout = or_default l.tool_timeout 300000;
}

unfoldable pub limits_ok : Limits → Bool
limits_ok l =
    leb 1 l.pending
    && leb l.pending 64
    && leb 1048576 l.pending_bytes
    && leb l.pending_bytes 33554432
    && leb 1 l.call_history
    && leb l.call_history 65536
    && leb 1 l.tool_timeout
    && leb l.tool_timeout 3600000

-- `NewBroker` of a registry that is there; the identifiers are those of `randomID`.
unfoldable pub new_broker : Limits → Option Bytes → Option Bytes → Option Broker
unfolding with_defaults limits_ok
new_broker limits owner secret =
    let l = with_defaults limits in
    if not (limits_ok l) then none else elim owner [
      | none ↦ none
      | some o ↦ elim secret [
        | none ↦ none
        | some s ↦ some (record {
          credentials = record { owner = o; secret = s };
          limits = l;
          pending = [];
          seen = [];
          queued = [];
          sealed = [];
          reserved = 0;
          total = 0;
          number = 0;
          delivered = false;
          active = false;
          wake = false;
          err = none;
          next_handle = 0;
          finished = [];
        })
      ]
    ]

-- The answer to a call that is given up.
abbrev failure_text : Error → Bytes
failure_text timeout_error = bytes "Client tool result timed out"
failure_text _ = bytes "Client tool request cancelled"

unfoldable pub failure_result : Error → ToolResult
failure_result reason = record {
  content =
      record { type = bytes "text"; text = failure_text reason; data_ = []; mime_type = [] } ∷ [];
  is_error = true;
}

-- `failLocked`. The order in which the map is walked shows nowhere: each call has its own channel.
unfoldable pub fail : Error → Broker → Broker
fail reason b = elim b.err [
  | some _ ↦ b
  | none ↦ record b {
    err = some reason;
    finished =
        b.finished
        ++ map (λ (e : Bytes × PendingCall). (e.1.handle, failure_result reason)) b.pending;
    pending = [];
    queued = [];
    sealed = [];
    total = 0;
    delivered = false;
    wake = true;
  }
]

-- `failPending`, which a deadline (`expire`) or a cancelled caller runs.
unfoldable pub fail_pending : Bytes → ℕ → Error → Broker → Broker
fail_pending id handle reason b = elim (lookup id b.pending) [
  | none ↦ b
  | some p ↦ if p.handle == handle then fail reason b else b
]

unfoldable pub busy : Broker → ℕ
busy b = length b.pending + b.reserved
