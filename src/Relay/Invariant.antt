-- ===== src/Relay/Invariant.antt =====
-- The invariant of the broker, and that every step keeps it.
use dax_kiro_proxy.Common.{
  ℕ, ◌+◌, ◌-◌, ◌≤◌, ◌<◌, ◌≡◌, refl, ap, ◌∙◌, true, false, not, ◌&&◌, ◌⊎◌, inl, inr, List, [], ◌∷◌,
  ◌++◌, Option, none, some, arith, Bytes, Bytes_eq, bytes, ltb, length, lookup, keys, UniqueKeys,
  insert-fresh, append_assoc, Option-cases, Bool-cases, length-append, drop, keys-append,
  UniqueKeys-append_one, UniqueKeys-drop,
}
use dax_kiro_proxy.Relay.Content.{Result, Encoding}
use dax_kiro_proxy.Common.{is_some}
use dax_kiro_proxy.Relay.State.{
  Error, closed_error, capacity_error, Use, PendingCall, Limits, Broker, fail, fail_pending, busy,
  new_broker,
}
use dax_kiro_proxy.Relay.Calls.{begin_turn, end_turn, admit, Checked, add_call, enqueue}
use dax_kiro_proxy.Relay.Batches.{take_batch, seal, delivered, resolve, abandon}
use dax_kiro_proxy.Relay.Answers.{Entries, sizes, sizes-append, resolve_cases}

pub record Inv (b : Broker) : Type 0 where
  -- the suspended calls are the sealed ones, then the queued ones, in the order in which they came
  pub ordered : keys b.pending ≡ b.sealed ++ b.queued
  pub unique : UniqueKeys b.pending
  pub counted : b.total ≡ sizes b.pending
  pub capacity : length b.pending + b.reserved ≤ b.limits.pending
  pub memory : b.total ≤ b.limits.pending_bytes
  pub history : length b.seen ≤ b.limits.call_history
  -- until a failure, no call is suspended or validated outside a turn
  pub idle : b.err ≡ none → b.active ≡ false → length b.pending + b.reserved ≡ 0
  pub offered : b.delivered ≡ true → 1 ≤ length b.sealed
  -- a failed broker suspends no call
  pub stopped : is_some b.err ≡ true → b.pending ≡ []

-- The steps of a broker: a method under the lock, or the reader of `wake`. A call is queued only
-- after a place was reserved for it, and its random identifier is that of no suspended call.
pub data Step : Broker → Broker → Type 0 where
  begins : (b : Broker) → Step b (begin_turn b).0
  ends : (b : Broker) → Step b (end_turn b).0
  admits : (b : Broker) (id : Bytes) → Step b (admit id b).0
  queues :
      (b : Broker) (c : Checked)
      → 1 ≤ b.reserved
      → ((random : Bytes)
          → c.random ≡ some random
          → lookup (bytes "toolu_" ++ random) b.pending ≡ none)
      → Step b (enqueue c b).0
  seals : (b : Broker) → Step b (seal b).0
  delivers : (b : Broker) (number : ℕ) → Step b (delivered number b).0
  resolves :
      (b : Broker) (encoding : Encoding) (owner : Bytes) (results : List Result)
      → Step b (resolve encoding owner results b).0
  abandons :
      (b : Broker) (encoding : Encoding) (owner : Bytes) (results : List Result)
      → Step b (abandon encoding owner results b).0
  expires :
      (b : Broker) (id : Bytes) (handle : ℕ) (reason : Error)
      → Step b (fail_pending id handle reason b)
  closes : (b : Broker) → Step b (fail closed_error b)
  wakes : (b : Broker) → Step b (record b { wake = false })

pub fail-Inv : (reason : Error) (b : Broker) → Inv b → Inv (fail reason b)
unfolding fail
fail-Inv reason b v = ground arith

fail_pending-Inv :
    (id : Bytes) (handle : ℕ) (reason : Error) (b : Broker)
    → Inv b
    → Inv (fail_pending id handle reason b)
unfolding fail_pending
fail_pending-Inv id handle reason b v = ground (arith, fail-Inv reason b v)

begin_turn-Inv : (b : Broker) → Inv b → Inv (begin_turn b).0
unfolding begin_turn busy
begin_turn-Inv b v = ground arith

end_turn-Inv : (b : Broker) → Inv b → Inv (end_turn b).0
unfolding end_turn busy fail
end_turn-Inv b v = ground arith

admit-Inv : (id : Bytes) (b : Broker) → Inv b → Inv (admit id b).0
unfolding admit busy
admit-Inv id b v = ground (arith, fail-Inv capacity_error b v)

-- A new call comes behind the others.
record Room (b : Broker) (id : Bytes) (size : ℕ) : Type 0 where
  running : b.err ≡ none
  turn : b.active ≡ true
  place : length b.pending + b.reserved < b.limits.pending
  memory : b.total + size ≤ b.limits.pending_bytes
  fresh : lookup id b.pending ≡ none

add_call-Inv :
    (use_ : Use) (size : ℕ) (b : Broker) → Inv b → Room b use_.id size → Inv (add_call use_ size b)
unfolding add_call
add_call-Inv u size b v room =
    let p : PendingCall = record { tool_use = u; size = size; handle = b.next_handle } in
    let made = insert-fresh u.id p b.pending room.fresh in
    record {
      ordered =
          ap keys made
          ∙ keys-append b.pending ((u.id, p) ∷ [])
          ∙ ap (λ ks. ks ++ u.id ∷ []) v.ordered
          ∙ append_assoc b.sealed b.queued (u.id ∷ []);
      unique = rw made (UniqueKeys-append_one u.id p b.pending room.fresh v.unique);
      counted = rw made (omega (arith, sizes-append b.pending ((u.id, p) ∷ []), v.counted));
      capacity = rw made (omega (arith, length-append b.pending ((u.id, p) ∷ []), room.place));
      memory = room.memory;
      history = v.history;
      idle = λ e f. ground (arith, room.turn);
      offered = v.offered;
      stopped = ground (arith, room.running);
    }

-- Giving the reserved place back keeps the invariant.
unreserve-Inv : (b : Broker) → Inv b → Inv (record b { reserved = b.reserved - 1 })
unreserve-Inv b v = ground arith

abbrev pub given_back : Broker → Broker
given_back b = record b { reserved = b.reserved - 1 }

-- `enqueue` gives the place back, and may add the call.
pub record Queued (c : Checked) (b : Broker) : Type 0 where
  pub random : Bytes
  pub tool_use : Use
  pub drawn : c.random ≡ some random
  pub named : tool_use.id ≡ bytes "toolu_" ++ random
  pub running : b.err ≡ none
  pub fits : b.total + c.encoded_length ≤ b.limits.pending_bytes
  pub state : (enqueue c b).0 ≡ add_call tool_use c.encoded_length (given_back b)

pub enqueue_cases : (c : Checked) (b : Broker) → ((enqueue c b).0 ≡ given_back b) ⊎ Queued c b
unfolding enqueue
enqueue_cases c b = elim (Option-cases c.tool) [
  | inl miss ↦ inl (ground arith)
  | inr ((name, input), tool) ↦ elim (Option-cases c.random) [
    | inl miss ↦ inl (ground arith)
    | inr (random, drawn) ↦
        elim (Bool-cases (ltb b.limits.pending_bytes (b.total + c.encoded_length))) [
          | inl full ↦ inl (ground arith)
          | inr fits ↦ elim (Bool-cases (c.live && not (ltb 1048576 (length input)))) [
            | inr stop ↦ inl (ground arith)
            | inl go ↦ elim (Option-cases b.err) [
              | inr (reason, failed) ↦ inl (ground arith)
              | inl running ↦ inr (record {
                random = random;
                tool_use = record { id = bytes "toolu_" ++ random; name = name; input = input };
                drawn = drawn;
                named = refl;
                running = running;
                fits = ground arith;
                state = ground arith;
              })
            ]
          ]
        ]
  ]
]

enqueue-Inv :
    (c : Checked) (b : Broker)
    → 1 ≤ b.reserved
    → ((random : Bytes)
        → c.random ≡ some random
        → lookup (bytes "toolu_" ++ random) b.pending ≡ none)
    → Inv b
    → Inv (enqueue c b).0
enqueue-Inv c b some_place fresh v = elim (enqueue_cases c b) [
  | inl same ↦ rw same (unreserve-Inv b v)
  | inr q ↦ rw q.state (
      add_call-Inv q.tool_use c.encoded_length (given_back b) (unreserve-Inv b v) (record {
        running = q.running;
        turn = ground (arith, v.idle q.running);
        place = omega (arith, v.capacity);
        memory = q.fits;
        fresh = rw q.named (fresh q.random q.drawn);
      }))
]

take_batch-split :
    (pending : Entries) (total : ℕ) (ids : List Bytes)
    → let taken = (take_batch pending total ids).0 in taken ++ drop (length taken) ids ≡ ids
unfolding take_batch
take_batch-split pending total [] = refl
take_batch-split pending total (id ∷ ids) = elim (Option-cases (lookup id pending)) [
  | inl miss ↦ ground arith
  | inr (p, hit) ↦ ground (arith, take_batch-split pending (total + p.size) ids)
]

length-zero : {A : Type 0} (xs : List A) → length xs ≡ 0 → xs ≡ []
length-zero [] e = refl
length-zero (x ∷ xs) e = absurd (omega arith)

seal-Inv : (b : Broker) → Inv b → Inv (seal b).0
unfolding seal
seal-Inv b v = ground (arith, take_batch-split b.pending 0 b.queued, length-zero b.sealed)

delivered-Inv : (number : ℕ) (b : Broker) → Inv b → Inv (delivered number b).0
unfolding delivered
delivered-Inv number b v = ground arith

abandon-Inv :
    (encoding : Encoding) (owner : Bytes) (results : List Result) (b : Broker)
    → Inv b
    → Inv (abandon encoding owner results b).0
unfolding abandon
abandon-Inv encoding owner results b v = ground (arith, fail-Inv closed_error b v)

-- The state after the answers to a delivered batch.
resolve-Inv :
    (encoding : Encoding) (owner : Bytes) (results : List Result) (b : Broker)
    → Inv b
    → Inv (resolve encoding owner results b).0
resolve-Inv encoding owner results b v =
    elim (resolve_cases encoding owner results b v.ordered v.unique) [
      | inl same ↦ rw same.0 v
      | inr r ↦
          let entries = ap length r.cut ∙ length-append r.front r.back in
          let total = ap sizes r.cut ∙ sizes-append r.front r.back in
          rw r.state (record {
            ordered = r.back_keys;
            unique = UniqueKeys-drop r.front r.back (rw r.cut at v.unique);
            counted = omega (arith, total, v.counted);
            capacity = omega (arith, entries, v.capacity);
            memory = omega (arith, v.memory);
            history = v.history;
            idle = λ e f. omega (arith, entries, v.idle e f);
            offered = λ e. ground arith;
            stopped = λ e. ground (arith, r.running);
          })
    ]

-- Every step keeps the invariant.
pub Step-Inv : {b c : Broker} → Step b c → Inv b → Inv c
Step-Inv (begins b) v = begin_turn-Inv b v
Step-Inv (ends b) v = end_turn-Inv b v
Step-Inv (admits b id) v = admit-Inv id b v
Step-Inv (queues b c h fresh) v = enqueue-Inv c b h fresh v
Step-Inv (seals b) v = seal-Inv b v
Step-Inv (delivers b number) v = delivered-Inv number b v
Step-Inv (resolves b encoding owner results) v = resolve-Inv encoding owner results b v
Step-Inv (abandons b encoding owner results) v = abandon-Inv encoding owner results b v
Step-Inv (expires b id handle reason) v = fail_pending-Inv id handle reason b v
Step-Inv (closes b) v = fail-Inv closed_error b v
Step-Inv (wakes b) v = ground arith

new_broker-Inv :
    (limits : Limits) (owner secret : Option Bytes) (b : Broker)
    → new_broker limits owner secret ≡ some b
    → Inv b
unfolding new_broker
new_broker-Inv limits owner secret b e = ground arith

-- The brokers that a run can reach from a new one.
pub data Reach (start : Broker) : Broker → Type 0 where
  here : Reach start start
  next : {b c : Broker} → Reach start b → Step b c → Reach start c

Reach-keeps : {start b : Broker} → Reach start b → Inv start → Inv b
Reach-keeps here v = v
Reach-keeps (next r s) v = Step-Inv s (Reach-keeps r v)

-- Every broker that any sequence of steps reaches from a new one satisfies the invariant: its
-- suspended calls are the sealed and then the queued ones, under distinct identifiers, their bytes are
-- counted exactly and stay within the limit, suspended and reserved calls together stay within the
-- limit, as does the history of request identifiers; a batch that is delivered has a call; as long as
-- the broker has not failed, nothing is suspended or reserved outside a turn, and once it has failed
-- nothing is suspended.
pub Reach-Inv :
    (limits : Limits) (owner secret : Option Bytes) (start b : Broker)
    → new_broker limits owner secret ≡ some start
    → Reach start b
    → Inv b
Reach-Inv limits owner secret start b e r =
    Reach-keeps r (new_broker-Inv limits owner secret start e)
