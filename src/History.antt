-- ===== src/History.antt =====
-- internal/history/history.go: conversations as keyed digests, and the plan by which a request
-- extends, repeats or leaves the stored conversation. An error is `none`; the code has only
-- `anthropic.ErrRequest` here. JSON, HMAC-SHA-256 and hexadecimal text are parameters.
pub mod Canonical
pub mod Extension
pub mod Validity
pub mod Replay
use Canonical.{canonical_block}
use dax_kiro_proxy.Common.{
  ◌≡◌, ◌↔◌, ℕ, zero, suc, ◌+◌, ◌-◌, min, Bool, true, false, not, ◌&&◌, ◌||◌, List, [], ◌∷◌, ◌++◌,
  Option, none, some, Comparable, Bytes, Bytes_eq, ℕ_eq, bytes, ◌==◌, ==_iff, equal, any, all,
  length, take, drop, last?, lookup, insert, delete, ltb, leb, if◌then◌else◌, arith,
}
use dax_kiro_proxy.Json.{Json}
use dax_kiro_proxy.Anthropic.{
  Block, Message, Request, max_body_bytes, user, assistant, system, latest_user_index,
}

abbrev pub max_nodes : ℕ
max_nodes = 8192

pub data Mode : Type 0 where
  fresh extend duplicate diverged : Mode

pub record Node : Type 0 where
  pub role : Bytes
  pub digest : Bytes

pub record Pair : Type 0 where
  pub assistant : Bytes
  pub user : Bytes

pub record Snapshot : Type 0 where
  pub nodes : List Node
  pub pairs : List Pair

pub record Plan : Type 0 where
  pub mode : Mode
  pub start : ℕ
  pub nodes : List Node

pub record Hasher : Type 0 where
  pub key : Bytes

-- What the code takes from crypto/hmac, crypto/sha256 and encoding/hex.
pub record Crypto : Type 0 where
  pub hmac_sha256 : Bytes → Bytes → Bytes
  pub hex_encode : Bytes → Bytes
  pub hex_decode : Bytes → Option Bytes

abbrev pub node_eq : Node → Node → Bool
node_eq a b = a.role == b.role && a.digest == b.digest

pub node_eq_iff : (a b : Node) → (node_eq a b ≡ true) ↔ (a ≡ b)
node_eq_iff a b = ground (arith, ==_iff a.role b.role, ==_iff a.digest b.digest)

instance abbrev pub Node_eq : Comparable Node
Node_eq = record { same_as = node_eq; same_iff = node_eq_iff }

abbrev pub pair_eq : Pair → Pair → Bool
pair_eq a b = a.assistant == b.assistant && a.user == b.user

pub pair_eq_iff : (a b : Pair) → (pair_eq a b ≡ true) ↔ (a ≡ b)
pair_eq_iff a b = ground (arith, ==_iff a.assistant b.assistant, ==_iff a.user b.user)

instance abbrev pub Pair_eq : Comparable Pair
Pair_eq = record { same_as = pair_eq; same_iff = pair_eq_iff }

-- `pairs`: each user message with the assistant message before it, if any; `previous` is the
-- digest that waits for the next user message.
unfoldable pub pairs_from : Bytes → List Node → List Pair
pairs_from previous [] = []
pairs_from previous (n ∷ ns) =
    let previous' : Bytes = if n.role == assistant then n.digest else previous in
    let closed = record { assistant = previous'; user = n.digest } ∷ pairs_from [] ns in
    let rest = pairs_from previous' ns in if n.role == user then closed else rest

unfoldable pub pairs : List Node → List Pair
unfolding pairs_from
pairs ns = pairs_from [] ns

-- The search for the longest overlap: from `count` down to 2, a suffix of the stored nodes that
-- is a prefix of the request's nodes and holds both a user and an assistant message.
abbrev is_role : Bytes → Node → Bool
is_role role n = n.role == role

unfoldable pub overlaps : List Node → List Node → ℕ → Bool
overlaps stored nodes count =
    equal (drop (length stored - count) stored) (take count nodes)
    && (any (is_role user) (take count nodes) && any (is_role assistant) (take count nodes))

unfoldable pub longest_overlap : List Node → List Node → ℕ → Option ℕ
longest_overlap stored nodes zero = none
longest_overlap stored nodes (suc zero) = none
longest_overlap stored nodes (suc (suc k)) =
    let rest = longest_overlap stored nodes (suc k) in
    if overlaps stored nodes (suc (suc k)) then some (suc (suc k)) else rest

-- The index behind the stored conversation: all of it, or the longest overlap.
unfoldable pub find_start : List Node → List Node → Option ℕ
find_start stored nodes =
    if ltb (length stored) (length nodes) && equal (take (length stored) nodes) stored
    then some (length stored)
    else longest_overlap stored nodes (min (length stored) (length nodes - 1))

-- The last part of `Plan`: a start is used if the latest user message is not before it and the
-- result is not too long.
unfoldable pub extend_plan : List Node → List Node → ℕ → Option ℕ → Plan
extend_plan stored nodes latest none = record { mode = diverged; start = 0; nodes = nodes }
extend_plan stored nodes latest (some start) =
    if ltb latest start || leb max_nodes (length stored + length nodes - start)
    then record { mode = diverged; start = 0; nodes = nodes }
    else record { mode = extend; start = start; nodes = stored ++ drop start nodes }

module _ (crypto : Crypto) where
  -- `Snapshot.Valid`.
  unfoldable pub valid_node : Node → Bool
  valid_node n =
      (n.role == user || n.role == assistant || n.role == system)
      && (length n.digest == 64)
      && elim (crypto.hex_decode n.digest) [
        | none ↦ false
        | some b ↦ (length b == 32) && (crypto.hex_encode b == n.digest)
      ]

  unfoldable pub ends_with_assistant : List Node → Bool
  ends_with_assistant ns = elim (last? ns) [ none ↦ false | some n ↦ n.role == assistant ]

  unfoldable pub valid : Snapshot → Bool
  valid s =
      leb 2 (length s.nodes)
      && leb (length s.nodes) max_nodes
      && leb 1 (length s.pairs)
      && ends_with_assistant s.nodes
      && all valid_node s.nodes
      && equal s.pairs (pairs s.nodes)

module _ (json : Json) (crypto : Crypto) where
  -- `Digest`; the second argument is the result of `json.Marshal` on the value.
  unfoldable pub digest : Hasher → Bytes → Option Bytes → Option Bytes
  digest h domain none = none
  digest h domain (some b) =
      if ltb max_body_bytes (length b)
      then none
      else some (
          crypto.hex_encode
            (crypto.hmac_sha256 h.key (bytes "dax-history-v1" ++ 0 ∷ domain ++ 0 ∷ b)))

  unfoldable pub canonical_blocks : List Block → Option (List Bytes)
  canonical_blocks [] = some []
  canonical_blocks (b ∷ bs) = elim (canonical_block json b) [
    | none ↦ none
    | some raw ↦ elim (canonical_blocks bs) [ none ↦ none | some raws ↦ some (raw ∷ raws) ]
  ]

  -- `Hasher.Message`.
  unfoldable pub message : Hasher → Message → Option Node
  message h m =
      if m.role == user || m.role == assistant || m.role == system
      then elim (canonical_blocks m.content) [
        | none ↦ none
        | some raws ↦ elim (digest h (bytes "message") (json.marshal_message m.role raws)) [
          | none ↦ none
          | some d ↦ some (record { role = m.role; digest = d })
        ]
      ]
      else none

  -- The loop of `Hasher.Nodes`, and the method with its test.
  unfoldable pub nodes_from : Hasher → List Message → Option (List Node)
  nodes_from h [] = some []
  nodes_from h (m ∷ ms) = elim (message h m) [
    | none ↦ none
    | some n ↦ elim (nodes_from h ms) [ none ↦ none | some ns ↦ some (n ∷ ns) ]
  ]

  unfoldable pub nodes : Hasher → List Message → Option (List Node)
  nodes h ms = if length ms == 0 || ltb max_nodes (length ms) then none else nodes_from h ms

  -- `Plan` behind its first error check: the latest user message and the request's nodes.
  unfoldable pub plan_nodes : Snapshot → ℕ → List Node → Option Plan
  plan_nodes s latest ns =
      if length s.nodes == 0
      then some (record { mode = fresh; start = 0; nodes = ns })
      else if not (valid crypto s)
      then none
      else if (length ns == length s.nodes - 1) && equal ns (take (length s.nodes - 1) s.nodes)
      then some (record { mode = duplicate; start = 0; nodes = ns })
      else some (extend_plan s.nodes ns latest (find_start s.nodes ns))

  -- `Hasher.Plan`.
  unfoldable pub plan : Hasher → Snapshot → Request → Option Plan
  plan h s r = elim (nodes h r.messages) [
    | none ↦ none
    | some ns ↦ elim (latest_user_index r) [ none ↦ none | some latest ↦ plan_nodes s latest ns ]
  ]

  -- `Hasher.Complete`.
  unfoldable pub complete : Hasher → Plan → List Block → Option Snapshot
  complete h p content =
      if length p.nodes == 0 || leb max_nodes (length p.nodes)
      then none
      else elim (message h (record { role = assistant; content = content })) [
        | none ↦ none
        | some n ↦ let ns = p.nodes ++ n ∷ [] in some (record { nodes = ns; pairs = pairs ns })
      ]

  -- `Hasher.Pending`; `complete` reads neither the mode nor the start of its plan.
  unfoldable pub pending : Hasher → List Message → List Block → Option Snapshot
  pending h ms content = elim (nodes h ms) [
    | none ↦ none
    | some ns ↦ complete h (record { mode = fresh; start = 0; nodes = ns }) content
  ]
