-- ===== src/Examples/HistoryExamples.antt =====
-- A conversation of two turns.
use dax_kiro_proxy.Common.{
  ℕ, ◌+◌, ◌≤◌, ◌≡◌, refl, true, false, List, [], ◌∷◌, ◌++◌, some, arith, Bytes, bytes, equal,
}
use dax_kiro_proxy.Anthropic.{Block, Message, Request, user, assistant, latest_user_index}
use dax_kiro_proxy.History.{
  Node, Snapshot, Plan, fresh, extend, duplicate, Hasher, plan, plan_nodes, nodes, nodes_from,
  message, digest, complete, find_start, extend_plan, valid, valid_node, ends_with_assistant, pairs,
  canonical_blocks,
}
use dax_kiro_proxy.History.Canonical.{canonical_block}
use dax_kiro_proxy.History.Extension.{Extends, plan-Extends, plan_longest}
use dax_kiro_proxy.History.Validity.{plan-complete-valid}
use dax_kiro_proxy.History.Replay.{plan-repeated, plan-continued}
use dax_kiro_proxy.Examples.Parameters.{text_json, sum_crypto, sum_crypto-CryptoLaws}

abbrev text_block : Bytes → Block
text_block t = record { type = bytes "text"; text = t; raw = [] }

abbrev pub says : Bytes → Bytes → Message
says role t = record { role = role; content = text_block t ∷ [] }

abbrev pub request : List Message → Request
request ms = record {
  identity = record { session = []; agent = []; parent_agent = [] };
  model = bytes "m";
  max_tokens = 1;
  stream = false;
  system = [];
  messages = ms;
  tools = [];
  effort = [];
  extra = [];
  warnings = [];
}

abbrev pub hasher : Hasher
hasher = record { key = [] }

abbrev answer : List Block
answer = text_block (bytes "b") ∷ []

abbrev first_request : Request
first_request = request (says user (bytes "a") ∷ [])

abbrev second_request : Request
second_request =
    request (says user (bytes "a") ∷ says assistant (bytes "b") ∷ says user (bytes "c") ∷ [])

abbrev empty : Snapshot
empty = record { nodes = []; pairs = [] }

abbrev node : Bytes → Bytes → Node
node role sum = record { role = role; digest = sum }

abbrev pub user_a : Node
user_a = record {
  role = user;
  digest = sum_crypto.hex_encode (
      sum_crypto.hmac_sha256 []
        (bytes "dax-history-v1" ++ 0 ∷ bytes "message" ++ 0 ∷ (user ++ bytes "a")));
}

abbrev pub assistant_b : Node
assistant_b = record {
  role = assistant;
  digest = sum_crypto.hex_encode (
      sum_crypto.hmac_sha256 []
        (bytes "dax-history-v1" ++ 0 ∷ bytes "message" ++ 0 ∷ (assistant ++ bytes "b")));
}

abbrev pub user_c : Node
user_c = record {
  role = user;
  digest = sum_crypto.hex_encode (
      sum_crypto.hmac_sha256 []
        (bytes "dax-history-v1" ++ 0 ∷ bytes "message" ++ 0 ∷ (user ++ bytes "c")));
}

abbrev first_plan : Plan
first_plan = record { mode = fresh; start = 0; nodes = user_a ∷ [] }

abbrev first_snapshot : Snapshot
first_snapshot = record {
  nodes = user_a ∷ assistant_b ∷ [];
  pairs = record { assistant = []; user = user_a.digest } ∷ [];
}

abbrev second_plan : Plan
second_plan = record { mode = extend; start = 2; nodes = user_a ∷ assistant_b ∷ user_c ∷ [] }

first_planned : plan text_json sum_crypto hasher empty first_request ≡ some first_plan
unfolding plan plan_nodes nodes nodes_from message canonical_blocks canonical_block digest equal
    latest_user_index
first_planned = refl

first_completed : complete text_json sum_crypto hasher first_plan answer ≡ some first_snapshot
unfolding complete message canonical_blocks canonical_block digest equal pairs
first_completed = refl

second_nodes : nodes text_json sum_crypto hasher second_request.messages ≡ some second_plan.nodes
unfolding nodes nodes_from message canonical_blocks canonical_block digest equal
second_nodes = refl

second_planned : plan text_json sum_crypto hasher first_snapshot second_request ≡ some second_plan
unfolding plan plan_nodes nodes nodes_from message canonical_blocks canonical_block digest equal
    latest_user_index valid valid_node ends_with_assistant pairs find_start extend_plan
second_planned = refl

plan-Extends_example :
    (ns : List Node) × (latest : ℕ) × (nodes text_json sum_crypto hasher second_request.messages
      ≡ some ns)
    × (latest_user_index second_request ≡ some latest)
    × Extends first_snapshot.nodes ns latest second_plan
plan-Extends_example =
    plan-Extends text_json sum_crypto hasher first_snapshot second_request second_plan
      second_planned refl

plan_longest_example : 2 ≤ second_plan.start
unfolding equal
plan_longest_example =
    plan_longest text_json sum_crypto hasher first_snapshot second_request second_plan []
      second_plan.nodes 2 second_planned refl second_nodes (omega arith) (omega arith) refl refl
      refl

plan-complete-valid_example : valid sum_crypto first_snapshot ≡ true
plan-complete-valid_example =
    plan-complete-valid text_json sum_crypto sum_crypto-CryptoLaws hasher empty first_snapshot
      first_request first_plan answer first_planned first_completed

plan-repeated_example :
    plan text_json sum_crypto hasher first_snapshot first_request
    ≡ some (record { mode = duplicate; start = 0; nodes = first_plan.nodes })
plan-repeated_example =
    plan-repeated text_json sum_crypto sum_crypto-CryptoLaws hasher empty first_snapshot
      first_request first_plan answer first_planned refl first_completed

latest_two : latest_user_index second_request ≡ some 2
unfolding latest_user_index equal
latest_two = refl

plan-continued_example :
    plan text_json sum_crypto hasher first_snapshot second_request
    ≡ some (record { mode = extend; start = 1 + 1; nodes = second_plan.nodes })
plan-continued_example =
    plan-continued text_json sum_crypto sum_crypto-CryptoLaws hasher empty first_snapshot
      first_request second_request first_plan answer (says user (bytes "c") ∷ []) second_plan.nodes
      2 first_planned refl first_completed refl second_nodes latest_two (omega arith) (omega arith)
