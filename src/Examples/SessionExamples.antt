-- ===== src/Examples/SessionExamples.antt =====
-- A prompt that waits for one tool result, and the request that brings it behind the same standing
-- instruction.
use dax_kiro_proxy.Common.{◌↔◌, ◌≡◌, refl, true, false, [], ◌∷◌, ◌++◌, some, bytes, equal}
use dax_kiro_proxy.Anthropic.{Request, user, assistant, system, latest_user_index}
use dax_kiro_proxy.History.{
  Node, Snapshot, Plan, extend, plan, plan_nodes, nodes, nodes_from, message, digest, find_start,
  extend_plan, valid, valid_node, ends_with_assistant, pairs, canonical_blocks,
}
use dax_kiro_proxy.History.Canonical.{canonical_block}
use dax_kiro_proxy.Session.Continuation.{
  ToolResult, continuation_plan, repeated_system, repeats_from,
}
use dax_kiro_proxy.Session.ResultIds.{times, result_ids, same_result_ids-times}
use dax_kiro_proxy.Session.Continuation.{same_result_ids, add_ids, remove_ids}
use dax_kiro_proxy.Common.{lookup, insert, delete, ◌≤◌}
use dax_kiro_proxy.Session.Standing.{Restates, repeated_system-Restates}
use dax_kiro_proxy.Examples.Parameters.{text_json, sum_crypto}
use dax_kiro_proxy.Examples.HistoryExamples.{says, request, hasher, user_a, assistant_b, user_c}

abbrev reminder : Node
reminder = record {
  role = system;
  digest = sum_crypto.hex_encode (
      sum_crypto.hmac_sha256 []
        (bytes "dax-history-v1" ++ 0 ∷ bytes "message" ++ 0 ∷ (system ++ bytes "r")));
}

abbrev pending : Snapshot
pending = record {
  nodes = user_a ∷ reminder ∷ assistant_b ∷ [];
  pairs = record { assistant = []; user = user_a.digest } ∷ [];
}

abbrev continuation : Request
continuation = request (
    says user (bytes "a")
    ∷ says system (bytes "r")
    ∷ says assistant (bytes "b")
    ∷ says user (bytes "c")
    ∷ says system (bytes "r")
    ∷ [])

abbrev result : ToolResult
result = record { id = bytes "t"; content = []; is_error = false }

abbrev other_result : ToolResult
other_result = record { id = bytes "s"; content = []; is_error = false }

abbrev continued : Plan
continued = record {
  mode = extend;
  start = 3;
  nodes = user_a ∷ reminder ∷ assistant_b ∷ user_c ∷ reminder ∷ [];
}

continues :
    continuation_plan text_json sum_crypto hasher pending continuation (result ∷ [])
    ≡ some continued
unfolding continuation_plan repeated_system repeats_from plan plan_nodes nodes nodes_from message
    canonical_blocks canonical_block digest equal latest_user_index valid valid_node
    ends_with_assistant pairs find_start extend_plan
continues = refl

takes_results : same_result_ids (bytes "s" ∷ bytes "t" ∷ []) (result ∷ other_result ∷ []) ≡ true
unfolding same_result_ids add_ids remove_ids equal lookup insert delete
takes_results = refl

refuses_repetition : same_result_ids (bytes "s" ∷ bytes "t" ∷ []) (result ∷ result ∷ []) ≡ false
unfolding same_result_ids add_ids remove_ids equal lookup insert delete
refuses_repetition = refl

same_result_ids-times_example :
    (times (bytes "t") (result_ids (result ∷ other_result ∷ []))
      ≡ times (bytes "t") (bytes "s" ∷ bytes "t" ∷ []))
    × (times (bytes "t") (bytes "s" ∷ bytes "t" ∷ []) ≤ 1)
same_result_ids-times_example =
    same_result_ids-times (bytes "s" ∷ bytes "t" ∷ []) (result ∷ other_result ∷ []) (bytes "t")
      takes_results

repeated_system-Restates_example :
    (repeated_system text_json sum_crypto hasher pending (says system (bytes "r") ∷ []) ≡ true)
    ↔ Restates text_json sum_crypto hasher pending (says system (bytes "r") ∷ [])
repeated_system-Restates_example =
    repeated_system-Restates text_json sum_crypto hasher pending (says system (bytes "r")) []
