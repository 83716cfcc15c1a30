-- ===== src/Session/Continuation.antt =====
-- internal/session/continuation.go: which requests continue a suspended prompt, and whether the results
-- are those of the delivered calls. An error is `none`: the code has only `inference.ErrRequest`.
use dax_kiro_proxy.Common.{
  ℕ, ◌+◌, ◌-◌, Bool, true, false, not, ◌&&◌, ◌||◌, List, [], ◌∷◌, Option, none, some, ℕ_eq, Bytes,
  Bytes_eq, bytes, ◌==◌, all, length, drop, get_elem?, lookup, insert, delete, ltb, leb,
  if◌then◌else◌,
}
use dax_kiro_proxy.Json.{Json}
use dax_kiro_proxy.Anthropic.{Block, Message, Request, system, latest_user_index}
use dax_kiro_proxy.History.{Node_eq, Snapshot, Plan, extend, Hasher, Crypto, message, plan}

-- `anthropic.ToolResult`.
pub record ToolResult : Type 0 where
  pub id : Bytes
  pub content : List Block
  pub is_error : Bool

abbrev pub is_text : Block → Bool
is_text b = b.type == bytes "text"

-- A system message of texts only.
abbrev pub is_instruction : Message → Bool
is_instruction m = m.role == system && all is_text m.content

-- Whether the node at an index is there and is a system message.
abbrev pub system_at : Snapshot → ℕ → Bool
system_at s i = elim (get_elem? s.nodes i) [ none ↦ false | some n ↦ n.role == system ]

-- `rotatedStanding`.
unfoldable pub rotated_standing : Snapshot → List Message → Bool
rotated_standing s [] = false
rotated_standing s (m ∷ []) =
    let n = length s.nodes in
    m.role == system
    && not (length m.content == 0)
    && leb 2 n
    && system_at s (n - 2)
    && not (leb 3 n && system_at s (n - 3))
    && all is_text m.content
rotated_standing s (m ∷ m' ∷ ms) = false

module _ (json : Json) (crypto : Crypto) (hasher : Hasher) where
  -- The loop of `repeatedSystem`, from the node at `i`.
  unfoldable pub repeats_from : Snapshot → ℕ → List Message → Bool
  repeats_from s i [] = true
  repeats_from s i (m ∷ ms) =
      is_instruction m
      && elim (message json crypto hasher m) [
        | none ↦ false
        | some n ↦ elim (get_elem? s.nodes i) [ none ↦ false | some n' ↦ n == n' ]
      ]
      && repeats_from s (i + 1) ms

  -- `repeatedSystem`; a start below 0 is refused.
  unfoldable pub repeated_system : Snapshot → List Message → Bool
  repeated_system s suffix =
      let start = length s.nodes - 1 - length suffix in
      if length suffix == 0
      then true
      else if ltb (length s.nodes) (1 + length suffix)
      then false
      else if ltb 0 start && system_at s (start - 1)
      then false
      else repeats_from s start suffix

  abbrev extends_at : Plan → Option ℕ → Bool
  extends_at p none = false
  extends_at p (some latest) = elim p.mode [ extend ↦ p.start == latest | _ ↦ false ]

  abbrev pub content_count : Option Message → ℕ
  content_count none = 0
  content_count (some m) = length m.content

  -- `continuationPlan`.
  unfoldable pub continuation_plan : Snapshot → Request → List ToolResult → Option Plan
  continuation_plan pending r results = elim (plan json crypto hasher pending r) [
    | none ↦ none
    | some p ↦
        let suffix = drop (p.start + 1) r.messages in
        if not (extends_at p (latest_user_index r))
          || not (content_count (get_elem? r.messages p.start) == length results)
        then none
        else if not (repeated_system pending suffix) && not (rotated_standing pending suffix)
        then none
        else some p
  ]

-- `sameResultIDs`: the set of the expected identifiers, emptied by the results.
unfoldable pub add_ids : List Bytes → List (Bytes × Bool) → List (Bytes × Bool)
add_ids [] set = set
add_ids (id ∷ ids) set = add_ids ids (insert id true set)

unfoldable pub remove_ids : List ToolResult → List (Bytes × Bool) → Bool
remove_ids [] set = length set == 0
remove_ids (r ∷ rs) set = elim (lookup r.id set) [
  | none ↦ false
  | some false ↦ false
  | some true ↦ remove_ids rs (delete r.id set)
]

unfoldable pub same_result_ids : List Bytes → List ToolResult → Bool
same_result_ids ids results =
    if length ids == 0 || not (length ids == length results)
    then false
    else remove_ids results (add_ids ids [])
