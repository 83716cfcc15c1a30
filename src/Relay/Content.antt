-- ===== src/Relay/Content.antt =====
-- internal/relay/broker.go: tool results and their validation (`validateResult`, `prepareResults`).
-- Strict base64 decoding and the length of encoded JSON are parameters. An error is `none`: both
-- functions have only `ErrResults`.
use dax_kiro_proxy.Common.{
  ℕ, ◌+◌, ◌-◌, Bool, true, false, not, ◌&&◌, ◌||◌, List, [], ◌∷◌, Option, none, some, ℕ_eq, Bytes,
  Bytes_eq, bytes, ◌==◌, any, length, is_empty, lookup, insert, ltb, if◌then◌else◌,
}

-- 4 MiB, and the room that a frame keeps for its envelope.
abbrev pub max_frame_bytes : ℕ
max_frame_bytes = 4194304

abbrev pub max_batch_bytes : ℕ
max_batch_bytes = max_frame_bytes - 1024

pub record Content : Type 0 where
  pub type : Bytes
  pub text : Bytes
  pub data_ : Bytes
  pub mime_type : Bytes

pub record ToolResult : Type 0 where
  pub content : List Content
  pub is_error : Bool

pub record Result : Type 0 where
  pub id : Bytes
  pub value : ToolResult

-- What the code takes from encoding/base64 and encoding/json.
pub record Encoding : Type 0 where
  pub base64_ok : Bytes → Bool
  pub encoded_length : ToolResult → ℕ

module _ (encoding : Encoding) where
  -- The `switch` on the type of one content.
  unfoldable pub valid_content : Content → Bool
  valid_content c =
      if c.type == bytes "text"
      then is_empty c.data_ && is_empty c.mime_type
      else if c.type == bytes "image"
      then is_empty c.text
        && not (is_empty c.data_)
        && (c.mime_type == bytes "image/png"
            || c.mime_type == bytes "image/jpeg"
            || c.mime_type == bytes "image/gif"
            || c.mime_type == bytes "image/webp")
        && not (any (λ b. b == 13 || b == 10) c.data_)
        && encoding.base64_ok c.data_
      else false

  -- The loop of `validateResult`, with the bytes so far.
  unfoldable pub valid_contents : ℕ → List Content → Bool
  valid_contents total [] = true
  valid_contents total (c ∷ cs) =
      let total' = total + length c.text + length c.data_ in
      not (ltb max_batch_bytes total') && valid_content c && valid_contents total' cs

  unfoldable pub validate_result : ToolResult → Option ToolResult
  validate_result r =
      if ltb 4096 (length r.content)
      then none
      else if valid_contents 0 r.content
      then some r
      else none

  -- The loop of `prepareResults`, with the bytes and the results so far.
  unfoldable pub prepare_from :
      ℕ → List (Bytes × ToolResult) → List Result → Option (List (Bytes × ToolResult))
  prepare_from total prepared [] = some prepared
  prepare_from total prepared (r ∷ rs) = elim (lookup r.id prepared) [
    | some _ ↦ none
    | none ↦ elim (validate_result r.value) [
      | none ↦ none
      | some value ↦
          let size = encoding.encoded_length value in
          let rest = prepare_from (total + size) (insert r.id value prepared) rs in
          if ltb max_batch_bytes size || ltb 16777216 (total + size) then none else rest
    ]
  ]
