-- ===== src/History/Canonical.antt =====
-- internal/history/history.go, `canonicalBlock`: the canonical JSON of a content block. Hints on the
-- block, or on the blocks of a tool result, are dropped, and both spellings of a tool result's
-- content become a list of blocks.
use dax_kiro_proxy.Common.{
  Bool, true, ◌&&◌, List, [], ◌∷◌, Option, none, some, ℕ_eq, Bytes, Bytes_eq, bytes, ◌==◌, lookup,
  insert, delete, if◌then◌else◌,
}
use dax_kiro_proxy.Json.{Json, Fields}
use dax_kiro_proxy.Ndjson.{object, canonical_object}
use dax_kiro_proxy.Anthropic.{Block}

module _ (json : Json) where
  -- The elements of a tool result's content, without their cache hints.
  unfoldable pub canonical_items : List Bytes → Option (List Bytes)
  canonical_items [] = some []
  canonical_items (v ∷ vs) = elim (object json v) [
    | none ↦ none
    | some obj ↦ elim (json.marshal_fields (delete (bytes "cache_control") obj)) [
      | none ↦ none
      | some raw ↦ elim (canonical_items vs) [ none ↦ none | some raws ↦ some (raw ∷ raws) ]
    ]
  ]

  -- The content of a tool result, given the raw field: empty, a text, or a list of blocks.
  unfoldable pub canonical_content : Bytes → Fields → Option Fields
  unfolding canonical_items
  canonical_content [] fields = some (insert (bytes "content") (bytes "[]") fields)
  canonical_content (c ∷ raw) fields =
      if c == b'"'
      then elim (json.unmarshal_string (c ∷ raw)) [
        | none ↦ none
        | some text ↦ set_items (json.marshal_items (json.marshal_text text ∷ []))
      ]
      else if c == b'['
      then elim (json.unmarshal_items (c ∷ raw)) [
        | none ↦ none
        | some values ↦ elim (canonical_items values) [
          | none ↦ none
          | some raws ↦ set_items (json.marshal_items raws)
        ]
      ]
      else some fields
    where
      -- `fields["content"], _ = json.Marshal(…)`: an error leaves nil.
      set_items : Option Bytes → Option Fields
      set_items none = some (insert (bytes "content") [] fields)
      set_items (some encoded) = some (insert (bytes "content") encoded fields)

  -- The fields of a tool result: an explicit error flag, and its content as a list.
  unfoldable pub canonical_result : Fields → Option Fields
  unfolding canonical_content
  canonical_result fields =
      let flagged : Fields = elim (lookup (bytes "is_error") fields) [
        | none ↦ insert (bytes "is_error") (bytes "false") fields
        | some _ ↦ fields
      ] in
      elim (lookup (bytes "content") flagged) [
        | none ↦ canonical_content [] flagged
        | some raw ↦ canonical_content raw flagged
      ]

  -- Whether the raw block is missing or a JSON text.
  plain_raw : Bytes → Bool
  plain_raw [] = true
  plain_raw (c ∷ _) = c == b'"'

  unfoldable pub canonical_block : Block → Option Bytes
  unfolding canonical_result plain_raw
  canonical_block b =
      if b.type == bytes "text" && plain_raw b.raw
      then some (json.marshal_text b.text)
      else elim (object json b.raw) [
        | none ↦ none
        | some fields ↦
            let hintless = delete (bytes "cache_control") fields in
            elim (if b.type == bytes "tool_result"
              then canonical_result hintless
              else some hintless) [
                | none ↦ none
                | some normal ↦ elim (json.marshal_fields normal) [
                  | none ↦ none
                  | some raw ↦ canonical_object json raw
                ]
              ]
      ]
