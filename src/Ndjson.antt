-- ===== src/Ndjson.antt =====
-- internal/ndjson/frame.go (`Object` and `members`) and internal/jsoncanon/object.go: the check that
-- a frame is one JSON object with no repeated key and bounded nesting. `scan` is the body of
-- `members` after its depth test; its fuel bounds the rounds of all loops together.
pub mod Grammar
pub mod Reader
pub mod Lines
pub mod Soundness
use dax_kiro_proxy.Common.{
  ℕ, zero, suc, ◌+◌, Bool, true, false, List, [], ◌∷◌, Option, none, some, Bytes, Bytes_eq, ◌==◌,
  any, length, ltb, if◌then◌else◌,
}
use dax_kiro_proxy.Json.{
  Json, Token, open_brace, close_brace, open_bracket, close_bracket, string, scalar, Fields,
}

pub data Scan : Type 0 where
  rest : List Token → Scan
  invalid : Scan
  -- the fuel ran out
  exhausted : Scan

abbrev pub max_depth : ℕ
max_depth = 64

-- `d.More()`: another element of the array or object follows.
unfoldable pub more : List Token → Bool
more [] = false
more (close_brace ∷ ts) = false
more (close_bracket ∷ ts) = false
more (_ ∷ ts) = true

-- The end token of an object or array.
pub data Close : Type 0 where
  brace bracket : Close

-- The key of a member, read inside an object only: the keys seen, and the tokens behind it.
unfoldable pub read_key : Close → List Bytes → List Token → Option (List Bytes × List Token)
read_key bracket seen ts = some (seen, ts)
read_key brace seen (string key ∷ ts) =
    if any (λ k. k == key) seen then none else some (key ∷ seen, ts)
read_key brace seen _ = none

-- The last token of an object or array.
unfoldable pub finish : Close → List Token → Scan
finish brace (close_brace ∷ ts) = rest ts
finish bracket (close_bracket ∷ ts) = rest ts
finish _ _ = invalid

-- The value of a member: `nested` reads the inside of an object or array.
unfoldable pub read_value : (Close → List Token → Scan) → List Token → Scan
read_value nested (open_brace ∷ ts) = nested brace ts
read_value nested (open_bracket ∷ ts) = nested bracket ts
read_value nested (string s ∷ ts) = rest ts
read_value nested (scalar ∷ ts) = rest ts
read_value nested _ = invalid

-- What follows a scan that found its end.
abbrev and_then : Scan → (List Token → Scan) → Scan
and_then (rest ts) k = k ts
and_then invalid k = invalid
and_then exhausted k = exhausted

-- The loop over the members of one object or array.
unfoldable pub scan : ℕ → ℕ → Close → List Bytes → List Token → Scan
scan zero depth end seen ts = exhausted
scan (suc fuel) depth end seen ts = elim (more ts) [
  | false ↦ finish end ts
  | true ↦ elim (read_key end seen ts) [
    | none ↦ invalid
    | some (seen', ts') ↦
        and_then
          (read_value
            (λ end' us. elim (ltb max_depth (depth + 1)) [
              | true ↦ invalid
              | false ↦ scan fuel (depth + 1) end' [] us
            ])
            ts')
          (λ us. scan fuel depth end seen' us)
  ]
]

-- `members`, with the depth test.
unfoldable pub members : ℕ → ℕ → Close → List Token → Scan
members fuel depth end ts = elim (ltb max_depth depth) [
  | true ↦ invalid
  | false ↦ scan fuel depth end [] ts
]

-- The tokens of a whole frame: one object, then io.EOF.
unfoldable pub document : List Token → Scan
document (open_brace ∷ ts) = elim (members (suc (length ts)) 1 brace ts) [
  | rest [] ↦ rest []
  | rest (_ ∷ _) ↦ invalid
  | invalid ↦ invalid
  | exhausted ↦ exhausted
]
document _ = invalid

-- Whether `Object` goes on to decode the fields.
abbrev accepted : Scan → Bool
accepted (rest _) = true
accepted _ = false

module _ (json : Json) where
  unfoldable pub object : Bytes → Option Fields
  object frame =
      if json.valid_utf8 frame
      then (if accepted (document (json.tokens frame)) then json.unmarshal_fields frame else none)
      else none

  -- `jsoncanon.Object`.
  unfoldable pub canonical_object : Bytes → Option Bytes
  canonical_object raw = elim (object raw) [ none ↦ none | some _ ↦ json.recode raw ]
