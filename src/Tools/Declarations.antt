-- ===== src/Tools/Declarations.antt =====
-- internal/toolregistry/registry.go: the declarations that `build` reads, and the tools in their order.
-- All the refusals are one error, so they are `none`.
use dax_kiro_proxy.Common.{
  ℕ, ◌+◌, Bool, true, false, not, ◌&&◌, ◌||◌, List, [], ◌∷◌, Option, none, some, ℕ_eq, Bytes_eq,
  Bytes, bytes, ◌==◌, length, lookup, all, any, ltb, leb, if◌then◌else◌, ◌>>=◌, ◌>>◌, check,
}
use dax_kiro_proxy.Json.{Fields}
use dax_kiro_proxy.Ndjson.{object, canonical_object}
use dax_kiro_proxy.Tools.Schema.{Decoder, schema}

abbrev pub max_tools : ℕ
max_tools = 128

abbrev pub max_bytes : ℕ
max_bytes = 1048576

pub record Tool : Type 0 where
  pub name : Bytes
  pub alias : Bytes
  pub description : Bytes
  pub schema : Bytes

pub record Library : Type 0 where
  pub decoder : Decoder
  -- `json.Unmarshal` into a `[]string`
  pub strings : Bytes → Option (List Bytes)
  -- the digest of a name, and `hex.EncodeToString`
  pub digest : Bytes → Bytes
  pub hex : Bytes → Bytes
  -- `json.Marshal` of the version, the tools and no native tools, and `sha256.Sum256`
  pub marshal_tools : List Tool → Option Bytes
  pub sha256 : Bytes → Bytes

abbrev field : Bytes → Fields → Bytes
field k fs = elim (lookup k fs) [ none ↦ [] | some raw ↦ raw ]

abbrev in_range : ℕ → ℕ → ℕ → Bool
in_range lo hi b = leb lo b && leb b hi

-- The letters, the digits, `_` and `-`.
abbrev name_byte : ℕ → Bool
name_byte b = in_range 97 122 b || in_range 65 90 b || in_range 48 57 b || b == 95 || b == 45

unfoldable pub valid_name : Bytes → Bool
valid_name s = leb 1 (length s) && leb (length s) 64 && all name_byte s

abbrev starts_text : Bytes → Bool
starts_text [] = false
starts_text (b ∷ s) = b == 34

-- `total += len(declaration)`, which stays within the limit.
unfoldable pub sizes_ok : ℕ → List Bytes → Bool
sizes_ok total [] = true
sizes_ok total (raw ∷ raws) =
    not (ltb max_bytes (total + length raw)) && sizes_ok (total + length raw) raws

-- `<` on strings.
unfoldable pub less : Bytes → Bytes → Bool
less [] [] = false
less [] (c ∷ t) = true
less (b ∷ s) [] = false
less (b ∷ s) (c ∷ t) = ltb b c || (b == c && less s t)

unfoldable pub insert_tool : Tool → List Tool → List Tool
insert_tool t [] = t ∷ []
insert_tool t (u ∷ us) =
    let rest = insert_tool t us in if less u.name t.name then u ∷ rest else t ∷ u ∷ us

-- `sort.Slice` by the names, which are all different.
unfoldable pub sort_tools : List Tool → List Tool
sort_tools [] = []
sort_tools (t ∷ ts) = insert_tool t (sort_tools ts)

module _ (l : Library) where
  unfoldable pub read_string : Bytes → Option Bytes
  read_string v = if starts_text v then l.decoder.json.unmarshal_string v else none

  abbrev direct : Option (List Bytes) → Bool
  direct (some (c ∷ [])) = c == bytes "direct"
  direct _ = false

  -- Whether a declaration may have a field.
  unfoldable pub field_ok : Bytes × Bytes → Bool
  field_ok (k, v) =
      if k == bytes "name"
        || k == bytes "description"
        || k == bytes "input_schema"
        || k == bytes "cache_control"
        || k == bytes "input_examples"
      then true
      else if k == bytes "type"
      then v == bytes "\"custom\""
      else if k == bytes "strict"
      then v == bytes "true" || v == bytes "false"
      else if k == bytes "defer_loading"
      then v == bytes "false"
      else k == bytes "allowed_callers" && direct (l.strings v)

  unfoldable pub description_of : Fields → Option Bytes
  description_of fs = elim (lookup (bytes "description") fs) [
    | none ↦ some []
    | some v ↦ do
      description ← read_string v
      check (leb (length description) 8192)
      some description
  ]

  -- A declaration; `seen` holds the names before it.
  unfoldable pub declare : List Bytes → Bytes → Option Tool
  declare seen raw = do
    fields ← object l.decoder.json raw
    name ← read_string (field (bytes "name") fields)
    check (valid_name name && not (any (◌==◌ name) seen))
    description ← description_of fields
    check (all field_ok fields)
    let input = field (bytes "input_schema") fields
    check (schema l.decoder input)
    canonical ← canonical_object l.decoder.json input
    some (record { name = name; alias = []; description = description; schema = canonical })

  unfoldable pub declare_all : List Bytes → List Bytes → Option (List Tool)
  declare_all seen [] = some []
  declare_all seen (raw ∷ raws) = do
    t ← declare seen raw
    ts ← declare_all (t.name ∷ seen) raws
    some (t ∷ ts)
