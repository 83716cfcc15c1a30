-- ===== src/Tools/Schema.antt =====
-- internal/schemawire/input.go: which schemas and which arguments are small enough to be checked. The
-- decoder with `UseNumber` and `strconv.Atoi` are parameters.
use dax_kiro_proxy.Common.{
  ℕ, zero, suc, Bool, true, false, not, ◌&&◌, ◌||◌, [], ◌∷◌, Option, none, some, ℕ_eq, Bytes_eq,
  Bytes, bytes, ◌==◌, length, drop, take, ltb, leb, if◌then◌else◌, is_some,
}
use dax_kiro_proxy.Json.{Json}
use dax_kiro_proxy.Ndjson.{object}

-- What `Decode` makes of a text: objects, arrays, numbers by their text, strings, and the rest.
mutual
  pub data Value : Type 0 where
    mapping : Entries → Value
    array : Items → Value
    number : Bytes → Value
    string : Bytes → Value
    scalar : Value

  pub data Entries : Type 0 where
    no_entry : Entries
    entry : Bytes → Value → Entries → Entries

  pub data Items : Type 0 where
    no_item : Items
    item : Value → Items → Items

pub record Decoder : Type 0 where
  pub json : Json
  pub decode : Bytes → Option Value
  -- `strconv.Atoi`: the size of the number, and whether it is below zero
  pub atoi : Bytes → Option (Bool × ℕ)

abbrev pub max_schema_bytes : ℕ
max_schema_bytes = 65536

abbrev pub max_argument_bytes : ℕ
max_argument_bytes = 1048576

-- What follows the first `e` or `E`.
abbrev pub exponent_of : Bytes → Option Bytes
exponent_of [] = none
exponent_of (b ∷ s) = if b == 101 || b == 69 then some s else exponent_of s

abbrev pub small_exponent : (Bytes → Option (Bool × ℕ)) → Option Bytes → Bool
small_exponent atoi none = true
small_exponent atoi (some s) = elim (atoi s) [ none ↦ false | some (negative, n) ↦ leb n 1000 ]

unfoldable pub number_ok : (Bytes → Option (Bool × ℕ)) → Bytes → Bool
number_ok atoi s = leb (length s) 128 && small_exponent atoi (exponent_of s)

-- `bounded`: the nodes that are left, if there were enough of them.
unfoldable mutual
  pub bounded : (Bytes → Option (Bool × ℕ)) → Value → ℕ → Option ℕ
  bounded atoi v zero = none
  bounded atoi (mapping es) (suc n) = bounded_entries atoi es n
  bounded atoi (array vs) (suc n) = bounded_items atoi vs n
  bounded atoi (number s) (suc n) = if number_ok atoi s then some n else none
  bounded atoi (string s) (suc n) = some n
  bounded atoi scalar (suc n) = some n

  pub bounded_entries : (Bytes → Option (Bool × ℕ)) → Entries → ℕ → Option ℕ
  bounded_entries atoi no_entry n = some n
  bounded_entries atoi (entry k v es) n = elim (bounded atoi v n) [
    | none ↦ none
    | some m ↦ bounded_entries atoi es m
  ]

  pub bounded_items : (Bytes → Option (Bool × ℕ)) → Items → ℕ → Option ℕ
  bounded_items atoi no_item n = some n
  bounded_items atoi (item v vs) n = elim (bounded atoi v n) [
    | none ↦ none
    | some m ↦ bounded_items atoi vs m
  ]

abbrev trim_hash : Bytes → Bytes
trim_hash [] = []
trim_hash (b ∷ []) = if b == 35 then [] else b ∷ []
trim_hash (b ∷ c ∷ s) = b ∷ trim_hash (c ∷ s)

-- `strings.CutPrefix`.
abbrev cut_prefix : Bytes → Bytes → Option Bytes
cut_prefix p s = if take (length p) s == p then some (drop (length p) s) else none

abbrev known : Option Bytes → Bool
known none = false
known (some uri) =
    uri == bytes "json-schema.org/draft-07/schema"
    || uri == bytes "json-schema.org/draft/2019-09/schema"
    || uri == bytes "json-schema.org/draft/2020-12/schema"

unfoldable pub supported_dialect : Value → Bool
supported_dialect (string s) =
    let uri = trim_hash s in
    let https = cut_prefix (bytes "https://") uri in
    known (if is_some https then https else cut_prefix (bytes "http://") uri)
supported_dialect _ = false

-- The last value of a key.
abbrev find : Bytes → Entries → Option Value
find k no_entry = none
find k (entry j v es) =
    let later = find k es in if is_some later then later else if j == k then some v else none

abbrev is_object_type : Option Value → Bool
is_object_type (some (string s)) = s == bytes "object"
is_object_type _ = false

abbrev dialect_ok : Option Value → Bool
dialect_ok none = true
dialect_ok (some v) = supported_dialect v

module _ (d : Decoder) where
  -- `object`: a text within its limits.
  unfoldable pub bounded_object : Bytes → ℕ → ℕ → Option Value
  bounded_object raw limit nodes =
      if ltb limit (length raw) || not (is_some (object d.json raw))
      then none
      else elim (d.decode raw) [
        | none ↦ none
        | some v ↦ if is_some (bounded d.atoi v nodes) then some v else none
      ]

  abbrev object_schema : Value → Bool
  object_schema (mapping es) =
      is_object_type (find (bytes "type") es) && dialect_ok (find (bytes "$schema") es)
  object_schema _ = false

  -- Whether `Schema` takes a text.
  unfoldable pub schema : Bytes → Bool
  schema raw = elim (bounded_object raw max_schema_bytes 8192) [
    | none ↦ false
    | some v ↦ object_schema v
  ]

  -- Whether `Arguments` takes a text.
  unfoldable pub arguments : Bytes → Bool
  arguments raw = is_some (bounded_object raw max_argument_bytes 65536)
