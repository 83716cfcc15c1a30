-- ===== src/Examples/ToolExamples.antt =====
-- Two tools whose digests begin with the same sixteen letters.
use dax_kiro_proxy.Common.{
  ◌-◌, ◌≡◌, ◌≢◌, refl, true, ◌&&◌, List, [], ◌∷◌, ◌++◌, none, some, ℕ_eq, Bytes_eq, Bytes, bytes,
  equal, ◌==◌, leb, lookup, insert, if◌then◌else◌,
}
use dax_kiro_proxy.Json.{Json, open_brace, close_brace}
use dax_kiro_proxy.Ndjson.{
  object, canonical_object, document, members, scan, read_key, read_value, more, finish,
}
use dax_kiro_proxy.Tools.Schema.{
  Value, mapping, array, number, string, entry, no_entry, item, no_item, Decoder, bounded,
  bounded_entries, bounded_items, bounded_object, number_ok, schema, supported_dialect,
}
use dax_kiro_proxy.Tools.Bounded.{size, numbers_ok, bounded-size}
use dax_kiro_proxy.Tools.Aliases.{refused, exhausted, count_key, grow, distinguish, aliases_of}
use dax_kiro_proxy.Tools.Growth.{aliases_of-ne-exhausted}
use dax_kiro_proxy.Tools.Declarations.{
  Tool, Library, valid_name, sizes_ok, less, insert_tool, sort_tools, read_string, field_ok,
  description_of, declare, declare_all,
}
use dax_kiro_proxy.Tools.Registry.{
  Validator, Registry, name_tools, index_aliases, alias_tools, tools_of, register, build,
  lookup_tool,
}
use dax_kiro_proxy.Tools.Lookup.{build-lookup_tool}

-- Each declaration is its name, and every schema is `{"type": "object"}`.
abbrev json : Json
json = record {
  valid_utf8 = λ b. true;
  tokens = λ b. open_brace ∷ close_brace ∷ [];
  unmarshal_fields = λ b. some ((bytes "name", b) ∷ (bytes "input_schema", bytes "{}") ∷ []);
  unmarshal_items = λ b. none;
  unmarshal_string = λ b. some (if b == bytes "\"f\"" then bytes "f" else bytes "g");
  marshal_fields = λ m. none;
  marshal_items = λ m. none;
  marshal_text = λ t. t;
  marshal_message = λ role raws. none;
  recode = λ b. some b;
}

abbrev decoder : Decoder
decoder = record {
  json = json;
  decode = λ b. some (mapping (entry (bytes "type") (string (bytes "object")) no_entry));
  atoi = λ b. none;
}

abbrev library : Library
library = record {
  decoder = decoder;
  strings = λ b. none;
  digest = λ b. b;
  hex = λ b. bytes "0123456789abcdef" ++ b;
  marshal_tools = λ ts. some [];
  sha256 = λ b. b;
}

abbrev validator : Validator
validator = record { check_schema = λ s. true; validate = λ s a. true }

abbrev declarations : List Bytes
declarations = bytes "\"g\"" ∷ bytes "\"f\"" ∷ []

abbrev tool_of : Bytes → Tool
tool_of name = record {
  name = name;
  alias = bytes "relay_0123456789abcdef" ++ name;
  description = [];
  schema = bytes "{}";
}

abbrev registry : Registry
registry = record {
  tools = tool_of (bytes "f") ∷ tool_of (bytes "g") ∷ [];
  aliases = (bytes "relay_0123456789abcdeff", 0) ∷ (bytes "relay_0123456789abcdefg", 1) ∷ [];
  fingerprint = bytes "0123456789abcdef";
}

builds : build library declarations [] (some validator) ≡ some registry
unfolding build tools_of register alias_tools name_tools index_aliases aliases_of distinguish grow
    count_key declare_all declare field_ok description_of read_string valid_name sizes_ok less
    insert_tool sort_tools schema bounded_object bounded bounded_entries object canonical_object
    document members scan read_key read_value more finish equal lookup insert supported_dialect
builds = refl

build-lookup_tool_example :
    (lookup (bytes "relay_0123456789abcdefg") registry.aliases ≡ some 1)
    × (lookup_tool registry (bytes "relay_0123456789abcdefg") ≡ some (tool_of (bytes "g")))
build-lookup_tool_example =
    build-lookup_tool library declarations [] (some validator) registry 1 (tool_of (bytes "g"))
      builds refl

aliases_of-ne-exhausted_example :
    aliases_of (bytes "0123456789abcdeff" ∷ bytes "0123456789abcdefg" ∷ []) ≢ exhausted
aliases_of-ne-exhausted_example =
    aliases_of-ne-exhausted (bytes "0123456789abcdeff" ∷ bytes "0123456789abcdefg" ∷ [])

-- Equal digests are refused, once all their letters are used up.
refuses_equal_digests : aliases_of (bytes "00" ∷ bytes "00" ∷ []) ≡ refused
unfolding aliases_of distinguish grow count_key equal
refuses_equal_digests = refl

abbrev list : Value
list = array (item (number (bytes "1")) (item (string []) no_item))

bounded-size_example :
    bounded (λ s. none) list 4
    ≡ (if numbers_ok (λ s. none) list && leb (size list) 4 then some (4 - size list) else none)
bounded-size_example = bounded-size (λ s. none) list 4

takes_three : bounded (λ s. none) list 4 ≡ some 1
unfolding bounded bounded_items number_ok
takes_three = refl
