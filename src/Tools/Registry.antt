-- ===== src/Tools/Registry.antt =====
-- internal/toolregistry/registry.go: `build`, and what a registry answers. The checker of schemas is a
-- parameter.
use dax_kiro_proxy.Common.{
  ℕ, suc, Bool, not, ◌&&◌, ◌||◌, List, [], ◌∷◌, ◌++◌, map, Option, none, some, ℕ_eq, Bytes_eq,
  Bytes, bytes, length, lookup, insert, all, ltb, leb, if◌then◌else◌, is_empty, get_elem?, ◌>>=◌,
  ◌>>◌, check,
}
use dax_kiro_proxy.Tools.Schema.{Decoder, arguments}
use dax_kiro_proxy.Tools.Declarations.{
  max_tools, max_bytes, Tool, Library, sizes_ok, sort_tools, declare_all,
}
use dax_kiro_proxy.Tools.Aliases.{Entry, key_of, Aliases, distinct, refused, exhausted, aliases_of}

pub record Validator : Type 0 where
  pub check_schema : Bytes → Bool
  pub validate : Bytes → Bytes → Bool

pub record Registry : Type 0 where
  pub tools : List Tool
  pub aliases : List (Bytes × ℕ)
  pub fingerprint : Bytes

abbrev pub alias_of : Entry → Bytes
alias_of e = bytes "relay_" ++ key_of e

unfoldable pub name_tools : List Tool → List Entry → List Tool
name_tools (t ∷ ts) (e ∷ es) = record t { alias = alias_of e } ∷ name_tools ts es
name_tools _ _ = []

-- `r.aliases`, from the tool at `i` on.
unfoldable pub index_aliases : ℕ → List Tool → List (Bytes × ℕ) → List (Bytes × ℕ)
index_aliases i [] m = m
index_aliases i (t ∷ ts) m = index_aliases (suc i) ts (insert t.alias i m)

abbrev pub found_aliases : Aliases → Option (List Entry)
found_aliases (distinct es) = some es
found_aliases refused = none
found_aliases exhausted = none

module _ (l : Library) where
  abbrev pub hash_of : Tool → Bytes
  hash_of t = l.hex (l.digest t.name)

  -- The tools in the order of their names, with their aliases.
  unfoldable pub alias_tools : List Tool → Option (List Tool)
  alias_tools ts = do es ← found_aliases (aliases_of (map hash_of ts)); some (name_tools ts es)

  -- The aliased tools of the declarations.
  unfoldable pub tools_of : List Bytes → Option (List Tool)
  tools_of raws = do declared ← declare_all l [] raws; alias_tools (sort_tools declared)

  unfoldable pub register : Validator → List Tool → Option Registry
  register v tools = do
    identity ← l.marshal_tools tools
    check (leb (length identity) max_bytes && all (λ (t : Tool). v.check_schema t.schema) tools)
    some (record {
      tools = tools;
      aliases = index_aliases 0 tools [];
      fingerprint = l.hex (l.sha256 identity);
    })

  unfoldable pub build : List Bytes → List Bytes → Option Validator → Option Registry
  build raws native none = none
  build raws native (some v) =
      if ltb max_tools (length raws) || not (is_empty native) || not (sizes_ok 0 raws)
      then none
      else tools_of raws >>= register v

-- `Lookup`.
unfoldable pub lookup_tool : Registry → Bytes → Option Tool
lookup_tool r alias = elim (lookup alias r.aliases) [ none ↦ none | some i ↦ get_elem? r.tools i ]

pub data Checked : Type 0 where
  checked : Tool → Checked
  alias_error arguments_error : Checked

abbrev check_arguments : Decoder → Validator → Bytes → Tool → Checked
check_arguments d v raw t =
    if not (arguments d raw) || not (v.validate t.schema raw) then arguments_error else checked t

-- `Validate`.
unfoldable pub validate_call : Decoder → Validator → Registry → Bytes → Bytes → Checked
validate_call d v r alias raw = elim (lookup_tool r alias) [
  | none ↦ alias_error
  | some t ↦ check_arguments d v raw t
]
