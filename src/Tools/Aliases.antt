-- ===== src/Tools/Aliases.antt =====
-- internal/toolregistry/registry.go: the loop of `build` that makes the aliases longer until no two tools
-- share one. A key is as many letters of the digest as the tool has.
use dax_kiro_proxy.Common.{
  ℕ, zero, suc, ◌+◌, ◌*◌, Bool, true, false, List, [], ◌∷◌, Option, none, some, ℕ_eq, Bytes_eq,
  Bytes, ◌==◌, length, take, any, leb, map, if◌then◌else◌,
}

-- A tool's `hashes[i]` and `lengths[i]`.
pub record Entry : Type 0 where
  pub hash : Bytes
  pub size : ℕ

abbrev pub key_of : Entry → Bytes
key_of e = take e.size e.hash

abbrev pub new_entry : Bytes → Entry
new_entry hash = record { hash = hash; size = 16 }

-- The size of the group of a key.
unfoldable pub count_key : Bytes → List Entry → ℕ
count_key k [] = 0
count_key k (e ∷ es) = (if key_of e == k then 1 else 0) + count_key k es

abbrev pub is_shared : List Entry → Entry → Bool
is_shared all e = leb 2 (count_key (key_of e) all)

-- The walk over the groups: each tool of a group of two or more gets two letters more.
unfoldable pub grow : List Entry → List Entry → Option (List Entry)
grow all [] = some []
grow all (e ∷ es) = elim (grow all es) [
  | none ↦ none
  | some es' ↦
      if is_shared all e
      then (if e.size == 64 then none else some (record e { size = e.size + 2 } ∷ es'))
      else some (e ∷ es')
]

pub data Aliases : Type 0 where
  distinct : List Entry → Aliases
  refused exhausted : Aliases

unfoldable pub distinguish : ℕ → List Entry → Aliases
distinguish zero es = exhausted
distinguish (suc fuel) es = elim (any (is_shared es) es) [
  | false ↦ distinct es
  | true ↦ elim (grow es es) [ none ↦ refused | some es' ↦ distinguish fuel es' ]
]

-- Each round takes two of the 48 letters that some digest has left.
abbrev pub enough_fuel : List Entry → ℕ
enough_fuel es = suc (48 * length es)

unfoldable pub aliases_of : List Bytes → Aliases
aliases_of hashes = let es = map new_entry hashes in distinguish (enough_fuel es) es
