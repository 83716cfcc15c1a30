-- ===== src/Catalog/Models.antt =====
-- internal/catalog/catalog.go: the models of a catalog and their client identifiers. Code points, their
-- classes, digests and the encoding are parameters; a multiplier is a number that only its test reads.
use dax_kiro_proxy.Common.{
  ℕ, Bool, true, false, not, ◌&&◌, ◌||◌, List, [], ◌∷◌, ◌++◌, Option, none, some, ℕ_eq, Bytes_eq,
  Bytes, bytes, ◌==◌, length, lookup, insert, all, take, get_elem?, leb, if◌then◌else◌, is_some,
  is_empty, ◌>>=◌, ◌>>◌, check,
}

abbrev pub max_bytes : ℕ
max_bytes = 1048576

abbrev pub max_models : ℕ
max_models = 256

pub record Backend : Type 0 where
  pub id : Bytes
  pub name : Bytes
  pub description : Bytes
  pub multiplier : Option ℕ

pub record Catalog : Type 0 where
  pub models : List Backend
  pub client_ids : List Bytes
  pub reverse : List (Bytes × ℕ)
  pub backend : List (Bytes × ℕ)
  pub current : Bytes

pub record Texts : Type 0 where
  -- the code points of a valid text, `unicode.IsSpace` and `unicode.IsControl`
  pub runes : Bytes → Option (List ℕ)
  pub is_space : ℕ → Bool
  pub is_control : ℕ → Bool
  -- a number from 0 to 1000
  pub multiplier_ok : ℕ → Bool
  -- the code points of `strings.ToLower`, `sha256.Sum256` and `hex.EncodeToString`
  pub lower : Bytes → List ℕ
  pub sha256 : Bytes → Bytes
  pub hex : Bytes → Bytes
  -- the size of `json.Marshal` of the models
  pub encoded : List Backend → ℕ

abbrev in_range : ℕ → ℕ → ℕ → Bool
in_range lo hi b = leb lo b && leb b hi

-- The letters and digits of a text, with one dash for what stands between them, 48 bytes at most.
unfoldable pub normalize : List ℕ → Bool → Bytes → Bytes
normalize [] last_dash out = out
normalize (r ∷ rs) last_dash out =
    let letter = in_range 97 122 r || in_range 48 57 r in
    let next =
      normalize rs (not letter)
        (if letter then out ++ r ∷ [] else if last_dash then out else out ++ 45 ∷ []) in
    if leb 48 (length out) then out else next

-- `strings.Trim` of dashes.
unfoldable pub trim_left : Bytes → Bytes
trim_left [] = []
trim_left (b ∷ s) = let rest = trim_left s in if b == 45 then rest else b ∷ s

unfoldable pub trim_right : Bytes → Bytes
trim_right [] = []
trim_right (b ∷ s) = let rest = trim_right s in if is_empty rest && b == 45 then [] else b ∷ rest

module _ (t : Texts) where
  -- `clientID`.
  unfoldable pub derive_id : Bytes → Bytes
  derive_id id =
      let name = trim_right (trim_left (normalize (t.lower id) true [])) in
      bytes "claude-dax-"
      ++ ((if is_empty name then bytes "model" else name)
          ++ (bytes "-" ++ t.hex (take 8 (t.sha256 id))))

  unfoldable pub valid_id : Bytes → Bool
  valid_id s = not (is_empty s) && leb (length s) 256 && (elim (t.runes s) [
    | none ↦ false
    | some rs ↦ all (λ r. not (t.is_space r) && not (t.is_control r)) rs
  ])

  unfoldable pub display_text : Bytes → ℕ → Bool
  display_text s max = leb (length s) max && (elim (t.runes s) [
    | none ↦ false
    | some rs ↦ all (λ r. not (t.is_control r) || r == 10 || r == 9 || r == 13) rs
  ])

  unfoldable pub model_ok : Backend → Bool
  model_ok m =
      valid_id m.id
      && display_text m.name 256
      && display_text m.description 8192
      && (elim m.multiplier [ none ↦ true | some v ↦ t.multiplier_ok v ])

abbrev pub Indexed : Type 0
Indexed = List Backend × List (Bytes × ℕ)

-- A model at the end, under its identifier.
abbrev pub add_model : Backend → Indexed → Indexed
add_model m (models, backend) = (models ++ m ∷ [], insert m.id (length models) backend)

unfoldable pub add_models : (Backend → Bool) → List Backend → Indexed → Option Indexed
add_models ok [] c = some c
add_models ok (m ∷ ms) c = do
  check (ok m && not (is_some (lookup m.id c.1)))
  add_models ok ms (add_model m c)

unfoldable pub add_current : Bytes → Indexed → Indexed
add_current current c =
    if is_empty current || is_some (lookup current c.1)
    then c
    else add_model (record { id = current; name = current; description = []; multiplier = none }) c

-- The client identifiers, each used once.
unfoldable pub name_models :
    (Bytes → Bytes)
    → List Backend
    → List Bytes
    → List (Bytes × ℕ)
    → Option (List Bytes × List (Bytes × ℕ))
name_models derive [] ids reverse = some (ids, reverse)
name_models derive (m ∷ ms) ids reverse = do
  check (not (is_some (lookup (derive m.id) reverse)))
  name_models derive ms (ids ++ derive m.id ∷ []) (insert (derive m.id) (length ids) reverse)

module _ (t : Texts) where
  -- `newWithID`.
  unfoldable pub new_with_id : List Backend → Bytes → (Bytes → Bytes) → Option Catalog
  new_with_id models current derive = do
    check (leb (length models) max_models && (is_empty current || valid_id t current))
    added ← add_models (model_ok t) models ([], [])
    let c = add_current current added
    check (not (is_empty c.0) && leb (length c.0) max_models)
    named ← name_models derive c.0 [] []
    check (leb (t.encoded c.0) max_bytes)
    some (record {
      models = c.0;
      client_ids = named.0;
      reverse = named.1;
      backend = c.1;
      current = current;
    })

  -- `New`.
  unfoldable pub new : List Backend → Bytes → Option Catalog
  new models current = new_with_id models current (derive_id t)

-- `Resolve`, `ClientID` and `Backend`.
unfoldable pub resolve : Catalog → Bytes → Option Backend
resolve c id = lookup id c.reverse >>= get_elem? c.models

unfoldable pub client_id : Catalog → Bytes → Option Bytes
client_id c id = lookup id c.backend >>= get_elem? c.client_ids

unfoldable pub backend_of : Catalog → Bytes → Option Backend
backend_of c id = lookup id c.backend >>= get_elem? c.models
