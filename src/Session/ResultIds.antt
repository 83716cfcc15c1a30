-- ===== src/Session/ResultIds.antt =====
-- `sameResultIDs` as a comparison of two sets of identifiers.
use dax_kiro_proxy.Common.{
  ℕ, suc, ◌+◌, ◌≤◌, ◌≡◌, refl, ◌⊎◌, Bool, true, false, List, [], ◌∷◌, none, some, arith, ℕ_eq,
  Bytes, Bytes_eq, ◌==◌, ==_iff, length, lookup, insert, delete, keys, UniqueKeys, delete-absent,
  if◌then◌else◌,
}
use dax_kiro_proxy.Session.Continuation.{ToolResult, add_ids, remove_ids, same_result_ids}

-- How often an identifier occurs.
abbrev pub times : Bytes → List Bytes → ℕ
times k [] = 0
times k (j ∷ js) = (if j == k then 1 else 0) + times k js

abbrev pub result_ids : List ToolResult → List Bytes
result_ids [] = []
result_ids (r ∷ rs) = r.id ∷ result_ids rs

times_absent :
    (k : Bytes) (set : List (Bytes × Bool)) → lookup k set ≡ none → times k (keys set) ≡ 0
unfolding lookup
times_absent k [] h = refl
times_absent k ((j, w) ∷ set) h = ground (arith, times_absent k set)

lookup-delete_other :
    (k j : Bytes) (set : List (Bytes × Bool)) → lookup k set ≡ none → lookup k (delete j set) ≡ none
unfolding lookup delete
lookup-delete_other k j [] h = refl
lookup-delete_other k j ((i, w) ∷ set) h = ground (arith, lookup-delete_other k j set)

delete-UniqueKeys :
    (j : Bytes) (set : List (Bytes × Bool)) → UniqueKeys set → UniqueKeys (delete j set)
unfolding delete
delete-UniqueKeys j [] u = tt
delete-UniqueKeys j ((i, w) ∷ set) u =
    ground (arith, delete-UniqueKeys j set u.1, lookup-delete_other i j set u.0)

times-delete :
    (k j : Bytes) (set : List (Bytes × Bool)) (v : Bool)
    → UniqueKeys set
    → lookup j set ≡ some v
    → times k (keys set) ≡ (if j == k then 1 else 0) + times k (keys (delete j set))
unfolding lookup delete
times-delete k j [] v u h = ground arith
times-delete k j ((i, w) ∷ set) v u h =
    ground (arith, times-delete k j set v u.1, delete-absent j set, ==_iff i j)

length-delete :
    (j : Bytes) (set : List (Bytes × Bool)) (v : Bool)
    → UniqueKeys set
    → lookup j set ≡ some v
    → length set ≡ suc (length (delete j set))
unfolding lookup delete
length-delete j [] v u h = ground arith
length-delete j ((i, w) ∷ set) v u h =
    ground (arith, length-delete j set v u.1, delete-absent j set, ==_iff i j)

-- The results that empty a set are its identifiers, each once.
remove_ids-times :
    (k : Bytes) (rs : List ToolResult) (set : List (Bytes × Bool))
    → UniqueKeys set
    → remove_ids rs set ≡ true
    → times k (result_ids rs) ≡ times k (keys set)
unfolding remove_ids
remove_ids-times k [] [] u h = refl
remove_ids-times k [] (e ∷ set) u h = ground arith
remove_ids-times k (r ∷ rs) set u h = ground (
  arith,
  remove_ids-times k rs (delete r.id set) (delete-UniqueKeys r.id set u),
  times-delete k r.id set true u,
)

remove_ids-length :
    (rs : List ToolResult) (set : List (Bytes × Bool))
    → UniqueKeys set
    → remove_ids rs set ≡ true
    → length rs ≡ length set
unfolding remove_ids
remove_ids-length [] [] u h = refl
remove_ids-length [] (e ∷ set) u h = ground arith
remove_ids-length (r ∷ rs) set u h = ground (
  arith,
  remove_ids-length rs (delete r.id set) (delete-UniqueKeys r.id set u),
  length-delete r.id set true u,
)

lookup-insert_other :
    (k j : Bytes) (set : List (Bytes × Bool))
    → (j == k) ≡ false
    → lookup k set ≡ none
    → lookup k (insert j true set) ≡ none
unfolding lookup insert
lookup-insert_other k j [] d h = ground arith
lookup-insert_other k j ((i, w) ∷ set) d h = ground (arith, lookup-insert_other k j set)

insert-UniqueKeys :
    (j : Bytes) (set : List (Bytes × Bool)) → UniqueKeys set → UniqueKeys (insert j true set)
unfolding insert lookup
insert-UniqueKeys j [] u = (refl, tt)
insert-UniqueKeys j ((i, w) ∷ set) u =
    ground (arith, ==_iff i j, ==_iff j i, insert-UniqueKeys j set u.1, lookup-insert_other i j set)

add_ids-UniqueKeys :
    (ids : List Bytes) (set : List (Bytes × Bool)) → UniqueKeys set → UniqueKeys (add_ids ids set)
unfolding add_ids
add_ids-UniqueKeys [] set u = u
add_ids-UniqueKeys (j ∷ ids) set u =
    add_ids-UniqueKeys ids (insert j true set) (insert-UniqueKeys j set u)

-- An insertion adds an entry for a new key, and replaces the entry of an old one.
insert-grows :
    (k j : Bytes) (set : List (Bytes × Bool))
    → ((length (insert j true set) ≡ suc (length set))
        × (times k (keys (insert j true set)) ≡ (if j == k then 1 else 0) + times k (keys set)))
      ⊎ (length (insert j true set) ≡ length set)
unfolding insert lookup
insert-grows k j [] = ground arith
insert-grows k j ((i, w) ∷ set) = ground (arith, insert-grows k j set)

add_ids-length :
    (ids : List Bytes) (set : List (Bytes × Bool))
    → length (add_ids ids set) ≤ length ids + length set
unfolding add_ids
add_ids-length [] set = omega arith
add_ids-length (j ∷ ids) set =
    ground (arith, add_ids-length ids (insert j true set), insert-grows [] j set)

-- If no addition replaces an entry, then the set holds what was added.
add_ids-times :
    (k : Bytes) (ids : List Bytes) (set : List (Bytes × Bool))
    → length (add_ids ids set) ≡ length ids + length set
    → times k (keys (add_ids ids set)) ≡ times k ids + times k (keys set)
unfolding add_ids
add_ids-times k [] set h = omega arith
add_ids-times k (j ∷ ids) set h = ground (
  arith,
  add_ids-times k ids (insert j true set),
  add_ids-length ids (insert j true set),
  insert-grows k j set,
)

UniqueKeys-times : (k : Bytes) (set : List (Bytes × Bool)) → UniqueKeys set → times k (keys set) ≤ 1
UniqueKeys-times k [] u = omega arith
UniqueKeys-times k ((i, w) ∷ set) u =
    ground (arith, UniqueKeys-times k set u.1, times_absent k set, ==_iff i k)

-- The results are taken only if they name the expected calls exactly: no identifier is expected
-- twice, and each occurs among the results as often as it is expected.
pub same_result_ids-times :
    (ids : List Bytes) (results : List ToolResult) (k : Bytes)
    → same_result_ids ids results ≡ true
    → (times k (result_ids results) ≡ times k ids) × (times k ids ≤ 1)
unfolding same_result_ids
same_result_ids-times ids results k h = ground (
  arith,
  remove_ids-times k results (add_ids ids []) (add_ids-UniqueKeys ids [] tt),
  remove_ids-length results (add_ids ids []) (add_ids-UniqueKeys ids [] tt),
  add_ids-times k ids [],
  UniqueKeys-times k (add_ids ids []) (add_ids-UniqueKeys ids [] tt),
)
