-- ===== src/Websearch/Budget.antt =====
-- internal/websearch/budget.go: the slots that the search hook takes. The directory is the list of the
-- slots whose files exist. A run of `TakeBudget` is cut at its file operations, since the hook's
-- processes run side by side; the outcome of what the file system may refuse is an argument.
use dax_kiro_proxy.Anthropic.Stream.{max_search_uses}
use dax_kiro_proxy.Common.{
  ℕ, zero, suc, ◌+◌, Bool, not, ◌&&◌, List, [], ◌∷◌, Option, none, some, ℕ_eq, ◌==◌, any, leb,
  if◌then◌else◌,
}

-- A run of `TakeBudget`: about to open the file of a slot, or ended.
pub data Taker : Type 0 where
  trying granted : ℕ → Taker
  refused : Taker

-- Whether the file of a slot exists.
abbrev pub exists_file : ℕ → List ℕ → Bool
exists_file i files = any (λ j. j == i) files

-- What the file system does at one slot: it opens the file, unless it exists, and closes it.
pub record Access : Type 0 where
  pub opens : Bool
  pub closes : Bool

-- `budgetRoot`: the limit, and whether the directory is private.
unfoldable pub budget_root : Bool → ℕ → Bool
budget_root private limit = private && leb 1 limit && leb limit max_search_uses

unfoldable pub start_taking : Bool → ℕ → Taker
start_taking private limit = if budget_root private limit then trying 0 else refused

-- One round of the loop of `TakeBudget`.
unfoldable pub take_slot : ℕ → Access → List ℕ → Taker → List ℕ × Taker
take_slot limit access files (trying i) =
    if leb limit i
    then (files, refused)
    else if not access.opens
    then (files, refused)
    else if exists_file i files
    then (files, trying (i + 1))
    else (i ∷ files, if access.closes then granted i else refused)
take_slot limit access files (granted i) = (files, granted i)
take_slot limit access files refused = (files, refused)

-- The loop of `BudgetCount`; `proper` tells of which slots the file is as it should be.
unfoldable pub count_slots : (ℕ → Bool) → List ℕ → ℕ → ℕ → Option ℕ
count_slots proper files zero i = some 0
count_slots proper files (suc n) i =
    let others = count_slots proper files n (i + 1) in
    if not (exists_file i files)
    then others
    else if not (proper i)
    then none
    else elim others [ none ↦ none | some count ↦ some (suc count) ]

unfoldable pub budget_count : Bool → (ℕ → Bool) → List ℕ → ℕ → Option ℕ
budget_count private proper files limit =
    if budget_root private limit then count_slots proper files limit 0 else none

-- Several runs side by side: one more starts, or the one at an index makes a round.
pub data Event : Type 0 where
  start : Bool → Event
  round_of : ℕ → Access → Event

pub record System : Type 0 where
  pub files : List ℕ
  pub takers : List Taker

unfoldable pub round_at : ℕ → Access → ℕ → List ℕ → List Taker → List ℕ × List Taker
round_at limit access n files [] = (files, [])
round_at limit access zero files (t ∷ ts) =
    let (files', t') = take_slot limit access files t in (files', t' ∷ ts)
round_at limit access (suc n) files (t ∷ ts) =
    let (files', ts') = round_at limit access n files ts in (files', t ∷ ts')

unfoldable pub step : ℕ → Event → System → System
step limit (start private) s = record s { takers = start_taking private limit ∷ s.takers }
step limit (round_of n access) s =
    let (files, takers) = round_at limit access n s.files s.takers in
    record { files = files; takers = takers }

unfoldable pub run : ℕ → List Event → System → System
run limit [] s = s
run limit (e ∷ es) s = run limit es (step limit e s)
