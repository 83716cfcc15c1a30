-- ===== src/Websearch/Slots.antt =====
-- The budget holds however the runs of `TakeBudget` interleave.
use dax_kiro_proxy.Common.{
  ℕ, zero, suc, ◌+◌, ◌≤◌, ◌≡◌, Bool, false, ◌&&◌, List, [], ◌∷◌, some, arith, ℕ_eq, ◌==◌,
  Option-cases, inl, inr, ltb, leb, if◌then◌else◌,
}
use dax_kiro_proxy.Websearch.Budget.{
  Taker, trying, granted, refused, exists_file, Access, start_taking, take_slot, count_slots,
  budget_count, Event, start, round_of, System, round_at, step, run,
}

-- How many of the slots from `i` on exist.
abbrev used : List ℕ → ℕ → ℕ → ℕ
used files zero i = 0
used files (suc n) i = (if exists_file i files then 1 else 0) + used files n (i + 1)

used_bound : (files : List ℕ) (n i : ℕ) → used files n i ≤ n
used_bound files zero i = omega arith
used_bound files (suc n) i = ground (arith, used_bound files n (i + 1))

-- A new file adds to the slots in its range.
used_new :
    (j : ℕ) (files : List ℕ) (n i : ℕ)
    → exists_file j files ≡ false
    → used (j ∷ files) n i ≡ (if leb i j && ltb j (i + n) then 1 else 0) + used files n i
used_new j files zero i h = ground arith
used_new j files (suc n) i h = ground (arith, used_new j files n (i + 1) h)

-- The slots that were granted, as often as they were.
abbrev pub grants : ℕ → List Taker → ℕ
grants i [] = 0
grants i (granted j ∷ ts) = (if j == i then 1 else 0) + grants i ts
grants i (trying j ∷ ts) = grants i ts
grants i (refused ∷ ts) = grants i ts

abbrev pub granted_count : List Taker → ℕ
granted_count [] = 0
granted_count (granted j ∷ ts) = suc (granted_count ts)
granted_count (trying j ∷ ts) = granted_count ts
granted_count (refused ∷ ts) = granted_count ts

-- A round leaves the files, or adds one file and grants at most its slot.
record Round (limit : ℕ) (files files' : List ℕ) (ts ts' : List Taker) : Type 0 where
  count : granted_count ts' + used files limit 0 ≤ granted_count ts + used files' limit 0
  each :
      (i : ℕ)
      → grants i ts' + (if exists_file i files then 1 else 0)
        ≤ grants i ts + (if exists_file i files' then 1 else 0)

take_slot-Round :
    (limit : ℕ) (access : Access) (files : List ℕ) (t : Taker) (ts : List Taker)
    → Round limit files
        (take_slot limit access files t).0
        (t ∷ ts)
        ((take_slot limit access files t).1 ∷ ts)
unfolding take_slot
take_slot-Round limit access files (granted i) ts = record {
  count = omega arith;
  each = λ j. omega arith;
}
take_slot-Round limit access files refused ts = record {
  count = omega arith;
  each = λ j. omega arith;
}
take_slot-Round limit access files (trying i) ts = record {
  count = ground (arith, used_new i files limit 0);
  each = λ j. ground arith;
}

keep_taker :
    (limit : ℕ) (files files' : List ℕ) (ts ts' : List Taker) (t : Taker)
    → Round limit files files' ts ts'
    → Round limit files files' (t ∷ ts) (t ∷ ts')
keep_taker limit files files' ts ts' (trying i) r = record { count = r.count; each = r.each }
keep_taker limit files files' ts ts' refused r = record { count = r.count; each = r.each }
keep_taker limit files files' ts ts' (granted i) r = record {
  count = omega (arith, r.count);
  each = λ j. omega (arith, r.each j);
}

round_at-Round :
    (limit : ℕ) (access : Access) (n : ℕ) (files : List ℕ) (ts : List Taker)
    → Round limit files (round_at limit access n files ts).0 ts (round_at limit access n files ts).1
unfolding round_at
round_at-Round limit access n files [] = record { count = omega arith; each = λ j. omega arith }
round_at-Round limit access zero files (t ∷ ts) = take_slot-Round limit access files t ts
round_at-Round limit access (suc n) files (t ∷ ts) =
    keep_taker limit files _ ts _ t (round_at-Round limit access n files ts)

-- Every granted slot has its file, and no slot was granted twice.
record Inv (limit : ℕ) (s : System) : Type 0 where
  count : granted_count s.takers ≤ used s.files limit 0
  each : (i : ℕ) → grants i s.takers ≤ (if exists_file i s.files then 1 else 0)

step-Inv : (limit : ℕ) (e : Event) (s : System) → Inv limit s → Inv limit (step limit e s)
unfolding step start_taking
step-Inv limit (start private) s inv = record {
  count = ground (arith, inv.count);
  each = λ i. ground (arith, inv.each i);
}
step-Inv limit (round_of n access) s inv =
    let r = round_at-Round limit access n s.files s.takers in
    record {
      count = omega (arith, inv.count, r.count);
      each = λ i. omega (arith, inv.each i, r.each i);
    }

run-Inv : (limit : ℕ) (es : List Event) (s : System) → Inv limit s → Inv limit (run limit es s)
unfolding run
run-Inv limit [] s inv = inv
run-Inv limit (e ∷ es) s inv = run-Inv limit es (step limit e s) (step-Inv limit e s inv)

count_slots-used :
    (proper : ℕ → Bool) (files : List ℕ) (n i c : ℕ)
    → count_slots proper files n i ≡ some c
    → c ≡ used files n i
unfolding count_slots
count_slots-used proper files zero i c h = ground arith
count_slots-used proper files (suc n) i c h =
    elim (Option-cases (count_slots proper files n (i + 1))) [
      | inl none_ ↦ ground arith
      | inr (k, some_) ↦ ground (arith, count_slots-used proper files n (i + 1) k some_)
    ]

budget_count-used :
    (private : Bool) (proper : ℕ → Bool) (files : List ℕ) (limit c : ℕ)
    → budget_count private proper files limit ≡ some c
    → c ≡ used files limit 0
unfolding budget_count
budget_count-used private proper files limit c h =
    ground (arith, count_slots-used proper files limit 0 c)

-- However runs of `TakeBudget` on one directory interleave, and whatever files were in it before, no
-- slot is granted twice and at most as many searches are granted as the limit says.
pub run-grants :
    (limit : ℕ) (es : List Event) (files : List ℕ) (i : ℕ)
    → (grants i (run limit es (record { files = files; takers = [] })).takers ≤ 1)
      × (granted_count (run limit es (record { files = files; takers = [] })).takers ≤ limit)
run-grants limit es files i =
    let s : System = record { files = files; takers = [] } in
    let inv = run-Inv limit es s (record { count = omega arith; each = λ i. omega arith }) in
    (
      ground (arith, inv.each i),
      omega (arith, inv.count, used_bound (run limit es s).files limit 0),
    )

-- What `BudgetCount` then counts is at least the number of searches granted, and within the limit.
pub budget_count-grants :
    (limit : ℕ) (es : List Event) (files : List ℕ) (private : Bool) (proper : ℕ → Bool) (c : ℕ)
    → budget_count private proper (run limit es (record { files = files; takers = [] })).files limit
      ≡ some c
    → (granted_count (run limit es (record { files = files; takers = [] })).takers ≤ c)
      × (c ≤ limit)
budget_count-grants limit es files private proper c h =
    let s : System = record { files = files; takers = [] } in
    let inv = run-Inv limit es s (record { count = omega arith; each = λ i. omega arith }) in
    let same = budget_count-used private proper (run limit es s).files limit c h in
    (omega (arith, inv.count, same), omega (arith, same, used_bound (run limit es s).files limit 0))
