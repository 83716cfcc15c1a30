-- ===== src/Kiro/Asking.antt =====
-- What `Sync` asks for, and what it records of the answer.
use dax_kiro_proxy.Common.{
  ◌≡◌, refl, sym, ap, subst, Bool, true, false, not, ◌||◌, List, [], ◌∷◌, ◌++◌, Option, none, some,
  ℕ_eq, Bytes_eq, Bytes, bytes, ◌==◌, ==_refl, length, ltb, leb, if◌then◌else◌, is_empty, arith,
}
use dax_kiro_proxy.Kiro.Effort.{
  unknown, Pair, same_pair, has_pair, Status, Effort, max_probes, normalize, Answer, broken,
  refused, result, Outcome, saved, probe, sync_pair, sync,
}
use dax_kiro_proxy.Kiro.Refusals.{is_refusal, is_current, status_pair, Inv}

-- What an outcome adds to the refusals, by the pair that was asked for and the answer.
abbrev pub added : Answer → Option Pair → List Pair
added a none = []
added a (some p) = if is_refusal a then p ∷ [] else []

-- What holds of an outcome: its effort is sound, a pair that was asked for was not refused before, and
-- the effort keeps the refusals.
pub record Sound (a : Answer) (c : Effort) (o : Outcome) : Type 0 where
  pub inv : Inv o.after
  pub kept : o.after.rejected ≡ added a o.asked ++ c.rejected
  pub new_pair : (p : Pair) → o.asked ≡ some p → has_pair p c.rejected ≡ false

if-Sound :
    (a : Answer) (c : Effort) (b : Bool) (x y : Outcome)
    → (b ≡ true → Sound a c x)
    → (b ≡ false → Sound a c y)
    → Sound a c (if b then x else y)
if-Sound a c true x y h k = h refl
if-Sound a c false x y h k = k refl

saved-Sound :
    (a : Answer) (c : Effort) (s : Status)
    → Inv c
    → (is_current s.state ≡ true → same_pair c.applied (status_pair s) ≡ true)
    → Sound a c (saved c s)
saved-Sound a c s inv h = record {
  kept = refl;
  inv = record { once = inv.once; few = inv.few; honest = h };
  new_pair = λ p e. ground arith;
}

same_pair_refl : (p : Pair) → same_pair p p ≡ true
unfolding same_pair
same_pair_refl p = ground (arith, ==_refl p.model, ==_refl p.effort)

asked-fresh :
    (pair p : Pair) (ps : List Pair)
    → has_pair pair ps ≡ false
    → some pair ≡ some p
    → has_pair p ps ≡ false
asked-fresh pair p ps fresh e =
    let same : pair ≡ p = cc in subst (λ q. has_pair q ps ≡ false) same fresh

rejected-Sound :
    (a : Answer) (pair : Pair) (s : Status) (c : Effort)
    → is_refusal a ≡ true
    → has_pair pair c.rejected ≡ false
    → leb max_probes (length c.rejected) ≡ false
    → s.state ≡ unknown
    → Inv c
    → Sound a c (record {
      after = record c { rejected = pair ∷ c.rejected; status = record s { rejected = true } };
      failed = false;
      asked = some pair;
    })
rejected-Sound a pair s c answered fresh room u inv = record {
  kept = ap (λ b. (if b then pair ∷ [] else []) ++ c.rejected) (sym answered);
  inv = record { once = (fresh, inv.once); few = ground arith; honest = λ h. ground arith };
  new_pair = λ p e. asked-fresh pair p c.rejected fresh e;
}

probe-Sound :
    (a : Answer) (pair : Pair) (s : Status) (c : Effort)
    → has_pair pair c.rejected ≡ false
    → leb max_probes (length c.rejected) ≡ false
    → s.state ≡ unknown
    → status_pair s ≡ pair
    → Inv c
    → Sound a c (probe a pair s c)
unfolding probe
probe-Sound broken pair s c fresh room u e inv = record {
  inv = inv;
  kept = refl;
  new_pair = λ p h. asked-fresh pair p c.rejected fresh h;
}
probe-Sound refused pair s c fresh room u e inv =
    rejected-Sound refused pair s c refl fresh room u inv
probe-Sound (result false) pair s c fresh room u e inv =
    rejected-Sound (result false) pair s c refl fresh room u inv
probe-Sound (result true) pair s c fresh room u e inv = record {
  inv = record {
    once = inv.once;
    few = inv.few;
    honest = λ h. subst (λ q. same_pair pair q ≡ true) (sym e) (same_pair_refl pair);
  };
  new_pair = λ p h. asked-fresh pair p c.rejected fresh h;
  kept = refl;
}

sync_pair-Sound :
    (a : Answer) (pair : Pair) (s : Status) (c : Effort)
    → s.state ≡ unknown
    → status_pair s ≡ pair
    → Inv c
    → Sound a c (sync_pair a pair s c)
unfolding sync_pair
sync_pair-Sound a pair s c u e inv =
    if-Sound a c (pair.model == bytes "auto" || has_pair pair c.known_unsupported) _ _
      (λ h1. saved-Sound a c _ inv (λ h. ground arith))
      (λ h1.
        if-Sound a c (not c.advertised) _ _ (λ h2. saved-Sound a c _ inv (λ h. ground arith))
          (λ h2.
            if-Sound a c (not c.available) _ _ (λ h3. saved-Sound a c _ inv (λ h. ground arith))
              (λ h3.
                if-Sound a c (same_pair c.applied pair) _ _
                  (λ h4.
                    saved-Sound a c _ inv
                      (λ h. subst (λ q. same_pair c.applied q ≡ true) (sym e) h4))
                  (λ h4.
                    if-Sound a c (has_pair pair c.rejected) _ _
                      (λ h5. saved-Sound a c _ inv (λ h. ground arith))
                      (λ h5.
                        if-Sound a c (leb max_probes (length c.rejected)) _ _
                          (λ h6. saved-Sound a c s inv (λ h. ground arith))
                          (λ h6. probe-Sound a pair s c h5 h6 u e inv))))))

pub sync-Sound :
    (clean : Bytes → Bytes) (a : Answer) (session model requested : Bytes) (c : Effort)
    → Inv c
    → Sound a c (sync clean a session model requested c)
unfolding sync
sync-Sound clean a session model requested c inv =
    let value = normalize clean requested in
    let s : Status = record {
      state = unknown;
      model = model;
      requested = value;
      applied = if c.applied.model == model then c.applied.effort else [];
      rejected = false;
    } in
    if-Sound a c
      (is_empty model || ltb 256 (length model) || is_empty session || ltb 1024 (length session)) _
      _ (λ h. record { inv = inv; kept = refl; new_pair = λ p e. ground arith })
      (λ h.
        if-Sound a c (is_empty value) _ _ (λ k. saved-Sound a c s inv (λ e. ground arith))
          (λ k. sync_pair-Sound a (record { model = model; effort = value }) s c refl refl inv))
