-- ===== src/Kiro/Probes.antt =====
-- How often the peer is asked for an effort, and what the status says of it.
use dax_kiro_proxy.Common.{
  ◌≤◌, ◌≡◌, refl, sym, ap, ◌∙◌, subst, true, false, not, ◌||◌, List, [], ◌∷◌, ◌++◌, append_assoc,
  append-nil, Option, none, some, ℕ_eq, Bytes_eq, Bytes, length, arith, Post, skip-Post, check,
}
use dax_kiro_proxy.Json.{Json}
use dax_kiro_proxy.Ndjson.{object}
use dax_kiro_proxy.Kiro.Effort.{
  has_effort, Pair, same_pair, has_pair, Effort, new_effort, Answer, sync, advertise,
}
use dax_kiro_proxy.Kiro.Refusals.{
  Event, advertises, changes_model, changes_process, syncs, step, run, refusal, refusals,
  is_current, Distinct, status_pair, Inv,
}
use dax_kiro_proxy.Kiro.Asking.{sync-Sound}

advertise-Inv : (json : Json) (raw : Bytes) (c : Effort) → Inv c → Post Inv (advertise json raw c)
unfolding advertise
advertise-Inv json raw c inv = skip-Post Inv (check _) _ (λ u1.
    skip-Post Inv (object json raw) _ (λ fields. skip-Post Inv (check _) _ (λ u2.
      skip-Post Inv (json.unmarshal_items _) _ (λ commands. skip-Post Inv (check _) _ (λ u3.
        skip-Post Inv (has_effort json commands) _
          (λ available. record { once = inv.once; few = inv.few; honest = inv.honest }))))))

step-Inv :
    (json : Json) (clean : Bytes → Bytes) (e : Event) (c : Effort)
    → Inv c
    → Inv (step json clean e c)
unfolding step
step-Inv json clean (advertises raw) c inv =
    chosen (advertise json raw c) (advertise-Inv json raw c inv)
  where
    chosen : (m : Option Effort) → Post Inv m → Inv (elim m [ none ↦ c | some c' ↦ c' ])
    chosen none h = inv
    chosen (some c') h = h
step-Inv json clean changes_model c inv = record {
  once = inv.once;
  few = inv.few;
  honest = λ h. ground arith;
}
step-Inv json clean changes_process c inv = record {
  once = inv.once;
  few = inv.few;
  honest = λ h. ground arith;
}
step-Inv json clean (syncs a session model requested) c inv =
    (sync-Sound clean a session model requested c inv).inv

run-Inv :
    (json : Json) (clean : Bytes → Bytes) (es : List Event) (c : Effort)
    → Inv c
    → Inv (run json clean es c)
unfolding run
run-Inv json clean [] c inv = inv
run-Inv json clean (e ∷ es) c inv =
    run-Inv json clean es (step json clean e c) (step-Inv json clean e c inv)

honest-status :
    (c : Effort)
    → Inv c
    → (not (is_current c.status.state) || same_pair c.applied (status_pair c.status)) ≡ true
honest-status c inv = ground (arith, inv.honest)

advertise-rejected :
    (json : Json) (raw : Bytes) (c : Effort)
    → Post (λ (c' : Effort). c'.rejected ≡ c.rejected) (advertise json raw c)
unfolding advertise
advertise-rejected json raw c =
    let P : Effort → Type 0 = λ c'. c'.rejected ≡ c.rejected in
    skip-Post P (check _) _ (λ u1. skip-Post P (object json raw) _ (λ fields.
      skip-Post P (check _) _ (λ u2. skip-Post P (json.unmarshal_items _) _ (λ commands.
        skip-Post P (check _) _
          (λ u3. skip-Post P (has_effort json commands) _ (λ available. refl))))))

-- An event adds its refusal, and no event forgets one.
step-rejected :
    (json : Json) (clean : Bytes → Bytes) (e : Event) (c : Effort)
    → Inv c
    → (step json clean e c).rejected ≡ refusal clean e c ++ c.rejected
unfolding step refusal
step-rejected json clean (advertises raw) c inv =
    chosen (advertise json raw c) (advertise-rejected json raw c)
  where
    chosen :
        (m : Option Effort)
        → Post (λ (c' : Effort). c'.rejected ≡ c.rejected) m
        → (elim m as (λ (x : Option Effort). Effort) [ none ↦ c | some c' ↦ c' ]).rejected
          ≡ c.rejected
    chosen none h = refl
    chosen (some c') h = h
step-rejected json clean changes_model c inv = refl
step-rejected json clean changes_process c inv = refl
step-rejected json clean (syncs a session model requested) c inv =
    (sync-Sound clean a session model requested c inv).kept

run-rejected :
    (json : Json) (clean : Bytes → Bytes) (es : List Event) (c : Effort)
    → Inv c
    → (run json clean es c).rejected ≡ refusals json clean es c ++ c.rejected
unfolding run refusals
run-rejected json clean [] c inv = refl
run-rejected json clean (e ∷ es) c inv =
    run-rejected json clean es (step json clean e c) (step-Inv json clean e c inv)
    ∙ ap (λ ps. refusals json clean es (step json clean e c) ++ ps)
        (step-rejected json clean e c inv)
    ∙ sym
        (append_assoc (refusals json clean es (step json clean e c)) (refusal clean e c) c.rejected)

new_effort-Inv : (clean : Bytes → Bytes) (pairs : List Pair) → Inv (new_effort clean pairs)
unfolding new_effort
new_effort-Inv clean pairs = record { once = tt; few = omega arith; honest = λ h. ground arith }

-- The effort of a session lists the refusals of its whole history.
run-refused :
    (json : Json) (clean : Bytes → Bytes) (pairs : List Pair) (es : List Event)
    → (run json clean es (new_effort clean pairs)).rejected
      ≡ refusals json clean es (new_effort clean pairs)
unfolding new_effort
run-refused json clean pairs es =
    run-rejected json clean es (new_effort clean pairs) (new_effort-Inv clean pairs)
    ∙ append-nil (refusals json clean es (new_effort clean pairs))

-- In the whole history of a session, across changes of the model and of the process, the peer refuses
-- no pair twice, and at most 1280 pairs; and whenever the status says "current", the pair of the status
-- is the one that is applied.
pub run-refusals :
    (json : Json) (clean : Bytes → Bytes) (pairs : List Pair) (es : List Event)
    → let c = run json clean es (new_effort clean pairs) in
      Distinct (refusals json clean es (new_effort clean pairs))
      × (length (refusals json clean es (new_effort clean pairs)) ≤ 1280)
      × ((not (is_current c.status.state) || same_pair c.applied (status_pair c.status)) ≡ true)
run-refusals json clean pairs es =
    let c = run json clean es (new_effort clean pairs) in
    let inv = run-Inv json clean es (new_effort clean pairs) (new_effort-Inv clean pairs) in
    (
      subst Distinct (run-refused json clean pairs es) inv.once,
      subst (λ ps. length ps ≤ 1280) (run-refused json clean pairs es) inv.few,
      honest-status c inv,
    )

-- When `Sync` asks the peer for a pair, the peer has not refused that pair at any time before in the
-- history of the session, across changes of the model and of the process.
pub run-sync :
    (json : Json) (clean : Bytes → Bytes) (pairs : List Pair) (es : List Event) (a : Answer)
    (session model requested : Bytes) (p : Pair)
    → (sync clean a session model requested (run json clean es (new_effort clean pairs))).asked
      ≡ some p
    → has_pair p (refusals json clean es (new_effort clean pairs)) ≡ false
run-sync json clean pairs es a session model requested p h =
    let c = run json clean es (new_effort clean pairs) in
    let inv = run-Inv json clean es (new_effort clean pairs) (new_effort-Inv clean pairs) in
    subst (λ ps. has_pair p ps ≡ false) (run-refused json clean pairs es)
      ((sync-Sound clean a session model requested c inv).new_pair p h)
