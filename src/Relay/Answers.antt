-- ===== src/Relay/Answers.antt =====
-- What `Resolve` does to the suspended calls.
use dax_kiro_proxy.Common.{
  ℕ, ◌+◌, ◌-◌, ◌≡◌, refl, ap, ◌∙◌, true, false, not, ◌||◌, ◌⊎◌, inl, inr, List, [], ◌∷◌, ◌++◌, none,
  some, arith, Bytes, Bytes_eq, ℕ_eq, ◌==◌, all, length, lookup, delete, keys, UniqueKeys,
  split_keys, lookup-head, delete-head, append_assoc, append-nil, Option-cases, Bool-cases,
}
use dax_kiro_proxy.Relay.Content.{ToolResult, Result, Encoding}
use dax_kiro_proxy.Common.{is_some}
use dax_kiro_proxy.Relay.State.{results_error, PendingCall, Broker}
use dax_kiro_proxy.Relay.Batches.{answer, matches_delivered, prepare_results, resolve}

abbrev pub Entries : Type 0
Entries = List (Bytes × PendingCall)

abbrev pub sizes : Entries → ℕ
sizes [] = 0
sizes ((k, p) ∷ m) = p.size + sizes m

pub sizes-append : (m n : Entries) → sizes (m ++ n) ≡ sizes m + sizes n
sizes-append [] n = omega arith
sizes-append ((k, p) ∷ m) n = omega (arith, sizes-append m n)

-- The answers of calls whose results are `values`, in the order of the calls.
abbrev pub Answers : List (Bytes × ToolResult) → Entries → List (ℕ × ToolResult) → Type 0
Answers values [] [] = Unit
Answers values [] (r ∷ rs) = ⊥
Answers values (e ∷ es) [] = ⊥
Answers values ((id, p) ∷ es) ((handle, value) ∷ rs) =
    (handle ≡ p.handle) × (lookup id values ≡ some value) × Answers values es rs

answered : Broker → ℕ → PendingCall → ToolResult → Entries → Broker
answered b total p v pending = record b {
  finished = b.finished ++ (p.handle, v) ∷ [];
  total = total;
  pending = pending;
}

answer-cons :
    (values : List (Bytes × ToolResult)) (id : Bytes) (ids : List Bytes) (b : Broker)
    (p : PendingCall) (v : ToolResult)
    → lookup id b.pending ≡ some p
    → lookup id values ≡ some v
    → answer values (id ∷ ids) b
      ≡ answer values ids (answered b (b.total - p.size) p v (delete id b.pending))
unfolding answer answered
answer-cons values id ids b p v e f = ground arith

-- The loop of `Resolve` answers the calls of `front`, one after the other, and nothing else.
pub answer_lem :
    (values : List (Bytes × ToolResult)) (front back : Entries) (b : Broker)
    → b.pending ≡ front ++ back
    → UniqueKeys (front ++ back)
    → all (λ id. is_some (lookup id values)) (keys front) ≡ true
    → (sent : List (ℕ × ToolResult)) × Answers values front sent
      × (answer values (keys front) b ≡ record b {
        pending = back;
        total = b.total - sizes front;
        finished = b.finished ++ sent;
      })
unfolding answer answered
answer_lem values [] back b e u h = ([], tt, ground (arith, append-nil b.finished))
answer_lem values ((id, p) ∷ front) back b e u h = elim (Option-cases (lookup id values)) [
  | inl miss ↦ ground arith
  | inr (v, hit) ↦
      let rest : all (λ id. is_some (lookup id values)) (keys front) ≡ true = ground arith in
      let b' = answered b (b.total - p.size) p v (front ++ back) in
      let (sent, ok, same) = answer_lem values front back b' refl u.1 rest in
      let here : lookup id b.pending ≡ some p = rw e (lookup-head id p (front ++ back)) in
      let gone : delete id b.pending ≡ front ++ back =
        rw e (delete-head id p (front ++ back) u.0) in
      let step = answer-cons values id (keys front) b p v here hit in
      (
        (p.handle, v) ∷ sent,
        (refl, hit, ok),
        step
            ∙ ap (λ m. answer values (keys front) (answered b (b.total - p.size) p v m)) gone
            ∙ same
            ∙ ground (arith, append_assoc b.finished ((p.handle, v) ∷ []) sent),
      )
]

-- What a successful `Resolve` found and left.
pub record Resolved (encoding : Encoding) (owner : Bytes) (results : List Result) (b : Broker)
    : Type 0 where
  pub values : List (Bytes × ToolResult)
  pub front : Entries
  pub back : Entries
  pub sent : List (ℕ × ToolResult)
  pub prepared : prepare_results encoding owner results b ≡ some values
  pub matched : matches_delivered values b ≡ true
  pub cut : b.pending ≡ front ++ back
  pub front_keys : keys front ≡ b.sealed
  pub back_keys : keys back ≡ b.queued
  pub answers : Answers values front sent
  pub running : b.err ≡ none
  pub no_error : (resolve encoding owner results b).1 ≡ none
  pub state : (resolve encoding owner results b).0 ≡ record b {
    pending = back;
    total = b.total - sizes front;
    finished = b.finished ++ sent;
    sealed = [];
    delivered = false;
    wake = b.wake || not (length b.queued == 0);
  }

matched-parts :
    (values : List (Bytes × ToolResult)) (b : Broker)
    → matches_delivered values b ≡ true
    → (b.err ≡ none) × (all (λ id. is_some (lookup id values)) b.sealed ≡ true)
unfolding matches_delivered
matched-parts values b h = ground arith

pub resolve_cases :
    (encoding : Encoding) (owner : Bytes) (results : List Result) (b : Broker)
    → keys b.pending ≡ b.sealed ++ b.queued
    → UniqueKeys b.pending
    → (((resolve encoding owner results b).0 ≡ b)
        × ((resolve encoding owner results b).1 ≡ some results_error))
      ⊎ Resolved encoding owner results b
unfolding resolve
resolve_cases encoding owner results b ordered unique =
    elim (Option-cases (prepare_results encoding owner results b)) [
      | inl miss ↦ inl (ground arith)
      | inr (values, prepared) ↦ elim (Bool-cases (matches_delivered values b)) [
        | inr other ↦ inl (ground arith)
        | inl matched ↦
            let (running, found) = matched-parts values b matched in
            let (front, back, cut, front_keys, back_keys) =
              split_keys b.pending b.sealed b.queued ordered in
            let (sent, answers, same) =
              answer_lem values front back b cut (rw cut at unique) (rw front_keys found) in
            inr (record {
              values = values;
              front = front;
              back = back;
              sent = sent;
              prepared = prepared;
              matched = matched;
              cut = cut;
              front_keys = front_keys;
              back_keys = back_keys;
              answers = answers;
              running = running;
              no_error = ground arith;
              state = ground (arith, rw front_keys at same);
            })
      ]
    ]
