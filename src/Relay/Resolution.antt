-- ===== src/Relay/Resolution.antt =====
-- `Resolve` as a transaction: either nothing changes, or the delivered batch is answered exactly.
use dax_kiro_proxy.Common.{
  ℕ, suc, ◌+◌, ◌≡◌, refl, ap, subst, ◌∙◌, true, ◌⊎◌, inl, inr, List, [], ◌∷◌, ◌++◌, none, some, map,
  arith, Bytes, Bytes_eq, length, lookup, insert, keys, UniqueKeys, insert-fresh,
  UniqueKeys-append_one, append_assoc, append-nil, Option-cases,
}
use dax_kiro_proxy.Relay.Content.{ToolResult, Result, Encoding, validate_result, prepare_from}
use dax_kiro_proxy.Common.{is_some}
use dax_kiro_proxy.Relay.State.{Broker}
use dax_kiro_proxy.Relay.Batches.{matches_delivered, prepare_results, resolve}
use dax_kiro_proxy.Relay.Answers.{Entries, Answers, resolve_cases}
use dax_kiro_proxy.Relay.Invariant.{Inv}

-- The results, by identifier.
abbrev pub by_id : List Result → List (Bytes × ToolResult)
by_id = map (λ (r : Result). (r.id, r.value))

validate_result-same :
    (encoding : Encoding) (r v : ToolResult) → validate_result encoding r ≡ some v → v ≡ r
unfolding validate_result
validate_result-same encoding r v e = ground arith

-- `prepareResults` keeps every result as it is, and refuses an identifier that comes twice.
prepare_from-by_id :
    (encoding : Encoding) (total : ℕ) (prepared values : List (Bytes × ToolResult))
    (results : List Result)
    → UniqueKeys prepared
    → prepare_from encoding total prepared results ≡ some values
    → (values ≡ prepared ++ by_id results) × UniqueKeys values
unfolding prepare_from
prepare_from-by_id encoding total prepared values [] u e =
    (ground (arith, append-nil prepared), subst UniqueKeys (ground arith) u)
prepare_from-by_id encoding total prepared values (r ∷ rs) u e =
    elim (Option-cases (lookup r.id prepared)) [
      | inr (v, twice) ↦ ground arith
      | inl fresh ↦ elim (Option-cases (validate_result encoding r.value)) [
        | inl bad ↦ ground arith
        | inr (v, ok) ↦
            let size = encoding.encoded_length v in
            let same = validate_result-same encoding r.value v ok in
            let added = insert-fresh r.id v prepared fresh in
            let rest : prepare_from encoding (total + size) (insert r.id v prepared) rs
                ≡ some values =
              ground arith in
            let (shape, unique) =
              prepare_from-by_id encoding (total + size) (insert r.id v prepared) values rs
                (rw added (UniqueKeys-append_one r.id v prepared fresh u)) rest in
            (
              shape
                  ∙ ap (λ m. m ++ by_id rs) added
                  ∙ append_assoc prepared ((r.id, v) ∷ []) (by_id rs)
                  ∙ ap (λ w. prepared ++ (r.id, w) ∷ by_id rs) same,
              unique,
            )
      ]
    ]

-- The effect of a successful `Resolve`: `front` are the calls of the delivered batch.
pub record IsResolution (results : List Result) (b c : Broker) : Type 0 where
  pub front : Entries
  pub back : Entries
  pub sent : List (ℕ × ToolResult)
  pub cut : b.pending ≡ front ++ back
  pub batch : keys front ≡ b.sealed
  pub rest : keys back ≡ b.queued
  pub as_many : length b.sealed ≡ length results
  pub distinct : UniqueKeys (by_id results)
  pub answers : Answers (by_id results) front sent
  pub answered : c.finished ≡ b.finished ++ sent
  pub suspended : c.pending ≡ back
  pub queue_kept : c.queued ≡ b.queued
  pub no_batch : c.sealed ≡ []

length-by_id : (results : List Result) → length (by_id results) ≡ length results
length-by_id [] = refl
length-by_id (r ∷ rs) = ap suc (length-by_id rs)

matched-count :
    (values : List (Bytes × ToolResult)) (b : Broker)
    → matches_delivered values b ≡ true
    → length b.sealed ≡ length values
unfolding matches_delivered
matched-count values b h = ground arith

prepare_results-by_id :
    (encoding : Encoding) (owner : Bytes) (results : List Result) (b : Broker)
    (values : List (Bytes × ToolResult))
    → prepare_results encoding owner results b ≡ some values
    → (values ≡ by_id results) × UniqueKeys values
unfolding prepare_results
prepare_results-by_id encoding owner results b values e =
    prepare_from-by_id encoding 0 [] values results tt (ground arith)

-- `Resolve` either returns an error and changes nothing, or returns no error, and then the results
-- have distinct identifiers and are as many as the calls of the batch, every call of the batch is answered by the result with its
-- identifier, in the batch's order, and the queued calls stay suspended.
pub resolve_atomic :
    (encoding : Encoding) (owner : Bytes) (results : List Result) (b : Broker)
    → Inv b
    → (((resolve encoding owner results b).0 ≡ b)
        × (is_some (resolve encoding owner results b).1 ≡ true))
      ⊎ (((resolve encoding owner results b).1 ≡ none)
          × IsResolution results b (resolve encoding owner results b).0)
resolve_atomic encoding owner results b v =
    elim (resolve_cases encoding owner results b v.ordered v.unique) [
      | inl same ↦ inl (same.0, rw same.1)
      | inr r ↦
          let (shape, unique) =
            prepare_results-by_id encoding owner results b r.values r.prepared in
          inr (
            r.no_error,
            record {
              front = r.front;
              back = r.back;
              sent = r.sent;
              cut = r.cut;
              batch = r.front_keys;
              rest = r.back_keys;
              as_many = matched-count r.values b r.matched ∙ ap length shape ∙ length-by_id results;
              distinct = rw shape at unique;
              answers = subst (λ m. Answers m r.front r.sent) shape r.answers;
              answered = rw r.state;
              suspended = rw r.state;
              queue_kept = rw r.state;
              no_batch = rw r.state;
            },
          )
    ]
