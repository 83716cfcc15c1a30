-- ===== src/Relay/Sealing.antt =====
-- `Seal` takes the longest prefix of the queue that fits into one frame.
use dax_kiro_proxy.Common.{
  ℕ, ◌+◌, ◌≤◌, ◌<◌, ◌≡◌, refl, sym, ap, ◌∙◌, true, false, ◌⊎◌, inl, inr, List, [], ◌∷◌, ◌++◌, some,
  map, arith, Bytes, Bytes_eq, ==_iff, length, drop, drop_of_append, keys-append, length-keys,
  lookup, keys, UniqueKeys, append_assoc, Bool-cases, ltb, subst,
}
use dax_kiro_proxy.Relay.Content.{max_batch_bytes}
use dax_kiro_proxy.Relay.State.{Broker, PendingCall, Use, Batch}
use dax_kiro_proxy.Relay.Batches.{take_batch, seal}
use dax_kiro_proxy.Relay.Answers.{Entries, sizes}
use dax_kiro_proxy.Relay.Invariant.{Inv}

-- The calls of entries.
abbrev pub uses : Entries → List Use
uses = map (λ (e : Bytes × PendingCall). e.1.tool_use)

-- No more calls would fit: there are none, or the next is too large.
abbrev pub IsFull : ℕ → Entries → Type 0
IsFull total [] = Unit {0}
IsFull total ((id, p) ∷ rest) = max_batch_bytes < total + p.size

lookup-middle :
    (front back : Entries) (id : Bytes) (p : PendingCall)
    → UniqueKeys (front ++ (id, p) ∷ back)
    → lookup id (front ++ (id, p) ∷ back) ≡ some p
unfolding lookup
lookup-middle [] back id p u = ground (arith, ==_iff id id)
lookup-middle ((j, q) ∷ front) back id p u =
    ground (arith, ==_iff j id, lookup-middle front back id p u.1)

-- The cut that the loop of `Seal` makes in the calls not yet looked at.
record Taken (pending : Entries) (total : ℕ) (ahead : Entries) : Type 0 where
  front : Entries
  back : Entries
  cut : ahead ≡ front ++ back
  ids : (take_batch pending total (keys ahead)).0 ≡ keys front
  calls : (take_batch pending total (keys ahead)).1 ≡ uses front
  fits : (front ≡ []) ⊎ (total + sizes front ≤ max_batch_bytes)
  full : IsFull (total + sizes front) back

take_batch-stop :
    (pending : Entries) (total : ℕ) (id : Bytes) (ids : List Bytes) (p : PendingCall)
    → lookup id pending ≡ some p
    → ltb max_batch_bytes (total + p.size) ≡ true
    → take_batch pending total (id ∷ ids) ≡ ([], [])
unfolding take_batch
take_batch-stop pending total id ids p e f = ground arith

take_batch-more :
    (pending : Entries) (total : ℕ) (id : Bytes) (ids : List Bytes) (p : PendingCall)
    → lookup id pending ≡ some p
    → ltb max_batch_bytes (total + p.size) ≡ false
    → take_batch pending total (id ∷ ids) ≡ (
      id ∷ (take_batch pending (total + p.size) ids).0,
      p.tool_use ∷ (take_batch pending (total + p.size) ids).1,
    )
unfolding take_batch
take_batch-more pending total id ids p e f = ground arith

take_batch-Taken :
    (seen ahead pending : Entries) (total : ℕ)
    → pending ≡ seen ++ ahead
    → UniqueKeys pending
    → Taken pending total ahead
unfolding take_batch
take_batch-Taken seen [] pending total e u = record {
  front = [];
  back = [];
  cut = refl;
  ids = refl;
  calls = refl;
  fits = inl refl;
  full = tt;
}
take_batch-Taken seen ((id, p) ∷ ahead) pending total e u =
    let here : lookup id pending ≡ some p =
      rw e (lookup-middle seen ahead id p (subst UniqueKeys e u)) in
    elim (Bool-cases (ltb max_batch_bytes (total + p.size))) [
      | inl large ↦ record {
        front = [];
        back = (id, p) ∷ ahead;
        cut = refl;
        ids =
            ap (λ (t : List Bytes × List Use). t.0)
              (take_batch-stop pending total id (keys ahead) p here large);
        calls =
            ap (λ (t : List Bytes × List Use). t.1)
              (take_batch-stop pending total id (keys ahead) p here large);
        fits = inl refl;
        full = ground arith;
      }
      | inr small ↦
          let rest =
            take_batch-Taken (seen ++ (id, p) ∷ []) ahead pending (total + p.size)
              (e ∙ sym (append_assoc seen ((id, p) ∷ []) ahead)) u in
          let step = take_batch-more pending total id (keys ahead) p here small in
          record {
            front = (id, p) ∷ rest.front;
            back = rest.back;
            cut = ap (◌∷◌ (id, p)) rest.cut;
            ids = ap (λ (t : List Bytes × List Use). t.0) step ∙ ap (◌∷◌ id) rest.ids;
            calls = ap (λ (t : List Bytes × List Use). t.1) step ∙ ap (◌∷◌ p.tool_use) rest.calls;
            fits = inr (ground (arith, rest.fits));
            full = subst (λ n. IsFull n rest.back) (omega arith) rest.full;
          }
    ]

nil_of_length : (xs : List Bytes) → length xs ≡ 0 → xs ≡ []
nil_of_length [] e = refl
nil_of_length (x ∷ xs) e = absurd (omega arith)

fits_found :
    (front : Entries)
    → 1 ≤ length front
    → (front ≡ []) ⊎ (0 + sizes front ≤ max_batch_bytes)
    → sizes front ≤ max_batch_bytes
fits_found front l (inl e) = absurd (omega (arith, ap length e))
fits_found front l (inr h) = omega arith

-- A successful `Seal`.
pub record Seals (b c : Broker) (batch : Batch) : Type 0 where
  pub front : Entries
  pub back : Entries
  pub cut : b.pending ≡ front ++ back
  pub some_call : 1 ≤ length front
  pub sealed : c.sealed ≡ keys front
  pub queued : c.queued ≡ keys back
  pub calls : batch.calls ≡ uses front
  pub fits : sizes front ≤ max_batch_bytes
  pub full : IsFull (sizes front) back
  pub kept : c.pending ≡ b.pending

seal-parts :
    (b : Broker) (batch : Batch)
    → (seal b).1.0 ≡ some batch
    → (length b.sealed ≡ 0)
      × (1 ≤ length (take_batch b.pending 0 b.queued).0)
      × ((seal b).0.sealed ≡ (take_batch b.pending 0 b.queued).0)
      × ((seal b).0.queued ≡ drop (length (take_batch b.pending 0 b.queued).0) b.queued)
      × (batch.calls ≡ (take_batch b.pending 0 b.queued).1)
      × ((seal b).0.pending ≡ b.pending)
unfolding seal
seal-parts b batch e = ground arith

-- A successful `Seal` takes calls from the front of the queue, at least one: the batch holds them in
-- the order in which they came, they fit into one frame, the call behind them, if any, would not fit
-- any more, and stays queued with the calls that follow it; every call stays suspended.
pub seal-Seals :
    (b : Broker) (batch : Batch) → Inv b → (seal b).1.0 ≡ some batch → Seals b (seal b).0 batch
seal-Seals b batch v e =
    let (none_sealed, some_call, sealed', queued', calls', kept') = seal-parts b batch e in
    let order : keys b.pending ≡ b.queued =
      v.ordered ∙ ap (λ ids. ids ++ b.queued) (nil_of_length b.sealed none_sealed) in
    let t = take_batch-Taken [] b.pending b.pending 0 refl v.unique in
    let ids : (take_batch b.pending 0 b.queued).0 ≡ keys t.front = rw order at t.ids in
    let parts : b.queued ≡ keys t.front ++ keys t.back =
      sym order ∙ ap keys t.cut ∙ keys-append t.front t.back in
    let size : length (keys t.front) ≡ length t.front = length-keys t.front in
    let found : 1 ≤ length t.front = omega (arith, some_call, ap length ids, size) in
    record {
      front = t.front;
      back = t.back;
      cut = t.cut;
      some_call = found;
      sealed = sealed' ∙ ids;
      queued =
          queued'
          ∙ ap (λ (ks : List Bytes). drop (length ks) b.queued) ids
          ∙ ap (drop (length (keys t.front))) parts
          ∙ drop_of_append (keys t.front) (keys t.back);
      calls = calls' ∙ (rw order at t.calls);
      fits = fits_found t.front found t.fits;
      full = subst (λ n. IsFull n t.back) (omega arith) t.full;
      kept = kept';
    }
