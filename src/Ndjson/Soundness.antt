-- ===== src/Ndjson/Soundness.antt =====
-- What the check of `Object` accepts is an object of the grammar, and the fuel never runs out.
use dax_kiro_proxy.Common.{
  ℕ, zero, suc, ◌+◌, ◌≤◌, ◌<◌, ◌≡◌, ◌≢◌, ◌↔◌, ◌⊎◌, refl, sym, ap, subst, ◌∙◌, false, inl, inr, List,
  [], ◌∷◌, some, arith, Bytes, Bytes_eq, ◌==◌, any, length, Bool-cases, Option-cases,
}
use dax_kiro_proxy.Json.{
  Token, open_brace, close_brace, open_bracket, close_bracket, string, scalar,
}
use dax_kiro_proxy.Ndjson.{
  Scan, rest, invalid, exhausted, max_depth, more, Close, brace, bracket, read_key, finish,
  read_value, scan, members, document, and_then,
}
use dax_kiro_proxy.Ndjson.Grammar.{
  Value, plain, text, object, array, Members, no_member, member, Items, no_item, item, value_tokens,
  member_tokens, item_tokens, ValueOk, MembersOk, ItemsOk, nested, value_tokens-length,
  members_complete,
}

-- Tokens that an object or array of the grammar, and its end, cut off.
abbrev Shape : Close → ℕ → List Bytes → List Token → List Token → Type 0
Shape brace d seen ts us =
    (m : Members) × (ts ≡ member_tokens m (close_brace ∷ us)) × MembersOk d seen m
Shape bracket d seen ts us = (i : Items) × (ts ≡ item_tokens i (close_bracket ∷ us)) × ItemsOk d i

Scan-cases : (s : Scan) → ((ts : List Token) × (s ≡ rest ts)) ⊎ ((s ≡ invalid) ⊎ (s ≡ exhausted))
Scan-cases (rest ts) = inl (ts, refl)
Scan-cases invalid = inr (inl refl)
Scan-cases exhausted = inr (inr refl)

finish-Shape :
    (end : Close) (d : ℕ) (seen : List Bytes) (ts us : List Token)
    → finish end ts ≡ rest us
    → Shape end d seen ts us
unfolding finish member_tokens item_tokens MembersOk ItemsOk
finish-Shape brace d seen (close_brace ∷ ts) us e = (no_member, ground arith, tt)
finish-Shape bracket d seen (close_bracket ∷ ts) us e = (no_item, ground arith, tt)
finish-Shape _ d seen _ us e = ground arith

-- One round of the loop that does not end it.
record Round (fuel depth : ℕ) (end : Close) (seen : List Bytes) (ts : List Token) : Type 0 where
  seen' : List Bytes
  ts' : List Token
  key : read_key end seen ts ≡ some (seen', ts')
  step :
      scan (suc fuel) depth end seen ts
      ≡ and_then (read_value (nested fuel depth) ts') (λ us. scan fuel depth end seen' us)

round :
    (fuel depth : ℕ) (end : Close) (seen : List Bytes) (ts : List Token)
    → (scan (suc fuel) depth end seen ts ≡ finish end ts)
      ⊎ ((scan (suc fuel) depth end seen ts ≡ invalid) ⊎ Round fuel depth end seen ts)
unfolding scan
round fuel depth end seen ts = elim (Bool-cases (more ts)) [
  | inr stop ↦ inl (rw (stop, scan))
  | inl go ↦ elim (Option-cases (read_key end seen ts)) [
    | inl bad_key ↦ inr (inl (rw (go, scan) (rw (bad_key, scan))))
    | inr ((seen', ts'), key) ↦ inr (
        inr (record { seen' = seen'; ts' = ts'; key = key; step = rw (go, scan) (rw (key, scan)) }))
  ]
]

-- The key that a round read.
read_key-parts :
    (end : Close) (seen seen' : List Bytes) (ts ts' : List Token)
    → read_key end seen ts ≡ some (seen', ts')
    → ((end ≡ bracket) × (ts ≡ ts') × (seen' ≡ seen))
      ⊎ ((k : Bytes) × (end ≡ brace)
          × (ts ≡ string k ∷ ts')
          × (seen' ≡ k ∷ seen)
          × (any (λ j. j == k) seen ≡ false))
unfolding read_key
read_key-parts bracket seen seen' ts ts' e = ground arith
read_key-parts brace seen seen' (string k ∷ ts) ts' e =
    inr (k, ground arith, ground arith, ground arith, ground arith)
read_key-parts brace seen seen' _ ts' e = ground arith

read_value-Value :
    (inside : Close → List Token → Scan) (d : ℕ) (ts us : List Token)
    → ((end : Close) (xs ys : List Token)
        → inside end xs ≡ rest ys
        → (d < max_depth) × Shape end (d + 1) [] xs ys)
    → read_value inside ts ≡ rest us
    → (v : Value) × (ts ≡ value_tokens v us) × ValueOk d v
unfolding read_value value_tokens ValueOk
read_value-Value inside d (open_brace ∷ ts) us h e =
    let (deep, shape) = h brace ts us e in
    let (m, cut, ok) = shape in (object m, ap (◌∷◌ open_brace) cut, (deep, ok))
read_value-Value inside d (open_bracket ∷ ts) us h e =
    let (deep, shape) = h bracket ts us e in
    let (i, cut, ok) = shape in (array i, ap (◌∷◌ open_bracket) cut, (deep, ok))
read_value-Value inside d (string s ∷ ts) us h e = (text s, ground arith, tt)
read_value-Value inside d (scalar ∷ ts) us h e = (plain, ground arith, tt)
read_value-Value inside d _ us h e = ground arith

and_then-rest :
    (s : Scan) (k : List Token → Scan) (r : List Token)
    → and_then s k ≡ rest r
    → (us : List Token) × (s ≡ rest us) × (k us ≡ rest r)
and_then-rest (rest us) k r e = (us, refl, e)
and_then-rest invalid k r e = ground arith
and_then-rest exhausted k r e = ground arith

nested-rest :
    (fuel depth : ℕ) (end : Close) (us r : List Token)
    → nested fuel depth end us ≡ rest r
    → (depth < max_depth) × (scan fuel (depth + 1) end [] us ≡ rest r)
nested-rest fuel depth end us r e = ground arith

-- A member or an item in front of the shape of what follows.
Shape-cons :
    (end : Close) (d : ℕ) (seen seen' : List Bytes) (ts ts' us r : List Token) (v : Value)
    → read_key end seen ts ≡ some (seen', ts')
    → ts' ≡ value_tokens v us
    → ValueOk d v
    → Shape end d seen' us r
    → Shape end d seen ts r
unfolding member_tokens item_tokens MembersOk ItemsOk
Shape-cons bracket d seen seen' ts ts' us r v e cut ok (i, cut', ok') =
    elim (read_key-parts bracket seen seen' ts ts' e) [
      | inl (_, same, _) ↦ (item v i, same ∙ cut ∙ ap (value_tokens v) cut', (ok, ok'))
      | inr other ↦ ground (arith, other.1)
    ]
Shape-cons brace d seen seen' ts ts' us r v e cut ok (m, cut', ok') =
    elim (read_key-parts brace seen seen' ts ts' e) [
      | inl other ↦ ground (arith, other.0)
      | inr (k, same, front, new, fresh) ↦ (
        member k v m,
        front ∙ ap (◌∷◌ (string k)) (cut ∙ ap (value_tokens v) cut'),
        (fresh, ok, subst (λ ks. MembersOk d ks m) new ok'),
      )
    ]

-- Soundness, with any fuel.
scan-Shape :
    (fuel depth : ℕ) (end : Close) (seen : List Bytes) (ts r : List Token)
    → scan fuel depth end seen ts ≡ rest r
    → Shape end depth seen ts r
scan-Shape zero depth end seen ts r e = unfold scan in (ground arith)
scan-Shape (suc fuel) depth end seen ts r e = elim (round fuel depth end seen ts) [
  | inl stop ↦ finish-Shape end depth seen ts r (sym stop ∙ e)
  | inr (inl bad_key) ↦ ground arith
  | inr (inr more_) ↦
      let (us, value, others) = and_then-rest _ _ r (sym more_.step ∙ e) in
      let (v, cut, ok) =
        read_value-Value (nested fuel depth) depth more_.ts' us
          (λ end' xs ys f.
            let (deep, inner) = nested-rest fuel depth end' xs ys f in
            (deep, scan-Shape fuel (depth + 1) end' [] xs ys inner))
          value in
      Shape-cons end depth seen more_.seen' ts more_.ts' us r v more_.key cut ok
        (scan-Shape fuel depth end more_.seen' us r others)
]

finish-ne-exhausted : (end : Close) (ts : List Token) → finish end ts ≡ exhausted → ⊥
unfolding finish
finish-ne-exhausted brace (close_brace ∷ ts) e = ground arith
finish-ne-exhausted bracket (close_bracket ∷ ts) e = ground arith
finish-ne-exhausted _ _ e = ground arith

read_value-exhausted :
    (inside : Close → List Token → Scan) (ts : List Token)
    → read_value inside ts ≡ exhausted
    → (end : Close) × (us : List Token) × (inside end us ≡ exhausted) × (length us < length ts)
unfolding read_value
read_value-exhausted inside (open_brace ∷ ts) e = (brace, ts, e, omega arith)
read_value-exhausted inside (open_bracket ∷ ts) e = (bracket, ts, e, omega arith)
read_value-exhausted inside (string s ∷ ts) e = ground arith
read_value-exhausted inside _ e = ground arith

nested-exhausted :
    (fuel depth : ℕ) (end : Close) (us : List Token)
    → nested fuel depth end us ≡ exhausted
    → scan fuel (depth + 1) end [] us ≡ exhausted
nested-exhausted fuel depth end us e = ground arith

key_length :
    (end : Close) (seen seen' : List Bytes) (ts ts' : List Token)
    → read_key end seen ts ≡ some (seen', ts')
    → length ts' ≤ length ts
unfolding read_key
key_length bracket seen seen' ts ts' e = ground arith
key_length brace seen seen' (string k ∷ ts) ts' e = ground arith
key_length brace seen seen' _ ts' e = ground arith

-- The values that a round reads shorten the tokens.
value_length :
    (fuel depth : ℕ) (ts us : List Token)
    → read_value (nested fuel depth) ts ≡ rest us
    → length us < length ts
value_length fuel depth ts us e =
    let (v, cut, _) =
      read_value-Value (nested fuel depth) depth ts us
        (λ end' xs ys f.
          let (deep, inner) = nested-rest fuel depth end' xs ys f in
          (deep, scan-Shape fuel (depth + 1) end' [] xs ys inner))
        e in
    omega (arith, ap length cut, value_tokens-length v us)

scan-ne-exhausted :
    (fuel depth : ℕ) (end : Close) (seen : List Bytes) (ts : List Token)
    → length ts < fuel
    → scan fuel depth end seen ts ≡ exhausted
    → ⊥
scan-ne-exhausted zero depth end seen ts l e = elim l [ ]
scan-ne-exhausted (suc fuel) depth end seen ts l e = elim (round fuel depth end seen ts) [
  | inl stop ↦ finish-ne-exhausted end ts (sym stop ∙ e)
  | inr (inl bad_key) ↦ ground arith
  | inr (inr more_) ↦
      let shorter = key_length end seen more_.seen' ts more_.ts' more_.key in
      elim (Scan-cases (read_value (nested fuel depth) more_.ts')) [
        | inr (inl wrong) ↦ ground (arith, more_.step)
        | inl (us, value) ↦
            scan-ne-exhausted fuel depth end more_.seen' us
              (omega (arith, shorter, value_length fuel depth more_.ts' us value))
              (ground (arith, more_.step))
        | inr (inr out) ↦
            let (end', us, inner, less) = read_value-exhausted (nested fuel depth) more_.ts' out in
            scan-ne-exhausted fuel (depth + 1) end' [] us (omega (arith, shorter))
              (nested-exhausted fuel depth end' us inner)
      ]
]

members-scan : (fuel : ℕ) (ts : List Token) → members fuel 1 brace ts ≡ scan fuel 1 brace [] ts
unfolding members
members-scan fuel ts = refl

document-rest :
    (ts : List Token)
    → document (open_brace ∷ ts) ≡ rest []
    → members (suc (length ts)) 1 brace ts ≡ rest []
unfolding document
document-rest ts e = ground arith

document-open :
    (ts : List Token)
    → members (suc (length ts)) 1 brace ts ≡ rest []
    → document (open_brace ∷ ts) ≡ rest []
unfolding document
document-open ts e = ground arith

document-head :
    (ts : List Token) → document ts ≡ rest [] → (us : List Token) × (ts ≡ open_brace ∷ us)
unfolding document
document-head (open_brace ∷ us) e = (us, refl)
document-head _ e = ground arith

document-tokens :
    (m : Members)
    → MembersOk 1 [] m
    → document (open_brace ∷ member_tokens m (close_brace ∷ [])) ≡ rest []
document-tokens m ok = document-open _ (
    members-scan _ _
    ∙ members_complete m (suc (length (member_tokens m (close_brace ∷ [])))) 1 [] [] ok
        (omega arith))

-- `Object` accepts the tokens of a frame exactly if they are those of one JSON object in which no
-- object has a key twice and objects and arrays nest at most 64 deep.
pub document_iff :
    (ts : List Token)
    → (document ts ≡ rest [])
      ↔ ((m : Members) × (ts ≡ open_brace ∷ member_tokens m (close_brace ∷ [])) × MembersOk 1 [] m)
document_iff ts = (accepted_shape, λ (m, cut, ok). rw cut (document-tokens m ok))
  where
    accepted_shape :
        document ts ≡ rest []
        → (m : Members) × (ts ≡ open_brace ∷ member_tokens m (close_brace ∷ [])) × MembersOk 1 [] m
    accepted_shape e =
        let (us, start) = document-head ts e in
        let inside = document-rest us (rw start at e) in
        let (m, cut, ok) =
          scan-Shape (suc (length us)) 1 brace [] us [] (sym (members-scan _ us) ∙ inside) in
        (m, start ∙ ap (◌∷◌ open_brace) cut, ok)

document-exhausted :
    (ts : List Token)
    → document (open_brace ∷ ts) ≡ exhausted
    → members (suc (length ts)) 1 brace ts ≡ exhausted
unfolding document
document-exhausted ts e = ground arith

not-open-exhausted :
    (ts : List Token) → document ts ≡ exhausted → (us : List Token) × (ts ≡ open_brace ∷ us)
unfolding document
not-open-exhausted (open_brace ∷ us) e = (us, refl)
not-open-exhausted _ e = ground arith

-- The fuel that `document` gives is enough for every list of tokens.
pub document-ne-exhausted : (ts : List Token) → document ts ≢ exhausted
document-ne-exhausted ts e =
    let (us, start) = not-open-exhausted ts e in
    scan-ne-exhausted (suc (length us)) 1 brace [] us (omega arith)
      (sym (members-scan _ us) ∙ document-exhausted us (rw start at e))
