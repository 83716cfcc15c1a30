-- ===== src/Ndjson/Grammar.antt =====
-- The check of `Object` against a grammar: the token lists that it accepts are those of one object
-- without a repeated key and within the depth.
use dax_kiro_proxy.Common.{
  ℕ, zero, suc, ◌+◌, ◌≤◌, ◌<◌, ◌≡◌, refl, ◌∙◌, true, false, List, [], ◌∷◌, arith, Bytes, Bytes_eq,
  ◌==◌, any, length, ltb,
}
use dax_kiro_proxy.Json.{
  Token, open_brace, close_brace, open_bracket, close_bracket, string, scalar,
}
use dax_kiro_proxy.Ndjson.{
  Scan, rest, invalid, max_depth, more, Close, brace, bracket, read_key, finish, read_value, scan,
}

mutual
  pub data Value : Type 0 where
    plain : Value
    text : Bytes → Value
    object : Members → Value
    array : Items → Value

  pub data Members : Type 0 where
    no_member : Members
    member : Bytes → Value → Members → Members

  pub data Items : Type 0 where
    no_item : Items
    item : Value → Items → Items

-- The tokens of a value, in front of others.
unfoldable mutual
  pub value_tokens : Value → List Token → List Token
  value_tokens plain ts = scalar ∷ ts
  value_tokens (text s) ts = string s ∷ ts
  value_tokens (object m) ts = open_brace ∷ member_tokens m (close_brace ∷ ts)
  value_tokens (array i) ts = open_bracket ∷ item_tokens i (close_bracket ∷ ts)

  pub member_tokens : Members → List Token → List Token
  member_tokens no_member ts = ts
  member_tokens (member k v m) ts = string k ∷ value_tokens v (member_tokens m ts)

  pub item_tokens : Items → List Token → List Token
  item_tokens no_item ts = ts
  item_tokens (item v i) ts = value_tokens v (item_tokens i ts)

-- A value inside an object or array at depth `d`: its own objects and arrays stay within the depth, and
-- no object has a key twice; `seen` are the keys in front of the members.
unfoldable mutual
  pub ValueOk : ℕ → Value → Type 0
  ValueOk d plain = Unit
  ValueOk d (text s) = Unit
  ValueOk d (object m) = (d < max_depth) × MembersOk (d + 1) [] m
  ValueOk d (array i) = (d < max_depth) × ItemsOk (d + 1) i

  pub MembersOk : ℕ → List Bytes → Members → Type 0
  MembersOk d seen no_member = Unit
  MembersOk d seen (member k v m) =
      (any (λ j. j == k) seen ≡ false) × ValueOk d v × MembersOk d (k ∷ seen) m

  pub ItemsOk : ℕ → Items → Type 0
  ItemsOk d no_item = Unit
  ItemsOk d (item v i) = ValueOk d v × ItemsOk d i

-- The end of an object or array, and what it holds.
abbrev pub close_token : Close → Token
close_token brace = close_brace
close_token bracket = close_bracket

mutual
  unfolding value_tokens member_tokens item_tokens

  pub value_tokens-length : (v : Value) (ts : List Token) → length ts < length (value_tokens v ts)
  value_tokens-length plain ts = omega arith
  value_tokens-length (text s) ts = omega arith
  value_tokens-length (object m) ts = omega (arith, member_tokens-length m (close_brace ∷ ts))
  value_tokens-length (array i) ts = omega (arith, item_tokens-length i (close_bracket ∷ ts))

  pub member_tokens-length :
      (m : Members) (ts : List Token) → length ts ≤ length (member_tokens m ts)
  member_tokens-length no_member ts = omega arith
  member_tokens-length (member k v m) ts =
      omega (arith, value_tokens-length v (member_tokens m ts), member_tokens-length m ts)

  pub item_tokens-length : (i : Items) (ts : List Token) → length ts ≤ length (item_tokens i ts)
  item_tokens-length no_item ts = omega arith
  item_tokens-length (item v i) ts =
      omega (arith, value_tokens-length v (item_tokens i ts), item_tokens-length i ts)

-- The inside of a nested object or array, as `scan` reads it.
abbrev pub nested : ℕ → ℕ → Close → List Token → Scan
nested fuel depth end us = elim (ltb max_depth (depth + 1)) [
  | true ↦ invalid
  | false ↦ scan fuel (depth + 1) end [] us
]

value_more : (v : Value) (ts : List Token) → more (value_tokens v ts) ≡ true
unfolding value_tokens more
value_more plain ts = refl
value_more (text s) ts = refl
value_more (object m) ts = refl
value_more (array i) ts = refl

scan-member :
    (fuel depth : ℕ) (seen : List Bytes) (k : Bytes) (ts us : List Token)
    → any (λ j. j == k) seen ≡ false
    → read_value (nested fuel depth) ts ≡ rest us
    → scan (suc fuel) depth brace seen (string k ∷ ts) ≡ scan fuel depth brace (k ∷ seen) us
unfolding scan more read_key
scan-member fuel depth seen k ts us new e = rw (new, scan) (rw (e, scan))

scan-item :
    (fuel depth : ℕ) (seen : List Bytes) (ts us : List Token)
    → more ts ≡ true
    → read_value (nested fuel depth) ts ≡ rest us
    → scan (suc fuel) depth bracket seen ts ≡ scan fuel depth bracket seen us
unfolding scan read_key
scan-item fuel depth seen ts us m e = rw (m, scan) (rw (e, scan))

scan-end :
    (fuel depth : ℕ) (end : Close) (seen : List Bytes) (ts : List Token)
    → 0 < fuel
    → scan fuel depth end seen (close_token end ∷ ts) ≡ rest ts
unfolding scan more finish
scan-end zero depth end seen ts l = absurd (omega arith)
scan-end (suc fuel) depth brace seen ts l = refl
scan-end (suc fuel) depth bracket seen ts l = refl

nested-deeper :
    (fuel depth : ℕ) (end : Close) (us : List Token)
    → depth < max_depth
    → nested fuel depth end us ≡ scan fuel (depth + 1) end [] us
nested-deeper fuel depth end us l = ground arith

-- Completeness: the tokens of members or items, and their end, are read with the fuel for their length.
mutual
  unfolding value_tokens member_tokens item_tokens ValueOk MembersOk ItemsOk read_value

  read_value_complete :
      (v : Value) (fuel depth : ℕ) (ts : List Token)
      → ValueOk depth v
      → length (value_tokens v ts) < suc fuel
      → read_value (nested fuel depth) (value_tokens v ts) ≡ rest ts
  read_value_complete plain fuel depth ts ok l = refl
  read_value_complete (text s) fuel depth ts ok l = refl
  read_value_complete (object m) fuel depth ts ok l =
      nested-deeper fuel depth brace _ ok.0
      ∙ members_complete m fuel (depth + 1) [] ts ok.1 (omega arith)
  read_value_complete (array i) fuel depth ts ok l =
      nested-deeper fuel depth bracket _ ok.0
      ∙ items_complete i fuel (depth + 1) [] ts ok.1 (omega arith)

  pub members_complete :
      (m : Members) (fuel depth : ℕ) (seen : List Bytes) (ts : List Token)
      → MembersOk depth seen m
      → length (member_tokens m (close_brace ∷ ts)) < fuel
      → scan fuel depth brace seen (member_tokens m (close_brace ∷ ts)) ≡ rest ts
  members_complete no_member fuel depth seen ts ok l =
      scan-end fuel depth brace seen ts (omega arith)
  members_complete (member k v m) zero depth seen ts ok l = elim l [ ]
  members_complete (member k v m) (suc fuel) depth seen ts ok l =
      scan-member fuel depth seen k _ _ ok.0
        (read_value_complete v fuel depth (member_tokens m (close_brace ∷ ts)) ok.1 (omega arith))
      ∙ members_complete m fuel depth (k ∷ seen) ts ok.2
          (omega (arith, value_tokens-length v (member_tokens m (close_brace ∷ ts))))

  items_complete :
      (i : Items) (fuel depth : ℕ) (seen : List Bytes) (ts : List Token)
      → ItemsOk depth i
      → length (item_tokens i (close_bracket ∷ ts)) < fuel
      → scan fuel depth bracket seen (item_tokens i (close_bracket ∷ ts)) ≡ rest ts
  items_complete no_item fuel depth seen ts ok l = scan-end fuel depth bracket seen ts (omega arith)
  items_complete (item v i) zero depth seen ts ok l = elim l [ ]
  items_complete (item v i) (suc fuel) depth seen ts ok l =
      scan-item fuel depth seen _ _ (value_more v (item_tokens i (close_bracket ∷ ts)))
        (read_value_complete v fuel depth (item_tokens i (close_bracket ∷ ts)) ok.0 l)
      ∙ items_complete i fuel depth seen ts ok.1
          (omega (arith, value_tokens-length v (item_tokens i (close_bracket ∷ ts))))
