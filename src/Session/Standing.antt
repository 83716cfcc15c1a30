-- ===== src/Session/Standing.antt =====
-- internal/session/continuation.go: which system messages a continuation may carry behind the results.
use dax_kiro_proxy.Common.{
  ℕ, zero, suc, ltb, ◌&&◌, ◌↔◌, length-append, append_assoc, subst, ◌+◌, ◌-◌, ◌<◌, ◌≤◌, ◌≡◌, refl,
  ap, sym, ◌∙◌, Bool, true, false, List, [], ◌∷◌, ◌++◌, none, some, arith, Bytes_eq, ◌==◌, ==_iff,
  ==_refl, all, length, take, drop, length-drop, take-append-drop, get_elem?, Option-cases, inl,
  inr,
}
use dax_kiro_proxy.Json.{Json}
use dax_kiro_proxy.Anthropic.{Message, system}
use dax_kiro_proxy.History.{Node, Node_eq, Snapshot, Hasher, Crypto, message, nodes_from}
use dax_kiro_proxy.History.Extension.{length-nodes_from}
use dax_kiro_proxy.Session.Continuation.{is_instruction, system_at, repeats_from, repeated_system}

-- Whether the last node of a list is a system message.
abbrev pub ends_with_system : List Node → Bool
ends_with_system [] = false
ends_with_system (n ∷ []) = n.role == system
ends_with_system (n ∷ n' ∷ ns) = ends_with_system (n' ∷ ns)

drop-get_elem? :
    (xs : List Node) (i : ℕ) (n : Node) → get_elem? xs i ≡ some n → drop i xs ≡ n ∷ drop (i + 1) xs
drop-get_elem? [] i n h = ground arith
drop-get_elem? (x ∷ xs) zero n h = ground arith
drop-get_elem? (x ∷ xs) (suc i) n h =
    let next : suc (i + 1) ≡ suc i + 1 = omega arith in
    drop-get_elem? xs i n h ∙ ap (λ j. n ∷ drop j (x ∷ xs)) next

ends_with_system-take :
    (s : Snapshot) (xs : List Node) (i : ℕ)
    → i < length xs
    → ends_with_system (take (suc i) xs)
      ≡ (elim (get_elem? xs i) as (λ x. Bool) [ none ↦ false | some n ↦ n.role == system ])
ends_with_system-take s [] i h = ground arith
ends_with_system-take s (x ∷ xs) zero h = refl
ends_with_system-take s (x ∷ []) (suc i) h = ground arith
ends_with_system-take s (x ∷ y ∷ xs) (suc i) h =
    ends_with_system-take s (y ∷ xs) i (omega (arith, h))

one_left : (xs : List Node) → length xs ≡ 1 → (n : Node) × (xs ≡ n ∷ [])
one_left [] h = ground arith
one_left (n ∷ []) h = (n, refl)
one_left (n ∷ n' ∷ ns) h = ground arith

module _ (json : Json) (crypto : Crypto) (hasher : Hasher) where
  -- A suffix that repeats a complete sequence of stored system messages: `again` are its nodes.
  pub record Restates (s : Snapshot) (suffix : List Message) : Type 0 where
    pub before : List Node
    pub again : List Node
    pub last : Node
    pub cut : s.nodes ≡ before ++ (again ++ last ∷ [])
    pub same : nodes_from json crypto hasher suffix ≡ some again
    pub texts : all is_instruction suffix ≡ true
    pub complete : ends_with_system before ≡ false

  repeats_from-nodes :
      (s : Snapshot) (i : ℕ) (ms : List Message)
      → repeats_from json crypto hasher s i ms ≡ true
      → (again : List Node) × (nodes_from json crypto hasher ms ≡ some again)
        × (drop i s.nodes ≡ again ++ drop (i + length ms) s.nodes)
        × (all is_instruction ms ≡ true)
  unfolding repeats_from nodes_from
  repeats_from-nodes s i [] h = ([], refl, ground arith, refl)
  repeats_from-nodes s i (m ∷ ms) h = elim (Option-cases (message json crypto hasher m)) [
    | inl e ↦ ground arith
    | inr (n, e) ↦ elim (Option-cases (get_elem? s.nodes i)) [
      | inl f ↦ ground arith
      | inr (n', f) ↦
          let (again, made, there, texts) = repeats_from-nodes s (i + 1) ms (ground arith) in
          let index : i + 1 + length ms ≡ i + suc (length ms) = omega arith in
          let same : n ≡ n' = (==_iff n n').0 (ground arith) in
          (
            n ∷ again,
            rw (e, nodes_from, made) refl,
            drop-get_elem? s.nodes i n' f
                ∙ ap (◌∷◌ n') there
                ∙ ap (λ j. n' ∷ (again ++ drop j s.nodes)) index
                ∙ ap (λ x. x ∷ (again ++ drop (i + suc (length ms)) s.nodes)) (sym same),
            ground arith,
          )
    ]
  ]

  repeated_system-parts :
      (s : Snapshot) (m : Message) (ms : List Message)
      → let start = length s.nodes - 1 - length (m ∷ ms) in
        repeated_system json crypto hasher s (m ∷ ms) ≡ true
        → (1 + length (m ∷ ms) ≤ length s.nodes)
          × ((ltb 0 start && system_at s (start - 1)) ≡ false)
          × (repeats_from json crypto hasher s start (m ∷ ms) ≡ true)
  unfolding repeated_system
  repeated_system-parts s m ms h = ground arith

  Restates-accepted :
      (s : Snapshot) (m : Message) (ms : List Message)
      → repeated_system json crypto hasher s (m ∷ ms) ≡ true
      → Restates s (m ∷ ms)
  Restates-accepted s m ms h =
      let start = length s.nodes - 1 - length (m ∷ ms) in
      let (room, first, repeats) = repeated_system-parts s m ms h in
      let (again, made, there, texts) = repeats_from-nodes s start (m ∷ ms) repeats in
      let (last, end_) =
        one_left (drop (start + length (m ∷ ms)) s.nodes)
          (length-drop (start + length (m ∷ ms)) s.nodes ∙ omega (arith, room)) in
      record {
        before = take start s.nodes;
        again = again;
        last = last;
        cut =
            sym (take-append-drop start s.nodes)
            ∙ ap (λ ns. take start s.nodes ++ ns) (there ∙ ap (λ ns. again ++ ns) end_);
        same = made;
        texts = texts;
        complete = first_of start (omega (arith, room)) first;
      }
    where
      first_of :
          (i : ℕ)
          → i ≤ length s.nodes
          → (ltb 0 i && system_at s (i - 1)) ≡ false
          → ends_with_system (take i s.nodes) ≡ false
      first_of zero le f = refl
      first_of (suc i) le f =
          ends_with_system-take s s.nodes i (omega (arith, le)) ∙ ground (arith, f)

get_elem?-behind :
    (front tail : List Node) (n : Node) → get_elem? (front ++ n ∷ tail) (length front) ≡ some n
get_elem?-behind [] tail n = refl
get_elem?-behind (x ∷ front) tail n = get_elem?-behind front tail n

take-front : (front tail : List Node) → take (length front) (front ++ tail) ≡ front
take-front [] tail = refl
take-front (x ∷ front) tail = ap (◌∷◌ x) (take-front front tail)

module _ (json : Json) (crypto : Crypto) (hasher : Hasher) where
  nodes_from-parts :
      (m : Message) (ms : List Message) (again : List Node)
      → nodes_from json crypto hasher (m ∷ ms) ≡ some again
      → (n : Node) × (ns : List Node) × (message json crypto hasher m ≡ some n)
        × (nodes_from json crypto hasher ms ≡ some ns)
        × (again ≡ n ∷ ns)
  unfolding nodes_from
  nodes_from-parts m ms again h = elim (Option-cases (message json crypto hasher m)) [
    | inl e ↦ ground arith
    | inr (n, e) ↦ elim (Option-cases (nodes_from json crypto hasher ms)) [
      | inl f ↦ ground arith
      | inr (ns, f) ↦ (n, ns, e, f, ground arith)
    ]
  ]

  repeats_from-there :
      (s : Snapshot) (front again tail : List Node) (ms : List Message)
      → s.nodes ≡ front ++ (again ++ tail)
      → nodes_from json crypto hasher ms ≡ some again
      → all is_instruction ms ≡ true
      → repeats_from json crypto hasher s (length front) ms ≡ true
  unfolding repeats_from
  repeats_from-there s front again tail [] cut made texts = refl
  repeats_from-there s front again tail (m ∷ ms) cut made texts =
      let (n, ns, here, rest, shape) = nodes_from-parts m ms again made in
      let joined : s.nodes ≡ front ++ n ∷ (ns ++ tail) =
        cut ∙ ap (λ x. front ++ (x ++ tail)) shape in
      let at : get_elem? s.nodes (length front) ≡ some n =
        ap (λ x. get_elem? x (length front)) joined ∙ get_elem?-behind front (ns ++ tail) n in
      let later =
        repeats_from-there s (front ++ n ∷ []) ns tail ms
          (joined ∙ sym (append_assoc front (n ∷ []) (ns ++ tail))) rest (ground arith) in
      let next : repeats_from json crypto hasher s (length front + 1) ms ≡ true =
        subst (λ i. repeats_from json crypto hasher s i ms ≡ true) (length-append front (n ∷ []))
          later in
      rw (here, at) (ground (arith, next, ==_refl n))

  accepted-Restates :
      (s : Snapshot) (m : Message) (ms : List Message)
      → Restates json crypto hasher s (m ∷ ms)
      → repeated_system json crypto hasher s (m ∷ ms) ≡ true
  unfolding repeated_system
  accepted-Restates s m ms r =
      let many = length-nodes_from json crypto hasher (m ∷ ms) r.again r.same in
      let sizes : length s.nodes ≡ length r.before + length (m ∷ ms) + 1 =
        ap length r.cut
        ∙ omega (
          arith,
          length-append r.before (r.again ++ r.last ∷ []),
          length-append r.again (r.last ∷ []),
          many,
        ) in
      let place : length s.nodes - 1 - length (m ∷ ms) ≡ length r.before = omega (arith, sizes) in
      let repeats =
        repeats_from-there s r.before r.again (r.last ∷ []) (m ∷ ms) r.cut r.same r.texts in
      let first : (ltb 0 (length s.nodes - 1 - length (m ∷ ms))
            && system_at s (length s.nodes - 1 - length (m ∷ ms) - 1))
          ≡ false =
        first_of (length s.nodes - 1 - length (m ∷ ms)) (omega (arith, sizes)) (
          ap (λ i. take i s.nodes) place
          ∙ ap (take (length r.before)) r.cut
          ∙ take-front r.before (r.again ++ r.last ∷ [])) in
      let room : ltb (length s.nodes) (1 + length (m ∷ ms)) ≡ false = ground (arith, sizes) in
      let there : repeats_from json crypto hasher s (length s.nodes - 1 - length (m ∷ ms)) (m ∷ ms)
          ≡ true =
        subst (λ i. repeats_from json crypto hasher s i (m ∷ ms) ≡ true) (sym place) repeats in
      rw (room, first, there) (ground arith)
    where
      first_of :
          (i : ℕ)
          → i ≤ length s.nodes
          → take i s.nodes ≡ r.before
          → (ltb 0 i && system_at s (i - 1)) ≡ false
      first_of zero le e = ground arith
      first_of (suc i) le e = ground (
        arith,
        sym (ends_with_system-take s s.nodes i (omega (arith, le))),
        ap ends_with_system e ∙ r.complete,
      )

  -- `repeatedSystem` accepts the messages behind the results, of which there is at least one, if and
  -- only if they are system messages of texts only, their nodes are exactly those directly in front of
  -- the last stored node, and these do not follow a further system message.
  pub repeated_system-Restates :
      (s : Snapshot) (m : Message) (ms : List Message)
      → (repeated_system json crypto hasher s (m ∷ ms) ≡ true)
        ↔ Restates json crypto hasher s (m ∷ ms)
  repeated_system-Restates s m ms =
      (Restates-accepted json crypto hasher s m ms, accepted-Restates s m ms)
