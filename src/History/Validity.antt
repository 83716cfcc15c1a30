-- ===== src/History/Validity.antt =====
-- Snapshots made by `Complete` from a plan pass `Snapshot.Valid`.
use dax_kiro_proxy.Common.{
  ℕ, zero, suc, ◌*◌, ◌≤◌, ◌<◌, ◌≡◌, refl, ap, ◌∙◌, Bool, true, ◌||◌, ◌⊎◌, inl, inr, List, [], ◌∷◌,
  ◌++◌, Option, none, some, arith, Bytes, Bytes_eq, bytes, ◌==◌, ==_iff, all, any, equal_iff,
  length, drop, last?-append_one, all-append, any-append, get_elem?, ltb, if◌then◌else◌,
  Option-cases, length-append,
}
use dax_kiro_proxy.Json.{Json}
use dax_kiro_proxy.Anthropic.{Block, Message, Request, user, assistant, system}
use dax_kiro_proxy.Anthropic.LatestUser.{latest_user_index-some}
use dax_kiro_proxy.History.{
  Node, Node_eq, Pair_eq, Snapshot, Plan, Hasher, Crypto, digest, message, canonical_blocks,
  nodes_from, nodes, pairs_from, pairs, plan_nodes, plan, complete, valid_node, valid,
  ends_with_assistant, max_nodes, extend_plan,
}
use dax_kiro_proxy.History.Extension.{plan-parts}

-- Numbers that are bytes.
abbrev pub IsBytes : Bytes → Type 0
IsBytes b = all (λ c. ltb c 256) b ≡ true

-- Documented behaviour of the libraries: SHA-256 sums have 32 bytes, and hexadecimal text has two
-- digits a byte and can be decoded.
pub record CryptoLaws (crypto : Crypto) : Type 0 where
  pub mac_length : (k m : Bytes) → length (crypto.hmac_sha256 k m) ≡ 32
  pub mac_bytes : (k m : Bytes) → IsBytes (crypto.hmac_sha256 k m)
  pub encode_length : (b : Bytes) → IsBytes b → length (crypto.hex_encode b) ≡ 2 * length b
  pub decode_encode : (b : Bytes) → IsBytes b → crypto.hex_decode (crypto.hex_encode b) ≡ some b

pairs_from-some :
    (previous : Bytes) (ns : List Node)
    → any (λ n. n.role == user) ns ≡ true
    → 1 ≤ length (pairs_from previous ns)
unfolding pairs_from
pairs_from-some previous [] h = ground arith
pairs_from-some previous (n ∷ ns) h =
    ground (arith, pairs_from-some (if n.role == assistant then n.digest else previous) ns)

any-drop :
    (ns : List Node) (i k : ℕ) (n : Node)
    → get_elem? ns i ≡ some n
    → n.role ≡ user
    → k ≤ i
    → any (λ n. n.role == user) (drop k ns) ≡ true
any-drop [] i k n e u l = ground arith
any-drop (x ∷ ns) zero zero n e u l = ground (arith, ==_iff x.role user)
any-drop (x ∷ ns) zero (suc k) n e u l = absurd (omega arith)
any-drop (x ∷ ns) (suc i) zero n e u l = ground (arith, any-drop ns i zero n e u)
any-drop (x ∷ ns) (suc i) (suc k) n e u l = any-drop ns i k n e u (omega arith)

all-drop : (p : Node → Bool) (ns : List Node) (k : ℕ) → all p ns ≡ true → all p (drop k ns) ≡ true
all-drop p ns zero h = h
all-drop p [] (suc k) h = refl
all-drop p (n ∷ ns) (suc k) h = all-drop p ns k (ground arith)

module _ (json : Json) (crypto : Crypto) (laws : CryptoLaws crypto) where
  -- A digest is the hexadecimal text of 32 bytes.
  digest-hex :
      (h : Hasher) (domain : Bytes) (o : Option Bytes) (d : Bytes)
      → digest json crypto h domain o ≡ some d
      → (b : Bytes) × (length b ≡ 32) × IsBytes b × (crypto.hex_encode b ≡ d)
  unfolding digest
  digest-hex h domain none d e = ground arith
  digest-hex h domain (some v) d e =
      let text = bytes "dax-history-v1" ++ 0 ∷ domain ++ 0 ∷ v in
      (
        crypto.hmac_sha256 h.key text,
        laws.mac_length h.key text,
        laws.mac_bytes h.key text,
        ground arith,
      )

  valid_node_of_hex :
      (n : Node) (b : Bytes)
      → (n.role == user || n.role == assistant || n.role == system) ≡ true
      → length b ≡ 32
      → IsBytes b
      → crypto.hex_encode b ≡ n.digest
      → valid_node crypto n ≡ true
  unfolding valid_node
  valid_node_of_hex n b role l w e = ground (
    arith,
    laws.encode_length b,
    laws.decode_encode b,
    ==_iff (crypto.hex_encode b) n.digest,
    ap length e,
  )

  message-parts :
      (h : Hasher) (m : Message) (n : Node)
      → message json crypto h m ≡ some n
      → (o : Option Bytes) × (digest json crypto h (bytes "message") o ≡ some n.digest)
        × (n.role ≡ m.role)
        × ((m.role == user || m.role == assistant || m.role == system) ≡ true)
  unfolding message
  message-parts h m n e = elim (Option-cases (canonical_blocks json crypto m.content)) [
    | inl miss ↦ ground arith
    | inr (raws, hit) ↦ (json.marshal_message m.role raws, ground arith, ground arith, ground arith)
  ]

  message-valid :
      (h : Hasher) (m : Message) (n : Node)
      → message json crypto h m ≡ some n
      → (valid_node crypto n ≡ true) × (n.role ≡ m.role)
  message-valid h m n e =
      let (o, made, same, role) = message-parts h m n e in
      let (b, l, w, hex) = digest-hex h (bytes "message") o n.digest made in
      (valid_node_of_hex n b (rw same role) l w hex, same)

  nodes_from-valid :
      (h : Hasher) (ms : List Message) (ns : List Node)
      → nodes_from json crypto h ms ≡ some ns
      → all (valid_node crypto) ns ≡ true
  unfolding nodes_from
  nodes_from-valid h [] ns e = ground arith
  nodes_from-valid h (m ∷ ms) [] e = ground arith
  nodes_from-valid h (m ∷ ms) (n ∷ ns) e =
      ground (arith, message-valid h m n, nodes_from-valid h ms ns)

  nodes_from-role :
      (h : Hasher) (ms : List Message) (ns : List Node) (i : ℕ) (m : Message)
      → nodes_from json crypto h ms ≡ some ns
      → get_elem? ms i ≡ some m
      → (n : Node) × (get_elem? ns i ≡ some n) × (n.role ≡ m.role)
  unfolding nodes_from
  nodes_from-role h [] ns i m e g = ground arith
  nodes_from-role h (m ∷ ms) [] i m' e g = ground arith
  nodes_from-role h (m ∷ ms) (n ∷ ns) zero m' e g = (n, refl, ground (arith, message-valid h m n))
  nodes_from-role h (m ∷ ms) (n ∷ ns) (suc i) m' e g = nodes_from-role h ms ns i m' (ground arith) g

  -- What every plan guarantees of its nodes.
  record IsPlanned (ns : List Node) : Type 0 where
    nodes_valid : all (valid_node crypto) ns ≡ true
    holds_user : any (λ n. n.role == user) ns ≡ true

  planned_modes :
      (s : Snapshot) (latest : ℕ) (ns : List Node) (p : Plan)
      → plan_nodes json crypto s latest ns ≡ some p
      → (p.nodes ≡ ns)
        ⊎ ((p.start ≤ latest) × (valid crypto s ≡ true) × (p.nodes ≡ s.nodes ++ drop p.start ns))
  unfolding plan_nodes extend_plan
  planned_modes s latest ns p e = ground arith

  valid-all : (s : Snapshot) → valid crypto s ≡ true → all (valid_node crypto) s.nodes ≡ true
  unfolding valid
  valid-all s h = ground arith

  pub nodes-nodes_from :
      (h : Hasher) (ms : List Message) (ns : List Node)
      → nodes json crypto h ms ≡ some ns
      → nodes_from json crypto h ms ≡ some ns
  unfolding nodes
  nodes-nodes_from h ms ns e = ground arith

  plan-IsPlanned :
      (h : Hasher) (s : Snapshot) (r : Request) (p : Plan)
      → plan json crypto h s r ≡ some p
      → IsPlanned p.nodes
  plan-IsPlanned h s r p e =
      let (ns, latest, made, found, rest) = plan-parts json crypto h s r p e in
      let whole = nodes-nodes_from h r.messages ns made in
      let sound = nodes_from-valid h r.messages ns whole in
      let (m, at, role) = latest_user_index-some r latest found in
      let (n, at', role') = nodes_from-role h r.messages ns latest m whole at in
      let tail : (k : ℕ) → k ≤ latest → any (λ n. n.role == user) (drop k ns) ≡ true =
        λ k l. any-drop ns latest k n at' (role' ∙ role) l in
      elim (planned_modes s latest ns p rest) [
        | inl same ↦ record {
          nodes_valid = rw same sound;
          holds_user = rw same (tail 0 (omega arith));
        }
        | inr (within, ok, made') ↦ record {
          nodes_valid =
              rw (made', all-append (valid_node crypto) s.nodes (drop p.start ns))
                (ground (arith, valid-all s ok, all-drop (valid_node crypto) ns p.start sound));
          holds_user =
              rw (made', any-append (λ n. n.role == user) s.nodes (drop p.start ns))
                (ground (arith, tail p.start within));
        }
      ]

  pub complete-parts :
      (h : Hasher) (p : Plan) (content : List Block) (s : Snapshot)
      → complete json crypto h p content ≡ some s
      → (n : Node) × (message json crypto h (record { role = assistant; content = content })
          ≡ some n)
        × (1 ≤ length p.nodes)
        × (length p.nodes < max_nodes)
        × (s ≡ record { nodes = p.nodes ++ n ∷ []; pairs = pairs (p.nodes ++ n ∷ []) })
  unfolding complete
  complete-parts h p content s e = ground arith

  -- The snapshot of planned nodes and an assistant message.
  completed-valid :
      (ns : List Node) (n : Node)
      → IsPlanned ns
      → valid_node crypto n ≡ true
      → n.role ≡ assistant
      → length ns < max_nodes
      → 1 ≤ length ns
      → valid crypto (record { nodes = ns ++ n ∷ []; pairs = pairs (ns ++ n ∷ []) }) ≡ true
  unfolding valid ends_with_assistant pairs
  completed-valid ns n planned ok role below some_node =
      let users : 1 ≤ length (pairs_from [] (ns ++ n ∷ [])) =
        pairs_from-some [] (ns ++ n ∷ []) (
          rw (any-append (λ n. n.role == user) ns (n ∷ [])) (ground (arith, planned.holds_user))) in
      ground (
        arith,
        users,
        length-append ns (n ∷ []),
        last?-append_one ns n,
        ==_iff n.role assistant,
        all-append (valid_node crypto) ns (n ∷ []),
        planned.nodes_valid,
        equal_iff (pairs_from [] (ns ++ n ∷ [])) (pairs_from [] (ns ++ n ∷ [])),
      )

  -- Completing any plan made for a request gives a snapshot that `Valid` accepts, so the next request
  -- can be planned against it.
  pub plan-complete-valid :
      (h : Hasher) (s t : Snapshot) (r : Request) (p : Plan) (content : List Block)
      → plan json crypto h s r ≡ some p
      → complete json crypto h p content ≡ some t
      → valid crypto t ≡ true
  plan-complete-valid h s t r p content e c =
      let (n, made, some_node, below, same) = complete-parts h p content t c in
      let (ok, role) = message-valid h (record { role = assistant; content = content }) n made in
      rw same (completed-valid p.nodes n (plan-IsPlanned h s r p e) ok role below some_node)
