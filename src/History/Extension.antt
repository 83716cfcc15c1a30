-- ===== src/History/Extension.antt =====
-- What the plan of `Hasher.Plan` says of the stored conversation and the request: soundness of an
-- extension, and the choice of the longest overlap.
use dax_kiro_proxy.Common.{
  ℕ, zero, suc, ◌+◌, ◌-◌, ◌≤◌, ◌<◌, min, ◌≡◌, refl, sym, ap, ◌∙◌, true, inl, inr, List, [], ◌∷◌,
  ◌++◌, Option, none, some, arith, equal_iff, length, take, drop, Bool-cases, length-append,
  length-drop, length-take, take-append-drop, append_assoc, drop_of_append, any, Bytes_eq, ◌==◌,
}
use dax_kiro_proxy.Json.{Json}
use dax_kiro_proxy.Anthropic.{Message, Request, user, assistant, latest_user_index}
use dax_kiro_proxy.Anthropic.LatestUser.{latest_user_index-lt}
use dax_kiro_proxy.History.{
  Node, Node_eq, Snapshot, Plan, extend, Hasher, Crypto, overlaps, longest_overlap, find_start,
  extend_plan, plan_nodes, plan, nodes, valid, max_nodes, nodes_from,
}

longest_overlap-some :
    (st ns : List Node) (c k : ℕ)
    → longest_overlap st ns c ≡ some k
    → (2 ≤ k) × (k ≤ c) × (overlaps st ns k ≡ true)
unfolding longest_overlap
longest_overlap-some st ns zero k h = ground arith
longest_overlap-some st ns (suc zero) k h = ground arith
longest_overlap-some st ns (suc (suc c)) k h = ground (arith, longest_overlap-some st ns (suc c) k)

-- No longer overlap is passed over.
longest_overlap_max :
    (st ns : List Node) (c j : ℕ)
    → 2 ≤ j
    → j ≤ c
    → overlaps st ns j ≡ true
    → (k : ℕ) × (longest_overlap st ns c ≡ some k) × (j ≤ k)
unfolding longest_overlap
longest_overlap_max st ns zero j l m h = absurd (omega arith)
longest_overlap_max st ns (suc zero) j l m h = absurd (omega arith)
longest_overlap_max st ns (suc (suc c)) j l m h = elim (Bool-cases (overlaps st ns (suc (suc c)))) [
  | inl hit ↦ (suc (suc c), ground arith, m)
  | inr miss ↦ ground (arith, longest_overlap_max st ns (suc c) j l)
]

-- The parts of the stored nodes at a start.
record Splits (st ns : List Node) (k : ℕ) : Type 0 where
  two : 2 ≤ k
  within : k ≤ length st
  shared : drop (length st - k) st ≡ take k ns

overlaps-shared :
    (st ns : List Node) (k : ℕ) → overlaps st ns k ≡ true → drop (length st - k) st ≡ take k ns
unfolding overlaps
overlaps-shared st ns k h = ground (arith, equal_iff (drop (length st - k) st) (take k ns))

drop_zero : (st : List Node) (n : ℕ) → n ≡ 0 → drop n st ≡ st
drop_zero st zero e = refl
drop_zero st (suc n) e = absurd (omega arith)

find_start-Splits :
    (st ns : List Node) (k : ℕ) → 2 ≤ length st → find_start st ns ≡ some k → Splits st ns k
unfolding find_start
find_start-Splits st ns k l h = ground (
  arith,
  equal_iff (take (length st) ns) st,
  drop_zero st (length st - length st),
  overlaps-shared st ns k,
  longest_overlap-some st ns (min (length st) (length ns - 1)) k,
)

longest_start :
    (st ns : List Node) (j k : ℕ)
    → 2 ≤ j
    → j ≤ min (length st) (length ns - 1)
    → overlaps st ns j ≡ true
    → find_start st ns ≡ some k
    → j ≤ k
unfolding find_start
longest_start st ns j k l m o h =
    ground (arith, longest_overlap_max st ns (min (length st) (length ns - 1)) j l m o)

overlaps_of_split :
    (st older ns : List Node) (j : ℕ)
    → j ≤ length ns
    → st ≡ older ++ take j ns
    → any (λ n. n.role == user) (take j ns) ≡ true
    → any (λ n. n.role == assistant) (take j ns) ≡ true
    → overlaps st ns j ≡ true
unfolding overlaps
overlaps_of_split st older ns j b split has_user has_assistant =
    let size : length st - j ≡ length older =
      omega (arith, ap length split, length-append older (take j ns), length-take j ns) in
    let tail : drop (length st - j) st ≡ take j ns =
      rw size (rw split (drop_of_append older (take j ns))) in
    rw (tail, has_user, has_assistant) (ground (arith, equal_iff (take j ns) (take j ns)))

-- How an extension at `p.start` is made of the stored nodes and the request's.
pub record Extends (st ns : List Node) (latest : ℕ) (p : Plan) : Type 0 where
  pub older : List Node
  pub stored : st ≡ older ++ take p.start ns
  pub planned : p.nodes ≡ older ++ ns
  pub shares_two : 2 ≤ p.start
  pub start_within : p.start ≤ latest
  pub below_limit : length p.nodes < max_nodes

split_stored :
    (st ns : List Node) (k : ℕ) → Splits st ns k → st ≡ take (length st - k) st ++ take k ns
split_stored st ns k s =
    sym (take-append-drop (length st - k) st) ∙ ap (◌++◌ (take (length st - k) st)) s.shared

rejoin :
    (st ns : List Node) (k : ℕ) → Splits st ns k → st ++ drop k ns ≡ take (length st - k) st ++ ns
rejoin st ns k s =
    ap (λ xs. xs ++ drop k ns) (split_stored st ns k s)
    ∙ append_assoc (take (length st - k) st) (take k ns) (drop k ns)
    ∙ ap (◌++◌ (take (length st - k) st)) (take-append-drop k ns)

extend_plan-some :
    (st ns : List Node) (latest : ℕ) (o : Option ℕ) (p : Plan)
    → extend_plan st ns latest o ≡ p
    → p.mode ≡ extend
    → (o ≡ some p.start)
      × (p.nodes ≡ st ++ drop p.start ns)
      × (p.start ≤ latest)
      × (length st + length ns - p.start < max_nodes)
unfolding extend_plan
extend_plan-some st ns latest none p e m = ground arith
extend_plan-some st ns latest (some k) p e m = ground arith

extend_plan-Extends :
    (st ns : List Node) (latest : ℕ) (p : Plan)
    → 2 ≤ length st
    → latest < length ns
    → extend_plan st ns latest (find_start st ns) ≡ p
    → p.mode ≡ extend
    → Extends st ns latest p
extend_plan-Extends st ns latest p l b e m =
    let (found, made, within, room) = extend_plan-some st ns latest (find_start st ns) p e m in
    let split = find_start-Splits st ns p.start l found in
    record {
      older = take (length st - p.start) st;
      stored = split_stored st ns p.start split;
      planned = made ∙ rejoin st ns p.start split;
      shares_two = split.two;
      start_within = within;
      below_limit = omega (
        arith,
        ap length made,
        length-append st (drop p.start ns),
        length-drop p.start ns,
        split.within,
      );
    }

module _ (json : Json) (crypto : Crypto) where
  -- The modes of the plan of a stored conversation.
  pub plan_nodes-extend :
      (s : Snapshot) (latest : ℕ) (ns : List Node) (p : Plan)
      → plan_nodes json crypto s latest ns ≡ some p
      → p.mode ≡ extend
      → (valid crypto s ≡ true) × (extend_plan s.nodes ns latest (find_start s.nodes ns) ≡ p)
  unfolding plan_nodes
  plan_nodes-extend s latest ns p e m = ground arith

  pub valid-two : (s : Snapshot) → valid crypto s ≡ true → 2 ≤ length s.nodes
  unfolding valid
  valid-two s h = ground arith

  pub plan-parts :
      (h : Hasher) (s : Snapshot) (r : Request) (p : Plan)
      → plan json crypto h s r ≡ some p
      → (ns : List Node) × (latest : ℕ) × (nodes json crypto h r.messages ≡ some ns)
        × (latest_user_index r ≡ some latest)
        × (plan_nodes json crypto s latest ns ≡ some p)
  unfolding plan
  plan-parts h s r p e = ground arith

  -- `Nodes` makes one node for each message.
  pub length-nodes_from :
      (h : Hasher) (ms : List Message) (ns : List Node)
      → nodes_from json crypto h ms ≡ some ns
      → length ns ≡ length ms
  unfolding nodes_from
  length-nodes_from h [] ns e = ground arith
  length-nodes_from h (m ∷ ms) [] e = ground arith
  length-nodes_from h (m ∷ ms) (n ∷ ns) e = ground (arith, length-nodes_from h ms ns)

  pub length-nodes :
      (h : Hasher) (ms : List Message) (ns : List Node)
      → nodes json crypto h ms ≡ some ns
      → length ns ≡ length ms
  unfolding nodes
  length-nodes h ms ns e = ground (arith, length-nodes_from h ms ns)

  -- A plan in mode `extend` keeps the stored conversation and continues it: the stored nodes are an
  -- older part followed by the first `start` nodes of the request (at least two of them), the planned
  -- nodes are that older part followed by all nodes of the request, the latest user message is not
  -- among the shared ones, and the result has fewer than the maximum of 8192 nodes.
  pub plan-Extends :
      (h : Hasher) (s : Snapshot) (r : Request) (p : Plan)
      → plan json crypto h s r ≡ some p
      → p.mode ≡ extend
      → (ns : List Node) × (latest : ℕ) × (nodes json crypto h r.messages ≡ some ns)
        × (latest_user_index r ≡ some latest)
        × Extends s.nodes ns latest p
  plan-Extends h s r p e m =
      let (ns, latest, made, found, rest) = plan-parts h s r p e in
      let (ok, step) = plan_nodes-extend s latest ns p rest m in
      (
        ns,
        latest,
        made,
        found,
        extend_plan-Extends s.nodes ns latest p (valid-two s ok)
            (omega (arith, length-nodes h r.messages ns made, latest_user_index-lt r latest found))
            step m,
      )

  -- A plan in mode `extend` starts behind the longest overlap: if the stored nodes end with the first
  -- `j` nodes of a request of more than `j` nodes, where `j` is at least two, and these hold a user and
  -- an assistant message, then `j` is at most `start`.
  pub plan_longest :
      (h : Hasher) (s : Snapshot) (r : Request) (p : Plan) (older ns : List Node) (j : ℕ)
      → plan json crypto h s r ≡ some p
      → p.mode ≡ extend
      → nodes json crypto h r.messages ≡ some ns
      → 2 ≤ j
      → j < length ns
      → s.nodes ≡ older ++ take j ns
      → any (λ n. n.role == user) (take j ns) ≡ true
      → any (λ n. n.role == assistant) (take j ns) ≡ true
      → j ≤ p.start
  plan_longest h s r p older ns j e m made l b split has_user has_assistant =
      let (ns', latest, made', _, rest) = plan-parts h s r p e in
      let (_, step) = plan_nodes-extend s latest ns' p rest m in
      let (found, _, _, _) =
        extend_plan-some s.nodes ns' latest (find_start s.nodes ns') p step m in
      let same : ns' ≡ ns = cc in
      longest_start s.nodes ns j p.start l
        (omega (arith, ap length split, length-append older (take j ns), length-take j ns))
        (overlaps_of_split s.nodes older ns j (omega arith) split has_user has_assistant)
        (rw same at found)
