-- ===== src/History/Replay.antt =====
-- The next request of a client, planned against the snapshot of the one before: a continued
-- conversation extends it exactly, and a repeated request is recognised.
use dax_kiro_proxy.Common.{
  ℕ, ◌+◌, ◌-◌, ◌≤◌, ◌<◌, ◌≡◌, refl, sym, ap, ◌∙◌, true, List, [], ◌∷◌, ◌++◌, some, arith, equal_iff,
  length, take, drop, length-append, append_assoc, take_of_append, take-append-drop,
}
use dax_kiro_proxy.Json.{Json}
use dax_kiro_proxy.Anthropic.{Block, Message, Request, assistant, latest_user_index}
use dax_kiro_proxy.Anthropic.LatestUser.{latest_user_index-lt}
use dax_kiro_proxy.History.{
  Node, Node_eq, Snapshot, Plan, fresh, extend, duplicate, Hasher, Crypto, message, nodes_from,
  nodes, plan_nodes, plan, complete, valid, max_nodes, extend_plan, find_start,
}
use dax_kiro_proxy.History.Extension.{plan-parts, valid-two, length-nodes_from}
use dax_kiro_proxy.History.Validity.{
  CryptoLaws, complete-parts, nodes-nodes_from, plan-complete-valid,
}

find_start-prefix :
    (st ns : List Node)
    → length st < length ns
    → take (length st) ns ≡ st
    → find_start st ns ≡ some (length st)
unfolding find_start
find_start-prefix st ns l e = ground (arith, equal_iff (take (length st) ns) st)

extend_plan-fits :
    (st ns : List Node) (latest k : ℕ)
    → k ≤ latest
    → length st + length ns - k < max_nodes
    → extend_plan st ns latest (some k)
      ≡ record { mode = extend; start = k; nodes = st ++ drop k ns }
unfolding extend_plan
extend_plan-fits st ns latest k l b = ground arith

module _ (json : Json) (crypto : Crypto) where
  -- The nodes of a list of messages, cut in two.
  nodes_from-append :
      (h : Hasher) (xs ys : List Message) (ns : List Node)
      → nodes_from json crypto h (xs ++ ys) ≡ some ns
      → (ms ls : List Node) × (nodes_from json crypto h xs ≡ some ms)
        × (nodes_from json crypto h ys ≡ some ls)
        × (ns ≡ ms ++ ls)
  unfolding nodes_from
  nodes_from-append h [] ys ns e = ([], ns, refl, e, refl)
  nodes_from-append h (x ∷ xs) ys [] e = ground arith
  nodes_from-append h (x ∷ xs) ys (n ∷ ns) e =
      let (ms, ls, front, back, same) = nodes_from-append h xs ys ns (ground arith) in
      (n ∷ ms, ls, ground arith, back, ap (◌∷◌ n) same)

  plan_nodes-prefix :
      (s : Snapshot) (latest : ℕ) (ns : List Node)
      → valid crypto s ≡ true
      → length s.nodes < length ns
      → take (length s.nodes) ns ≡ s.nodes
      → length s.nodes ≤ latest
      → length ns < max_nodes
      → plan_nodes json crypto s latest ns
        ≡ some (record { mode = extend; start = length s.nodes; nodes = ns })
  unfolding plan_nodes
  plan_nodes-prefix s latest ns ok l e w b =
      let kept : s.nodes ++ drop (length s.nodes) ns ≡ ns =
        ap (λ xs. xs ++ drop (length s.nodes) ns) (sym e) ∙ take-append-drop (length s.nodes) ns in
      ground (
        arith,
        kept,
        valid-two json crypto s ok,
        find_start-prefix s.nodes ns l e,
        extend_plan-fits s.nodes ns latest (length s.nodes) w,
      )

  plan_nodes-duplicate :
      (s : Snapshot) (latest : ℕ) (ns : List Node) (n : Node)
      → valid crypto s ≡ true
      → s.nodes ≡ ns ++ n ∷ []
      → plan_nodes json crypto s latest ns
        ≡ some (record { mode = duplicate; start = 0; nodes = ns })
  unfolding plan_nodes
  plan_nodes-duplicate s latest ns n ok e =
      let size : length s.nodes - 1 ≡ length ns =
        omega (arith, ap length e, length-append ns (n ∷ [])) in
      let front : take (length s.nodes - 1) s.nodes ≡ ns =
        rw size (rw e (take_of_append ns (n ∷ []))) in
      ground (arith, size, front, valid-two json crypto s ok, equal_iff ns ns)

  -- What a fresh plan and its completion leave in the snapshot.
  fresh-nodes :
      (s : Snapshot) (latest : ℕ) (ns : List Node) (p : Plan)
      → plan_nodes json crypto s latest ns ≡ some p
      → p.mode ≡ fresh
      → p.nodes ≡ ns
  unfolding plan_nodes extend_plan
  fresh-nodes s latest ns p e m = ground arith

  plan_of_parts :
      (h : Hasher) (s : Snapshot) (r : Request) (ns : List Node) (latest : ℕ)
      → nodes json crypto h r.messages ≡ some ns
      → latest_user_index r ≡ some latest
      → plan json crypto h s r ≡ plan_nodes json crypto s latest ns
  unfolding plan
  plan_of_parts h s r ns latest e f = ground arith

  nodes_from-cons :
      (h : Hasher) (m : Message) (ms : List Message) (n : Node) (ns : List Node)
      → message json crypto h m ≡ some n
      → nodes_from json crypto h (m ∷ ms) ≡ some ns
      → (ls : List Node) × (ns ≡ n ∷ ls)
  unfolding nodes_from
  nodes_from-cons h m ms n [] e f = ground arith
  nodes_from-cons h m ms n (n' ∷ ls) e f = (ls, ground arith)

module _ (json : Json) (crypto : Crypto) (laws : CryptoLaws crypto) where
  -- A conversation that is planned afresh and completed is recognised when the client sends the same
  -- request again: the plan is a duplicate.
  pub plan-repeated :
      (h : Hasher) (s t : Snapshot) (r : Request) (p : Plan) (content : List Block)
      → plan json crypto h s r ≡ some p
      → p.mode ≡ fresh
      → complete json crypto h p content ≡ some t
      → plan json crypto h t r ≡ some (record { mode = duplicate; start = 0; nodes = p.nodes })
  plan-repeated h s t r p content e m c =
      let (ns, latest, made, found, rest) = plan-parts json crypto h s r p e in
      let (n, _, _, _, same) = complete-parts json crypto laws h p content t c in
      let ok = plan-complete-valid json crypto laws h s t r p content e c in
      let kept = fresh-nodes json crypto s latest ns p rest m in
      plan_of_parts json crypto h t r ns latest made found
      ∙ plan_nodes-duplicate json crypto t latest ns n ok
          (ap (λ (u : Snapshot). u.nodes) same ∙ ap (λ ms. ms ++ n ∷ []) kept)
      ∙ ap (λ ms. some (record { mode = duplicate; start = 0; nodes = ms })) (sym kept)

  -- Let the plan of a request be fresh, and completed by an assistant message. If the client goes on,
  -- its next request being the messages of the first, that assistant message, and further messages,
  -- with its latest user message behind the assistant message, and if the nodes of this request can be
  -- made and are fewer than 8192, then its plan extends the stored conversation, starts directly behind
  -- the assistant message and holds all nodes of the request.
  pub plan-continued :
      (h : Hasher) (s t : Snapshot) (r r' : Request) (p : Plan) (content : List Block)
      (tail : List Message) (ns : List Node) (latest : ℕ)
      → plan json crypto h s r ≡ some p
      → p.mode ≡ fresh
      → complete json crypto h p content ≡ some t
      → r'.messages ≡ r.messages ++ record { role = assistant; content = content } ∷ tail
      → nodes json crypto h r'.messages ≡ some ns
      → latest_user_index r' ≡ some latest
      → length r.messages < latest
      → length ns < max_nodes
      → plan json crypto h t r'
        ≡ some (record { mode = extend; start = length r.messages + 1; nodes = ns })
  plan-continued h s t r r' p content tail ns latest e m c longer made found after below =
      let (ns₀, latest₀, made₀, _, rest) = plan-parts json crypto h s r p e in
      let (n, hashed, _, _, same) = complete-parts json crypto laws h p content t c in
      let ok = plan-complete-valid json crypto laws h s t r p content e c in
      let kept = fresh-nodes json crypto s latest₀ ns₀ p rest m in
      let whole₀ = nodes-nodes_from json crypto laws h r.messages ns₀ made₀ in
      let whole = nodes-nodes_from json crypto laws h r'.messages ns made in
      let (ms, ls, front, back, cut) =
        nodes_from-append json crypto h r.messages _ ns (rw longer at whole) in
      let (ls', split) = nodes_from-cons json crypto h _ tail n ls hashed back in
      let stored : t.nodes ≡ ns₀ ++ n ∷ [] =
        ap (λ (u : Snapshot). u.nodes) same ∙ ap (λ ms. ms ++ n ∷ []) kept in
      let front_same : ms ≡ ns₀ = cc in
      let joined : ns ≡ t.nodes ++ ls' =
        rw (cut, front_same, split, stored) (sym (append_assoc ns₀ (n ∷ []) ls')) in
      let size : length t.nodes ≡ length r.messages + 1 = omega (
        arith,
        ap length stored,
        length-append ns₀ (n ∷ []),
        length-nodes_from json crypto h r.messages ns₀ whole₀,
      ) in
      let room : length t.nodes < length ns = omega (
        arith,
        size,
        length-nodes_from json crypto h r'.messages ns whole,
        latest_user_index-lt r' latest found,
      ) in
      plan_of_parts json crypto h t r' ns latest made found
      ∙ plan_nodes-prefix json crypto t latest ns ok room (rw joined (take_of_append t.nodes ls'))
          (omega arith) below
      ∙ ap (λ k. some (record { mode = extend; start = k; nodes = ns })) size
