-- ===== src/Websearch/Collecting.antt =====
-- internal/websearch/collector.go: what a notification does to the collector.
use dax_kiro_proxy.Common.{
  ◌-◌, ◌≤◌, ◌≡◌, refl, ap, sym, subst, ◌∙◌, Bool, true, false, not, ◌||◌, [], ◌∷◌, ◌++◌, Option,
  none, some, arith, ℕ_eq, Bytes_eq, Bytes, bytes, ◌==◌, length, length-append, lookup, insert,
  length-insert, keys, keys-append, keys-insert, UniqueKeys, UniqueKeys-insert, insert-fresh,
  lookup-insert, lookup-insert_same, inl, inr, ltb, leb, is_empty, Post, bind-Post, skip-Post,
  if-Post,
}
use dax_kiro_proxy.Json.{Json, Fields}
use dax_kiro_proxy.Websearch.SearchCalls.{SearchCall, Decoders, field, is_final, update_call}
use dax_kiro_proxy.Websearch.Collector.{
  Collector, call_id, given_status, no_new_call, new_call, begin_call, find_call, tool, take_text,
  has_thought, observe_kind, observe_fields,
}
use dax_kiro_proxy.Ndjson.{object}
use dax_kiro_proxy.Websearch.Settling.{
  Settled, Settles, Settled-refl, Settled-trans, update_call-Post,
}

-- A step of the collector: the bounds hold on, and so do the calls that have ended.
pub record InStep (a b : Collector) : Type 0 where
  pub limit : b.limit ≡ a.limit
  pub events : b.events ≡ a.events
  pub total : b.total ≡ a.total
  pub calls : length a.calls ≤ a.limit → length b.calls ≤ b.limit
  pub order : a.order ≡ keys a.calls → b.order ≡ keys b.calls
  pub unique : UniqueKeys a.calls → UniqueKeys b.calls
  pub text : length a.text ≤ 1048576 → length b.text ≤ 1048576
  pub kept :
      (id : Bytes) (call : SearchCall)
      → lookup id a.calls ≡ some call
      → is_final call.status ≡ true
      → (call' : SearchCall) × (lookup id b.calls ≡ some call') × Settled call call'

-- Only the text and the progress differ.
text-InStep :
    (a : Collector) (text : Bytes) (progress : Bool)
    → (length a.text ≤ 1048576 → length text ≤ 1048576)
    → InStep a (record a { text = text; progress = progress })
text-InStep a text progress h = record {
  limit = refl;
  events = refl;
  total = refl;
  calls = λ e. e;
  order = λ e. e;
  unique = λ u. u;
  text = h;
  kept = λ id call e f. (call, e, Settled-refl call);
}

InStep-trans : (a b c : Collector) → InStep a b → InStep b c → InStep a c
InStep-trans a b c h k = record {
  limit = k.limit ∙ h.limit;
  events = k.events ∙ h.events;
  total = k.total ∙ h.total;
  calls = λ e. k.calls (h.calls e);
  order = λ e. k.order (h.order e);
  unique = λ u. k.unique (h.unique u);
  text = λ e. k.text (h.text e);
  kept = λ id call e f.
      let (call', e', s) = h.kept id call e f in
      let (call'', e'', s') = k.kept id call' e' (ap is_final s.status ∙ f) in
      (call'', e'', Settled-trans call call' call'' s s');
}

-- A call that is there is replaced.
replace-InStep :
    (id : Bytes) (call call' : SearchCall) (a : Collector)
    → lookup id a.calls ≡ some call
    → Settles call call'
    → InStep a (record a { calls = insert id call' a.calls })
replace-InStep id call call' a e h = record {
  limit = refl;
  events = refl;
  total = refl;
  calls = λ f. ground (arith, length-insert id call' a.calls);
  order = λ f. f ∙ sym (keys-insert id call' call a.calls e);
  unique = λ u. UniqueKeys-insert id call' a.calls u;
  text = λ f. f;
  kept = λ i c f g. elim (lookup-insert i id call' a.calls) [
    | inl (same, found) ↦
        let one : some call ≡ some c = sym e ∙ ap (λ k. lookup k a.calls) same ∙ f in
        let found_call : call ≡ c = ground (arith, one) in
        (call', found, subst (λ x. Settles x call') found_call h g)
    | inr there ↦ (c, there ∙ f, Settled-refl c)
  ];
}

-- A call that is not there is added.
add-InStep :
    (id : Bytes) (call : SearchCall) (a : Collector)
    → lookup id a.calls ≡ none
    → leb a.limit (length a.calls) ≡ false
    → InStep a (record a { calls = insert id call a.calls; order = a.order ++ id ∷ [] })
add-InStep id call a e h = record {
  limit = refl;
  events = refl;
  total = refl;
  calls = λ f. ground (arith, length-insert id call a.calls);
  order = λ f.
      ap (λ ids. ids ++ id ∷ []) f
      ∙ sym (keys-append a.calls ((id, call) ∷ []))
      ∙ ap keys (sym (insert-fresh id call a.calls e));
  unique = λ u. UniqueKeys-insert id call a.calls u;
  text = λ f. f;
  kept = λ i c f g. elim (lookup-insert i id call a.calls) [
    | inl (same, found) ↦
        let none_ : some c ≡ none = sym f ∙ ap (λ k. lookup k a.calls) (sym same) ∙ e in
        ground (arith, none_)
    | inr there ↦ (c, there ∙ f, Settled-refl c)
  ];
}

-- The call that an update is about, which the collector then has.
abbrev Found : Bytes → Collector → SearchCall × Collector → Type 0
Found id a (call, b) = InStep a b × (lookup id b.calls ≡ some call)

begin_call-Post :
    (json : Json) (d : Decoders) (kind id : Bytes) (fs : Fields) (a : Collector)
    → lookup id a.calls ≡ none
    → Post (Found id a) (begin_call json d kind id fs a)
unfolding begin_call
begin_call-Post json d kind id fs a e =
    if-Post (Found id a) (no_new_call json d kind fs a) _ _ (λ f. tt)
      (λ f. (
        add-InStep id (new_call json d a.session id) a e (ground arith),
        lookup-insert_same id (new_call json d a.session id) a.calls,
      ))

find_call-Post :
    (json : Json) (d : Decoders) (kind id : Bytes) (fs : Fields) (a : Collector)
    → Post (Found id a) (find_call json d kind id fs a)
unfolding find_call
find_call-Post json d kind id fs a = looked_up (lookup id a.calls) refl
  where
    looked_up :
        (m : Option SearchCall)
        → lookup id a.calls ≡ m
        → Post
            (Found id a)
            (elim m [ some call ↦ some (call, a) | none ↦ begin_call json d kind id fs a ])
    looked_up none e = begin_call-Post json d kind id fs a e
    looked_up (some call) e = (text-InStep a a.text a.progress (λ f. f), e)

tool-Post :
    (json : Json) (d : Decoders) (kind : Bytes) (fs : Fields) (a : Collector)
    → Post (InStep a) (tool json d kind fs a)
unfolding tool
tool-Post json d kind fs a = skip-Post (InStep a) _ _ (λ u.
    skip-Post (InStep a) (call_id json d fs) _ (λ id.
      skip-Post (InStep a) (given_status json d fs) _ (λ s.
        bind-Post (Found id a) (InStep a) (find_call json d kind id fs a) _
          (find_call-Post json d kind id fs a)
          (λ found h.
            bind-Post (Settles found.0) (InStep a) (update_call json d fs s found.0) _
              (update_call-Post json d fs s found.0)
              (λ call k.
                InStep-trans a found.1 _ h.0 (replace-InStep id found.0 call found.1 h.1 k))))))

progress-InStep :
    (a b : Collector) (progress : Bool) → InStep a b → InStep a (record b { progress = progress })
progress-InStep a b progress h = InStep-trans a b _ h (text-InStep b b.text progress (λ e. e))

take_text-Post :
    (json : Json) (d : Decoders) (part : Option (Bytes × Bytes)) (a : Collector)
    → Post (InStep a) (take_text json d part a)
unfolding take_text
take_text-Post json d none a = tt
take_text-Post json d (some (type, text)) a =
    if-Post (InStep a) (not (type == bytes "text") || ltb (1048576 - length a.text) (length text)) _
      _ (λ e. tt)
      (λ e.
        text-InStep a (a.text ++ text) (not (is_empty text))
          (λ f. ground (arith, length-append a.text text)))

observe_kind-Post :
    (json : Json) (d : Decoders) (kind : Bytes) (update : Fields) (a : Collector)
    → Post (InStep a) (observe_kind json d kind update a)
unfolding observe_kind
observe_kind-Post json d kind update a =
    let part = d.part (field (bytes "content") update) in
    if-Post (InStep a) (kind == bytes "agent_message_chunk") _ _ (λ e. take_text-Post json d part a)
      (λ e.
        if-Post (InStep a) (kind == bytes "agent_thought_chunk") _ _
          (λ f. text-InStep a a.text (has_thought json d part) (λ g. g))
          (λ f.
            if-Post (InStep a) (kind == bytes "tool_call" || kind == bytes "tool_call_update") _ _
              (λ g.
                bind-Post (InStep a) (InStep a) (tool json d kind update a) _
                  (tool-Post json d kind update a) (λ b h. progress-InStep a b true h))
              (λ g. text-InStep a a.text a.progress (λ h. h))))

pub observe_fields-Post :
    (json : Json) (d : Decoders) (method owner : Bytes) (fields : Fields) (a : Collector)
    → Post (InStep a) (observe_fields json d method owner fields a)
unfolding observe_fields
observe_fields-Post json d method owner fields a =
    if-Post (InStep a) (method == bytes "_kiro.dev/mcp/server_initialized") _ _ (λ e. tt)
      (λ e.
        if-Post (InStep a) (not (method == bytes "session/update")) _ _
          (λ f. text-InStep a a.text a.progress (λ h. h))
          (λ f.
            if-Post (InStep a) (not (owner == a.session)) _ _ (λ g. tt)
              (λ g. skip-Post (InStep a) (object json (field (bytes "update") fields)) _ (λ update.
                skip-Post (InStep a) (json.unmarshal_string (field (bytes "sessionUpdate") update))
                  _ (λ kind. observe_kind-Post json d kind update a)))))
