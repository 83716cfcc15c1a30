-- ===== src/Websearch/Collector.antt =====
-- internal/websearch/collector.go: what the notifications of a search session add up to. An error ends
-- the session, so it is `none`, and the collector with it.
use dax_kiro_proxy.Common.{
  ℕ, suc, ◌+◌, ◌-◌, Bool, true, false, not, ◌&&◌, ◌||◌, List, [], ◌∷◌, ◌++◌, Option, none, some,
  ℕ_eq, Bytes_eq, Bytes, bytes, ◌==◌, length, lookup, insert, ltb, leb, if◌then◌else◌, is_some,
  is_empty, take, ◌>>=◌, ◌>>◌, check,
}
use dax_kiro_proxy.Json.{Json, Fields}
use dax_kiro_proxy.Ndjson.{object}
use dax_kiro_proxy.Websearch.SearchCalls.{
  SearchExchange, Status, SearchCall, Decoders, field, is_final, same_status, read_status,
  update_call, unset, completed,
}

pub record Notification : Type 0 where
  pub method : Bytes
  pub session_id : Bytes
  pub params : Bytes

pub record Collector : Type 0 where
  pub session : Bytes
  pub limit : ℕ
  pub events : ℕ
  pub total : ℕ  -- `bytes`
  pub calls : List (Bytes × SearchCall)
  pub order : List Bytes
  pub text : Bytes
  pub progress : Bool

abbrev pub counted : Notification → Collector → Collector
counted n c = record c {
  progress = false;
  events = suc c.events;
  total = c.total + length n.params;
}

abbrev pub over_limits : Notification → Collector → Bool
over_limits n c =
    ltb 4096 c.events
    || ltb 4194304 c.total
    || (not (is_empty n.session_id) && not (n.session_id == c.session))

module _ (json : Json) (d : Decoders) where
  unfoldable pub kind_ok : Fields → Bool
  kind_ok fs = elim (lookup (bytes "kind") fs) [
    | none ↦ true
    | some raw ↦ elim (json.unmarshal_string raw) [ none ↦ false | some v ↦ v == bytes "search" ]
  ]

  unfoldable pub title_ok : Fields → Bool
  title_ok fs = elim (lookup (bytes "title") fs) [
    | none ↦ true
    | some raw ↦ elim (json.unmarshal_string raw) [
      | none ↦ false
      | some v ↦ not (d.blank v) && leb (length v) 4096
    ]
  ]

  unfoldable pub call_id : Fields → Option Bytes
  call_id fs = do
    id ← json.unmarshal_string (field (bytes "toolCallId") fs)
    check (not (is_empty id) && leb (length id) 256)
    some id

  unfoldable pub given_status : Fields → Option Status
  given_status fs = elim (lookup (bytes "status") fs) [
    | none ↦ some unset
    | some raw ↦ json.unmarshal_string raw >>= read_status
  ]

  -- Whether a call that is not there yet may not begin.
  abbrev pub no_new_call : Bytes → Fields → Collector → Bool
  no_new_call kind fs c =
      (not (kind == bytes "tool_call") && not (d.ended fs))
      || leb c.limit (length c.calls)
      || not (is_some (lookup (bytes "title") fs))

  abbrev pub new_call : Bytes → Bytes → SearchCall
  new_call session id = record {
    exchange = record {
      id = bytes "srvtoolu_" ++ d.hex (take 16 (d.sha256 (session ++ 0 ∷ id)));
      query = [];
      error_code = [];
      results = [];
    };
    status = unset;
    input = [];
    output = none;
    native = none;
  }

  unfoldable pub begin_call : Bytes → Bytes → Fields → Collector → Option (SearchCall × Collector)
  begin_call kind id fs c =
      if no_new_call kind fs c
      then none
      else let call = new_call c.session id in
        some (call, record c { calls = insert id call c.calls; order = c.order ++ id ∷ [] })

  -- The call of an identifier, and the collector that has it.
  unfoldable pub find_call : Bytes → Bytes → Fields → Collector → Option (SearchCall × Collector)
  find_call kind id fs c = elim (lookup id c.calls) [
    | some call ↦ some (call, c)
    | none ↦ begin_call kind id fs c
  ]

  -- `tool`
  unfoldable pub tool : Bytes → Fields → Collector → Option Collector
  tool kind fs c = do
    check (kind_ok fs && title_ok fs)
    id ← call_id fs
    status ← given_status fs
    found ← find_call kind id fs c
    call ← update_call json d fs status found.0
    some (record found.1 { calls = insert id call found.1.calls })

  unfoldable pub take_text : Option (Bytes × Bytes) → Collector → Option Collector
  take_text none c = none
  take_text (some (type, text)) c =
      if not (type == bytes "text") || ltb (1048576 - length c.text) (length text)
      then none
      else some (record c { text = c.text ++ text; progress = not (is_empty text) })

  unfoldable pub has_thought : Option (Bytes × Bytes) → Bool
  has_thought none = false
  has_thought (some (type, text)) = type == bytes "text" && not (d.blank text)

  -- `observe`, from the kind of the decoded update on.
  unfoldable pub observe_kind : Bytes → Fields → Collector → Option Collector
  observe_kind kind update c =
      let part = d.part (field (bytes "content") update) in
      if kind == bytes "agent_message_chunk"
      then take_text part c
      else if kind == bytes "agent_thought_chunk"
      then some (record c { progress = has_thought part })
      else if kind == bytes "tool_call" || kind == bytes "tool_call_update"
      then (tool kind update c >>= λ c'. some (record c' { progress = true }))
      else some c

  -- The session that a notification names.
  unfoldable pub owner_of : Fields → Collector → Option Bytes
  owner_of fields c = elim (lookup (bytes "sessionId") fields) [
    | none ↦ some []
    | some raw ↦ do owner ← json.unmarshal_string raw; check (owner == c.session); some owner
  ]

  -- `observe`, from the method on.
  unfoldable pub observe_fields : Bytes → Bytes → Fields → Collector → Option Collector
  observe_fields method owner fields c =
      if method == bytes "_kiro.dev/mcp/server_initialized"
      then none
      else if not (method == bytes "session/update")
      then some c
      else if not (owner == c.session)
      then none
      else (do
        update ← object json (field (bytes "update") fields)
        kind ← json.unmarshal_string (field (bytes "sessionUpdate") update)
        observe_kind kind update c)

  unfoldable pub observe : Notification → Collector → Option Collector
  observe n c = if over_limits n (counted n c) then none else (do
    fields ← object json n.params
    owner ← owner_of fields (counted n c)
    observe_fields n.method owner fields (counted n c))

  -- Whether `finish` takes a call.
  unfoldable pub finished : SearchCall → Bool
  finished call =
      is_final call.status
      && not (
          same_status call.status completed
          && not (is_some call.output)
          && not (is_some call.native))
      && d.valid call.exchange

  unfoldable pub gather : List Bytes → List (Bytes × SearchCall) → Option (List SearchExchange)
  gather [] calls = some []
  gather (id ∷ ids) calls = do
    call ← lookup id calls
    check (finished call)
    others ← gather ids calls
    some (call.exchange ∷ others)

  unfoldable pub finish : Collector → Option (List SearchExchange × Bytes)
  finish c =
      if length c.order == 0
      then none
      else elim (gather c.order c.calls) [ none ↦ none | some xs ↦ some (xs, c.text) ]

abbrev pub new_collector : Bytes → ℕ → Collector
new_collector session limit = record {
  session = session;
  limit = limit;
  events = 0;
  total = 0;
  calls = [];
  order = [];
  text = [];
  progress = false;
}
