-- ===== src/Examples/CollectorExamples.antt =====
-- A search that fails, told twice.
use dax_kiro_proxy.Common.{
  ℕ, ◌≤◌, ◌≡◌, refl, length, ap, ◌∙◌, true, false, [], ◌∷◌, Option, none, some, ℕ_eq, Bytes_eq,
  Bytes, bytes, ◌==◌, lookup, insert, keys, UniqueKeys, if◌then◌else◌, equal, ◌>>=◌,
}
use dax_kiro_proxy.Json.{Json, Fields, open_brace, close_brace}
use dax_kiro_proxy.Websearch.SearchCalls.{
  SearchCall, Decoders, failed, update_call, set_input, digested, keep, set_status, set_results,
  read_status,
}
use dax_kiro_proxy.Websearch.Collector.{
  Notification, Collector, observe, new_collector, observe_fields, observe_kind, owner_of, tool,
  kind_ok, title_ok, call_id, given_status, find_call, begin_call,
}
use dax_kiro_proxy.Ndjson.{object, document, members, scan, read_key, read_value, more, finish}
use dax_kiro_proxy.Websearch.Settling.{Settled}
use dax_kiro_proxy.Websearch.Collected.{observe-Settled, observe_all, observe_all-Bounded}

-- The two objects of the example by their first letters; a text that starts otherwise is a string.
abbrev fields : Bytes → Option Fields
fields b =
    if b == bytes "params"
    then some ((bytes "sessionId", bytes "s") ∷ (bytes "update", bytes "update") ∷ [])
    else some (
        (bytes "sessionUpdate", bytes "tool_call")
        ∷ (bytes "toolCallId", bytes "1")
        ∷ (bytes "title", bytes "search")
        ∷ (bytes "status", bytes "failed")
        ∷ [])

abbrev json : Json
json = record {
  valid_utf8 = λ b. true;
  tokens = λ b. open_brace ∷ close_brace ∷ [];
  unmarshal_fields = fields;
  unmarshal_items = λ b. none;
  unmarshal_string = λ b. some b;
  marshal_fields = λ m. none;
  marshal_items = λ m. none;
  marshal_text = λ t. t;
  marshal_message = λ role raws. none;
  recode = λ b. none;
}

abbrev decoders : Decoders
decoders = record {
  part = λ b. none;
  blank = λ b. b == [];
  sha256 = λ b. b;
  hex = λ b. [];
  ended = λ fs. false;
  native_results = λ raw query. none;
  parts = λ b. none;
  valid = λ x. true;
}

abbrev told : Notification
told = record { method = bytes "session/update"; session_id = bytes "s"; params = bytes "params" }

abbrev before : Collector
before = new_collector (bytes "s") 1

abbrev failed_call : SearchCall
failed_call = record {
  exchange = record {
    id = bytes "srvtoolu_";
    query = [];
    error_code = bytes "unavailable";
    results = [];
  };
  status = failed;
  input = [];
  output = none;
  native = none;
}

abbrev after : ℕ → ℕ → Collector
after events total = record before {
  events = events;
  total = total;
  calls = (bytes "1", failed_call) ∷ [];
  order = bytes "1" ∷ [];
  progress = true;
}

tells : observe json decoders told before ≡ some (after 1 6)
unfolding observe observe_fields observe_kind owner_of tool kind_ok title_ok call_id given_status
    find_call begin_call update_call set_input digested keep set_status set_results read_status
    object document members scan read_key read_value more finish equal lookup insert
tells = refl

tells_again : observe json decoders told (after 1 6) ≡ some (after 2 12)
unfolding observe observe_fields observe_kind owner_of tool kind_ok title_ok call_id given_status
    find_call begin_call update_call set_input digested keep set_status set_results read_status
    object document members scan read_key read_value more finish equal lookup insert
tells_again = refl

tells_all : observe_all json decoders (told ∷ told ∷ []) before ≡ some (after 2 12)
unfolding observe_all
tells_all =
    ap (λ m. m >>= observe_all json decoders (told ∷ [])) tells
    ∙ ap (λ m. m >>= observe_all json decoders []) tells_again

observe-Settled_example :
    (call : SearchCall) × (lookup (bytes "1") (after 2 12).calls ≡ some call)
    × Settled failed_call call
unfolding lookup equal
observe-Settled_example =
    observe-Settled json decoders told (after 1 6) (after 2 12) (bytes "1") failed_call tells_again
      refl refl

observe_all-Bounded_example :
    (length (after 2 12).calls ≤ 1)
    × ((after 2 12).order ≡ keys (after 2 12).calls)
    × UniqueKeys (after 2 12).calls
    × (length (after 2 12).order ≡ length (after 2 12).calls)
    × (length (after 2 12).text ≤ 1048576)
    × ((after 2 12).events ≤ 4096)
    × ((after 2 12).total ≤ 4194304)
observe_all-Bounded_example =
    observe_all-Bounded json decoders (bytes "s") 1 (told ∷ told ∷ []) (after 2 12) tells_all
