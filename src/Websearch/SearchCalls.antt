-- ===== src/Websearch/SearchCalls.antt =====
-- internal/websearch/collector.go: a call of the search tool, and what an update does to it. An error
-- ends the session, so it is `none`. The decoding of JSON, the digest, the test for blank text, the
-- decoding of native results and the validity of an exchange are parameters; `ended` is the test for a
-- search that failed without a call before.
use dax_kiro_proxy.Common.{
  Bool, true, false, not, ◌&&◌, ◌||◌, List, [], ◌∷◌, ◌++◌, Option, none, some, ℕ_eq, Bytes_eq,
  Bytes, bytes, ◌==◌, length, lookup, leb, if◌then◌else◌, is_some, is_empty, ◌>>=◌, ◌>>◌, check,
}
use dax_kiro_proxy.Json.{Json, Fields}
use dax_kiro_proxy.Ndjson.{object, canonical_object}

-- The type of a result is always "web_search_result".
pub record SearchResult : Type 0 where
  pub url : Bytes
  pub title : Bytes

pub record SearchExchange : Type 0 where
  pub id : Bytes
  pub query : Bytes
  pub error_code : Bytes
  pub results : List SearchResult

-- The status of a call, which is unset at first.
pub data Status : Type 0 where
  unset pending in_progress completed failed : Status

-- `output` and `native` hold a value and its digest, once there is one.
pub record SearchCall : Type 0 where
  pub exchange : SearchExchange
  pub status : Status
  pub input : Bytes
  pub output : Option (Bytes × Bytes)
  pub native : Option (Bytes × Bytes)

pub record Part : Type 0 where
  pub type : Bytes
  pub content_type : Bytes
  pub uri : Bytes
  pub name : Bytes
  pub title : Bytes

-- What the collector takes from other packages.
pub record Decoders : Type 0 where
  -- `json.Unmarshal` into a struct of a type and a text
  pub part : Bytes → Option (Bytes × Bytes)
  -- `strings.TrimSpace` leaves nothing
  pub blank : Bytes → Bool
  pub sha256 : Bytes → Bytes
  pub hex : Bytes → Bytes  -- `hex.EncodeToString`
  -- `json.Unmarshal` into the parts of a resource link
  pub parts : Bytes → Option (List Part)
  -- `kirofeature.StandaloneSearchFailure` and `kirofeature.SearchResults`
  pub ended : Fields → Bool
  pub native_results : Bytes → Bytes → Option (List SearchResult)
  -- `SearchExchange.Valid`
  pub valid : SearchExchange → Bool

-- The value of a key, which is empty if the key is missing.
abbrev pub field : Bytes → Fields → Bytes
field k fs = elim (lookup k fs) [ none ↦ [] | some raw ↦ raw ]

abbrev pub is_final : Status → Bool
is_final completed = true
is_final failed = true
is_final _ = false

abbrev pub same_status : Status → Status → Bool
same_status unset unset = true
same_status pending pending = true
same_status in_progress in_progress = true
same_status completed completed = true
same_status failed failed = true
same_status _ _ = false

-- The status that a text names; no text is no change.
unfoldable pub read_status : Bytes → Option Status
read_status s =
    if is_empty s
    then some unset
    else if s == bytes "pending"
    then some pending
    else if s == bytes "in_progress"
    then some in_progress
    else if s == bytes "completed"
    then some completed
    else if s == bytes "failed"
    then some failed
    else none

unfoldable pub set_status : Status → SearchCall → Option SearchCall
set_status unset call = some call
set_status status call =
    if is_final call.status
    then (if same_status status call.status then some call else none)
    else if same_status call.status in_progress && same_status status pending
    then none
    else some (record call {
      status = status;
      exchange =
          if same_status status failed
          then record call.exchange { results = []; error_code = bytes "unavailable" }
          else call.exchange;
    })

-- A value that is kept until the call is final, and may then only be repeated.
unfoldable pub keep :
    Bool → Option (Bytes × Bytes) → Option (Bytes × Bytes) → Option (Option (Bytes × Bytes))
keep final old none = some old
keep false old (some new) = some (some new)
keep true none (some new) = none
keep true (some old) (some new) = if new.1 == old.1 then some (some old) else none

abbrev pub frozen : Status → Bool
frozen in_progress = true
frozen s = is_final s

abbrev pub clashes : Bytes → Bytes → SearchCall → Bool
clashes query sum call =
    frozen call.status
    && not (is_empty call.exchange.query)
    && (not (query == call.exchange.query) || not (sum == call.input))

abbrev pub provisional : SearchExchange → SearchExchange
provisional x = if is_empty x.query then record x { query = bytes "pending" } else x

module _ (json : Json) (d : Decoders) where
  unfoldable pub canonical_digest : Bytes → Option Bytes
  canonical_digest raw = do
    canonical ← canonical_object json (bytes "{\"value\":" ++ raw ++ bytes "}")
    some (d.sha256 canonical)

  -- A field with its digest, if it is there.
  unfoldable pub digested : Bytes → Fields → Option (Option (Bytes × Bytes))
  digested k fs = elim (lookup k fs) [
    | none ↦ some none
    | some raw ↦ elim (canonical_digest raw) [ none ↦ none | some sum ↦ some (some (raw, sum)) ]
  ]

  -- The query of an input, which may be missing.
  unfoldable pub query_of : Bytes → Option Bytes
  query_of raw = do
    input ← object json raw
    elim (lookup (bytes "query") input) [ none ↦ some [] | some q ↦ json.unmarshal_string q ]

  -- `rawInput`: the query and its digest, which stay once the call runs.
  unfoldable pub take_input : Bytes → SearchCall → Option SearchCall
  take_input raw call = do
    query ← query_of raw
    sum ← canonical_digest raw
    if clashes query sum call
        then none
        else some (record call { exchange = record call.exchange { query = query }; input = sum })

  unfoldable pub set_input : Fields → SearchCall → Option SearchCall
  set_input fs call = elim (lookup (bytes "rawInput") fs) [
    | none ↦ some call
    | some raw ↦ take_input raw call
  ]

  unfoldable pub links_of : List Part → Option (List SearchResult)
  links_of [] = some []
  links_of (p ∷ ps) = do
    check (p.type == bytes "content" && p.content_type == bytes "resource_link")
    results ← links_of ps
    some (record { url = p.uri; title = if is_empty p.title then p.name else p.title } ∷ results)

  abbrev starts_list : Bytes → Bool
  starts_list [] = false
  starts_list (b ∷ raw) = b == 91

  unfoldable pub public_results : Bytes → Option (List SearchResult)
  public_results raw = do
    check (starts_list raw)
    parts ← d.parts raw
    check (leb (length parts) 32)
    links_of parts

  -- The results of a call, the native ones first.
  unfoldable pub results_of : SearchCall → Option (List SearchResult)
  results_of call = elim call.native [
    | some n ↦ d.native_results n.0 call.exchange.query
    | none ↦ elim call.output [ none ↦ some [] | some o ↦ public_results o.0 ]
  ]

  unfoldable pub take_results : List SearchResult → SearchCall → Option SearchCall
  take_results results call =
      let exchange = record call.exchange { results = results } in
      if d.valid exchange then some (record call { exchange = exchange }) else none

  unfoldable pub set_results : SearchCall → Option SearchCall
  set_results call =
      if same_status call.status completed && (is_some call.output || is_some call.native)
      then (results_of call >>= λ results. take_results results call)
      else some call

  -- What an update does to its call.
  unfoldable pub update_call : Fields → Status → SearchCall → Option SearchCall
  update_call fs status call₀ = do
    call ← set_input fs call₀
    check (d.valid (provisional call.exchange))
    content ← digested (bytes "content") fs
    output ← keep (is_final call.status) call.output content
    raw_output ← digested (bytes "rawOutput") fs
    native ← keep (is_final call.status) call.native raw_output
    call' ← set_status status (record call { output = output; native = native })
    set_results call'
