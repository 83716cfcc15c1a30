-- ===== src/Lib.antt =====
-- dax-kiro-proxy: a local proxy that serves the Anthropic Messages API to Claude Code and runs the
-- model on Kiro over ACP, its Agent Client Protocol.
--
-- A request reaches the gateway (internal/gateway), which decodes it (internal/anthropic); the session
-- (internal/session) plans it against the stored conversation (internal/history) and prompts a
-- leased ACP session (internal/acppool, internal/acp). The tools of the client are declared to Kiro by a
-- relay (internal/relay): a tool call is suspended there until the client sends its result with the
-- next request.
--
--   Common          lists, byte strings, maps and tests that all parts use. A Go string is the list of
--                   its bytes; a Go map is an association list without a repeated key.
--   Json            encoding/json and unicode/utf8, as a record of functions.
--   Ndjson          internal/ndjson/frame.go, `Object` and `members`, and internal/jsoncanon;
--                   Ndjson/Grammar is the grammar of the frames; Ndjson/Reader is `Reader.Read`.
--   Anthropic       internal/anthropic/request.go: the request and `LatestUserIndex`; Anthropic/Stream is the
--                   `TextStream` of response.go and web_search.go, Anthropic/Bracketing a reader of its events.
--   History         internal/history/history.go: `Plan`, `Complete`, `Pending`, `Nodes`, `Message`,
--                   `Valid`; History/Canonical is `canonicalBlock`. HMAC-SHA-256 and hexadecimal text are
--                   parameters, with the laws of History.Validity.CryptoLaws.
--   Relay           internal/relay/broker.go: Relay/State the broker and its failure, Relay/Calls the
--                   turns and the admission of calls, Relay/Batches `Seal`, `Delivered`, `Resolve` and
--                   `Abandon`, Relay/Content the validation of results. Each method under the lock is one
--                   function; the runs of several goroutines are the sequences of
--                   Relay.Invariant.Step. The registry's answer, the random identifiers and the context
--                   are arguments of the steps; that a random identifier is not that of a suspended call
--                   is a premise of the step that queues a call.
--   Session         internal/session/continuation.go: Session/Continuation is `continuationPlan`,
--                   `repeatedSystem`, `rotatedStanding` and `sameResultIDs`; Session/Standing describes
--                   a repeated standing instruction.
--                   internal/session/manager.go: Session/Manager has one function for each section under the
--                   lock, Session/Starts the runs of `Start`, `Prune`, `Close` and the turns; Session/Bindings,
--                   Users, Taking, Passing and Events follow the bindings through a run.
--   Acp             internal/acp/stderr.go: Acp/Stderr is `stderrLoop`, and the tail of lines that it keeps.
--   AcpPool         internal/acppool/pool.go: AcpPool/Group is one process, its leases and its router,
--                   AcpPool/Moves its runs, AcpPool/Pool the pool, AcpPool/Runs the runs of the pool. Each
--                   section under the lock is one function. The client's error is a field that an event
--                   sets once; the walk through a map may change its order at any time.
--   Websearch       internal/websearch/budget.go: Websearch/Budget is `TakeBudget` and `BudgetCount` over the
--                   slots whose files exist, and the interleaved runs of the hook's processes.
--                   internal/websearch/collector.go: SearchCalls is a call and its updates, Collector is
--                   `observe` and `finish`; Settling, Collecting and Collected follow a session.
--   Tools           internal/toolregistry/registry.go: Tools/Declarations reads the declarations, Tools/Aliases
--                   is the loop of `build` over the aliases, Tools/Registry the rest of `build`, `Lookup` and
--                   `Validate`. internal/schemawire/input.go is Tools/Schema.
--   Catalog         internal/catalog/cache.go: Catalog/Cache has one function for each section under the lock,
--                   Catalog/Readers their runs, with discoveries that end and readers that wake at any time.
--                   internal/catalog/catalog.go: Catalog/Models is `New`, `Resolve`, `ClientID` and `Backend`.
--   Kiro            internal/kirofeature/effort.go: Kiro/Effort has one function for each method,
--                   Kiro/Refusals runs them in any order and collects what the peer refused.
--   Examples        the theorems at concrete inputs, and tests.
--
-- Errors that a caller cannot tell apart are `none`; the others are the constructors of an error type.
-- The loop over the aliases runs on 48 rounds for each tool, and one more: a digest has 64 letters, and
-- each round takes two more of one. The recursion of `members` runs on fuel, one more than the tokens of the frame, and
-- the loops of `Read` and `stderrLoop` on one more than the bytes of the
-- input: each round but the last takes at least one of them.
-- Not modelled: processes, sockets, files, HTTP and timers themselves, which are input and output, and the
-- parts of PROJECT.json that are listed there as not modelled.
pub mod Common
pub mod Json
pub mod Ndjson
pub mod Anthropic
pub mod History
pub mod Relay
pub mod Examples
pub mod Session
pub mod Websearch
pub mod Tools
pub mod Kiro
pub mod Catalog
pub mod Acp
pub mod AcpPool
