-- ===== src/Anthropic/Stream.antt =====
-- internal/anthropic/response.go and web_search.go: the event stream of a response. `written` holds the
-- events written so far; each call of the writer or of `flush` takes the next of `calls`, which tells
-- whether it succeeds, and all calls succeed once the list is used up. The JSON text of an event is
-- left out, and so are the bytes that a failing write may leave.
use dax_kiro_proxy.Common.{
  ℕ, suc, ◌+◌, Bool, true, false, not, ◌&&◌, ◌||◌, List, [], ◌∷◌, ◌++◌, ℕ_eq, Bytes, ◌==◌, all,
  length, leb, if◌then◌else◌,
}

pub record ToolUse : Type 0 where
  pub id : Bytes
  pub name : Bytes
  pub input : Bytes

pub data Kind : Type 0 where
  text_block tool_block search_block result_block : Kind

-- A block's start and delta, with the content of the delta.
pub data Event : Type 0 where
  message_start message_stop ping failure : Event
  block_start : ℕ → Kind → Event
  block_delta : ℕ → Kind → Bytes → Event
  block_stop : ℕ → Event
  message_delta : ℕ → Event

pub record TextStream : Type 0 where
  pub written : List Event
  pub calls : List Bool
  pub index : ℕ
  pub is_open : Bool
  pub ended : Bool
  pub searches : ℕ

-- A method has succeeded, has refused without any effect, or has met an error of the writer.
pub data Outcome : Type 0 where
  done refused broken : Outcome

infixl 5 ◌>>=◌
abbrev pub ◌>>=◌ : TextStream × Outcome → (TextStream → TextStream × Outcome) → TextStream × Outcome
◌>>=◌ (s, done) f = f s
◌>>=◌ (s, refused) f = (s, refused)
◌>>=◌ (s, broken) f = (s, broken)

unfoldable pub write : List Event → TextStream → TextStream × Outcome
write events s = elim s.calls [
  | [] ↦ (record s { written = s.written ++ events }, done)
  | true ∷ rest ↦ (record s { written = s.written ++ events; calls = rest }, done)
  | false ∷ rest ↦ (record s { calls = rest }, broken)
]

unfoldable pub flush : TextStream → TextStream × Outcome
flush s = elim s.calls [
  | [] ↦ (s, done)
  | true ∷ rest ↦ (record s { calls = rest }, done)
  | false ∷ rest ↦ (record s { calls = rest }, broken)
]

-- `packet`
unfoldable pub event : Event → TextStream → TextStream × Outcome
event e s = write (e ∷ []) s >>= flush

unfoldable pub begin_stream : List Bool → TextStream × Outcome
begin_stream calls = event message_start (record {
  written = [];
  calls = calls;
  index = 0;
  is_open = false;
  ended = false;
  searches = 0;
})

unfoldable pub start_text : TextStream → TextStream × Outcome
start_text s =
    event (block_start s.index text_block) s >>= λ s'. (record s' { is_open = true }, done)

unfoldable pub text : Bytes → TextStream → TextStream × Outcome
text t s =
    if s.ended
    then (s, refused)
    else (if s.is_open then (s, done) else start_text s) >>= λ s'.
        event (block_delta s'.index text_block t) s'

unfoldable pub stop_block : TextStream → TextStream × Outcome
stop_block s =
    if not s.is_open
    then (s, done)
    else event (block_stop s.index) s >>= λ s'.
        (record s' { is_open = false; index = suc s'.index }, done)

-- `toolPacket` and `searchPacket`
abbrev pub tool_packet : ToolUse → ℕ → List Event
tool_packet t index =
    block_start index tool_block ∷ block_delta index tool_block t.input ∷ block_stop index ∷ []

abbrev pub search_packet : Bytes → ℕ → List Event
search_packet query index =
    block_start index search_block
    ∷ block_delta index search_block query
    ∷ block_stop index
    ∷ block_start (suc index) result_block
    ∷ block_stop (suc index)
    ∷ []

abbrev name_byte : ℕ → Bool
name_byte c =
    (leb b'a' c && leb c b'z')
    || (leb b'A' c && leb c b'Z')
    || (leb b'0' c && leb c b'9')
    || c == b'_'
    || c == b'-'

abbrev pub max_search_uses : ℕ
max_search_uses = 8

-- `well_formed` tells whether `schemawire.Arguments` takes an input.
module _ (well_formed : Bytes → Bool) where
  unfoldable pub valid_tool : ToolUse → Bool
  valid_tool t =
      leb 1 (length t.id)
      && leb (length t.id) 96
      && leb 1 (length t.name)
      && leb (length t.name) 64
      && all name_byte t.id
      && all name_byte t.name
      && well_formed t.input

  unfoldable pub tool : ToolUse → TextStream → TextStream × Outcome
  tool t s =
      if s.ended || not (valid_tool t)
      then (s, refused)
      else stop_block s >>= λ s'.
          write (tool_packet t s'.index) s' >>= λ s''. flush (record s'' { index = suc s''.index })

-- `valid` is the outcome of `SearchExchange.Valid`.
unfoldable pub search : Bool → Bytes → TextStream → TextStream × Outcome
search valid query s =
    if s.ended || not valid || leb max_search_uses s.searches
    then (s, refused)
    else stop_block s >>= λ s'. write (search_packet query s'.index) s' >>= λ s''.
        flush (record s'' { index = s''.index + 2; searches = suc s''.searches })

-- `End`
unfoldable pub end_stream : TextStream → TextStream × Outcome
end_stream s =
    if s.ended
    then (s, refused)
    else (if s.index == 0 && not s.is_open then start_text s else (s, done))
      >>= stop_block
      >>= (λ s'. event (message_delta s'.searches) s')
      >>= (λ s'. event message_stop (record s' { ended = true }))

unfoldable pub fail_stream : TextStream → TextStream × Outcome
fail_stream s = event failure s

unfoldable pub ping_stream : TextStream → TextStream × Outcome
ping_stream s = if s.ended then (s, refused) else event ping s
