-- ===== src/Examples/StreamExamples.antt =====
-- A stream of a text, a tool call and the end.
use dax_kiro_proxy.Common.{◌≡◌, refl, true, false, List, [], ◌∷◌, some, Bool, Bytes, bytes, is_some}
use dax_kiro_proxy.Anthropic.Stream.{
  ToolUse, Event, TextStream, done, begin_stream, write, flush, event, text, start_text, stop_block,
  tool, valid_tool, end_stream, message_start, block_start, block_delta, block_stop, message_delta,
  message_stop, text_block, tool_block,
}
use dax_kiro_proxy.Anthropic.Bracketing.{accepts, before, over}
use dax_kiro_proxy.Anthropic.WellFormed.{
  Call, texts, tools, call, call_all, call_all-accepts, end_stream-over,
}

abbrev lookup_tool : ToolUse
lookup_tool = record { id = bytes "t1"; name = bytes "look"; input = bytes "{}" }

abbrev takes_all : Bytes → Bool
takes_all b = true

abbrev methods : List Call
methods = texts (bytes "hi") ∷ tools lookup_tool ∷ []

-- The fourth call of the writer fails.
call_all-accepts_example :
    is_some (
      accepts before
        (call_all takes_all methods (begin_stream (true ∷ true ∷ true ∷ false ∷ []))).0.written)
    ≡ true
call_all-accepts_example = call_all-accepts takes_all methods (true ∷ true ∷ true ∷ false ∷ [])

abbrev spoken : List Event
spoken =
    message_start
    ∷ block_start 0 text_block
    ∷ block_delta 0 text_block (bytes "hi")
    ∷ block_stop 0
    ∷ block_start 1 tool_block
    ∷ block_delta 1 tool_block (bytes "{}")
    ∷ block_stop 1
    ∷ []

abbrev called : TextStream
called = record {
  written = spoken;
  calls = [];
  index = 2;
  is_open = false;
  ended = false;
  searches = 0;
}

abbrev ended : TextStream
ended = record {
  written =
      message_start
      ∷ block_start 0 text_block
      ∷ block_delta 0 text_block (bytes "hi")
      ∷ block_stop 0
      ∷ block_start 1 tool_block
      ∷ block_delta 1 tool_block (bytes "{}")
      ∷ block_stop 1
      ∷ message_delta 0
      ∷ message_stop
      ∷ [];
  calls = [];
  index = 2;
  is_open = false;
  ended = true;
  searches = 0;
}

calls_methods : call_all takes_all methods (begin_stream []) ≡ (called, done)
unfolding call_all call begin_stream event write flush text start_text stop_block tool valid_tool
calls_methods = refl

ends_message : end_stream called ≡ (ended, done)
unfolding end_stream event write flush stop_block
ends_message = refl

end_stream-over_example : accepts before ended.written ≡ some over
end_stream-over_example =
    end_stream-over takes_all methods [] called ended calls_methods ends_message
