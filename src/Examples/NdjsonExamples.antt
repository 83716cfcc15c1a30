-- ===== src/Examples/NdjsonExamples.antt =====
-- The tokens of {"a": [1, {}], "b": "c"}.
use dax_kiro_proxy.Common.{◌↔◌, ◌≢◌, refl, List, [], ◌∷◌, bytes, ◌≡◌, equal}
use dax_kiro_proxy.Json.{
  Token, open_brace, close_brace, open_bracket, close_bracket, string, scalar,
}
use dax_kiro_proxy.Ndjson.{
  rest, exhausted, invalid, document, members, scan, read_key, read_value, more, finish,
}
use dax_kiro_proxy.Ndjson.Grammar.{Members, member_tokens, MembersOk}
use dax_kiro_proxy.Common.{◌++◌, arith, Bytes, false}
use dax_kiro_proxy.Ndjson.Reader.{
  Read, too_large, broken_frame, newline, read, read_from, read_slice, ends_line, without_last,
}
use dax_kiro_proxy.Ndjson.Lines.{has_line, first_frame, read-first_frame, read-append}
use dax_kiro_proxy.Ndjson.Soundness.{document_iff, document-ne-exhausted}

abbrev tokens : List Token
tokens =
    open_brace
    ∷ string (bytes "a")
    ∷ open_bracket
    ∷ scalar
    ∷ open_brace
    ∷ close_brace
    ∷ close_bracket
    ∷ string (bytes "b")
    ∷ string (bytes "c")
    ∷ close_brace
    ∷ []

accepts_frame : document tokens ≡ rest []
unfolding document members scan read_key read_value more finish equal
accepts_frame = refl

refuses_repeated_key :
    document (open_brace ∷ string [] ∷ scalar ∷ string [] ∷ scalar ∷ close_brace ∷ []) ≡ invalid
unfolding document members scan read_key read_value more finish equal
refuses_repeated_key = refl

document_iff_example : (document tokens ≡ rest []) ↔ (
    (m : Members) × (tokens ≡ open_brace ∷ member_tokens m (close_brace ∷ [])) × MembersOk 1 [] m)
document_iff_example = document_iff tokens

document-ne-exhausted_example : document tokens ≢ exhausted
document-ne-exhausted_example = document-ne-exhausted tokens

-- Two lines, the second without its end.
abbrev input : Bytes
input = bytes "{}" ++ newline ∷ bytes "[1"

reads_first : read 2 input ≡ Read.frame (bytes "{}") (bytes "[1")
unfolding read read_from read_slice ends_line without_last
reads_first = refl

refuses_long_line : read 1 input ≡ too_large
unfolding read read_from read_slice ends_line without_last
refuses_long_line = refl

refuses_unfinished_line : read 2 (bytes "[1") ≡ broken_frame
unfolding read read_from read_slice ends_line without_last
refuses_unfinished_line = refl

read-first_frame_example : read 2 input ≡ first_frame 2 [] input
read-first_frame_example = read-first_frame 2 input

no_line_inside : has_line (bytes "{}") ≡ false
unfolding has_line
no_line_inside = refl

read-append_example : read 2 input ≡ Read.frame (bytes "{}") (bytes "[1")
read-append_example = read-append 2 (bytes "{}") (bytes "[1") no_line_inside (omega arith)
