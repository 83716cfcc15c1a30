-- ===== src/Ndjson/Reader.antt =====
-- internal/ndjson/frame.go: `Reader.Read`, which takes one line off the input in parts as large as the
-- buffer of the `bufio.Reader`. The input is the bytes up to its end, read errors other than its end
-- are left out; the limit is not negative.
use dax_kiro_proxy.Common.{
  ℕ, zero, suc, ◌-◌, Bool, true, false, [], ◌∷◌, ◌++◌, Option, none, some, ℕ_eq, Bytes, ◌==◌,
  length, ltb, if◌then◌else◌,
}

abbrev pub newline : ℕ
newline = 10

pub data SliceError : Type 0 where
  buffer_full end_of_input : SliceError

-- What `ReadSlice` returns, and the input behind it.
pub record Slice : Type 0 where
  pub part : Bytes
  pub tail : Bytes
  pub err : Option SliceError

-- `bufio.Reader.ReadSlice` for the end of a line, with room for so many bytes in the buffer.
unfoldable pub read_slice : ℕ → Bytes → Slice
read_slice zero input = record { part = []; tail = input; err = some buffer_full }
read_slice (suc room) [] = record { part = []; tail = []; err = some end_of_input }
read_slice (suc room) (c ∷ cs) =
    let others = read_slice room cs in
    if c == newline
    then record { part = c ∷ []; tail = cs; err = none }
    else record others { part = c ∷ others.part }

-- The last byte of a part: whether it ends the line, and the part without it.
unfoldable pub ends_line : Bytes → Bool
ends_line [] = false
ends_line (c ∷ []) = c == newline
ends_line (c ∷ d ∷ cs) = ends_line (d ∷ cs)

unfoldable pub without_last : Bytes → Bytes
without_last [] = []
without_last (c ∷ []) = []
without_last (c ∷ d ∷ cs) = c ∷ without_last (d ∷ cs)

abbrev pub buffer_size : ℕ
buffer_size = 4096

-- A frame and the input behind it, or an error.
pub data Read : Type 0 where
  frame : Bytes → Bytes → Read
  too_large end_of_frames broken_frame : Read
  -- the fuel ran out
  no_fuel : Read

-- The loop of `Read`, with the frame so far.
unfoldable pub read_from : ℕ → ℕ → Bytes → Bytes → Read
read_from zero limit so_far input = no_fuel
read_from (suc fuel) limit so_far input =
    let slice = read_slice buffer_size input in
    let terminated = ends_line slice.part in
    let part = if terminated then without_last slice.part else slice.part in
    let so_far' = so_far ++ part in
    if ltb (limit - length so_far) (length part) then too_large else elim terminated [
      | true ↦ frame so_far' slice.tail
      | false ↦ elim slice.err [
        | some end_of_input ↦ if length so_far' == 0 then end_of_frames else broken_frame
        | _ ↦ read_from fuel limit so_far' slice.tail
      ]
    ]

unfoldable pub read : ℕ → Bytes → Read
read limit input = read_from (suc (length input)) limit [] input
