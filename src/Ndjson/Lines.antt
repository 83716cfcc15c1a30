-- ===== src/Ndjson/Lines.antt =====
-- `Read` against a description of the first line of the input.
use dax_kiro_proxy.Common.{
  none, ℕ, zero, suc, ◌≤◌, ◌<◌, ◌≡◌, refl, ap, ◌∙◌, inl, inr, Bool, true, false, [], ◌∷◌, ◌++◌,
  some, append_assoc, append-nil, length-append, arith, ℕ_eq, Bytes, ◌==◌, length, ltb,
  if◌then◌else◌, Bool-cases,
}
use dax_kiro_proxy.Ndjson.Reader.{
  newline, buffer_full, end_of_input, Slice, read_slice, ends_line, without_last, buffer_size, Read,
  frame, too_large, end_of_frames, broken_frame, read_from, read,
}

-- The bytes in front of the first end of a line, those behind it, and whether there is one.
unfoldable pub first_line : Bytes → Bytes
first_line [] = []
first_line (c ∷ cs) = if c == newline then [] else c ∷ first_line cs

unfoldable pub after_line : Bytes → Bytes
after_line [] = []
after_line (c ∷ cs) = if c == newline then cs else after_line cs

unfoldable pub has_line : Bytes → Bool
has_line [] = false
has_line (c ∷ cs) = if c == newline then true else has_line cs

-- What `Read` returns, by the first line.
unfoldable pub first_frame : ℕ → Bytes → Bytes → Read
first_frame limit so_far input =
    let line = so_far ++ first_line input in
    if ltb limit (length line)
    then too_large
    else if has_line input
    then frame line (after_line input)
    else if length line == 0
    then end_of_frames
    else broken_frame

ends_line-append : (l : Bytes) → ends_line (l ++ newline ∷ []) ≡ true
unfolding ends_line
ends_line-append [] = refl
ends_line-append (c ∷ []) = refl
ends_line-append (c ∷ d ∷ cs) = ends_line-append (d ∷ cs)

without_last-append : (l : Bytes) → without_last (l ++ newline ∷ []) ≡ l
unfolding without_last
without_last-append [] = refl
without_last-append (c ∷ []) = refl
without_last-append (c ∷ d ∷ cs) = ap (◌∷◌ c) (without_last-append (d ∷ cs))

ends_line-has_line : (l : Bytes) → has_line l ≡ false → ends_line l ≡ false
unfolding has_line ends_line
ends_line-has_line [] h = refl
ends_line-has_line (c ∷ []) h = ground arith
ends_line-has_line (c ∷ d ∷ cs) h = ground (arith, ends_line-has_line (d ∷ cs))

module _ (tail : Bytes) where
  first_line-append :
      (l : Bytes) → has_line l ≡ false → first_line (l ++ tail) ≡ l ++ first_line tail
  unfolding has_line first_line
  first_line-append [] h = refl
  first_line-append (c ∷ cs) h = ground (arith, first_line-append cs)

  after_line-append : (l : Bytes) → has_line l ≡ false → after_line (l ++ tail) ≡ after_line tail
  unfolding has_line after_line
  after_line-append [] h = refl
  after_line-append (c ∷ cs) h = ground (arith, after_line-append cs)

  has_line-append : (l : Bytes) → has_line l ≡ false → has_line (l ++ tail) ≡ has_line tail
  unfolding has_line
  has_line-append [] h = refl
  has_line-append (c ∷ cs) h = ground (arith, has_line-append cs)

-- The three ends of `ReadSlice`.
pub data SliceOf (room : ℕ) (input : Bytes) (s : Slice) : Type 0 where
  whole_line :
      (s.part ≡ first_line input ++ newline ∷ [])
      → s.tail ≡ after_line input
      → has_line input ≡ true
      → s.err ≡ none
      → SliceOf room input s
  full_part :
      input ≡ s.part ++ s.tail
      → length s.part ≡ room
      → has_line s.part ≡ false
      → s.err ≡ some buffer_full
      → SliceOf room input s
  last_part :
      s.part ≡ input → has_line input ≡ false → s.err ≡ some end_of_input → SliceOf room input s

pub read_slice-SliceOf : (room : ℕ) (input : Bytes) → SliceOf room input (read_slice room input)
unfolding read_slice first_line after_line has_line
read_slice-SliceOf zero input = full_part refl refl refl refl
read_slice-SliceOf (suc room) [] = last_part refl refl refl
read_slice-SliceOf (suc room) (c ∷ cs) = elim (Bool-cases (c == newline)) [
  | inl ends ↦ whole_line (ground arith) (ground arith) (ground arith) (ground arith)
  | inr inside ↦ elim (read_slice-SliceOf room cs) [
    | whole_line p t h e ↦ whole_line (ground arith) (ground arith) (ground arith) (ground arith)
    | full_part i n h e ↦ full_part (ground arith) (ground arith) (ground arith) (ground arith)
    | last_part p h e ↦ last_part (ground arith) (ground arith) (ground arith)
  ]
]

first_line_last : (l : Bytes) → has_line l ≡ false → first_line l ≡ l
unfolding has_line first_line
first_line_last [] h = refl
first_line_last (c ∷ cs) h = ground (arith, first_line_last cs)

-- The loop, from any frame within the limit.
read_from-first_frame :
    (fuel limit : ℕ) (so_far input : Bytes)
    → length so_far ≤ limit
    → length input < fuel
    → read_from fuel limit so_far input ≡ first_frame limit so_far input
unfolding read_from first_frame
read_from-first_frame zero limit so_far input l f = elim f [ ]
read_from-first_frame (suc fuel) limit so_far input l f =
    elim (read_slice-SliceOf buffer_size input) [
      | whole_line p t h e ↦ ground (
        arith,
        ap ends_line p ∙ ends_line-append (first_line input),
        ap without_last p ∙ without_last-append (first_line input),
        length-append so_far (first_line input),
      )
      | full_part i n h e ↦
          let s = read_slice buffer_size input in
          ground (
            arith,
            ends_line-has_line s.part h,
            ap first_line i ∙ first_line-append s.tail s.part h,
            ap after_line i ∙ after_line-append s.tail s.part h,
            ap has_line i ∙ has_line-append s.tail s.part h,
            read_from-first_frame fuel limit (so_far ++ s.part) s.tail,
            ap length i ∙ length-append s.part s.tail,
            length-append so_far s.part,
            length-append s.part (first_line s.tail),
            length-append so_far (s.part ++ first_line s.tail),
            append_assoc so_far s.part (first_line s.tail),
          )
      | last_part p h e ↦ ground (
        arith,
        ap ends_line p ∙ ends_line-has_line input h,
        first_line_last input h,
        length-append so_far input,
      )
    ]

-- `Read` returns the bytes in front of the first end of a line, and leaves those behind it, whatever
-- the buffer cuts; it fails if the line, or an input without an end of a line, is longer than the
-- limit, and tells an empty input from an unfinished line.
pub read-first_frame : (limit : ℕ) (input : Bytes) → read limit input ≡ first_frame limit [] input
unfolding read
read-first_frame limit input =
    read_from-first_frame (suc (length input)) limit [] input (omega arith) (omega arith)

first_of_newline : (others : Bytes) → first_line (newline ∷ others) ≡ []
unfolding first_line
first_of_newline others = refl

after_newline : (others : Bytes) → after_line (newline ∷ others) ≡ others
unfolding after_line
after_newline others = refl

has_newline : (others : Bytes) → has_line (newline ∷ others) ≡ true
unfolding has_line
has_newline others = refl

first_frame-append :
    (limit : ℕ) (line others : Bytes)
    → has_line line ≡ false
    → length line ≤ limit
    → first_frame limit [] (line ++ newline ∷ others) ≡ frame line others
unfolding first_frame
first_frame-append limit line others h l = ground (
  arith,
  first_line-append (newline ∷ others) line h,
  after_line-append (newline ∷ others) line h,
  has_line-append (newline ∷ others) line h,
  append-nil line,
  first_of_newline others,
  after_newline others,
  has_newline others,
)

-- A frame that is written with an end of a line behind it, and that has none inside and is within the
-- limit, is read back, and the input behind it is left.
pub read-append :
    (limit : ℕ) (line others : Bytes)
    → has_line line ≡ false
    → length line ≤ limit
    → read limit (line ++ newline ∷ others) ≡ frame line others
read-append limit line others h l =
    read-first_frame limit (line ++ newline ∷ others) ∙ first_frame-append limit line others h l
