-- ===== src/Acp/Stderr.antt =====
-- internal/acp/stderr.go: the bounded tail of the standard error of the process. The regular expression
-- of credentials is a parameter; the check for a failed authentication and the retirement of the client
-- are left out. The input is the bytes up to its end.
use dax_kiro_proxy.Common.{
  ℕ, zero, suc, ◌+◌, ◌-◌, Bool, true, false, ◌||◌, List, [], ◌∷◌, ◌++◌, Option, none, some, ℕ_eq,
  Bytes, bytes, ◌==◌, length, ltb, take, if◌then◌else◌,
}
use dax_kiro_proxy.Ndjson.Reader.{buffer_full, end_of_input, read_slice, buffer_size}

-- `stderrTail`, `stderrBytes` and `truncated` of the client.
pub record Tail : Type 0 where
  pub lines : List Bytes
  pub total : ℕ
  pub truncated : ℕ

abbrev pub line_limit : ℕ
line_limit = 4096

abbrev pub lines_limit : ℕ
lines_limit = 64

abbrev pub total_limit : ℕ
total_limit = 65536

-- The line so far, and whether it was cut, with one more fragment.
unfoldable pub add_fragment : Bytes → Bool → Bytes → Bytes × Bool
add_fragment line cut fragment =
    if ltb (line_limit - length line) (length fragment)
    then (line ++ take (line_limit - length line) fragment, true)
    else (line ++ fragment, cut)

-- The loop that drops the oldest lines.
unfoldable pub trim : List Bytes → ℕ → List Bytes × ℕ
trim [] total = ([], total)
trim (l ∷ ls) total =
    let fewer = trim ls (total - length l) in
    if ltb lines_limit (length (l ∷ ls)) || ltb total_limit total then fewer else (l ∷ ls, total)

module _ (credential_hint : Bytes → Bool) where
  unfoldable pub retainable_stderr : Bytes → Bool → Bytes
  retainable_stderr line cut =
      if cut
      then bytes "[stderr line omitted: size limit]"
      else if credential_hint line
      then bytes "[credential-bearing stderr omitted]"
      else line

  -- What the loop does with a line that has ended.
  unfoldable pub retain : Bytes → Bool → Tail → Tail
  retain line cut t =
      let retained = retainable_stderr line cut in
      let (lines, total) = trim (t.lines ++ retained ∷ []) (t.total + length retained) in
      if length line == 0 then t else record {
        lines = lines;
        total = total;
        truncated = if cut then t.truncated + 1 else t.truncated;
      }

  -- `stderrLoop`; `none` if the fuel runs out.
  unfoldable pub stderr_loop : ℕ → Bytes → Bool → Bytes → Tail → Option Tail
  stderr_loop zero line cut input t = none
  stderr_loop (suc fuel) line cut input t =
      let slice = read_slice buffer_size input in
      let (line', cut') = add_fragment line cut slice.part in
      elim slice.err [
        | some buffer_full ↦ stderr_loop fuel line' cut' slice.tail t
        | some end_of_input ↦ some (retain line' cut' t)
        | none ↦ stderr_loop fuel [] false slice.tail (retain line' cut' t)
      ]
