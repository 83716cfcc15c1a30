-- ===== src/Acp/Retention.antt =====
-- The bounds on what is kept of the standard error.
use dax_kiro_proxy.Common.{
  ℕ, zero, suc, ◌+◌, ◌-◌, ◌≤◌, ◌<◌, ◌≡◌, refl, ap, ◌∙◌, Bool, true, false, List, [], ◌∷◌, ◌++◌,
  some, length-append, arith, ℕ_eq, Bytes, length,
}
use dax_kiro_proxy.Ndjson.Reader.{read_slice, buffer_size}
use dax_kiro_proxy.Ndjson.Lines.{
  whole_line, full_part, last_part, read_slice-SliceOf, after_line, has_line,
}
use dax_kiro_proxy.Acp.Stderr.{
  Tail, lines_limit, total_limit, add_fragment, trim, retainable_stderr, retain, stderr_loop,
}

abbrev total_length : List Bytes → ℕ
total_length [] = 0
total_length (l ∷ ls) = length l + total_length ls

total_length-append :
    (ls ks : List Bytes) → total_length (ls ++ ks) ≡ total_length ls + total_length ks
total_length-append [] ks = omega arith
total_length-append (l ∷ ls) ks = omega (arith, total_length-append ls ks)

-- The bytes kept are counted exactly, and the lines and their bytes stay within the limits.
pub record Bounded (t : Tail) : Type 0 where
  pub counted : t.total ≡ total_length t.lines
  pub few : length t.lines ≤ lines_limit
  pub small : t.total ≤ total_limit

record Trimmed (ls : List Bytes) (total : ℕ) : Type 0 where
  counted : (trim ls total).1 ≡ total_length (trim ls total).0
  few : length (trim ls total).0 ≤ lines_limit
  small : (trim ls total).1 ≤ total_limit

trim-Trimmed : (ls : List Bytes) (total : ℕ) → total ≡ total_length ls → Trimmed ls total
unfolding trim
trim-Trimmed [] total e = record { counted = e; few = omega arith; small = omega arith }
trim-Trimmed (l ∷ ls) total e =
    let r = trim-Trimmed ls (total - length l) (omega arith) in
    record {
      counted = ground (arith, r.counted);
      few = ground (arith, r.few);
      small = ground (arith, r.small);
    }

length-after_line : (bs : Bytes) → has_line bs ≡ true → length (after_line bs) < length bs
unfolding has_line after_line
length-after_line [] h = ground arith
length-after_line (b ∷ bs) h = ground (arith, length-after_line bs)

module _ (credential_hint : Bytes → Bool) where
  retain-Bounded :
      (line : Bytes) (cut : Bool) (t : Tail)
      → Bounded t
      → Bounded (retain credential_hint line cut t)
  unfolding retain
  retain-Bounded line cut t b =
      let retained = retainable_stderr credential_hint line cut in
      let r =
        trim-Trimmed (t.lines ++ retained ∷ []) (t.total + length retained)
          (omega (arith, b.counted, total_length-append t.lines (retained ∷ []))) in
      record {
        counted = ground (arith, r.counted, b.counted);
        few = ground (arith, r.few, b.few);
        small = ground (arith, r.small, b.small);
      }

  loop-Bounded :
      (fuel : ℕ) (line : Bytes) (cut : Bool) (input : Bytes) (t : Tail)
      → length input < fuel
      → Bounded t
      → (t' : Tail) × (stderr_loop credential_hint fuel line cut input t ≡ some t') × Bounded t'
  unfolding stderr_loop
  loop-Bounded zero line cut input t f b = elim f [ ]
  loop-Bounded (suc fuel) line cut input t f b =
      let s = read_slice buffer_size input in
      let (line', cut') = add_fragment line cut s.part in
      elim (read_slice-SliceOf buffer_size input) [
        | whole_line p behind h e ↦
            rw (e, stderr_loop)
              (loop-Bounded fuel [] false s.tail (retain credential_hint line' cut' t)
                (omega (arith, ap length behind, length-after_line input h))
                (retain-Bounded line' cut' t b))
        | full_part i n h e ↦
            rw (e, stderr_loop)
              (loop-Bounded fuel line' cut' s.tail t
                (omega (arith, ap length i ∙ length-append s.part s.tail, n)) b)
        | last_part p h e ↦
            rw (e, stderr_loop)
              (retain credential_hint line' cut' t, refl, retain-Bounded line' cut' t b)
      ]

  -- `stderrLoop` ends on every input, with fuel one more than its bytes. If the tail was bounded before,
  -- it is so after: the bytes of its lines are counted exactly, and it holds at most 64 lines and 65536
  -- bytes.
  pub stderr_loop-Bounded :
      (input : Bytes) (t : Tail)
      → Bounded t
      → (t' : Tail) × (stderr_loop credential_hint (suc (length input)) [] false input t ≡ some t')
        × Bounded t'
  stderr_loop-Bounded input t b = loop-Bounded (suc (length input)) [] false input t (omega arith) b
