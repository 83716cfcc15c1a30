-- ===== src/Examples/AcpExamples.antt =====
-- A line that is kept, one with a credential, and one without its end.
use dax_kiro_proxy.Common.{
  suc, ◌≡◌, refl, Bool, false, [], ◌∷◌, ◌++◌, some, arith, Bytes, bytes, length, nat_eq,
}
use dax_kiro_proxy.Ndjson.Reader.{newline, read_slice}
use dax_kiro_proxy.Acp.Stderr.{Tail, stderr_loop, retain, retainable_stderr, add_fragment, trim}
use dax_kiro_proxy.Acp.Retention.{Bounded, stderr_loop-Bounded}

-- Lines that start with `p` count as credentials.
abbrev hint : Bytes → Bool
hint [] = false
hint (b ∷ bs) = nat_eq b b'p'

abbrev input : Bytes
input = bytes "ab" ++ newline ∷ (bytes "pw" ++ newline ∷ bytes "c")

abbrev nothing : Tail
nothing = record { lines = []; total = 0; truncated = 0 }

nothing-Bounded : Bounded nothing
nothing-Bounded = record { counted = refl; few = omega arith; small = omega arith }

keeps_three :
    stderr_loop hint 9 [] false input nothing
    ≡ some (record {
      lines =
          (bytes "ab" ++ newline ∷ [])
          ∷ bytes "[credential-bearing stderr omitted]"
          ∷ bytes "c"
          ∷ [];
      total = 39;
      truncated = 0;
    })
unfolding stderr_loop retain retainable_stderr add_fragment trim read_slice
keeps_three = refl

stderr_loop-Bounded_example :
    (t' : Tail) × (stderr_loop hint (suc (length input)) [] false input nothing ≡ some t')
    × Bounded t'
stderr_loop-Bounded_example = stderr_loop-Bounded hint input nothing nothing-Bounded
