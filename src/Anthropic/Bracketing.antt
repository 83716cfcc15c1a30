-- ===== src/Anthropic/Bracketing.antt =====
-- The order of the events of a stream: a reader that accepts exactly the well-formed messages.
use dax_kiro_proxy.Common.{
  ℕ, suc, ◌≡◌, refl, ◌∙◌, Bool, true, false, ◌&&◌, List, [], ◌∷◌, ◌++◌, Option, none, some, arith,
  ℕ_eq, ◌==◌, leb, if◌then◌else◌, is_some,
}
use dax_kiro_proxy.Anthropic.Stream.{
  Kind, text_block, tool_block, search_block, result_block, Event, message_start, message_stop,
  ping, failure, block_start, block_delta, block_stop, message_delta, TextStream, Outcome, done,
  refused, broken, ◌>>=◌, write,
}

-- Where a reader of the stream is: between two blocks with the number of those read, inside a block, at
-- the end of the message, or behind it.
pub data Phase : Type 0 where
  before closing over : Phase
  between : ℕ → Phase
  inside : ℕ → Kind → Phase

abbrev same_kind : Kind → Kind → Bool
same_kind text_block text_block = true
same_kind tool_block tool_block = true
same_kind search_block search_block = true
same_kind result_block result_block = true
same_kind _ _ = false

-- Blocks are numbered from 0 without gaps and do not overlap, a delta is of the block's kind, and the
-- message ends once, after at least one block; pings may stand inside the message, and failures
-- anywhere behind its start.
unfoldable pub accept : Phase → Event → Option Phase
accept before message_start = some (between 0)
accept before _ = none
accept over failure = some over
accept over _ = none
accept (between n) (block_start m k) = if m == n then some (inside n k) else none
accept (inside n k) (block_delta m j t) =
    if m == n && same_kind j k then some (inside n k) else none
accept (inside n k) (block_stop m) = if m == n then some (between (suc n)) else none
accept (between n) (message_delta u) = if leb 1 n then some closing else none
accept closing message_stop = some over
accept p ping = some p
accept p failure = some p
accept _ _ = none

unfoldable pub accepts : Phase → List Event → Option Phase
accepts p [] = some p
accepts p (e ∷ es) = elim (accept p e) [ none ↦ none | some q ↦ accepts q es ]

accepts-append :
    (p q : Phase) (es fs : List Event) → accepts p es ≡ some q → accepts p (es ++ fs) ≡ accepts q fs
unfolding accepts
accepts-append p q [] fs h = ground arith
accepts-append p q (e ∷ es) fs h =
    elim (accept p e)
        as (λ o.
          elim o [ none ↦ none | some r ↦ accepts r es ] ≡ some q
          → elim o [ none ↦ none | some r ↦ accepts r (es ++ fs) ] ≡ accepts q fs) [
            | none ↦ λ k. ground arith
            | some r ↦ λ k. accepts-append r q es fs k
          ]
      h

-- Where the reader of a stream is, by the stream's own state.
abbrev pub phase : TextStream → Phase
phase s = if s.ended then over else if s.is_open then inside s.index text_block else between s.index

-- The stream is readable, and its state tells where the reader is.
abbrev pub InStep : TextStream → Type 0
InStep s = accepts before s.written ≡ some (phase s)

-- What holds of the result of a method: `Q` of the stream if it succeeds, nothing changed if it refuses,
-- and a readable stream if the writer fails.
abbrev pub Post : (TextStream → Type 0) → TextStream × Outcome → Type 0
Post Q (s, done) = Q s
Post Q (s, refused) = InStep s
Post Q (s, broken) = is_some (accepts before s.written) ≡ true

-- The stream `u`, with more written and its reader at `q`.
pub record At (q : Phase) (u s : TextStream) : Type 0 where
  pub reader : accepts before s.written ≡ some q
  pub index : s.index ≡ u.index
  pub is_open : s.is_open ≡ u.is_open
  pub ended : s.ended ≡ u.ended

pub bind-Post :
    (P Q : TextStream → Type 0) (m : TextStream × Outcome) (f : TextStream → TextStream × Outcome)
    → Post P m
    → ((s : TextStream) → P s → Post Q (f s))
    → Post Q (m >>= f)
bind-Post P Q (s, done) f h k = k s h
bind-Post P Q (s, refused) f h k = h
bind-Post P Q (s, broken) f h k = h

pub Post-mono :
    (P Q : TextStream → Type 0) (m : TextStream × Outcome)
    → Post P m
    → ((s : TextStream) → P s → Q s)
    → Post Q m
Post-mono P Q (s, done) h k = k s h
Post-mono P Q (s, refused) h k = h
Post-mono P Q (s, broken) h k = h

pub write-Post :
    (es : List Event) (s : TextStream) (p q : Phase)
    → accepts before s.written ≡ some p
    → accepts p es ≡ some q
    → Post (At q s) (write es s)
unfolding write
write-Post es s p q h k = written s.calls
  where
    more : accepts before (s.written ++ es) ≡ some q
    more = accepts-append before p s.written es h ∙ k

    written :
        (calls : List Bool)
        → Post (At q s) (elim calls [
          | [] ↦ (record s { written = s.written ++ es }, done)
          | true ∷ rest ↦ (record s { written = s.written ++ es; calls = rest }, done)
          | false ∷ rest ↦ (record s { calls = rest }, broken)
        ])
    written [] = record { reader = more; index = refl; is_open = refl; ended = refl }
    written (true ∷ rest) = record { reader = more; index = refl; is_open = refl; ended = refl }
    written (false ∷ rest) = rw h refl

pub if-Post :
    (Q : TextStream → Type 0) (b : Bool) (m m' : TextStream × Outcome)
    → (b ≡ true → Post Q m)
    → (b ≡ false → Post Q m')
    → Post Q (if b then m else m')
if-Post Q true m m' h k = h refl
if-Post Q false m m' h k = k refl
