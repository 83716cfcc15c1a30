-- ===== src/Anthropic/WellFormed.antt =====
-- Every method of a stream keeps it well formed.
use dax_kiro_proxy.Common.{
  ℕ, suc, ◌+◌, ◌≤◌, ◌≡◌, refl, subst, Bool, true, false, not, ◌&&◌, ◌||◌, List, [], ◌∷◌, some,
  arith, ℕ_eq, Bytes, ◌==◌, ==_refl, leb, if◌then◌else◌, is_some,
}
use dax_kiro_proxy.Anthropic.Stream.{
  ToolUse, text_block, Event, message_start, message_stop, ping, failure, block_start, block_stop,
  message_delta, TextStream, Outcome, done, refused, broken, ◌>>=◌, write, flush, event,
  begin_stream, start_text, text, stop_block, tool_packet, search_packet, max_search_uses,
  valid_tool, tool, search, end_stream, fail_stream, ping_stream,
}
use dax_kiro_proxy.Anthropic.Bracketing.{
  Phase, before, closing, over, between, inside, accept, accepts, phase, InStep, Post, At,
  bind-Post, Post-mono, write-Post, if-Post,
}

flush-Post : (q : Phase) (u s : TextStream) → At q u s → Post (At q u) (flush s)
unfolding flush
flush-Post q u s a = flushed s.calls
  where
    flushed :
        (calls : List Bool)
        → Post (At q u) (elim calls [
          | [] ↦ (s, done)
          | true ∷ rest ↦ (record s { calls = rest }, done)
          | false ∷ rest ↦ (record s { calls = rest }, broken)
        ])
    flushed [] = a
    flushed (true ∷ rest) = record {
      reader = a.reader;
      index = a.index;
      is_open = a.is_open;
      ended = a.ended;
    }
    flushed (false ∷ rest) = rw (a.reader) refl

event-Post :
    (e : Event) (s : TextStream) (p q : Phase)
    → accepts before s.written ≡ some p
    → accept p e ≡ some q
    → Post (At q s) (event e s)
unfolding event accepts
event-Post e s p q h k =
    bind-Post (At q s) (At q s) (write (e ∷ []) s) flush
      (write-Post (e ∷ []) s p q h (ground arith)) (λ u a. flush-Post q s u a)

-- A stream that is in step, open or not, and has not ended.
abbrev Opened : ℕ → Bool → TextStream → Type 0
Opened n o s = InStep s × (s.index ≡ n) × (s.is_open ≡ o) × (s.ended ≡ false)

start_text-Post :
    (s : TextStream)
    → InStep s
    → s.is_open ≡ false
    → s.ended ≡ false
    → Post (Opened s.index true) (start_text s)
unfolding start_text accept
start_text-Post s h closed alive =
    bind-Post (At (inside s.index text_block) s) (Opened s.index true)
      (event (block_start s.index text_block) s) _
      (event-Post _ s (between s.index) (inside s.index text_block) (ground arith)
        (ground (arith, ==_refl s.index)))
      (λ u a. ground (arith, a.reader, a.index, a.ended))

stop_block-Post :
    (s : TextStream)
    → InStep s
    → s.ended ≡ false
    → Post (Opened (if s.is_open then suc s.index else s.index) false) (stop_block s)
unfolding stop_block accept
stop_block-Post s h alive =
    if-Post (Opened (if s.is_open then suc s.index else s.index) false) (not s.is_open) (s, done) _
      (λ closed. ground arith)
      (λ open_.
        bind-Post (At (between (suc s.index)) s)
          (Opened (if s.is_open then suc s.index else s.index) false) (event (block_stop s.index) s)
          _
          (event-Post _ s (inside s.index text_block) (between (suc s.index)) (ground arith)
            (ground (arith, ==_refl s.index)))
          (λ u a. ground (arith, a.reader, a.index, a.ended)))

text-Post : (t : Bytes) (s : TextStream) → InStep s → Post InStep (text t s)
unfolding text accept
text-Post t s h =
    if-Post InStep s.ended (s, refused) _ (λ ended. h)
      (λ alive.
        bind-Post (Opened s.index true) InStep _ _
          (if-Post (Opened s.index true) s.is_open (s, done) (start_text s)
            (λ open_. (h, refl, open_, alive)) (λ closed. start_text-Post s h closed alive))
          (λ u (h', i, o, e).
            Post-mono (At (inside u.index text_block) u) InStep (event _ u)
              (event-Post _ u (inside u.index text_block) (inside u.index text_block) (ground arith)
                (ground (arith, ==_refl u.index)))
              (λ v a. ground (arith, a.reader, a.index, a.is_open, a.ended))))

packet-Post :
    (es : List Event) (s : TextStream) (n : ℕ) (f : TextStream → TextStream)
    → InStep s
    → s.is_open ≡ false
    → s.ended ≡ false
    → accepts (between s.index) es ≡ some (between n)
    → ((v : TextStream) → At (between n) s v → At (between n) (f v) (f v) × (InStep (f v)))
    → Post InStep (write es s >>= λ v. flush (f v))
packet-Post es s n f h closed alive ok next =
    bind-Post (At (between n) s) InStep (write es s) _
      (write-Post es s (between s.index) (between n) (ground arith) ok)
      (λ v a.
        let (a', step) = next v a in
        Post-mono (At (between n) (f v)) InStep (flush (f v))
          (flush-Post (between n) (f v) (f v) a')
          (λ w b. ground (arith, step, b.reader, b.index, b.is_open, b.ended, a'.reader)))

module _ (well_formed : Bytes → Bool) where
  tool-Post : (t : ToolUse) (s : TextStream) → InStep s → Post InStep (tool well_formed t s)
  unfolding tool accepts accept
  tool-Post t s h =
      if-Post InStep (s.ended || not (valid_tool well_formed t)) (s, refused) _ (λ bad. h)
        (λ ok.
          bind-Post (Opened (if s.is_open then suc s.index else s.index) false) InStep
            (stop_block s) _ (stop_block-Post s h (ground arith))
            (λ u (h', i, o, e).
              packet-Post (tool_packet t u.index) u (suc u.index)
                (λ v. record v { index = suc v.index }) h' o e (ground (arith, ==_refl u.index))
                (λ v a. ground (arith, a.reader, a.index, a.is_open, a.ended))))

search-Post :
    (valid : Bool) (query : Bytes) (s : TextStream) → InStep s → Post InStep (search valid query s)
unfolding search accepts accept
search-Post valid query s h =
    if-Post InStep (s.ended || not valid || leb max_search_uses s.searches) (s, refused) _
      (λ bad. h)
      (λ ok.
        bind-Post (Opened (if s.is_open then suc s.index else s.index) false) InStep (stop_block s)
          _ (stop_block-Post s h (ground arith))
          (λ u (h', i, o, e).
            packet-Post (search_packet query u.index) u (suc (suc u.index))
              (λ v. record v { index = v.index + 2; searches = suc v.searches }) h' o e
              (ground (arith, ==_refl u.index, ==_refl (suc u.index)))
              (λ v a. ground (arith, a.reader, a.index, a.is_open, a.ended))))

-- A stream that has ended and whose reader is behind the message.
abbrev pub Over : TextStream → Type 0
Over s = (accepts before s.written ≡ some over) × (s.ended ≡ true)

-- Between the steps of `End`.
abbrev Begun : TextStream → Type 0
Begun s = InStep s × (s.ended ≡ false) × ((s.is_open || leb 1 s.index) ≡ true)

abbrev Stopped : TextStream → Type 0
Stopped s = InStep s × (s.is_open ≡ false) × (s.ended ≡ false) × (1 ≤ s.index)

abbrev Delivered : TextStream → Type 0
Delivered s = accepts before s.written ≡ some closing

end_stream-Post : (s : TextStream) → InStep s → Post Over (end_stream s)
unfolding end_stream accept
end_stream-Post s h =
    if-Post Over s.ended (s, refused) _ (λ ended. h)
      (λ alive.
        bind-Post Delivered Over _ _
          (bind-Post Stopped Delivered _ _
            (bind-Post Begun Stopped _ stop_block
              (if-Post Begun (s.index == 0 && not s.is_open) (start_text s) (s, done)
                (λ empty.
                  Post-mono (Opened s.index true) Begun (start_text s)
                    (start_text-Post s h (ground arith) alive)
                    (λ u (h', i, o, e). (h', e, ground arith)))
                (λ some_. (h, alive, ground arith)))
              (λ u (h', e, full).
                Post-mono (Opened (if u.is_open then suc u.index else u.index) false) Stopped
                  (stop_block u) (stop_block-Post u h' e)
                  (λ v (h'', i, o, e'). (h'', o, e', ground arith))))
            (λ u (h', o, e, full).
              Post-mono (At closing u) Delivered (event (message_delta u.searches) u)
                (event-Post _ u (between u.index) closing (ground arith) (ground arith))
                (λ v a. a.reader)))
          (λ u reader.
            Post-mono (At over (record u { ended = true })) Over
              (event message_stop (record u { ended = true }))
              (event-Post message_stop (record u { ended = true }) closing over reader refl)
              (λ v a. (a.reader, a.ended))))

-- The methods that may be called on a stream.
pub data Call : Type 0 where
  texts : Bytes → Call
  tools : ToolUse → Call
  searching : Bool → Bytes → Call
  pings failing ends : Call

module _ (well_formed : Bytes → Bool) where
  unfoldable pub call : Call → TextStream → TextStream × Outcome
  call (texts t) s = text t s
  call (tools t) s = tool well_formed t s
  call (searching valid query) s = search valid query s
  call pings s = ping_stream s
  call failing s = fail_stream s
  call ends s = end_stream s

  -- Calls one after another, up to the first error of the writer.
  unfoldable pub call_all : List Call → TextStream × Outcome → TextStream × Outcome
  call_all cs (s, broken) = (s, broken)
  call_all [] (s, done) = (s, done)
  call_all [] (s, refused) = (s, refused)
  call_all (c ∷ cs) (s, done) = call_all cs (call c s)
  call_all (c ∷ cs) (s, refused) = call_all cs (call c s)

  steady-Post :
      (e : Event) (s : TextStream)
      → accept (phase s) e ≡ some (phase s)
      → InStep s
      → Post InStep (event e s)
  steady-Post e s ok h =
      Post-mono (At (phase s) s) InStep (event e s) (event-Post e s (phase s) (phase s) h ok)
        (λ u a. ground (arith, a.reader, a.index, a.is_open, a.ended))

  accept-ping : (s : TextStream) → s.ended ≡ false → accept (phase s) ping ≡ some (phase s)
  unfolding accept
  accept-ping s alive = ground arith

  accept-failure : (s : TextStream) → accept (phase s) failure ≡ some (phase s)
  unfolding accept
  accept-failure s = ground arith

  call-Post : (c : Call) (s : TextStream) → InStep s → Post InStep (call c s)
  unfolding call
  call-Post (texts t) s h = text-Post t s h
  call-Post (tools t) s h = tool-Post well_formed t s h
  call-Post (searching valid query) s h = search-Post valid query s h
  call-Post pings s h =
      unfold ping_stream in
      (if-Post InStep s.ended (s, refused) (event ping s) (λ ended. h)
        (λ alive. steady-Post ping s (accept-ping s alive) h))
  call-Post failing s h = unfold fail_stream in (steady-Post failure s (accept-failure s) h)
  call-Post ends s h =
      Post-mono Over InStep (end_stream s) (end_stream-Post s h) (λ u (reader, ended). ground arith)

  call_all-Post :
      (cs : List Call) (m : TextStream × Outcome) → Post InStep m → Post InStep (call_all cs m)
  unfolding call_all
  call_all-Post cs (s, broken) h = h
  call_all-Post [] (s, done) h = h
  call_all-Post [] (s, refused) h = h
  call_all-Post (c ∷ cs) (s, done) h = call_all-Post cs (call c s) (call-Post c s h)
  call_all-Post (c ∷ cs) (s, refused) h = call_all-Post cs (call c s) (call-Post c s h)

  begin_stream-Post : (calls : List Bool) → Post InStep (begin_stream calls)
  unfolding begin_stream
  begin_stream-Post calls =
      let s : TextStream = record {
        written = [];
        calls = calls;
        index = 0;
        is_open = false;
        ended = false;
        searches = 0;
      } in
      Post-mono (At (between 0) s) InStep (event message_start s)
        (event-Post message_start s before (between 0) start accept_start)
        (λ u a. ground (arith, a.reader, a.index, a.is_open, a.ended))
    where
      start : accepts before [] ≡ some before
      start = unfold accepts in refl

      accept_start : accept before message_start ≡ some (between 0)
      accept_start = unfold accept in refl

  readable :
      (m : TextStream × Outcome) → Post InStep m → is_some (accepts before m.0.written) ≡ true
  readable (s, done) h = ground arith
  readable (s, refused) h = ground arith
  readable (s, broken) h = h

  -- Whatever methods are called on a new stream, in any order, up to the first error of the writer, the
  -- events written are the beginning of a well-formed message: blocks are numbered from 0 without a
  -- gap and do not overlap, deltas are of their block's kind, and nothing but a failure follows the end.
  pub call_all-accepts :
      (cs : List Call) (calls : List Bool)
      → is_some (accepts before (call_all cs (begin_stream calls)).0.written) ≡ true
  call_all-accepts cs calls =
      readable (call_all cs (begin_stream calls))
        (call_all-Post cs (begin_stream calls) (begin_stream-Post calls))

  -- If `End` then succeeds, the message is complete.
  pub end_stream-over :
      (cs : List Call) (calls : List Bool) (s s' : TextStream)
      → call_all cs (begin_stream calls) ≡ (s, done)
      → end_stream s ≡ (s', done)
      → accepts before s'.written ≡ some over
  end_stream-over cs calls s s' called finished =
      let h : Post InStep (s, done) =
        subst (Post InStep) called
          (call_all-Post cs (begin_stream calls) (begin_stream-Post calls)) in
      let r : Post Over (s', done) = subst (Post Over) finished (end_stream-Post s h) in r.0
