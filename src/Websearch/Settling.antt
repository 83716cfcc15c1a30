-- ===== src/Websearch/Settling.antt =====
-- internal/websearch/collector.go: what an update does to its call.
use dax_kiro_proxy.Common.{
  ◌≡◌, refl, ap, ◌∙◌, Bool, true, false, ◌&&◌, ◌||◌, List, Option, none, some, arith, ℕ_eq,
  Bytes_eq, ==_iff, Bytes, bytes, ◌==◌, lookup, if◌then◌else◌, is_some, is_empty, ◌>>=◌, Post,
  bind-Post, skip-Post, Post-mono, if-Post,
}
use dax_kiro_proxy.Json.{Json, Fields}
use dax_kiro_proxy.Websearch.SearchCalls.{
  SearchResult, Status, unset, pending, in_progress, completed, failed, SearchCall, Decoders,
  is_final, same_status, set_status, keep, canonical_digest, digested, clashes, query_of,
  take_input, set_input, results_of, take_results, set_results, update_call,
}

-- What an update leaves of a call that has ended.
pub record Settled (a b : SearchCall) : Type 0 where
  pub status : b.status ≡ a.status
  pub output : b.output ≡ a.output
  pub native : b.native ≡ a.native
  pub id : b.exchange.id ≡ a.exchange.id
  pub query : is_empty a.exchange.query ≡ false → b.exchange.query ≡ a.exchange.query

abbrev pub Settles : SearchCall → SearchCall → Type 0
Settles a b = is_final a.status ≡ true → Settled a b

pub Settled-refl : (a : SearchCall) → Settled a a
Settled-refl a = record {
  status = refl;
  output = refl;
  native = refl;
  id = refl;
  query = λ h. refl;
}

pub Settled-trans : (a b c : SearchCall) → Settled a b → Settled b c → Settled a c
Settled-trans a b c h k = record {
  status = k.status ∙ h.status;
  output = k.output ∙ h.output;
  native = k.native ∙ h.native;
  id = k.id ∙ h.id;
  query = λ e. ground (arith, h.query e, k.query);
}

keep-Post :
    (final : Bool) (old new : Option (Bytes × Bytes))
    → Post (λ kept. final ≡ true → kept ≡ old) (keep final old new)
unfolding keep
keep-Post final old none = λ h. refl
keep-Post false old (some new) = λ h. ground arith
keep-Post true none (some new) = tt
keep-Post true (some old) (some new) =
    if-Post (λ kept. true ≡ true → kept ≡ some old) (new.1 == old.1) _ _ (λ e h. refl) (λ e. tt)

-- `set_status`, whatever it tests and sets.
change-Post :
    (call next : SearchCall) (same stale : Bool)
    → Post (Settles call) (
        if is_final call.status
        then (if same then some call else none)
        else if stale
        then none
        else some next)
change-Post call next same stale =
    if-Post (Settles call) (is_final call.status) _ _
      (λ e. if-Post (Settles call) same _ _ (λ f h. Settled-refl call) (λ f. tt))
      (λ e. if-Post (Settles call) stale _ _ (λ f. tt) (λ f h. ground arith))

set_status-Post : (s : Status) (call : SearchCall) → Post (Settles call) (set_status s call)
unfolding set_status
set_status-Post unset call = λ h. Settled-refl call
set_status-Post pending call = change-Post call _ (same_status pending call.status) _
set_status-Post in_progress call = change-Post call _ (same_status in_progress call.status) _
set_status-Post completed call = change-Post call _ (same_status completed call.status) _
set_status-Post failed call = change-Post call _ (same_status failed call.status) _

take_results-Post :
    (json : Json) (d : Decoders) (results : List SearchResult) (call : SearchCall)
    → Post (Settles call) (take_results json d results call)
unfolding take_results
take_results-Post json d results call =
    if-Post (Settles call) (d.valid (record call.exchange { results = results })) _ _
      (λ e h. record { status = refl; output = refl; native = refl; id = refl; query = λ q. refl })
      (λ e. tt)

set_results-Post :
    (json : Json) (d : Decoders) (call : SearchCall) → Post (Settles call) (set_results json d call)
unfolding set_results
set_results-Post json d call =
    if-Post (Settles call)
      (same_status call.status completed && (is_some call.output || is_some call.native))
      (results_of json d call >>= λ results. take_results json d results call) (some call)
      (λ e.
        skip-Post (Settles call) (results_of json d call) _
          (λ results. take_results-Post json d results call))
      (λ e h. Settled-refl call)

take_input-Post :
    (json : Json) (d : Decoders) (raw : Bytes) (call : SearchCall)
    → Post (Settles call) (take_input json d raw call)
unfolding take_input
take_input-Post json d raw call = skip-Post (Settles call) (query_of json d raw) _ (λ query.
    skip-Post (Settles call) (canonical_digest json d raw) _ (λ sum.
      if-Post (Settles call) (clashes query sum call) none
        (some (record call { exchange = record call.exchange { query = query }; input = sum }))
        (λ e. tt)
        (λ e h. record {
          status = refl;
          output = refl;
          native = refl;
          id = refl;
          query = λ q. ground (arith, ==_iff query call.exchange.query);
        })))

set_input-Post :
    (json : Json) (d : Decoders) (fs : Fields) (call : SearchCall)
    → Post (Settles call) (set_input json d fs call)
unfolding set_input
set_input-Post json d fs call = given (lookup (bytes "rawInput") fs)
  where
    given :
        (m : Option Bytes)
        → Post (Settles call) (elim m [ none ↦ some call | some raw ↦ take_input json d raw call ])
    given none = λ h. Settled-refl call
    given (some raw) = take_input-Post json d raw call

Settles-trans : (a b c : SearchCall) → Settles a b → Settles b c → Settles a c
Settles-trans a b c h k e = Settled-trans a b c (h e) (k (ap is_final (h e).status ∙ e))

pub update_call-Post :
    (json : Json) (d : Decoders) (fs : Fields) (s : Status) (call : SearchCall)
    → Post (Settles call) (update_call json d fs s call)
unfolding update_call
update_call-Post json d fs s call =
    bind-Post (Settles call) (Settles call) (set_input json d fs call) _
      (set_input-Post json d fs call)
      (λ c h. skip-Post (Settles call) _ _ (λ u.
        skip-Post (Settles call) (digested json d (bytes "content") fs) _ (λ content.
          bind-Post _ (Settles call) (keep (is_final c.status) c.output content) _
            (keep-Post (is_final c.status) c.output content)
            (λ output ho.
              skip-Post (Settles call) (digested json d (bytes "rawOutput") fs) _ (λ raw_output.
                bind-Post _ (Settles call) (keep (is_final c.status) c.native raw_output) _
                  (keep-Post (is_final c.status) c.native raw_output)
                  (λ native hn.
                    let mid = record c { output = output; native = native } in
                    let kept : Settles c mid = λ e. record {
                      status = refl;
                      output = ho e;
                      native = hn e;
                      id = refl;
                      query = λ q. refl;
                    } in
                    bind-Post (Settles mid) (Settles call) (set_status s mid) _
                      (set_status-Post s mid)
                      (λ c' h'.
                        Post-mono (Settles c') (Settles call) (set_results json d c')
                          (set_results-Post json d c')
                          (λ c'' h''.
                            Settles-trans call c c'' h (
                              Settles-trans c mid c'' kept
                                (Settles-trans mid c' c'' h' h''))))))))))
