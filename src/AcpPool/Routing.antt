-- ===== src/AcpPool/Routing.antt =====
-- The routes of a process, and what may wait in the queue of a lease.
use dax_kiro_proxy.Common.{
  ℕ, zero, suc, ◌+◌, ◌≡◌, ◌≢◌, refl, sym, ap, ◌∙◌, ◌⊎◌, inl, inr, Bool-cases, Bool, true, false,
  not, ◌&&◌, List, [], ◌∷◌, ◌++◌, none, some, map, arith, ℕ_eq, Bytes, Bytes_eq, ◌==◌, ==_iff,
  ==_refl, all, length, get_elem?, set, lookup, insert, leb, if◌then◌else◌, is_empty,
}
use dax_kiro_proxy.AcpPool.Group.{
  Config, Notification, Lease, Group, event_bytes_of, lease_err, end_lease,
}

abbrev pub queue_bytes : List Notification → ℕ
queue_bytes [] = 0
queue_bytes (n ∷ ns) = event_bytes_of n + queue_bytes ns

-- The session whose notifications a lease takes: its own, or the one that it waits for.
abbrev pub target : Lease → Bytes
target l = if is_empty l.id then l.candidate else l.id

abbrev pub for_session : Bytes → Notification → Bool
for_session id n = not (is_empty n.session_id) && n.session_id == id

-- What waits for a lease is for its session, is counted exactly and within the limits.
abbrev pub mail_ok : Config → Lease → Bool
mail_ok cfg l =
    all (for_session (target l)) l.queue
    && l.total == queue_bytes l.queue
    && leb (length l.queue) cfg.event_queue
    && leb l.total cfg.event_bytes

pub record Routing (cfg : Config) (g : Group) : Type 0 where
  pub mail : all (mail_ok cfg) g.leases ≡ true
  -- a route leads to the lease that has the identifier
  pub known :
      (id : Bytes) (h : ℕ)
      → lookup id g.routes ≡ some (some h)
      → (l : Lease) × (get_elem? g.leases h ≡ some l) × (l.id ≡ id) × (is_empty id ≡ false)
  -- a lease with an identifier has its route, which outlives it as a dead one
  pub bound :
      (h : ℕ) (l : Lease)
      → get_elem? g.leases h ≡ some l
      → is_empty l.id ≡ false
      → lookup l.id g.routes ≡ some (if l.live then some h else none)
  pub creator :
      (h : ℕ) → g.creating ≡ some h → (l : Lease) × (get_elem? g.leases h ≡ some l) × (l.id ≡ [])
  -- nothing waits for a lease that has no session and does not wait for one
  pub waiting :
      (h : ℕ) (l : Lease)
      → get_elem? g.leases h ≡ some l
      → l.id ≡ []
      → lease_err g l ≡ none
      → g.creating ≢ some h
      → l.queue ≡ []

pub get_elem?-set_self :
    (ls : List Lease) (i : ℕ) (old l : Lease)
    → get_elem? ls i ≡ some old
    → get_elem? (set ls i l) i ≡ some l
get_elem?-set_self [] i old l e = ground arith
get_elem?-set_self (x ∷ ls) zero old l e = refl
get_elem?-set_self (x ∷ ls) (suc i) old l e = get_elem?-set_self ls i old l e

pub get_elem?-set_other :
    (ls : List Lease) (i j : ℕ) (l : Lease) → i ≢ j → get_elem? (set ls i l) j ≡ get_elem? ls j
get_elem?-set_other [] i j l d = refl
get_elem?-set_other (x ∷ ls) zero zero l d = absurd (d refl)
get_elem?-set_other (x ∷ ls) zero (suc j) l d = refl
get_elem?-set_other (x ∷ ls) (suc i) zero l d = refl
get_elem?-set_other (x ∷ ls) (suc i) (suc j) l d = get_elem?-set_other ls i j l (λ e. d (ap suc e))

-- The lease at a place after a write.
pub get_elem?-set_cases :
    (ls : List Lease) (i j : ℕ) (old l x : Lease)
    → get_elem? ls i ≡ some old
    → get_elem? (set ls i l) j ≡ some x
    → ((i ≡ j) × (x ≡ l)) ⊎ ((i ≢ j) × (get_elem? ls j ≡ some x))
get_elem?-set_cases ls i j old l x found e = elim (Bool-cases (i == j)) [
  | inl equal_ ↦
      let here : i ≡ j = (==_iff i j).0 equal_ in
      inl (here, ground (arith, get_elem?-set_self ls i old l found, rw (← here) at e))
  | inr other ↦
      let apart : i ≢ j = λ same_. ground (arith, ==_iff i j) in
      inr (apart, sym (get_elem?-set_other ls i j l apart) ∙ e)
]

pub get_elem?-end_lease :
    (ls : List Lease) (h : ℕ) (l : Lease)
    → get_elem? (map end_lease ls) h ≡ some l
    → (old : Lease) × (get_elem? ls h ≡ some old) × (l ≡ end_lease old)
get_elem?-end_lease [] h l e = ground arith
get_elem?-end_lease (x ∷ ls) zero l e = (x, refl, ground arith)
get_elem?-end_lease (x ∷ ls) (suc h) l e = get_elem?-end_lease ls h l e

pub get_elem?-map :
    (ls : List Lease) (h : ℕ) (l : Lease)
    → get_elem? ls h ≡ some l
    → get_elem? (map end_lease ls) h ≡ some (end_lease l)
get_elem?-map [] h l e = ground arith
get_elem?-map (x ∷ ls) zero l e = ground arith
get_elem?-map (x ∷ ls) (suc h) l e = get_elem?-map ls h l e

module _ {ℓ} {V : Type ℓ} where
  pub lookup-insert_self :
      (k : Bytes) (v : V) (m : List (Bytes × V)) → lookup k (insert k v m) ≡ some v
  unfolding lookup insert
  lookup-insert_self k v [] = ground (arith, ==_refl k)
  lookup-insert_self k v ((j, w) ∷ m) = ground (arith, ==_refl k, lookup-insert_self k v m)

  pub lookup-insert_apart :
      (k j : Bytes) (v : V) (m : List (Bytes × V))
      → (k == j) ≡ false
      → lookup j (insert k v m) ≡ lookup j m
  unfolding lookup insert
  lookup-insert_apart k j v [] d = ground arith
  lookup-insert_apart k j v ((i, w) ∷ m) d =
      ground (arith, ==_iff i k, ==_iff i j, ==_iff k j, lookup-insert_apart k j v m)

pub mail_ok-end_lease :
    (cfg : Config) (ls : List Lease)
    → all (mail_ok cfg) ls ≡ true
    → all (mail_ok cfg) (map end_lease ls) ≡ true
mail_ok-end_lease cfg [] h = refl
mail_ok-end_lease cfg (l ∷ ls) h = ground (arith, mail_ok-end_lease cfg ls)

pub get_elem?-append_cases :
    (ls : List Lease) (new l : Lease) (h : ℕ)
    → get_elem? (ls ++ new ∷ []) h ≡ some l
    → (get_elem? ls h ≡ some l) ⊎ (l ≡ new)
get_elem?-append_cases [] new l zero e = inr (ground arith)
get_elem?-append_cases [] new l (suc h) e = ground arith
get_elem?-append_cases (x ∷ ls) new l zero e = inl e
get_elem?-append_cases (x ∷ ls) new l (suc h) e = get_elem?-append_cases ls new l h e

pub get_elem?-append :
    (ls : List Lease) (new l : Lease) (h : ℕ)
    → get_elem? ls h ≡ some l
    → get_elem? (ls ++ new ∷ []) h ≡ some l
get_elem?-append [] new l h e = ground arith
get_elem?-append (x ∷ ls) new l zero e = e
get_elem?-append (x ∷ ls) new l (suc h) e = get_elem?-append ls new l h e

-- Nothing is for the empty session.
pub for_session-empty : (ns : List Notification) → all (for_session []) ns ≡ true → ns ≡ []
for_session-empty [] h = refl
for_session-empty (n ∷ ns) h = ground (arith, ==_iff n.session_id [])
