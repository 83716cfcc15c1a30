-- ===== src/AcpPool/Isolation.antt =====
-- Every step of a process keeps its routes and queues right.
use dax_kiro_proxy.Common.{
  ℕ, ◌+◌, ◌-◌, ◌≤◌, ◌<◌, ◌≡◌, ◌≢◌, refl, sym, ap, subst, ◌∙◌, ◌⊎◌, inl, inr, Bool-cases,
  Option-cases, true, not, ◌&&◌, List, [], ◌∷◌, ◌++◌, Option, none, some, arith, ℕ_eq, Bytes,
  Bytes_eq, ◌==◌, ==_iff, ==_refl, length, length-append, all-append, get_elem?, set, lookup,
  insert, if◌then◌else◌, is_empty,
}
use dax_kiro_proxy.AcpPool.Group.{
  Error, overloaded_error, Config, Notification, Lease, Group, event_bytes_of, lease_err, end_lease,
  retire, put_lease, queued, drop_lease, released, take_event, expect, go_idle, go_busy, enqueue,
}
use dax_kiro_proxy.AcpPool.Counts.{all-set, all-get_elem?}
use dax_kiro_proxy.AcpPool.Routing.{
  queue_bytes, target, for_session, mail_ok, Routing, get_elem?-set_self, get_elem?-set_other,
  get_elem?-set_cases, get_elem?-end_lease, get_elem?-map, lookup-insert_self, lookup-insert_apart,
  mail_ok-end_lease,
}

lookup-dead :
    (k id : Bytes) (routes : List (Bytes × Option ℕ))
    → lookup id (if is_empty k then routes else insert k none routes)
      ≡ (if not (is_empty k) && k == id then some none else lookup id routes)
lookup-dead k id routes = elim (Bool-cases (k == id)) [
  | inl same_ ↦
      let here : k ≡ id = (==_iff k id).0 same_ in
      ground (arith, lookup-insert_self k none routes, ==_refl id)
  | inr apart ↦ ground (arith, lookup-insert_apart k id none routes)
]

queue_bytes-append_one :
    (ns : List Notification) (n : Notification)
    → queue_bytes (ns ++ n ∷ []) ≡ queue_bytes ns + event_bytes_of n
queue_bytes-append_one [] n = omega arith
queue_bytes-append_one (m ∷ ns) n = omega (arith, queue_bytes-append_one ns n)

-- A write that keeps the identifier of a lease keeps that of every lease.
set-keeps :
    (ls new : List Lease) (h k : ℕ) (old l x : Lease) (id : Bytes)
    → new ≡ set ls h l
    → get_elem? ls h ≡ some old
    → l.id ≡ old.id
    → get_elem? ls k ≡ some x
    → x.id ≡ id
    → (y : Lease) × (get_elem? new k ≡ some y) × (y.id ≡ id)
set-keeps ls new h k old l x id is found same_id was has = elim (Bool-cases (h == k)) [
  | inl equal_ ↦
      let here : h ≡ k = (==_iff h k).0 equal_ in
      let put = get_elem?-set_self ls h old l found in
      (l, rw is (subst (λ j. get_elem? (set ls h l) j ≡ some l) here put), ground arith)
  | inr other ↦
      let apart : h ≢ k = λ here. ground (arith, ==_iff h k) in
      (x, rw is (get_elem?-set_other ls h k l apart ∙ was), has)
]

module _ (cfg : Config) where
  pub retire-Routing : (e : Error) (g : Group) → Routing cfg g → Routing cfg (retire e g)
  unfolding retire
  retire-Routing e g r = elim (Option-cases g.err) [
    | inr (f, failed) ↦ rw (failed, retire) r
    | inl alive ↦
        rw (alive, retire)
          (record {
            mail = mail_ok-end_lease cfg g.leases r.mail;
            known = λ id h route.
                let (l, found, has, some_) = r.known id h route in
                (end_lease l, get_elem?-map g.leases h l found, ground arith, some_);
            bound = λ h l found has.
                let (old, was, is) = get_elem?-end_lease g.leases h l found in
                let before = r.bound h old was (ground arith) in ground arith;
            creator = λ h creating.
                let (l, found, has) = r.creator h creating in
                (end_lease l, get_elem?-map g.leases h l found, ground arith);
            waiting = λ h l found has fine other. ground arith;
          })
  ]

  -- A lease that is overwritten and keeps its identifier.
  rewrite-Routing :
      (g g' : Group) (h : ℕ) (old l : Lease)
      → get_elem? g.leases h ≡ some old
      → g'.leases ≡ set g.leases h l
      → g'.routes ≡ g.routes
      → g'.err ≡ g.err
      → g'.client_err ≡ g.client_err
      → (l.id ≡ old.id) × (l.live ≡ old.live)
      → mail_ok cfg l ≡ true
      → ((k : ℕ) → g'.creating ≡ some k → (g.creating ≡ some k) ⊎ ((k ≡ h) × (l.id ≡ [])))
      → ((k : ℕ) → g.creating ≡ some k → g'.creating ≡ some k)
      → (l.id ≡ [] → lease_err g l ≡ none → g'.creating ≢ some h → l.queue ≡ [])
      → Routing cfg g
      → Routing cfg g'
  rewrite-Routing g g' h old l found ls ro er ce (same_id, same_live) ok from to quiet r = record {
    mail = rw ls (all-set (mail_ok cfg) g.leases h l r.mail ok);
    known = λ id k route.
        let (x, was, has, some_) = r.known id k (rw ro at route) in
        let (y, is, kept) = set-keeps g.leases g'.leases h k old l x id ls found same_id was has in
        (y, is, kept, some_);
    bound = λ k x at_ has. elim (get_elem?-set_cases g.leases h k old l x found (rw ls at at_)) [
      | inl (here, is) ↦ let before = r.bound h old found (ground arith) in rw ro (ground arith)
      | inr (_, was) ↦ rw ro (r.bound k x was has)
    ];
    creator = λ k creating. elim (from k creating) [
      | inl before ↦
          let (x, was, has) = r.creator k before in
          set-keeps g.leases g'.leases h k old l x [] ls found same_id was has
      | inr (here, nothing) ↦
          (l, rw (ls, here) (get_elem?-set_self g.leases h old l found), nothing)
    ];
    waiting = λ k x at_ has fine other.
        elim (get_elem?-set_cases g.leases h k old l x found (rw ls at at_)) [
          | inl (here, is) ↦
              ap (λ (y : Lease). y.queue) is
              ∙ quiet (ground arith) (ground arith) (λ e. other (e ∙ ap some here))
          | inr (_, was) ↦ r.waiting k x was has (ground arith) (λ e. other (to k e))
        ];
  }

  -- The same, where the process expects the same lease as before.
  steady-Routing :
      (g g' : Group) (h : ℕ) (old l : Lease)
      → get_elem? g.leases h ≡ some old
      → g'.leases ≡ set g.leases h l
      → (g'.routes ≡ g.routes)
        × (g'.err ≡ g.err)
        × (g'.client_err ≡ g.client_err)
        × (g'.creating ≡ g.creating)
      → (l.id ≡ old.id) × (l.live ≡ old.live) × (l.err ≡ old.err)
      → mail_ok cfg l ≡ true
      → (old.queue ≡ [] → g.creating ≢ some h → l.id ≡ [] → l.queue ≡ [])
      → Routing cfg g
      → Routing cfg g'
  steady-Routing g g' h old l found ls (ro, er, ce, cr) (same_id, same_live, same_err) ok quiet r =
      rewrite-Routing g g' h old l found ls ro er ce (same_id, same_live) ok
        (λ k e. inl (sym cr ∙ e)) (λ k e. cr ∙ e)
        (λ nothing fine other.
          quiet (r.waiting h old found (sym same_id ∙ nothing) (ground arith) (λ e. other (cr ∙ e)))
            (λ e. other (cr ∙ e)) nothing)
        r

  pub go_idle-Routing :
      (now h : ℕ) (l : Lease) (g : Group)
      → get_elem? g.leases h ≡ some l
      → Routing cfg g
      → Routing cfg (go_idle now h l g)
  unfolding go_idle
  go_idle-Routing now h l g found r =
      steady-Routing g _ h l _ found refl (refl, refl, refl, refl) (refl, refl, refl)
        (all-get_elem? (mail_ok cfg) g.leases h l r.mail found) (λ q _ _. q) r

  pub go_busy-Routing :
      (h : ℕ) (l : Lease) (g : Group)
      → get_elem? g.leases h ≡ some l
      → Routing cfg g
      → Routing cfg (go_busy h l g)
  unfolding go_busy
  go_busy-Routing h l g found r =
      steady-Routing g _ h l _ found refl (refl, refl, refl, refl) (refl, refl, refl)
        (all-get_elem? (mail_ok cfg) g.leases h l r.mail found) (λ q _ _. q) r

  pub take_event-Routing :
      (h : ℕ) (l : Lease) (n : Notification) (ns : List Notification) (g : Group)
      → get_elem? g.leases h ≡ some l
      → l.queue ≡ n ∷ ns
      → Routing cfg g
      → Routing cfg (take_event h l n ns g)
  unfolding take_event
  take_event-Routing h l n ns g found q r =
      let ok = all-get_elem? (mail_ok cfg) g.leases h l r.mail found in
      steady-Routing g _ h l _ found refl (refl, refl, refl, refl) (refl, refl, refl) (ground arith)
        (λ none_ _ _. ground arith) r

  pub expect-Routing :
      (h : ℕ) (l : Lease) (load_id : Bytes) (g : Group)
      → get_elem? g.leases h ≡ some l
      → l.id ≡ []
      → g.creating ≡ none
      → lease_err g l ≡ none
      → Routing cfg g
      → Routing cfg (expect h l load_id g)
  unfolding expect
  expect-Routing h l load_id g found nothing nobody fine r =
      let quiet : l.queue ≡ [] = r.waiting h l found nothing fine (λ e. ground arith) in
      let ok = all-get_elem? (mail_ok cfg) g.leases h l r.mail found in
      rewrite-Routing g _ h l _ found refl refl refl refl (refl, refl) (ground arith)
        (λ k e. inr (ground arith, nothing)) (λ k e. ground arith) (λ _ _ _. quiet) r

  queued-mail_ok :
      (n : Notification) (l : Lease)
      → mail_ok cfg l ≡ true
      → for_session (target l) n ≡ true
      → length l.queue < cfg.event_queue
      → event_bytes_of n ≤ cfg.event_bytes - l.total
      → mail_ok cfg (queued n l) ≡ true
  queued-mail_ok n l ok fits few small = ground (
    arith,
    all-append (for_session (target l)) l.queue (n ∷ []),
    length-append l.queue (n ∷ []),
    queue_bytes-append_one l.queue n,
  )

  pub enqueue-Routing :
      (n : Notification) (h : ℕ) (old l : Lease) (g : Group)
      → get_elem? g.leases h ≡ some old
      → (l.id ≡ old.id) × (l.live ≡ old.live) × (l.err ≡ old.err) × (l.queue ≡ old.queue)
      → mail_ok cfg l ≡ true
      → for_session (target l) n ≡ true
      → (l.id ≡ [] → g.creating ≡ some h)
      → Routing cfg g
      → Routing cfg (enqueue cfg n h l g).0
  unfolding enqueue
  enqueue-Routing n h old l g found (same_id, same_live, same_err, same_queue) ok fits mine r =
      let put : Routing cfg (put_lease h l g) =
        steady-Routing g _ h old l found refl (refl, refl, refl, refl)
          (same_id, same_live, same_err) ok (λ q _ _. same_queue ∙ q) r in
      let more : mail_ok cfg (queued n l) ≡ true → Routing cfg (put_lease h (queued n l) g) = λ ok'.
        steady-Routing g _ h old (queued n l) found refl (refl, refl, refl, refl)
          (same_id, same_live, same_err) ok' (λ _ other nothing. absurd (other (mine nothing))) r in
      ground (
        arith,
        put,
        queued-mail_ok n l ok fits,
        more,
        retire-Routing overloaded_error (put_lease h l g) put,
      )

  pub drop_lease-Routing :
      (h : ℕ) (l : Lease) (g : Group)
      → get_elem? g.leases h ≡ some l
      → l.live ≡ true
      → Routing cfg g
      → Routing cfg (drop_lease h l g)
  unfolding drop_lease released
  drop_lease-Routing h l g found alive r = record {
    mail = all-set (mail_ok cfg) g.leases h _ r.mail (ground arith);
    known = λ id k route.
        let (x, was, has, some_) = r.known id k (ground (arith, lookup-dead l.id id g.routes)) in
        let (y, is, kept) = set-keeps g.leases _ h k l (released l) x id refl found refl was has in
        (y, is, kept, some_);
    bound = λ k x at_ has. elim (get_elem?-set_cases g.leases h k l (released l) x found at_) [
      | inl (here, is) ↦ ground (arith, lookup-dead l.id x.id g.routes, ==_refl l.id)
      | inr (apart, was) ↦ ground (
        arith,
        lookup-dead l.id x.id g.routes,
        r.bound k x was has,
        r.bound h l found,
        ==_iff l.id x.id,
      )
    ];
    creator = λ k creating.
        let (x, was, has) = r.creator k creating in
        set-keeps g.leases _ h k l (released l) x [] refl found refl was has;
    waiting = λ k x at_ has fine other.
        elim (get_elem?-set_cases g.leases h k l (released l) x found at_) [
          | inl (here, is) ↦ ground arith
          | inr (_, was) ↦ r.waiting k x was has fine other
        ];
  }
