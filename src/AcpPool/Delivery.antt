-- ===== src/AcpPool/Delivery.antt =====
-- The routes and queues in the runs of a process.
use dax_kiro_proxy.Common.{
  ℕ, ◌≤◌, ◌≡◌, refl, inl, inr, Bool-cases, Option-cases, Bool, true, false, not, ◌&&◌, [], Option,
  none, some, arith, ℕ_eq, Bytes, Bytes_eq, ◌==◌, ==_iff, ==_refl, get_elem?, lookup, is_some,
  is_empty,
}
use dax_kiro_proxy.AcpPool.Group.{
  Error, closed_error, protocol_error, Config, Notification, Lease, Group, lease_err, new_group,
  no_leases, retire, drop_lease, set_idle, release_idle, try_next, begin_create, fail_create,
  end_create, deliver, enqueue, start,
}
use dax_kiro_proxy.AcpPool.Moves.{
  Move, retires, leases_again, starts, sets_idle, releases, begins, fails, creates, receives, reads,
  client_ends, move, is_creating, Reach, launched, moved,
}
use dax_kiro_proxy.AcpPool.Counting.{Reach-Counts}
use dax_kiro_proxy.AcpPool.Counts.{Counts, lease_ok, Queue-cases, all-get_elem?}
use dax_kiro_proxy.AcpPool.Routing.{target, for_session, mail_ok, Routing, for_session-empty}
use dax_kiro_proxy.AcpPool.Isolation.{
  retire-Routing, go_idle-Routing, go_busy-Routing, take_event-Routing, expect-Routing,
  enqueue-Routing, drop_lease-Routing,
}
use dax_kiro_proxy.AcpPool.Sessions.{bind_id-Routing, add_lease-Routing, give_up-Routing}

module _ (cfg : Config) where
  -- A process that fails while it gives up a creation.
  retire-give_up :
      (e : Error) (g : Group)
      → Routing cfg g
      → Routing cfg (retire e (record g { creating = none }))
  unfolding retire
  retire-give_up e g r = elim (Option-cases g.err) [
    | inr (f, failed) ↦
        rw (failed, retire) (give_up-Routing cfg g (λ h l c found fine. ground arith) r)
    | inl alive ↦
        let done : retire e (record g { creating = none })
            ≡ record (retire e g) { creating = none } =
          ground arith in
        rw done (
          give_up-Routing cfg (retire e g) (λ h l c found fine. ground arith)
            (retire-Routing cfg e g r))
  ]

  fail_create-Routing : (e : Error) (g : Group) → Routing cfg g → Routing cfg (fail_create e g)
  unfolding fail_create
  fail_create-Routing e g r = retire-give_up e g r

  set_idle-Routing :
      (now h : ℕ) (idle : Bool) (g : Group) → Routing cfg g → Routing cfg (set_idle now h idle g).0
  unfolding set_idle
  set_idle-Routing now h idle g r = elim (Option-cases (get_elem? g.leases h)) [
    | inl missing ↦ rw (missing, set_idle) r
    | inr (l, found) ↦
        ground (arith, r, go_idle-Routing cfg now h l g found r, go_busy-Routing cfg h l g found r)
  ]

  release_idle-Routing :
      (h : ℕ) (g : Group) → Counts cfg g → Routing cfg g → Routing cfg (release_idle cfg h g).0
  unfolding release_idle
  release_idle-Routing h g c r = elim (Option-cases (get_elem? g.leases h)) [
    | inl missing ↦ rw (missing, release_idle) r
    | inr (l, found) ↦ elim (Option-cases l.err) [
      | inr (e, gone) ↦ ground (arith, r)
      | inl there ↦
          let ok = all-get_elem? (lease_ok (is_some g.err)) g.leases h l c.leases found in
          let dropped = drop_lease-Routing cfg h l g found (ground arith) r in
          ground (arith, r, dropped, retire-Routing cfg closed_error (drop_lease h l g) dropped)
    ]
  ]

  try_next-Routing : (h : ℕ) (g : Group) → Routing cfg g → Routing cfg (try_next h g).0
  unfolding try_next
  try_next-Routing h g r = elim (Option-cases (get_elem? g.leases h)) [
    | inl missing ↦ rw (missing, try_next) r
    | inr (l, found) ↦ elim (Queue-cases l.queue) [
      | inl nothing ↦ ground (arith, r)
      | inr (n, ns, some_) ↦ ground (arith, r, take_event-Routing cfg h l n ns g found some_ r)
    ]
  ]

  begin_create-Routing :
      (h : ℕ) (load_id : Bytes) (g : Group)
      → Routing cfg g
      → Routing cfg (begin_create h load_id g).0
  unfolding begin_create
  begin_create-Routing h load_id g r = elim (Option-cases (get_elem? g.leases h)) [
    | inl missing ↦ rw (missing, begin_create) r
    | inr (l, found) ↦ elim (Option-cases (lease_err g l)) [
      | inr (e, failed) ↦ ground (arith, r)
      | inl fine ↦ ground (arith, r, expect-Routing cfg h l load_id g found)
    ]
  ]

  end_create-Routing :
      (h : ℕ) (id : Bytes) (g : Group)
      → g.creating ≡ some h
      → is_empty id ≡ false
      → Counts cfg g
      → Routing cfg g
      → Routing cfg (end_create h id g).0
  unfolding end_create
  end_create-Routing h id g mine some_ c r =
      let (l, found, nothing) = r.creator h mine in
      elim (Option-cases (lease_err g l)) [
        | inr (e, failed) ↦
            let given_up = give_up-Routing cfg g (λ k x creating was alive. ground (arith)) r in
            ground (arith, given_up)
        | inl fine ↦
            let ok = all-get_elem? (lease_ok (is_some g.err)) g.leases h l c.leases found in
            ground (
              arith,
              retire-give_up protocol_error g r,
              bind_id-Routing cfg h l id g found nothing (ground arith) mine some_,
            )
      ]

  -- The lease that is created waits for the session of its first notification.
  waits-mail_ok :
      (n : Notification) (l : Lease)
      → l.id ≡ []
      → (not (is_empty l.candidate) && not (l.candidate == n.session_id)) ≡ false
      → mail_ok cfg l ≡ true
      → mail_ok cfg (record l { candidate = n.session_id }) ≡ true
  waits-mail_ok n l nothing fits ok = elim (Bool-cases (l.candidate == n.session_id)) [
    | inl equal_ ↦
        let here : l.candidate ≡ n.session_id = (==_iff l.candidate n.session_id).0 equal_ in
        ground arith
    | inr apart ↦
        let free : l.candidate ≡ [] = ground arith in
        let empty : l.queue ≡ [] = for_session-empty l.queue (ground arith) in ground arith
  ]

  deliver_known-Routing :
      (n : Notification) (h : ℕ) (g : Group)
      → lookup n.session_id g.routes ≡ some (some h)
      → Routing cfg g
      → Routing cfg (deliver cfg n g).0
  unfolding deliver
  deliver_known-Routing n h g e r =
      let (l, found, has, some_) = r.known n.session_id h e in
      let fits : for_session (target l) n ≡ true = ground (arith, ==_refl n.session_id) in
      let ok = all-get_elem? (mail_ok cfg) g.leases h l r.mail found in
      ground (
        arith,
        r,
        retire-Routing cfg protocol_error g r,
        enqueue-Routing cfg n h l l g found (refl, refl, refl, refl) ok fits
            (λ nothing. ground arith) r,
      )

  deliver_unknown-Routing :
      (n : Notification) (h : ℕ) (g : Group)
      → lookup n.session_id g.routes ≡ none
      → g.creating ≡ some h
      → Routing cfg g
      → Routing cfg (deliver cfg n g).0
  unfolding deliver
  deliver_unknown-Routing n h g e mine r =
      let (l, found, nothing) = r.creator h mine in
      let ok = all-get_elem? (mail_ok cfg) g.leases h l r.mail found in
      let put : is_empty n.session_id ≡ false
          → (not (is_empty l.candidate) && not (l.candidate == n.session_id)) ≡ false
          → Routing cfg (enqueue cfg n h (record l { candidate = n.session_id }) g).0 =
        λ some_ fits.
          enqueue-Routing cfg n h l (record l { candidate = n.session_id }) g found
            (refl, refl, refl, refl) (waits-mail_ok n l nothing fits ok)
            (ground (arith, ==_refl n.session_id)) (λ _. mine) r in
      ground (arith, r, retire-Routing cfg protocol_error g r, put)

  deliver-Routing : (n : Notification) (g : Group) → Routing cfg g → Routing cfg (deliver cfg n g).0
  unfolding deliver
  deliver-Routing n g r = elim (Option-cases (lookup n.session_id g.routes)) [
    | inr (none, gone) ↦ ground (arith, r, retire-Routing cfg protocol_error g r)
    | inr (some h, known) ↦ deliver_known-Routing n h g known r
    | inl unknown ↦ elim (Option-cases g.creating) [
      | inl nobody ↦ ground (arith, r, retire-Routing cfg protocol_error g r)
      | inr (h, creator) ↦ deliver_unknown-Routing n h g unknown creator r
    ]
  ]

  launched_on : (g : Group) → Routing cfg g → Routing cfg (record g { started = true })
  launched_on g r = record {
    mail = r.mail;
    known = r.known;
    bound = r.bound;
    creator = r.creator;
    waiting = r.waiting;
  }

  client_gone :
      (e : Error) (g : Group) → Routing cfg g → Routing cfg (record g { client_err = some e })
  client_gone e g r = record {
    mail = r.mail;
    known = r.known;
    bound = r.bound;
    creator = r.creator;
    waiting = λ h l found has fine other. ground arith;
  }

  new_group-Routing : (scope : Bytes) (dedicated : Bool) → Routing cfg (new_group scope dedicated)
  unfolding new_group
  new_group-Routing scope dedicated = add_lease-Routing cfg (no_leases scope dedicated) (record {
    mail = refl;
    known = λ id h e. unfold lookup in (ground arith);
    bound = λ h l e has. ground arith;
    creator = λ h e. ground arith;
    waiting = λ h l e has fine other. ground arith;
  })

  start-Routing :
      (outcome : Option Error) (g : Group) → Routing cfg g → Routing cfg (start outcome g)
  unfolding start
  start-Routing none g r = launched_on g r
  start-Routing (some e) g r = retire-Routing cfg e g r

  move-Routing : (m : Move) (g : Group) → Counts cfg g → Routing cfg g → Routing cfg (move cfg m g)
  unfolding move is_creating
  move-Routing (retires e) g c r = retire-Routing cfg e g r
  move-Routing leases_again g c r = ground (arith, r, add_lease-Routing cfg g r)
  move-Routing (starts outcome) g c r = start-Routing outcome g r
  move-Routing (sets_idle now h idle) g c r = set_idle-Routing now h idle g r
  move-Routing (releases h) g c r = release_idle-Routing h g c r
  move-Routing (begins h load_id) g c r = begin_create-Routing h load_id g r
  move-Routing (fails e) g c r = ground (arith, r, fail_create-Routing e g r)
  move-Routing (creates h id) g c r = elim (Option-cases g.creating) [
    | inl nobody ↦ ground (arith, r)
    | inr (k, somebody) ↦ ground (arith, r, ==_iff k h, end_create-Routing h id g)
  ]
  move-Routing (receives n) g c r = deliver-Routing n g r
  move-Routing (reads h) g c r = try_next-Routing h g r
  move-Routing (client_ends e) g c r = ground (arith, r, client_gone e g r)

  -- In every process that a run of moves reaches, each notification in the queue of a lease is for the
  -- session of that lease, or for the one that it waits for while it is created; the queue's length and
  -- bytes are within the limits and counted exactly; a route leads to the lease with the identifier,
  -- and each lease with an identifier has its own route, which is dead after its release and is never
  -- given to another lease.
  pub Reach-Routing : {g : Group} → 1 ≤ cfg.sessions_per_process → Reach cfg g → Routing cfg g
  Reach-Routing few (launched scope dedicated) = new_group-Routing scope dedicated
  Reach-Routing few (moved m r) = move-Routing m _ (Reach-Counts cfg few r) (Reach-Routing few r)
