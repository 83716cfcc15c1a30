-- ===== src/AcpPool/Counting.antt =====
-- Every step of a process keeps its counts.
use dax_kiro_proxy.Common.{
  ℕ, ◌≤◌, ◌≡◌, refl, inl, inr, Option-cases, true, ◌||◌, List, Option, none, some, arith, ℕ_eq,
  Bytes_eq, Bytes, get_elem?, is_some, lookup,
}
use dax_kiro_proxy.AcpPool.Group.{
  Error, closed_error, protocol_error, overloaded_error, Config, Notification, Lease, Group,
  new_group, add_lease, start, drop_lease, take_event, expect, bind_id, put_lease, queued, released,
  release_idle, try_next, begin_create, fail_create, end_create, deliver, enqueue,
}
use dax_kiro_proxy.AcpPool.Moves.{
  Move, retires, leases_again, starts, sets_idle, releases, begins, fails, creates, receives, reads,
  client_ends, move, Reach, launched, moved,
}
use dax_kiro_proxy.AcpPool.Counts.{
  Counts, Queue-cases, add_lease-Counts, overwrite-Counts, retire-Counts, set_idle-Counts,
  update-Counts,
}

module _ (cfg : Config) where
  drop_lease-Counts :
      (h : ℕ) (l : Lease) (g : Group)
      → get_elem? g.leases h ≡ some l
      → (l.idle || is_some g.err) ≡ true
      → Counts cfg g
      → Counts cfg (drop_lease h l g)
  unfolding drop_lease released
  drop_lease-Counts h l g found idle c =
      overwrite-Counts cfg g _ h l _ found refl refl refl refl (ground arith) (λ alive. refl)
        (λ alive. c.idle_since alive) c

  release_idle-Counts : (h : ℕ) (g : Group) → Counts cfg g → Counts cfg (release_idle cfg h g).0
  unfolding release_idle
  release_idle-Counts h g c = elim (Option-cases (get_elem? g.leases h)) [
    | inl missing ↦ rw (missing, release_idle) c
    | inr (l, found) ↦
        ground
          (arith, drop_lease-Counts h l g found, retire-Counts cfg closed_error (drop_lease h l g))
  ]

  take_event-Counts :
      (h : ℕ) (l : Lease) (n : Notification) (ns : List Notification) (g : Group)
      → get_elem? g.leases h ≡ some l
      → Counts cfg g
      → Counts cfg (take_event h l n ns g)
  unfolding take_event
  take_event-Counts h l n ns g found c =
      update-Counts cfg g _ h l _ found refl refl refl refl refl refl (refl, refl, refl, refl) c

  try_next-Counts : (h : ℕ) (g : Group) → Counts cfg g → Counts cfg (try_next h g).0
  unfolding try_next
  try_next-Counts h g c = elim (Option-cases (get_elem? g.leases h)) [
    | inl missing ↦ rw (missing, try_next) c
    | inr (l, found) ↦ elim (Queue-cases l.queue) [
      | inl nothing ↦ ground arith
      | inr (n, ns, some_) ↦ ground (arith, take_event-Counts h l n ns g found)
    ]
  ]

  expect-Counts :
      (h : ℕ) (l : Lease) (load_id : Bytes) (g : Group)
      → get_elem? g.leases h ≡ some l
      → Counts cfg g
      → Counts cfg (expect h l load_id g)
  unfolding expect
  expect-Counts h l load_id g found c =
      update-Counts cfg g _ h l _ found refl refl refl refl refl refl (refl, refl, refl, refl) c

  begin_create-Counts :
      (h : ℕ) (load_id : Bytes) (g : Group) → Counts cfg g → Counts cfg (begin_create h load_id g).0
  unfolding begin_create
  begin_create-Counts h load_id g c = elim (Option-cases (get_elem? g.leases h)) [
    | inl missing ↦ rw (missing, begin_create) c
    | inr (l, found) ↦ ground (arith, expect-Counts h l load_id g found)
  ]

  bind_id-Counts :
      (h : ℕ) (l : Lease) (id : Bytes) (g : Group)
      → get_elem? g.leases h ≡ some l
      → Counts cfg g
      → Counts cfg (bind_id h l id g)
  unfolding bind_id
  bind_id-Counts h l id g found c =
      update-Counts cfg g _ h l _ found refl refl refl refl refl refl (refl, refl, refl, refl) c

  give_up-Counts : (g : Group) → Counts cfg g → Counts cfg (record g { creating = none })
  give_up-Counts g c = record {
    allocated = c.allocated;
    within = c.within;
    alone = c.alone;
    busy = c.busy;
    idle_since = c.idle_since;
    leases = c.leases;
  }

  end_create-Counts :
      (h : ℕ) (id : Bytes) (g : Group) → Counts cfg g → Counts cfg (end_create h id g).0
  unfolding end_create
  end_create-Counts h id g c = elim (Option-cases (get_elem? g.leases h)) [
    | inl missing ↦ rw (missing, end_create) c
    | inr (l, found) ↦ ground (
      arith,
      bind_id-Counts h l id g found,
      give_up-Counts g,
      retire-Counts cfg protocol_error (record g { creating = none }),
    )
  ]

  fail_create-Counts : (e : Error) (g : Group) → Counts cfg g → Counts cfg (fail_create e g)
  unfolding fail_create
  fail_create-Counts e g c = retire-Counts cfg e _ (give_up-Counts g c)

  put_lease-Counts :
      (h : ℕ) (old l : Lease) (g : Group)
      → get_elem? g.leases h ≡ some old
      → (l.idle ≡ old.idle) × (l.ended ≡ old.ended) × (l.live ≡ old.live) × (l.err ≡ old.err)
      → Counts cfg g
      → Counts cfg (put_lease h l g)
  put_lease-Counts h old l g found same_ c =
      update-Counts cfg g _ h old l found refl refl refl refl refl refl same_ c

  enqueue-Counts :
      (n : Notification) (h : ℕ) (old l : Lease) (g : Group)
      → get_elem? g.leases h ≡ some old
      → (l.idle ≡ old.idle) × (l.ended ≡ old.ended) × (l.live ≡ old.live) × (l.err ≡ old.err)
      → Counts cfg g
      → Counts cfg (enqueue cfg n h l g).0
  unfolding enqueue
  enqueue-Counts n h old l g found same_ c =
      let put = put_lease-Counts h old l g found same_ c in
      let more = put_lease-Counts h old (queued n l) g found same_ c in
      ground (arith, put, more, retire-Counts cfg overloaded_error (put_lease h l g) put)

  deliver_known-Counts :
      (n : Notification) (h : ℕ) (g : Group)
      → lookup n.session_id g.routes ≡ some (some h)
      → Counts cfg g
      → Counts cfg (deliver cfg n g).0
  unfolding deliver
  deliver_known-Counts n h g e c = elim (Option-cases (get_elem? g.leases h)) [
    | inl missing ↦ ground (arith, retire-Counts cfg protocol_error g c)
    | inr (l, found) ↦ ground (
      arith,
      retire-Counts cfg protocol_error g c,
      enqueue-Counts n h l l g found (refl, refl, refl, refl) c,
    )
  ]

  deliver_unknown-Counts :
      (n : Notification) (h : ℕ) (g : Group)
      → lookup n.session_id g.routes ≡ none
      → g.creating ≡ some h
      → Counts cfg g
      → Counts cfg (deliver cfg n g).0
  unfolding deliver
  deliver_unknown-Counts n h g e k c = elim (Option-cases (get_elem? g.leases h)) [
    | inl missing ↦ ground (arith, retire-Counts cfg protocol_error g c)
    | inr (l, found) ↦ ground (
      arith,
      retire-Counts cfg protocol_error g c,
      enqueue-Counts n h l (record l { candidate = n.session_id }) g found (refl, refl, refl, refl)
          c,
    )
  ]

  deliver-Counts : (n : Notification) (g : Group) → Counts cfg g → Counts cfg (deliver cfg n g).0
  unfolding deliver
  deliver-Counts n g c = elim (Option-cases (lookup n.session_id g.routes)) [
    | inr (none, gone) ↦ ground (arith, retire-Counts cfg protocol_error g c)
    | inr (some h, known) ↦ deliver_known-Counts n h g known c
    | inl unknown ↦ elim (Option-cases g.creating) [
      | inl nobody ↦ ground (arith, retire-Counts cfg protocol_error g c)
      | inr (h, creator) ↦ deliver_unknown-Counts n h g unknown creator c
    ]
  ]

  start-Counts : (outcome : Option Error) (g : Group) → Counts cfg g → Counts cfg (start outcome g)
  unfolding start
  start-Counts none g c = ground arith
  start-Counts (some e) g c = retire-Counts cfg e g c

  move-Counts : (m : Move) (g : Group) → Counts cfg g → Counts cfg (move cfg m g)
  unfolding move
  move-Counts (retires e) g c = retire-Counts cfg e g c
  move-Counts leases_again g c = ground (arith, add_lease-Counts cfg g)
  move-Counts (starts outcome) g c = start-Counts outcome g c
  move-Counts (sets_idle now h idle) g c = set_idle-Counts cfg now h idle g c
  move-Counts (releases h) g c = release_idle-Counts h g c
  move-Counts (begins h load_id) g c = begin_create-Counts h load_id g c
  move-Counts (fails e) g c = ground (arith, fail_create-Counts e g c)
  move-Counts (creates h id) g c = ground (arith, end_create-Counts h id g c)
  move-Counts (receives n) g c = deliver-Counts n g c
  move-Counts (reads h) g c = try_next-Counts h g c
  move-Counts (client_ends e) g c = ground arith

  -- In every process that a run of moves reaches, the counts are right: no more leases were ever given
  -- out than the limit, and no more than one by a dedicated process; until the process fails, the busy
  -- count is the number of leases that are not idle, and the idle time is set exactly while it is zero;
  -- a lease has ended exactly if it was released or the process has failed.
  pub Reach-Counts : {g : Group} → 1 ≤ cfg.sessions_per_process → Reach cfg g → Counts cfg g
  unfolding new_group add_lease
  Reach-Counts few (launched scope dedicated) = ground arith
  Reach-Counts few (moved m r) = move-Counts m _ (Reach-Counts few r)
