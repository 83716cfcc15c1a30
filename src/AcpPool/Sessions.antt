-- ===== src/AcpPool/Sessions.antt =====
-- The identifiers of sessions and the runs of a process.
use dax_kiro_proxy.Common.{
  ℕ, ◌≡◌, ◌≢◌, subst, ◌∙◌, inl, inr, Bool-cases, true, false, not, ◌&&◌, [], ◌∷◌, none, some, arith,
  ℕ_eq, Bytes, Bytes_eq, ◌==◌, ==_iff, all-append, get_elem?, set, lookup, is_empty,
}
use dax_kiro_proxy.AcpPool.Group.{Config, Lease, Group, lease_err, add_lease, new_lease, bind_id}
use dax_kiro_proxy.AcpPool.Counts.{all-set, all-get_elem?}
use dax_kiro_proxy.AcpPool.Routing.{
  mail_ok, Routing, get_elem?-set_self, get_elem?-set_other, get_elem?-set_cases,
  lookup-insert_self, lookup-insert_apart, get_elem?-append_cases, get_elem?-append,
  for_session-empty,
}

abbrev bound_lease : Lease → Bytes → Lease
bound_lease l id = record l { id = id; loading = false }

module _ (cfg : Config) where
  bind_id-mail :
      (l : Lease) (id : Bytes)
      → l.id ≡ []
      → is_empty id ≡ false
      → (not (is_empty l.candidate) && not (l.candidate == id)) ≡ false
      → mail_ok cfg l ≡ true
      → mail_ok cfg (record l { id = id; loading = false }) ≡ true
  bind_id-mail l id nothing some_ fits ok = elim (Bool-cases (l.candidate == id)) [
    | inl equal_ ↦ let here : l.candidate ≡ id = (==_iff l.candidate id).0 equal_ in ground arith
    | inr apart ↦
        let free : l.candidate ≡ [] = ground arith in
        let empty : l.queue ≡ [] = for_session-empty l.queue (ground arith) in ground arith
  ]

  pub bind_id-Routing :
      (h : ℕ) (l : Lease) (id : Bytes) (g : Group)
      → get_elem? g.leases h ≡ some l
      → l.id ≡ []
      → l.live ≡ true
      → g.creating ≡ some h
      → is_empty id ≡ false
      → lookup id g.routes ≡ none
      → (not (is_empty l.candidate) && not (l.candidate == id)) ≡ false
      → Routing cfg g
      → Routing cfg (bind_id h l id g)
  unfolding bind_id
  bind_id-Routing h l id g found nothing alive mine some_ new fits r = record {
    mail = all-set (mail_ok cfg) g.leases h _ r.mail (
        bind_id-mail l id nothing some_ fits
          (all-get_elem? (mail_ok cfg) g.leases h l r.mail found));
    known = λ i k route. elim (Bool-cases (id == i)) [
      | inl equal_ ↦
          let here : id ≡ i = (==_iff id i).0 equal_ in
          let at_h : h ≡ k = ground (arith, lookup-insert_self id (some h) g.routes) in
          let put = get_elem?-set_self g.leases h l (bound_lease l id) found in
          (
            bound_lease l id,
            subst (λ j. get_elem? (set g.leases h (bound_lease l id)) j ≡ some (bound_lease l id))
                at_h put,
            here,
            ground arith,
          )
      | inr apart ↦
          let (x, was, has, full) =
            r.known i k (ground (arith, lookup-insert_apart id i (some h) g.routes)) in
          let other : h ≢ k = λ here. ground (arith) in
          (x, get_elem?-set_other g.leases h k (bound_lease l id) other ∙ was, has, full)
    ];
    bound = λ k x at_ has.
        elim (get_elem?-set_cases g.leases h k l (bound_lease l id) x found at_) [
          | inl (here, is) ↦ ground (arith, lookup-insert_self id (some h) g.routes)
          | inr (_, was) ↦ ground (
            arith,
            r.bound k x was has,
            ==_iff id x.id,
            lookup-insert_apart id x.id (some h) g.routes,
          )
        ];
    creator = λ k e. ground arith;
    waiting = λ k x at_ has fine other.
        elim (get_elem?-set_cases g.leases h k l (bound_lease l id) x found at_) [
          | inl (here, is) ↦ ground arith
          | inr (apart, was) ↦ r.waiting k x was has fine (λ e. apart (ground arith))
        ];
  }

  pub add_lease-Routing : (g : Group) → Routing cfg g → Routing cfg (add_lease g)
  unfolding add_lease
  add_lease-Routing g r = record {
    mail = ground (arith, all-append (mail_ok cfg) g.leases (new_lease ∷ []));
    known = λ id h route.
        let (x, was, has, some_) = r.known id h route in
        (x, get_elem?-append g.leases new_lease x h was, has, some_);
    bound = λ h l at_ has. elim (get_elem?-append_cases g.leases new_lease l h at_) [
      | inl was ↦ r.bound h l was has
      | inr is ↦ ground arith
    ];
    creator = λ h creating.
        let (x, was, has) = r.creator h creating in
        (x, get_elem?-append g.leases new_lease x h was, has);
    waiting = λ h l at_ has fine other. elim (get_elem?-append_cases g.leases new_lease l h at_) [
      | inl was ↦ r.waiting h l was has fine other
      | inr is ↦ ground arith
    ];
  }

  -- `creating` is given up.
  pub give_up-Routing :
      (g : Group)
      → ((h : ℕ) (l : Lease)
          → g.creating ≡ some h
          → get_elem? g.leases h ≡ some l
          → lease_err g l ≡ none
          → ⊥)
      → Routing cfg g
      → Routing cfg (record g { creating = none })
  give_up-Routing g failed r = record {
    mail = r.mail;
    known = r.known;
    bound = r.bound;
    creator = λ h e. ground arith;
    waiting = λ h l found has fine other.
        r.waiting h l found has fine (λ creating. failed h l creating found fine);
  }
