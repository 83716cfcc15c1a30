-- ===== src/Session/Bindings.antt =====
-- The map of a manager while starts use its bindings.
use dax_kiro_proxy.Common.{
  ℕ, ◌≤◌, ◌≡◌, refl, sym, ap, subst, ◌∙◌, Bool, true, false, not, ◌&&◌, inl, inr, List, [], ◌∷◌,
  Option, none, some, ℕ_eq, Bytes_eq, Bytes, ◌==◌, ==_iff, length, lookup, delete, keys, keep_if,
  leb, if◌then◌else◌, arith, Bool-cases, all, all,
}
use dax_kiro_proxy.Session.Manager.{
  State, Binding, ManagerConfig, Manager, idle_binding, is_expired, prune, older, find_oldest,
  remaining, evict,
}

-- A map with fewer entries, which finds the same for the keys of bindings in use.
pub record Shrinks (bindings : ℕ → Binding) (m m' : List (Bytes × ℕ)) : Type 0 where
  pub size : length m' ≤ length m
  pub found :
      (k : Bytes) (b : ℕ) → 1 ≤ (bindings b).users → lookup k m ≡ some b → lookup k m' ≡ some b
  pub missing : (k : Bytes) → lookup k m ≡ none → lookup k m' ≡ none
  pub kept : (p : Bytes × ℕ → Bool) → all p m ≡ true → all p m' ≡ true

length-keep_if : (p : Bytes × ℕ → Bool) (m : List (Bytes × ℕ)) → length (keep_if p m) ≤ length m
length-keep_if p [] = omega arith
length-keep_if p (e ∷ m) = ground (arith, length-keep_if p m)

length-delete : (k : Bytes) (m : List (Bytes × ℕ)) → length (delete k m) ≤ length m
unfolding delete
length-delete k [] = omega arith
length-delete k ((j, b) ∷ m) = ground (arith, length-delete k m)

all-keep_if :
    (p q : Bytes × ℕ → Bool) (m : List (Bytes × ℕ)) → all p m ≡ true → all p (keep_if q m) ≡ true
all-keep_if p q [] h = refl
all-keep_if p q (e ∷ m) h = ground (arith, all-keep_if p q m)

all-delete :
    (p : Bytes × ℕ → Bool) (k : Bytes) (m : List (Bytes × ℕ))
    → all p m ≡ true
    → all p (delete k m) ≡ true
unfolding delete
all-delete p k [] h = refl
all-delete p k ((j, b) ∷ m) h = ground (arith, all-delete p k m)

missing-keep_if :
    (p : Bytes × ℕ → Bool) (k : Bytes) (m : List (Bytes × ℕ))
    → lookup k m ≡ none
    → lookup k (keep_if p m) ≡ none
unfolding lookup
missing-keep_if p k [] h = refl
missing-keep_if p k ((j, b) ∷ m) h = ground (arith, missing-keep_if p k m)

missing-delete :
    (i k : Bytes) (m : List (Bytes × ℕ)) → lookup i m ≡ none → lookup i (delete k m) ≡ none
unfolding lookup delete
missing-delete i k [] h = refl
missing-delete i k ((j, b) ∷ m) h = ground (arith, missing-delete i k m)

lookup-keep_if :
    (p : Bytes × ℕ → Bool) (k : Bytes) (b : ℕ) (m : List (Bytes × ℕ))
    → ((j : Bytes) → p (j, b) ≡ true)
    → lookup k m ≡ some b
    → lookup k (keep_if p m) ≡ some b
unfolding lookup
lookup-keep_if p k b [] h e = ground arith
lookup-keep_if p k b ((j, c) ∷ m) h e = elim (Bool-cases (j == k)) [
  | inl same ↦
      let here : c ≡ b = ground arith in
      let kept : p (j, c) ≡ true = subst (λ x. p (j, x) ≡ true) (sym here) (h j) in
      rw kept (ground arith)
  | inr other ↦ ground (arith, lookup-keep_if p k b m h)
]

lookup-delete_other :
    (i k : Bytes) (m : List (Bytes × ℕ)) → (k == i) ≡ false → lookup i (delete k m) ≡ lookup i m
unfolding lookup delete
lookup-delete_other i k [] h = refl
lookup-delete_other i k ((j, b) ∷ m) h = ground (arith, lookup-delete_other i k m, ==_iff j k)

Shrinks-refl : (bindings : ℕ → Binding) (m : List (Bytes × ℕ)) → Shrinks bindings m m
Shrinks-refl bindings m = record {
  size = omega arith;
  found = λ k b used e. e;
  missing = λ k e. e;
  kept = λ p h. h;
}

pub Shrinks-trans :
    (bindings : ℕ → Binding) (m m' m'' : List (Bytes × ℕ))
    → Shrinks bindings m m'
    → Shrinks bindings m' m''
    → Shrinks bindings m m''
Shrinks-trans bindings m m' m'' h k = record {
  size = omega (arith, h.size, k.size);
  found = λ key b used e. k.found key b used (h.found key b used e);
  missing = λ key e. k.missing key (h.missing key e);
  kept = λ p e. k.kept p (h.kept p e);
}

-- A binding in use is not idle.
used-busy : (states : ℕ → State) (e : Binding) → 1 ≤ e.users → idle_binding states e ≡ false
unfolding idle_binding
used-busy states e h = ground arith

pub prune-Shrinks :
    (cfg : ManagerConfig) (states : ℕ → State) (now : ℕ) (m : Manager)
    → Shrinks m.bindings m.entries (prune cfg states now m).entries
unfolding prune
prune-Shrinks cfg states now m =
    let stays = λ (e : Bytes × ℕ). not (is_expired cfg states now (m.bindings e.1)) in
    record {
      size = length-keep_if stays m.entries;
      found = λ k b used e.
          lookup-keep_if stays k b m.entries (λ j. ground (arith, used-busy states (m.bindings b)))
            e;
      missing = λ k e. missing-keep_if stays k m.entries e;
      kept = λ p h. all-keep_if p stays m.entries h;
    }

-- What the search for a binding to evict finds.
abbrev Candidate : (ℕ → State) → Manager → Option (Bytes × ℕ) → Type 0
Candidate states m none = Unit
Candidate states m (some (k, b)) =
    (lookup k m.entries ≡ some b) × (idle_binding states (m.bindings b) ≡ true)

find_oldest-Candidate :
    (states : ℕ → State) (m : Manager) (ks : List Bytes) (found : Option (Bytes × ℕ))
    → Candidate states m found
    → Candidate states m (find_oldest states m ks found)
unfolding find_oldest
find_oldest-Candidate states m [] found h = h
find_oldest-Candidate states m (k ∷ ks) found h =
    find_oldest-Candidate states m ks _ (tried (lookup k m.entries) refl)
  where
    tried :
        (o : Option ℕ)
        → lookup k m.entries ≡ o
        → Candidate states m (elim o [
          | none ↦ found
          | some b ↦
              if idle_binding states (m.bindings b) && older m.bindings b found
              then some (k, b)
              else found
        ])
    tried none e = h
    tried (some b) e =
        elim (Bool-cases (idle_binding states (m.bindings b) && older m.bindings b found)) [
          | inl take ↦ rw take (e, ground arith)
          | inr leave ↦ rw leave h
        ]

remaining-Shrinks :
    (states : ℕ → State) (m : Manager) (found : Option (Bytes × ℕ))
    → Candidate states m found
    → Shrinks m.bindings m.entries (remaining found m.entries)
remaining-Shrinks states m none h = Shrinks-refl m.bindings m.entries
remaining-Shrinks states m (some (k, b)) (here, idle) = record {
  size = length-delete k m.entries;
  found = λ i c used e. elim (Bool-cases (k == i)) [
    | inr other ↦ lookup-delete_other i k m.entries other ∙ e
    | inl same ↦
        let one : k ≡ i = (==_iff k i).0 same in
        let both : some b ≡ some c = sym here ∙ ap (λ j. lookup j m.entries) one ∙ e in
        let busy = used-busy states (m.bindings c) used in absurd (ground (arith, both, busy, idle))
  ];
  missing = λ i e. missing-delete i k m.entries e;
  kept = λ p h. all-delete p k m.entries h;
}

pub evict-Shrinks :
    (cfg : ManagerConfig) (states : ℕ → State) (m : Manager)
    → Shrinks m.bindings m.entries (evict cfg states m).entries
unfolding evict
evict-Shrinks cfg states m = elim (Bool-cases (leb cfg.max_sessions (length m.entries))) [
  | inr e ↦ rw e (Shrinks-refl m.bindings m.entries)
  | inl e ↦ rw e (
      remaining-Shrinks states m (find_oldest states m (keys m.entries) none)
        (find_oldest-Candidate states m (keys m.entries) none tt))
]
