-- ===== src/Tools/Lookup.antt =====
-- Each alias of a registry leads to its own tool.
use dax_kiro_proxy.Common.{
  ℕ, zero, suc, ◌+◌, ◌≤◌, ◌≡◌, refl, sym, ap, subst, ◌∙◌, Bool, true, false, not, ◌||◌, List, [],
  ◌∷◌, ◌++◌, map, Option, none, some, ℕ_eq, Bytes_eq, Bytes, bytes, equal, ◌==◌, ==_iff, length,
  lookup, insert, lookup-insert, lookup-insert_same, get_elem?, any, arith, Option-cases,
  Bool-cases, inl, inr, ◌>>=◌, ◌>>◌, check, Post, bind-Post, skip-Post, Post-mono, if-Post,
  some-Post, ltb, is_empty,
}
use dax_kiro_proxy.Tools.Aliases.{
  Entry, key_of, count_key, is_shared, grow, Aliases, distinct, refused, exhausted, distinguish,
  aliases_of,
}
use dax_kiro_proxy.Tools.Declarations.{max_tools, sizes_ok, Tool, Library, declare_all, sort_tools}
use dax_kiro_proxy.Tools.Registry.{
  Validator, Registry, found_aliases, hash_of, name_tools, index_aliases, alias_tools, tools_of,
  register, build, lookup_tool,
}

abbrev Distinct : List Entry → Type 0
Distinct [] = Unit
Distinct (e ∷ es) = (count_key (key_of e) es ≡ 0) × Distinct es

unshared-Distinct :
    (all es : List Entry)
    → ((k : Bytes) → count_key k es ≤ count_key k all)
    → any (is_shared all) es ≡ false
    → Distinct es
unfolding count_key
unshared-Distinct all [] le h = tt
unshared-Distinct all (e ∷ es) le h = (
  ground (arith, le (key_of e), ==_iff (key_of e) (key_of e)),
  unshared-Distinct all es (λ k. ground (arith, le k)) (ground arith),
)

distinguish-Distinct :
    (fuel : ℕ) (es es' : List Entry) → distinguish fuel es ≡ distinct es' → Distinct es'
unfolding distinguish
distinguish-Distinct zero es es' h = ground arith
distinguish-Distinct (suc fuel) es es' h = elim (Bool-cases (any (is_shared es) es)) [
  | inr e ↦ unshared-Distinct es' es' (λ k. omega arith) (ground arith)
  | inl e ↦ elim (Option-cases (grow es es)) [
    | inl none_ ↦ ground arith
    | inr (next, some_) ↦ distinguish-Distinct fuel next es' (ground arith)
  ]
]

abbrev has_alias : Bytes → Tool → Bool
has_alias a t = t.alias == a

abbrev Unique : List Tool → Type 0
Unique [] = Unit
Unique (t ∷ ts) = (any (has_alias t.alias) ts ≡ false) × Unique ts

name_tools-fresh :
    (k : Bytes) (ts : List Tool) (es : List Entry)
    → count_key k es ≡ 0
    → any (has_alias (bytes "relay_" ++ k)) (name_tools ts es) ≡ false
unfolding name_tools count_key equal
name_tools-fresh k [] es h = refl
name_tools-fresh k (t ∷ ts) [] h = refl
name_tools-fresh k (t ∷ ts) (e ∷ es) h = ground (arith, name_tools-fresh k ts es)

name_tools-Unique : (ts : List Tool) (es : List Entry) → Distinct es → Unique (name_tools ts es)
unfolding name_tools
name_tools-Unique [] es h = tt
name_tools-Unique (t ∷ ts) [] h = tt
name_tools-Unique (t ∷ ts) (e ∷ es) h =
    (name_tools-fresh (key_of e) ts es h.0, name_tools-Unique ts es h.1)

-- Tools without an alias leave what it led to.
index_aliases-fresh :
    (i : ℕ) (ts : List Tool) (a : Bytes) (m : List (Bytes × ℕ))
    → any (has_alias a) ts ≡ false
    → lookup a (index_aliases i ts m) ≡ lookup a m
unfolding index_aliases
index_aliases-fresh i [] a m h = refl
index_aliases-fresh i (t ∷ ts) a m h = elim (lookup-insert a t.alias i m) [
  | inl (same, found) ↦ ground (arith, ==_iff t.alias a)
  | inr there ↦ index_aliases-fresh (suc i) ts a (insert t.alias i m) (ground arith) ∙ there
]

index_aliases-lookup :
    (i k : ℕ) (ts : List Tool) (t : Tool) (m : List (Bytes × ℕ))
    → Unique ts
    → get_elem? ts k ≡ some t
    → lookup t.alias (index_aliases i ts m) ≡ some (i + k)
unfolding index_aliases
index_aliases-lookup i k [] t m u h = ground arith
index_aliases-lookup i zero (u ∷ us) t m (fresh, _) h =
    let same : u ≡ t = ground arith in
    subst (λ (x : Tool). lookup x.alias (index_aliases i (u ∷ us) m) ≡ some (i + 0)) same
      (index_aliases-fresh (suc i) us u.alias (insert u.alias i m) fresh
        ∙ lookup-insert_same u.alias i m
        ∙ ground arith)
index_aliases-lookup i (suc k) (u ∷ us) t m (fresh, unique) h =
    index_aliases-lookup (suc i) k us t (insert u.alias i m) unique h ∙ ground arith

some_equal {ℓ} : {A : Type ℓ} (x y : A) → some x ≡ some y → x ≡ y
some_equal x y h = cc

found_aliases-some : (a : Aliases) (es : List Entry) → found_aliases a ≡ some es → a ≡ distinct es
found_aliases-some (distinct es') es h = ground arith
found_aliases-some refused es h = ground arith
found_aliases-some exhausted es h = ground arith

alias_tools-Unique : (l : Library) (ts us : List Tool) → alias_tools l ts ≡ some us → Unique us
unfolding alias_tools aliases_of
alias_tools-Unique l ts us h =
    elim (Option-cases (found_aliases (aliases_of (map (hash_of l) ts)))) [
      | inl none_ ↦ ground arith
      | inr (es, some_) ↦
          let unique =
            name_tools-Unique ts es (distinguish-Distinct _ _ es (found_aliases-some _ es some_)) in
          subst Unique
            (some_equal _ _ (sym (ap (λ m. m >>= λ es. some (name_tools ts es)) some_) ∙ h)) unique
    ]

-- The tools of a registry, and its index.
abbrev Holds : List Tool → Registry → Type 0
Holds ts r = (r.tools ≡ ts) × (r.aliases ≡ index_aliases 0 ts [])

register-Post : (l : Library) (v : Validator) (ts : List Tool) → Post (Holds ts) (register l v ts)
unfolding register
register-Post l v ts =
    skip-Post (Holds ts) (l.marshal_tools ts) _ (λ identity. checked_size identity _)
  where
    checked_size :
        (identity : Bytes) (ok : Bool)
        → Post (Holds ts) (
            check ok
            >> some (record {
              tools = ts;
              aliases = index_aliases 0 ts [];
              fingerprint = l.hex (l.sha256 identity);
            }))
    checked_size identity true = (refl, refl)
    checked_size identity false = tt

tools_of-Post : (l : Library) (raws : List Bytes) → Post Unique (tools_of l raws)
unfolding tools_of
tools_of-Post l raws =
    skip-Post Unique (declare_all l [] raws) _ (λ ts.
      some-Post Unique (alias_tools l (sort_tools ts)) (alias_tools-Unique l (sort_tools ts)))

-- A registry whose index is that of its tools.
abbrev Indexed : Registry → Type 0
Indexed r = Unique r.tools × (r.aliases ≡ index_aliases 0 r.tools [])

build-Post :
    (l : Library) (raws native : List Bytes) (v : Option Validator)
    → Post Indexed (build l raws native v)
unfolding build
build-Post l raws native none = tt
build-Post l raws native (some v) =
    if-Post Indexed (ltb max_tools (length raws) || not (is_empty native) || not (sizes_ok 0 raws))
      _ _ (λ e. tt)
      (λ e. bind-Post Unique Indexed (tools_of l raws) _ (tools_of-Post l raws) (λ ts unique.
        Post-mono (Holds ts) Indexed (register l v ts) (register-Post l v ts) (λ r (tools, aliases).
          (
            subst Unique (sym tools) unique,
            aliases ∙ ap (λ us. index_aliases 0 us []) (sym tools),
          ))))

-- In a registry that `build` returns, the alias of each tool leads to that tool, so no two tools share an
-- alias.
pub build-lookup_tool :
    (l : Library) (raws native : List Bytes) (v : Option Validator) (r : Registry) (k : ℕ)
    (t : Tool)
    → build l raws native v ≡ some r
    → get_elem? r.tools k ≡ some t
    → (lookup t.alias r.aliases ≡ some k) × (lookup_tool r t.alias ≡ some t)
unfolding lookup_tool
build-lookup_tool l raws native v r k t h e =
    let (unique, index) = subst (Post Indexed) h (build-Post l raws native v) in
    let found =
      ap (lookup t.alias) index ∙ index_aliases-lookup 0 k r.tools t [] unique e ∙ ground arith in
    (found, rw (found, lookup_tool) e)
