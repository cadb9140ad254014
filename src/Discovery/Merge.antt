-- ===== src/Discovery/Merge.antt =====
-- internal/mcpproxy/discovery.go, `mergeUpstreams` and the environment of a Codex server: which
-- entry wins.
use demesne.Base.{
  ◌≡◌, refl, sym, ◌∙◌, ap, inl, inr, Bool, true, false, Bool-cases, Option, none, some,
  Option-cases, List, [], ◌∷◌, map, if◌then◌else◌, Str, str_eq, str_eq_iff, Map, lookup, insert,
  lookup-insert, str_Eq, DistinctKeys, DistinctKeys-insert, All,
}
use demesne.Discovery.{
  UpstreamSpec, CodexMcpServer, set_var, from_vars, overlay, codex_environment, name_le, merge_onto,
  merge_upstreams,
}
use demesne.Discovery.Found.{find_spec, DistinctNames, find_spec-sort_by}

abbrev pub or_else {ℓ} : {A : Type ℓ} → Option A → Option A → Option A
or_else none o = o
or_else (some a) o = some a

or_else-none {ℓ} : {A : Type ℓ} (o : Option A) → or_else o none ≡ o
or_else-none none = refl
or_else-none (some a) = refl

-- The last of these specs with a name.
abbrev pub last_spec : Str → List UpstreamSpec → Option UpstreamSpec
last_spec n [] = none
last_spec n (s ∷ ss) = or_else (last_spec n ss) (if str_eq s.name n then some s else none)

lookup-merge_onto :
    (n : Str) (ss : List UpstreamSpec) (m : Map Str UpstreamSpec)
    → lookup n (merge_onto ss m) ≡ or_else (last_spec n ss) (lookup n m)
lookup-merge_onto n [] m = refl
lookup-merge_onto n (s ∷ ss) m =
    lookup-merge_onto n ss (insert s.name s m)
    ∙ ap (or_else (last_spec n ss)) (lookup-insert s.name n s m)
    ∙ pick (last_spec n ss) (str_eq s.name n)
  where
    pick :
        (o : Option UpstreamSpec) (b : Bool)
        → or_else o (if b then some s else lookup n m)
          ≡ or_else (or_else o (if b then some s else none)) (lookup n m)
    pick none true = refl
    pick none false = refl
    pick (some t) b = refl

-- Each entry stands under its own name.
abbrev Keyed : Map Str UpstreamSpec → Type 0
Keyed m = All (λ e. e.0 ≡ e.1.name) m

Keyed-insert : (s : UpstreamSpec) (m : Map Str UpstreamSpec) → Keyed m → Keyed (insert s.name s m)
unfolding insert
Keyed-insert s [] h = (refl, tt)
Keyed-insert s ((j, t) ∷ m) h = elim (Bool-cases (str_eq j s.name)) [
  | inl e ↦ rw e (refl, h.1)
  | inr e ↦ rw e (h.0, Keyed-insert s m h.1)
]

merge_onto-Keyed :
    (ss : List UpstreamSpec) (m : Map Str UpstreamSpec)
    → Keyed m
    → DistinctKeys m
    → Keyed (merge_onto ss m) × DistinctKeys (merge_onto ss m)
merge_onto-Keyed [] m h k = (h, k)
merge_onto-Keyed (s ∷ ss) m h k =
    merge_onto-Keyed ss (insert s.name s m) (Keyed-insert s m h) (DistinctKeys-insert s.name s m k)

find_spec-values :
    (n : Str) (m : Map Str UpstreamSpec) → Keyed m → find_spec n (map (λ e. e.1) m) ≡ lookup n m
unfolding lookup
find_spec-values n [] h = refl
find_spec-values n ((k, s) ∷ m) h = cc (h.0, find_spec-values n m h.1)

DistinctNames-values :
    (m : Map Str UpstreamSpec) → Keyed m → DistinctKeys m → DistinctNames (map (λ e. e.1) m)
DistinctNames-values [] h k = tt
DistinctNames-values ((j, s) ∷ m) h k = (
  find_spec-values s.name m h.1 ∙ ap (λ x. lookup x m) (sym h.0) ∙ k.0,
  DistinctNames-values m h.1 k.1,
)

-- The merged list has for each name the last server of Codex with that name, else the last of Claude
-- Code, and no name twice.
pub codex_wins :
    (claude codex : List UpstreamSpec)
    → ((n : Str)
        → find_spec n (merge_upstreams claude codex)
          ≡ or_else (last_spec n codex) (last_spec n claude))
      × DistinctNames (merge_upstreams claude codex)
unfolding merge_upstreams lookup
codex_wins claude codex =
    let m = merge_onto codex (merge_onto claude []) in
    let (keyed₁, keys₁) = merge_onto-Keyed claude [] tt tt in
    let (keyed, keys) = merge_onto-Keyed codex (merge_onto claude []) keyed₁ keys₁ in
    let (same, apart) =
      find_spec-sort_by name_le (map (λ e. e.1) m) (DistinctNames-values m keyed keys) in
    (
      (λ n.
          same n
          ∙ find_spec-values n m keyed
          ∙ lookup-merge_onto n codex (merge_onto claude [])
          ∙ ap (or_else (last_spec n codex))
              (lookup-merge_onto n claude [] ∙ or_else-none (last_spec n claude))),
      apart,
    )

lookup-overlay :
    (lookup_env : Str → Option Str) (k : Str) (more env : Map Str Str)
    → DistinctKeys more
    → lookup k (overlay lookup_env more env) ≡ or_else (lookup k more) (lookup k env)
unfolding lookup
lookup-overlay lookup_env k [] env h = refl
lookup-overlay lookup_env k ((j, v) ∷ more) env h =
    let ih = lookup-overlay lookup_env k more (insert j v env) h.1 in
    let at = lookup-insert j k v env in
    elim (Bool-cases (str_eq j k)) [
      | inl e ↦
          let absent : lookup k more ≡ none =
            ap (λ x. lookup x more) (sym ((str_eq_iff j k).0 e)) ∙ h.0 in
          cc (ih, at, e, absent)
      | inr e ↦ cc (ih, at, e)
    ]

abbrev pub named_in : Str → List Str → Bool
named_in k [] = false
named_in k (v ∷ vs) = if str_eq v k then true else named_in k vs

lookup-from_vars :
    (lookup_env : Str → Option Str) (k : Str) (vs : List Str) (env : Map Str Str)
    → lookup k (from_vars lookup_env vs env)
      ≡ (if named_in k vs then or_else (lookup_env k) (lookup k env) else lookup k env)
lookup-from_vars lookup_env k [] env = refl
lookup-from_vars lookup_env k (v ∷ vs) env =
    lookup-from_vars lookup_env k vs (set_var lookup_env v (lookup_env v) env)
    ∙ elim (Option-cases (lookup_env v)) [
      | inl n ↦ elim (Bool-cases (str_eq v k)) [
        | inl e ↦
            let here : lookup_env k ≡ none = ap lookup_env (sym ((str_eq_iff v k).0 e)) ∙ n in
            elim (Bool-cases (named_in k vs)) [
              | inl m ↦ cc (n, e, here, m)
              | inr m ↦ cc (n, e, here, m)
            ]
        | inr e ↦ cc (n, e)
      ]
      | inr (value, n) ↦ elim (Bool-cases (str_eq v k)) [
        | inl e ↦
            let here : lookup_env k ≡ some value = ap lookup_env (sym ((str_eq_iff v k).0 e)) ∙ n in
            let set = lookup-insert v k value env in
            elim (Bool-cases (named_in k vs)) [
              | inl m ↦ cc (n, e, here, m, set)
              | inr m ↦ cc (n, e, here, m, set)
            ]
        | inr e ↦ cc (n, e, lookup-insert v k value env)
      ]
    ]

-- The environment of a Codex server has for each variable what `env` says, else, where `env_vars` names
-- it, the host's value.
pub explicit_wins :
    (lookup_env : Str → Option Str) (s : CodexMcpServer) (k : Str)
    → DistinctKeys s.codex_env
    → lookup k (codex_environment lookup_env s)
      ≡ or_else (lookup k s.codex_env) (if named_in k s.env_vars then lookup_env k else none)
unfolding codex_environment lookup
explicit_wins lookup_env s k h =
    lookup-overlay lookup_env k s.codex_env (from_vars lookup_env s.env_vars []) h
    ∙ ap (or_else (lookup k s.codex_env)) (
        lookup-from_vars lookup_env k s.env_vars []
        ∙ ap (λ o. if named_in k s.env_vars then o else none) (or_else-none (lookup_env k)))
