-- ===== src/Discovery/Found.antt =====
-- internal/mcpproxy/discovery.go: which servers are found, whatever the order of the map.
use demesne.Base.{
  ◌≡◌, refl, ◌∙◌, ap, subst, inl, inr, Bool, false, Bool-cases, Option, none, some, List, [], ◌∷◌,
  if◌then◌else◌, Str, str_eq, str_eq_iff, str_eq_refl, Map, lookup, str_Eq, DistinctKeys, insert_by,
  sort_by, ok, arith,
}
use demesne.Discovery.{
  UpstreamSpec, ClaudeMcpServer, CodexMcpServer, claude_skipped, claude_spec, codex_skipped,
  codex_spec, kept, name_le, parse_upstreams, parse_codex_upstreams,
}

-- The first of these specs with a name.
abbrev pub find_spec : Str → List UpstreamSpec → Option UpstreamSpec
find_spec n [] = none
find_spec n (s ∷ ss) = if str_eq s.name n then some s else find_spec n ss

abbrev pub DistinctNames : List UpstreamSpec → Type 0
DistinctNames [] = Unit
DistinctNames (s ∷ ss) = (find_spec s.name ss ≡ none) × DistinctNames ss

find_spec-insert_by :
    (le : UpstreamSpec → UpstreamSpec → Bool) (n : Str) (e : UpstreamSpec) (ss : List UpstreamSpec)
    → find_spec e.name ss ≡ none
    → find_spec n (insert_by le e ss) ≡ find_spec n (e ∷ ss)
unfolding insert_by
find_spec-insert_by le n e [] h = refl
find_spec-insert_by le n e (t ∷ ss) h = ground (
  arith,
  h,
  str_eq_iff e.name n,
  str_eq_iff t.name n,
  str_eq_iff t.name e.name,
  find_spec-insert_by le n e ss,
)

DistinctNames-insert_by :
    (le : UpstreamSpec → UpstreamSpec → Bool) (e : UpstreamSpec) (ss : List UpstreamSpec)
    → DistinctNames (e ∷ ss)
    → DistinctNames (insert_by le e ss)
unfolding insert_by
DistinctNames-insert_by le e [] h = h
DistinctNames-insert_by le e (t ∷ ss) h = elim (Bool-cases (le e t)) [
  | inl l ↦ rw l h
  | inr l ↦
      let later : find_spec e.name ss ≡ none = ground (arith, h.0) in
      let here = find_spec-insert_by le t.name e ss later in
      let apart : str_eq e.name t.name ≡ false =
        ground (arith, h.0, str_eq_iff e.name t.name, str_eq_iff t.name e.name) in
      rw l ((here ∙ rw apart h.1.0), DistinctNames-insert_by le e ss (later, h.1.1))
]

pub find_spec-sort_by :
    (le : UpstreamSpec → UpstreamSpec → Bool) (ss : List UpstreamSpec)
    → DistinctNames ss
    → ((n : Str) → find_spec n (sort_by le ss) ≡ find_spec n ss) × DistinctNames (sort_by le ss)
unfolding sort_by
find_spec-sort_by le [] h = ((λ n. refl), tt)
find_spec-sort_by le (s ∷ ss) h =
    let (same, apart) = find_spec-sort_by le ss h.1 in
    let later = same s.name ∙ h.0 in
    (
      (λ n.
          find_spec-insert_by le n s (sort_by le ss) later
          ∙ ap (λ o. if str_eq s.name n then some s else o) (same n)),
      DistinctNames-insert_by le s (sort_by le ss) (later, apart),
    )

-- What a server of the map comes to.
abbrev pub spec_of :
    {S : Type 0}
    → (Str → S → Bool)
    → (Str → S → UpstreamSpec)
    → Str
    → Option S
    → Option UpstreamSpec
spec_of skipped spec n none = none
spec_of skipped spec n (some s) = if skipped n s then none else some (spec n s)

module _ {S : Type 0} (skipped : Str → S → Bool) (spec : Str → S → UpstreamSpec)
    (named : (n : Str) (s : S) → (spec n s).name ≡ n) where
  find_spec-kept :
      (n : Str) (servers : Map Str S)
      → DistinctKeys servers
      → find_spec n (kept skipped spec servers) ≡ spec_of skipped spec n (lookup n servers)
  unfolding lookup
  find_spec-kept n [] h = refl
  find_spec-kept n ((m, s) ∷ servers) h = elim (Bool-cases (str_eq m n)) [
    | inl e ↦
        subst
          (λ x.
            find_spec x (kept skipped spec ((m, s) ∷ servers))
            ≡ spec_of skipped spec x (lookup x ((m, s) ∷ servers)))
          ((str_eq_iff m n).0 e)
          (elim (Bool-cases (skipped m s)) [
            | inl k ↦ cc (k, find_spec-kept m servers h.1, h.0, str_eq_refl m)
            | inr k ↦ cc (k, named m s, str_eq_refl m)
          ])
    | inr e ↦ elim (Bool-cases (skipped m s)) [
      | inl k ↦ cc (k, e, find_spec-kept n servers h.1)
      | inr k ↦ cc (k, e, named m s, find_spec-kept n servers h.1)
    ]
  ]

  DistinctNames-kept :
      (servers : Map Str S) → DistinctKeys servers → DistinctNames (kept skipped spec servers)
  unfolding lookup
  DistinctNames-kept [] h = tt
  DistinctNames-kept ((m, s) ∷ servers) h = elim (Bool-cases (skipped m s)) [
    | inl k ↦ rw k (DistinctNames-kept servers h.1)
    | inr k ↦
        rw k (cc (named m s, find_spec-kept m servers h.1, h.0), DistinctNames-kept servers h.1)
  ]

-- A Claude Code configuration that is parsed yields, for every name, the server of that name as the
-- configuration has it, unless its name is demesne or no slug, its type is not stdio, or it has no
-- command.
pub claude_found :
    (unmarshal : Str → Option (Map Str ClaudeMcpServer)) (text : Str)
    (servers : Map Str ClaudeMcpServer)
    → unmarshal text ≡ some servers
    → DistinctKeys servers
    → (specs : List UpstreamSpec) × (parse_upstreams unmarshal text ≡ ok specs)
      × ((n : Str) → find_spec n specs ≡ spec_of claude_skipped claude_spec n (lookup n servers))
unfolding parse_upstreams
claude_found unmarshal text servers e h =
    let specs = kept claude_skipped claude_spec servers in
    let apart = DistinctNames-kept claude_skipped claude_spec (λ n s. refl) servers h in
    (
      sort_by name_le specs,
      cc e,
      (λ n.
          (find_spec-sort_by name_le specs apart).0 n
          ∙ find_spec-kept claude_skipped claude_spec (λ n s. refl) n servers h),
    )

-- The same of a Codex configuration, whose servers are passed over where they have a URL.
pub codex_found :
    (unmarshal : Str → Option (Map Str CodexMcpServer)) (lookup_env : Str → Option Str) (text : Str)
    (servers : Map Str CodexMcpServer)
    → unmarshal text ≡ some servers
    → DistinctKeys servers
    → (specs : List UpstreamSpec) × (parse_codex_upstreams unmarshal lookup_env text ≡ ok specs)
      × ((n : Str)
          → find_spec n specs ≡ spec_of codex_skipped (codex_spec lookup_env) n (lookup n servers))
unfolding parse_codex_upstreams
codex_found unmarshal lookup_env text servers e h =
    let specs = kept codex_skipped (codex_spec lookup_env) servers in
    let apart = DistinctNames-kept codex_skipped (codex_spec lookup_env) (λ n s. refl) servers h in
    (
      sort_by name_le specs,
      cc e,
      (λ n.
          (find_spec-sort_by name_le specs apart).0 n
          ∙ find_spec-kept codex_skipped (codex_spec lookup_env) (λ n s. refl) n servers h),
    )
