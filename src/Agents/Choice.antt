-- ===== src/Agents/Choice.antt =====
-- internal/sandbox/agent.go and internal/agents/agent.go: the provider that is chosen is enabled,
-- has the model, and does not depend on the order of the registry.
use demesne.Base.{
  ◌≡◌, ◌⊎◌, refl, sym, ◌∙◌, ap, subst, inl, inr, Bool, true, false, not, ◌&&◌, Bool-cases, List, [],
  ◌∷◌, if◌then◌else◌, Str, str_eq, str_eq_iff, is_empty, All, sort_strings, insert_sorted, str_le,
  bind_inversion, err, ok, ◌>>=◌, arith,
}
use demesne.Agents.{
  Config, agent_name_codex, agent_name_claude_code, Agent, codex_agent, claude_code_agent,
  provider_disabled, has_model, resolve_model, lookup_agent, lookup_by_model, available_agent_names,
  resolve_default_agent, agent_enabled, paired, resolve_for, resolve_agent_model,
}

-- The two agents that register themselves, in the two orders in which a map can be iterated.
abbrev pub registered : List Agent
registered = codex_agent ∷ claude_code_agent ∷ []

abbrev pub registered_again : List Agent
registered_again = claude_code_agent ∷ codex_agent ∷ []

-- A provider that the default can be.
abbrev Usable : Config → Str → Type 0
Usable cfg n =
    (agent_enabled cfg n ≡ true) × ((n ≡ agent_name_codex) ⊎ (n ≡ agent_name_claude_code))

codex-Usable :
    (cfg : Config) (n : Str) → cfg.codex_enabled ≡ true → agent_name_codex ≡ n → Usable cfg n
unfolding agent_enabled str_eq
codex-Usable cfg n e k = subst (Usable cfg) k (e, inl refl)

claude-Usable :
    (cfg : Config) (n : Str)
    → cfg.claude_code_enabled ≡ true
    → agent_name_claude_code ≡ n
    → Usable cfg n
unfolding agent_enabled str_eq
claude-Usable cfg n e k = subst (Usable cfg) k (e, inr refl)

default-Usable :
    (there : Bool) (cfg : Config) (n : Str) → resolve_default_agent there cfg ≡ ok n → Usable cfg n
unfolding resolve_default_agent available_agent_names
default-Usable there cfg n h =
    elim (Bool-cases (cfg.codex_enabled && not (is_empty cfg.codex_auth_file) && there)) [
      | inl a ↦ codex-Usable cfg n (ground (arith, a)) (ground (arith, h, a))
      | inr a ↦
          elim (Bool-cases
            (cfg.claude_code_enabled && not (is_empty cfg.claude_code_oauth_token))) [
              | inl b ↦ claude-Usable cfg n (ground (arith, b)) (ground (arith, h, a, b))
              | inr b ↦ elim (Bool-cases cfg.codex_enabled) [
                | inl c ↦ codex-Usable cfg n c (ground (arith, h, a, b, c))
                | inr c ↦ elim (Bool-cases cfg.claude_code_enabled) [
                  | inl d ↦ claude-Usable cfg n d (ground (arith, h, a, b, c, d))
                  | inr d ↦ absurd (ground (arith, h, a, b, c, d))
                ]
              ]
            ]
    ]

resolved_model :
    (a : Agent) (raw m : Str)
    → has_model a.default_model a.models ≡ true
    → resolve_model a raw ≡ ok m
    → has_model m a.models ≡ true
unfolding resolve_model
resolved_model a raw m d h = elim (Bool-cases (is_empty raw)) [
  | inl e ↦
      let same : a.default_model ≡ m = ground (arith, h, e) in
      subst (λ x. has_model x a.models ≡ true) same d
  | inr e ↦ elim (Bool-cases (has_model raw a.models)) [
    | inl k ↦
        let same : raw ≡ m = ground (arith, h, e, k) in
        subst (λ x. has_model x a.models ≡ true) same k
    | inr k ↦ absurd (ground (arith, h, e, k))
  ]
]

-- The agents of the registry that a name or a model leads to.
abbrev Known : Agent → Type 0
Known a = (codex_agent ≡ a) ⊎ (claude_code_agent ≡ a)

lookup_by_model-Known : (raw : Str) (a : Agent) → lookup_by_model registered raw ≡ ok a → Known a
unfolding lookup_by_model
lookup_by_model-Known raw a h = elim (Bool-cases (has_model raw codex_agent.models)) [
  | inl c ↦ inl (ground (arith, h, c))
  | inr c ↦ elim (Bool-cases (has_model raw claude_code_agent.models)) [
    | inl d ↦ inr (ground (arith, h, c, d))
    | inr d ↦ absurd (ground (arith, h, c, d))
  ]
]

Known-default : (a : Agent) → Known a → has_model a.default_model a.models ≡ true
unfolding has_model str_eq
Known-default a (inl e) = subst (λ x. has_model x.default_model x.models ≡ true) e refl
Known-default a (inr e) = subst (λ x. has_model x.default_model x.models ≡ true) e refl

lookup_agent-name :
    (n : Str) (cfg : Config) (a : Agent)
    → Usable cfg n
    → lookup_agent registered n ≡ ok a
    → (a.agent_name ≡ n) × Known a
unfolding lookup_agent str_eq
lookup_agent-name n cfg a (e, inl k) h =
    let h' : ok codex_agent ≡ ok a = subst (λ x. lookup_agent registered x ≡ ok a) k h in
    let same : codex_agent ≡ a = ground (arith, h') in
    (ap (λ x. x.agent_name) (sym same) ∙ sym k, inl same)
lookup_agent-name n cfg a (e, inr k) h =
    let h' : ok claude_code_agent ≡ ok a = subst (λ x. lookup_agent registered x ≡ ok a) k h in
    let same : claude_code_agent ≡ a = ground (arith, h') in
    (ap (λ x. x.agent_name) (sym same) ∙ sym k, inr same)

resolve_for-model :
    (b a : Agent) (name m : Str)
    → has_model b.default_model b.models ≡ true
    → resolve_for b name ≡ ok (a, m)
    → (b ≡ a) × (has_model m a.models ≡ true)
resolve_for-model b a name m d h =
    let (k, e, out) = bind_inversion (resolve_model b name) (λ m. ok (paired b m)) h in
    let same : b ≡ a = ground (arith, out) in
    let model : k ≡ m = ground (arith, out) in
    (
      same,
      subst (λ x. has_model m x.models ≡ true) same
          (subst (λ x. has_model x b.models ≡ true) model (resolved_model b name k d e)),
    )

-- The default provider is enabled, and what it resolves an empty name to is its model.
default_choice :
    (there : Bool) (cfg : Config) (m : Str) (a : Agent)
    → (resolve_default_agent there cfg >>= lookup_agent registered >>= (λ a. resolve_for a []))
      ≡ ok (a, m)
    → (agent_enabled cfg a.agent_name ≡ true) × (has_model m a.models ≡ true)
default_choice there cfg m a h =
    let (b, found, out) =
      bind_inversion (resolve_default_agent there cfg >>= lookup_agent registered)
        (λ a. resolve_for a []) h in
    let (n, usual, looked) =
      bind_inversion (resolve_default_agent there cfg) (lookup_agent registered) found in
    let usable = default-Usable there cfg n usual in
    let (its_name, known) = lookup_agent-name n cfg b usable looked in
    let (same, has) = resolve_for-model b a [] m (Known-default b known) out in
    (
      subst (λ x. agent_enabled cfg x.agent_name ≡ true) same
          (subst (λ x. agent_enabled cfg x ≡ true) (sym its_name) usable.0),
      has,
    )

-- A model that is named leads to its provider only where that is enabled.
named_choice :
    (cfg : Config) (raw m : Str) (a : Agent)
    → (lookup_by_model registered raw >>= (λ a.
        if agent_enabled cfg a.agent_name
        then resolve_for a raw
        else err (provider_disabled raw a.agent_name)))
      ≡ ok (a, m)
    → (agent_enabled cfg a.agent_name ≡ true) × (has_model m a.models ≡ true)
named_choice cfg raw m a h =
    let (b, found, out) =
      bind_inversion (lookup_by_model registered raw)
        (λ a.
          if agent_enabled cfg a.agent_name
          then resolve_for a raw
          else err (provider_disabled raw a.agent_name))
        h in
    elim (Bool-cases (agent_enabled cfg b.agent_name)) [
      | inl e ↦
          let out' : resolve_for b raw ≡ ok (a, m) = ground (arith, out, e) in
          let (same, has) =
            resolve_for-model b a raw m (Known-default b (lookup_by_model-Known raw b found))
              out' in
          (subst (λ x. agent_enabled cfg x.agent_name ≡ true) same e, has)
      | inr e ↦ absurd (ground (arith, out, e))
    ]

-- What a run gets, whether it names a model or not, is a model of its provider, which is enabled.
pub chosen_enabled :
    (there : Bool) (cfg : Config) (raw m : Str) (a : Agent)
    → resolve_agent_model registered there cfg raw ≡ ok (a, m)
    → (agent_enabled cfg a.agent_name ≡ true) × (has_model m a.models ≡ true)
unfolding resolve_agent_model
chosen_enabled there cfg raw m a h = elim (Bool-cases (is_empty raw)) [
  | inl e ↦ default_choice there cfg m a (ground (arith, h, e))
  | inr e ↦ named_choice cfg raw m a (ground (arith, h, e))
]

-- A model of one list that another list shares no name with is not in that other list.
has_model-Apart :
    (m : Str) (ns other : List Str)
    → All (λ n. has_model n other ≡ false) ns
    → has_model m ns ≡ true
    → has_model m other ≡ false
unfolding has_model
has_model-Apart m [] other apart h = absurd (ground (arith, h))
has_model-Apart m (n ∷ ns) other apart h = elim (Bool-cases (str_eq n m)) [
  | inl e ↦ subst (λ x. has_model x other ≡ false) ((str_eq_iff n m).0 e) apart.0
  | inr e ↦ has_model-Apart m ns other apart.1 (ground (arith, h, e))
]

models_apart : All (λ n. has_model n claude_code_agent.models ≡ false) codex_agent.models
unfolding has_model str_eq
models_apart = (refl, (refl, (refl, (refl, (refl, (refl, (refl, (refl, tt))))))))

-- No model belongs to both providers, so which provider a model names does not depend on the order of
-- the registry; nor does the error for an unknown one.
pub model_names_one : (m : Str) → lookup_by_model registered m ≡ lookup_by_model registered_again m
unfolding lookup_by_model sort_strings insert_sorted str_le
model_names_one m = elim (Bool-cases (has_model m codex_agent.models)) [
  | inr c ↦ elim (Bool-cases (has_model m claude_code_agent.models)) [
    | inl d ↦ cc (c, d)
    | inr d ↦ cc (c, d)
  ]
  | inl c ↦
      let d = has_model-Apart m codex_agent.models claude_code_agent.models models_apart c in
      cc (c, d)
]
