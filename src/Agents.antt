-- ===== src/Agents.antt =====
-- Which provider and model a run gets: internal/sandbox/agent.go, internal/agents/agent.go and the model
-- lists of internal/agents/anthropic/models.go and internal/agents/codex/models.go.
pub mod Choice
mod Tests
use demesne.Base.{
  ℕ, Bool, true, false, not, ◌&&◌, ◌||◌, Option, none, some, List, [], ◌∷◌, ◌++◌, map,
  if◌then◌else◌, Str, codes, str_eq, is_empty, trim_space, sort_strings, Result, err, ok, ◌>>=◌,
  require,
}
use demesne.Pricing.{aliases, anthropic_catalog, openai_catalog}

-- The fields of Config that the choice reads.
pub record Config : Type 0 where
  pub codex_enabled : Bool
  pub claude_code_enabled : Bool
  pub codex_auth_file : Str
  pub claude_code_oauth_token : Str

abbrev pub agent_name_codex : Str
agent_name_codex = codes "codex"

abbrev pub agent_name_claude_code : Str
agent_name_claude_code = codes "claude-code"

pub data ProxyVendor : Type 0 where
  proxy_anthropic : ProxyVendor
  proxy_openai : ProxyVendor

-- A registered agent: its name, its model list, the model for an empty name, and its vendor.
pub record Agent : Type 0 where
  pub agent_name : Str
  pub models : List Str
  pub default_model : Str
  pub vendor : ProxyVendor

abbrev pub codex_agent : Agent
codex_agent = record {
  agent_name = agent_name_codex;
  models = aliases openai_catalog;
  default_model = codes "gpt-6.1-sol";
  vendor = proxy_openai;
}

abbrev pub claude_code_agent : Agent
claude_code_agent = record {
  agent_name = agent_name_claude_code;
  models = aliases anthropic_catalog;
  default_model = codes "sonnet";
  vendor = proxy_anthropic;
}

pub data AgentError : Type 0 where
  unknown_agent : Str → List Str → AgentError
  unknown_model : Str → List Str → AgentError
  not_in_allowlist : Str → AgentError
  provider_disabled : Str → Str → AgentError
  none_enabled : AgentError
  token_required : AgentError
  auth_file_required : AgentError
  prompt_required : AgentError

unfoldable pub has_model : Str → List Str → Bool
has_model m [] = false
has_model m (n ∷ ns) = str_eq n m || has_model m ns

-- `ResolveModel` of either vendor.
unfoldable pub resolve_model : Agent → Str → Result AgentError Str
resolve_model a name =
    if is_empty name
    then ok a.default_model
    else if has_model name a.models
    then ok name
    else err (not_in_allowlist name)

-- The registry in the order in which the map is iterated.
abbrev pub named : Str → List Agent → Option Agent
named n [] = none
named n (a ∷ rest) = if str_eq a.agent_name n then some a else named n rest

pub lookup_agent : List Agent → Str → Result AgentError Agent
lookup_agent registry name =
    let wanted = if is_empty name then agent_name_codex else name in
    require (named wanted registry)
      (unknown_agent wanted (sort_strings (map (λ a. a.agent_name) registry)))

abbrev pub with_model : Str → List Agent → Option Agent
with_model m [] = none
with_model m (a ∷ rest) = if has_model m a.models then some a else with_model m rest

abbrev pub all_models : List Agent → List Str
all_models [] = []
all_models (a ∷ rest) = a.models ++ all_models rest

unfoldable pub lookup_by_model : List Agent → Str → Result AgentError Agent
lookup_by_model registry m =
    require (with_model m registry) (unknown_model m (sort_strings (all_models registry)))

-- `auth_file_there` is whether os.Stat finds the auth file.
pub available_agent_names : Bool → Config → List Str
available_agent_names auth_file_there cfg =
    let claude =
      if cfg.claude_code_enabled && not (is_empty cfg.claude_code_oauth_token)
      then agent_name_claude_code ∷ []
      else [] in
    if cfg.codex_enabled && not (is_empty cfg.codex_auth_file) && auth_file_there
    then agent_name_codex ∷ claude
    else claude

abbrev pub first_or_enabled : Config → List Str → Result AgentError Str
first_or_enabled cfg (n ∷ ns) = ok n
first_or_enabled cfg [] =
    if cfg.codex_enabled
    then ok agent_name_codex
    else if cfg.claude_code_enabled
    then ok agent_name_claude_code
    else err none_enabled

pub resolve_default_agent : Bool → Config → Result AgentError Str
resolve_default_agent there cfg = first_or_enabled cfg (available_agent_names there cfg)

unfoldable pub agent_enabled : Config → Str → Bool
agent_enabled cfg name =
    if str_eq name agent_name_codex
    then cfg.codex_enabled
    else if str_eq name agent_name_claude_code
    then cfg.claude_code_enabled
    else true

unfoldable pub check_agent_credentials : Config → Agent → Result AgentError (Unit {0})
check_agent_credentials cfg a = elim a.vendor [
  | proxy_anthropic ↦ if is_empty cfg.claude_code_oauth_token then err token_required else ok tt
  | proxy_openai ↦ if is_empty cfg.codex_auth_file then err auth_file_required else ok tt
]

abbrev pub paired : Agent → Str → Agent × Str
paired a m = (a, m)

abbrev pub resolve_for : Agent → Str → Result AgentError (Agent × Str)
resolve_for a name = resolve_model a name >>= (λ m. ok (paired a m))

unfoldable pub resolve_agent_model :
    List Agent → Bool → Config → Str → Result AgentError (Agent × Str)
resolve_agent_model registry there cfg raw =
    if is_empty raw
    then (resolve_default_agent there cfg >>= lookup_agent registry >>= (λ a. resolve_for a []))
    else (lookup_by_model registry raw >>= (λ a.
        if agent_enabled cfg a.agent_name
        then resolve_for a raw
        else err (provider_disabled raw a.agent_name)))
