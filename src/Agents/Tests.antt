-- ===== src/Agents/Tests.antt =====
-- internal/sandbox/agent.go: runs of the choice of a provider on small configurations.
use demesne.Base.{◌≡◌, refl, true, false, [], codes, str_eq, err, ok}
use demesne.Agents.{
  Config, agent_name_codex, agent_name_claude_code, codex_agent, claude_code_agent, none_enabled,
  provider_disabled, has_model, resolve_model, lookup_agent, lookup_by_model, available_agent_names,
  resolve_default_agent, agent_enabled, check_agent_credentials, auth_file_required,
  resolve_agent_model,
}
use demesne.Agents.Choice.{registered, chosen_enabled}

abbrev only_claude : Config
only_claude = record {
  codex_enabled = false;
  claude_code_enabled = true;
  codex_auth_file = [];
  claude_code_oauth_token = codes "token";
}

abbrev nothing : Config
nothing = record {
  codex_enabled = false;
  claude_code_enabled = false;
  codex_auth_file = [];
  claude_code_oauth_token = [];
}

test_none : resolve_agent_model registered false nothing [] ≡ err none_enabled
unfolding resolve_agent_model resolve_default_agent available_agent_names
test_none = refl

test_disabled :
    resolve_agent_model registered false only_claude (codes "gpt-5.5")
    ≡ err (provider_disabled (codes "gpt-5.5") agent_name_codex)
unfolding resolve_agent_model lookup_by_model has_model agent_enabled str_eq
test_disabled = refl

test_credentials : check_agent_credentials only_claude codex_agent ≡ err auth_file_required
unfolding check_agent_credentials
test_credentials = refl

claude_chosen :
    resolve_agent_model registered false only_claude [] ≡ ok (claude_code_agent, codes "sonnet")
unfolding resolve_agent_model resolve_default_agent available_agent_names lookup_agent resolve_model
    str_eq
claude_chosen = refl

chosen_enabled_example :
    (agent_enabled only_claude agent_name_claude_code ≡ true)
    × (has_model (codes "sonnet") claude_code_agent.models ≡ true)
chosen_enabled_example =
    chosen_enabled false only_claude [] (codes "sonnet") claude_code_agent claude_chosen
