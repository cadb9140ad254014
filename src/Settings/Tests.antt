-- ===== src/Settings/Tests.antt =====
-- `LoadConfigFromEnv` of internal/sandbox/config.go: a small environment.
use demesne.Base.{
  ◌≡◌, refl, true, false, Option, none, some, [], ◌∷◌, Str, codes, str_eq, if◌then◌else◌,
  trim_space, trim_left, split_on, clean_path, elements, join, join_path, filter_by, err, ok,
}
use demesne.Mounts.{with_output_root, allowed_paths_from_env}
use demesne.Settings.{Settings, not_a_boolean, parse_bool, load_config_from_env}
use demesne.Settings.Loaded.{Usable, loaded-Usable}

abbrev variables : Str → Option Str
variables name =
    if str_eq name (codes "DEMESNE_ALLOWED_PATHS")
    then some (codes "/a")
    else if str_eq name (codes "DEMESNE_CODEX_ENABLED")
    then some (codes "f")
    else if str_eq name (codes "OPEN_SANDBOX_DOMAIN")
    then some (codes "h:80")
    else if str_eq name (codes "OPEN_SANDBOX_API_KEY")
    then some (codes "k")
    else none

abbrev settings : Settings
settings = record {
  agents = record {
    codex_enabled = false;
    claude_code_enabled = true;
    codex_auth_file = codes "/h/.codex/auth.json";
    claude_code_oauth_token = [];
  };
  allowed_paths = codes "/a" ∷ codes "/h/.demesne/out" ∷ [];
  output_root = codes "/h/.demesne/out";
  open_sandbox_domain = codes "h:80";
  open_sandbox_protocol = codes "http";
  open_sandbox_api_key = codes "k";
}

is_loaded : load_config_from_env variables (some (codes "/h")) (λ p. true) ≡ ok settings
unfolding load_config_from_env parse_bool with_output_root allowed_paths_from_env trim_space
    trim_left split_on clean_path elements join join_path filter_by str_eq
is_loaded = refl

blank_is_invalid :
    load_config_from_env (λ name. some []) none (λ p. true)
    ≡ err (not_a_boolean (codes "DEMESNE_CODEX_ENABLED"))
unfolding load_config_from_env parse_bool str_eq
blank_is_invalid = refl

loaded-Usable_example : Usable (λ p. true) settings
loaded-Usable_example = loaded-Usable variables (some (codes "/h")) (λ p. true) settings is_loaded
