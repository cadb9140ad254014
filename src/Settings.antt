-- ===== src/Settings.antt =====
-- `LoadConfigFromEnv` of internal/sandbox/config.go: the settings that the environment gives.
pub mod Loaded
mod Tests
use demesne.Base.{
  Bool, true, false, Option, none, some, List, [], ◌∷◌, ◌++◌, if◌then◌else◌, Str, codes, str_eq,
  is_empty, join_path, require, Result, err, ok, ◌>>=◌,
}
use demesne.Mounts.{AllowedError, allowed_paths_from_env, with_output_root}
use demesne.Agents.{Config}

-- The fields of the source's Config that are read from the environment; the choice of an agent reads
-- those of `agents`.
pub record Settings : Type 0 where
  pub agents : Config
  pub allowed_paths : List Str
  pub output_root : Str
  pub open_sandbox_domain : Str
  pub open_sandbox_protocol : Str
  pub open_sandbox_api_key : Str

pub data SettingsError : Type 0 where
  not_a_boolean : Str → SettingsError
  paths_refused : AllowedError → SettingsError
  domain_required : SettingsError
  api_key_required : SettingsError
  no_output_root : Str → SettingsError

abbrev pub one_of : Str → List Str → Bool
one_of s [] = false
one_of s (t ∷ ts) = if str_eq s t then true else one_of s ts

-- `strconv.ParseBool`
unfoldable pub parse_bool : Str → Option Bool
parse_bool s =
    if one_of s
      (codes "1" ∷ codes "t" ∷ codes "T" ∷ codes "TRUE" ∷ codes "true" ∷ codes "True" ∷ [])
    then some true
    else if one_of s
        (codes "0" ∷ codes "f" ∷ codes "F" ∷ codes "FALSE" ∷ codes "false" ∷ codes "False" ∷ [])
    then some false
    else none

-- `env` is os.LookupEnv, `home` what os.UserHomeDir answers, `make_dir` whether a directory can be made.
module _ (env : Str → Option Str) (home : Option Str) (make_dir : Str → Bool) where
  abbrev pub getenv : Str → Str
  getenv name = elim (env name) [ none ↦ [] | some value ↦ value ]

  abbrev pub env_bool_or_true : Str → Result SettingsError Bool
  env_bool_or_true name = elim (env name) [
    | none ↦ ok true
    | some raw ↦ require (parse_bool raw) (not_a_boolean name)
  ]

  abbrev pub env_or : Str → Str → Str
  env_or name fallback = if is_empty (getenv name) then fallback else getenv name

  abbrev pub default_output_root : Str
  default_output_root = elim home [
    | none ↦ codes "/tmp/demesne/out"
    | some h ↦ join_path (h ∷ codes ".demesne" ∷ codes "out" ∷ [])
  ]

  abbrev pub resolve_codex_auth_file : Str
  resolve_codex_auth_file =
      env_or (codes "DEMESNE_CODEX_AUTH_FILE")
        (elim home [ none ↦ [] | some h ↦ h ++ codes "/.codex/auth.json" ])

  abbrev pub settings_of : Bool → Bool → List Str → Settings
  settings_of codex claude_code paths =
      let root = env_or (codes "DEMESNE_OUTPUT_ROOT") default_output_root in
      record {
        agents = record {
          codex_enabled = codex;
          claude_code_enabled = claude_code;
          codex_auth_file = resolve_codex_auth_file;
          claude_code_oauth_token = getenv (codes "DEMESNE_CLAUDE_CODE_OAUTH_TOKEN");
        };
        allowed_paths = with_output_root root paths;
        output_root = root;
        open_sandbox_domain = getenv (codes "OPEN_SANDBOX_DOMAIN");
        open_sandbox_protocol = env_or (codes "OPEN_SANDBOX_PROTOCOL") (codes "http");
        open_sandbox_api_key = getenv (codes "OPEN_SANDBOX_API_KEY");
      }

  abbrev pub check_required : Settings → Result SettingsError Settings
  check_required s =
      if is_empty s.open_sandbox_domain
      then err domain_required
      else if is_empty s.open_sandbox_api_key
      then err api_key_required
      else if make_dir s.output_root
      then ok s
      else err (no_output_root s.output_root)

  abbrev pub paths_given : Result SettingsError (List Str)
  paths_given = elim (allowed_paths_from_env (getenv (codes "DEMESNE_ALLOWED_PATHS"))) [
    | err e ↦ err (paths_refused e)
    | ok paths ↦ ok paths
  ]

  unfoldable pub load_config_from_env : Result SettingsError Settings
  load_config_from_env =
      (env_bool_or_true (codes "DEMESNE_CODEX_ENABLED") >>= (λ codex.
        env_bool_or_true (codes "DEMESNE_CLAUDE_CODE_ENABLED") >>= (λ claude_code.
          paths_given >>= (λ paths. check_required (settings_of codex claude_code paths)))))
