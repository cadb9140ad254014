-- ===== src/Discovery.antt =====
-- internal/mcpproxy/discovery.go: the host's MCP servers, from the configurations of Claude Code
-- and Codex.
pub mod Found
pub mod Merge
mod Tests
use demesne.Base.{
  ℕ, Bool, true, false, not, ◌&&◌, ◌||◌, Option, none, some, List, [], ◌∷◌, ◌++◌, map,
  if◌then◌else◌, ◌==◌, leb, length, Str, codes, str_eq, Map, lookup, insert, str_Eq, is_empty,
  str_le, sort_by, Result, err, ok,
}

abbrev pub demesne_server_name : Str
demesne_server_name = codes "demesne"

abbrev pub is_first : ℕ → Bool
is_first c = leb 97 c && leb c 122

abbrev pub is_rest : ℕ → Bool
is_rest c = is_first c || (leb 48 c && leb c 57 || (c == 95 || c == 45))

abbrev pub all_rest : Str → Bool
all_rest [] = true
all_rest (c ∷ s) = is_rest c && all_rest s

-- The regular expression `^[a-z][a-z0-9_-]{0,62}$`.
pub valid_server_name : Str → Bool
valid_server_name [] = false
valid_server_name (c ∷ s) = is_first c && (leb (length s) 62 && all_rest s)

pub record UpstreamSpec : Type 0 where
  pub name : Str
  pub command : Str
  pub args : List Str
  pub env : Map Str Str

pub record ClaudeMcpServer : Type 0 where
  pub transport : Str
  pub claude_command : Str
  pub claude_args : List Str
  pub claude_env : Map Str Str

pub record CodexMcpServer : Type 0 where
  pub codex_command : Str
  pub codex_args : List Str
  pub codex_env : Map Str Str
  pub env_vars : List Str
  pub url : Str

pub is_stdio : ClaudeMcpServer → Bool
is_stdio s =
    if is_empty s.claude_command
    then false
    else if not (is_empty s.transport) && not (str_eq s.transport (codes "stdio"))
    then false
    else true

abbrev pub claude_skipped : Str → ClaudeMcpServer → Bool
claude_skipped name s =
    str_eq name demesne_server_name
    || not (valid_server_name name)
    || not (is_empty s.transport) && not (str_eq s.transport (codes "stdio"))
    || not (is_stdio s)

abbrev pub claude_spec : Str → ClaudeMcpServer → UpstreamSpec
claude_spec name s = record {
  name = name;
  command = s.claude_command;
  args = s.claude_args;
  env = s.claude_env;
}

abbrev pub codex_skipped : Str → CodexMcpServer → Bool
codex_skipped name s =
    str_eq name demesne_server_name
    || not (valid_server_name name)
    || not (is_empty s.url)
    || is_empty s.codex_command

-- `lookup_env` is os.LookupEnv.
module _ (lookup_env : Str → Option Str) where
  abbrev pub set_var : Str → Option Str → Map Str Str → Map Str Str
  set_var name none env = env
  set_var name (some value) env = insert name value env

  abbrev pub from_vars : List Str → Map Str Str → Map Str Str
  from_vars [] env = env
  from_vars (v ∷ vs) env = from_vars vs (set_var v (lookup_env v) env)

  abbrev pub overlay : Map Str Str → Map Str Str → Map Str Str
  overlay [] env = env
  overlay ((k, v) ∷ more) env = overlay more (insert k v env)

  pub codex_environment : CodexMcpServer → Map Str Str
  codex_environment s = overlay s.codex_env (from_vars s.env_vars [])

  abbrev pub codex_spec : Str → CodexMcpServer → UpstreamSpec
  codex_spec name s = record {
    name = name;
    command = s.codex_command;
    args = s.codex_args;
    env = codex_environment s;
  }

-- The servers of a map, in the order in which it is iterated, less those that are passed over.
abbrev pub kept :
    {S : Type 0} → (Str → S → Bool) → (Str → S → UpstreamSpec) → Map Str S → List UpstreamSpec
kept skipped spec [] = []
kept skipped spec ((n, s) ∷ servers) =
    let rest = kept skipped spec servers in if skipped n s then rest else spec n s ∷ rest

abbrev pub name_le : UpstreamSpec → UpstreamSpec → Bool
name_le i j = str_le i.name j.name

pub data DiscoveryError : Type 0 where
  not_read : DiscoveryError
  not_parsed : DiscoveryError

-- What os.ReadFile answers.
pub data ConfigFile : Type 0 where
  absent : ConfigFile
  unreadable : ConfigFile
  contents : Str → ConfigFile

-- `unmarshal` is json.Unmarshal or toml.Unmarshal, `none` for an error; a nil map is an empty one.
pub parse_upstreams :
    (Str → Option (Map Str ClaudeMcpServer)) → Str → Result DiscoveryError (List UpstreamSpec)
parse_upstreams unmarshal data_text = elim (unmarshal data_text) [
  | none ↦ err not_parsed
  | some servers ↦ ok (sort_by name_le (kept claude_skipped claude_spec servers))
]

pub parse_codex_upstreams :
    (Str → Option (Map Str CodexMcpServer))
    → (Str → Option Str)
    → Str
    → Result DiscoveryError (List UpstreamSpec)
parse_codex_upstreams unmarshal lookup_env data_text = elim (unmarshal data_text) [
  | none ↦ err not_parsed
  | some servers ↦ ok (sort_by name_le (kept codex_skipped (codex_spec lookup_env) servers))
]

-- `none` of a file that is not there is no server and no error.
pub discover :
    (Str → Result DiscoveryError (List UpstreamSpec))
    → ConfigFile
    → Result DiscoveryError (List UpstreamSpec)
discover parse absent = ok []
discover parse unreadable = err not_read
discover parse (contents text) = parse text

abbrev pub merge_onto : List UpstreamSpec → Map Str UpstreamSpec → Map Str UpstreamSpec
merge_onto [] merged = merged
merge_onto (s ∷ ss) merged = merge_onto ss (insert s.name s merged)

pub merge_upstreams : List UpstreamSpec → List UpstreamSpec → List UpstreamSpec
merge_upstreams claude codex =
    sort_by name_le (map (λ e. e.1) (merge_onto codex (merge_onto claude [])))
