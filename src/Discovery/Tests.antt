-- ===== src/Discovery/Tests.antt =====
-- Discovery on concrete configurations, in the notation of the model.
use demesne.Base.{
  ◌≡◌, refl, Option, none, some, List, [], ◌∷◌, if◌then◌else◌, Str, codes, str_eq, str_Eq, Map,
  lookup, insert, DistinctKeys, sort_by, insert_by, str_le, ok,
}
use demesne.Discovery.{
  UpstreamSpec, ClaudeMcpServer, CodexMcpServer, claude_spec, codex_skipped, codex_spec,
  parse_upstreams, parse_codex_upstreams, merge_upstreams, discover, absent, valid_server_name,
  is_stdio,
}
use demesne.Discovery.Found.{find_spec, spec_of, codex_found}

abbrev stdio : Str → ClaudeMcpServer
stdio command = record {
  transport = codes "stdio";
  claude_command = command;
  claude_args = [];
  claude_env = [];
}

abbrev servers : Map Str ClaudeMcpServer
servers =
    (codes "web", stdio (codes "w"))
    ∷ (codes "demesne", stdio (codes "d"))
    ∷ (codes "Bad", stdio (codes "b"))
    ∷ (codes "files", stdio (codes "f"))
    ∷ []

servers_distinct : DistinctKeys servers
unfolding lookup str_eq
servers_distinct = (refl, (refl, (refl, (refl, tt))))

claude_run :
    parse_upstreams (λ s. some servers) []
    ≡ ok (
        claude_spec (codes "files") (stdio (codes "f"))
        ∷ claude_spec (codes "web") (stdio (codes "w"))
        ∷ [])
unfolding parse_upstreams sort_by insert_by str_le str_eq valid_server_name is_stdio
claude_run = refl

abbrev host : Str → Option Str
host name = if str_eq name (codes "TOKEN") then some (codes "t") else none

abbrev codex_server : CodexMcpServer
codex_server = record {
  codex_command = codes "c";
  codex_args = [];
  codex_env = (codes "A", codes "1") ∷ [];
  env_vars = codes "TOKEN" ∷ codes "A" ∷ codes "GONE" ∷ [];
  url = [];
}

codex_found_example :
    (specs : List UpstreamSpec) × (parse_codex_upstreams
        (λ s. some ((codes "web", codex_server) ∷ []))
        host
        []
      ≡ ok specs)
    × ((n : Str)
        → find_spec n specs
          ≡ spec_of codex_skipped (codex_spec host) n (lookup n ((codes "web", codex_server) ∷ [])))
unfolding lookup
codex_found_example =
    codex_found (λ s. some ((codes "web", codex_server) ∷ [])) host []
      ((codes "web", codex_server) ∷ []) refl (refl, tt)

abbrev claude_list : List UpstreamSpec
claude_list =
    claude_spec (codes "web") (stdio (codes "w")) ∷ claude_spec (codes "a") (stdio (codes "a")) ∷ []

abbrev codex_list : List UpstreamSpec
codex_list = claude_spec (codes "web") (stdio (codes "other")) ∷ []

merged :
    merge_upstreams claude_list codex_list
    ≡ claude_spec (codes "a") (stdio (codes "a"))
      ∷ claude_spec (codes "web") (stdio (codes "other"))
      ∷ []
unfolding merge_upstreams insert sort_by insert_by str_le str_eq
merged = refl

missing_file : discover (parse_upstreams (λ s. none)) absent ≡ ok []
unfolding discover
missing_file = refl
