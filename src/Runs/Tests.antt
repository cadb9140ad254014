-- ===== src/Runs/Tests.antt =====
-- `runAgent` of internal/sandbox/agent.go: an agent that is given a file, on a host where all goes well.
use mathlib.Core.List.{Memᴰ}
use demesne.Base.{
  trim_left, ◌≡◌, refl, pos, true, false, none, some, [], ◌∷◌, codes, str_eq, clean_path, elements,
  split_on, join, join_path, base_name, has_prefix, decimal, trim_space, lookup, filter_by, ok,
}
use demesne.Agents.{
  claude_code_agent, Config, has_model, resolve_model, lookup_by_model, agent_enabled,
  check_agent_credentials, resolve_agent_model,
}
use demesne.Mounts.{validate_mount_path, any_root}
use demesne.Mounts.Inputs.{
  volume_of, regular, add_inputs, resolve_mounts, describe_each, describe_inputs,
}
use demesne.Egress.{build_network_policy}
use demesne.Launch.{attempts, launch_sandbox}
use demesne.Jobs.{tool_sandbox_agent}
use demesne.Spawns.{RunContext, ChildSpawn, AgentSpec}
use demesne.Children.{reserve_name, validate_child_name, valid_chars}
use demesne.Layout.{LayoutHost, build_root_layout, build_child_layout}
use demesne.Runs.Heirs.{itself, spawns}
use demesne.Runs.Confined.{Sound, heirs-Sound}
use demesne.Mounts.Tests.{links, links_cleaned, links_absolute}
use demesne.Runs.{RunHost, registered, run_agent}
use demesne.Runs.Undone.{run, held_after, undone}

abbrev files : LayoutHost
files = record {
  eval_symlinks = links;
  stat = λ p. some regular;
  make_dir = λ p. true;
  allowed_paths = codes "/d" ∷ [];
  output_root = codes "/o";
}

abbrev config : Config
config = record {
  codex_enabled = false;
  claude_code_enabled = true;
  codex_auth_file = [];
  claude_code_oauth_token = codes "real";
}

abbrev pub host : RunHost
host = record {
  layout = files;
  size_of = λ p. 3;
  config = config;
  registry = claude_code_agent ∷ [];
  auth_file_there = false;
  codex_tokens = none;
  agent_image = λ a. some a;
  sidecar_image = some (codes "sidecar");
  agent_token = some (codes "fake");
  job = codes "j1";
  write_context = true;
  write_agent_config = true;
  create = λ n. ok (codes "sb");
  is_done = λ n. false;
  egress_hosts = codes "api" ∷ [];
  sidecar_starts = true;
  command_exit = some (some (pos 0));
  removal_succeeds = true;
  kill_succeeds = true;
}

abbrev spec : AgentSpec
spec = record {
  model = codes "sonnet";
  prompt = codes "hi";
  preamble = [];
  files = codes "/l" ∷ [];
  directories = [];
  egress = codes "none";
  tool = tool_sandbox_agent;
  spawned = none;
  output_path = [];
  output_format = [];
  success_criteria = [];
  bg_self = [];
}

test_outcome :
    (run_agent host spec).outcome
    ≡ ok (record {
      run_job = codes "j1";
      output = codes "/o/j1/out";
      workspace = codes "/o/j1/workspace";
      exit_code = pos 0;
    })
unfolding validate_mount_path any_root lookup filter_by run_agent resolve_agent_model
    lookup_by_model has_model agent_enabled resolve_model check_agent_credentials describe_inputs
    describe_each resolve_mounts add_inputs build_root_layout build_network_policy launch_sandbox
    attempts str_eq clean_path elements split_on join join_path base_name has_prefix decimal
    trim_space
test_outcome = refl

undone_example :
    held_after (run_agent host spec).calls (run (codes "j0") ∷ []) ≡ some (run (codes "j0") ∷ [])
undone_example = undone host spec (run (codes "j0") ∷ [])

abbrev root : RunContext
root = record {
  spawning = record {
    workspace_host = codes "/o/j1/workspace";
    out_host = codes "/o/j1/out";
    depth = 0;
    bg_job_id = [];
    used_names = [];
    sibling_outputs = [];
  };
  input_volumes = volume_of 0 (codes "/d/x") ∷ [];
  inputs = record { basename = codes "x"; is_directory = false; size = pos 3 } ∷ [];
}

registered_root : Memᴰ (registered (codes "j1") root) (run_agent host spec).calls
unfolding trim_left validate_mount_path any_root lookup filter_by run_agent resolve_agent_model
    lookup_by_model has_model agent_enabled resolve_model check_agent_credentials describe_inputs
    describe_each resolve_mounts add_inputs build_root_layout str_eq clean_path elements split_on
    join join_path base_name has_prefix decimal trim_space
registered_root = Memᴰ.head refl

abbrev child_of_root : ChildSpawn
child_of_root = record { child = codes "a"; parent = root; isolated = false }

abbrev heir_spec : AgentSpec
heir_spec = record spec { files = []; spawned = some child_of_root }

abbrev heir_host : RunHost
heir_host = record host { job = codes "j2" }

abbrev heir : RunContext
heir = record {
  spawning = record {
    workspace_host = codes "/o/j1/workspace";
    out_host = codes "/o/j1/out/child/a";
    depth = 1;
    bg_job_id = [];
    used_names = [];
    sibling_outputs = [];
  };
  input_volumes = root.input_volumes;
  inputs = root.inputs;
}

registered_heir : Memᴰ (registered (codes "j2") heir) (run_agent heir_host heir_spec).calls
unfolding run_agent resolve_agent_model lookup_by_model has_model agent_enabled resolve_model
    check_agent_credentials build_child_layout reserve_name validate_child_name valid_chars lookup
    str_eq clean_path elements split_on join join_path filter_by trim_space
registered_heir = Memᴰ.head refl

heirs-Sound_example : Sound host links_cleaned links_absolute heir
heirs-Sound_example =
    heirs-Sound host links_cleaned links_absolute spec (codes "j1") root heir refl registered_root (
      spawns root heir heir_host heir_spec child_of_root (codes "j2") itself refl refl refl
        registered_heir)
