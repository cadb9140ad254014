-- ===== src/Runs.antt =====
-- `runAgent` of internal/sandbox/agent.go: what is resolved before a run, the creation of its
-- sandbox, and the run itself with what is undone after it.
pub mod Undone
pub mod Calls
pub mod Closed
pub mod Heirs
pub mod Confined
pub mod Tests
use demesne.Base.{
  ℕ, ℤ, pos, Bool, true, false, not, Option, none, some, List, [], ◌∷◌, ◌++◌, if◌then◌else◌, Str,
  codes, is_empty, trim_space, join_path, require, Result, err, ok, ◌>>=◌,
}
use demesne.Children.{SpawnContext, record_sibling, Volume}
use demesne.Mounts.Inputs.{InputError, InputInfo, describe_inputs}
use demesne.Egress.{EgressError, NetworkPolicy, build_network_policy}
use demesne.Agents.{
  Agent, AgentError, Config, proxy_anthropic, proxy_openai, prompt_required, resolve_agent_model,
  check_agent_credentials,
}
use demesne.Credential.{TokenSet}
use demesne.Launch.{LaunchError, launch_sandbox}
use demesne.Prepare.{wrap_err}
use demesne.Spawns.{RunContext, ChildSpawn, AgentSpec}
use demesne.Layout.{LayoutHost, LayoutError, SandboxLayout, agent_mounts, build_layout}

-- What the host and the SDK answer during one run, and the configuration that the run reads.
-- `codex_tokens` is what RefreshAuthFile returns; `command_exit` is none where the SDK reports an
-- error.
pub record RunHost : Type 0 where
  pub layout : LayoutHost
  pub size_of : Str → ℕ
  pub config : Config
  pub registry : List Agent
  pub auth_file_there : Bool
  pub codex_tokens : Option TokenSet
  pub agent_image : Str → Option Str
  pub sidecar_image : Option Str
  pub agent_token : Option Str
  pub job : Str
  pub write_context : Bool
  pub write_agent_config : Bool
  pub create : ℕ → Result Str Str
  pub is_done : ℕ → Bool
  pub egress_hosts : List Str
  pub sidecar_starts : Bool
  pub command_exit : Option (Option ℤ)
  pub removal_succeeds : Bool
  pub kill_succeeds : Bool

pub data RunError : Type 0 where
  agent_refused : AgentError → RunError
  no_codex_tokens : RunError
  input_refused : InputError → RunError
  no_agent_image : RunError
  no_sidecar_image : RunError
  no_agent_token : RunError
  not_laid_out : LayoutError → RunError
  policy_refused : EgressError → RunError
  context_not_written : RunError
  config_not_written : RunError
  not_launched : LaunchError → RunError
  sidecar_failed : RunError
  command_failed : RunError

pub record AgentPrep : Type 0 where
  pub agent : Agent
  pub run_model : Str
  pub prep_inputs : List InputInfo
  pub tag : Str
  pub tokens : TokenSet

-- A run that is ready for its sandbox: the preparation, the sidecar's image and the agent's token.
pub record Readied : Type 0 where
  pub prep : AgentPrep
  pub image : Str
  pub token : Str

pub data ProxyConfig : Type 0 where
  anthropic_proxy : Str → Str → Str → ProxyConfig
  codex_proxy : Str → TokenSet → Str → ProxyConfig
  no_proxy : ProxyConfig

-- The calls that make something, with what they make, and those that undo it; whether a sandbox is
-- killed and a sidecar removed is said, since a failure of these is only logged.
pub data RunCall : Type 0 where
  registered : Str → RunContext → RunCall
  deregistered : Str → RunCall
  created : Str → List Volume → NetworkPolicy → RunCall
  killed : Str → Bool → RunCall
  sidecar_started : Str → Str → ProxyConfig → RunCall
  sidecar_removed : Str → Bool → RunCall
  command_ran : Str → RunCall

pub record AgentRun : Type 0 where
  pub run_job : Str
  pub output : Str
  pub workspace : Str
  pub exit_code : ℤ

-- `after` is the context of the parent after the run, where the run is a child's.
pub record Performed (A : Type 0) : Type 0 where
  pub calls : List RunCall
  pub after : Option SpawnContext
  pub outcome : A

abbrev pub RunOutcome : Type 0
RunOutcome = Performed (Result RunError AgentRun)

abbrev pub without_calls : {A : Type 0} → Option SpawnContext → A → Performed A
without_calls ctx a = record { calls = []; after = ctx; outcome = a }

abbrev pub stopped : Option SpawnContext → RunError → RunOutcome
stopped ctx e = without_calls ctx (err e)

-- A call with the one that a defer has undo it.
abbrev pub within : {A : Type 0} → RunCall → RunCall → Performed A → Performed A
within opened closed o = record o { calls = opened ∷ o.calls ++ closed ∷ [] }

abbrev pub parent_of : Option ChildSpawn → Option SpawnContext
parent_of none = none
parent_of (some c) = some c.parent.spawning

abbrev pub record_child_sibling :
    Option ChildSpawn → SandboxLayout → Option SpawnContext → Option SpawnContext
record_child_sibling (some c) l (some ctx) = some (record_sibling c.child l.out_host ctx)
record_child_sibling (some c) l none = none
record_child_sibling none l ctx = ctx

abbrev pub context_of : AgentPrep → SandboxLayout → Str → RunContext
context_of prep l self = record {
  spawning = record {
    workspace_host = l.workspace_host;
    out_host = l.out_host;
    depth = l.depth;
    bg_job_id = self;
    used_names = [];
    sibling_outputs = [];
  };
  input_volumes = l.layout_inputs;
  inputs = prep.prep_inputs;
}

abbrev pub no_token_set : TokenSet
no_token_set = record {
  access_token = [];
  refresh_token = [];
  id_token = [];
  account_id = [];
  last_refresh = none;
}

abbrev pub exit_of : Option ℤ → ℤ
exit_of none = pos 0
exit_of (some n) = n

abbrev pub under : NetworkPolicy → Str → Result RunError (NetworkPolicy × Str)
under p sb = ok (p, sb)

module _ (h : RunHost) where
  abbrev pub resolve_codex_tokens : Agent → Result RunError TokenSet
  resolve_codex_tokens a = elim a.vendor [
    | proxy_anthropic ↦ ok no_token_set
    | proxy_openai ↦ require h.codex_tokens no_codex_tokens
  ]

  -- A child has the inputs of its parent, or none where it is isolated.
  abbrev pub run_inputs : Option ChildSpawn → AgentSpec → Result RunError (List InputInfo)
  run_inputs (some c) spec = ok (if c.isolated then [] else c.parent.inputs)
  run_inputs none spec = wrap_err input_refused (
      describe_inputs h.layout.eval_symlinks h.layout.stat h.size_of h.layout.allowed_paths
        spec.files spec.directories)

  abbrev pub prepared_for : AgentSpec → Agent × Str → Result RunError AgentPrep
  prepared_for spec (a, m) =
      (wrap_err agent_refused (check_agent_credentials h.config a) >>= (λ u.
        resolve_codex_tokens a >>= (λ t. run_inputs spec.spawned spec >>= (λ told.
          require (h.agent_image a.agent_name) no_agent_image >>= (λ built.
            ok (record {
              agent = a;
              run_model = m;
              prep_inputs = told;
              tag = built;
              tokens = t;
            }))))))

  abbrev pub prepare_agent : AgentSpec → Result RunError AgentPrep
  prepare_agent spec =
      if is_empty (trim_space spec.prompt)
      then err (agent_refused prompt_required)
      else (wrap_err agent_refused
            (resolve_agent_model h.registry h.auth_file_there h.config spec.model)
          >>= prepared_for spec)

  abbrev pub readied : AgentSpec → Result RunError Readied
  readied spec =
      (prepare_agent spec >>= (λ p. require h.sidecar_image no_sidecar_image >>= (λ i.
        require h.agent_token no_agent_token
        >>= (λ t. ok (record { prep = p; image = i; token = t })))))

  -- The policy of the sandbox and its id.
  abbrev pub create_under : NetworkPolicy → Result RunError (NetworkPolicy × Str)
  create_under p =
      if not h.write_context
      then err context_not_written
      else if not h.write_agent_config
      then err config_not_written
      else (wrap_err not_launched (launch_sandbox h.create h.is_done).1 >>= under p)

  abbrev pub create_sandbox : AgentSpec → Result RunError (NetworkPolicy × Str)
  create_sandbox spec =
      wrap_err policy_refused (build_network_policy spec.egress h.egress_hosts) >>= create_under

  abbrev pub build_proxy_config : Readied → SandboxLayout → ProxyConfig
  build_proxy_config r l = elim r.prep.agent.vendor [
    | proxy_anthropic ↦ anthropic_proxy r.token h.config.claude_code_oauth_token l.results_host
    | proxy_openai ↦ codex_proxy r.token r.prep.tokens l.results_host
  ]

  abbrev pub finish_agent_run : SandboxLayout → Option ℤ → AgentRun
  finish_agent_run l exit = record {
    run_job = l.job_id;
    output = l.out_host;
    workspace = l.workspace_host;
    exit_code = exit_of exit;
  }

  abbrev pub commanded : Str → SandboxLayout → Option SpawnContext → Option (Option ℤ) → RunOutcome
  commanded sb l ctx none = record {
    calls = command_ran sb ∷ [];
    after = ctx;
    outcome = err command_failed;
  }
  commanded sb l ctx (some exit) = record {
    calls = command_ran sb ∷ [];
    after = ctx;
    outcome = ok (finish_agent_run l exit);
  }

  abbrev pub with_sidecar : Readied → Str → SandboxLayout → Option SpawnContext → RunOutcome
  with_sidecar r sb l ctx =
      if h.sidecar_starts
      then within (sidecar_started sb r.image (build_proxy_config r l))
          (sidecar_removed sb h.removal_succeeds) (commanded sb l ctx h.command_exit)
      else stopped ctx sidecar_failed

  abbrev pub in_sandbox :
      AgentSpec
      → Readied
      → SandboxLayout
      → Option SpawnContext
      → Result RunError (NetworkPolicy × Str)
      → RunOutcome
  in_sandbox spec r l ctx (err e) = stopped ctx e
  in_sandbox spec r l ctx (ok (p, sb)) =
      within (created sb (agent_mounts l) p) (killed sb h.kill_succeeds)
        (with_sidecar r sb l (record_child_sibling spec.spawned l ctx))

  abbrev pub laid_out :
      AgentSpec → Readied → Option SpawnContext × Result LayoutError SandboxLayout → RunOutcome
  laid_out spec r (ctx, err e) = stopped ctx (not_laid_out e)
  laid_out spec r (ctx, ok l) =
      within (registered l.job_id (context_of r.prep l spec.bg_self)) (deregistered l.job_id)
        (in_sandbox spec r l ctx (create_sandbox spec))

  abbrev pub run_readied : AgentSpec → Result RunError Readied → RunOutcome
  run_readied spec (err e) = stopped (parent_of spec.spawned) e
  run_readied spec (ok r) = laid_out spec r (build_layout h.layout h.job spec)

  unfoldable pub run_agent : AgentSpec → RunOutcome
  run_agent spec = run_readied spec (readied spec)
