-- ===== src/Layout.antt =====
-- `buildLayout` and `agentVolumes` of internal/sandbox/agent.go: the host directories of an agent's
-- run and the mounts of its sandbox.
pub mod Isolation
use demesne.Base.{
  ℕ, suc, Bool, true, false, Option, none, some, List, [], ◌∷◌, ◌++◌, if◌then◌else◌, Str, codes,
  Map, join_path, Result, err, ok, ◌>>=◌,
}
use demesne.Children.{
  SpawnContext, NameError, reserve_name, prior_siblings, Volume, previous_job_volumes,
}
use demesne.Mounts.Inputs.{FileKind, InputError, resolve_mounts}
use demesne.Prepare.{wrap_err, out_volume, workspace_volume}
use demesne.Spawns.{RunContext, ChildSpawn, AgentSpec}

-- What the host answers of its file system, the roots that may be mounted, and where outputs go.
pub record LayoutHost : Type 0 where
  pub eval_symlinks : Str → Option Str
  pub stat : Str → Option FileKind
  pub make_dir : Str → Bool
  pub allowed_paths : List Str
  pub output_root : Str

pub data LayoutError : Type 0 where
  mounts_refused : InputError → LayoutError
  name_refused : NameError → LayoutError
  dir_failed : Str → LayoutError

pub record SandboxLayout : Type 0 where
  pub job_id : Str
  pub layout_inputs : List Volume
  pub workspace_host : Str
  pub out_host : Str
  pub config_dir : Str
  pub results_host : Str
  pub depth : ℕ
  pub child_name : Str
  pub previous_jobs : Map Str Str

abbrev pub agent_config_dir : Str
agent_config_dir = codes "/in/.agent"

abbrev pub config_volume : Str → Volume
config_volume host = record {
  volume_name = codes "agent-config";
  host_path = host;
  mount_path = agent_config_dir;
  read_only = true;
}

abbrev pub agent_volumes : SandboxLayout → List Volume
agent_volumes l =
    config_volume l.config_dir ∷ workspace_volume l.workspace_host ∷ out_volume l.out_host ∷ []

-- The mounts of `createSandbox`.
abbrev pub agent_mounts : SandboxLayout → List Volume
agent_mounts l = l.layout_inputs ++ previous_job_volumes l.previous_jobs ++ agent_volumes l

abbrev pub root_dirs : SandboxLayout → List Str
root_dirs l = l.workspace_host ∷ l.out_host ∷ l.config_dir ∷ l.results_host ∷ []

abbrev pub child_dirs : Bool → SandboxLayout → List Str
child_dirs isolated l =
    l.out_host ∷ l.config_dir ∷ l.results_host ∷ (if isolated then l.workspace_host ∷ [] else [])

module _ (h : LayoutHost) where
  abbrev pub mk_layout_dirs : List Str → SandboxLayout → Result LayoutError SandboxLayout
  mk_layout_dirs [] l = ok l
  mk_layout_dirs (d ∷ dirs) l =
      let rest = mk_layout_dirs dirs l in if h.make_dir d then rest else err (dir_failed d)

  abbrev pub job_dir : Str → Str → Str
  job_dir job name = join_path (join_path (h.output_root ∷ job ∷ []) ∷ name ∷ [])

  abbrev pub root_layout : Str → List Volume → SandboxLayout
  root_layout job volumes = record {
    job_id = job;
    layout_inputs = volumes;
    workspace_host = job_dir job (codes "workspace");
    out_host = job_dir job (codes "out");
    config_dir = job_dir job (codes "config");
    results_host = job_dir job (codes "sidecar-results");
    depth = 0;
    child_name = [];
    previous_jobs = [];
  }

  abbrev pub made_root : SandboxLayout → Result LayoutError SandboxLayout
  made_root l = mk_layout_dirs (root_dirs l) l

  unfoldable pub build_root_layout : Str → List Str → List Str → Result LayoutError SandboxLayout
  build_root_layout job files directories =
      (wrap_err mounts_refused
          (resolve_mounts h.eval_symlinks h.stat h.allowed_paths files directories)
        >>= (λ volumes. made_root (root_layout job volumes)))

  -- `taken` is the parent's context with the name taken.
  abbrev pub child_layout : Str → ChildSpawn → SpawnContext → SandboxLayout
  child_layout job c taken = record {
    job_id = job;
    layout_inputs = if c.isolated then [] else c.parent.input_volumes;
    workspace_host = if c.isolated then job_dir job (codes "workspace") else taken.workspace_host;
    out_host = join_path (taken.out_host ∷ codes "child" ∷ c.child ∷ []);
    config_dir = job_dir job (codes "config");
    results_host = job_dir job (codes "sidecar-results");
    depth = suc taken.depth;
    child_name = c.child;
    previous_jobs = if c.isolated then [] else prior_siblings taken;
  }

  abbrev pub made_child : Bool → SandboxLayout → Result LayoutError SandboxLayout
  made_child isolated l = mk_layout_dirs (child_dirs isolated l) l

  abbrev pub build_reserved :
      Str
      → ChildSpawn
      → Result NameError SpawnContext
      → SpawnContext × Result LayoutError SandboxLayout
  build_reserved job c (err e) = (c.parent.spawning, err (name_refused e))
  build_reserved job c (ok taken) = (taken, made_child c.isolated (child_layout job c taken))

  unfoldable pub build_child_layout :
      Str → ChildSpawn → SpawnContext × Result LayoutError SandboxLayout
  build_child_layout job c = build_reserved job c (reserve_name c.child c.parent.spawning)

  -- Beside the layout, what becomes of the parent's context, where there is a parent.
  abbrev pub build_layout : Str → AgentSpec → Option SpawnContext × Result LayoutError SandboxLayout
  build_layout job spec = elim spec.spawned [
    | some c ↦ let (ctx, l) = build_child_layout job c in (some ctx, l)
    | none ↦ (none, build_root_layout job spec.files spec.directories)
  ]
