-- ===== src/Scripts.antt =====
-- `runScript` of internal/sandbox/runner.go and `create` of internal/sandbox/create.go: a sandbox
-- for one command, and one that stays.
pub mod Kept
pub mod Denied
pub mod Tests
use demesne.Base.{
  ℤ, pos, Bool, true, false, Option, none, some, List, [], ◌∷◌, ◌++◌, if◌then◌else◌, Str, codes,
  Result, err, ok,
}
use demesne.Children.{SpawnContext}
use demesne.Tails.{tail_stderr}
use demesne.Prepare.{PrepOptions, PrepareError, HostAnswers, Prepared, prepare_root, prepare_child}
use demesne.Spawns.{ChildSpawn, ScriptRequest, CreateRequest}
use demesne.Runs.{
  RunCall, created, killed, sidecar_started, sidecar_removed, command_ran, no_proxy, Performed,
  without_calls, within, exit_of,
}

-- What the host answers, and where a sandbox of the host's own puts its output. `command_exit` is
-- none where the SDK reports an error; a log is none where it cannot be read.
pub record ScriptHost : Type 0 where
  pub answers : HostAnswers
  pub allowed_paths : List Str
  pub output_root : Str
  pub script_job : Str
  pub sidecar_image : Option Str
  pub sidecar_starts : Bool
  pub command_exit : Option (Option ℤ)
  pub removal_succeeds : Bool
  pub kill_succeeds : Bool
  pub stdout_log : Option Str
  pub stderr_log : Option Str

pub data ScriptError : Type 0 where
  not_prepared : PrepareError → ScriptError
  sidecar_failed : ScriptError
  command_failed : ScriptError

pub record ScriptResult : Type 0 where
  pub job_id : Str
  pub output_path : Str
  pub stdout : Str
  pub exit_code : ℤ
  pub stderr : Str

pub record CreateResult : Type 0 where
  pub sandbox_id : Str
  pub created_path : Str

-- 48 hours, in seconds: oneShotSandboxTTLSeconds and persistentSandboxTTLSeconds.
abbrev pub sandbox_ttl_seconds : ℤ
sandbox_ttl_seconds = pos 172800

abbrev pub script_options : ScriptRequest → PrepOptions
script_options req = record {
  image = req.image;
  mode = req.script_egress;
  files = req.script_files;
  directories = req.script_directories;
  timeout_seconds = sandbox_ttl_seconds;
}

abbrev pub create_options : CreateRequest → PrepOptions
create_options req = record {
  image = req.create_image;
  mode = req.create_egress;
  files = req.create_files;
  directories = req.create_directories;
  timeout_seconds = sandbox_ttl_seconds;
}

abbrev pub log_text : Option Str → Str
log_text none = []
log_text (some text) = text

module _ (h : ScriptHost) where
  -- `prepareSandbox` with the child, if any; and what becomes of the context of its parent.
  abbrev pub prepare_sandbox :
      PrepOptions → Option ChildSpawn → Option SpawnContext × Result PrepareError Prepared
  prepare_sandbox o none =
      (none, prepare_root h.answers h.allowed_paths h.output_root h.script_job o)
  prepare_sandbox o (some c) =
      let (ctx, r) = prepare_child h.answers o c.parent.input_volumes c.child c.parent.spawning in
      (some ctx, r)

  -- `startGoproxySidecar`: the image of the sidecar that is started.
  abbrev pub start_goproxy_sidecar : Option Str
  start_goproxy_sidecar = elim h.sidecar_image [
    | none ↦ none
    | some image ↦ if h.sidecar_starts then some image else none
  ]

  abbrev pub script_result : Prepared → Option ℤ → ScriptResult
  script_result p exit = record {
    job_id = h.script_job;
    output_path = p.output_host;
    stdout = log_text h.stdout_log;
    exit_code = exit_of exit;
    stderr = tail_stderr (log_text h.stderr_log);
  }

  abbrev pub script_ran :
      Prepared
      → Option SpawnContext
      → Option (Option ℤ)
      → Performed (Result ScriptError ScriptResult)
  script_ran p ctx none = record {
    calls = command_ran p.sandbox ∷ [];
    after = ctx;
    outcome = err command_failed;
  }
  script_ran p ctx (some exit) = record {
    calls = command_ran p.sandbox ∷ [];
    after = ctx;
    outcome = ok (script_result p exit);
  }

  abbrev pub with_goproxy :
      Prepared → Option SpawnContext → Option Str → Performed (Result ScriptError ScriptResult)
  with_goproxy p ctx none = without_calls ctx (err sidecar_failed)
  with_goproxy p ctx (some image) =
      within (sidecar_started p.sandbox image no_proxy)
        (sidecar_removed p.sandbox h.removal_succeeds) (script_ran p ctx h.command_exit)

  abbrev pub script_in :
      Option SpawnContext × Result PrepareError Prepared
      → Performed (Result ScriptError ScriptResult)
  script_in (ctx, err e) = without_calls ctx (err (not_prepared e))
  script_in (ctx, ok p) =
      within (created p.sandbox p.volumes p.policy) (killed p.sandbox h.kill_succeeds)
        (with_goproxy p ctx start_goproxy_sidecar)

  pub run_script : ScriptRequest → Option ChildSpawn → Performed (Result ScriptError ScriptResult)
  run_script req child = script_in (prepare_sandbox (script_options req) child)

  abbrev pub kept_with :
      Prepared → Option SpawnContext → Option Str → Performed (Result ScriptError CreateResult)
  kept_with p ctx none = record {
    calls = created p.sandbox p.volumes p.policy ∷ killed p.sandbox h.kill_succeeds ∷ [];
    after = ctx;
    outcome = err sidecar_failed;
  }
  kept_with p ctx (some image) = record {
    calls = created p.sandbox p.volumes p.policy ∷ sidecar_started p.sandbox image no_proxy ∷ [];
    after = ctx;
    outcome = ok (record { sandbox_id = p.sandbox; created_path = p.output_host });
  }

  abbrev pub create_in :
      Option SpawnContext × Result PrepareError Prepared
      → Performed (Result ScriptError CreateResult)
  create_in (ctx, err e) = without_calls ctx (err (not_prepared e))
  create_in (ctx, ok p) = kept_with p ctx start_goproxy_sidecar

  pub create : CreateRequest → Option ChildSpawn → Performed (Result ScriptError CreateResult)
  create req child = create_in (prepare_sandbox (create_options req) child)
