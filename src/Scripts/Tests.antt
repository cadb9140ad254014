-- ===== src/Scripts/Tests.antt =====
-- `runScript` and `create` of internal/sandbox: a script, and a sandbox that stays, on a small host.
use demesne.Base.{◌≡◌, pos, true, false, none, some, [], ◌∷◌, ◌++◌, codes, ok}
use demesne.Mounts.Inputs.{regular}
use demesne.Prepare.{HostAnswers}
use demesne.Spawns.{ScriptRequest, CreateRequest}
use demesne.Scripts.{ScriptHost, run_script, create}
use demesne.Scripts.Kept.{left_by, there_after, not_undone, LeavesFailed, sandboxes_left}
use demesne.Runs.Undone.{held_after}

abbrev answers : HostAnswers
answers = record {
  eval_symlinks = λ p. some p;
  stat = λ p. some regular;
  make_dir = λ p. true;
  ensure_image = λ p. some p;
  create = λ n. ok (codes "sb");
  is_done = λ n. false;
  egress_hosts = codes "sum.golang.org" ∷ [];
}

abbrev pub script_host : ScriptHost
script_host = record {
  answers = answers;
  allowed_paths = codes "/d" ∷ [];
  output_root = codes "/o";
  script_job = codes "j1";
  sidecar_image = some (codes "sidecar");
  sidecar_starts = true;
  command_exit = some (some (pos 0));
  removal_succeeds = false;
  kill_succeeds = true;
  stdout_log = some (codes "done");
  stderr_log = none;
}

abbrev script : ScriptRequest
script = record {
  command = codes "make";
  image = codes "go";
  script_egress = codes "none";
  script_files = [];
  script_directories = [];
}

abbrev request : CreateRequest
request = record {
  create_image = codes "go";
  create_egress = codes "none";
  create_files = [];
  create_directories = [];
}

sandboxes_left_example :
    (held_after (run_script script_host script none).calls [] ≡ some [])
    × LeavesFailed (run_script script_host script none).calls []
    × (held_after (create script_host request none).calls []
        ≡ some (left_by (create script_host request none).outcome []))
    × (there_after (create script_host request none).calls []
        ≡ left_by
            (create script_host request none).outcome
            (not_undone (create script_host request none).calls ++ []))
sandboxes_left_example = sandboxes_left script_host script request none []
