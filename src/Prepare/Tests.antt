-- ===== src/Prepare/Tests.antt =====
-- `prepareSandbox` of internal/sandbox/runner.go: a child on a small host.
use demesne.Base.{pos, true, false, some, [], ◌∷◌, codes, str_Eq, ok}
use demesne.Children.{SpawnContext}
use demesne.Mounts.Inputs.{regular}
use demesne.Prepare.{PrepOptions, HostAnswers, prepare_child}
use demesne.Prepare.Recorded.{Kept, prepare_child-Kept}

abbrev parent : SpawnContext
parent = record {
  workspace_host = codes "/o/w";
  out_host = codes "/o/out";
  depth = 0;
  bg_job_id = [];
  used_names = [];
  sibling_outputs = [];
}

abbrev options : PrepOptions
options = record {
  image = codes "go";
  mode = codes "none";
  files = [];
  directories = [];
  timeout_seconds = pos 60;
}

-- A host on which all goes well, the sandbox being sb.
abbrev host : HostAnswers
host = record {
  eval_symlinks = λ p. some p;
  stat = λ p. some regular;
  make_dir = λ p. true;
  ensure_image = λ p. some p;
  create = λ n. ok (codes "sb");
  is_done = λ n. false;
  egress_hosts = codes "sum.golang.org" ∷ [];
}

prepare_child-Kept_example :
    Kept (codes "a") parent (prepare_child host options [] (codes "a") parent)
prepare_child-Kept_example = prepare_child-Kept host options [] (codes "a") parent
