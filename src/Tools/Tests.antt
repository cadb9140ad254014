-- ===== src/Tools/Tests.antt =====
-- The spawning tools: a request for open egress with a file, of the host and of a run.
use demesne.Base.{◌≡◌, refl, none, some, [], ◌∷◌, codes, str_eq, err, ok, if◌then◌else◌}
use demesne.Children.{ChildRegistry}
use demesne.Spawns.{RunContext}
use demesne.Tools.{
  ToolRequest, strings, anys, open_not_permitted, not_a_string, optional_string_slice,
  handle_sandbox_script, handle_sandbox_create, handle_sandbox_agent, handle_sandbox_research,
  handle_child_script, handle_child_create, handle_child_agent, handle_child_research,
}
use demesne.Tools.Guarded.{AllCalls, PrivateHost, PrivateChild, never_both}
use demesne.Scripts.Denied.{NotOpen}
use demesne.Scripts.Tests.{script_host}
use demesne.Runs.Tests.{host}

abbrev request : ToolRequest
request = record {
  require_string = λ key. ok (codes "x");
  get_string = λ key default. if str_eq key (codes "egress") then codes "open" else default;
  get_bool = λ key default. default;
  argument = λ key. some (strings (codes "/d/a" ∷ []));
}

abbrev caller : RunContext
caller = record {
  spawning = record {
    workspace_host = codes "/o/j0/workspace";
    out_host = codes "/o/j0/out";
    depth = 0;
    bg_job_id = [];
    used_names = [];
    sibling_outputs = [];
  };
  input_volumes = [];
  inputs = [];
}

abbrev runs : ChildRegistry RunContext
runs = record { entries = (codes "j0", caller) ∷ [] }

test_open : handle_sandbox_agent script_host host [] request ≡ err open_not_permitted
unfolding handle_sandbox_agent str_eq
test_open = refl

test_item :
    optional_string_slice
      (record request { argument = λ key. some (anys (some (codes "a") ∷ none ∷ [])) })
      (codes "files")
    ≡ err (not_a_string (codes "files") 1)
test_item = refl

never_both_example :
    AllCalls NotOpen (handle_sandbox_script script_host host [] request)
    × AllCalls NotOpen (handle_sandbox_create script_host host [] request)
    × AllCalls
        (PrivateHost script_host host [] request runs (codes "j0"))
        (handle_sandbox_agent script_host host [] request)
    × AllCalls
        (PrivateHost script_host host [] request runs (codes "j0"))
        (handle_sandbox_research script_host host [] request)
    × AllCalls NotOpen (handle_child_script script_host host [] request runs (codes "j0"))
    × AllCalls NotOpen (handle_child_create script_host host [] request runs (codes "j0"))
    × AllCalls
        (PrivateChild script_host host [] request runs (codes "j0"))
        (handle_child_agent script_host host [] request runs (codes "j0"))
    × AllCalls
        (PrivateChild script_host host [] request runs (codes "j0"))
        (handle_child_research script_host host [] request runs (codes "j0"))
never_both_example = never_both script_host host [] request runs (codes "j0")
