-- ===== src/Tools.antt =====
-- The spawning tools: the handlers of internal/server/tools.go, which a host's client calls, and
-- those of internal/sandbox/childserver.go, which a run calls from inside its sandbox.
pub mod Permitted
pub mod Guarded
mod Tests
use demesne.Base.{
  ℕ, suc, Bool, true, false, Option, none, some, List, [], ◌∷◌, if◌then◌else◌, Str, codes, str_eq,
  is_empty, Result, err, ok, ◌>>=◌, require,
}
use demesne.Children.{ChildRegistry, lookup_run}
use demesne.Egress.{egress_none, egress_package_managers, egress_open}
use demesne.Prepare.{wrap_err}
use demesne.Jobs.{tool_sandbox_agent, tool_sandbox_research}
use demesne.Spawns.{
  RunContext, ChildSpawn, ScriptRequest, CreateRequest, AgentSpec, AgentRequest, ResearchRequest,
  agent_spec, research_spec, as_job,
}
use demesne.Runs.{RunHost, Performed, RunOutcome, run_agent}
use demesne.Scripts.{ScriptHost, ScriptError, ScriptResult, CreateResult, run_script, create}

-- An argument as JSON gives it: of an array, the items that are strings.
pub data RawArgument : Type 0 where
  null : RawArgument
  strings : List Str → RawArgument
  anys : List (Option Str) → RawArgument
  other : RawArgument

-- A request as the MCP library hands it over: `require_string` gives the library's error where the
-- argument is absent or no string; the other accessors take a default.
pub record ToolRequest : Type 0 where
  pub require_string : Str → Result Str Str
  pub get_string : Str → Str → Str
  pub get_bool : Str → Bool → Bool
  pub argument : Str → Option RawArgument

pub data ToolError : Type 0 where
  not_given : Str → ToolError
  is_required : Str → ToolError
  open_not_permitted : ToolError
  not_a_string : Str → ℕ → ToolError
  not_strings : Str → ToolError
  no_identity : ToolError
  not_registered : ToolError

abbrev pub require_non_empty : ToolRequest → Str → Result ToolError Str
require_non_empty req key =
    (wrap_err not_given (req.require_string key)
      >>= (λ v. if is_empty v then err (is_required key) else ok v))

abbrev pub reject_open_egress : Str → Result ToolError Str
reject_open_egress egress = if str_eq egress egress_open then err open_not_permitted else ok egress

-- The loop over the items of an array, from index `i` on.
abbrev pub all_strings : Str → ℕ → List (Option Str) → Result ToolError (List Str)
all_strings key i [] = ok []
all_strings key i (none ∷ items) = err (not_a_string key i)
all_strings key i (some s ∷ items) = all_strings key (suc i) items >>= (λ rest. ok (s ∷ rest))

abbrev pub strings_of : Str → Option RawArgument → Result ToolError (List Str)
strings_of key none = ok []
strings_of key (some null) = ok []
strings_of key (some (strings v)) = ok v
strings_of key (some (anys items)) = all_strings key 0 items
strings_of key (some other) = err (not_strings key)

abbrev pub optional_string_slice : ToolRequest → Str → Result ToolError (List Str)
optional_string_slice req key = strings_of key (req.argument key)

abbrev pub get_text : ToolRequest → Str → Str
get_text req key = req.get_string key []

-- The mode that a request asks for, if the tool permits it.
abbrev pub permitted_egress : ToolRequest → Str → Result ToolError Str
permitted_egress req default = reject_open_egress (req.get_string (codes "egress") default)

abbrev pub in_background : ToolRequest → Bool
in_background req = req.get_bool (codes "background") false

abbrev pub script_call : ToolRequest → Result ToolError ScriptRequest
script_call req =
    (require_non_empty req (codes "command") >>= (λ c.
      permitted_egress req egress_package_managers >>= (λ e.
        optional_string_slice req (codes "files") >>= (λ f.
          optional_string_slice req (codes "directories") >>= (λ d. ok (record {
            command = c;
            image = get_text req (codes "image");
            script_egress = e;
            script_files = f;
            script_directories = d;
          }))))))

abbrev pub create_call : ToolRequest → Result ToolError CreateRequest
create_call req =
    (permitted_egress req egress_package_managers >>= (λ e.
      optional_string_slice req (codes "files") >>= (λ f.
        optional_string_slice req (codes "directories") >>= (λ d. ok (record {
          create_image = get_text req (codes "image");
          create_egress = e;
          create_files = f;
          create_directories = d;
        })))))

abbrev pub agent_call : ToolRequest → Result ToolError AgentRequest
agent_call req =
    (require_non_empty req (codes "prompt") >>= (λ p. permitted_egress req egress_none >>= (λ e.
      optional_string_slice req (codes "files") >>= (λ f.
        optional_string_slice req (codes "directories") >>= (λ d.
          optional_string_slice req (codes "success_criteria") >>= (λ s. ok (record {
            wanted_model = get_text req (codes "model");
            wanted_prompt = p;
            wanted_preamble = get_text req (codes "preamble");
            wanted_files = f;
            wanted_directories = d;
            wanted_egress = e;
            wanted_path = get_text req (codes "output_path");
            wanted_format = get_text req (codes "output_format");
            wanted_criteria = s;
          })))))))

abbrev pub research_call : ToolRequest → Result ToolError ResearchRequest
research_call req =
    (require_non_empty req (codes "prompt") >>= (λ p.
      optional_string_slice req (codes "success_criteria") >>= (λ s. ok (record {
        asked_model = get_text req (codes "model");
        asked_prompt = p;
        asked_preamble = get_text req (codes "preamble");
        asked_path = get_text req (codes "output_path");
        asked_format = get_text req (codes "output_format");
        asked_criteria = s;
      }))))

-- In the background the same spec is run by the job manager, which gives the job's id.
abbrev pub as_started : Bool → Str → AgentSpec → AgentSpec
as_started background self spec = if background then as_job self spec else spec

abbrev pub parent_for : ChildRegistry RunContext → Str → Result ToolError RunContext
parent_for runs identity =
    if is_empty identity then err no_identity else require (lookup_run identity runs) not_registered

-- The run that calls, and the name of its child.
abbrev pub child_spawn_params :
    ChildRegistry RunContext → Str → ToolRequest → Result ToolError (RunContext × Str)
child_spawn_params runs identity req =
    (parent_for runs identity
      >>= (λ p. wrap_err not_given (req.require_string (codes "name")) >>= (λ n. ok (p, n))))

abbrev pub as_child : Bool → RunContext × Str → ChildSpawn
as_child alone (p, n) = record { child = n; parent = p; isolated = alone }

abbrev pub child_script_call : ToolRequest → Result ToolError ScriptRequest
child_script_call req =
    (wrap_err not_given (req.require_string (codes "command")) >>= (λ c.
      permitted_egress req egress_package_managers >>= (λ e. ok (record {
        command = c;
        image = get_text req (codes "image");
        script_egress = e;
        script_files = [];
        script_directories = [];
      }))))

abbrev pub child_create_call : ToolRequest → Result ToolError CreateRequest
child_create_call req =
    (permitted_egress req egress_package_managers >>= (λ e. ok (record {
      create_image = get_text req (codes "image");
      create_egress = e;
      create_files = [];
      create_directories = [];
    })))

abbrev pub child_spec : ToolRequest → Str → Str → Str → ChildSpawn → List Str → AgentSpec
child_spec req called p e c criteria = record {
  model = get_text req (codes "model");
  prompt = p;
  preamble = get_text req (codes "preamble");
  files = [];
  directories = [];
  egress = e;
  tool = called;
  spawned = some c;
  output_path = get_text req (codes "output_path");
  output_format = get_text req (codes "output_format");
  success_criteria = criteria;
  bg_self = [];
}

abbrev pub child_agent_call : ToolRequest → RunContext × Str → Result ToolError AgentSpec
child_agent_call req by =
    (wrap_err not_given (req.require_string (codes "prompt")) >>= (λ p.
      permitted_egress req egress_none >>= (λ e.
        optional_string_slice req (codes "success_criteria")
        >>= (λ s. ok (child_spec req tool_sandbox_agent p e (as_child false by) s)))))

abbrev pub child_research_call : ToolRequest → RunContext × Str → Result ToolError AgentSpec
child_research_call req by =
    (wrap_err not_given (req.require_string (codes "prompt")) >>= (λ p.
      optional_string_slice req (codes "success_criteria")
      >>= (λ s. ok (child_spec req tool_sandbox_research p egress_open (as_child true by) s))))

-- The handlers: an error of the tool, or what the runner does. `self` is the handle of the job, for
-- a run in the background.
module _ (scripts : ScriptHost) (host : RunHost) (self : Str) (req : ToolRequest) where
  abbrev pub run_started : AgentSpec → RunOutcome
  run_started spec = run_agent host (as_started (in_background req) self spec)

  pub handle_sandbox_script : Result ToolError (Performed (Result ScriptError ScriptResult))
  handle_sandbox_script = script_call req >>= (λ r. ok (run_script scripts r none))

  pub handle_sandbox_create : Result ToolError (Performed (Result ScriptError CreateResult))
  handle_sandbox_create = create_call req >>= (λ r. ok (create scripts r none))

  pub handle_sandbox_agent : Result ToolError RunOutcome
  handle_sandbox_agent = agent_call req >>= (λ r. ok (run_started (agent_spec r)))

  pub handle_sandbox_research : Result ToolError RunOutcome
  handle_sandbox_research = research_call req >>= (λ r. ok (run_started (research_spec r)))

  module _ (runs : ChildRegistry RunContext) (identity : Str) where
    pub handle_child_script : Result ToolError (Performed (Result ScriptError ScriptResult))
    handle_child_script =
        (child_spawn_params runs identity req >>= (λ by.
          child_script_call req >>= (λ r. ok (run_script scripts r (some (as_child false by))))))

    pub handle_child_create : Result ToolError (Performed (Result ScriptError CreateResult))
    handle_child_create =
        (child_spawn_params runs identity req >>= (λ by.
          child_create_call req >>= (λ r. ok (create scripts r (some (as_child false by))))))

    pub handle_child_agent : Result ToolError RunOutcome
    handle_child_agent =
        (child_spawn_params runs identity req
          >>= (λ by. child_agent_call req by >>= (λ spec. ok (run_started spec))))

    pub handle_child_research : Result ToolError RunOutcome
    handle_child_research =
        (child_spawn_params runs identity req
          >>= (λ by. child_research_call req by >>= (λ spec. ok (run_started spec))))
