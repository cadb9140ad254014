-- ===== src/Spawns.antt =====
-- What a tool asks for: the requests of internal/sandbox/types.go, internalAgentSpec of
-- internal/sandbox/agent.go and childSpawn of internal/sandbox/children.go.
use demesne.Base.{Bool, Option, none, List, [], Str}
use demesne.Children.{SpawnContext, Volume}
use demesne.Mounts.Inputs.{InputInfo}
use demesne.Jobs.{tool_sandbox_agent, tool_sandbox_research}
use demesne.Egress.{egress_none, egress_open, egress_or_default}

-- All of spawnContext: what a child inherits, beside the names and outputs of its siblings.
pub record RunContext : Type 0 where
  pub spawning : SpawnContext
  pub input_volumes : List Volume
  pub inputs : List InputInfo

pub record ChildSpawn : Type 0 where
  pub child : Str
  pub parent : RunContext
  pub isolated : Bool

pub record ScriptRequest : Type 0 where
  pub command : Str
  pub image : Str
  pub script_egress : Str
  pub script_files : List Str
  pub script_directories : List Str

pub record CreateRequest : Type 0 where
  pub create_image : Str
  pub create_egress : Str
  pub create_files : List Str
  pub create_directories : List Str

pub record AgentSpec : Type 0 where
  pub model : Str
  pub prompt : Str
  pub preamble : Str
  pub files : List Str
  pub directories : List Str
  pub egress : Str
  pub tool : Str
  pub spawned : Option ChildSpawn
  pub output_path : Str
  pub output_format : Str
  pub success_criteria : List Str
  pub bg_self : Str

pub record AgentRequest : Type 0 where
  pub wanted_model : Str
  pub wanted_prompt : Str
  pub wanted_preamble : Str
  pub wanted_files : List Str
  pub wanted_directories : List Str
  pub wanted_egress : Str
  pub wanted_path : Str
  pub wanted_format : Str
  pub wanted_criteria : List Str

pub record ResearchRequest : Type 0 where
  pub asked_model : Str
  pub asked_prompt : Str
  pub asked_preamble : Str
  pub asked_path : Str
  pub asked_format : Str
  pub asked_criteria : List Str

-- The spec in `Agent` and in `StartAgent`.
abbrev pub agent_spec : AgentRequest → AgentSpec
agent_spec req = record {
  model = req.wanted_model;
  prompt = req.wanted_prompt;
  preamble = req.wanted_preamble;
  files = req.wanted_files;
  directories = req.wanted_directories;
  egress = egress_or_default req.wanted_egress egress_none;
  tool = tool_sandbox_agent;
  spawned = none;
  output_path = req.wanted_path;
  output_format = req.wanted_format;
  success_criteria = req.wanted_criteria;
  bg_self = [];
}

-- The spec in `Research` and in `StartResearch`.
abbrev pub research_spec : ResearchRequest → AgentSpec
research_spec req = record {
  model = req.asked_model;
  prompt = req.asked_prompt;
  preamble = req.asked_preamble;
  files = [];
  directories = [];
  egress = egress_open;
  tool = tool_sandbox_research;
  spawned = none;
  output_path = req.asked_path;
  output_format = req.asked_format;
  success_criteria = req.asked_criteria;
  bg_self = [];
}

-- The spec with the hooks that the job manager gives, of which the callback is left out.
abbrev pub as_job : Str → AgentSpec → AgentSpec
as_job self spec = record spec { bg_self = self }
