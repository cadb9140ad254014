-- ===== src/Tools/Permitted.antt =====
-- The spawning tools: the modes that a request can ask for, and the specs that come of it.
use demesne.Base.{
  Every, Every-after, Every-any, ◌≡◌, refl, Bool, true, false, Bool-cases, inl, inr, Option, none,
  some, Str, codes, str_eq, str_eq_iff, is_empty, Result, ◌>>=◌, arith,
}
use demesne.Egress.{egress_none, egress_package_managers, egress_open}
use demesne.Prepare.{wrap_err}
use demesne.Spawns.{
  RunContext, ChildSpawn, ScriptRequest, CreateRequest, AgentSpec, AgentRequest, agent_spec, as_job,
}
use demesne.Layout.Isolation.{NoFiles, AsksNothing}
use demesne.Tools.{
  as_child, ToolRequest, ToolError, reject_open_egress, permitted_egress, require_non_empty,
  optional_string_slice, not_given, script_call, create_call, agent_call, child_script_call,
  child_create_call, child_agent_call, child_research_call, as_started,
}

apart : (s t : Str) → str_eq s t ≡ false → ¬ (s ≡ t)
apart s t f same = cc ((str_eq_iff s t).1 same, f)

-- A mode that is not open.
abbrev Permitted : Str → Type 0
Permitted mode = ¬ (mode ≡ egress_open)

rejected-Permitted : (mode : Str) → Every Permitted (reject_open_egress mode)
rejected-Permitted mode = elim (Bool-cases (str_eq mode egress_open)) [
  | inl t ↦ rw t tt
  | inr f ↦ rw f (λ same. apart mode egress_open f same)
]

-- A spec that asks for no inputs where it asks for open egress.
abbrev pub Guarded : AgentSpec → Type 0
Guarded spec = spec.egress ≡ egress_open → AsksNothing spec

job-NoFiles :
    (child : Option ChildSpawn) (self : Str) (spec : AgentSpec)
    → NoFiles child spec
    → NoFiles child (as_job self spec)
job-NoFiles none self spec n = n
job-NoFiles (some c) self spec n = n

pub started-Guarded :
    (background : Bool) (self : Str) (spec : AgentSpec)
    → Guarded spec
    → Guarded (as_started background self spec)
started-Guarded true self spec g same = job-NoFiles spec.spawned self spec (g same)
started-Guarded false self spec g same = g same

none_apart : ¬ (egress_none ≡ egress_open)
unfolding str_eq
none_apart = apart egress_none egress_open refl

pub agent_spec-Guarded : (r : AgentRequest) → Permitted r.wanted_egress → Guarded (agent_spec r)
agent_spec-Guarded r permitted same = elim (Bool-cases (is_empty r.wanted_egress)) [
  | inl t ↦ absurd (none_apart (ground (arith, same, t)))
  | inr f ↦ absurd (permitted (ground (arith, same, f)))
]

abbrev pub IsPermittedScript : ScriptRequest → Type 0
IsPermittedScript r = Permitted r.script_egress

abbrev pub IsPermittedCreate : CreateRequest → Type 0
IsPermittedCreate r = Permitted r.create_egress

-- A request is read after its mode is permitted.
after_mode :
    {B : Type 0} (Q : B → Type 0) (req : ToolRequest) (default : Str) (f : Str → Result ToolError B)
    → ((e : Str) → Permitted e → Every Q (f e))
    → Every Q (permitted_egress req default >>= f)
after_mode Q req default f k =
    Every-after Permitted Q (permitted_egress req default) f
      (rejected-Permitted (req.get_string (codes "egress") default)) k

pub script_call-Permitted : (req : ToolRequest) → Every IsPermittedScript (script_call req)
script_call-Permitted req =
    Every-any IsPermittedScript (require_non_empty req (codes "command")) _ (λ c.
      after_mode IsPermittedScript req egress_package_managers _ (λ e p.
        Every-any IsPermittedScript (optional_string_slice req (codes "files")) _ (λ f.
          Every-any IsPermittedScript (optional_string_slice req (codes "directories")) _
            (λ d. p))))

pub create_call-Permitted : (req : ToolRequest) → Every IsPermittedCreate (create_call req)
create_call-Permitted req = after_mode IsPermittedCreate req egress_package_managers _ (λ e p.
    Every-any IsPermittedCreate (optional_string_slice req (codes "files")) _ (λ f.
      Every-any IsPermittedCreate (optional_string_slice req (codes "directories")) _ (λ d. p)))

abbrev pub IsPermittedAgent : AgentRequest → Type 0
IsPermittedAgent r = Permitted r.wanted_egress

pub agent_call-Permitted : (req : ToolRequest) → Every IsPermittedAgent (agent_call req)
agent_call-Permitted req =
    Every-any IsPermittedAgent (require_non_empty req (codes "prompt")) _ (λ t.
      after_mode IsPermittedAgent req egress_none _ (λ e p.
        Every-any IsPermittedAgent (optional_string_slice req (codes "files")) _ (λ f.
          Every-any IsPermittedAgent (optional_string_slice req (codes "directories")) _ (λ d.
            Every-any IsPermittedAgent (optional_string_slice req (codes "success_criteria")) _
              (λ s. p)))))

pub child_script_call-Permitted :
    (req : ToolRequest) → Every IsPermittedScript (child_script_call req)
child_script_call-Permitted req =
    Every-any IsPermittedScript (wrap_err not_given (req.require_string (codes "command"))) _
      (λ c. after_mode IsPermittedScript req egress_package_managers _ (λ e p. p))

pub child_create_call-Permitted :
    (req : ToolRequest) → Every IsPermittedCreate (child_create_call req)
child_create_call-Permitted req =
    after_mode IsPermittedCreate req egress_package_managers _ (λ e p. p)

-- A guarded spec of a child of that run, under that name.
abbrev pub GuardedBy : RunContext × Str → AgentSpec → Type 0
GuardedBy by spec = Guarded spec × ((alone : Bool) × (spec.spawned ≡ some (as_child alone by)))

pub child_agent_call-Guarded :
    (req : ToolRequest) (by : RunContext × Str) → Every (GuardedBy by) (child_agent_call req by)
child_agent_call-Guarded req by =
    Every-any (GuardedBy by) (wrap_err not_given (req.require_string (codes "prompt"))) _ (λ t.
      after_mode (GuardedBy by) req egress_none _ (λ e p.
        Every-any (GuardedBy by) (optional_string_slice req (codes "success_criteria")) _
          (λ s. ((λ same. absurd (p same)), (false, refl)))))

pub child_research_call-Guarded :
    (req : ToolRequest) (by : RunContext × Str) → Every (GuardedBy by) (child_research_call req by)
child_research_call-Guarded req by =
    Every-any (GuardedBy by) (wrap_err not_given (req.require_string (codes "prompt"))) _ (λ t.
      Every-any (GuardedBy by) (optional_string_slice req (codes "success_criteria")) _
        (λ s. ((λ same. refl), (true, refl))))
