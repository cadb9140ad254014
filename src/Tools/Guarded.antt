-- ===== src/Tools/Guarded.antt =====
-- The spawning tools: no sandbox that one of them creates combines inputs with unrestricted egress.
use demesne.Base.{
  ◌≡◌, ◌∙◌, ap, subst, Every, Every-after, Every-any, Every-from, refl, All, Bool, Bool-cases, inl,
  inr, Option, none, some, true, false, [], ◌∷◌, Str, codes, is_empty, join_path, require, Result,
  ok, ◌>>=◌, bind_inversion, arith,
}
use demesne.Prepare.{wrap_err}
use demesne.Prepare.Policy.{wrapped_ok}
use demesne.Layout.{job_dir}
use demesne.Layout.Isolation.{OutOf}
use demesne.Children.{ChildRegistry, lookup_run}
use demesne.Spawns.{
  RunContext, AgentSpec, ChildSpawn, ScriptRequest, CreateRequest, agent_spec, research_spec,
}
use demesne.Runs.{RunHost, RunCall, RunError, AgentRun, Performed}
use demesne.Runs.Closed.{IsPrivate, run_agent-IsPrivate}
use demesne.Scripts.{ScriptHost, run_script, create}
use demesne.Scripts.Denied.{NotOpen, run_script-NotOpen, created-NotOpen}
use demesne.Tools.{
  ToolRequest, ToolError, in_background, as_started, as_child, parent_for, child_spawn_params,
  not_given, not_registered, run_started, script_call, create_call, agent_call, research_call,
  child_script_call, child_create_call, child_agent_call, child_research_call,
  handle_sandbox_script, handle_sandbox_create, handle_sandbox_agent, handle_sandbox_research,
  handle_child_script, handle_child_create, handle_child_agent, handle_child_research,
}
use demesne.Tools.Permitted.{
  Guarded, GuardedBy, started-Guarded, agent_spec-Guarded, IsPermittedScript, IsPermittedCreate,
  IsPermittedAgent, script_call-Permitted, create_call-Permitted, agent_call-Permitted,
  child_script_call-Permitted, child_create_call-Permitted, child_agent_call-Guarded,
  child_research_call-Guarded,
}

-- The calls of a handler, all of which satisfy P.
abbrev pub AllCalls : {E A : Type 0} → (RunCall → Type 0) → Result E (Performed A) → Type 0
AllCalls P = Every (λ o. All P o.calls)

as_started-spawned :
    (background : Bool) (self : Str) (spec : AgentSpec)
    → (as_started background self spec).spawned ≡ spec.spawned
as_started-spawned false self spec = refl
as_started-spawned true self spec = refl

required-some : {E A : Type 0} (o : Option A) (a : A) (e : E) → require o e ≡ ok a → o ≡ some a
required-some none a e h = absurd (cc h)
required-some (some b) a e h = cc h

module _ (scripts : ScriptHost) (host : RunHost) (self : Str) (req : ToolRequest)
    (runs : ChildRegistry RunContext) (identity : Str) where
  -- The output directory of a host's run, and that of a child's: below the output of the run that
  -- calls, as the registry knows it, under the name that the request gives.
  abbrev pub HostOut : Str → Type 0
  HostOut out = out ≡ job_dir host.layout host.job (codes "out")

  abbrev pub ChildOut : Str → Type 0
  ChildOut out =
      (parent : RunContext) × (name : Str) × (lookup_run identity runs ≡ some parent)
      × (req.require_string (codes "name") ≡ ok name)
      × (out ≡ join_path (parent.spawning.out_host ∷ codes "child" ∷ name ∷ []))

  abbrev pub PrivateHost : RunCall → Type 0
  PrivateHost = IsPrivate host HostOut

  abbrev pub PrivateChild : RunCall → Type 0
  PrivateChild = IsPrivate host ChildOut

  started-IsPrivate :
      (Own : Str → Type 0) (spec : AgentSpec) (child : Option ChildSpawn)
      → spec.spawned ≡ child
      → ((out : Str) → OutOf host.layout host.job child out → Own out)
      → Guarded spec
      → All (IsPrivate host Own) (run_started scripts host self req spec).calls
  started-IsPrivate Own spec child same own g =
      run_agent-IsPrivate host Own (as_started (in_background req) self spec)
        (λ out k. own out (
          subst (λ c. OutOf host.layout host.job c out)
            (as_started-spawned (in_background req) self spec ∙ same) k))
        (started-Guarded (in_background req) self spec g)

  parent_for-known :
      (parent : RunContext)
      → parent_for runs identity ≡ ok parent
      → lookup_run identity runs ≡ some parent
  parent_for-known parent e = elim (Bool-cases (is_empty identity)) [
    | inl t ↦ absurd (ground (arith, e, t))
    | inr t ↦ required-some (lookup_run identity runs) parent not_registered (ground (arith, e, t))
  ]

  spawn-ChildOut :
      (by : RunContext × Str) (alone : Bool) (out : Str)
      → child_spawn_params runs identity req ≡ ok by
      → OutOf host.layout host.job (some (as_child alone by)) out
      → ChildOut out
  spawn-ChildOut (parent, name) alone out e o =
      let named = req.require_string (codes "name") in
      let (p, known, rest) =
        bind_inversion (parent_for runs identity)
          (λ p. wrap_err not_given (req.require_string (codes "name")) >>= (λ n. ok (p, n))) e in
      let (n, given, whole) = bind_inversion (wrap_err not_given named) (λ n. ok (p, n)) rest in
      let eq_parent : p ≡ parent = cc whole in
      let eq_name : n ≡ name = cc whole in
      (
        parent,
        name,
        parent_for-known parent (known ∙ ap ok eq_parent),
        wrapped_ok not_given named name (given ∙ ap ok eq_name),
        o,
      )

  abbrev RunIsPrivate : (Str → Type 0) → Performed (Result RunError AgentRun) → Type 0
  RunIsPrivate Own o = All (IsPrivate host Own) o.calls

  specs-IsPrivate :
      (by : RunContext × Str) (m : Result ToolError AgentSpec)
      → child_spawn_params runs identity req ≡ ok by
      → Every (GuardedBy by) m
      → Every (RunIsPrivate ChildOut) (m >>= (λ spec. ok (run_started scripts host self req spec)))
  specs-IsPrivate by m e g =
      Every-after (GuardedBy by) (RunIsPrivate ChildOut) m _ g (λ spec (guarded, (alone, same)).
        started-IsPrivate ChildOut spec (some (as_child alone by)) same
          (λ out o. spawn-ChildOut by alone out e o) guarded)

  scripts-NotOpen :
      (m : Result ToolError ScriptRequest) (child : Option ChildSpawn)
      → Every IsPermittedScript m
      → AllCalls NotOpen (m >>= (λ r. ok (run_script scripts r child)))
  scripts-NotOpen m child p =
      Every-after IsPermittedScript (λ o. All NotOpen o.calls) m _ p
        (λ r closed. run_script-NotOpen scripts r child closed)

  creates-NotOpen :
      (m : Result ToolError CreateRequest) (child : Option ChildSpawn)
      → Every IsPermittedCreate m
      → AllCalls NotOpen (m >>= (λ r. ok (create scripts r child)))
  creates-NotOpen m child p =
      Every-after IsPermittedCreate (λ o. All NotOpen o.calls) m _ p
        (λ r closed. created-NotOpen scripts r child closed)

  -- Whatever the request, its tool and the run that makes it: no script and no sandbox that is to
  -- stay can reach every host; and an agent that can has three mounts, the control files and the
  -- workspace of its own job and an output directory: `out` of its own job for the host's, and for
  -- another run's `child/<name>` in the output of that run, where `name` is the one requested. So it
  -- has neither inputs nor the outputs of siblings nor a shared workspace.
  pub never_both :
      AllCalls NotOpen (handle_sandbox_script scripts host self req)
      × AllCalls NotOpen (handle_sandbox_create scripts host self req)
      × AllCalls PrivateHost (handle_sandbox_agent scripts host self req)
      × AllCalls PrivateHost (handle_sandbox_research scripts host self req)
      × AllCalls NotOpen (handle_child_script scripts host self req runs identity)
      × AllCalls NotOpen (handle_child_create scripts host self req runs identity)
      × AllCalls PrivateChild (handle_child_agent scripts host self req runs identity)
      × AllCalls PrivateChild (handle_child_research scripts host self req runs identity)
  unfolding handle_sandbox_script handle_sandbox_create handle_sandbox_agent handle_sandbox_research
      handle_child_script handle_child_create handle_child_agent handle_child_research
  never_both =
      let by = child_spawn_params runs identity req in
      (
        scripts-NotOpen (script_call req) none (script_call-Permitted req),
        creates-NotOpen (create_call req) none (create_call-Permitted req),
        Every-after IsPermittedAgent (RunIsPrivate HostOut) (agent_call req) _
            (agent_call-Permitted req)
            (λ r p.
              started-IsPrivate HostOut (agent_spec r) none refl (λ out o. o)
                (agent_spec-Guarded r p)),
        Every-any (RunIsPrivate HostOut) (research_call req) _ (λ r.
            started-IsPrivate HostOut (research_spec r) none refl (λ out o. o)
              (λ same. (refl, refl))),
        Every-any (λ o. All NotOpen o.calls) by _
            (λ b.
              scripts-NotOpen (child_script_call req) (some (as_child false b))
                (child_script_call-Permitted req)),
        Every-any (λ o. All NotOpen o.calls) by _
            (λ b.
              creates-NotOpen (child_create_call req) (some (as_child false b))
                (child_create_call-Permitted req)),
        Every-from (RunIsPrivate ChildOut) by _
            (λ b e. specs-IsPrivate b (child_agent_call req b) e (child_agent_call-Guarded req b)),
        Every-from (RunIsPrivate ChildOut) by _ (λ b e.
            specs-IsPrivate b (child_research_call req b) e (child_research_call-Guarded req b)),
      )
