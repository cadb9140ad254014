-- ===== src/Runs/Heirs.antt =====
-- `runAgent` of internal/sandbox/agent.go: the inputs of the runs that descend from a run.
use mathlib.Core.List.{Memᴰ}
use demesne.Base.{
  All, ◌≡◌, refl, sym, ◌∙◌, ◌⊎◌, inl, inr, All-at, Every, Every-after, Every-any, Every-if,
  Every-at, Bool, true, false, some, List, [], Str, is_empty, trim_space, if◌then◌else◌, require,
  Result, err, ok,
}
use demesne.Mounts.Inputs.{InputInfo}
use demesne.Agents.{Agent, resolve_agent_model, check_agent_credentials}
use demesne.Prepare.{wrap_err}
use demesne.Spawns.{RunContext, ChildSpawn, AgentSpec}
use demesne.Layout.Isolation.{child-layout_inputs}
use demesne.Runs.{
  RunHost, RunError, agent_refused, no_agent_image, no_sidecar_image, no_agent_token, AgentPrep,
  Readied, RunCall, registered, resolve_codex_tokens, run_inputs, prepared_for, prepare_agent,
  readied, run_agent, context_of,
}
use demesne.Runs.Calls.{run_agent-All}

module _ (h : RunHost) (spec : AgentSpec) where
  -- The inputs that the run is told of.
  abbrev pub IsTold : List InputInfo → Type 0
  IsTold told = run_inputs h spec.spawned spec ≡ ok told

  Every-self : (r : Result RunError (List InputInfo)) → Every (λ told. r ≡ ok told) r
  Every-self (err e) = tt
  Every-self (ok told) = refl

  prepared_for-IsTold :
      (a : Agent) (m : Str) → Every (λ p. IsTold p.prep_inputs) (prepared_for h spec (a, m))
  prepared_for-IsTold a m =
      let Q : AgentPrep → Type 0 = λ p. IsTold p.prep_inputs in
      Every-any Q (wrap_err agent_refused (check_agent_credentials h.config a)) _ (λ u.
        Every-any Q (resolve_codex_tokens h a) _ (λ t.
          Every-after IsTold Q (run_inputs h spec.spawned spec) _
            (Every-self (run_inputs h spec.spawned spec))
            (λ told same.
              Every-any Q (require (h.agent_image a.agent_name) no_agent_image) _ (λ built. same))))

  prepare_agent-IsTold : Every (λ p. IsTold p.prep_inputs) (prepare_agent h spec)
  prepare_agent-IsTold =
      Every-if (λ p. IsTold p.prep_inputs) (is_empty (trim_space spec.prompt)) _ _ tt
        (Every-any (λ p. IsTold p.prep_inputs)
          (wrap_err agent_refused
            (resolve_agent_model h.registry h.auth_file_there h.config spec.model))
          _ (λ am. prepared_for-IsTold am.0 am.1))

  pub readied-IsTold : Every (λ r. IsTold r.prep.prep_inputs) (readied h spec)
  readied-IsTold =
      let Q : Readied → Type 0 = λ r. IsTold r.prep.prep_inputs in
      Every-after (λ p. IsTold p.prep_inputs) Q (prepare_agent h spec) _ prepare_agent-IsTold
        (λ p same.
          Every-any Q (require h.sidecar_image no_sidecar_image) _
            (λ i. Every-any Q (require h.agent_token no_agent_token) _ (λ t. same)))

-- What a run sees of another's inputs: all of them, mounted and told of, or none.
abbrev pub Sees : RunContext → RunContext → Type 0
Sees root ctx =
    ((ctx.input_volumes ≡ root.input_volumes) × (ctx.inputs ≡ root.inputs))
    ⊎ ((ctx.input_volumes ≡ []) × (ctx.inputs ≡ []))

Sees-on : (a b c : RunContext) → Sees a b → Sees b c → Sees a c
Sees-on a b c (inl (v, t)) (inl (w, u)) = inl (w ∙ v, u ∙ t)
Sees-on a b c (inr (v, t)) (inl (w, u)) = inr (w ∙ v, u ∙ t)
Sees-on a b c s (inr nothing) = inr nothing

abbrev RegistersFor : RunContext → RunCall → Type 0
RegistersFor parent (registered job ctx) = Sees parent ctx
RegistersFor parent c = Unit

child-Sees :
    (alone : Bool) (parent ctx : RunContext)
    → (if alone then [] else parent.input_volumes) ≡ ctx.input_volumes
    → (if alone then [] else parent.inputs) ≡ ctx.inputs
    → Sees parent ctx
child-Sees true parent ctx v t = inr (sym v, sym t)
child-Sees false parent ctx v t = inl (sym v, sym t)

told_of :
    (h : RunHost) (spec : AgentSpec) (c : ChildSpawn) (r : Readied)
    → spec.spawned ≡ some c
    → readied h spec ≡ ok r
    → (if c.isolated then [] else c.parent.inputs) ≡ r.prep.prep_inputs
told_of h spec c r same there =
    let told =
      Every-at (λ q. IsTold h spec q.prep.prep_inputs) (readied h spec) r (readied-IsTold h spec)
        there in
    let child : run_inputs h (some c) spec ≡ ok r.prep.prep_inputs = cc (told, same) in cc child

child_run-Sees :
    (h : RunHost) (spec : AgentSpec) (c : ChildSpawn)
    → spec.spawned ≡ some c
    → All (RegistersFor c.parent) (run_agent h spec).calls
child_run-Sees h spec c same =
    run_agent-All h spec (RegistersFor c.parent)
      (λ sb. tt, λ sb i p. tt, λ sb d. tt, λ sb d. tt, λ j. tt) (λ p sb l made laid. tt)
      (λ r l there laid.
        child-Sees c.isolated c.parent (context_of r.prep l spec.bg_self)
          (child-layout_inputs h.layout h.job spec c l same laid) (told_of h spec c r same there))

-- The runs that descend from a run: each is registered by a run that one of them spawns. What the
-- spawning run has since become, its inputs have not changed.
pub data Heir (root : RunContext) : RunContext → Type 0 where
  itself : Heir root root
  spawns :
      (ctx next : RunContext) (h : RunHost) (spec : AgentSpec) (c : ChildSpawn) (job : Str)
      → Heir root ctx
      → spec.spawned ≡ some c
      → c.parent.input_volumes ≡ ctx.input_volumes
      → c.parent.inputs ≡ ctx.inputs
      → Memᴰ (registered job next) (run_agent h spec).calls
      → Heir root next

-- However deep, the context of a run that descends from another has just that one's input volumes,
-- to mount and to pass on, and just its list of inputs, to tell the agent of; or both are empty. So
-- no descendant has an input that was not checked for the run it descends from.
pub heirs_see : {root ctx : RunContext} → Heir root ctx → Sees root ctx
heirs_see itself = inl (refl, refl)
heirs_see {root} (spawns ctx next h spec c job heir same v t m) =
    Sees-on root ctx next (heirs_see heir) (
      Sees-on ctx c.parent next (inl (v, t)) (
        All-at (RegistersFor c.parent) (registered job next) (run_agent h spec).calls m
          (child_run-Sees h spec c same)))
