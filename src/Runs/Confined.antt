-- ===== src/Runs/Confined.antt =====
-- `runAgent` of internal/sandbox/agent.go: what the inputs are of a host's run and of all that
-- descend from it.
use mathlib.Core.List.{Memᴰ}
use demesne.Base.{
  ◌≡◌, refl, subst, inl, inr, true, All, All-at, Every-at, none, some, Str, is_abs, clean_path, ok,
}
use demesne.Mounts.Inputs.{resolve_mounts, describe_inputs}
use demesne.Mounts.Inputs.Apart.{Distinct, Confined, inputs-Confined}
use demesne.Mounts.Inputs.Described.{Told, mounted-Told}
use demesne.Prepare.Policy.{wrapped_ok}
use demesne.Spawns.{RunContext, AgentSpec}
use demesne.Layout.Isolation.{root-layout_inputs}
use demesne.Runs.{
  RunHost, input_refused, Readied, RunCall, registered, run_inputs, readied, run_agent, context_of,
}
use demesne.Runs.Calls.{run_agent-All}
use demesne.Runs.Heirs.{IsTold, readied-IsTold, Heir, Sees, heirs_see}

module _ (h : RunHost)
    (cleaned : (p q : Str) → h.layout.eval_symlinks p ≡ some q → clean_path q ≡ q)
    (absolute : (p q : Str)
      → is_abs p ≡ true
      → h.layout.eval_symlinks p ≡ some q
      → is_abs q ≡ true) where
  -- No two are mounted at one path, each is confined, and the list that the agent is told has their
  -- names.
  abbrev pub Sound : RunContext → Type 0
  Sound ctx =
      Distinct ctx.input_volumes
      × All (Confined h.layout.eval_symlinks h.layout.allowed_paths) ctx.input_volumes
      × Told h.layout.eval_symlinks h.layout.stat h.size_of h.layout.allowed_paths ctx.input_volumes
          ctx.inputs

  abbrev IsSoundRun : RunCall → Type 0
  IsSoundRun (registered job ctx) = Sound ctx
  IsSoundRun c = Unit

  resolved-Sound :
      (spec : AgentSpec) (ctx : RunContext)
      → resolve_mounts h.layout.eval_symlinks h.layout.stat h.layout.allowed_paths spec.files
          spec.directories
        ≡ ok ctx.input_volumes
      → describe_inputs h.layout.eval_symlinks h.layout.stat h.size_of h.layout.allowed_paths
          spec.files spec.directories
        ≡ ok ctx.inputs
      → Sound ctx
  resolved-Sound spec ctx resolved described =
      let (distinct, confined) =
        inputs-Confined h.layout.eval_symlinks h.layout.stat cleaned absolute h.layout.allowed_paths
          spec.files spec.directories ctx.input_volumes resolved in
      let (out, told, names) =
        mounted-Told h.layout.eval_symlinks h.layout.stat h.size_of h.layout.allowed_paths
          spec.files spec.directories ctx.input_volumes resolved in
      let same : out ≡ ctx.inputs = cc (told, described) in
      (
        distinct,
        confined,
        subst
            (Told h.layout.eval_symlinks h.layout.stat h.size_of h.layout.allowed_paths
              ctx.input_volumes)
            same names,
      )

  root_told :
      (spec : AgentSpec) (r : Readied)
      → spec.spawned ≡ none
      → readied h spec ≡ ok r
      → describe_inputs h.layout.eval_symlinks h.layout.stat h.size_of h.layout.allowed_paths
          spec.files spec.directories
        ≡ ok r.prep.prep_inputs
  root_told spec r same there =
      let told =
        Every-at (λ q. IsTold h spec q.prep.prep_inputs) (readied h spec) r (readied-IsTold h spec)
          there in
      let root : run_inputs h none spec ≡ ok r.prep.prep_inputs = cc (told, same) in
      wrapped_ok input_refused _ r.prep.prep_inputs root

  root-Sound : (spec : AgentSpec) → spec.spawned ≡ none → All IsSoundRun (run_agent h spec).calls
  root-Sound spec same =
      run_agent-All h spec IsSoundRun (λ sb. tt, λ sb i p. tt, λ sb d. tt, λ sb d. tt, λ j. tt)
        (λ p sb l made laid. tt)
        (λ r l there laid.
          resolved-Sound spec (context_of r.prep l spec.bg_self)
            (root-layout_inputs h.layout h.job spec l same laid) (root_told spec r same there))

  seen-Sound : (root ctx : RunContext) → Sees root ctx → Sound root → Sound ctx
  seen-Sound root ctx (inl (v, t)) s = rw (v, t) s
  seen-Sound root ctx (inr (v, t)) s = rw (v, t) (tt, tt, refl)

  -- Where EvalSymlinks returns cleaned paths, and absolute ones for absolute ones: of a run that a
  -- host's request starts, and of every run that descends from it, however deep, no two input
  -- volumes are mounted at one path, each is read-only and below what an allowed root resolves to,
  -- and the list that the agent is told has just their names in their order.
  pub heirs-Sound :
      (spec : AgentSpec) (job : Str) (root ctx : RunContext)
      → spec.spawned ≡ none
      → Memᴰ (registered job root) (run_agent h spec).calls
      → Heir root ctx
      → Sound ctx
  heirs-Sound spec job root ctx same m heir =
      seen-Sound root ctx (heirs_see heir)
        (All-at IsSoundRun (registered job root) (run_agent h spec).calls m (root-Sound spec same))
