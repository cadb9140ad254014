-- ===== src/Runs/Calls.antt =====
-- `runAgent` of internal/sandbox/agent.go: what holds of all its calls, from what holds of each
-- kind of call.
use demesne.Base.{
  ◌≡◌, refl, ap, All, All-append, ℤ, Bool, true, false, Option, none, some, [], ◌∷◌, Str,
  if◌then◌else◌, Result, err, ok,
}
use demesne.Children.{SpawnContext}
use demesne.Egress.{NetworkPolicy}
use demesne.Spawns.{AgentSpec}
use demesne.Layout.{LayoutError, SandboxLayout, agent_mounts, build_layout}
use demesne.Runs.{
  RunHost, RunError, Readied, ProxyConfig, RunCall, registered, deregistered, created, killed,
  sidecar_started, sidecar_removed, command_ran, within, stopped, sidecar_failed, commanded,
  build_proxy_config, with_sidecar, in_sandbox, laid_out, create_sandbox, readied, run_readied,
  run_agent, context_of, record_child_sibling,
}

-- The kinds of call that neither create a sandbox nor register a run.
abbrev pub Others : (RunCall → Type 0) → Type 0
Others Q =
    ((sb : Str) → Q (command_ran sb))
    × ((sb image : Str) (p : ProxyConfig) → Q (sidecar_started sb image p))
    × ((sb : Str) (done : Bool) → Q (sidecar_removed sb done))
    × ((sb : Str) (done : Bool) → Q (killed sb done))
    × ((job : Str) → Q (deregistered job))

module _ (h : RunHost) (spec : AgentSpec) (Q : RunCall → Type 0) (others : Others Q) where
  commanded-All :
      (sb : Str) (l : SandboxLayout) (ctx : Option SpawnContext) (r : Option (Option ℤ))
      → All Q (commanded h sb l ctx r).calls
  commanded-All sb l ctx none = (others.0 sb, tt)
  commanded-All sb l ctx (some e) = (others.0 sb, tt)

  begun-All :
      (r : Readied) (sb : Str) (l : SandboxLayout) (ctx : Option SpawnContext) (starts : Bool)
      → All Q
          (if starts
            then within
                (sidecar_started sb r.image (build_proxy_config h r l))
                (sidecar_removed sb h.removal_succeeds)
                (commanded h sb l ctx h.command_exit)
            else stopped ctx sidecar_failed).calls
  begun-All r sb l ctx true =
      let (ran, started, removed, kills, deregisters) = others in
      (
        started sb r.image (build_proxy_config h r l),
        All-append Q (commanded h sb l ctx h.command_exit).calls
            (sidecar_removed sb h.removal_succeeds ∷ []) (commanded-All sb l ctx h.command_exit)
            (removed sb h.removal_succeeds, tt),
      )
  begun-All r sb l ctx false = tt

  with_sidecar-All :
      (r : Readied) (sb : Str) (l : SandboxLayout) (ctx : Option SpawnContext)
      → All Q (with_sidecar h r sb l ctx).calls
  with_sidecar-All r sb l ctx = begun-All r sb l ctx h.sidecar_starts

  module _
      (makes : (p : NetworkPolicy) (sb : Str) (l : SandboxLayout)
        → create_sandbox h spec ≡ ok (p, sb)
        → (build_layout h.layout h.job spec).1 ≡ ok l
        → Q (created sb (agent_mounts l) p))
      (registers : (r : Readied) (l : SandboxLayout)
        → readied h spec ≡ ok r
        → (build_layout h.layout h.job spec).1 ≡ ok l
        → Q (registered l.job_id (context_of r.prep l spec.bg_self))) where
    in_sandbox-All :
        (r : Readied) (l : SandboxLayout) (ctx : Option SpawnContext)
        (made : Result RunError (NetworkPolicy × Str))
        → create_sandbox h spec ≡ made
        → (build_layout h.layout h.job spec).1 ≡ ok l
        → All Q (in_sandbox h spec r l ctx made).calls
    in_sandbox-All r l ctx (err e) same laid = tt
    in_sandbox-All r l ctx (ok (p, sb)) same laid =
        let told = record_child_sibling spec.spawned l ctx in
        let (ran, started, removed, kills, deregisters) = others in
        (
          makes p sb l same laid,
          All-append Q (with_sidecar h r sb l told).calls (killed sb h.kill_succeeds ∷ [])
              (with_sidecar-All r sb l told) (kills sb h.kill_succeeds, tt),
        )

    laid_out-All :
        (r : Readied) (laid : Option SpawnContext × Result LayoutError SandboxLayout)
        → readied h spec ≡ ok r
        → build_layout h.layout h.job spec ≡ laid
        → All Q (laid_out h spec r laid).calls
    laid_out-All r (ctx, err e) there same = tt
    laid_out-All r (ctx, ok l) there same =
        let made = create_sandbox h spec in
        let laid = ap (λ x. x.1) same in
        let (ran, started, removed, kills, deregisters) = others in
        (
          registers r l there laid,
          All-append Q (in_sandbox h spec r l ctx made).calls (deregistered l.job_id ∷ [])
              (in_sandbox-All r l ctx made refl laid) (deregisters l.job_id, tt),
        )

    run_readied-All :
        (r : Result RunError Readied) → readied h spec ≡ r → All Q (run_readied h spec r).calls
    run_readied-All (err e) same = tt
    run_readied-All (ok r) same = laid_out-All r (build_layout h.layout h.job spec) same refl

    -- Of a sandbox that is created, its mounts are those of the layout; of a run that is registered, its
    -- context is that of its layout.
    pub run_agent-All : All Q (run_agent h spec).calls
    unfolding run_agent
    run_agent-All = run_readied-All (readied h spec) refl
