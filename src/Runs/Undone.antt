-- ===== src/Runs/Undone.antt =====
-- `runAgent` of internal/sandbox/agent.go: what a run makes is undone, in the reverse order.
use demesne.Base.{
  ◌≡◌, refl, ℤ, Bool-cases, inl, inr, Option, none, some, List, [], ◌∷◌, ◌++◌, if◌then◌else◌, Str,
  str_eq, str_eq_refl, Result, err, ok,
}
use demesne.Children.{SpawnContext}
use demesne.Egress.{NetworkPolicy}
use demesne.Spawns.{AgentSpec}
use demesne.Layout.{LayoutError, SandboxLayout, agent_mounts, build_layout}
use demesne.Runs.{
  RunHost, RunError, Readied, RunCall, registered, deregistered, created, killed, sidecar_started,
  sidecar_removed, command_ran, commanded, with_sidecar, in_sandbox, laid_out, create_sandbox,
  readied, run_readied, run_agent, build_proxy_config, context_of, record_child_sibling,
}

-- What is there and must be undone: an entry of the registry, a sandbox, a sidecar.
pub data Held : Type 0 where
  run : Str → Held
  box : Str → Held
  sidecar : Str → Held

abbrev pub released : Str → Str → List Held → Option (List Held)
released name other held = if str_eq name other then some held else none

-- What is to be undone after a call, the latest first, whether or not an undoing call succeeds;
-- none where the call undoes something that is not the latest thing held, or where a command runs
-- in a sandbox whose sidecar is not.
abbrev pub touch : RunCall → List Held → Option (List Held)
touch (registered j c) held = some (run j ∷ held)
touch (created sb m p) held = some (box sb ∷ held)
touch (sidecar_started sb i p) held = some (sidecar sb ∷ held)
touch (deregistered j) (run k ∷ held) = released j k held
touch (killed sb done) (box k ∷ held) = released sb k held
touch (sidecar_removed sb done) (sidecar k ∷ held) = released sb k held
touch (command_ran sb) (sidecar k ∷ held) = released sb k (sidecar k ∷ held)
touch c held = none

abbrev then_held : Option (List Held) → (List Held → Option (List Held)) → Option (List Held)
then_held none f = none
then_held (some held) f = f held

abbrev pub held_after : List RunCall → List Held → Option (List Held)
held_after [] held = some held
held_after (c ∷ cs) held = then_held (touch c held) (held_after cs)

then_held-append :
    (o : Option (List Held)) (ys : List RunCall) (f g : List Held → Option (List Held))
    → ((s : List Held) → g s ≡ then_held (f s) (held_after ys))
    → then_held o g ≡ then_held (then_held o f) (held_after ys)
then_held-append none ys f g h = refl
then_held-append (some s) ys f g h = h s

held_after-append :
    (xs ys : List RunCall) (s : List Held)
    → held_after (xs ++ ys) s ≡ then_held (held_after xs s) (held_after ys)
held_after-append [] ys s = refl
held_after-append (c ∷ xs) ys s =
    then_held-append (touch c s) ys (held_after xs) (held_after (xs ++ ys))
      (held_after-append xs ys)

-- Whatever is held before, the calls leave it so.
abbrev pub Balanced : List Held → List RunCall → Type 0
Balanced held calls = held_after calls held ≡ some held

pub bracket-Balanced :
    (opened closed : RunCall) (calls : List RunCall) (r : Held) (s : List Held)
    → touch opened s ≡ some (r ∷ s)
    → touch closed (r ∷ s) ≡ some s
    → Balanced (r ∷ s) calls
    → Balanced s (opened ∷ calls ++ closed ∷ [])
bracket-Balanced opened closed calls r s o c b =
    rw (o, held_after-append calls (closed ∷ []) (r ∷ s), b, c) refl

module _ (h : RunHost) where
  commanded-Balanced :
      (sb : Str) (l : SandboxLayout) (ctx : Option SpawnContext) (r : Option (Option ℤ))
      (s : List Held)
      → Balanced (sidecar sb ∷ s) (commanded h sb l ctx r).calls
  commanded-Balanced sb l ctx none s = rw (str_eq_refl sb) refl
  commanded-Balanced sb l ctx (some e) s = rw (str_eq_refl sb) refl

  with_sidecar-Balanced :
      (r : Readied) (sb : Str) (l : SandboxLayout) (ctx : Option SpawnContext) (s : List Held)
      → Balanced s (with_sidecar h r sb l ctx).calls
  with_sidecar-Balanced r sb l ctx s = elim (Bool-cases h.sidecar_starts) [
    | inl t ↦ rw t (
        bracket-Balanced (sidecar_started sb r.image (build_proxy_config h r l))
          (sidecar_removed sb h.removal_succeeds) (commanded h sb l ctx h.command_exit).calls
          (sidecar sb) s refl (rw (str_eq_refl sb) refl)
          (commanded-Balanced sb l ctx h.command_exit s))
    | inr f ↦ rw f refl
  ]

  in_sandbox-Balanced :
      (spec : AgentSpec) (r : Readied) (l : SandboxLayout) (ctx : Option SpawnContext)
      (made : Result RunError (NetworkPolicy × Str)) (s : List Held)
      → Balanced s (in_sandbox h spec r l ctx made).calls
  in_sandbox-Balanced spec r l ctx (err e) s = refl
  in_sandbox-Balanced spec r l ctx (ok (p, sb)) s =
      let told = record_child_sibling spec.spawned l ctx in
      bracket-Balanced (created sb (agent_mounts l) p) (killed sb h.kill_succeeds)
        (with_sidecar h r sb l told).calls (box sb) s refl (rw (str_eq_refl sb) refl)
        (with_sidecar-Balanced r sb l told (box sb ∷ s))

  laid_out-Balanced :
      (spec : AgentSpec) (r : Readied)
      (laid : Option SpawnContext × Result LayoutError SandboxLayout) (s : List Held)
      → Balanced s (laid_out h spec r laid).calls
  laid_out-Balanced spec r (ctx, err e) s = refl
  laid_out-Balanced spec r (ctx, ok l) s =
      let made = create_sandbox h spec in
      bracket-Balanced (registered l.job_id (context_of r.prep l spec.bg_self))
        (deregistered l.job_id) (in_sandbox h spec r l ctx made).calls (run l.job_id) s refl
        (rw (str_eq_refl l.job_id) refl) (in_sandbox-Balanced spec r l ctx made (run l.job_id ∷ s))

  run_readied-Balanced :
      (spec : AgentSpec) (r : Result RunError Readied) (s : List Held)
      → Balanced s (run_readied h spec r).calls
  run_readied-Balanced spec (err e) s = refl
  run_readied-Balanced spec (ok r) s = laid_out-Balanced spec r (build_layout h.layout h.job spec) s

  -- Whatever fails, a run undoes all that it made and nothing else, the latest first: the sidecar
  -- goes before its sandbox, the sandbox before the run's entry in the registry; and the command
  -- runs only while the sidecar of its sandbox is there. An undoing call counts whether or not it
  -- succeeds, since a failure is only logged.
  pub undone :
      (spec : AgentSpec) (held : List Held) → held_after (run_agent h spec).calls held ≡ some held
  unfolding run_agent
  undone spec held = run_readied-Balanced spec (readied h spec) held
