-- ===== src/Scripts/Denied.antt =====
-- `runScript` and `create` of internal/sandbox: the policy of their sandbox.
use demesne.Base.{◌≡◌, refl, All, All-append, ℤ, Option, none, some, [], ◌∷◌, Str, Result, err, ok}
use demesne.Children.{SpawnContext}
use demesne.Egress.{egress_open}
use demesne.Prepare.{PrepOptions, PrepareError, Prepared}
use demesne.Prepare.Policy.{root-Asked, child-Asked, Asked}
use demesne.Spawns.{ChildSpawn, ScriptRequest, CreateRequest}
use demesne.Runs.{RunCall, created, killed, sidecar_removed}
use demesne.Runs.Closed.{IsOpen, policy-IsOpen}
use demesne.Scripts.{
  ScriptHost, script_options, create_options, prepare_sandbox, start_goproxy_sidecar, script_ran,
  with_goproxy, script_in, run_script, kept_with, create_in, create,
}

-- No sandbox that is created can reach every host.
abbrev pub NotOpen : RunCall → Type 0
NotOpen (created sb mounts p) = ¬ IsOpen p
NotOpen c = Unit

module _ (h : ScriptHost) where
  prepared-Asked :
      (o : PrepOptions) (child : Option ChildSpawn) (p : Prepared)
      → (prepare_sandbox h o child).1 ≡ ok p
      → Asked h.answers o p
  prepared-Asked o none p same =
      root-Asked h.answers o h.allowed_paths h.output_root h.script_job p same
  prepared-Asked o (some c) p same =
      child-Asked h.answers o c.parent.input_volumes c.child c.parent.spawning p same

  prepared-NotOpen :
      (o : PrepOptions) (child : Option ChildSpawn) (p : Prepared)
      → ¬ (o.mode ≡ egress_open)
      → (prepare_sandbox h o child).1 ≡ ok p
      → ¬ IsOpen p.policy
  prepared-NotOpen o child p closed same reachable = closed (
      policy-IsOpen o.mode h.answers.egress_hosts p.policy (prepared-Asked o child p same)
        reachable)

  ran-NotOpen :
      (p : Prepared) (ctx : Option SpawnContext) (r : Option (Option ℤ))
      → All NotOpen (script_ran h p ctx r).calls
  ran-NotOpen p ctx none = (tt, tt)
  ran-NotOpen p ctx (some e) = (tt, tt)

  goproxy-NotOpen :
      (p : Prepared) (ctx : Option SpawnContext) (image : Option Str)
      → All NotOpen (with_goproxy h p ctx image).calls
  goproxy-NotOpen p ctx none = tt
  goproxy-NotOpen p ctx (some image) = (
    tt,
    All-append NotOpen (script_ran h p ctx h.command_exit).calls
        (sidecar_removed p.sandbox h.removal_succeeds ∷ []) (ran-NotOpen p ctx h.command_exit)
        (tt, tt),
  )

  script-NotOpen :
      (r : Option SpawnContext × Result PrepareError Prepared)
      → ((p : Prepared) → r.1 ≡ ok p → ¬ IsOpen p.policy)
      → All NotOpen (script_in h r).calls
  script-NotOpen (ctx, err e) denied = tt
  script-NotOpen (ctx, ok p) denied =
      let image = start_goproxy_sidecar h in
      (
        denied p refl,
        All-append NotOpen (with_goproxy h p ctx image).calls
            (killed p.sandbox h.kill_succeeds ∷ []) (goproxy-NotOpen p ctx image) (tt, tt),
      )

  kept-NotOpen :
      (p : Prepared) (ctx : Option SpawnContext) (image : Option Str)
      → ¬ IsOpen p.policy
      → All NotOpen (kept_with h p ctx image).calls
  kept-NotOpen p ctx none denied = (denied, (tt, tt))
  kept-NotOpen p ctx (some image) denied = (denied, (tt, tt))

  create-NotOpen :
      (r : Option SpawnContext × Result PrepareError Prepared)
      → ((p : Prepared) → r.1 ≡ ok p → ¬ IsOpen p.policy)
      → All NotOpen (create_in h r).calls
  create-NotOpen (ctx, err e) denied = tt
  create-NotOpen (ctx, ok p) denied = kept-NotOpen p ctx (start_goproxy_sidecar h) (denied p refl)

  -- A script whose mode is not open.
  pub run_script-NotOpen :
      (req : ScriptRequest) (child : Option ChildSpawn)
      → ¬ (req.script_egress ≡ egress_open)
      → All NotOpen (run_script h req child).calls
  unfolding run_script
  run_script-NotOpen req child closed =
      script-NotOpen (prepare_sandbox h (script_options req) child)
        (λ p. prepared-NotOpen (script_options req) child p closed)

  -- A sandbox that is to stay, whose mode is not open.
  pub created-NotOpen :
      (req : CreateRequest) (child : Option ChildSpawn)
      → ¬ (req.create_egress ≡ egress_open)
      → All NotOpen (create h req child).calls
  unfolding create
  created-NotOpen req child closed =
      create-NotOpen (prepare_sandbox h (create_options req) child)
        (λ p. prepared-NotOpen (create_options req) child p closed)
