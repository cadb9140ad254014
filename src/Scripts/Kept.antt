-- ===== src/Scripts/Kept.antt =====
-- `runScript` and `create` of internal/sandbox: what is left of the sandbox, and its policy.
use demesne.Base.{
  ◌≡◌, refl, ℤ, Bool, true, false, if◌then◌else◌, Option, none, some, List, [], ◌∷◌, ◌++◌, Str,
  str_eq, str_eq_refl, Result, err, ok,
}
use demesne.Children.{SpawnContext, Volume}
use demesne.Prepare.{PrepareError, Prepared}
use demesne.Spawns.{ChildSpawn, ScriptRequest, CreateRequest}
use demesne.Egress.{NetworkPolicy}
use demesne.Runs.{
  RunCall, registered, deregistered, command_ran, created, killed, sidecar_started, sidecar_removed,
  no_proxy,
}
use demesne.Runs.Undone.{Held, run, box, sidecar, held_after, bracket-Balanced, Balanced}
use demesne.Scripts.{
  ScriptHost, ScriptError, CreateResult, script_options, create_options, prepare_sandbox,
  start_goproxy_sidecar, script_ran, with_goproxy, script_in, run_script, kept_with, create_in,
  create,
}

-- What the calls of `create` leave: the sandbox with its sidecar, or nothing.
abbrev pub left_by : Result ScriptError CreateResult → List Held → List Held
left_by (err e) held = held
left_by (ok c) held = sidecar c.sandbox_id ∷ box c.sandbox_id ∷ held

abbrev same_held : Held → Held → Bool
same_held (run j) (run k) = str_eq j k
same_held (box j) (box k) = str_eq j k
same_held (sidecar j) (sidecar k) = str_eq j k
same_held a b = false

abbrev without : Held → List Held → List Held
without gone [] = []
without gone (k ∷ held) =
    let rest = without gone held in if same_held gone k then held else k ∷ rest

-- What is there after a call: an undoing call that fails leaves what is there.
abbrev there : RunCall → List Held → List Held
there (registered j c) held = run j ∷ held
there (deregistered j) held = without (run j) held
there (created sb m p) held = box sb ∷ held
there (killed sb done) held = if done then without (box sb) held else held
there (sidecar_started sb i p) held = sidecar sb ∷ held
there (sidecar_removed sb done) held = if done then without (sidecar sb) held else held
there (command_ran sb) held = held

abbrev pub there_after : List RunCall → List Held → List Held
there_after [] held = held
there_after (c ∷ cs) held = there_after cs (there c held)

-- What the undoing calls that fail were for.
abbrev pub not_undone : List RunCall → List Held
not_undone [] = []
not_undone (killed sb false ∷ cs) = box sb ∷ not_undone cs
not_undone (sidecar_removed sb false ∷ cs) = sidecar sb ∷ not_undone cs
not_undone (c ∷ cs) = not_undone cs

-- Exactly what failed undoing calls were for is left.
abbrev pub LeavesFailed : List RunCall → List Held → Type 0
LeavesFailed calls held = there_after calls held ≡ not_undone calls ++ held

box-LeavesFailed :
    (sb : Str) (m : List Volume) (p : NetworkPolicy) (killed_too : Bool) (held : List Held)
    → LeavesFailed (created sb m p ∷ killed sb killed_too ∷ []) held
box-LeavesFailed sb m p true held = rw (str_eq_refl sb) refl
box-LeavesFailed sb m p false held = refl

both-LeavesFailed :
    (sb image : Str) (m : List Volume) (p : NetworkPolicy) (removed killed_too : Bool)
    (held : List Held)
    → LeavesFailed
        (created sb m p
          ∷ sidecar_started sb image no_proxy
          ∷ command_ran sb
          ∷ sidecar_removed sb removed
          ∷ killed sb killed_too
          ∷ [])
        held
both-LeavesFailed sb image m p true true held = rw (str_eq_refl sb) (rw (str_eq_refl sb) refl)
both-LeavesFailed sb image m p true false held = rw (str_eq_refl sb) refl
both-LeavesFailed sb image m p false true held = rw (str_eq_refl sb) refl
both-LeavesFailed sb image m p false false held = refl

module _ (h : ScriptHost) where
  ran-LeavesFailed :
      (p : Prepared) (ctx : Option SpawnContext) (image : Str) (r : Option (Option ℤ))
      (s : List Held)
      → LeavesFailed
          (created p.sandbox p.volumes p.policy
              ∷ (sidecar_started p.sandbox image no_proxy ∷ (script_ran h p ctx r).calls
                  ++ sidecar_removed p.sandbox h.removal_succeeds ∷ [])
            ++ killed p.sandbox h.kill_succeeds ∷ [])
          s
  ran-LeavesFailed p ctx image none s =
      both-LeavesFailed p.sandbox image p.volumes p.policy h.removal_succeeds h.kill_succeeds s
  ran-LeavesFailed p ctx image (some e) s =
      both-LeavesFailed p.sandbox image p.volumes p.policy h.removal_succeeds h.kill_succeeds s

  goproxy-LeavesFailed :
      (p : Prepared) (ctx : Option SpawnContext) (image : Option Str) (s : List Held)
      → LeavesFailed
          (created p.sandbox p.volumes p.policy ∷ (with_goproxy h p ctx image).calls
            ++ killed p.sandbox h.kill_succeeds ∷ [])
          s
  goproxy-LeavesFailed p ctx none s =
      box-LeavesFailed p.sandbox p.volumes p.policy h.kill_succeeds s
  goproxy-LeavesFailed p ctx (some image) s = ran-LeavesFailed p ctx image h.command_exit s

  script-LeavesFailed :
      (r : Option SpawnContext × Result PrepareError Prepared) (s : List Held)
      → LeavesFailed (script_in h r).calls s
  script-LeavesFailed (ctx, err e) s = refl
  script-LeavesFailed (ctx, ok p) s = goproxy-LeavesFailed p ctx (start_goproxy_sidecar h) s

  kept-there :
      (p : Prepared) (ctx : Option SpawnContext) (image : Option Str) (s : List Held)
      → there_after (kept_with h p ctx image).calls s
        ≡ left_by
            (kept_with h p ctx image).outcome
            (not_undone (kept_with h p ctx image).calls ++ s)
  kept-there p ctx none s = box-LeavesFailed p.sandbox p.volumes p.policy h.kill_succeeds s
  kept-there p ctx (some image) s = refl

  create-there :
      (r : Option SpawnContext × Result PrepareError Prepared) (s : List Held)
      → there_after (create_in h r).calls s
        ≡ left_by (create_in h r).outcome (not_undone (create_in h r).calls ++ s)
  create-there (ctx, err e) s = refl
  create-there (ctx, ok p) s = kept-there p ctx (start_goproxy_sidecar h) s

  ran-Balanced :
      (p : Prepared) (ctx : Option SpawnContext) (r : Option (Option ℤ)) (s : List Held)
      → Balanced (sidecar p.sandbox ∷ s) (script_ran h p ctx r).calls
  ran-Balanced p ctx none s = rw (str_eq_refl p.sandbox) refl
  ran-Balanced p ctx (some e) s = rw (str_eq_refl p.sandbox) refl

  goproxy-Balanced :
      (p : Prepared) (ctx : Option SpawnContext) (image : Option Str) (s : List Held)
      → Balanced s (with_goproxy h p ctx image).calls
  goproxy-Balanced p ctx none s = refl
  goproxy-Balanced p ctx (some image) s =
      bracket-Balanced (sidecar_started p.sandbox image no_proxy)
        (sidecar_removed p.sandbox h.removal_succeeds) (script_ran h p ctx h.command_exit).calls
        (sidecar p.sandbox) s refl (rw (str_eq_refl p.sandbox) refl)
        (ran-Balanced p ctx h.command_exit s)

  script-Balanced :
      (r : Option SpawnContext × Result PrepareError Prepared) (s : List Held)
      → Balanced s (script_in h r).calls
  script-Balanced (ctx, err e) s = refl
  script-Balanced (ctx, ok p) s =
      let image = start_goproxy_sidecar h in
      bracket-Balanced (created p.sandbox p.volumes p.policy) (killed p.sandbox h.kill_succeeds)
        (with_goproxy h p ctx image).calls (box p.sandbox) s refl (rw (str_eq_refl p.sandbox) refl)
        (goproxy-Balanced p ctx image (box p.sandbox ∷ s))

  kept-left :
      (p : Prepared) (ctx : Option SpawnContext) (image : Option Str) (s : List Held)
      → held_after (kept_with h p ctx image).calls s
        ≡ some (left_by (kept_with h p ctx image).outcome s)
  kept-left p ctx none s = rw (str_eq_refl p.sandbox) refl
  kept-left p ctx (some image) s = refl

  create-left :
      (r : Option SpawnContext × Result PrepareError Prepared) (s : List Held)
      → held_after (create_in h r).calls s ≡ some (left_by (create_in h r).outcome s)
  create-left (ctx, err e) s = refl
  create-left (ctx, ok p) s = kept-left p ctx (start_goproxy_sidecar h) s

  -- Whatever fails, a script asks for the removal of its sidecar, then for the end of its sandbox,
  -- and what is left is exactly what a call that failed should have undone: without such a failure
  -- nothing. A sandbox that is to stay is left with its sidecar exactly where its id is returned;
  -- where an error is returned its end is asked for, and it is left only where that call fails.
  pub sandboxes_left :
      (script : ScriptRequest) (req : CreateRequest) (child : Option ChildSpawn) (held : List Held)
      → (held_after (run_script h script child).calls held ≡ some held)
        × LeavesFailed (run_script h script child).calls held
        × (held_after (create h req child).calls held
            ≡ some (left_by (create h req child).outcome held))
        × (there_after (create h req child).calls held
            ≡ left_by (create h req child).outcome (not_undone (create h req child).calls ++ held))
  unfolding run_script create
  sandboxes_left script req child held =
      let scripted = prepare_sandbox h (script_options script) child in
      let made = prepare_sandbox h (create_options req) child in
      (
        script-Balanced scripted held,
        script-LeavesFailed scripted held,
        create-left made held,
        create-there made held,
      )
