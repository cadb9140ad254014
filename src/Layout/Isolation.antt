-- ===== src/Layout/Isolation.antt =====
-- `buildLayout` of internal/sandbox/agent.go: the mounts of a run that must see no inputs, an
-- isolated child's or that of a host's request without any.
use demesne.Base.{
  bind_inversion, ◌∙◌, ap, if◌then◌else◌, ◌≡◌, refl, sym, subst, true, Bool-cases, inl, inr, Option,
  none, some, List, [], ◌∷◌, Str, codes, join_path, arith, Result, err, ok,
}
use demesne.Children.{SpawnContext, NameError, reserve_name, Volume}
use demesne.Children.Grants.{reserve-out_host}
use demesne.Children.Siblings.{previous_job_volumes_none}
use demesne.Mounts.Inputs.{add_inputs, resolve_mounts}
use demesne.Prepare.{wrap_err, out_volume, workspace_volume}
use demesne.Prepare.Policy.{wrapped_ok}
use demesne.Spawns.{ChildSpawn, AgentSpec}
use demesne.Layout.{
  LayoutHost, mounts_refused, made_root, SandboxLayout, config_volume, agent_mounts, root_dirs,
  child_dirs, mk_layout_dirs, job_dir, root_layout, build_root_layout, child_layout, build_reserved,
  build_child_layout, build_layout,
}

-- The spec asks for no inputs, and its child, if it is one, inherits none.
abbrev pub NoFiles : Option ChildSpawn → AgentSpec → Type 0
NoFiles none spec = (spec.files ≡ []) × (spec.directories ≡ [])
NoFiles (some c) spec = c.isolated ≡ true

abbrev pub AsksNothing : AgentSpec → Type 0
AsksNothing spec = NoFiles spec.spawned spec

dirs_same :
    (h : LayoutHost) (dirs : List Str) (l made : SandboxLayout)
    → mk_layout_dirs h dirs l ≡ ok made
    → l ≡ made
dirs_same h [] l made e = cc e
dirs_same h (d ∷ dirs) l made e = elim (Bool-cases (h.make_dir d)) [
  | inl t ↦ dirs_same h dirs l made (ground (arith, e, t))
  | inr t ↦ absurd (ground (arith, e, t))
]

module _ (h : LayoutHost) (job : Str) where
  -- Only the run's own directories: its control files, a workspace of its own, and the output.
  abbrev pub own_mounts : Str → List Volume
  own_mounts out =
      config_volume (job_dir h job (codes "config"))
      ∷ workspace_volume (job_dir h job (codes "workspace"))
      ∷ out_volume out
      ∷ []

  root-own_mounts :
      (l : SandboxLayout)
      → build_root_layout h job [] [] ≡ ok l
      → agent_mounts l ≡ own_mounts l.out_host
  unfolding build_root_layout resolve_mounts add_inputs
  root-own_mounts l e =
      let same = dirs_same h (root_dirs (root_layout h job [])) (root_layout h job []) l e in
      rw (sym same, previous_job_volumes_none) refl

  isolated-own_mounts :
      (c : ChildSpawn) (taken : SpawnContext)
      → c.isolated ≡ true
      → agent_mounts (child_layout h job c taken) ≡ own_mounts (child_layout h job c taken).out_host
  isolated-own_mounts c taken i = rw (i, previous_job_volumes_none) refl

  child-own_mounts :
      (c : ChildSpawn) (r : Result NameError SpawnContext) (l : SandboxLayout)
      → c.isolated ≡ true
      → (build_reserved h job c r).1 ≡ ok l
      → agent_mounts l ≡ own_mounts l.out_host
  child-own_mounts c (err f) l i e = absurd (cc e)
  child-own_mounts c (ok taken) l i e =
      let same =
        dirs_same h (child_dirs c.isolated (child_layout h job c taken))
          (child_layout h job c taken) l e in
      subst (λ x. agent_mounts x ≡ own_mounts x.out_host) same (isolated-own_mounts c taken i)

  spawned-own_mounts :
      (spec : AgentSpec) (child : Option ChildSpawn) (l : SandboxLayout)
      → spec.spawned ≡ child
      → NoFiles child spec
      → (build_layout h job spec).1 ≡ ok l
      → agent_mounts l ≡ own_mounts l.out_host
  unfolding build_child_layout
  spawned-own_mounts spec none l same (f, d) e = root-own_mounts l (cc (e, same, f, d))
  spawned-own_mounts spec (some c) l same i e =
      child-own_mounts c (reserve_name c.child c.parent.spawning) l i (cc (e, same))

  -- A run that asks for nothing sees only its own directories.
  pub build_layout-own_mounts :
      (spec : AgentSpec) (l : SandboxLayout)
      → AsksNothing spec
      → (build_layout h job spec).1 ≡ ok l
      → agent_mounts l ≡ own_mounts l.out_host
  build_layout-own_mounts spec l n e = spawned-own_mounts spec spec.spawned l refl n e

  reserved-layout_inputs :
      (c : ChildSpawn) (r : Result NameError SpawnContext) (l : SandboxLayout)
      → (build_reserved h job c r).1 ≡ ok l
      → (if c.isolated then [] else c.parent.input_volumes) ≡ l.layout_inputs
  reserved-layout_inputs c (err f) l e = absurd (cc e)
  reserved-layout_inputs c (ok taken) l e =
      let made = child_layout h job c taken in
      ap (λ x. x.layout_inputs) (dirs_same h (child_dirs c.isolated made) made l e)

  -- The inputs of a child are its parent's, or none.
  pub child-layout_inputs :
      (spec : AgentSpec) (c : ChildSpawn) (l : SandboxLayout)
      → spec.spawned ≡ some c
      → (build_layout h job spec).1 ≡ ok l
      → (if c.isolated then [] else c.parent.input_volumes) ≡ l.layout_inputs
  unfolding build_child_layout
  child-layout_inputs spec c l same e =
      reserved-layout_inputs c (reserve_name c.child c.parent.spawning) l (cc (e, same))

  -- The inputs of a host's run are those that its request resolves to.
  pub root-layout_inputs :
      (spec : AgentSpec) (l : SandboxLayout)
      → spec.spawned ≡ none
      → (build_layout h job spec).1 ≡ ok l
      → resolve_mounts h.eval_symlinks h.stat h.allowed_paths spec.files spec.directories
        ≡ ok l.layout_inputs
  unfolding build_root_layout
  root-layout_inputs spec l same e =
      let resolved =
        resolve_mounts h.eval_symlinks h.stat h.allowed_paths spec.files spec.directories in
      let (vs, found, made) =
        bind_inversion (wrap_err mounts_refused resolved)
          (λ volumes. made_root h (root_layout h job volumes)) (cc (e, same)) in
      let layout = root_layout h job vs in
      let equal = dirs_same h (root_dirs layout) layout l made in
      wrapped_ok mounts_refused resolved vs found ∙ ap (λ x. ok x.layout_inputs) equal

  -- The output of a host's run is the directory `out` of its job, and that of a child's is below its
  -- parent's output, under the child's name.
  abbrev pub OutOf : Option ChildSpawn → Str → Type 0
  OutOf none out = out ≡ job_dir h job (codes "out")
  OutOf (some c) out = out ≡ join_path (c.parent.spawning.out_host ∷ codes "child" ∷ c.child ∷ [])

  root-OutOf :
      (spec : AgentSpec) (l : SandboxLayout)
      → build_root_layout h job spec.files spec.directories ≡ ok l
      → OutOf none l.out_host
  unfolding build_root_layout
  root-OutOf spec l e =
      let resolved =
        resolve_mounts h.eval_symlinks h.stat h.allowed_paths spec.files spec.directories in
      let (vs, found, made) =
        bind_inversion (wrap_err mounts_refused resolved)
          (λ volumes. made_root h (root_layout h job volumes)) e in
      let layout = root_layout h job vs in
      ap (λ x. x.out_host) (sym (dirs_same h (root_dirs layout) layout l made))

  reserved-OutOf :
      (c : ChildSpawn) (r : Result NameError SpawnContext) (l : SandboxLayout)
      → reserve_name c.child c.parent.spawning ≡ r
      → (build_reserved h job c r).1 ≡ ok l
      → OutOf (some c) l.out_host
  reserved-OutOf c (err f) l same e = absurd (cc e)
  reserved-OutOf c (ok taken) l same e =
      let made = child_layout h job c taken in
      ap (λ x. x.out_host) (sym (dirs_same h (child_dirs c.isolated made) made l e))
      ∙ ap (λ out. join_path (out ∷ codes "child" ∷ c.child ∷ []))
          (reserve-out_host c.child c.parent.spawning taken same)

  spawned-OutOf :
      (spec : AgentSpec) (child : Option ChildSpawn) (l : SandboxLayout)
      → spec.spawned ≡ child
      → (build_layout h job spec).1 ≡ ok l
      → OutOf child l.out_host
  unfolding build_child_layout
  spawned-OutOf spec none l same e = root-OutOf spec l (cc (e, same))
  spawned-OutOf spec (some c) l same e =
      reserved-OutOf c (reserve_name c.child c.parent.spawning) l refl (cc (e, same))

  pub build_layout-OutOf :
      (spec : AgentSpec) (l : SandboxLayout)
      → (build_layout h job spec).1 ≡ ok l
      → OutOf spec.spawned l.out_host
  build_layout-OutOf spec l e = spawned-OutOf spec spec.spawned l refl e
