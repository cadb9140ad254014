-- ===== src/Prepare/Recorded.antt =====
-- `prepareSandbox` of internal/sandbox/runner.go: when a child is recorded, and what becomes of its
-- name.
use demesne.Base.{
  ◌≡◌, ◌⊎◌, refl, ap, inl, inr, true, List, [], ◌∷◌, join_path, Str, codes, str_Eq, insert, Result,
  err, ok,
}
use demesne.Children.{SpawnContext, NameError, reserve_name, Volume}
use demesne.Children.Grants.{is_free, reserve_inversion, reserve-siblings}
use demesne.Prepare.{
  PrepOptions, PrepareError, HostAnswers, Prepared, Envelope, MountPlan, envelope, with_out_dir,
  mounts_of, in_envelope, child_volumes, launch_with, recorded, launch_child, prepare_child,
}

-- What becomes of the parent's context: a child that is there was free, has its name taken and its
-- output recorded; without one, nothing is recorded, and a name that was taken is still taken.
abbrev pub Kept : Str → SpawnContext → SpawnContext × Result PrepareError Prepared → Type 0
Kept name ctx (after, err e) =
    (after.sibling_outputs ≡ ctx.sibling_outputs)
    × ((after.used_names ≡ ctx.used_names) ⊎ (after.used_names ≡ insert name true ctx.used_names))
Kept name ctx (after, ok p) =
    (is_free ctx name ≡ true)
    × (after.used_names ≡ insert name true ctx.used_names)
    × (after.sibling_outputs ≡ insert name p.output_host ctx.sibling_outputs)

-- A context in which the name was just taken.
abbrev Taken : Str → SpawnContext → SpawnContext → Type 0
Taken name ctx taken =
    (is_free ctx name ≡ true)
    × (taken.used_names ≡ insert name true ctx.used_names)
    × (taken.sibling_outputs ≡ ctx.sibling_outputs)

reserve-Taken :
    (name : Str) (ctx taken : SpawnContext)
    → reserve_name name ctx ≡ ok taken
    → Taken name ctx taken
reserve-Taken name ctx taken h =
    let (free, used, label) = reserve_inversion name ctx taken h in
    (free, used, reserve-siblings name ctx taken h)

recorded-Kept :
    (name : Str) (ctx taken : SpawnContext) (r : Result PrepareError Prepared)
    → Taken name ctx taken
    → Kept name ctx (recorded name taken r)
recorded-Kept name ctx taken (err e) (free, used, same) = (same, inr used)
recorded-Kept name ctx taken (ok p) (free, used, same) =
    (free, used, ap (insert name p.output_host) same)

module _ (h : HostAnswers) (o : PrepOptions) (inherited : List Volume) (name : Str)
    (ctx : SpawnContext) where
  mounted-Kept :
      (e : Envelope) (taken : SpawnContext) (r : Result PrepareError MountPlan)
      → Taken name ctx taken
      → Kept name ctx (launch_child h o e name (taken, r))
  mounted-Kept e taken (err f) (free, used, same) = (same, inr used)
  mounted-Kept e taken (ok m) t = recorded-Kept name ctx taken (launch_with h o e m) t

  reserved-Kept :
      (e : Envelope) (r : Result NameError SpawnContext)
      → reserve_name name ctx ≡ r
      → Kept name ctx (launch_child h o e name (mounts_of h inherited name ctx r))
  reserved-Kept e (err f) same = (refl, inl refl)
  reserved-Kept e (ok taken) same =
      mounted-Kept e taken
        (with_out_dir h (join_path (taken.out_host ∷ codes "child" ∷ name ∷ []))
          (child_volumes h inherited taken))
        (reserve-Taken name ctx taken same)

  enveloped-Kept :
      (r : Result PrepareError Envelope) → Kept name ctx (in_envelope h o inherited name ctx r)
  enveloped-Kept (err e) = (refl, inl refl)
  enveloped-Kept (ok e) = reserved-Kept e (reserve_name name ctx) refl

  -- A child's output is recorded for later siblings exactly where its sandbox was created, and then its
  -- name was free and is taken; whatever goes wrong before, nothing is recorded.
  pub prepare_child-Kept : Kept name ctx (prepare_child h o inherited name ctx)
  unfolding prepare_child
  prepare_child-Kept = enveloped-Kept (envelope h o)
