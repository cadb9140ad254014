-- ===== src/Prepare.antt =====
-- `prepareSandbox`, `rootMounts` and `childMounts` of internal/sandbox/runner.go: a sandbox for a
-- script, of the host's or of a run that spawns it as its child.
pub mod Recorded
pub mod Policy
mod Tests
use demesne.Base.{
  ℕ, ℤ, pos, ltb_ℤ, Bool, true, false, not, Option, none, some, List, [], ◌∷◌, ◌++◌, if◌then◌else◌,
  Str, codes, join_path, Result, err, ok, ◌>>=◌,
}
use demesne.Children.{
  SpawnContext, NameError, reserve_name, prior_siblings, record_sibling, Volume,
  previous_job_volumes,
}
use demesne.Mounts.Inputs.{FileKind, InputError, resolve_mounts}
use demesne.Egress.{EgressError, NetworkPolicy, build_network_policy, ImageError, resolve_image}
use demesne.Launch.{LaunchError, launch_sandbox}

-- The fields of sandboxPrepOptions that are not the child's or passed on as they are.
pub record PrepOptions : Type 0 where
  pub image : Str
  pub mode : Str
  pub files : List Str
  pub directories : List Str
  pub timeout_seconds : ℤ

pub data PrepareError : Type 0 where
  image_refused : ImageError → PrepareError
  policy_refused : EgressError → PrepareError
  name_refused : NameError → PrepareError
  input_refused : InputError → PrepareError
  no_output_dir : Str → PrepareError
  timeout_unset : PrepareError
  not_launched : LaunchError → PrepareError

-- What the host answers while one sandbox is prepared: of the file system, of the builders of images,
-- and of the SDK and the context on each attempt; and the hosts that the proxies need.
pub record HostAnswers : Type 0 where
  pub eval_symlinks : Str → Option Str
  pub stat : Str → Option FileKind
  pub make_dir : Str → Bool
  pub ensure_image : Str → Option Str
  pub create : ℕ → Result Str Str
  pub is_done : ℕ → Bool
  pub egress_hosts : List Str

pub record Prepared : Type 0 where
  pub sandbox : Str
  pub output_host : Str
  pub volumes : List Volume
  pub policy : NetworkPolicy
  pub image_uri : Str

abbrev pub wrap_err {ℓ} : {E F : Type 0} {A : Type ℓ} → (E → F) → Result E A → Result F A
wrap_err f (err e) = err (f e)
wrap_err f (ok a) = ok a

abbrev pub out_volume : Str → Volume
out_volume host = record {
  volume_name = codes "out";
  host_path = host;
  mount_path = codes "/out";
  read_only = false;
}

abbrev pub workspace_volume : Str → Volume
workspace_volume host = record {
  volume_name = codes "workspace";
  host_path = host;
  mount_path = codes "/workspace";
  read_only = false;
}

-- The image and the policy, which are resolved first.
abbrev pub Envelope : Type 0
Envelope = Str × NetworkPolicy

abbrev pub MountPlan : Type 0
MountPlan = List Volume × Str

-- The child is a sibling of later ones only once it is there.
abbrev pub recorded :
    Str → SpawnContext → Result PrepareError Prepared → SpawnContext × Result PrepareError Prepared
recorded name ctx (err e) = (ctx, err e)
recorded name ctx (ok p) = (record_sibling name p.output_host ctx, ok p)

abbrev pub prepared_with : Envelope → MountPlan → Str → Result PrepareError Prepared
prepared_with (uri, p) (mounts, out) sb =
    ok (record { sandbox = sb; output_host = out; volumes = mounts; policy = p; image_uri = uri })

module _ (h : HostAnswers) where
  abbrev pub envelope : PrepOptions → Result PrepareError Envelope
  envelope o =
      (wrap_err image_refused (resolve_image h.ensure_image o.image) >>= (λ uri.
        wrap_err policy_refused (build_network_policy o.mode h.egress_hosts)
        >>= (λ p. ok (uri, p))))

  abbrev pub with_out_dir : Str → List Volume → Result PrepareError MountPlan
  with_out_dir out volumes =
      if h.make_dir out then ok (volumes ++ out_volume out ∷ [], out) else err (no_output_dir out)

  pub root_mounts : List Str → Str → Str → PrepOptions → Result PrepareError MountPlan
  root_mounts allowed output_root job o =
      (wrap_err input_refused (resolve_mounts h.eval_symlinks h.stat allowed o.files o.directories)
        >>= with_out_dir (join_path (output_root ∷ job ∷ [])))

  -- `inherited` are the input volumes of the parent.
  abbrev pub child_volumes : List Volume → SpawnContext → List Volume
  child_volumes inherited ctx =
      inherited
      ++ previous_job_volumes (prior_siblings ctx)
      ++ workspace_volume ctx.workspace_host ∷ []

  abbrev pub mounts_of :
      List Volume
      → Str
      → SpawnContext
      → Result NameError SpawnContext
      → SpawnContext × Result PrepareError MountPlan
  mounts_of inherited name ctx (err e) = (ctx, err (name_refused e))
  mounts_of inherited name ctx (ok taken) = (
    taken,
    with_out_dir (join_path (taken.out_host ∷ codes "child" ∷ name ∷ []))
        (child_volumes inherited taken),
  )

  abbrev pub child_mounts :
      List Volume → Str → SpawnContext → SpawnContext × Result PrepareError MountPlan
  child_mounts inherited name ctx = mounts_of inherited name ctx (reserve_name name ctx)

  abbrev pub launch_with : PrepOptions → Envelope → MountPlan → Result PrepareError Prepared
  launch_with o e m =
      if not (ltb_ℤ (pos 0) o.timeout_seconds)
      then err timeout_unset
      else (wrap_err not_launched (launch_sandbox h.create h.is_done).1 >>= prepared_with e m)

  pub prepare_root : List Str → Str → Str → PrepOptions → Result PrepareError Prepared
  prepare_root allowed output_root job o =
      (envelope o >>= (λ e. root_mounts allowed output_root job o >>= launch_with o e))

  abbrev pub launch_child :
      PrepOptions
      → Envelope
      → Str
      → SpawnContext × Result PrepareError MountPlan
      → SpawnContext × Result PrepareError Prepared
  launch_child o e name (ctx, err f) = (ctx, err f)
  launch_child o e name (ctx, ok m) = recorded name ctx (launch_with o e m)

  abbrev pub in_envelope :
      PrepOptions
      → List Volume
      → Str
      → SpawnContext
      → Result PrepareError Envelope
      → SpawnContext × Result PrepareError Prepared
  in_envelope o inherited name ctx (err e) = (ctx, err e)
  in_envelope o inherited name ctx (ok e) = launch_child o e name (child_mounts inherited name ctx)

  pub prepare_child :
      PrepOptions → List Volume → Str → SpawnContext → SpawnContext × Result PrepareError Prepared
  prepare_child o inherited name ctx = in_envelope o inherited name ctx (envelope o)
