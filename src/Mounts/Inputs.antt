-- ===== src/Mounts/Inputs.antt =====
-- `resolveMounts` of internal/sandbox/runner.go: the inputs of a sandbox as read-only volumes below /in.
pub mod Apart
pub mod Described
use demesne.Base.{
  ℕ, ℤ, pos, negsuc, Bool, true, false, not, ◌&&◌, Option, none, some, List, [], ◌∷◌, ◌++◌, length,
  if◌then◌else◌, Str, codes, Map, lookup, insert, str_Eq, base_name, decimal, Result, err, ok,
  ◌>>=◌,
}
use demesne.Children.{Volume}
use demesne.Mounts.{MountError, validate_mount_path}

-- What os.Stat finds at a path.
pub data FileKind : Type 0 where
  regular : FileKind
  directory : FileKind
  special : FileKind

abbrev pub is_dir : FileKind → Bool
is_dir regular = false
is_dir directory = true
is_dir special = false

abbrev pub is_regular : FileKind → Bool
is_regular regular = true
is_regular directory = false
is_regular special = false

pub data InputError : Type 0 where
  refused : MountError → InputError
  stat_failed : Str → InputError
  not_a_directory : Str → InputError
  not_a_regular_file : Str → InputError
  collides : Str → Str → Str → InputError

-- `used` and `volumes` of the loop.
pub record Mounted : Type 0 where
  pub used : Map Str Str
  pub volumes : List Volume

abbrev pub nothing_mounted : Mounted
nothing_mounted = record { used = []; volumes = [] }

abbrev pub volume_of : ℕ → Str → Volume
volume_of n resolved = record {
  volume_name = codes "in-" ++ decimal n;
  host_path = resolved;
  mount_path = codes "/in/" ++ base_name resolved;
  read_only = true;
}

abbrev pub with_volume : Str → Mounted → Mounted
with_volume resolved m = record {
  used = insert (base_name resolved) resolved m.used;
  volumes = m.volumes ++ volume_of (length m.volumes) resolved ∷ [];
}

abbrev pub add_base : Str → Mounted → Result InputError Mounted
add_base resolved m = elim (lookup (base_name resolved) m.used) [
  | some existing ↦ err (collides (base_name resolved) existing resolved)
  | none ↦ ok (with_volume resolved m)
]

-- `host` has the kind that it must have.
abbrev pub check_kind : Bool → Str → Option FileKind → Str → Mounted → Result InputError Mounted
check_kind wants_dir host none resolved m = err (stat_failed host)
check_kind wants_dir host (some kind) resolved m =
    if wants_dir && not (is_dir kind)
    then err (not_a_directory host)
    else if not wants_dir && not (is_regular kind)
    then err (not_a_regular_file host)
    else add_base resolved m

abbrev pub refuse : {A : Type 0} → Result MountError A → Result InputError A
refuse (err e) = err (refused e)
refuse (ok a) = ok a

module _ (eval_symlinks : Str → Option Str) (stat : Str → Option FileKind)
    (allowed : List Str) where
  abbrev pub add_input : Bool → Str → Mounted → Result InputError Mounted
  add_input wants_dir host m =
      (refuse (validate_mount_path eval_symlinks host allowed)
        >>= (λ resolved. check_kind wants_dir host (stat resolved) resolved m))

  unfoldable pub add_inputs : Bool → List Str → Mounted → Result InputError Mounted
  add_inputs wants_dir [] m = ok m
  add_inputs wants_dir (host ∷ hosts) m = add_input wants_dir host m >>= add_inputs wants_dir hosts

  unfoldable pub resolve_mounts : List Str → List Str → Result InputError (List Volume)
  resolve_mounts files directories =
      (add_inputs false files nothing_mounted
        >>= add_inputs true directories
        >>= (λ m. ok m.volumes))

-- `describeInputs` of internal/sandbox/agent.go: what an agent is told of its inputs; -1 is the
-- size of a directory.
pub record InputInfo : Type 0 where
  pub basename : Str
  pub is_directory : Bool
  pub size : ℤ

module _ (eval_symlinks : Str → Option Str) (stat : Str → Option FileKind) (size_of : Str → ℕ)
    (allowed : List Str) where
  abbrev pub info_of : Bool → Str → InputInfo
  info_of wants_dir resolved = record {
    basename = base_name resolved;
    is_directory = wants_dir;
    size = if wants_dir then negsuc 0 else pos (size_of resolved);
  }

  abbrev pub describe_kind :
      Bool → Str → Option FileKind → Str → List InputInfo → Result InputError (List InputInfo)
  describe_kind wants_dir host none resolved out = err (stat_failed host)
  describe_kind wants_dir host (some kind) resolved out =
      if wants_dir && not (is_dir kind)
      then err (not_a_directory host)
      else if not wants_dir && not (is_regular kind)
      then err (not_a_regular_file host)
      else ok (out ++ info_of wants_dir resolved ∷ [])

  abbrev pub describe_input : Bool → Str → List InputInfo → Result InputError (List InputInfo)
  describe_input wants_dir host out =
      (refuse (validate_mount_path eval_symlinks host allowed)
        >>= (λ resolved. describe_kind wants_dir host (stat resolved) resolved out))

  unfoldable pub describe_each :
      Bool → List Str → List InputInfo → Result InputError (List InputInfo)
  describe_each wants_dir [] out = ok out
  describe_each wants_dir (host ∷ hosts) out =
      describe_input wants_dir host out >>= describe_each wants_dir hosts

  unfoldable pub describe_inputs : List Str → List Str → Result InputError (List InputInfo)
  describe_inputs files directories =
      describe_each false files [] >>= describe_each true directories
