-- ===== src/Mounts.antt =====
-- internal/sandbox/paths.go and the list of allowed paths of internal/sandbox/config.go: which host
-- paths may be mounted.
pub mod Allowed
pub mod Inputs
pub mod Tests
use demesne.Base.{
  ℕ, Bool, true, false, not, ◌&&◌, ◌||◌, Option, none, some, List, [], ◌∷◌, ◌++◌, map,
  if◌then◌else◌, Str, codes, str_eq, has_prefix, is_empty, is_abs, clean_path, split_on, trim_space,
  filter_by, require, Result, err, ok, ◌>>=◌,
}

pub data MountError : Type 0 where
  mount_empty : MountError
  not_absolute : Str → MountError
  unresolved : Str → MountError
  not_allowed : Str → MountError

-- `resolved` is a root, or below it.
abbrev pub under_root : Str → Str → Bool
under_root resolved root = str_eq resolved root || has_prefix resolved (root ++ 47 ∷ [])

-- `eval_symlinks` is what filepath.EvalSymlinks answers at this moment, `none` for an error.
module _ (eval_symlinks : Str → Option Str) where
  abbrev pub matches : Str → Option Str → Bool
  matches resolved none = false
  matches resolved (some root) = under_root resolved root

  unfoldable pub any_root : Str → List Str → Bool
  any_root resolved [] = false
  any_root resolved (root ∷ roots) =
      matches resolved (eval_symlinks root) || any_root resolved roots

  abbrev pub check_resolved : Str → List Str → Str → Result MountError Str
  check_resolved host allowed resolved =
      if any_root resolved allowed then ok resolved else err (not_allowed host)

  unfoldable pub validate_mount_path : Str → List Str → Result MountError Str
  validate_mount_path host allowed =
      if is_empty host
      then err mount_empty
      else if not (is_abs (clean_path host))
      then err (not_absolute host)
      else (require (eval_symlinks (clean_path host)) (unresolved host)
          >>= check_resolved host allowed)

pub data AllowedError : Type 0 where
  allowed_required : AllowedError
  allowed_blank : AllowedError

abbrev pub given : List Str → List Str
given [] = []
given (p ∷ ps) =
    let rest = given ps in if is_empty (trim_space p) then rest else trim_space p ∷ rest

abbrev pub some_path : List Str → Result AllowedError (List Str)
some_path [] = err allowed_blank
some_path (p ∷ ps) = ok (p ∷ ps)

-- The value of DEMESNE_ALLOWED_PATHS, empty where it is not set.
unfoldable pub allowed_paths_from_env : Str → Result AllowedError (List Str)
allowed_paths_from_env raw =
    if is_empty raw then err allowed_required else some_path (given (split_on 58 [] raw))

abbrev pub present : Str → List Str → Bool
present root [] = false
present root (p ∷ ps) = str_eq (clean_path p) (clean_path root) || present root ps

-- The part of LoadConfigFromEnv that adds the output root.
unfoldable pub with_output_root : Str → List Str → List Str
with_output_root root allowed = if present root allowed then allowed else allowed ++ root ∷ []
