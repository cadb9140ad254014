-- ===== src/Delivery.antt =====
-- internal/sandbox/filedelivery.go: files that host tools made, copied into a sandbox's workspace.
pub mod Naming
pub mod Copies
mod Tests
use demesne.Base.{
  ℕ, zero, suc, ◌+◌, ◌-◌, Bool, true, false, not, ◌&&◌, ◌||◌, Option, none, some, List, [], ◌∷◌,
  ◌++◌, map, if◌then◌else◌, Str, codes, str_eq, Map, lookup, insert, str_Eq, is_some, is_empty,
  has_prefix, is_abs, clean_path, join_path, base_name, ext_name, rel, reverse_onto, drop, length,
  decimal, require, Result, err, ok, ◌>>=◌,
}
use demesne.Children.{SpawnContext, ChildRegistry, lookup_run}

pub data DeliveryError : Type 0 where
  unknown_parent : Str → DeliveryError
  no_workspace : Str → DeliveryError
  not_created : Str → DeliveryError
  not_copied : Str → Str → DeliveryError
  no_free_name : DeliveryError

abbrev pub sandbox_generated_dir : Str
sandbox_generated_dir = codes "/workspace/generated"

abbrev pub workspace_dir : Str → SpawnContext → Result DeliveryError Str
workspace_dir parent ctx =
    if is_empty ctx.workspace_host
    then err (no_workspace parent)
    else ok (join_path (ctx.workspace_host ∷ codes "generated" ∷ []))

-- `made` is whether os.MkdirAll goes through.
pub delivery_dir :
    ChildRegistry SpawnContext → (Str → Bool) → Str → Result DeliveryError (Str × Str)
delivery_dir registry made parent =
    require (lookup_run parent registry) (unknown_parent parent)
    >>= workspace_dir parent
    >>= (λ dir. if made dir then ok (dir, sandbox_generated_dir) else err (not_created dir))

abbrev pub inside_rel : Option Str → Bool
inside_rel none = false
inside_rel (some r) =
    not (str_eq r (codes "..")) && not (has_prefix r (codes "../")) && not (is_abs r)

pub already_under : Str → Str → Bool
already_under src host_dir = inside_rel (rel host_dir src)

-- `strings.TrimSuffix(s, t)`
abbrev pub trim_suffix : Str → Str → Str
trim_suffix s t =
    let back = reverse_onto [] s in
    let tail = reverse_onto [] t in
    if has_prefix back tail then reverse_onto [] (drop (length tail) back) else s

abbrev pub candidate : Str → Str → ℕ → Str
candidate stem ext i = stem ++ (45 ∷ decimal i) ++ ext

-- The loop from `i` on; one unit of fuel is one round, and `none` is for want of fuel.
pub free_candidate : ℕ → Str → Str → ℕ → Map Str Bool → Option Str
free_candidate zero stem ext i used = none
free_candidate (suc fuel) stem ext i used =
    let rest = free_candidate fuel stem ext (suc i) used in
    if is_some (lookup (candidate stem ext i) used) then rest else some (candidate stem ext i)

pub unique_base : Str → Map Str Bool → Option Str
unique_base base used =
    let ext = ext_name base in
    let suffixed = free_candidate (suc (length used)) (trim_suffix base ext) ext 1 used in
    if is_some (lookup base used) then suffixed else some base

-- The map that is returned, the names that are taken, and the copies so far: each source with the name
-- of its copy in the delivery directory.
pub record Delivery : Type 0 where
  pub out : Map Str Str
  pub used : Map Str Bool
  pub copied : List (Str × Str)

abbrev pub new_delivery : Delivery
new_delivery = record { out = []; used = []; copied = [] }

-- `copy src dst` is whether copyFile goes through.
module _ (copy : Str → Str → Bool) (host_dir : Str) where
  abbrev pub with_copy : Str → Delivery → Str → Delivery
  with_copy src d base = record {
    out = insert src (join_path (sandbox_generated_dir ∷ base ∷ [])) d.out;
    used = insert base true d.used;
    copied = (src, base) ∷ d.copied;
  }

  abbrev pub copy_as : Str → Delivery → Str → Result DeliveryError Delivery
  copy_as src d base =
      let dst = join_path (host_dir ∷ base ∷ []) in
      if copy src dst then ok (with_copy src d base) else err (not_copied src dst)

  abbrev pub keep_in_place : Str → Delivery → Delivery
  keep_in_place src d = record d {
    out = insert src (join_path (sandbox_generated_dir ∷ base_name src ∷ [])) d.out;
    used = insert (base_name src) true d.used;
  }

  -- One source, cleaned.
  pub deliver_one : Str → Delivery → Result DeliveryError Delivery
  deliver_one src d =
      if is_some (lookup src d.out)
      then ok d
      else if already_under src host_dir
      then ok (keep_in_place src d)
      else (require (unique_base (base_name src) d.used) no_free_name >>= copy_as src d)

  pub deliver_each : List Str → Delivery → Result DeliveryError Delivery
  deliver_each [] d = ok d
  deliver_each (src ∷ srcs) d = deliver_one (clean_path src) d >>= deliver_each srcs

pub deliver :
    ChildRegistry SpawnContext
    → (Str → Bool)
    → (Str → Str → Bool)
    → Str
    → List Str
    → Result DeliveryError Delivery
deliver registry made copy parent srcs =
    delivery_dir registry made parent >>= (λ dirs. deliver_each copy dirs.0 srcs new_delivery)
