-- ===== src/Egress.antt =====
-- internal/sandbox/egress.go and images.go, and `resolveImage` of internal/sandbox/runner.go: what
-- a sandbox can reach, and the image that it runs.
pub mod Rules
mod Tests
use demesne.Base.{
  Bool, true, false, ◌||◌, Option, none, some, List, [], ◌∷◌, ◌++◌, map, if◌then◌else◌, Str, codes,
  str_eq, str_Eq, Map, lookup, is_empty, require, Result, err, ok, ◌>>=◌,
}

-- A mode is a string: the three constants are not its only values.
abbrev pub egress_none : Str
egress_none = codes "none"

abbrev pub egress_package_managers : Str
egress_package_managers = codes "package-managers"

abbrev pub egress_open : Str
egress_open = codes "open"

abbrev pub package_manager_hosts : List Str
package_manager_hosts =
    codes "registry.npmjs.org"
    ∷ codes "pypi.org"
    ∷ codes "files.pythonhosted.org"
    ∷ codes "repo.anaconda.com"
    ∷ codes "conda.anaconda.org"
    ∷ []

pub data Action : Type 0 where
  allow : Action
  deny : Action

pub record NetworkRule : Type 0 where
  pub action : Action
  pub target : Str

pub record NetworkPolicy : Type 0 where
  pub default_action : Action
  pub egress : List NetworkRule

pub data EgressError : Type 0 where
  not_a_mode : Str → EgressError

abbrev pub hosts_of : Str → Option (List Str)
hosts_of mode =
    if str_eq mode egress_none
    then some []
    else if str_eq mode egress_package_managers
    then some package_manager_hosts
    else none

abbrev pub allow_rule : Str → NetworkRule
allow_rule host = record { action = allow; target = host }

abbrev pub deny_but : List Str → NetworkPolicy
deny_but hosts = record { default_action = deny; egress = map allow_rule hosts }

unfoldable pub build_network_policy : Str → List Str → Result EgressError NetworkPolicy
build_network_policy mode extra_allow =
    if str_eq mode egress_open
    then ok (record { default_action = allow; egress = [] })
    else (require (hosts_of mode) (not_a_mode mode)
        >>= (λ hosts. ok (deny_but (hosts ++ extra_allow))))

-- `egressOrDefault`
abbrev pub egress_or_default : Str → Str → Str
egress_or_default mode default = if is_empty mode then default else mode

pub data ImageError : Type 0 where
  not_built : Str → ImageError
  not_an_image : Str → List Str → ImageError

abbrev pub default_image : Str
default_image = codes "anaconda"

abbrev pub images : Map Str Str
images =
    (codes "node", codes "node:22")
    ∷ (codes "python", codes "python:3.12")
    ∷ (default_image, codes "continuumio/anaconda3:latest")
    ∷ (codes "go", codes "golang:1")
    ∷ []

abbrev pub built_images : List Str
built_images = codes "browser" ∷ codes "media" ∷ codes "twine" ∷ codes "webgamedev" ∷ []

abbrev pub allowed_image_names : List Str
allowed_image_names = codes "node" ∷ codes "python" ∷ default_image ∷ codes "go" ∷ built_images

unfoldable pub static_image_uri : Str → Result ImageError Str
static_image_uri name =
    let wanted = if is_empty name then default_image else name in
    require (lookup wanted images) (not_an_image wanted allowed_image_names)

abbrev pub listed : Str → List Str → Bool
listed name [] = false
listed name (b ∷ bs) = str_eq b name || listed name bs

-- `ensure` is what the builder of such an image answers, `none` for an error.
unfoldable pub resolve_image : (Str → Option Str) → Str → Result ImageError Str
resolve_image ensure name =
    if listed name built_images
    then require (ensure name) (not_built name)
    else static_image_uri name
