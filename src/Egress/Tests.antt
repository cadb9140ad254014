-- ===== src/Egress/Tests.antt =====
-- internal/sandbox/egress.go and images.go: small policies and names.
use demesne.Base.{
  ◌≡◌, refl, some, List, [], ◌∷◌, ◌||◌, ◌++◌, Str, codes, str_eq, is_empty, lookup, ok, err,
}
use demesne.Egress.{
  egress_package_managers, package_manager_hosts, deny_but, not_a_mode, build_network_policy,
  resolve_image, static_image_uri, not_an_image, allowed_image_names, listed,
}
use demesne.Egress.Rules.{lets, reachable, is_ok, policy_lets, image_names}

abbrev sum_db : List Str
sum_db = codes "sum.golang.org" ∷ []

for_packages :
    build_network_policy egress_package_managers sum_db
    ≡ ok (deny_but (package_manager_hosts ++ sum_db))
unfolding build_network_policy str_eq
for_packages = refl

unknown_mode : build_network_policy (codes "all") sum_db ≡ err (not_a_mode (codes "all"))
unfolding build_network_policy str_eq
unknown_mode = refl

no_such_image :
    resolve_image (λ name. some name) (codes "rust")
    ≡ err (not_an_image (codes "rust") allowed_image_names)
unfolding resolve_image static_image_uri lookup str_eq
no_such_image = refl

policy_lets_example :
    lets (deny_but (package_manager_hosts ++ sum_db)) (codes "pypi.org")
    ≡ reachable egress_package_managers (codes "pypi.org") sum_db
policy_lets_example =
    policy_lets egress_package_managers sum_db (codes "pypi.org")
      (deny_but (package_manager_hosts ++ sum_db)) for_packages

image_names_example :
    is_ok (resolve_image (λ name. some name) (codes "twine"))
    ≡ (is_empty (codes "twine") || listed (codes "twine") allowed_image_names)
image_names_example = image_names (λ name. some name) (codes "twine") (λ n. (n, refl))
