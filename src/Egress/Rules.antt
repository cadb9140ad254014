-- ===== src/Egress/Rules.antt =====
-- internal/sandbox/egress.go and images.go: what a policy lets through, and which image names there are.
use demesne.Base.{
  ◌≡◌, refl, sym, ◌∙◌, subst, inl, inr, Bool, true, false, ◌||◌, if◌then◌else◌, Bool-cases, Option,
  none, some, List, [], ◌∷◌, ◌++◌, map, Str, str_eq, str_eq_iff, is_empty, is_some, Map, require,
  lookup, ◌&&◌, str_Eq, Result, err, ok, arith,
}
use demesne.Egress.{
  egress_none, egress_package_managers, egress_open, package_manager_hosts, Action, allow, deny,
  NetworkRule, NetworkPolicy, allow_rule, deny_but, build_network_policy, listed, built_images,
  allowed_image_names, static_image_uri, resolve_image, images, not_an_image,
}

abbrev pub allows : Action → Bool
allows allow = true
allows deny = false

-- The first rule for a host says what becomes of it, and the default where no rule is for it.
abbrev pub by_rule : List NetworkRule → Str → Action → Bool
by_rule [] host otherwise = allows otherwise
by_rule (r ∷ rules) host otherwise =
    if str_eq r.target host then allows r.action else by_rule rules host otherwise

-- Whether a policy lets a host through.
abbrev pub lets : NetworkPolicy → Str → Bool
lets p host = by_rule p.egress host p.default_action

by_rule-map :
    (hosts extra : List Str) (host : Str)
    → by_rule (map allow_rule (hosts ++ extra)) host deny ≡ (listed host hosts || listed host extra)
by_rule-map [] [] host = refl
by_rule-map [] (e ∷ extra) host = ground (arith, by_rule-map [] extra host)
by_rule-map (h ∷ hosts) extra host = ground (arith, by_rule-map hosts extra host)

abbrev pub reachable : Str → Str → List Str → Bool
reachable mode host extra =
    str_eq mode egress_open
    || str_eq mode egress_package_managers && listed host package_manager_hosts
    || listed host extra

none_only :
    (mode : Str) → str_eq mode egress_none ≡ true → str_eq mode egress_package_managers ≡ false
unfolding str_eq
none_only mode n =
    subst (λ m. str_eq m egress_package_managers ≡ false) (sym ((str_eq_iff mode egress_none).0 n))
      refl

-- A policy that is built, of whose rules the first for a host decides and else the default, lets a
-- host through just where the mode is open, where the mode is for package managers and the host is
-- one of theirs, and where the caller added the host.
pub policy_lets :
    (mode : Str) (extra : List Str) (host : Str) (p : NetworkPolicy)
    → build_network_policy mode extra ≡ ok p
    → lets p host ≡ reachable mode host extra
unfolding build_network_policy
policy_lets mode extra host p h = elim (Bool-cases (str_eq mode egress_open)) [
  | inl o ↦
      let same : record { default_action = allow; egress = [] } ≡ p = ground (arith, h, o) in
      subst (λ q. lets q host ≡ reachable mode host extra) same (rw o refl)
  | inr o ↦ elim (Bool-cases (str_eq mode egress_none)) [
    | inl n ↦
        let same : deny_but extra ≡ p = ground (arith, h, o, n) in
        let other : str_eq mode egress_package_managers ≡ false = none_only mode n in
        subst (λ q. lets q host ≡ reachable mode host extra) same
          (rw (o, other) (by_rule-map [] extra host))
    | inr n ↦ elim (Bool-cases (str_eq mode egress_package_managers)) [
      | inl m ↦
          let same : deny_but (package_manager_hosts ++ extra) ≡ p = ground (arith, h, o, n, m) in
          subst (λ q. lets q host ≡ reachable mode host extra) same
            (rw (o, m) (by_rule-map package_manager_hosts extra host))
      | inr m ↦ absurd (ground (arith, h, o, n, m))
    ]
  ]
]

abbrev pub is_ok : {E A : Type 0} → Result E A → Bool
is_ok (err e) = false
is_ok (ok a) = true

lookup-listed :
    (name : Str) (m : Map Str Str) → is_some (lookup name m) ≡ listed name (map (λ e. e.0) m)
unfolding lookup
lookup-listed name [] = refl
lookup-listed name ((k, v) ∷ m) = elim (Bool-cases (str_eq k name)) [
  | inl e ↦ rw e refl
  | inr e ↦ rw e (lookup-listed name m)
]

is_ok-require : {E A : Type 0} (o : Option A) (e : E) → is_ok (require o e) ≡ is_some o
is_ok-require none e = refl
is_ok-require (some a) e = refl

image_named :
    (ensure : Str → Option Str) (name : Str)
    → ((n : Str) → (ref : Str) × (ensure n ≡ some ref))
    → is_empty name ≡ false
    → is_ok (resolve_image ensure name) ≡ listed name allowed_image_names
unfolding resolve_image static_image_uri
image_named ensure name built given = elim (Bool-cases (listed name built_images)) [
  | inl l ↦ let (ref, e) = built name in rw (l, e) (ground arith)
  | inr l ↦
      rw (l, given)
        (is_ok-require (lookup name images) (not_an_image name allowed_image_names)
          ∙ lookup-listed name images)
]

-- With builders that succeed, the names of images are those of the allowlist, and the empty one.
pub image_names :
    (ensure : Str → Option Str) (name : Str)
    → ((n : Str) → (ref : Str) × (ensure n ≡ some ref))
    → is_ok (resolve_image ensure name) ≡ (is_empty name || listed name allowed_image_names)
unfolding resolve_image static_image_uri lookup str_eq
image_names ensure [] built = refl
image_names ensure (c ∷ s) built = image_named ensure (c ∷ s) built refl
