-- ===== src/Mounts/Inputs/Apart.antt =====
-- `resolveMounts` of internal/sandbox/runner.go: what is mounted below /in, and that no two inputs meet.
use mathlib.Core.List.{Memᴰ}
use demesne.Base.{
  ◌≡◌, ◌≢◌, refl, ◌∙◌, ap, subst, inl, inr, Bool, true, false, not, ◌&&◌, Bool-cases, Option, none,
  some, Option-cases, List, [], ◌∷◌, ◌++◌, length, Str, codes, str_eq, str_eq_iff, Map, lookup,
  insert, lookup-insert, lookup-insert_self, str_Eq, is_abs, clean_path, elements, Plain, base_name,
  All, All-imp, Inside, Result, err, ok, ◌>>=◌, bind_inversion, arith,
}
use demesne.Children.{Volume}
use demesne.Mounts.{MountError, validate_mount_path}
use demesne.Mounts.Inputs.{
  FileKind, is_dir, is_regular, Mounted, nothing_mounted, volume_of, with_volume, add_base,
  check_kind, refuse, add_input, add_inputs, resolve_mounts,
}
use demesne.Mounts.Allowed.{mount-Inside}

All-append :
    {A : Type 0} (P : A → Type 0) (xs : List A) (y : A) → All P xs → P y → All P (xs ++ y ∷ [])
All-append P [] y h p = (p, tt)
All-append P (x ∷ xs) y h p = (h.0, All-append P xs y h.1 p)

-- No two volumes are mounted at one path.
abbrev pub Distinct : List Volume → Type 0
Distinct [] = Unit
Distinct (v ∷ vs) = All (λ w. w.mount_path ≢ v.mount_path) vs × Distinct vs

Distinct-append :
    (vs : List Volume) (w : Volume)
    → Distinct vs
    → All (λ v. w.mount_path ≢ v.mount_path) vs
    → Distinct (vs ++ w ∷ [])
Distinct-append [] w d h = (tt, tt)
Distinct-append (v ∷ vs) w d h =
    (All-append (λ u. u.mount_path ≢ v.mount_path) vs w d.0 h.0, Distinct-append vs w d.1 h.1)

-- The volume's base name is in the map of the loop.
abbrev Noted : Map Str Str → Volume → Type 0
Noted used v =
    (lookup (base_name v.host_path) used ≡ some v.host_path)
    × (v.mount_path ≡ codes "/in/" ++ base_name v.host_path)

cut : (s t : Str) → codes "/in/" ++ s ≡ codes "/in/" ++ t → s ≡ t
cut s t e = cc e

module _ (resolved : Str) (used : Map Str Str)
    (free : lookup (base_name resolved) used ≡ none) where
  apart : (v : Volume) → Noted used v → codes "/in/" ++ base_name resolved ≢ v.mount_path
  apart v h e =
      let same : base_name resolved ≡ base_name v.host_path =
        cut (base_name resolved) (base_name v.host_path) (e ∙ h.1) in
      let no : lookup (base_name v.host_path) used ≡ none =
        subst (λ b. lookup b used ≡ none) same free in
      ground (arith, no, h.0)

  still : (v : Volume) → Noted used v → Noted (insert (base_name resolved) resolved used) v
  still v h = elim (Bool-cases (str_eq (base_name resolved) (base_name v.host_path))) [
    | inl e ↦
        let same : base_name resolved ≡ base_name v.host_path =
          (str_eq_iff (base_name resolved) (base_name v.host_path)).0 e in
        let no : lookup (base_name v.host_path) used ≡ none =
          subst (λ b. lookup b used ≡ none) same free in
        absurd (ground (arith, no, h.0))
    | inr e ↦
        (lookup-insert (base_name resolved) (base_name v.host_path) resolved used ∙ rw e h.0, h.1)
  ]

-- The loop's record: the base names are those of the volumes, which are apart.
abbrev Recorded : Mounted → Type 0
Recorded m = Distinct m.volumes × All (Noted m.used) m.volumes

with_volume-Recorded :
    (resolved : Str) (m : Mounted)
    → lookup (base_name resolved) m.used ≡ none
    → Recorded m
    → Recorded (with_volume resolved m)
with_volume-Recorded resolved m free r =
    let v = volume_of (length m.volumes) resolved in
    let used = insert (base_name resolved) resolved m.used in
    (
      Distinct-append m.volumes v r.0 (All-imp (apart resolved m.used free) m.volumes r.1),
      All-append (Noted used) m.volumes v (All-imp (still resolved m.used free) m.volumes r.1)
          (lookup-insert_self (base_name resolved) resolved m.used, refl),
    )

pub refuse-passed : {A : Type 0} (r : Result MountError A) (a : A) → refuse r ≡ ok a → r ≡ ok a
refuse-passed (err e) a h = cc h
refuse-passed (ok b) a h = let same : b ≡ a = cc h in ap ok same

pub check_kind-added :
    (wants_dir : Bool) (host : Str) (kind : Option FileKind) (resolved : Str) (m n : Mounted)
    → check_kind wants_dir host kind resolved m ≡ ok n
    → add_base resolved m ≡ ok n
check_kind-added wants_dir host none resolved m n h = cc h
check_kind-added wants_dir host (some kind) resolved m n h =
    elim (Bool-cases (wants_dir && not (is_dir kind))) [
      | inl a ↦ absurd (ground (arith, h, a))
      | inr a ↦ elim (Bool-cases (not wants_dir && not (is_regular kind))) [
        | inl b ↦ absurd (ground (arith, h, a, b))
        | inr b ↦ ground (arith, h, a, b)
      ]
    ]

pub add_base-free :
    (resolved : Str) (m n : Mounted)
    → add_base resolved m ≡ ok n
    → (lookup (base_name resolved) m.used ≡ none) × (with_volume resolved m ≡ n)
add_base-free resolved m n h = elim (Option-cases (lookup (base_name resolved) m.used)) [
  | inl free ↦ (free, ground (arith, h, free))
  | inr (existing, taken) ↦ absurd (ground (arith, h, taken))
]

module _ (eval_symlinks : Str → Option Str) (stat : Str → Option FileKind)
    (allowed : List Str) where
  -- A read-only volume of what a validated path resolves to, of the kind that it must have.
  abbrev Checked : Volume → Type 0
  Checked v =
      (v.read_only ≡ true)
      × ((host : Str) × (validate_mount_path eval_symlinks host allowed ≡ ok v.host_path))

  abbrev Sound : Mounted → Type 0
  Sound m = Recorded m × All Checked m.volumes

  -- What an input that is added was found to be.
  added :
      (wants_dir : Bool) (host : Str) (m n : Mounted)
      → add_input eval_symlinks stat allowed wants_dir host m ≡ ok n
      → (resolved : Str) × (validate_mount_path eval_symlinks host allowed ≡ ok resolved)
        × (lookup (base_name resolved) m.used ≡ none)
        × (with_volume resolved m ≡ n)
  added wants_dir host m n h =
      let (resolved, valid, checked) =
        bind_inversion (refuse (validate_mount_path eval_symlinks host allowed))
          (λ resolved. check_kind wants_dir host (stat resolved) resolved m) h in
      let (free, same) =
        add_base-free resolved m n
          (check_kind-added wants_dir host (stat resolved) resolved m n checked) in
      (
        resolved,
        refuse-passed (validate_mount_path eval_symlinks host allowed) resolved valid,
        free,
        same,
      )

  add_input-Sound :
      (wants_dir : Bool) (host : Str) (m n : Mounted)
      → add_input eval_symlinks stat allowed wants_dir host m ≡ ok n
      → Sound m
      → Sound n
  add_input-Sound wants_dir host m n h s =
      let (resolved, valid, free, same) = added wants_dir host m n h in
      subst Sound same (
        with_volume-Recorded resolved m free s.0,
        All-append Checked m.volumes (volume_of (length m.volumes) resolved) s.1
            (refl, (host, valid)),
      )

  add_inputs-Sound :
      (wants_dir : Bool) (hosts : List Str) (m n : Mounted)
      → add_inputs eval_symlinks stat allowed wants_dir hosts m ≡ ok n
      → Sound m
      → Sound n
  unfolding add_inputs
  add_inputs-Sound wants_dir [] m n h s = let same : m ≡ n = cc h in subst Sound same s
  add_inputs-Sound wants_dir (host ∷ hosts) m n h s =
      let (mid, one, rest) =
        bind_inversion (add_input eval_symlinks stat allowed wants_dir host m)
          (add_inputs eval_symlinks stat allowed wants_dir hosts) h in
      add_inputs-Sound wants_dir hosts mid n rest (add_input-Sound wants_dir host m mid one s)

  mounts-Sound :
      (files directories : List Str) (vs : List Volume)
      → resolve_mounts eval_symlinks stat allowed files directories ≡ ok vs
      → Distinct vs × All Checked vs
  unfolding resolve_mounts
  mounts-Sound files directories vs h =
      let (m, filled, out) =
        bind_inversion
          (add_inputs eval_symlinks stat allowed false files nothing_mounted
            >>= add_inputs eval_symlinks stat allowed true directories)
          (λ m. ok m.volumes) h in
      let (mid, one, two) =
        bind_inversion (add_inputs eval_symlinks stat allowed false files nothing_mounted)
          (add_inputs eval_symlinks stat allowed true directories) filled in
      let s : Sound m =
        add_inputs-Sound true directories mid m two
          (add_inputs-Sound false files nothing_mounted mid one ((tt, tt), tt)) in
      let same : m.volumes ≡ vs = cc out in
      (subst Distinct same s.0.0, subst (All Checked) same s.1)

-- Below an allowed root, after symbolic links, and read-only.
abbrev pub Confined : (Str → Option Str) → List Str → Volume → Type 0
Confined eval_symlinks allowed v =
    (v.read_only ≡ true)
    × ((root : Str) × Memᴰ root allowed
        × ((to : Str) × (eval_symlinks root ≡ some to) × Inside to v.host_path))
    × All Plain (elements v.host_path)

module _ (eval_symlinks : Str → Option Str) (stat : Str → Option FileKind)
    (cleaned : (p q : Str) → eval_symlinks p ≡ some q → clean_path q ≡ q)
    (absolute : (p q : Str) → is_abs p ≡ true → eval_symlinks p ≡ some q → is_abs q ≡ true) where
  -- Where EvalSymlinks returns cleaned paths, and absolute ones for absolute ones: of the volumes that
  -- a sandbox gets for its inputs no two are mounted at one path, and each is read-only and of a
  -- host path below what one of the allowed roots resolves to.
  pub inputs-Confined :
      (allowed files directories : List Str) (vs : List Volume)
      → resolve_mounts eval_symlinks stat allowed files directories ≡ ok vs
      → Distinct vs × All (Confined eval_symlinks allowed) vs
  inputs-Confined allowed files directories vs h =
      let (distinct, checked) = mounts-Sound eval_symlinks stat allowed files directories vs h in
      (
        distinct,
        All-imp
            (λ v c.
              let (host, valid) = c.1 in
              let (o, inside, plain) =
                mount-Inside eval_symlinks cleaned absolute host allowed v.host_path valid in
              (c.0, inside, plain))
            vs checked,
      )
