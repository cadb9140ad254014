-- ===== src/Mounts/Allowed.antt =====
-- internal/sandbox/paths.go: what is mounted lies below an allowed root, after symbolic links.
use mathlib.Core.List.{Memᴰ}
use demesne.Base.{
  ◌≡◌, refl, ◌∙◌, ap, subst, inl, inr, true, false, Bool-cases, Option, some, Option-cases, List,
  [], ◌∷◌, Str, str_eq, has_prefix, split_on, is_empty, is_abs, clean_path, elements, Plain, All,
  Inside, within, elements-Plain, ok, arith,
}
use demesne.Mounts.{under_root, any_root, validate_mount_path}

module _ (eval_symlinks : Str → Option Str) where
  -- A root of the list that resolves to a directory which the path is or lies below.
  abbrev Covers : Str → Str → Type 0
  Covers resolved root =
      (to : Str) × (eval_symlinks root ≡ some to) × (under_root resolved to ≡ true)

  any_root-Memᴰ :
      (resolved : Str) (roots : List Str)
      → any_root eval_symlinks resolved roots ≡ true
      → (root : Str) × Memᴰ root roots × Covers resolved root
  unfolding any_root
  any_root-Memᴰ resolved [] h = absurd (ground (arith, h))
  any_root-Memᴰ resolved (root ∷ roots) h = elim (Option-cases (eval_symlinks root)) [
    | inl e ↦
        let (r, m, c) = any_root-Memᴰ resolved roots (ground (arith, h, e)) in (r, Memᴰ.tail m, c)
    | inr (to, e) ↦ elim (Bool-cases (under_root resolved to)) [
      | inl u ↦ (root, Memᴰ.head refl, (to, e, u))
      | inr u ↦
          let (r, m, c) = any_root-Memᴰ resolved roots (ground (arith, h, e, u)) in
          (r, Memᴰ.tail m, c)
    ]
  ]

  -- What the checks of an accepted path found.
  accepted :
      (host : Str) (allowed : List Str) (r : Str)
      → validate_mount_path eval_symlinks host allowed ≡ ok r
      → (is_abs (clean_path host) ≡ true)
        × (eval_symlinks (clean_path host) ≡ some r)
        × (any_root eval_symlinks r allowed ≡ true)
  unfolding validate_mount_path
  accepted host allowed r h = elim (Bool-cases (is_empty host)) [
    | inl e ↦ absurd (ground (arith, h, e))
    | inr e ↦ elim (Bool-cases (is_abs (clean_path host))) [
      | inr a ↦ absurd (ground (arith, h, e, a))
      | inl a ↦ elim (Option-cases (eval_symlinks (clean_path host))) [
        | inl o ↦ absurd (ground (arith, h, e, a, o))
        | inr (q, o) ↦ elim (Bool-cases (any_root eval_symlinks q allowed)) [
          | inr n ↦ absurd (ground (arith, h, e, a, o, n))
          | inl n ↦
              let same : q ≡ r = ground (arith, h, e, a, o, n) in
              (a, o ∙ ap some same, subst (λ x. any_root eval_symlinks x allowed ≡ true) same n)
        ]
      ]
    ]
  ]

  covered :
      (r root to : Str) (roots : List Str)
      → eval_symlinks root ≡ some to
      → under_root r to ≡ true
      → Memᴰ root roots
      → any_root eval_symlinks r roots ≡ true
  unfolding any_root
  covered r root to [] e u m = elim m [ ]
  covered r root to (x ∷ roots) e u (Memᴰ.head p) =
      let e' : eval_symlinks x ≡ some to = cc (p, e) in ground (arith, e', u)
  covered r root to (x ∷ roots) e u (Memᴰ.tail m) = ground (arith, covered r root to roots e u m)

  -- Every path whose cleaned form is absolute and resolves to what an allowed root resolves to, or below
  -- it, is accepted as what it resolves to.
  pub below_accepted :
      (host : Str) (allowed : List Str) (r root to : Str)
      → is_empty host ≡ false
      → is_abs (clean_path host) ≡ true
      → eval_symlinks (clean_path host) ≡ some r
      → Memᴰ root allowed
      → eval_symlinks root ≡ some to
      → under_root r to ≡ true
      → validate_mount_path eval_symlinks host allowed ≡ ok r
  unfolding validate_mount_path
  below_accepted host allowed r root to n a o m e u =
      ground (arith, a, n, o, covered r root to allowed e u m)

root_abs :
    (r to : Str) → is_abs r ≡ true → clean_path to ≡ to → under_root r to ≡ true → is_abs to ≡ true
unfolding has_prefix clean_path elements str_eq split_on
root_abs r [] a c u = absurd (ground (arith, c))
root_abs [] (b ∷ to) a c u = absurd (ground (arith, a))
root_abs (d ∷ r) (b ∷ to) a c u = ground (arith, a, u)

module _ (eval_symlinks : Str → Option Str)
    (cleaned : (p q : Str) → eval_symlinks p ≡ some q → clean_path q ≡ q)
    (absolute : (p q : Str) → is_abs p ≡ true → eval_symlinks p ≡ some q → is_abs q ≡ true) where
  -- Where EvalSymlinks returns cleaned paths, and absolute ones for absolute ones, an accepted path is
  -- what the given one resolves to, and goes through all elements of the directory that one of the
  -- allowed roots resolves to, without an element `..`.
  pub mount-Inside :
      (host : Str) (allowed : List Str) (r : Str)
      → validate_mount_path eval_symlinks host allowed ≡ ok r
      → (eval_symlinks (clean_path host) ≡ some r)
        × ((root : Str) × Memᴰ root allowed
            × ((to : Str) × (eval_symlinks root ≡ some to) × Inside to r))
        × All Plain (elements r)
  mount-Inside host allowed r h =
      let (a, o, n) = accepted eval_symlinks host allowed r h in
      let (root, m, (to, e, u)) = any_root-Memᴰ eval_symlinks r allowed n in
      let abs_r = absolute (clean_path host) r a o in
      let clean_r = cleaned (clean_path host) r o in
      let clean_to = cleaned root to e in
      let u' : under_root (clean_path r) (clean_path to) ≡ true = cc (u, clean_r, clean_to) in
      let (d, i) = within to r (root_abs r to abs_r clean_to u) u' in
      (o, (root, m, (to, e, subst (Inside to) clean_r i)), elements-Plain r abs_r)
