-- ===== src/Settings/Loaded.antt =====
-- `LoadConfigFromEnv` of internal/sandbox/config.go: what loaded settings promise the runner.
use mathlib.Core.List.{Memᴰ}
use demesne.Base.{
  ◌≡◌, refl, subst, inl, inr, Bool, true, false, Bool-cases, Option, List, [], ◌∷◌, ◌++◌, Str,
  codes, str_eq, str_eq_iff, is_empty, clean_path, ok, ◌>>=◌, bind_inversion, arith,
}
use demesne.Mounts.{present, with_output_root}
use demesne.Settings.{
  Settings, env_bool_or_true, paths_given, settings_of, check_required, load_config_from_env,
}

last-Memᴰ : (root : Str) (ps : List Str) → Memᴰ root (ps ++ root ∷ [])
last-Memᴰ root [] = Memᴰ.head refl
last-Memᴰ root (p ∷ ps) = Memᴰ.tail (last-Memᴰ root ps)

present-Memᴰ :
    (root : Str) (ps : List Str)
    → present root ps ≡ true
    → (p : Str) × Memᴰ p ps × (clean_path p ≡ clean_path root)
present-Memᴰ root [] h = absurd (ground (arith, h))
present-Memᴰ root (p ∷ ps) h = elim (Bool-cases (str_eq (clean_path p) (clean_path root))) [
  | inl e ↦ (p, Memᴰ.head refl, (str_eq_iff (clean_path p) (clean_path root)).0 e)
  | inr e ↦ let (q, m, same) = present-Memᴰ root ps (ground (arith, h, e)) in (q, Memᴰ.tail m, same)
]

with_output_root-Memᴰ :
    (root : Str) (ps : List Str)
    → (p : Str) × Memᴰ p (with_output_root root ps) × (clean_path p ≡ clean_path root)
unfolding with_output_root
with_output_root-Memᴰ root ps = elim (Bool-cases (present root ps)) [
  | inl e ↦
      let (p, m, same) = present-Memᴰ root ps e in
      let eq : ps ≡ with_output_root root ps = cc e in (p, subst (Memᴰ p) eq m, same)
  | inr e ↦
      let eq : ps ++ root ∷ [] ≡ with_output_root root ps = cc e in
      (root, subst (Memᴰ root) eq (last-Memᴰ root ps), refl)
]

-- What settings are checked for: some allowed path cleans to the same path as the output root, that
-- root can be made, and the lifecycle server is named with its key.
abbrev pub Usable : (Str → Bool) → Settings → Type 0
Usable make_dir s =
    ((p : Str) × Memᴰ p s.allowed_paths × (clean_path p ≡ clean_path s.output_root))
    × (make_dir s.output_root ≡ true)
    × (is_empty s.open_sandbox_domain ≡ false)
    × (is_empty s.open_sandbox_api_key ≡ false)

module _ (env : Str → Option Str) (home : Option Str) (make_dir : Str → Bool) where
  check_required-same :
      (s t : Settings)
      → check_required env home make_dir s ≡ ok t
      → (s ≡ t)
        × (make_dir s.output_root ≡ true)
        × (is_empty s.open_sandbox_domain ≡ false)
        × (is_empty s.open_sandbox_api_key ≡ false)
  check_required-same s t h = elim (Bool-cases (is_empty s.open_sandbox_domain)) [
    | inl a ↦ absurd (ground (arith, h, a))
    | inr a ↦ elim (Bool-cases (is_empty s.open_sandbox_api_key)) [
      | inl b ↦ absurd (ground (arith, h, a, b))
      | inr b ↦ elim (Bool-cases (make_dir s.output_root)) [
        | inl c ↦ (ground (arith, h, a, b, c), c, a, b)
        | inr c ↦ absurd (ground (arith, h, a, b, c))
      ]
    ]
  ]

  -- Of settings that are loaded: whatever paths are configured, some allowed path cleans to the same
  -- path as the output root; making the output root as a directory succeeded; and neither the domain
  -- of the lifecycle server nor its key is empty.
  pub loaded-Usable :
      (s : Settings) → load_config_from_env env home make_dir ≡ ok s → Usable make_dir s
  unfolding load_config_from_env
  loaded-Usable s h =
      let (codex, e1, h1) =
        bind_inversion (env_bool_or_true env home make_dir (codes "DEMESNE_CODEX_ENABLED"))
          (λ codex.
            env_bool_or_true env home make_dir (codes "DEMESNE_CLAUDE_CODE_ENABLED")
            >>= (λ claude_code. paths_given env home make_dir >>= (λ paths.
                check_required env home make_dir
                  (settings_of env home make_dir codex claude_code paths))))
          h in
      let (claude_code, e2, h2) =
        bind_inversion (env_bool_or_true env home make_dir (codes "DEMESNE_CLAUDE_CODE_ENABLED"))
          (λ claude_code. paths_given env home make_dir >>= (λ paths.
            check_required env home make_dir
              (settings_of env home make_dir codex claude_code paths)))
          h1 in
      let (paths, e3, h3) =
        bind_inversion (paths_given env home make_dir)
          (λ paths.
            check_required env home make_dir
              (settings_of env home make_dir codex claude_code paths))
          h2 in
      let (same, made, domain, key) =
        check_required-same (settings_of env home make_dir codex claude_code paths) s h3 in
      subst (Usable make_dir) same (
        with_output_root-Memᴰ (settings_of env home make_dir codex claude_code paths).output_root
            paths,
        made,
        domain,
        key,
      )
