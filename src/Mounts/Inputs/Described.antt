-- ===== src/Mounts/Inputs/Described.antt =====
-- `describeInputs` of internal/sandbox/agent.go and `resolveMounts` of internal/sandbox/runner.go:
-- an agent is told of the inputs that it has.
use demesne.Base.{
  ◌≡◌, refl, sym, ◌∙◌, ap, subst, inl, inr, ℕ, Bool, true, false, not, ◌&&◌, Bool-cases, Option,
  none, some, List, [], ◌∷◌, ◌++◌, map, length, Str, codes, base_name, ok, ◌>>=◌, bind_inversion,
  arith,
}
use demesne.Children.{Volume}
use demesne.Mounts.{validate_mount_path}
use demesne.Mounts.Inputs.{
  FileKind, is_dir, is_regular, Mounted, nothing_mounted, volume_of, check_kind, refuse, add_input,
  add_inputs, resolve_mounts, InputInfo, info_of, describe_kind, describe_each, describe_inputs,
}
use demesne.Mounts.Inputs.Apart.{check_kind-added, add_base-free}

map-append :
    {A B : Type 0} (f : A → B) (xs : List A) (y : A) → map f (xs ++ y ∷ []) ≡ map f xs ++ f y ∷ []
map-append f [] y = refl
map-append f (x ∷ xs) y = ap (λ l. f x ∷ l) (map-append f xs y)

module _ (eval_symlinks : Str → Option Str) (stat : Str → Option FileKind) (size_of : Str → ℕ)
    (allowed : List Str) where
  -- The volumes lie below /in at the names that are told.
  abbrev pub Told : List Volume → List InputInfo → Type 0
  Told vs out = map (λ v. v.mount_path) vs ≡ map (λ i. codes "/in/" ++ i.basename) out

  check_kind-described :
      (wants_dir : Bool) (host : Str) (kind : Option FileKind) (resolved : Str) (m n : Mounted)
      (out : List InputInfo)
      → check_kind wants_dir host kind resolved m ≡ ok n
      → describe_kind eval_symlinks stat size_of allowed wants_dir host kind resolved out
        ≡ ok (out ++ info_of eval_symlinks stat size_of allowed wants_dir resolved ∷ [])
  check_kind-described wants_dir host none resolved m n out h = cc h
  check_kind-described wants_dir host (some kind) resolved m n out h =
      elim (Bool-cases (wants_dir && not (is_dir kind))) [
        | inl a ↦ absurd (ground (arith, h, a))
        | inr a ↦ elim (Bool-cases (not wants_dir && not (is_regular kind))) [
          | inl b ↦ absurd (ground (arith, h, a, b))
          | inr b ↦ rw (a, b) refl
        ]
      ]

  -- Where the outcome of a step is `r`, the rest goes on from it.
  Goes : Bool → List Str → Mounted → List InputInfo → Type 0
  Goes wants_dir hosts n out =
      (told : List InputInfo) × (describe_each eval_symlinks stat size_of allowed wants_dir hosts
          out
        ≡ ok told)
      × Told n.volumes told

  each-Told :
      (wants_dir : Bool) (hosts : List Str) (m n : Mounted) (out : List InputInfo)
      → add_inputs eval_symlinks stat allowed wants_dir hosts m ≡ ok n
      → Told m.volumes out
      → Goes wants_dir hosts n out
  unfolding Goes add_inputs describe_each
  each-Told wants_dir [] m n out h t =
      let same : m ≡ n = cc h in (out, refl, subst (λ k. Told k.volumes out) same t)
  each-Told wants_dir (host ∷ hosts) m n out h t =
      let (mid, one, rest) =
        bind_inversion (add_input eval_symlinks stat allowed wants_dir host m)
          (add_inputs eval_symlinks stat allowed wants_dir hosts) h in
      let (resolved, valid, checked) =
        bind_inversion (refuse (validate_mount_path eval_symlinks host allowed))
          (λ resolved. check_kind wants_dir host (stat resolved) resolved m) one in
      let described =
        check_kind-described wants_dir host (stat resolved) resolved m mid out checked in
      let (free, same) =
        add_base-free resolved m mid
          (check_kind-added wants_dir host (stat resolved) resolved m mid checked) in
      let i = info_of eval_symlinks stat size_of allowed wants_dir resolved in
      let v = volume_of (length m.volumes) resolved in
      let told : Told (m.volumes ++ v ∷ []) (out ++ i ∷ []) =
        map-append (λ v. v.mount_path) m.volumes v
        ∙ ap (λ l. l ++ (codes "/in/" ++ base_name resolved) ∷ []) t
        ∙ sym (map-append (λ i. codes "/in/" ++ i.basename) out i) in
      let (all, e, u) =
        each-Told wants_dir hosts mid n (out ++ i ∷ []) rest
          (subst (λ k. Told k.volumes (out ++ i ∷ [])) same told) in
      (
        all,
        ap
              (λ r.
                r
                >>= (λ x.
                    describe_kind eval_symlinks stat size_of allowed wants_dir host (stat x) x out)
                >>= describe_each eval_symlinks stat size_of allowed wants_dir hosts)
              valid
            ∙ ap (λ r. r >>= describe_each eval_symlinks stat size_of allowed wants_dir hosts)
                described
            ∙ e,
        u,
      )

  -- Inputs that can be mounted are described, each with the name that it has below /in, in order.
  pub mounted-Told :
      (files directories : List Str) (vs : List Volume)
      → resolve_mounts eval_symlinks stat allowed files directories ≡ ok vs
      → (out : List InputInfo) × (describe_inputs eval_symlinks stat size_of allowed files
            directories
          ≡ ok out)
        × Told vs out
  unfolding resolve_mounts describe_inputs Goes
  mounted-Told files directories vs h =
      let (m, filled, out) =
        bind_inversion
          (add_inputs eval_symlinks stat allowed false files nothing_mounted
            >>= add_inputs eval_symlinks stat allowed true directories)
          (λ m. ok m.volumes) h in
      let (mid, one, two) =
        bind_inversion (add_inputs eval_symlinks stat allowed false files nothing_mounted)
          (add_inputs eval_symlinks stat allowed true directories) filled in
      let (first, e, t) = each-Told false files nothing_mounted mid [] one refl in
      let (all, f, u) = each-Told true directories mid m first two t in
      (
        all,
        ap (λ r. r >>= describe_each eval_symlinks stat size_of allowed true directories) e ∙ f,
        subst (λ k. Told k all) (cc out) u,
      )
