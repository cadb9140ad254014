-- ===== src/Children/Siblings.antt =====
-- internal/sandbox/children.go, `previousJobVolumes`: the mounts of the earlier siblings.
use mathlib.Core.List.{Permᴰ}
use demesne.Base.{
  ◌≡◌, refl, ◌∙◌, ap, Bool, true, List, [], ◌∷◌, ◌++◌, map, Str, codes, Map, lookup, str_Eq,
  sort_strings, sort_strings-Permᴰ,
}
use demesne.Children.{previous_job_names, Volume, host_of, volumes_for, previous_job_volumes}

volumes_for-same :
    (names : List Str) (a b : Map Str Str)
    → ((k : Str) → lookup k a ≡ lookup k b)
    → volumes_for names a ≡ volumes_for names b
volumes_for-same [] a b h = refl
volumes_for-same (n ∷ ns) a b h = cc (h n, volumes_for-same ns a b h)

-- A mount, and the one that a name is to have.
abbrev pub mount_of : Volume → Str × Str × Bool
mount_of v = (v.mount_path, v.host_path, v.read_only)

abbrev pub mount_for : Map Str Str → Str → Str × Str × Bool
mount_for a n = (codes "/in/previous-jobs/" ++ n, host_of (lookup n a), true)

-- Two maps with the same entries, iterated in different orders, give the same list of names and the
-- same list of mounts; the mounts are those of the names, in their order, each read-only, of the
-- directory recorded for the name.
pub volumes_order :
    (a b : Map Str Str)
    → Permᴰ (map (λ e. e.0) a) (map (λ e. e.0) b)
    → ((k : Str) → lookup k a ≡ lookup k b)
    → (previous_job_names a ≡ previous_job_names b)
      × (previous_job_volumes a ≡ previous_job_volumes b)
      × (map mount_of (previous_job_volumes a) ≡ map (mount_for a) (previous_job_names a))
unfolding previous_job_volumes previous_job_names
volumes_order a b p h =
    let names = sort_strings-Permᴰ p in
    (
      names,
      ap (λ ns. volumes_for ns a) names ∙ volumes_for-same (sort_strings (map (λ e. e.0) b)) a b h,
      mounts (sort_strings (map (λ e. e.0) a)),
    )
  where
    mounts : (ns : List Str) → map mount_of (volumes_for ns a) ≡ map (mount_for a) ns
    mounts [] = refl
    mounts (n ∷ ns) = ap (λ x. mount_for a n ∷ x) (mounts ns)

-- No siblings, no mounts.
pub previous_job_volumes_none : previous_job_volumes [] ≡ []
unfolding previous_job_volumes previous_job_names sort_strings
previous_job_volumes_none = refl
