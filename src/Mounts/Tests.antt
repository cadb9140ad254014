-- ===== src/Mounts/Tests.antt =====
-- Mounts on concrete paths, with one symbolic link.
use mathlib.Core.List.{Memᴰ}
use demesne.Base.{
  ◌≡◌, refl, subst, true, inl, inr, Bool-cases, Option, none, some, List, base_name, trim_left,
  insert, lookup, decimal, [], ◌∷◌, if◌then◌else◌, Str, codes, str_eq, has_prefix, is_abs,
  clean_path, elements, split_on, join, All, trim_space, ok, err, arith,
}
use demesne.Mounts.{
  validate_mount_path, any_root, not_allowed, allowed_paths_from_env, with_output_root,
}
use demesne.Children.{Volume}
use demesne.Mounts.Allowed.{below_accepted}
use demesne.Mounts.Inputs.{
  FileKind, regular, directory, collides, volume_of, add_inputs, resolve_mounts, InputInfo,
  describe_inputs,
}
use demesne.Mounts.Inputs.Described.{Told, mounted-Told}
use demesne.Mounts.Inputs.Apart.{Distinct, Confined, inputs-Confined}

-- `/l` is a link to `/d/x`; two more paths exist.
abbrev pub links : Str → Option Str
links p =
    if str_eq p (codes "/l")
    then some (codes "/d/x")
    else if str_eq p (codes "/d")
    then some (codes "/d")
    else if str_eq p (codes "/dx")
    then some (codes "/dx")
    else none

links-cases :
    (P : Str → Type 0)
    → P (codes "/d/x")
    → P (codes "/d")
    → P (codes "/dx")
    → (p q : Str) → links p ≡ some q
    → P q
links-cases P a b c p q e = elim (Bool-cases (str_eq p (codes "/l"))) [
  | inl h ↦ let same : codes "/d/x" ≡ q = ground (arith, e, h) in subst P same a
  | inr h ↦ elim (Bool-cases (str_eq p (codes "/d"))) [
    | inl k ↦ let same : codes "/d" ≡ q = ground (arith, e, h, k) in subst P same b
    | inr k ↦ elim (Bool-cases (str_eq p (codes "/dx"))) [
      | inl l ↦ let same : codes "/dx" ≡ q = ground (arith, e, h, k, l) in subst P same c
      | inr l ↦ absurd (ground (arith, e, h, k, l))
    ]
  ]
]

pub links_cleaned : (p q : Str) → links p ≡ some q → clean_path q ≡ q
unfolding clean_path elements split_on join str_eq
links_cleaned p q e = links-cases (λ x. clean_path x ≡ x) refl refl refl p q e

pub links_absolute : (p q : Str) → is_abs p ≡ true → links p ≡ some q → is_abs q ≡ true
links_absolute p q a e = links-cases (λ x. is_abs x ≡ true) refl refl refl p q e

below_accepted_example :
    validate_mount_path links (codes "/l") (codes "/gone" ∷ codes "/d" ∷ []) ≡ ok (codes "/d/x")
unfolding clean_path elements split_on join str_eq has_prefix
below_accepted_example =
    below_accepted links (codes "/l") (codes "/gone" ∷ codes "/d" ∷ []) (codes "/d/x") (codes "/d")
      (codes "/d") refl refl refl (Memᴰ.tail (Memᴰ.head refl)) refl refl

sibling :
    validate_mount_path links (codes "/dx") (codes "/d" ∷ []) ≡ err (not_allowed (codes "/dx"))
unfolding validate_mount_path any_root clean_path elements split_on join str_eq has_prefix
sibling = refl

from_env : allowed_paths_from_env (codes " /a ::/b") ≡ ok (codes "/a" ∷ codes "/b" ∷ [])
unfolding allowed_paths_from_env split_on trim_space
from_env = refl

root_known : with_output_root (codes "/o/") (codes "/a/../o" ∷ []) ≡ codes "/a/../o" ∷ []
unfolding with_output_root clean_path elements split_on join str_eq
root_known = refl

abbrev kinds : Str → Option FileKind
kinds p = if str_eq p (codes "/d/x") then some regular else some directory

abbrev two_volumes : List Volume
two_volumes = volume_of 0 (codes "/d/x") ∷ volume_of 1 (codes "/d") ∷ []

two_mounted :
    resolve_mounts links kinds (codes "/d" ∷ []) (codes "/l" ∷ []) (codes "/d" ∷ [])
    ≡ ok two_volumes
unfolding resolve_mounts add_inputs validate_mount_path any_root clean_path elements split_on join
    str_eq has_prefix base_name insert lookup trim_left decimal
two_mounted = refl

inputs-Confined_example : Distinct two_volumes × All (Confined links (codes "/d" ∷ [])) two_volumes
inputs-Confined_example =
    inputs-Confined links kinds links_cleaned links_absolute (codes "/d" ∷ []) (codes "/l" ∷ [])
      (codes "/d" ∷ []) two_volumes two_mounted

same_base :
    resolve_mounts links kinds (codes "/d" ∷ []) (codes "/l" ∷ codes "/d/../l" ∷ []) []
    ≡ err (collides (codes "x") (codes "/d/x") (codes "/d/x"))
unfolding resolve_mounts add_inputs validate_mount_path any_root clean_path elements split_on join
    str_eq has_prefix base_name insert lookup trim_left
same_base = refl

-- `describeInputs` of internal/sandbox/agent.go finds the two that are mounted.
mounted-Told_example :
    (out : List InputInfo) × (describe_inputs links kinds
        (λ p. 7)
        (codes "/d" ∷ [])
        (codes "/l" ∷ [])
        (codes "/d" ∷ [])
      ≡ ok out)
    × Told links kinds (λ p. 7) (codes "/d" ∷ []) two_volumes out
mounted-Told_example =
    mounted-Told links kinds (λ p. 7) (codes "/d" ∷ []) (codes "/l" ∷ []) (codes "/d" ∷ [])
      two_volumes two_mounted
