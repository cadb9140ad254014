-- ===== src/Base/Keys.antt =====
-- Maps with text keys that hold no key twice, as every Go map does.
use mathlib.Core.Path.{◌≡◌, refl, subst}
use mathlib.Core.Logic.{inl, inr}
use mathlib.Core.Option.{none}
use mathlib.Core.List.{[], ◌∷◌}
use native.Mathlib.Omega.{arith}
use demesne.Base.Tests.{Bool-cases}
use demesne.Base.Classes.{Str, str_eq, str_eq_iff, str_Eq}
use demesne.Base.Assoc.{Map, lookup, insert, lookup-insert}

abbrev pub DistinctKeys {ℓ} : {V : Type ℓ} → Map Str V → Type ℓ
DistinctKeys [] = Unit
DistinctKeys ((k, v) ∷ m) = (lookup k m ≡ none) × DistinctKeys m

pub DistinctKeys-insert {ℓ} :
    {V : Type ℓ} (k : Str) (v : V) (m : Map Str V) → DistinctKeys m → DistinctKeys (insert k v m)
unfolding insert lookup
DistinctKeys-insert k v [] h = (refl, tt)
DistinctKeys-insert k v ((j, w) ∷ m) h = elim (Bool-cases (str_eq j k)) [
  | inl e ↦ rw (e, insert) (subst (λ x. lookup x m ≡ none) ((str_eq_iff j k).0 e) h.0, h.1)
  | inr e ↦
      rw (e, insert)
        (
          ground (arith, lookup-insert k j v m, str_eq_iff k j, str_eq_iff j k),
          DistinctKeys-insert k v m h.1,
        )
]
