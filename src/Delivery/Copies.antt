-- ===== src/Delivery/Copies.antt =====
-- internal/sandbox/filedelivery.go, `Deliver`: no copy overwrites another, and every file is mapped.
use demesne.Base.{
  ◌≡◌, ◌≢◌, ◌⊎◌, some, Bool, true, false, List, [], ◌∷◌, Str, lookup, str_Eq, is_some, join_path,
  base_name, All,
}
use mathlib.Core.List.{Memᴰ}
use demesne.Delivery.{already_under, Delivery, with_copy, keep_in_place, sandbox_generated_dir}

-- No two copies have the same name.
abbrev pub Separate : List (Str × Str) → Type 0
Separate [] = Unit
Separate (c ∷ cs) = All (λ d. d.1 ≢ c.1) cs × Separate cs

abbrev Recorded : Delivery → Type 0
Recorded d = Separate d.copied × All (λ c. is_some (lookup c.1 d.used) ≡ true) d.copied

module _ (copy : Str → Str → Bool) (host_dir : Str) where
  -- What one source can lead to.
  data Outcome (src : Str) (d e : Delivery) : Type 0 where
    before : is_some (lookup src d.out) ≡ true → d ≡ e → Outcome src d e
    in_place :
        already_under src host_dir ≡ true → keep_in_place copy host_dir src d ≡ e → Outcome src d e
    copied_as :
        (base : Str)
        → is_some (lookup base d.used) ≡ false
        → copy src (join_path (host_dir ∷ base ∷ [])) ≡ true
        → with_copy copy host_dir src d base ≡ e
        → Outcome src d e

  Mapped : Str → Delivery → Type 0
  Mapped src d = is_some (lookup src d.out) ≡ true

  -- Where a source is in the sandbox: under its own base name where it lies in the delivery
  -- directory already, and else under the name that its copy has.
  abbrev pub Placed : Str → Delivery → Type 0
  Placed src d =
      (name : Str) × (lookup src d.out ≡ some (join_path (sandbox_generated_dir ∷ name ∷ [])))
      × ((already_under src host_dir ≡ true) × (name ≡ base_name src)
          ⊎ (copy src (join_path (host_dir ∷ name ∷ [])) ≡ true) × Memᴰ (src, name) d.copied)

  AllPlaced : Delivery → Type 0
  AllPlaced d = (x : Str) → is_some (lookup x d.out) ≡ true → Placed x d
