-- ===== src/Base/Sorting.antt =====
-- `sort.Strings`: the bytewise order of Go's strings, and that the sorted list does not depend on the
-- order of its input.
use mathlib.Core.Path.{◌≡◌, refl, ◌∙◌}
use mathlib.Core.Bool.{Bool, true, false, ◌&&◌, ◌||◌}
use mathlib.Core.List.{List, [], ◌∷◌, Permᴰ}
use native.Mathlib.Omega.{arith}
use demesne.Base.Tests.{ltb, ◌==◌, if◌then◌else◌}
use demesne.Base.Classes.{Str}

-- `s <= t`
unfoldable pub str_le : Str → Str → Bool
str_le [] t = true
str_le (a ∷ s) [] = false
str_le (a ∷ s) (b ∷ t) = ltb a b || (a == b && str_le s t)

pub str_le_total : (s t : Str) → str_le s t ≡ false → str_le t s ≡ true
unfolding str_le
str_le_total [] t h = absurd (ground arith)
str_le_total (a ∷ s) [] h = refl
str_le_total (a ∷ s) (b ∷ t) h = ground (arith, str_le_total s t)

pub str_le_antisym : (s t : Str) → str_le s t ≡ true → str_le t s ≡ true → s ≡ t
unfolding str_le
str_le_antisym [] [] h k = refl
str_le_antisym [] (b ∷ t) h k = absurd (ground arith)
str_le_antisym (a ∷ s) [] h k = absurd (ground arith)
str_le_antisym (a ∷ s) (b ∷ t) h k = ground (arith, str_le_antisym s t)

pub str_le_trans : (r s t : Str) → str_le r s ≡ true → str_le s t ≡ true → str_le r t ≡ true
unfolding str_le
str_le_trans [] s t h k = refl
str_le_trans (a ∷ r) [] t h k = absurd (ground arith)
str_le_trans (a ∷ r) (b ∷ s) [] h k = absurd (ground arith)
str_le_trans (a ∷ r) (b ∷ s) (c ∷ t) h k = ground (arith, str_le_trans r s t)

unfoldable pub insert_sorted : Str → List Str → List Str
insert_sorted s [] = s ∷ []
insert_sorted s (t ∷ ts) =
    let rest = insert_sorted s ts in if str_le s t then s ∷ t ∷ ts else t ∷ rest

unfoldable pub sort_strings : List Str → List Str
sort_strings [] = []
sort_strings (s ∷ ts) = insert_sorted s (sort_strings ts)

insert_sorted_comm :
    (r s : Str) (ts : List Str)
    → insert_sorted r (insert_sorted s ts) ≡ insert_sorted s (insert_sorted r ts)
unfolding insert_sorted
insert_sorted_comm r s [] = ground (arith, str_le_total r s, str_le_total s r, str_le_antisym r s)
insert_sorted_comm r s (t ∷ ts) = ground (
  arith,
  str_le_total r s,
  str_le_total s r,
  str_le_antisym r s,
  str_le_total r t,
  str_le_total s t,
  str_le_trans r s t,
  str_le_trans s r t,
  insert_sorted_comm r s ts,
)

pub sort_strings-Permᴰ : {xs ys : List Str} → Permᴰ xs ys → sort_strings xs ≡ sort_strings ys
unfolding sort_strings
sort_strings-Permᴰ Permᴰ.nil = refl
sort_strings-Permᴰ (Permᴰ.cons e p) = cc (sort_strings-Permᴰ p)
sort_strings-Permᴰ (Permᴰ.swap {a} {b} {l} e₁ e₂) = cc (insert_sorted_comm a b (sort_strings l))
sort_strings-Permᴰ (Permᴰ.trans p q) = sort_strings-Permᴰ p ∙ sort_strings-Permᴰ q
