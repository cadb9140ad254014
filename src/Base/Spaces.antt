-- ===== src/Base/Spaces.antt =====
-- `strings.TrimSpace` and `unicode.IsSpace`, over the bytes of UTF-8.
use Prim.Native.Nat.{ℕ, zero, suc}
use mathlib.Core.Bool.{Bool, ◌&&◌, ◌||◌}
use mathlib.Core.List.{List, ◌++◌, [], ◌∷◌}
use demesne.Base.Tests.{◌==◌, leb, if◌then◌else◌}
use demesne.Base.Lists.{length, drop}
use demesne.Base.Classes.{Str}

abbrev pub is_ascii_space : ℕ → Bool
is_ascii_space c = leb 9 c && leb c 13 || c == 32

-- The second and third bytes of the spaces that take three, U+1680 to U+3000.
abbrev pub is_wide_space : ℕ → ℕ → ℕ → Bool
is_wide_space a b c =
    a == 225 && b == 154 && c == 128
    || a == 226 && b == 128 && (leb 128 c && leb c 138 || c == 168 || c == 169 || c == 175)
    || a == 226 && b == 129 && c == 159
    || a == 227 && b == 128 && c == 128

-- The width of the space that a text begins with, 0 where it begins with none.
abbrev pub space_width : Str → ℕ
space_width [] = 0
space_width (a ∷ []) = if is_ascii_space a then 1 else 0
space_width (a ∷ b ∷ []) =
    if is_ascii_space a then 1 else if a == 194 && (b == 133 || b == 160) then 2 else 0
space_width (a ∷ b ∷ c ∷ s) =
    if is_ascii_space a
    then 1
    else if a == 194 && (b == 133 || b == 160)
    then 2
    else if is_wide_space a b c
    then 3
    else 0

-- The same from the end of a text, which is given reversed.
abbrev pub last_space_width : Str → ℕ
last_space_width [] = 0
last_space_width (a ∷ []) = if is_ascii_space a then 1 else 0
last_space_width (b ∷ a ∷ []) =
    if is_ascii_space b then 1 else if a == 194 && (b == 133 || b == 160) then 2 else 0
last_space_width (c ∷ b ∷ a ∷ s) =
    if is_ascii_space c
    then 1
    else if b == 194 && (c == 133 || c == 160)
    then 2
    else if is_wide_space a b c
    then 3
    else 0

-- One unit of fuel is one space.
abbrev pub trim_spaces : (Str → ℕ) → ℕ → Str → Str
trim_spaces width zero s = s
trim_spaces width (suc f) s =
    let rest = trim_spaces width f (drop (width s) s) in if width s == 0 then s else rest

abbrev pub reverse_onto : Str → Str → Str
reverse_onto acc [] = acc
reverse_onto acc (c ∷ s) = reverse_onto (c ∷ acc) s

unfoldable pub trim_space : Str → Str
trim_space s =
    let left = trim_spaces space_width (length s) s in
    let right = trim_spaces last_space_width (length left) (reverse_onto [] left) in
    reverse_onto [] right

-- `strings.Fields`: `word` is the word so far; one unit of fuel is one byte or one space.
abbrev pub emit : Str → List Str → List Str
emit [] rest = rest
emit (c ∷ w) rest = (c ∷ w) ∷ rest

abbrev pub fields_of : ℕ → Str → Str → List Str
fields_of zero word s = emit word []
fields_of (suc f) word [] = emit word []
fields_of (suc f) word (c ∷ s) =
    let next = fields_of f [] (drop (space_width (c ∷ s)) (c ∷ s)) in
    let more = fields_of f (word ++ c ∷ []) s in
    if space_width (c ∷ s) == 0 then more else emit word next

unfoldable pub fields : Str → List Str
fields s = fields_of (length s) [] s
