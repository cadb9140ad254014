-- ===== src/Base/Paths.antt =====
-- What the code uses of Go's `path/filepath` on Unix: Clean, Join of several elements, Base, Ext, IsAbs
-- and Rel, over the elements of a path.
pub mod Inside
use Prim.Native.Nat.{ℕ, zero, suc}
use mathlib.Core.Path.{◌≡◌, refl, sym, ◌∙◌, ap, subst}
use mathlib.Core.Logic.{◌≢◌, inl, inr}
use mathlib.Core.Bool.{Bool, true, false, not, ◌&&◌, ◌||◌}
use mathlib.Core.Option.{Option, none, some}
use mathlib.Core.List.{List, [], ◌∷◌, ◌++◌, append-nil}
use native.Mathlib.Omega.{arith}
use demesne.Base.Tests.{◌==◌, if◌then◌else◌, Bool-cases}
use demesne.Base.Lists.{All}
use demesne.Base.Classes.{Str, codes, str_eq, str_eq_iff}
use demesne.Base.Bytes.{
  has_prefix, is_empty, index_byte, index_byte-append, trim_left, split_on, split_on-part,
  split_on-last,
}
use demesne.Base.Spaces.{reverse_onto}
use demesne.Base.Ordering.{join, filter_by}

abbrev pub is_abs : Str → Bool
is_abs [] = false
is_abs (c ∷ s) = c == 47

abbrev pub dot_dot : Str
dot_dot = codes ".."

-- What `..` does to the elements so far, the last one first.
abbrev pub pop : Bool → List Str → List Str
pop true [] = []
pop false [] = dot_dot ∷ []
pop abs (e ∷ es) = if str_eq e dot_dot then dot_dot ∷ e ∷ es else es

abbrev pub push : Bool → Str → List Str → List Str
push abs e es =
    if is_empty e || str_eq e (codes ".")
    then es
    else if str_eq e dot_dot
    then pop abs es
    else e ∷ es

abbrev pub push_all : Bool → List Str → List Str → List Str
push_all abs es [] = es
push_all abs es (e ∷ rest) = push_all abs (push abs e es) rest

abbrev pub reverse_strs : List Str → List Str → List Str
reverse_strs acc [] = acc
reverse_strs acc (s ∷ ss) = reverse_strs (s ∷ acc) ss

-- The elements of the cleaned path.
unfoldable pub elements : Str → List Str
elements p = reverse_strs [] (push_all (is_abs p) [] (split_on 47 [] p))

abbrev pub render : Bool → List Str → Str
render true es = 47 ∷ join (codes "/") es
render false [] = codes "."
render false (e ∷ es) = join (codes "/") (e ∷ es)

-- `filepath.Clean(p)`
unfoldable pub clean_path : Str → Str
clean_path p = render (is_abs p) (elements p)

-- `filepath.Join(parts...)`
unfoldable pub join_path : List Str → Str
join_path parts =
    let given = filter_by (λ s. not (is_empty s)) parts in
    if is_empty given then [] else clean_path (join (codes "/") given)

-- A text up to a byte.
abbrev pub up_to : ℕ → Str → Str
up_to b [] = []
up_to b (c ∷ s) = let rest = up_to b s in if c == b then [] else c ∷ rest

-- `filepath.Base(p)`
unfoldable pub base_name : Str → Str
base_name [] = codes "."
base_name (c ∷ p) =
    let back = trim_left (λ d. d == 47) (reverse_onto [] (c ∷ p)) in
    if is_empty back then codes "/" else reverse_onto [] (up_to 47 back)

-- The extension of a path that is given reversed, `ext` being what came after.
abbrev pub ext_of : Str → Str → Str
ext_of ext [] = []
ext_of ext (c ∷ s) =
    let more = ext_of (c ∷ ext) s in if c == 47 then [] else if c == 46 then c ∷ ext else more

-- `filepath.Ext(p)`
unfoldable pub ext_name : Str → Str
ext_name p = ext_of [] (reverse_onto [] p)

abbrev pub ups : List Str → List Str → List Str
ups [] rest = rest
ups (e ∷ es) rest = dot_dot ∷ ups es rest

abbrev pub rel_rest : List Str → List Str → Option (List Str)
rel_rest [] targ = some targ
rel_rest (b ∷ bs) targ = if str_eq b dot_dot then none else some (ups (b ∷ bs) targ)

abbrev pub rel_elements : List Str → List Str → Option (List Str)
rel_elements [] targ = rel_rest [] targ
rel_elements (b ∷ bs) [] = rel_rest (b ∷ bs) []
rel_elements (b ∷ bs) (t ∷ ts) =
    let rest = rel_elements bs ts in if str_eq b t then rest else rel_rest (b ∷ bs) (t ∷ ts)

-- `filepath.Rel(base, targ)`, `none` for an error.
unfoldable pub rel : Str → Str → Option Str
rel base targ =
    let out = rel_elements (elements base) (elements targ) in
    if is_abs base && is_abs targ || not (is_abs base || is_abs targ)
    then elim out [ none ↦ none | some es ↦ some (render false es) ]
    else none

-- An element of a cleaned path that begins with a slash.
abbrev pub Plain : Str → Type 0
Plain e =
    (index_byte 47 e ≡ none)
    × ((is_empty e || str_eq e (codes ".")) ≡ false)
    × (str_eq e dot_dot ≡ false)

abbrev pub NoSlash : Str → Type 0
NoSlash e = index_byte 47 e ≡ none

pub split_on-NoSlash : (cur s : Str) → NoSlash cur → All NoSlash (split_on 47 cur s)
unfolding split_on index_byte
split_on-NoSlash cur [] h = (h, tt)
split_on-NoSlash cur (c ∷ s) h = elim (Bool-cases (c == 47)) [
  | inl e ↦ rw (e, split_on) (h, split_on-NoSlash [] s refl)
  | inr e ↦
      rw (e, split_on)
        (split_on-NoSlash (cur ++ c ∷ []) s
          (index_byte-append 47 cur (c ∷ []) h (ground (arith, e))))
]

pop-Plain : (es : List Str) → All Plain es → All Plain (pop true es)
pop-Plain [] h = tt
pop-Plain (e ∷ es) h = rw (h.0.2) (h.1)

push-Plain : (e : Str) (es : List Str) → NoSlash e → All Plain es → All Plain (push true e es)
push-Plain e es h all = elim (Bool-cases (is_empty e || str_eq e (codes "."))) [
  | inl a ↦ rw a all
  | inr a ↦ elim (Bool-cases (str_eq e dot_dot)) [
    | inl b ↦ rw (a, b) (pop-Plain es all)
    | inr b ↦ rw (a, b) ((h, a, b), all)
  ]
]

pub reverse_strs-All :
    (P : Str → Type 0) (acc es : List Str) → All P acc → All P es → All P (reverse_strs acc es)
reverse_strs-All P acc [] h k = h
reverse_strs-All P acc (e ∷ es) h k = reverse_strs-All P (e ∷ acc) es (k.0, h) k.1

push_all-Plain :
    (es rest : List Str) → All NoSlash rest → All Plain es → All Plain (push_all true es rest)
push_all-Plain es [] h k = k
push_all-Plain es (e ∷ rest) h k = push_all-Plain (push true e es) rest h.1 (push-Plain e es h.0 k)

pub elements-Plain : (p : Str) → is_abs p ≡ true → All Plain (elements p)
unfolding elements index_byte
elements-Plain p h = rw h (
    reverse_strs-All Plain [] (push_all true [] (split_on 47 [] p)) tt
      (push_all-Plain [] (split_on 47 [] p) (split_on-NoSlash [] p refl) tt))

-- Elements without a slash are read back from the text that joins them.
split_on-join :
    (e : Str) (es : List Str)
    → All NoSlash (e ∷ es)
    → split_on 47 [] (join (codes "/") (e ∷ es)) ≡ e ∷ es
unfolding join
split_on-join e [] h = split_on-last 47 [] e h.0
split_on-join e (f ∷ es) h =
    split_on-part 47 [] e (join (codes "/") (f ∷ es)) h.0 ∙ ap (λ x. e ∷ x) (split_on-join f es h.1)

Plain-NoSlash : (es : List Str) → All Plain es → All NoSlash es
Plain-NoSlash [] h = tt
Plain-NoSlash (e ∷ es) h = (h.0.0, Plain-NoSlash es h.1)

-- Cleaning a list of plain elements changes nothing.
push_all-id : (es rest : List Str) → All Plain rest → push_all true es rest ≡ reverse_strs es rest
push_all-id es [] h = refl
push_all-id es (e ∷ rest) h = rw (h.0.1, h.0.2) (push_all-id (e ∷ es) rest h.1)

reverse_strs_twice :
    (a es b : List Str) → reverse_strs a (reverse_strs b es) ≡ reverse_strs (es ++ a) b
reverse_strs_twice a [] b = refl
reverse_strs_twice a (e ∷ es) b = reverse_strs_twice a es (e ∷ b)

-- What a path of plain elements splits into.
abbrev pub parts : List Str → List Str
parts [] = [] ∷ []
parts (e ∷ es) = e ∷ es

pub split_on-render :
    (es : List Str) → All Plain es → split_on 47 [] (render true es) ≡ [] ∷ parts es
unfolding split_on join
split_on-render [] h = refl
split_on-render (e ∷ es) h = ap (λ x. [] ∷ x) (split_on-join e es (Plain-NoSlash (e ∷ es) h))

-- Plain elements are the elements of the path they make.
pub elements-render : (es : List Str) → All Plain es → elements (render true es) ≡ es
unfolding elements join split_on
elements-render [] h = refl
elements-render (e ∷ es) h =
    ap (λ x. reverse_strs [] (push_all true [] x)) (split_on-join e es (Plain-NoSlash (e ∷ es) h))
    ∙ ap (reverse_strs []) (push_all-id [] (e ∷ es) h)
    ∙ reverse_strs_twice [] (e ∷ es) []
    ∙ append-nil (e ∷ es)

pub elements-clean_path : (p : Str) → is_abs p ≡ true → elements (clean_path p) ≡ elements p
unfolding clean_path
elements-clean_path p h = rw h (elements-render (elements p) (elements-Plain p h))
