-- ===== src/Base/Paths/Inside.antt =====
-- Paths below a directory: a cleaned path that begins with the text of another goes through all of its
-- elements.
use mathlib.Core.Path.{◌≡◌, refl, sym, ◌∙◌, ap}
use mathlib.Core.Logic.{inl, inr}
use mathlib.Core.Bool.{true, false, ◌||◌}
use mathlib.Core.Option.{none}
use mathlib.Core.List.{List, [], ◌∷◌, ◌++◌, append_assoc, append-nil}
use native.Mathlib.Omega.{arith}
use demesne.Base.Tests.{◌==◌, Bool-cases}
use demesne.Base.Lists.{All}
use demesne.Base.Classes.{Str, codes, str_eq, str_eq_iff}
use demesne.Base.Bytes.{has_prefix, has_prefix_rest, is_empty, index_byte, split_on}
use demesne.Base.Ordering.{join}
use demesne.Base.Paths.{
  is_abs, elements, clean_path, render, Plain, parts, elements-Plain, elements-clean_path,
  split_on-render, push, pop, push_all, reverse_strs, reverse_strs-All, split_on-NoSlash, NoSlash,
  dot_dot,
}

split_on-middle :
    (cur s t : Str) → split_on 47 cur (s ++ 47 ∷ t) ≡ split_on 47 cur s ++ split_on 47 [] t
unfolding split_on
split_on-middle cur [] t = refl
split_on-middle cur (c ∷ s) t = elim (Bool-cases (c == 47)) [
  | inl e ↦ rw (e, split_on) (ap (λ x. cur ∷ x) (split_on-middle [] s t))
  | inr e ↦ rw (e, split_on) (split_on-middle (cur ++ c ∷ []) s t)
]

list_tail : {A : Type 0} {x y : A} {xs ys : List A} → x ∷ xs ≡ y ∷ ys → xs ≡ ys
list_tail h = cc h

below :
    (er ed : List Str) (t : Str)
    → All Plain er
    → All Plain ed
    → [] ∷ parts ed ≡ ([] ∷ parts er) ++ split_on 47 [] t
    → (rest : List Str) × (ed ≡ er ++ rest)
below [] ed t h k e = (ed, refl)
below (r ∷ er) [] t h k e = absurd (ground (arith, e, h.0.1))
below (r ∷ er) (d ∷ ed) t h k e = (split_on 47 [] t, list_tail e)

-- What is inside a directory, as its elements say.
abbrev pub Inside : Str → Str → Type 0
Inside root dir = (rest : List Str) × (elements dir ≡ elements root ++ rest)

pub prefix-Inside :
    (root dir : Str)
    → is_abs root ≡ true
    → is_abs dir ≡ true
    → has_prefix (clean_path dir) (clean_path root ++ 47 ∷ []) ≡ true
    → Inside root dir
unfolding clean_path
prefix-Inside root dir h k p =
    let er = elements root in
    let ed = elements dir in
    let hr = elements-Plain root h in
    let hd = elements-Plain dir k in
    let (t, e) = has_prefix_rest (clean_path dir) (clean_path root ++ 47 ∷ []) p in
    let e' : render true ed ≡ render true er ++ 47 ∷ t =
      ap (λ a. render a ed) (sym k)
      ∙ e
      ∙ append_assoc (clean_path root) (47 ∷ []) t
      ∙ ap (λ a. render a er ++ 47 ∷ t) h in
    below er ed t hr hd (
      sym (split_on-render ed hd)
      ∙ ap (split_on 47 []) e'
      ∙ split_on-middle [] (render true er) t
      ∙ ap (λ x. x ++ split_on 47 [] t) (split_on-render er hr))

-- An element of a cleaned path of either kind.
abbrev Proper : Str → Type 0
Proper e = (index_byte 47 e ≡ none) × ((is_empty e || str_eq e (codes ".")) ≡ false)

pop-Proper : (es : List Str) → All Proper es → All Proper (pop false es)
unfolding index_byte str_eq
pop-Proper [] h = ((refl, refl), tt)
pop-Proper (e ∷ es) h = elim (Bool-cases (str_eq e dot_dot)) [
  | inl b ↦ rw b ((refl, refl), h)
  | inr b ↦ rw b (h.1)
]

push-Proper :
    (e : Str) (es : List Str)
    → index_byte 47 e ≡ none
    → All Proper es
    → All Proper (push false e es)
push-Proper e es h all = elim (Bool-cases (is_empty e || str_eq e (codes "."))) [
  | inl a ↦ rw a all
  | inr a ↦ elim (Bool-cases (str_eq e dot_dot)) [
    | inl b ↦ rw (a, b) (pop-Proper es all)
    | inr b ↦ rw (a, b) ((h, a), all)
  ]
]

push_all-Proper :
    (es rest : List Str) → All NoSlash rest → All Proper es → All Proper (push_all false es rest)
push_all-Proper es [] h k = k
push_all-Proper es (e ∷ rest) h k =
    push_all-Proper (push false e es) rest h.1 (push-Proper e es h.0 k)

render_relative : (es : List Str) → All Proper es → is_abs (render false es) ≡ false
unfolding join index_byte
render_relative [] h = refl
render_relative ([] ∷ es) h = absurd (ground (arith, h.0.1))
render_relative ((c ∷ e) ∷ []) h = ground (arith, h.0.0)
render_relative ((c ∷ e) ∷ f ∷ es) h = ground (arith, h.0.0)

-- Cleaning a path keeps whether it begins with a slash.
pub is_abs-clean_path : (p : Str) → is_abs (clean_path p) ≡ is_abs p
unfolding clean_path elements index_byte
is_abs-clean_path p = elim (Bool-cases (is_abs p)) [
  | inl e ↦ rw e refl
  | inr e ↦ rw e (
      render_relative (reverse_strs [] (push_all false [] (split_on 47 [] p))) (
        reverse_strs-All Proper [] (push_all false [] (split_on 47 [] p)) tt
          (push_all-Proper [] (split_on 47 [] p) (split_on-NoSlash [] p refl) tt)))
]

abs_prefix : (r d : Str) → is_abs r ≡ true → has_prefix d (r ++ 47 ∷ []) ≡ true → is_abs d ≡ true
unfolding has_prefix
abs_prefix [] d a q = absurd (ground (arith, a))
abs_prefix (b ∷ r) [] a q = absurd (ground (arith, q))
abs_prefix (b ∷ r) (c ∷ d) a q = ground (arith, a, q)

-- A cleaned path that is, or begins with, the text of a cleaned directory and a slash.
pub within :
    (root dir : Str)
    → is_abs root ≡ true
    → (str_eq (clean_path dir) (clean_path root)
        || has_prefix (clean_path dir) (clean_path root ++ 47 ∷ []))
      ≡ true
    → (is_abs dir ≡ true) × Inside root (clean_path dir)
within root dir h k = elim (Bool-cases (str_eq (clean_path dir) (clean_path root))) [
  | inl e ↦
      let same = (str_eq_iff (clean_path dir) (clean_path root)).0 e in
      (
        sym (is_abs-clean_path dir) ∙ ap is_abs same ∙ is_abs-clean_path root ∙ h,
        ([], ap elements same ∙ elements-clean_path root h ∙ sym (append-nil (elements root))),
      )
  | inr e ↦
      let p : has_prefix (clean_path dir) (clean_path root ++ 47 ∷ []) ≡ true =
        ground (arith, e, k) in
      let a = abs_prefix (clean_path root) (clean_path dir) (is_abs-clean_path root ∙ h) p in
      let d = sym (is_abs-clean_path dir) ∙ a in
      let (rest, i) = prefix-Inside root dir h d p in (d, (rest, elements-clean_path dir d ∙ i))
]
