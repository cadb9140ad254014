-- ===== src/Base/Bytes.antt =====
-- What the code uses of Go's `strings` and `bytes`, over bytes.
use Prim.Native.Nat.{ℕ, suc}
use mathlib.Core.Path.{◌≡◌, refl, ap, sym, ◌∙◌}
use mathlib.Core.Bool.{Bool, true, false, ◌&&◌}
use mathlib.Core.Option.{Option, none, some}
use mathlib.Core.Logic.{inl, inr}
use mathlib.Core.List.{List, [], ◌∷◌, ◌++◌, append_assoc, append-nil}
use native.Mathlib.Omega.{arith}
use demesne.Base.Tests.{◌==◌, if◌then◌else◌, Bool-cases}
use demesne.Base.Classes.{Str}

-- `strings.HasPrefix(s, p)`
unfoldable pub has_prefix : Str → Str → Bool
has_prefix s [] = true
has_prefix [] (b ∷ p) = false
has_prefix (a ∷ s) (b ∷ p) = a == b && has_prefix s p

pub has_prefix-append : (p s : Str) → has_prefix (p ++ s) p ≡ true
unfolding has_prefix
has_prefix-append [] s = refl
has_prefix-append (b ∷ p) s = ground (arith, has_prefix-append p s)

pub has_prefix_rest : (s p : Str) → has_prefix s p ≡ true → (r : Str) × (s ≡ p ++ r)
unfolding has_prefix
has_prefix_rest s [] h = (s, refl)
has_prefix_rest [] (b ∷ p) h = absurd (ground arith)
has_prefix_rest (a ∷ s) (b ∷ p) h =
    let ih = has_prefix_rest s p (ground arith) in (ih.0, ground (arith, ih.1))

abbrev pub is_empty {ℓ} : {A : Type ℓ} → List A → Bool
is_empty [] = true
is_empty (c ∷ s) = false

-- `bytes.IndexByte(s, b)`, `none` for -1
unfoldable pub index_byte : ℕ → Str → Option ℕ
index_byte b [] = none
index_byte b (c ∷ s) =
    if c == b then some 0 else elim (index_byte b s) [ none ↦ none | some i ↦ some (suc i) ]

pub index_byte-append :
    (b : ℕ) (s t : Str)
    → index_byte b s ≡ none
    → index_byte b t ≡ none
    → index_byte b (s ++ t) ≡ none
unfolding index_byte
index_byte-append b [] t h k = k
index_byte-append b (c ∷ s) t h k = ground (arith, index_byte-append b s t)

-- `strings.TrimRightFunc(s, p)`
unfoldable pub trim_right : (ℕ → Bool) → Str → Str
trim_right p [] = []
trim_right p (c ∷ s) = let rest = trim_right p s in if p c && is_empty rest then [] else c ∷ rest

-- `strings.TrimLeftFunc(s, p)`
unfoldable pub trim_left : (ℕ → Bool) → Str → Str
trim_left p [] = []
trim_left p (c ∷ s) = let rest = trim_left p s in if p c then rest else c ∷ s

-- `strings.Split(s, string(b))`, `cur` being the part so far.
unfoldable pub split_on : ℕ → Str → Str → List Str
split_on b cur [] = cur ∷ []
split_on b cur (c ∷ s) =
    let rest = split_on b [] s in
    let more = split_on b (cur ++ c ∷ []) s in if c == b then cur ∷ rest else more

pub split_on-part :
    (b : ℕ) (cur l s : Str)
    → index_byte b l ≡ none
    → split_on b cur (l ++ b ∷ s) ≡ (cur ++ l) ∷ split_on b [] s
unfolding split_on index_byte
split_on-part b cur [] s h =
    rw (eq_refl b, split_on) (ap (λ x. x ∷ split_on b [] s) (sym (append-nil cur)))
  where
    eq_refl : (n : ℕ) → (n == n) ≡ true
    eq_refl n = ground arith
split_on-part b cur (c ∷ l) s h = elim (Bool-cases (c == b)) [
  | inl e ↦ absurd (ground arith)
  | inr e ↦
      rw (e, split_on)
        (split_on-part b (cur ++ c ∷ []) l s (ground arith)
          ∙ ap (λ x. x ∷ split_on b [] s) (append_assoc cur (c ∷ []) l))
]

pub split_on-last :
    (b : ℕ) (cur l : Str) → index_byte b l ≡ none → split_on b cur l ≡ (cur ++ l) ∷ []
unfolding split_on index_byte
split_on-last b cur [] h = ap (λ x. x ∷ []) (sym (append-nil cur))
split_on-last b cur (c ∷ l) h = elim (Bool-cases (c == b)) [
  | inl e ↦ absurd (ground arith)
  | inr e ↦
      rw (e, split_on)
        (split_on-last b (cur ++ c ∷ []) l (ground arith)
          ∙ ap (λ x. x ∷ []) (append_assoc cur (c ∷ []) l))
]
