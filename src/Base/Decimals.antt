-- ===== src/Base/Decimals.antt =====
-- `strconv.ParseUint(s, 10, 64)` and `%d`, and that they are inverse.
use Prim.Native.Nat.{ℕ, zero, suc, ◌+◌, ◌-◌, ◌*◌, ◌/◌, ◌%◌, ◌^◌, ◌<◌}
use mathlib.Core.Path.{◌≡◌, refl, ap, sym, ◌∙◌}
use mathlib.Core.Logic.{inl, inr}
use mathlib.Core.Bool.{Bool, ◌&&◌}
use mathlib.Core.Option.{Option, none, some}
use mathlib.Core.List.{[], ◌∷◌, ◌++◌}
use native.Mathlib.Omega.{arith}
use demesne.Base.Tests.{ltb, leb, if◌then◌else◌, Bool-cases}
use demesne.Base.Classes.{Str}
use demesne.Base.Bytes.{index_byte, index_byte-append}

abbrev pub is_digit : ℕ → Bool
is_digit c = leb 48 c && leb c 57

-- One more digit, unless it is none or the number leaves 64 bits.
abbrev pub add_digit : ℕ → ℕ → Option ℕ
add_digit n c =
    if is_digit c && ltb (n * 10 + (c - 48)) (2 ^ 64) then some (n * 10 + (c - 48)) else none

unfoldable pub parse_digits : Option ℕ → Str → Option ℕ
parse_digits n [] = n
parse_digits none (c ∷ s) = none
parse_digits (some n) (c ∷ s) = parse_digits (add_digit n c) s

unfoldable pub parse_uint : Str → Option ℕ
parse_uint [] = none
parse_uint (c ∷ s) = parse_digits (some 0) (c ∷ s)

-- One unit of fuel is one digit: 20 are enough below 10 ^ 20, and so for 64 bits.
abbrev pub digits_of : ℕ → ℕ → Str
digits_of zero n = []
digits_of (suc f) n =
    let rest = digits_of f (n / 10) in
    if ltb n 10 then (48 + n) ∷ [] else rest ++ (48 + n % 10) ∷ []

unfoldable pub decimal : ℕ → Str
decimal n = digits_of 20 n

parse_digits-append :
    (o : Option ℕ) (s t : Str) → parse_digits o (s ++ t) ≡ parse_digits (parse_digits o s) t
unfolding parse_digits
parse_digits-append o [] t = refl
parse_digits-append none (c ∷ s) [] = refl
parse_digits-append none (c ∷ s) (d ∷ t) = refl
parse_digits-append (some n) (c ∷ s) t = parse_digits-append (add_digit n c) s t

last_digit : (n : ℕ) → n < 2 ^ 64 → add_digit (n / 10) (48 + n % 10) ≡ some n
last_digit n h = ground arith

parse_digits-digits_of :
    (f n : ℕ) → n < 10 ^ f → n < 2 ^ 64 → parse_digits (some 0) (digits_of f n) ≡ some n
unfolding parse_digits
parse_digits-digits_of zero n h k = ground arith
parse_digits-digits_of (suc f) n h k = elim (Bool-cases (ltb n 10)) [
  | inl e ↦ rw (e, digits_of) (ground arith)
  | inr e ↦
      rw (e, digits_of)
        (parse_digits-append (some 0) (digits_of f (n / 10)) ((48 + n % 10) ∷ [])
          ∙ ap (λ o. parse_digits o ((48 + n % 10) ∷ []))
              (parse_digits-digits_of f (n / 10) (omega arith) (omega arith))
          ∙ last_digit n k)
]

is_empty-digits_of : (f n : ℕ) → (c : ℕ) × (s : Str) × (digits_of (suc f) n ≡ c ∷ s)
is_empty-digits_of f n = elim (Bool-cases (ltb n 10)) [
  | inl e ↦ (48 + n, [], rw (e, digits_of) refl)
  | inr e ↦ from_parts (digits_of f (n / 10)) (rw (e, digits_of) refl)
]
  where
    from_parts :
        (s : Str)
        → digits_of (suc f) n ≡ s ++ (48 + n % 10) ∷ []
        → (c : ℕ) × (s : Str) × (digits_of (suc f) n ≡ c ∷ s)
    from_parts [] e = (48 + n % 10, [], e)
    from_parts (c ∷ s) e = (c, s ++ (48 + n % 10) ∷ [], e)

-- A printed 64-bit number is read back.
pub parse_uint-decimal : (n : ℕ) → n < 2 ^ 64 → parse_uint (decimal n) ≡ some n
unfolding parse_uint decimal
parse_uint-decimal n h =
    let (c, s, e) = is_empty-digits_of 19 n in
    let p = parse_digits-digits_of 20 n (omega arith) h in rw e (cc (e, p))

index_byte-digits_of : (f n : ℕ) → index_byte 95 (digits_of f n) ≡ none
unfolding index_byte
index_byte-digits_of zero n = refl
index_byte-digits_of (suc f) n = elim (Bool-cases (ltb n 10)) [
  | inl e ↦ rw (e, digits_of) (ground arith)
  | inr e ↦
      rw (e, digits_of)
        (index_byte-append 95 (digits_of f (n / 10)) ((48 + n % 10) ∷ [])
          (index_byte-digits_of f (n / 10)) (ground arith))
]

-- A printed number has no underscore.
pub index_byte-decimal : (n : ℕ) → index_byte 95 (decimal n) ≡ none
unfolding decimal
index_byte-decimal n = index_byte-digits_of 20 n

parse_digits_bound :
    (m n : ℕ) (s : Str) → m < 2 ^ 64 → parse_digits (some m) s ≡ some n → n < 2 ^ 64
unfolding parse_digits
parse_digits_bound m n [] h e = ground arith
parse_digits_bound m n (c ∷ s) h e =
    elim (Bool-cases (is_digit c && ltb (m * 10 + (c - 48)) (2 ^ 64))) [
      | inl k ↦
          parse_digits_bound (m * 10 + (c - 48)) n s (ground arith)
            (sym (ap (λ b. parse_digits (if b then some (m * 10 + (c - 48)) else none) s) k) ∙ e)
      | inr k ↦ absurd (
          no_digits s
            (sym (ap (λ b. parse_digits (if b then some (m * 10 + (c - 48)) else none) s) k) ∙ e))
    ]
  where
    no_digits : (t : Str) → parse_digits none t ≡ some n → ⊥
    no_digits [] k = cc k
    no_digits (d ∷ t) k = cc k

-- What is read has 64 bits.
pub parse_uint_bound : (n : ℕ) (s : Str) → parse_uint s ≡ some n → n < 2 ^ 64
unfolding parse_uint
parse_uint_bound n [] e = absurd (cc e)
parse_uint_bound n (c ∷ s) e = parse_digits_bound 0 n (c ∷ s) (omega arith) e
