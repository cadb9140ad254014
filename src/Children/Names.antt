-- ===== src/Children/Names.antt =====
-- internal/sandbox/children.go, `validateChildName` and `reserveName`.
use demesne.Base.{
  ℕ, suc, ◌+◌, ◌≡◌, refl, sym, ◌∙◌, Bool, true, false, ◌&&◌, ◌||◌, [], ◌∷◌, ◌++◌, length,
  if◌then◌else◌, ◌==◌, ltb, leb, Str, codes, Result, err, ok, str_Eq, arith,
}
use demesne.Children.{
  NameError, name_required, name_too_long, invalid_name, is_name_char, valid_chars,
  validate_child_name,
}

-- A DNS-1123 label: at most 63 lowercase letters, digits and hyphens, at least one, with no hyphen
-- first or last.
abbrev pub is_label_char : ℕ → Bool
is_label_char c = is_name_char c || c == 45

abbrev pub all_label_chars : Str → Bool
all_label_chars [] = true
all_label_chars (c ∷ s) = is_label_char c && all_label_chars s

abbrev pub last_is_name_char : Str → Bool
last_is_name_char [] = false
last_is_name_char (c ∷ []) = is_name_char c
last_is_name_char (c ∷ d ∷ s) = last_is_name_char (d ∷ s)

abbrev pub first_is_name_char : Str → Bool
first_is_name_char [] = false
first_is_name_char (c ∷ s) = is_name_char c

abbrev pub is_dns_label : Str → Bool
is_dns_label s =
    leb (length s) 63 && (all_label_chars s && (first_is_name_char s && last_is_name_char s))

-- Behind the first character, the loop demands label characters and a proper last one.
valid_chars_rest :
    (i n c : ℕ) (s : Str)
    → n ≡ suc i + length (c ∷ s)
    → valid_chars (suc i) n (c ∷ s) ≡ all_label_chars (c ∷ s) && last_is_name_char (c ∷ s)
unfolding valid_chars
valid_chars_rest i n c [] h = ground arith
valid_chars_rest i n c (d ∷ s) h =
    let ih = valid_chars_rest (suc i) n d s (omega arith) in
    let inner : ltb (suc (suc i)) n ≡ true = ground arith in
    interior c (valid_chars (suc (suc i)) n (d ∷ s)) (all_label_chars (d ∷ s))
      (last_is_name_char (d ∷ s)) (ltb (suc (suc i)) n) inner ih
  where
    interior :
        (c : ℕ) (rest all last inside : Bool)
        → inside ≡ true
        → rest ≡ all && last
        → (if is_name_char c || c == 45 && (ltb 0 (suc i) && inside) then rest else false)
          ≡ is_label_char c && all && last
    interior c rest all last inside e k = ground arith

valid_chars_lem :
    (c : ℕ) (s : Str)
    → valid_chars 0 (length (c ∷ s)) (c ∷ s)
      ≡ all_label_chars (c ∷ s) && (is_name_char c && last_is_name_char (c ∷ s))
unfolding valid_chars
valid_chars_lem c [] = ground arith
valid_chars_lem c (d ∷ s) =
    let h = valid_chars_rest 0 (length (c ∷ d ∷ s)) d s (omega arith) in ground (arith, h)

-- The error of a name that is refused.
abbrev pub name_error : Str → NameError
name_error [] = name_required
name_error (c ∷ s) = if ltb 40 (length (c ∷ s)) then name_too_long else invalid_name (c ∷ s)

-- A name is accepted, as it stands, just where it is a DNS-1123 label of at most 40 characters;
-- otherwise the error says first that it is empty, then that it is too long, then that it is invalid.
pub validate_exact :
    (name : Str)
    → validate_child_name name
      ≡ (if is_dns_label name && leb (length name) 40 then ok name else err (name_error name))
unfolding validate_child_name
validate_exact [] = ground arith
validate_exact (c ∷ s) =
    let v = valid_chars_lem c s in
    let labels = all_label_chars (c ∷ s) in
    let last = last_is_name_char (c ∷ s) in
    by_tests (length (c ∷ s)) labels (is_name_char c) last (valid_chars 0 (length (c ∷ s)) (c ∷ s))
      v
  where
    by_tests :
        (n : ℕ) (labels first last valid : Bool)
        → valid ≡ labels && (first && last)
        → ◌≡◌ {A = Result NameError Str}
            (if ltb 40 n
              then err name_too_long
              else if valid
              then ok (c ∷ s)
              else err (invalid_name (c ∷ s)))
            (if (leb n 63 && (labels && (first && last))) && leb n 40
              then ok (c ∷ s)
              else err (if ltb 40 n then name_too_long else invalid_name (c ∷ s)))
    by_tests n labels first last valid e = ground arith

all_label_chars-append :
    (s t : Str) → all_label_chars (s ++ t) ≡ all_label_chars s && all_label_chars t
all_label_chars-append [] t = refl
all_label_chars-append (c ∷ s) t = ground (arith, all_label_chars-append s t)

last_is_name_char-append :
    (s : Str) (c : ℕ) (t : Str) → last_is_name_char (s ++ c ∷ t) ≡ last_is_name_char (c ∷ t)
last_is_name_char-append [] c t = refl
last_is_name_char-append (d ∷ []) c t = refl
last_is_name_char-append (d ∷ e ∷ s) c t = last_is_name_char-append (e ∷ s) c t

ok_of_test :
    {E A : Type 0} (b : Bool) (a v : A) (e : E)
    → ◌≡◌ {A = Result E A} (if b then ok a else err e) (ok v)
    → (b ≡ true) × (a ≡ v)
ok_of_test true a v e h = (refl, cc h)
ok_of_test false a v e h = absurd (cc h)

pub validate_inversion :
    (name valid : Str)
    → validate_child_name name ≡ ok valid
    → ((is_dns_label name && leb (length name) 40) ≡ true) × (name ≡ valid)
validate_inversion name valid h =
    ok_of_test (is_dns_label name && leb (length name) 40) name valid (name_error name)
      (sym (validate_exact name) ∙ h)

-- The volume of an accepted name has a DNS-1123 label for its name.
pub volume_name_valid :
    (name valid : Str)
    → validate_child_name name ≡ ok valid
    → is_dns_label (codes "prevjob-" ++ name) ≡ true
volume_name_valid [] valid h = absurd (ground (arith, (validate_inversion [] valid h).0))
volume_name_valid (c ∷ s) valid h =
    prefixed (length (c ∷ s)) (all_label_chars (c ∷ s)) (is_name_char c) (last_is_name_char (c ∷ s))
      (validate_inversion (c ∷ s) valid h).0
  where
    prefixed :
        (n : ℕ) (labels first last : Bool)
        → ((leb n 63 && (labels && (first && last))) && leb n 40) ≡ true
        → (leb (suc (suc (suc (suc (suc (suc (suc (suc n)))))))) 63 && (labels && last)) ≡ true
    prefixed n labels first last e = ground arith
