-- ===== src/Delivery/Naming.antt =====
-- internal/sandbox/filedelivery.go, `uniqueBase`: the loop ends with a name that is not taken.
use mathlib.Core.List.{append_cancel_left, append_cancel_right}
use demesne.Base.{
  ℕ, zero, suc, ◌+◌, ◌^◌, ◌<◌, ◌≤◌, ◌≡◌, refl, sym, ◌∙◌, ap, subst, inl, inr, Bool, true, false,
  Bool-cases, none, some, Option-cases, List, [], ◌∷◌, ◌++◌, ◌==◌, Str, str_eq, str_eq_iff, Map,
  lookup, delete, lookup-delete, str_Eq, is_some, length, decimal, parse_uint, parse_uint-decimal,
  ext_name, arith,
}
use demesne.Delivery.{trim_suffix, candidate, free_candidate, unique_base}

some_inj : {A : Type 0} {a b : A} → some a ≡ some b → a ≡ b
some_inj e = cc e

cons_inj : {A : Type 0} {a b : A} {xs ys : List A} → a ∷ xs ≡ b ∷ ys → xs ≡ ys
cons_inj e = cc e

candidate_inj :
    (stem ext : Str) (i j : ℕ)
    → i < 2 ^ 64
    → j < 2 ^ 64
    → candidate stem ext i ≡ candidate stem ext j
    → i ≡ j
candidate_inj stem ext i j h k e =
    let front = append_cancel_right (stem ++ 45 ∷ decimal i) (stem ++ 45 ∷ decimal j) ext e in
    let digits = cons_inj (append_cancel_left stem (45 ∷ decimal i) (45 ∷ decimal j) front) in
    some_inj (sym (parse_uint-decimal i h) ∙ ap parse_uint digits ∙ parse_uint-decimal j k)

-- A map loses an entry with each key that is deleted.
length-delete_le : (k : Str) (m : Map Str Bool) → length (delete k m) ≤ length m
unfolding delete
length-delete_le k [] = omega arith
length-delete_le k ((j, w) ∷ m) = ground (arith, length-delete_le k m)

length-delete :
    (k : Str) (m : Map Str Bool)
    → is_some (lookup k m) ≡ true
    → suc (length (delete k m)) ≤ length m
unfolding delete lookup
length-delete k [] h = absurd (ground (arith, h))
length-delete k ((j, w) ∷ m) h = ground (arith, length-delete_le k m, length-delete k m)

-- A round-by-round count: where the first `fuel` candidates from `i` on are all taken, as many entries
-- are there.
all_taken :
    (fuel : ℕ) (stem ext : Str) (i : ℕ) (used : Map Str Bool)
    → i + fuel < 2 ^ 64
    → ((j : ℕ) → i ≤ j → j < i + fuel → is_some (lookup (candidate stem ext j) used) ≡ true)
    → fuel ≤ length used
all_taken zero stem ext i used h t = omega arith
all_taken (suc fuel) stem ext i used h t =
    let c = candidate stem ext i in
    let fewer = length-delete c used (t i (omega arith) (omega arith)) in
    let rest = all_taken fuel stem ext (suc i) (delete c used) (omega (arith, h)) (λ j a b.
      elim (Bool-cases (str_eq c (candidate stem ext j))) [
        | inl same ↦
            let equal =
              candidate_inj stem ext i j (omega (arith, h)) (omega (arith, h, b))
                ((str_eq_iff c (candidate stem ext j)).0 same) in
            absurd (omega (arith, equal, a))
        | inr other ↦
            ap is_some (lookup-delete c (candidate stem ext j) used)
            ∙ rw other (t j (omega (arith, a)) (omega (arith, b)))
      ]) in
    omega (arith, fewer, rest)

none_taken :
    (fuel : ℕ) (stem ext : Str) (i : ℕ) (used : Map Str Bool)
    → free_candidate fuel stem ext i used ≡ none
    → (j : ℕ) → i ≤ j
    → j < i + fuel
    → is_some (lookup (candidate stem ext j) used) ≡ true
unfolding free_candidate
none_taken zero stem ext i used e j a b = absurd (omega (arith, a, b))
none_taken (suc fuel) stem ext i used e j a b =
    elim (Bool-cases (is_some (lookup (candidate stem ext i) used))) [
      | inr free ↦ absurd (ground (arith, e, free))
      | inl taken ↦ elim (Bool-cases (i == j)) [
        | inl same ↦
            let equal : i ≡ j = ground (arith, same) in
            subst (λ n. is_some (lookup (candidate stem ext n) used) ≡ true) equal taken
        | inr other ↦
            let later : suc i ≤ j = ground (arith, a, other) in
            none_taken fuel stem ext (suc i) used (ground (arith, e, taken)) j later
              (omega (arith, b))
      ]
    ]

-- A round that ends the loop ends it with a name that is not taken.
free_candidate-free :
    (fuel : ℕ) (stem ext : Str) (i : ℕ) (used : Map Str Bool) (name : Str)
    → free_candidate fuel stem ext i used ≡ some name
    → is_some (lookup name used) ≡ false
unfolding free_candidate
free_candidate-free zero stem ext i used name e = absurd (ground (arith, e))
free_candidate-free (suc fuel) stem ext i used name e =
    elim (Bool-cases (is_some (lookup (candidate stem ext i) used))) [
      | inl taken ↦ free_candidate-free fuel stem ext (suc i) used name (ground (arith, e, taken))
      | inr free ↦
          let same : candidate stem ext i ≡ name = ground (arith, e, free) in
          subst (λ n. is_some (lookup n used) ≡ false) same free
    ]

-- With fewer than 2^64 - 2 names taken, the search for a name ends, within one round more than there are
-- names taken, and its name is not taken.
pub unique_base_ends :
    (base : Str) (used : Map Str Bool)
    → length used + 2 < 2 ^ 64
    → (name : Str) × (unique_base base used ≡ some name) × (is_some (lookup name used) ≡ false)
unfolding unique_base
unique_base_ends base used h =
    let ext = ext_name base in
    let stem = trim_suffix base ext in
    elim (Bool-cases (is_some (lookup base used))) [
      | inr free ↦ (base, rw free refl, free)
      | inl taken ↦ elim (Option-cases (free_candidate (suc (length used)) stem ext 1 used)) [
        | inr (name, e) ↦
            (name, rw taken e, free_candidate-free (suc (length used)) stem ext 1 used name e)
        | inl e ↦
            let full =
              all_taken (suc (length used)) stem ext 1 used (omega (arith, h))
                (none_taken (suc (length used)) stem ext 1 used e) in
            absurd (omega (arith, full))
      ]
    ]

pub unique_base-free :
    (base : Str) (used : Map Str Bool) (name : Str)
    → unique_base base used ≡ some name
    → is_some (lookup name used) ≡ false
unfolding unique_base
unique_base-free base used name e = elim (Bool-cases (is_some (lookup base used))) [
  | inr free ↦
      let same : base ≡ name = ground (arith, e, free) in
      subst (λ n. is_some (lookup n used) ≡ false) same free
  | inl taken ↦
      let ext = ext_name base in
      free_candidate-free (suc (length used)) (trim_suffix base ext) ext 1 used name
        (ground (arith, e, taken))
]
