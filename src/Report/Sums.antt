-- ===== src/Report/Sums.antt =====
-- internal/sandbox/usagereport.go: sums over the maps that the walk adds to.
use demesne.Base.{
  ℕ, ◌≡◌, refl, ◌∙◌, ap, inl, inr, Bool, Bool-cases, List, [], ◌∷◌, Str, str_eq, str_Eq, Map,
  lookup, insert, insert_by, sort_by, arith,
}
use demesne.Tracker.{add64, TokenBreakdown, get_or}
use demesne.Results.{no_tokens, add_tokens}
use demesne.Results.Rollup.{add_tokens_assoc, add_tokens_comm}

-- Addition in a commutative monoid; zero is a unit for sums.
pub record Addition {ℓ} (M : Type ℓ) : Type ℓ where
  pub zero_sum : M
  pub plus_sum : M → M → M
  pub plus_assoc : (a b c : M) → plus_sum (plus_sum a b) c ≡ plus_sum a (plus_sum b c)
  pub plus_comm : (a b : M) → plus_sum a b ≡ plus_sum b a
  pub zero_zero : plus_sum zero_sum zero_sum ≡ zero_sum
  pub plus_zero : (a b : M) → plus_sum (plus_sum a b) zero_sum ≡ plus_sum a b

module _ {ℓ κ} {M : Type ℓ} {V : Type κ} (m : Addition M) (value : V → M) where
  abbrev pub sum_values : List (Str × V) → M
  sum_values [] = m.zero_sum
  sum_values ((k, v) ∷ vs) = m.plus_sum (value v) (sum_values vs)

  plus_exchange : (a b c : M) → m.plus_sum (m.plus_sum a b) c ≡ m.plus_sum (m.plus_sum a c) b
  plus_exchange a b c = cc (m.plus_assoc a b c, m.plus_comm b c, m.plus_assoc a c b)

  pub sum_values-insert :
      (k : Str) (d v : V) (t : M) (vs : Map Str V)
      → value d ≡ m.zero_sum
      → value v ≡ m.plus_sum (value (get_or d (lookup k vs))) t
      → sum_values (insert k v vs) ≡ m.plus_sum (sum_values vs) t
  unfolding insert lookup
  sum_values-insert k d v t [] z e = cc (z, e, m.plus_zero (value d) t)
  sum_values-insert k d v t ((j, w) ∷ vs) z e = elim (Bool-cases (str_eq j k)) [
    | inl h ↦ cc (h, e, plus_exchange (value w) t (sum_values vs))
    | inr h ↦
        let e' : value v ≡ m.plus_sum (value (get_or d (lookup k vs))) t = cc (h, e) in
        cc (h, sum_values-insert k d v t vs z e', m.plus_assoc (value w) (sum_values vs) t)
  ]

  -- A value that counts for as much as the one it replaces.
  pub sum_values-insert_same :
      (k : Str) (d v : V) (vs : Map Str V)
      → value d ≡ m.zero_sum
      → value v ≡ value (get_or d (lookup k vs))
      → sum_values (insert k v vs) ≡ sum_values vs
  unfolding insert lookup
  sum_values-insert_same k d v [] z e = cc (z, e, m.zero_zero)
  sum_values-insert_same k d v ((j, w) ∷ vs) z e = elim (Bool-cases (str_eq j k)) [
    | inl h ↦ cc (h, e)
    | inr h ↦
        let e' : value v ≡ value (get_or d (lookup k vs)) = cc (h, e) in
        cc (h, sum_values-insert_same k d v vs z e')
  ]

  pub sum_values-insert_by :
      (le : Str × V → Str × V → Bool) (e : Str × V) (vs : List (Str × V))
      → sum_values (insert_by le e vs) ≡ m.plus_sum (value e.1) (sum_values vs)
  unfolding insert_by
  sum_values-insert_by le e [] = refl
  sum_values-insert_by le e (w ∷ vs) = elim (Bool-cases (le e w)) [
    | inl h ↦ cc h
    | inr h ↦ cc (
      h,
      sum_values-insert_by le e vs,
      m.plus_assoc (value w.1) (value e.1) (sum_values vs),
      m.plus_comm (value w.1) (value e.1),
      m.plus_assoc (value e.1) (value w.1) (sum_values vs),
    )
  ]

  pub sum_values-sort_by :
      (le : Str × V → Str × V → Bool) (vs : List (Str × V))
      → sum_values (sort_by le vs) ≡ sum_values vs
  unfolding sort_by
  sum_values-sort_by le [] = refl
  sum_values-sort_by le (e ∷ vs) =
      sum_values-insert_by le e (sort_by le vs)
      ∙ ap (m.plus_sum (value e.1)) (sum_values-sort_by le vs)

pub add_tokens_zero :
    (a b : TokenBreakdown) → add_tokens (add_tokens a b) no_tokens ≡ add_tokens a b
add_tokens_zero a b =
    let word : (m n : ℕ) → add64 (add64 m n) 0 ≡ add64 m n = λ m n. omega arith in
    cc (
      word a.input b.input,
      word a.output b.output,
      word a.cache_creation b.cache_creation,
      word a.cache_read b.cache_read,
    )

abbrev pub token_sums : Addition TokenBreakdown
token_sums = record {
  zero_sum = no_tokens;
  plus_sum = add_tokens;
  plus_assoc = add_tokens_assoc;
  plus_comm = add_tokens_comm;
  zero_zero = refl;
  plus_zero = add_tokens_zero;
}
