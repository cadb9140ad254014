-- ===== src/Results/Rollup/Maps.antt =====
-- internal/sandbox/results.go: the maps that the code builds hold each model once, with counts that
-- are words.
use demesne.Base.{
  ℕ, ◌%◌, ◌^◌, ◌≡◌, refl, sym, ◌∙◌, subst, inl, inr, Bool-cases, Option, none, some, List, [], ◌∷◌,
  Str, str_eq, str_eq_iff, Map, lookup, insert, lookup-insert, split_on, str_Eq, is_empty, arith,
}
use demesne.Tracker.{add64, TokenBreakdown, UsageLine}
use demesne.Results.{
  no_tokens, add_tokens, tokens_of, add_entries, add_per_model_tokens, add_line, sum_lines,
  read_per_model_tokens,
}
use demesne.Results.Rollup.{Words, entries_onto, tokens_of-insert, tokens_of-add_per_model}

pub Distinct : Map Str TokenBreakdown → Type 0
Distinct [] = Unit
Distinct ((k, t) ∷ b) = (lookup k b ≡ none) × Distinct b

-- A map as the code builds it.
pub Tidy : Map Str TokenBreakdown → Type 0
Tidy b = Distinct b × ((m : Str) → Words (tokens_of m b))

pub add_tokens-Words : (a b : TokenBreakdown) → Words (add_tokens a b)
add_tokens-Words a b = (omega arith, omega arith, omega arith, omega arith)

pub add_tokens-none : (t : TokenBreakdown) → Words t → add_tokens t no_tokens ≡ t
add_tokens-none t (e₁, e₂, e₃, e₄) =
    let word : (n : ℕ) → n % 2 ^ 64 ≡ n → add64 n 0 ≡ n = λ n e. omega arith in
    cc (word t.input e₁, word t.output e₂, word t.cache_creation e₃, word t.cache_read e₄)

entries_absent :
    (m : Str) (acc : TokenBreakdown) (b : Map Str TokenBreakdown)
    → lookup m b ≡ none
    → entries_onto m acc b ≡ acc
unfolding entries_onto lookup
entries_absent m acc [] h = refl
entries_absent m acc ((k, t) ∷ b) h = ground (arith, str_eq_iff k m, entries_absent m acc b)

entries-Distinct :
    (m : Str) (acc : TokenBreakdown) (b : Map Str TokenBreakdown)
    → Distinct b
    → Words acc
    → entries_onto m acc b ≡ add_tokens acc (tokens_of m b)
unfolding entries_onto lookup Distinct
entries-Distinct m acc [] h w = sym (add_tokens-none acc w)
entries-Distinct m acc ((k, t) ∷ b) h w = elim (Bool-cases (str_eq k m)) [
  | inl e ↦
      rw (e, entries_onto, lookup)
        (entries_absent m (add_tokens acc t) b
          (subst (λ x. lookup x b ≡ none) ((str_eq_iff k m).0 e) h.0))
  | inr e ↦ rw (e, entries_onto, lookup) (entries-Distinct m acc b h.1 w)
]

Distinct-insert :
    (k : Str) (t : TokenBreakdown) (b : Map Str TokenBreakdown)
    → Distinct b
    → Distinct (insert k t b)
unfolding Distinct insert lookup
Distinct-insert k t [] h = (refl, tt)
Distinct-insert k t ((j, u) ∷ b) h = elim (Bool-cases (str_eq j k)) [
  | inl e ↦ rw (e, insert) (subst (λ x. lookup x b ≡ none) ((str_eq_iff j k).0 e) h.0, h.1)
  | inr e ↦
      rw (e, insert)
        (
          ground (arith, lookup-insert k j t b, str_eq_iff k j, str_eq_iff j k),
          Distinct-insert k t b h.1,
        )
]

pub Tidy-at : (m : Str) (b : Map Str TokenBreakdown) → Tidy b → Words (tokens_of m b)
unfolding Tidy
Tidy-at m b h = h.1 m

pub Tidy-insert :
    (k : Str) (a c : TokenBreakdown) (b : Map Str TokenBreakdown)
    → Tidy b
    → Tidy (insert k (add_tokens a c) b)
unfolding Tidy
Tidy-insert k a c b h = (
  Distinct-insert k (add_tokens a c) b h.0,
  (λ m. elim (Bool-cases (str_eq k m)) [
    | inl e ↦
        subst Words (sym (tokens_of-insert k m (add_tokens a c) b ∙ rw e refl))
          (add_tokens-Words a c)
    | inr e ↦ subst Words (sym (tokens_of-insert k m (add_tokens a c) b ∙ rw e refl)) (h.1 m)
  ]),
)

pub Tidy-nil : Tidy []
unfolding Tidy Distinct lookup
Tidy-nil = (tt, (λ m. (refl, refl, refl, refl)))

Tidy-add_entries : (a b : Map Str TokenBreakdown) → Tidy b → Tidy (add_entries a b)
Tidy-add_entries [] b h = h
Tidy-add_entries ((k, t) ∷ a) b h =
    Tidy-add_entries a (insert k (add_tokens (tokens_of k b) t) b)
      (Tidy-insert k (tokens_of k b) t b h)

pub Tidy-add_per_model_tokens :
    (a b : Map Str TokenBreakdown) → Tidy a → Tidy (add_per_model_tokens a b)
unfolding add_per_model_tokens
Tidy-add_per_model_tokens [] [] h = h
Tidy-add_per_model_tokens [] (e ∷ b) h = Tidy-add_entries (e ∷ b) [] h
Tidy-add_per_model_tokens (e ∷ a) b h = Tidy-add_entries b (e ∷ a) h

Tidy-sum_lines :
    (unmarshal : Str → Option UsageLine) (ls : List Str) (b : Map Str TokenBreakdown)
    → Tidy b
    → Tidy (sum_lines unmarshal ls b)
unfolding sum_lines
Tidy-sum_lines unmarshal [] b h = h
Tidy-sum_lines unmarshal (l ∷ ls) b h = elim (Bool-cases (is_empty l)) [
  | inl e ↦ rw (e, sum_lines) (Tidy-sum_lines unmarshal ls b h)
  | inr e ↦
      rw (e, sum_lines)
        (Tidy-sum_lines unmarshal ls (add_line unmarshal (unmarshal l) b) (one (unmarshal l)))
]
  where
    one : (o : Option UsageLine) → Tidy (add_line unmarshal o b)
    one none = h
    one (some u) = Tidy-insert u.model (tokens_of u.model b) u.tokens b h

pub Tidy-read :
    (unmarshal : Str → Option UsageLine) (file : Option Str)
    → Tidy (read_per_model_tokens unmarshal file)
unfolding read_per_model_tokens
Tidy-read unmarshal none = Tidy-nil
Tidy-read unmarshal (some s) = Tidy-sum_lines unmarshal (split_on 10 [] s) [] Tidy-nil

-- On such maps the merge adds model by model.
pub tokens_of-merge :
    (m : Str) (a b : Map Str TokenBreakdown)
    → Tidy a
    → Tidy b
    → tokens_of m (add_per_model_tokens a b) ≡ add_tokens (tokens_of m a) (tokens_of m b)
unfolding Tidy
tokens_of-merge m a b h k =
    tokens_of-add_per_model m a b ∙ entries-Distinct m (tokens_of m a) b k.0 (h.1 m)
