-- ===== src/Results/Rollup.antt =====
-- internal/sandbox/results.go: what the totals of a run hold, over the whole tree below it.
pub mod Maps
pub mod Tree
use demesne.Base.{
  ℕ, ◌+◌, ◌%◌, ◌^◌, ◌≡◌, refl, sym, ◌∙◌, ap, ◌⊎◌, inl, inr, Bool, true, false, ◌&&◌, Bool-cases,
  Option, none, some, List, [], ◌∷◌, ◌++◌, if◌then◌else◌, Str, str_eq, str_eq_iff, Map, lookup,
  insert, lookup-insert, str_Eq, is_empty, arith,
}
use demesne.Tracker.{add64, TokenBreakdown, UsageLine, get_or}
use demesne.Results.{
  no_tokens, add_tokens, tokens_of, add_entries, add_per_model_tokens, add_line, sum_lines,
  read_per_model_tokens, Results, ChildEntry, counted, sum_models, sum_totals, sum_child_results,
  sum_child_per_model_tokens, Layout, write_results,
}

-- A token total is in range where each of its counts is a word.
abbrev pub Words : TokenBreakdown → Type 0
Words t =
    (t.input % 2 ^ 64 ≡ t.input)
    × (t.output % 2 ^ 64 ≡ t.output)
    × (t.cache_creation % 2 ^ 64 ≡ t.cache_creation)
    × (t.cache_read % 2 ^ 64 ≡ t.cache_read)

add64_assoc : (a b c : ℕ) → add64 (add64 a b) c ≡ add64 a (add64 b c)
add64_assoc a b c = omega arith

add64_comm : (a b : ℕ) → add64 a b ≡ add64 b a
add64_comm a b = omega arith

pub add_tokens_assoc :
    (a b c : TokenBreakdown) → add_tokens (add_tokens a b) c ≡ add_tokens a (add_tokens b c)
add_tokens_assoc a b c = cc (
  add64_assoc a.input b.input c.input,
  add64_assoc a.output b.output c.output,
  add64_assoc a.cache_creation b.cache_creation c.cache_creation,
  add64_assoc a.cache_read b.cache_read c.cache_read,
)

pub add_tokens_comm : (a b : TokenBreakdown) → add_tokens a b ≡ add_tokens b a
add_tokens_comm a b = cc (
  add64_comm a.input b.input,
  add64_comm a.output b.output,
  add64_comm a.cache_creation b.cache_creation,
  add64_comm a.cache_read b.cache_read,
)

-- What the entries of a model add to a total.
pub entries_onto : Str → TokenBreakdown → Map Str TokenBreakdown → TokenBreakdown
entries_onto m acc [] = acc
entries_onto m acc ((k, t) ∷ b) =
    if str_eq k m then entries_onto m (add_tokens acc t) b else entries_onto m acc b

pub tokens_of-insert :
    (k m : Str) (t : TokenBreakdown) (totals : Map Str TokenBreakdown)
    → tokens_of m (insert k t totals) ≡ (if str_eq k m then t else tokens_of m totals)
tokens_of-insert k m t totals = elim (Bool-cases (str_eq k m)) [
  | inl e ↦ cc (e, lookup-insert k m t totals)
  | inr e ↦ cc (e, lookup-insert k m t totals)
]

tokens_of-add_entries :
    (m : Str) (b totals : Map Str TokenBreakdown)
    → tokens_of m (add_entries b totals) ≡ entries_onto m (tokens_of m totals) b
unfolding entries_onto
tokens_of-add_entries m [] totals = refl
tokens_of-add_entries m ((k, t) ∷ b) totals =
    let sum = add_tokens (tokens_of k totals) t in
    tokens_of-add_entries m b (insert k sum totals)
    ∙ ap (λ x. entries_onto m x b) (tokens_of-insert k m sum totals)
    ∙ elim (Bool-cases (str_eq k m)) [ inl e ↦ cc (e, (str_eq_iff k m).0 e) | inr e ↦ cc e ]

pub tokens_of-add_per_model :
    (m : Str) (a b : Map Str TokenBreakdown)
    → tokens_of m (add_per_model_tokens a b) ≡ entries_onto m (tokens_of m a) b
unfolding add_per_model_tokens lookup entries_onto
tokens_of-add_per_model m [] [] = refl
tokens_of-add_per_model m [] (e ∷ b) = tokens_of-add_entries m (e ∷ b) []
tokens_of-add_per_model m (e ∷ a) b = tokens_of-add_entries m b (e ∷ a)
