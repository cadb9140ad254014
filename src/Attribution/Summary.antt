-- ===== src/Attribution/Summary.antt =====
-- internal/sandbox/attribution.go: the summary counts every request once and does not depend on the
-- order in which Go iterates over the map.
use mathlib.Core.List.{Permᴰ}
use demesne.Base.{
  ℕ, ◌%◌, ◌^◌, ◌≡◌, refl, ◌∙◌, inl, inr, Bool-cases, true, false, Option, none, some, List, [], ◌∷◌,
  if◌then◌else◌, Str, str_eq, str_Eq, Map, lookup, insert, is_empty, str_le_total, str_le_antisym,
  str_le_trans, TotalOrder, sort_by-Permᴰ, filter_by-Permᴰ, arith,
}
use demesne.Tracker.{add64, UsageLine, get_or}
use demesne.Attribution.{
  AttributionRecord, agent_of, all_tokens, add_usage, collect_onto, collect_tokens_by_agent,
  agent_le, is_named, top_subagents,
}

agent_le_total : (i j : Str × ℕ) → agent_le i j ≡ false → agent_le j i ≡ true
agent_le_total (s, a) (t, b) h = ground (arith, str_le_total s t)

agent_le_antisym : (i j : Str × ℕ) → agent_le i j ≡ true → agent_le j i ≡ true → i ≡ j
agent_le_antisym (s, a) (t, b) h k = ground (arith, str_le_antisym s t)

agent_le_trans : (i j k : Str × ℕ) → agent_le i j ≡ true → agent_le j k ≡ true → agent_le i k ≡ true
agent_le_trans (r, a) (s, b) (t, c) h k = ground (arith, str_le_trans r s t)

abbrev agent_order : TotalOrder (Str × ℕ)
agent_order = record {
  le = agent_le;
  le_total = agent_le_total;
  le_antisym = agent_le_antisym;
  le_trans = agent_le_trans;
}

is_empty-Permᴰ : {A : Type 0} {xs ys : List A} → Permᴰ xs ys → is_empty xs ≡ is_empty ys
is_empty-Permᴰ Permᴰ.nil = refl
is_empty-Permᴰ (Permᴰ.cons e q) = refl
is_empty-Permᴰ (Permᴰ.swap e₁ e₂) = refl
is_empty-Permᴰ (Permᴰ.trans p q) = is_empty-Permᴰ p ∙ is_empty-Permᴰ q

-- The list of the top subagents is the same for every order of iteration over the map.
pub top_subagents_stable : (a b : Map Str ℕ) → Permᴰ a b → top_subagents a ≡ top_subagents b
unfolding top_subagents
top_subagents_stable a b p =
    let q = filter_by-Permᴰ is_named p in cc (is_empty-Permᴰ q, sort_by-Permᴰ agent_order q)

-- The sum over the buckets.
abbrev pub sum_buckets : Map Str ℕ → ℕ
sum_buckets [] = 0
sum_buckets ((name, n) ∷ m) = add64 n (sum_buckets m)

module _ (unmarshal : Str → Option UsageLine) where
  -- The tokens of one line, of whatever kind, and of all lines.
  abbrev pub line_tokens : Option UsageLine → ℕ
  line_tokens none = 0
  line_tokens (some l) = all_tokens l.tokens

  abbrev pub sum_of_lines : List Str → ℕ
  sum_of_lines [] = 0
  sum_of_lines (l ∷ ls) =
      let rest = sum_of_lines ls in
      if is_empty l then rest else add64 (line_tokens (unmarshal l)) rest

sum_buckets-insert :
    (name : Str) (v : ℕ) (m : Map Str ℕ)
    → add64 (sum_buckets (insert name v m)) (get_or 0 (lookup name m)) ≡ add64 (sum_buckets m) v
unfolding insert lookup
sum_buckets-insert name v [] = omega arith
sum_buckets-insert name v ((k, t) ∷ m) = elim (Bool-cases (str_eq k name)) [
  | inl e ↦ ground (arith, e)
  | inr e ↦ ground (arith, e, sum_buckets-insert name v m)
]

module _ (unmarshal : Str → Option UsageLine) (attrib : Map Str AttributionRecord) where
  add_usage_sum :
      (o : Option UsageLine) (m : Map Str ℕ)
      → sum_buckets m % 2 ^ 64 ≡ sum_buckets m
      → sum_buckets (add_usage unmarshal attrib o m) % 2 ^ 64
        ≡ add64 (sum_buckets m) (line_tokens unmarshal o)
  add_usage_sum none m w = omega arith
  add_usage_sum (some l) m w =
      let name = agent_of (lookup l.request_id attrib) in
      let old = get_or 0 (lookup name m) in
      let n = all_tokens l.tokens in omega (arith, sum_buckets-insert name (add64 old n) m)

  sum_buckets_word : (m : Map Str ℕ) → sum_buckets m % 2 ^ 64 ≡ sum_buckets m
  sum_buckets_word [] = omega arith
  sum_buckets_word ((k, t) ∷ m) = omega arith

  collect_onto_sum :
      (ls : List Str) (m : Map Str ℕ)
      → sum_buckets (collect_onto unmarshal attrib ls m)
        ≡ add64 (sum_buckets m) (sum_of_lines unmarshal ls)
  collect_onto_sum [] m = omega (arith, sum_buckets_word m)
  collect_onto_sum (l ∷ ls) m = elim (Bool-cases (is_empty l)) [
    | inl e ↦ rw e (collect_onto_sum ls m)
    | inr e ↦
        let more = add_usage unmarshal attrib (unmarshal l) m in
        rw e (
          omega (
            arith,
            collect_onto_sum ls more,
            sum_buckets_word more,
            add_usage_sum (unmarshal l) m (sum_buckets_word m),
          ))
  ]

  -- Over all subagents the summary counts the tokens of every line of usage.jsonl that is decoded, once
  -- each, modulo 2^64.
  pub buckets_exact :
      (ls : List Str)
      → sum_buckets (collect_tokens_by_agent unmarshal attrib ls) ≡ sum_of_lines unmarshal ls
  unfolding collect_tokens_by_agent
  buckets_exact ls = omega (arith, collect_onto_sum ls [], sum_of_lines_word ls)
    where
      sum_of_lines_word :
          (ls : List Str) → sum_of_lines unmarshal ls % 2 ^ 64 ≡ sum_of_lines unmarshal ls
      sum_of_lines_word [] = omega arith
      sum_of_lines_word (l ∷ ls) = ground (arith, sum_of_lines_word ls)
