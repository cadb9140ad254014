-- ===== src/Results.antt =====
-- internal/sandbox/results.go: the token totals per model, read from usage.jsonl and added up over the
-- children, and results.json.
pub mod Ledger
pub mod Rollup
pub mod Vendors
mod Tests
use demesne.Base.{
  ℕ, ◌+◌, Bool, true, false, ◌&&◌, ◌||◌, Option, none, some, List, [], ◌∷◌, ◌++◌, map,
  if◌then◌else◌, ◌==◌, Str, codes, Map, lookup, insert, str_Eq, is_empty, sort_strings, split_on,
  split_on,
}
use demesne.Tracker.{add64, TokenBreakdown, UsageLine, get_or}

abbrev pub no_tokens : TokenBreakdown
no_tokens = record { input = 0; output = 0; cache_creation = 0; cache_read = 0 }

-- `TokenTotals` has the fields of `TokenBreakdown`; the two are one type here.
abbrev pub add_tokens : TokenBreakdown → TokenBreakdown → TokenBreakdown
add_tokens t u = record {
  input = add64 t.input u.input;
  output = add64 t.output u.output;
  cache_creation = add64 t.cache_creation u.cache_creation;
  cache_read = add64 t.cache_read u.cache_read;
}

abbrev pub tokens_of : Str → Map Str TokenBreakdown → TokenBreakdown
tokens_of m totals = get_or no_tokens (lookup m totals)

-- What json.Unmarshal makes of a line, `none` for an error.
module _ (unmarshal : Str → Option UsageLine) where
  abbrev pub add_line : Option UsageLine → Map Str TokenBreakdown → Map Str TokenBreakdown
  add_line none totals = totals
  add_line (some l) totals = insert l.model (add_tokens (tokens_of l.model totals) l.tokens) totals

  pub sum_lines : List Str → Map Str TokenBreakdown → Map Str TokenBreakdown
  sum_lines [] totals = totals
  sum_lines (l ∷ ls) totals =
      if is_empty l then sum_lines ls totals else sum_lines ls (add_line (unmarshal l) totals)

  -- `none` for a file that is missing or cannot be read. A nil map is an empty one.
  pub read_per_model_tokens : Option Str → Map Str TokenBreakdown
  read_per_model_tokens none = []
  read_per_model_tokens (some text) = sum_lines (split_on 10 [] text) []

abbrev pub add_entries : Map Str TokenBreakdown → Map Str TokenBreakdown → Map Str TokenBreakdown
add_entries [] totals = totals
add_entries ((k, t) ∷ b) totals =
    add_entries b (insert k (add_tokens (tokens_of k totals) t) totals)

pub add_per_model_tokens : Map Str TokenBreakdown → Map Str TokenBreakdown → Map Str TokenBreakdown
add_per_model_tokens a b = if is_empty a && is_empty b then [] else add_entries b a

-- `F` stands for float64.
pub record Results (F : Type 0) : Type 0 where
  pub job_id : Str
  pub tool : Str
  pub name : Str
  pub depth : ℕ
  pub exit_code : ℕ
  pub own_usage_usd : F
  pub total_usage_usd : F
  pub children : List Str
  pub per_model_tokens : Map Str TokenBreakdown

-- An entry of <out>/child: its name, whether it is a directory, and its results.json, `none` where
-- that is missing or malformed.
pub record ChildEntry (F : Type 0) : Type 0 where
  pub entry_name : Str
  pub is_dir : Bool
  pub entry_results : Option (Results F)

module _ {F : Type 0} (no_cost : F) (add_cost : F → F → F) where
  -- The children whose results count, in the order of the directory.
  abbrev pub counted : List (ChildEntry F) → List (Str × Results F)
  counted [] = []
  counted (e ∷ es) =
      let rest = counted es in
      if e.is_dir
      then elim e.entry_results [ none ↦ rest | some r ↦ (e.entry_name, r) ∷ rest ]
      else rest

  abbrev pub sum_totals : F → List (Str × Results F) → F
  sum_totals acc [] = acc
  sum_totals acc ((n, r) ∷ rs) = sum_totals (add_cost acc r.total_usage_usd) rs

  -- `none` for an error of os.ReadDir.
  pub sum_child_results : Option (List (ChildEntry F)) → List Str × F
  sum_child_results none = ([], no_cost)
  sum_child_results (some es) =
      (sort_strings (map (λ e. e.0) (counted es)), sum_totals no_cost (counted es))

  abbrev pub sum_models : Map Str TokenBreakdown → List (Str × Results F) → Map Str TokenBreakdown
  sum_models acc [] = acc
  sum_models acc ((n, r) ∷ rs) = sum_models (add_per_model_tokens acc r.per_model_tokens) rs

  pub sum_child_per_model_tokens : Option (List (ChildEntry F)) → Map Str TokenBreakdown
  sum_child_per_model_tokens none = []
  sum_child_per_model_tokens (some es) = sum_models [] (counted es)

  pub record Layout : Type 0 where
    pub layout_job : Str
    pub child_name : Str
    pub layout_depth : ℕ
    pub usage_jsonl : Option Str
    pub child_dir : Option (List (ChildEntry F))

  -- The results.json that is written, and what is returned.
  pub write_results :
      (Str → Option UsageLine) → Layout → Str → ℕ → F → Results F × F × Map Str TokenBreakdown
  write_results unmarshal layout tool exit_code own_usd =
      let (children, child_total) = sum_child_results layout.child_dir in
      let per_model =
        add_per_model_tokens (read_per_model_tokens unmarshal layout.usage_jsonl)
          (sum_child_per_model_tokens layout.child_dir) in
      (
        record {
          job_id = layout.layout_job;
          tool = tool;
          name = layout.child_name;
          depth = layout.layout_depth;
          exit_code = exit_code;
          own_usage_usd = own_usd;
          total_usage_usd = add_cost own_usd child_total;
          children = children;
          per_model_tokens = per_model;
        },
        add_cost own_usd child_total,
        per_model,
      )
