-- ===== src/Report/Tests.antt =====
-- The report on a small tree, with costs in exact numbers.
use demesne.Base.{
  ℕ, ◌+◌, ◌<◌, ◌≡◌, refl, sym, subst, inl, inr, Bool-cases, str_eq_iff, Bool, true, not, Option,
  none, some, List, [], ◌∷◌, if◌then◌else◌, Str, codes, str_eq, ℤ, pos, ◌+ℤ◌, ◌-ℤ◌, ◌*ℤ◌, ltb_ℤ,
  +ℤ_parts, -ℤ_parts, eq_of_parts, is_some, All, elements, join_path, clean_path, join, filter_by,
  split_on, has_prefix, err, ◌==◌, pos_part, neg_part, arith,
}
use demesne.Tracker.{UsageLine}
use demesne.Pricing.{Floats}
use demesne.Results.{Results}
use demesne.Attribution.{AttributionRecord}
use demesne.Report.{
  UsageReportRequest, NodeFiles, Accum, new_accum, walk_usage_node, build_usage_report,
  resolve_usage_report_dir, children_of, outside_root,
}
use demesne.Report.Exact.{sum_children, sum_of_agents, report_tokens_agree}
use demesne.Report.Costs.{ExactCosts, sum_agent_costs, sum_child_costs, report_costs_reconciled}
use demesne.Report.Nodes.{NodesOf}
use demesne.Report.Walk.{walk_returns, walk_loops}

abbrev amounts : Floats ℤ
amounts = record {
  of_int64 = pos;
  of_cents = pos;
  add_float = ◌+ℤ◌;
  mul_float = ◌*ℤ◌;
  div_float = λ a b. a;
}

abbrev differ : ℤ → ℤ → Bool
differ a b = not (pos_part a + neg_part b == pos_part b + neg_part a)

abbrev above : ℤ → ℤ → Bool
above a b = ltb_ℤ b a

exact : ExactCosts amounts ◌-ℤ◌ differ
exact = record {
  add_assoc = λ a b c.
      eq_of_parts (a +ℤ b +ℤ c) (a +ℤ (b +ℤ c))
        (omega (arith, +ℤ_parts (a +ℤ b) c, +ℤ_parts a b, +ℤ_parts a (b +ℤ c), +ℤ_parts b c));
  add_comm = λ a b. eq_of_parts (a +ℤ b) (b +ℤ a) (omega (arith, +ℤ_parts a b, +ℤ_parts b a));
  add_zero = λ a. eq_of_parts (a +ℤ pos 0) a (omega (arith, +ℤ_parts a (pos 0)));
  add_sub = λ a b. eq_of_parts (a +ℤ (b -ℤ a)) b (omega (arith, +ℤ_parts a (b -ℤ a), -ℤ_parts b a));
  same_cost = λ a b h. eq_of_parts a b (ground (arith, h));
}

abbrev usage : Str → Option UsageLine
usage (m ∷ i ∷ []) = some (record {
  request_id = codes "r";
  ts = [];
  model = if m == 115 then codes "claude-sonnet-5" else codes "gpt";
  tokens = record { input = i; output = 1; cache_creation = 0; cache_read = 2 };
})
usage _ = none

abbrev attribution : Str → Option AttributionRecord
attribution agent = some (record {
  request_id = codes "r";
  attribution_agent = agent;
  attribution_skill = [];
  attribution_plugin = [];
})

abbrev results : List Str → Results ℤ
results children = record {
  job_id = codes "j";
  tool = codes "agent";
  name = codes "n";
  depth = 0;
  exit_code = 0;
  own_usage_usd = pos 0;
  total_usage_usd = pos 0;
  children = children;
  per_model_tokens = [];
}

abbrev no_files : NodeFiles ℤ
no_files = record {
  usage_json = none;
  usage_jsonl = none;
  attribution_jsonl = none;
  results_json = none;
}

-- A root with one child; a request of each has its line.
abbrev tree : Str → NodeFiles ℤ
tree dir =
    if str_eq dir (codes "/o")
    then record {
      usage_json = some (record {
        json_cost = pos 50;
        json_models = (codes "claude-sonnet-5", some (pos 50)) ∷ [];
        json_dropped = some (1, 0);
      });
      usage_jsonl = some (115 ∷ 3 ∷ 10 ∷ []);
      attribution_jsonl = some (codes "helper");
      results_json = some (results (codes "c" ∷ []));
    }
    else if str_eq dir (codes "/o/child/c")
    then record no_files { usage_jsonl = some (103 ∷ 4 ∷ 10 ∷ []) }
    else no_files

abbrev looped : Str → NodeFiles ℤ
looped dir = record no_files { results_json = some (results (codes ".." ∷ [])) }

abbrev walked : Accum ℤ
walked =
    elim (walk_usage_node amounts ◌-ℤ◌ differ above usage attribution tree 2 (codes "/o")
      (new_accum amounts ◌-ℤ◌ differ above)) [
        | none ↦ new_accum amounts ◌-ℤ◌ differ above
        | some acc ↦ acc
      ]

walked_lem :
    walk_usage_node amounts ◌-ℤ◌ differ above usage attribution tree 2
      (codes "/o")
      (new_accum amounts ◌-ℤ◌ differ above)
    ≡ some walked
unfolding walk_usage_node str_eq join_path filter_by clean_path elements split_on join
walked_lem = refl

report_tokens_agree_example :
    let r = build_usage_report amounts ◌-ℤ◌ differ above walked in
    (r.token_type_totals ≡ sum_children r.children_usage)
    × (sum_of_agents r.subagents ≡ sum_children r.children_usage)
    × NodesOf (amounts.of_int64 0) usage tree (codes "/o") r.children_usage
report_tokens_agree_example =
    report_tokens_agree amounts ◌-ℤ◌ differ above usage attribution tree 2 (codes "/o") walked
      walked_lem

report_costs_reconciled_example :
    let r = build_usage_report amounts ◌-ℤ◌ differ above walked in
    (sum_agent_costs amounts ◌-ℤ◌ differ above exact r.subagents ≡ r.report_total)
    × (sum_child_costs amounts ◌-ℤ◌ differ above exact r.children_usage ≡ r.report_total)
    × NodesOf (amounts.of_int64 0) usage tree (codes "/o") r.children_usage
report_costs_reconciled_example =
    report_costs_reconciled amounts ◌-ℤ◌ differ above exact usage attribution tree 2 (codes "/o")
      walked walked_lem

abbrev rank : Str → ℕ
rank dir = if str_eq dir (codes "/o") then 1 else 0

abbrev Lower : Str → Type 0
Lower dir =
    All (λ c. rank (join_path (dir ∷ codes "child" ∷ c ∷ [])) < rank dir)
      (children_of amounts ◌-ℤ◌ differ above usage attribution (tree dir).results_json)

descends : (dir : Str) → Lower dir
unfolding str_eq join_path filter_by clean_path elements split_on join
descends dir = elim (Bool-cases (str_eq dir (codes "/o"))) [
  | inl e ↦ subst Lower (sym ((str_eq_iff dir (codes "/o")).0 e)) (omega arith, tt)
  | inr e ↦ elim (Bool-cases (str_eq dir (codes "/o/child/c"))) [
    | inl c ↦ subst Lower (sym ((str_eq_iff dir (codes "/o/child/c")).0 c)) tt
    | inr c ↦ rw (e, c) tt
  ]
]

walk_returns_example :
    is_some (
      walk_usage_node amounts ◌-ℤ◌ differ above usage attribution tree 2
        (codes "/o")
        (new_accum amounts ◌-ℤ◌ differ above))
    ≡ true
unfolding str_eq
walk_returns_example =
    walk_returns amounts ◌-ℤ◌ differ above usage attribution tree rank descends 2 (codes "/o")
      (omega arith) (new_accum amounts ◌-ℤ◌ differ above)

walk_loops_example :
    walk_usage_node amounts ◌-ℤ◌ differ above usage attribution looped 1000
      (codes "/o")
      (new_accum amounts ◌-ℤ◌ differ above)
    ≡ none
unfolding str_eq join_path filter_by clean_path elements split_on join
walk_loops_example =
    walk_loops amounts ◌-ℤ◌ differ above usage attribution looped (codes "/o") refl refl 1000
      (new_accum amounts ◌-ℤ◌ differ above)

abbrev by_job : UsageReportRequest
by_job = record { job_id = codes "../x/j"; output_dir = [] }

escaping : resolve_usage_report_dir (codes "/o") by_job ≡ err (outside_root (codes "/x/j/out"))
unfolding resolve_usage_report_dir str_eq join_path filter_by clean_path elements split_on join
    has_prefix
escaping = refl
