-- ===== src/Report.antt =====
-- internal/sandbox/usagereport.go: the report of costs and tokens over a job's output tree.
pub mod Sums
pub mod Exact
pub mod Costs
pub mod Walk
pub mod Nodes
pub mod Directory
mod Tests
use demesne.Base.{
  ℕ, zero, suc, ◌+◌, Bool, true, false, not, ◌&&◌, ◌||◌, Option, none, some, List, [], ◌∷◌, ◌++◌,
  map, if◌then◌else◌, Str, codes, Map, lookup, insert, str_Eq, str_eq, str_le, is_empty, is_some,
  sort_strings, sort_by, filter_by, split_on, has_prefix, clean_path, join_path, Result, err, ok,
}
use demesne.Tracker.{add64, is_positive, TokenBreakdown, UsageLine, get_or}
use demesne.Pricing.{Floats}
use demesne.Anthropic.{TokenCounts, cost_usd}
use demesne.Results.{no_tokens, add_tokens, tokens_of, Results}
use demesne.Attribution.{AttributionRecord, subagent_main, read_attribution_map}

pub record UsageReportRequest : Type 0 where
  pub job_id : Str
  pub output_dir : Str

pub data ReportError : Type 0 where
  missing_request : ReportError
  outside_root : Str → ReportError

pub resolve_usage_report_dir : Str → UsageReportRequest → Result ReportError Str
resolve_usage_report_dir output_root req =
    let raw =
      if is_empty req.output_dir
      then join_path (output_root ∷ req.job_id ∷ codes "out" ∷ [])
      else req.output_dir in
    let root = clean_path output_root in
    let dir = clean_path raw in
    if is_empty req.output_dir && is_empty req.job_id
    then err missing_request
    else if str_eq dir root || has_prefix dir (root ++ 47 ∷ [])
    then ok dir
    else err (outside_root dir)

-- usage.json: `json_models` holds each model's cost, `none` where its entry does not decode, in the
-- order in which the map is iterated.
pub record UsageJson (F : Type 0) : Type 0 where
  pub json_cost : F
  pub json_models : List (Str × Option F)
  pub json_dropped : Option (ℕ × ℕ)

-- What the four files at a directory hold. usage.json and results.json are `none` where they are
-- missing or malformed.
pub record NodeFiles (F : Type 0) : Type 0 where
  pub usage_json : Option (UsageJson F)
  pub usage_jsonl : Option Str
  pub attribution_jsonl : Option Str
  pub results_json : Option (Results F)

pub record ChildUsage (F : Type 0) : Type 0 where
  pub child_name : Str
  pub child_depth : ℕ
  pub child_cost : F
  pub child_tokens : TokenBreakdown

pub record SubagentEntry (F : Type 0) : Type 0 where
  pub agent_tokens : TokenBreakdown
  pub agent_cost : F
  pub requests : ℕ

pub record Accum (F : Type 0) : Type 0 where
  pub total_cost : F
  pub by_model_tokens : Map Str TokenBreakdown
  pub by_model_cost : Map Str F
  pub by_child : List (ChildUsage F)
  pub by_subagent : Map Str (SubagentEntry F)
  pub total_computed : F
  pub parse_errors : ℕ
  pub no_usage_blocks : ℕ

pub record ModelUsage (F : Type 0) : Type 0 where
  pub model : Str
  pub model_tokens : TokenBreakdown
  pub model_cost : F

pub record UsageReport (F : Type 0) : Type 0 where
  pub report_total : F
  pub token_type_totals : TokenBreakdown
  pub cache_read_pct : F
  pub by_model : List (ModelUsage F)
  pub children_usage : List (ChildUsage F)
  pub subagents : List (Str × SubagentEntry F)
  pub dropped : ℕ × ℕ

-- The bucket of a request in the report.
abbrev pub bucket_name : Option AttributionRecord → Str
bucket_name none = subagent_main
bucket_name (some r) =
    if is_empty r.attribution_agent then codes "(unnamed)" else r.attribution_agent

abbrev pub counts_of : TokenBreakdown → TokenCounts
counts_of t = record {
  input_tokens = t.input;
  output_tokens = t.output;
  cache_creation_input_tokens = t.cache_creation;
  cache_read_input_tokens = t.cache_read;
}

-- `sub`, `differ` and `above` are `-`, `!=` and `>` on float64.
module _ {F : Type 0} (f : Floats F) (sub : F → F → F) (differ : F → F → Bool)
    (above : F → F → Bool) where
  abbrev pub no_usd : F
  no_usd = f.of_int64 0

  abbrev pub new_accum : Accum F
  new_accum = record {
    total_cost = no_usd;
    by_model_tokens = [];
    by_model_cost = [];
    by_child = [];
    by_subagent = [];
    total_computed = no_usd;
    parse_errors = 0;
    no_usage_blocks = 0;
  }

  abbrev pub new_entry : SubagentEntry F
  new_entry = record { agent_tokens = no_tokens; agent_cost = no_usd; requests = 0 }

  abbrev pub add_model_costs : List (Str × Option F) → Map Str F → Map Str F
  add_model_costs [] costs = costs
  add_model_costs ((m, none) ∷ ms) costs = add_model_costs ms costs
  add_model_costs ((m, some c) ∷ ms) costs =
      add_model_costs ms (insert m (f.add_float (get_or no_usd (lookup m costs)) c) costs)

  abbrev pub dropped_of : Option (ℕ × ℕ) → ℕ × ℕ
  dropped_of none = (0, 0)
  dropped_of (some d) = d

  pub process_usage_json : Option (UsageJson F) → Accum F → Accum F × F
  process_usage_json none acc = (acc, no_usd)
  process_usage_json (some u) acc = (
    record acc {
      total_cost = f.add_float acc.total_cost u.json_cost;
      by_model_cost = add_model_costs u.json_models acc.by_model_cost;
      parse_errors = add64 acc.parse_errors (dropped_of u.json_dropped).0;
      no_usage_blocks = add64 acc.no_usage_blocks (dropped_of u.json_dropped).1;
    },
    u.json_cost,
  )

  abbrev pub add_request : TokenBreakdown → F → SubagentEntry F → SubagentEntry F
  add_request t cost e = record {
    agent_tokens = add_tokens e.agent_tokens t;
    agent_cost = f.add_float e.agent_cost cost;
    requests = suc e.requests;
  }

  -- One decoded line, with the node's totals so far.
  abbrev pub process_record :
      Map Str AttributionRecord → UsageLine → Accum F × TokenBreakdown → Accum F × TokenBreakdown
  process_record attrib l (acc, node) =
      let cost = cost_usd f l.model (counts_of l.tokens) in
      let name = bucket_name (lookup l.request_id attrib) in
      let entry = get_or new_entry (lookup name acc.by_subagent) in
      (
        record acc {
          by_model_tokens =
              insert l.model (add_tokens (tokens_of l.model acc.by_model_tokens) l.tokens)
                acc.by_model_tokens;
          total_computed = f.add_float acc.total_computed cost;
          by_subagent = insert name (add_request l.tokens cost entry) acc.by_subagent;
        },
        add_tokens node l.tokens,
      )

  abbrev pub process_decoded :
      Map Str AttributionRecord
      → Option UsageLine
      → Accum F × TokenBreakdown
      → Accum F × TokenBreakdown
  process_decoded attrib none s = s
  process_decoded attrib (some l) s = process_record attrib l s

  module _ (unmarshal_usage : Str → Option UsageLine)
      (unmarshal_record : Str → Option AttributionRecord) where
    abbrev pub process_lines :
        Map Str AttributionRecord → List Str → Accum F × TokenBreakdown → Accum F × TokenBreakdown
    process_lines attrib [] s = s
    process_lines attrib (l ∷ ls) s =
        if is_empty l
        then process_lines attrib ls s
        else process_lines attrib ls (process_decoded attrib (unmarshal_usage l) s)

    pub process_usage_jsonl : Option Str → Option Str → Accum F → Accum F × TokenBreakdown
    process_usage_jsonl none attribution acc = (acc, no_tokens)
    process_usage_jsonl (some text) attribution acc =
        process_lines (read_attribution_map unmarshal_record attribution) (split_on 10 [] text)
          (acc, no_tokens)

    abbrev pub name_of : Option (Results F) → Str
    name_of none = []
    name_of (some r) = r.name

    abbrev pub depth_of : Option (Results F) → ℕ
    depth_of none = 0
    depth_of (some r) = r.depth

    -- The part of walkUsageNode before it goes on to the children.
    pub visit_node : NodeFiles F → Accum F → Accum F
    visit_node files acc =
        let (acc₁, cost) = process_usage_json files.usage_json acc in
        let (acc₂, tokens) = process_usage_jsonl files.usage_jsonl files.attribution_jsonl acc₁ in
        record acc₂ {
          by_child =
              acc₂.by_child
              ++ record {
                child_name = name_of files.results_json;
                child_depth = depth_of files.results_json;
                child_cost = cost;
                child_tokens = tokens;
              }
                ∷ [];
        }

    abbrev pub child_dir : Str → Str → Str
    child_dir dir child = join_path (dir ∷ codes "child" ∷ child ∷ [])

    abbrev pub walk_children :
        (Str → Accum F → Option (Accum F)) → Str → List Str → Accum F → Option (Accum F)
    walk_children walk dir [] acc = some acc
    walk_children walk dir (c ∷ cs) acc = elim (walk (child_dir dir c) acc) [
      | none ↦ none
      | some acc' ↦ walk_children walk dir cs acc'
    ]

    abbrev pub children_of : Option (Results F) → List Str
    children_of none = []
    children_of (some r) = r.children

    -- `file_system` says what is at each path. `none` where the fuel, one unit for each level of the
    -- recursion, does not suffice.
    pub walk_usage_node : (Str → NodeFiles F) → ℕ → Str → Accum F → Option (Accum F)
    walk_usage_node file_system zero dir acc = none
    walk_usage_node file_system (suc fuel) dir acc =
        walk_children (walk_usage_node file_system fuel) dir
          (children_of (file_system dir).results_json) (visit_node (file_system dir) acc)

  abbrev pub sum_models : TokenBreakdown → Map Str TokenBreakdown → TokenBreakdown
  sum_models acc [] = acc
  sum_models acc ((m, t) ∷ totals) = sum_models (add_tokens acc t) totals

  abbrev pub cache_read_share : TokenBreakdown → F
  cache_read_share t =
      let side = add64 (add64 t.input t.cache_creation) t.cache_read in
      if is_positive side
      then f.mul_float (f.div_float (f.of_int64 t.cache_read) (f.of_int64 side)) (f.of_int64 100)
      else no_usd

  -- The models of either map, each once.
  abbrev pub model_keys : Map Str TokenBreakdown → Map Str F → List Str
  model_keys tokens costs = sort_strings (
      map (λ e. e.0) tokens
      ++ filter_by (λ m. not (is_some (lookup m tokens))) (map (λ e. e.0) costs))

  abbrev pub model_usages : List Str → Map Str TokenBreakdown → Map Str F → List (ModelUsage F)
  model_usages [] tokens costs = []
  model_usages (m ∷ ms) tokens costs =
      record {
        model = m;
        model_tokens = tokens_of m tokens;
        model_cost = get_or no_usd (lookup m costs);
      }
      ∷ model_usages ms tokens costs

  -- The buckets with the residual put into the main one.
  pub reconcile : Accum F → Map Str (SubagentEntry F)
  reconcile acc =
      let residual = sub acc.total_cost acc.total_computed in
      let entry = get_or new_entry (lookup subagent_main acc.by_subagent) in
      if differ residual no_usd
      then insert subagent_main
          (record entry { agent_cost = f.add_float entry.agent_cost residual }) acc.by_subagent
      else acc.by_subagent

  abbrev pub subagent_le : Str × SubagentEntry F → Str × SubagentEntry F → Bool
  subagent_le i j =
      if differ i.1.agent_cost j.1.agent_cost
      then above i.1.agent_cost j.1.agent_cost
      else str_le i.0 j.0

  pub build_usage_report : Accum F → UsageReport F
  build_usage_report acc =
      let totals = sum_models no_tokens acc.by_model_tokens in
      record {
        report_total = acc.total_cost;
        token_type_totals = totals;
        cache_read_pct = cache_read_share totals;
        by_model =
            model_usages (model_keys acc.by_model_tokens acc.by_model_cost) acc.by_model_tokens
              acc.by_model_cost;
        children_usage = acc.by_child;
        subagents = sort_by subagent_le (reconcile acc);
        dropped = (acc.parse_errors, acc.no_usage_blocks);
      }
