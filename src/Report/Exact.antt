-- ===== src/Report/Exact.antt =====
-- internal/sandbox/usagereport.go: every request's tokens are counted once per model, once per node and
-- once per subagent, and the subagents' costs add up to the total.
use demesne.Base.{
  ℕ, ◌≡◌, refl, sym, ◌∙◌, ap, inl, inr, Bool, Bool-cases, Option, none, some, List, [], ◌∷◌, ◌++◌,
  Str, str_Eq, Map, lookup, is_empty, split_on,
}
use demesne.Tracker.{TokenBreakdown, UsageLine, get_or}
use demesne.Pricing.{Floats}
use demesne.Anthropic.{cost_usd}
use demesne.Results.{no_tokens, add_tokens, tokens_of}
use demesne.Results.Rollup.{add_tokens_assoc, add_tokens_comm}
use demesne.Attribution.{AttributionRecord, subagent_main, read_attribution_map}
use demesne.Report.{
  UsageJson, NodeFiles, ChildUsage, SubagentEntry, Accum, bucket_name, counts_of, no_usd, new_accum,
  new_entry, process_usage_json, add_request, process_record, process_decoded, process_lines,
  process_usage_jsonl, name_of, depth_of, visit_node, walk_usage_node, sum_models, reconcile,
  build_usage_report, subagent_le,
}
use demesne.Report.Nodes.{NodesOf, walk-NodesOf}
use demesne.Report.Walk.{walk_keeps}
use demesne.Report.Sums.{
  sum_values, sum_values-insert, sum_values-insert_same, sum_values-sort_by, token_sums,
  add_tokens_zero,
}

-- What the nodes say of themselves, added up.
abbrev pub sum_children : {F : Type 0} → List (ChildUsage F) → TokenBreakdown
sum_children [] = no_tokens
sum_children (c ∷ cs) = add_tokens c.child_tokens (sum_children cs)

abbrev pub sum_of_models : Map Str TokenBreakdown → TokenBreakdown
sum_of_models ts = sum_values token_sums (λ t. t) ts

abbrev pub sum_of_agents : {F : Type 0} → Map Str (SubagentEntry F) → TokenBreakdown
sum_of_agents es = sum_values token_sums (λ e. e.agent_tokens) es

-- The three breakdowns have the same sum.
abbrev pub Agree : {F : Type 0} → Accum F → TokenBreakdown → Type 0
Agree acc node =
    (sum_of_models acc.by_model_tokens ≡ add_tokens (sum_children acc.by_child) node)
    × (sum_of_agents acc.by_subagent ≡ add_tokens (sum_children acc.by_child) node)

sum_children-append :
    {F : Type 0} (cs : List (ChildUsage F)) (c : ChildUsage F)
    → sum_children (cs ++ c ∷ []) ≡ add_tokens (sum_children cs) c.child_tokens
sum_children-append [] c = add_tokens_comm c.child_tokens no_tokens
sum_children-append (d ∷ cs) c =
    cc (sum_children-append cs c, add_tokens_assoc d.child_tokens (sum_children cs) c.child_tokens)

sum_children_word :
    {F : Type 0} (cs : List (ChildUsage F))
    → add_tokens (sum_children cs) no_tokens ≡ sum_children cs
sum_children_word [] = refl
sum_children_word (c ∷ cs) = add_tokens_zero c.child_tokens (sum_children cs)

module _ {F : Type 0} (f : Floats F) (sub : F → F → F) (differ : F → F → Bool)
    (above : F → F → Bool) where
  record-Agree :
      (attrib : Map Str AttributionRecord) (l : UsageLine) (acc : Accum F) (node : TokenBreakdown)
      → Agree acc node
      → let s = process_record f sub differ above attrib l (acc, node) in Agree s.0 s.1
  record-Agree attrib l acc node h =
      let cost = cost_usd f l.model (counts_of l.tokens) in
      let name = bucket_name (lookup l.request_id attrib) in
      let entry = get_or (new_entry f sub differ above) (lookup name acc.by_subagent) in
      let more = add_request f sub differ above l.tokens cost entry in
      let total = add_tokens (tokens_of l.model acc.by_model_tokens) l.tokens in
      (
        sum_values-insert token_sums (λ t. t) l.model no_tokens total l.tokens acc.by_model_tokens
              refl refl
            ∙ ap (λ x. add_tokens x l.tokens) h.0
            ∙ add_tokens_assoc (sum_children acc.by_child) node l.tokens,
        sum_values-insert token_sums (λ e. e.agent_tokens) name (new_entry f sub differ above) more
              l.tokens acc.by_subagent refl refl
            ∙ ap (λ x. add_tokens x l.tokens) h.1
            ∙ add_tokens_assoc (sum_children acc.by_child) node l.tokens,
      )

  decoded-Agree :
      (attrib : Map Str AttributionRecord) (o : Option UsageLine) (s : Accum F × TokenBreakdown)
      → Agree s.0 s.1
      → let t = process_decoded f sub differ above attrib o s in Agree t.0 t.1
  decoded-Agree attrib none s h = h
  decoded-Agree attrib (some l) (acc, node) h = record-Agree attrib l acc node h

  sum_models_lem :
      (acc : TokenBreakdown) (ts : Map Str TokenBreakdown)
      → add_tokens acc no_tokens ≡ acc
      → sum_models f sub differ above acc ts ≡ add_tokens acc (sum_of_models ts)
  sum_models_lem acc [] h = sym h
  sum_models_lem acc ((m, t) ∷ ts) h =
      sum_models_lem (add_tokens acc t) ts (add_tokens_zero acc t)
      ∙ add_tokens_assoc acc t (sum_of_models ts)

  reconcile_tokens :
      (acc : Accum F)
      → sum_of_agents (reconcile f sub differ above acc) ≡ sum_of_agents acc.by_subagent
  unfolding reconcile
  reconcile_tokens acc =
      let residual = sub acc.total_cost acc.total_computed in
      let entry = get_or (new_entry f sub differ above) (lookup subagent_main acc.by_subagent) in
      elim (Bool-cases (differ residual (no_usd f sub differ above))) [
        | inr e ↦ rw e refl
        | inl e ↦ rw e (
            sum_values-insert_same token_sums (λ e. e.agent_tokens) subagent_main
              (new_entry f sub differ above)
              (record entry { agent_cost = f.add_float entry.agent_cost residual }) acc.by_subagent
              refl refl)
      ]

  module _ (unmarshal_usage : Str → Option UsageLine)
      (unmarshal_record : Str → Option AttributionRecord) where
    lines-Agree :
        (attrib : Map Str AttributionRecord) (ls : List Str) (s : Accum F × TokenBreakdown)
        → Agree s.0 s.1
        → let t = process_lines f sub differ above unmarshal_usage unmarshal_record attrib ls s in
          Agree t.0 t.1
    lines-Agree attrib [] s h = h
    lines-Agree attrib (l ∷ ls) s h = elim (Bool-cases (is_empty l)) [
      | inl e ↦ rw e (lines-Agree attrib ls s h)
      | inr e ↦ rw e (
          lines-Agree attrib ls (process_decoded f sub differ above attrib (unmarshal_usage l) s)
            (decoded-Agree attrib (unmarshal_usage l) s h))
    ]

    jsonl-Agree :
        (usage attribution : Option Str) (acc : Accum F)
        → Agree acc no_tokens
        → let t =
            process_usage_jsonl f sub differ above unmarshal_usage unmarshal_record usage
              attribution acc in
          Agree t.0 t.1
    unfolding process_usage_jsonl
    jsonl-Agree none attribution acc h = h
    jsonl-Agree (some text) attribution acc h =
        lines-Agree (read_attribution_map unmarshal_record attribution) (split_on 10 [] text)
          (acc, no_tokens) h

    json-Agree :
        (u : Option (UsageJson F)) (acc : Accum F)
        → Agree acc no_tokens
        → Agree (process_usage_json f sub differ above u acc).0 no_tokens
    unfolding process_usage_json
    json-Agree none acc h = h
    json-Agree (some u) acc h = h

    visit-Agree :
        (files : NodeFiles F) (acc : Accum F)
        → Agree acc no_tokens
        → Agree (visit_node f sub differ above unmarshal_usage unmarshal_record files acc) no_tokens
    unfolding visit_node
    visit-Agree files acc h =
        let first = process_usage_json f sub differ above files.usage_json acc in
        let second =
          process_usage_jsonl f sub differ above unmarshal_usage unmarshal_record files.usage_jsonl
            files.attribution_jsonl first.0 in
        let (tokens, agents) =
          jsonl-Agree files.usage_jsonl files.attribution_jsonl first.0
            (json-Agree files.usage_json acc h) in
        let cs = second.0.by_child in
        let c : ChildUsage F = record {
          child_name =
              name_of f sub differ above unmarshal_usage unmarshal_record files.results_json;
          child_depth =
              depth_of f sub differ above unmarshal_usage unmarshal_record files.results_json;
          child_cost = first.1;
          child_tokens = second.1;
        } in
        let sum : add_tokens (sum_children (cs ++ c ∷ [])) no_tokens
            ≡ add_tokens (sum_children cs) second.1 =
          ap (λ x. add_tokens x no_tokens) (sum_children-append cs c)
          ∙ add_tokens_zero (sum_children cs) second.1 in
        (tokens ∙ sym sum, agents ∙ sym sum)

    -- Whatever the tree holds, where the walk returns the nodes of the report are the directories of
    -- the tree, each with the tokens of every line of its usage.jsonl that decodes; and the report's
    -- tokens are the sum of its nodes' and the sum of its subagents'.
    pub report_tokens_agree :
        (fs : Str → NodeFiles F) (n : ℕ) (dir : Str) (acc : Accum F)
        → walk_usage_node f sub differ above unmarshal_usage unmarshal_record fs n dir
            (new_accum f sub differ above)
          ≡ some acc
        → let r = build_usage_report f sub differ above acc in
          (r.token_type_totals ≡ sum_children r.children_usage)
          × (sum_of_agents r.subagents ≡ sum_children r.children_usage)
          × NodesOf (f.of_int64 0) unmarshal_usage fs dir r.children_usage
    unfolding build_usage_report
    report_tokens_agree fs n dir acc e =
        let (tokens, agents) =
          walk_keeps f sub differ above unmarshal_usage unmarshal_record (λ a. Agree a no_tokens)
            visit-Agree fs n dir (new_accum f sub differ above) acc e (refl, refl) in
        let word = sum_children_word acc.by_child in
        (
          sum_models_lem no_tokens acc.by_model_tokens refl
              ∙ ap (add_tokens no_tokens) (tokens ∙ word)
              ∙ add_tokens_comm no_tokens (sum_children acc.by_child)
              ∙ word,
          sum_values-sort_by token_sums (λ e. e.agent_tokens) (subagent_le f sub differ above)
                (reconcile f sub differ above acc)
              ∙ reconcile_tokens acc
              ∙ agents
              ∙ word,
          walk-NodesOf f sub differ above unmarshal_usage unmarshal_record fs n dir
              (new_accum f sub differ above) acc e refl,
        )
