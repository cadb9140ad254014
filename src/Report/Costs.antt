-- ===== src/Report/Costs.antt =====
-- internal/sandbox/usagereport.go: the costs of the nodes and, with the residual, of the subagents
-- add up to the total, where the arithmetic of costs is exact.
use demesne.Base.{
  ℕ, ◌≡◌, refl, sym, ◌∙◌, ap, inl, inr, Bool, false, Bool-cases, Option, none, some, List, [], ◌∷◌,
  ◌++◌, Str, str_Eq, Map, lookup, is_empty, split_on,
}
use demesne.Tracker.{TokenBreakdown, UsageLine, get_or}
use demesne.Pricing.{Floats}
use demesne.Anthropic.{cost_usd}
use demesne.Results.{no_tokens}
use demesne.Attribution.{AttributionRecord, subagent_main, read_attribution_map}
use demesne.Report.{
  UsageJson, NodeFiles, ChildUsage, SubagentEntry, Accum, bucket_name, counts_of, no_usd, new_accum,
  new_entry, process_usage_json, add_request, process_record, process_decoded, process_lines,
  process_usage_jsonl, name_of, depth_of, visit_node, walk_usage_node, reconcile,
  build_usage_report, subagent_le,
}
use demesne.Report.Nodes.{NodesOf, walk-NodesOf}
use demesne.Report.Walk.{walk_keeps}
use demesne.Report.Sums.{Addition, sum_values, sum_values-insert, sum_values-sort_by}

-- Costs that are added and subtracted without rounding.
pub record ExactCosts {F : Type 0} (f : Floats F) (sub : F → F → F) (differ : F → F → Bool)
    : Type 0 where
  pub add_assoc : (a b c : F) → f.add_float (f.add_float a b) c ≡ f.add_float a (f.add_float b c)
  pub add_comm : (a b : F) → f.add_float a b ≡ f.add_float b a
  pub add_zero : (a : F) → f.add_float a (f.of_int64 0) ≡ a
  pub add_sub : (a b : F) → f.add_float a (sub b a) ≡ b
  pub same_cost : (a b : F) → differ a b ≡ false → a ≡ b

module _ {F : Type 0} (f : Floats F) (sub : F → F → F) (differ : F → F → Bool)
    (above : F → F → Bool) (x : ExactCosts f sub differ) where
  abbrev cost_sums : Addition F
  cost_sums = record {
    zero_sum = f.of_int64 0;
    plus_sum = f.add_float;
    plus_assoc = x.add_assoc;
    plus_comm = x.add_comm;
    zero_zero = x.add_zero (f.of_int64 0);
    plus_zero = λ a b. x.add_zero (f.add_float a b);
  }

  abbrev pub sum_child_costs : List (ChildUsage F) → F
  sum_child_costs [] = f.of_int64 0
  sum_child_costs (c ∷ cs) = f.add_float c.child_cost (sum_child_costs cs)

  abbrev pub sum_agent_costs : Map Str (SubagentEntry F) → F
  sum_agent_costs es = sum_values cost_sums (λ e. e.agent_cost) es

  sum_child_costs-append :
      (cs : List (ChildUsage F)) (c : ChildUsage F)
      → sum_child_costs (cs ++ c ∷ []) ≡ f.add_float (sum_child_costs cs) c.child_cost
  sum_child_costs-append [] c = x.add_comm c.child_cost (f.of_int64 0)
  sum_child_costs-append (d ∷ cs) c =
      cc (sum_child_costs-append cs c, x.add_assoc d.child_cost (sum_child_costs cs) c.child_cost)

  -- The subagents' costs are those computed so far, and the nodes' and this node's are the total.
  abbrev Billed : Accum F → F → Type 0
  Billed acc own =
      (sum_agent_costs acc.by_subagent ≡ acc.total_computed)
      × (acc.total_cost ≡ f.add_float (sum_child_costs acc.by_child) own)

  record-Billed :
      (attrib : Map Str AttributionRecord) (l : UsageLine) (acc : Accum F) (node : TokenBreakdown)
      (own : F)
      → Billed acc own
      → Billed (process_record f sub differ above attrib l (acc, node)).0 own
  record-Billed attrib l acc node own h =
      let cost = cost_usd f l.model (counts_of l.tokens) in
      let name = bucket_name (lookup l.request_id attrib) in
      let entry = get_or (new_entry f sub differ above) (lookup name acc.by_subagent) in
      (
        sum_values-insert cost_sums (λ e. e.agent_cost) name (new_entry f sub differ above)
              (add_request f sub differ above l.tokens cost entry) cost acc.by_subagent refl refl
            ∙ ap (λ y. f.add_float y cost) h.0,
        h.1,
      )

  reconcile_costs :
      (acc : Accum F)
      → sum_agent_costs acc.by_subagent ≡ acc.total_computed
      → sum_agent_costs (reconcile f sub differ above acc) ≡ acc.total_cost
  unfolding reconcile
  reconcile_costs acc h =
      let residual = sub acc.total_cost acc.total_computed in
      let entry = get_or (new_entry f sub differ above) (lookup subagent_main acc.by_subagent) in
      let restored = x.add_sub acc.total_computed acc.total_cost in
      elim (Bool-cases (differ residual (no_usd f sub differ above))) [
        | inr e ↦ rw e (
            h
            ∙ sym (x.add_zero acc.total_computed)
            ∙ ap (f.add_float acc.total_computed) (sym (x.same_cost residual (f.of_int64 0) e))
            ∙ restored)
        | inl e ↦ rw e (
            sum_values-insert cost_sums (λ e. e.agent_cost) subagent_main
              (new_entry f sub differ above)
              (record entry { agent_cost = f.add_float entry.agent_cost residual }) residual
              acc.by_subagent refl refl
            ∙ ap (λ y. f.add_float y residual) h
            ∙ restored)
      ]

  module _ (unmarshal_usage : Str → Option UsageLine)
      (unmarshal_record : Str → Option AttributionRecord) where
    lines-Billed :
        (attrib : Map Str AttributionRecord) (ls : List Str) (s : Accum F × TokenBreakdown)
        (own : F)
        → Billed s.0 own
        → Billed
            (process_lines f sub differ above unmarshal_usage unmarshal_record attrib ls s).0
            own
    lines-Billed attrib [] s own h = h
    lines-Billed attrib (l ∷ ls) s own h = elim (Bool-cases (is_empty l)) [
      | inl e ↦ rw e (lines-Billed attrib ls s own h)
      | inr e ↦ rw e (
          lines-Billed attrib ls (process_decoded f sub differ above attrib (unmarshal_usage l) s)
            own (one (unmarshal_usage l)))
    ]
      where
        one : (o : Option UsageLine) → Billed (process_decoded f sub differ above attrib o s).0 own
        one none = h
        one (some u) = record-Billed attrib u s.0 s.1 own h

    jsonl-Billed :
        (usage attribution : Option Str) (acc : Accum F) (own : F)
        → Billed acc own
        → Billed
            (process_usage_jsonl f sub differ above unmarshal_usage unmarshal_record usage
              attribution acc).0
            own
    unfolding process_usage_jsonl
    jsonl-Billed none attribution acc own h = h
    jsonl-Billed (some text) attribution acc own h =
        lines-Billed (read_attribution_map unmarshal_record attribution) (split_on 10 [] text)
          (acc, no_tokens) own h

    json-Billed :
        (u : Option (UsageJson F)) (acc : Accum F)
        → Billed acc (f.of_int64 0)
        → let s = process_usage_json f sub differ above u acc in Billed s.0 s.1
    unfolding process_usage_json
    json-Billed none acc h = h
    json-Billed (some u) acc h =
        (h.0, ap (λ y. f.add_float y u.json_cost) (h.1 ∙ x.add_zero (sum_child_costs acc.by_child)))

    visit-Billed :
        (files : NodeFiles F) (acc : Accum F)
        → Billed acc (f.of_int64 0)
        → Billed
            (visit_node f sub differ above unmarshal_usage unmarshal_record files acc)
            (f.of_int64 0)
    unfolding visit_node
    visit-Billed files acc h =
        let first = process_usage_json f sub differ above files.usage_json acc in
        let second =
          process_usage_jsonl f sub differ above unmarshal_usage unmarshal_record files.usage_jsonl
            files.attribution_jsonl first.0 in
        let (agents, total) =
          jsonl-Billed files.usage_jsonl files.attribution_jsonl first.0 first.1
            (json-Billed files.usage_json acc h) in
        let cs = second.0.by_child in
        let c : ChildUsage F = record {
          child_name =
              name_of f sub differ above unmarshal_usage unmarshal_record files.results_json;
          child_depth =
              depth_of f sub differ above unmarshal_usage unmarshal_record files.results_json;
          child_cost = first.1;
          child_tokens = second.1;
        } in
        (
          agents,
          total
              ∙ sym (sum_child_costs-append cs c)
              ∙ sym (x.add_zero (sum_child_costs (cs ++ c ∷ []))),
        )

    -- Where costs are added without rounding and the walk returns, the report loses no spend: its nodes
    -- are the directories of the tree, each with the cost that its usage.json says; these costs add up
    -- to its total, and so do the costs of its subagents, the residual in the main one.
    pub report_costs_reconciled :
        (fs : Str → NodeFiles F) (n : ℕ) (dir : Str) (acc : Accum F)
        → walk_usage_node f sub differ above unmarshal_usage unmarshal_record fs n dir
            (new_accum f sub differ above)
          ≡ some acc
        → let r = build_usage_report f sub differ above acc in
          (sum_agent_costs r.subagents ≡ r.report_total)
          × (sum_child_costs r.children_usage ≡ r.report_total)
          × NodesOf (f.of_int64 0) unmarshal_usage fs dir r.children_usage
    unfolding build_usage_report
    report_costs_reconciled fs n dir acc e =
        let zero = f.of_int64 0 in
        let (agents, total) =
          walk_keeps f sub differ above unmarshal_usage unmarshal_record (λ a. Billed a zero)
            visit-Billed fs n dir (new_accum f sub differ above) acc e
            (refl, sym (x.add_zero zero)) in
        (
          sum_values-sort_by cost_sums (λ e. e.agent_cost) (subagent_le f sub differ above)
                (reconcile f sub differ above acc)
              ∙ reconcile_costs acc agents,
          sym (x.add_zero (sum_child_costs acc.by_child)) ∙ sym total,
          walk-NodesOf f sub differ above unmarshal_usage unmarshal_record fs n dir
              (new_accum f sub differ above) acc e refl,
        )
