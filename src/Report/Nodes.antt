-- ===== src/Report/Nodes.antt =====
-- internal/sandbox/usagereport.go: the nodes of a report: which directories they stand for, and what
-- each says of its files.
use demesne.Base.{
  ℕ, zero, suc, ◌≡◌, refl, sym, ◌∙◌, ap, subst, inl, inr, Bool, Bool-cases, Option, none, some,
  Option-cases, List, [], ◌∷◌, ◌++◌, append_assoc, append-nil, map, if◌then◌else◌, Str, codes, Map,
  is_empty, join_path, split_on, arith,
}
use demesne.Tracker.{TokenBreakdown, UsageLine}
use demesne.Pricing.{Floats}
use demesne.Results.{no_tokens, add_tokens, Results}
use demesne.Attribution.{AttributionRecord, read_attribution_map}
use demesne.Report.{
  UsageJson, NodeFiles, ChildUsage, Accum, process_usage_json, process_decoded, process_lines,
  process_usage_jsonl, visit_node, walk_children, walk_usage_node, name_of, depth_of, children_of,
}

abbrev pub listed_children : {F : Type 0} → Option (Results F) → List Str
listed_children none = []
listed_children (some r) = r.children

-- The directories of a tree, each before those of its children: the children are those that its
-- results.json names.
mutual
  pub data Walked {F : Type 0} (fs : Str → NodeFiles F) : Str → List Str → Type 0 where
    node :
        {dir : Str} {ds : List Str}
        → EachWalked fs dir (listed_children (fs dir).results_json) ds
        → Walked fs dir (dir ∷ ds)

  pub data EachWalked {F : Type 0} (fs : Str → NodeFiles F)
      : Str → List Str → List Str → Type 0 where
    no_more : {dir : Str} → EachWalked fs dir [] []
    one_more :
        {dir c : Str} {cs ds es : List Str}
        → Walked fs (join_path (dir ∷ codes "child" ∷ c ∷ [])) ds
        → EachWalked fs dir cs es
        → EachWalked fs dir (c ∷ cs) (ds ++ es)

abbrev decoded_then : Option UsageLine → List UsageLine → List UsageLine
decoded_then none ls = ls
decoded_then (some l) ls = l ∷ ls

-- The lines that are not empty and decode.
abbrev pub lines_in : (Str → Option UsageLine) → List Str → List UsageLine
lines_in unmarshal [] = []
lines_in unmarshal (l ∷ ls) =
    let rest = lines_in unmarshal ls in if is_empty l then rest else decoded_then (unmarshal l) rest

abbrev pub tally : TokenBreakdown → List UsageLine → TokenBreakdown
tally t [] = t
tally t (l ∷ ls) = tally (add_tokens t l.tokens) ls

abbrev pub tokens_in : (Str → Option UsageLine) → Option Str → TokenBreakdown
tokens_in unmarshal none = no_tokens
tokens_in unmarshal (some text) = tally no_tokens (lines_in unmarshal (split_on 10 [] text))

abbrev pub cost_in : {F : Type 0} → F → Option (UsageJson F) → F
cost_in zero_usd none = zero_usd
cost_in zero_usd (some u) = u.json_cost

abbrev pub name_in : {F : Type 0} → Option (Results F) → Str
name_in none = []
name_in (some r) = r.name

abbrev pub depth_in : {F : Type 0} → Option (Results F) → ℕ
depth_in none = 0
depth_in (some r) = r.depth

-- What the files of a directory say: the cost of usage.json, and the tokens of every line of
-- usage.jsonl that decodes.
abbrev pub node_entry : {F : Type 0} → F → (Str → Option UsageLine) → NodeFiles F → ChildUsage F
node_entry zero_usd unmarshal files = record {
  child_name = name_in files.results_json;
  child_depth = depth_in files.results_json;
  child_cost = cost_in zero_usd files.usage_json;
  child_tokens = tokens_in unmarshal files.usage_jsonl;
}

-- The nodes are those of the directories of the tree, in this order.
abbrev pub NodesOf :
    {F : Type 0}
    → F
    → (Str → Option UsageLine)
    → (Str → NodeFiles F)
    → Str
    → List (ChildUsage F)
    → Type 0
NodesOf zero_usd unmarshal fs dir nodes =
    (ds : List Str) × Walked fs dir ds
    × (nodes ≡ map (λ d. node_entry zero_usd unmarshal (fs d)) ds)

map_append : {A B : Type 0} (f : A → B) (xs ys : List A) → map f (xs ++ ys) ≡ map f xs ++ map f ys
map_append f [] ys = refl
map_append f (x ∷ xs) ys = ap (λ zs. f x ∷ zs) (map_append f xs ys)

module _ {F : Type 0} (f : Floats F) (sub : F → F → F) (differ : F → F → Bool)
    (above : F → F → Bool) (unmarshal_usage : Str → Option UsageLine)
    (unmarshal_record : Str → Option AttributionRecord) where
  abbrev lines_done :
      Map Str AttributionRecord → List Str → Accum F × TokenBreakdown → Accum F × TokenBreakdown
  lines_done = process_lines f sub differ above unmarshal_usage unmarshal_record

  lines_lem :
      (attrib : Map Str AttributionRecord) (ls : List Str) (s : Accum F × TokenBreakdown)
      → ((lines_done attrib ls s).1 ≡ tally s.1 (lines_in unmarshal_usage ls))
        × ((lines_done attrib ls s).0.by_child ≡ s.0.by_child)
  lines_lem attrib [] s = (refl, refl)
  lines_lem attrib (l ∷ ls) s = elim (Bool-cases (is_empty l)) [
    | inl e ↦ rw e (lines_lem attrib ls s)
    | inr e ↦ rw e (decoded (lines_lem attrib ls) (unmarshal_usage l) s)
  ]
    where
      decoded :
          ((r : Accum F × TokenBreakdown)
            → ((lines_done attrib ls r).1 ≡ tally r.1 (lines_in unmarshal_usage ls))
              × ((lines_done attrib ls r).0.by_child ≡ r.0.by_child))
          → (o : Option UsageLine) (s : Accum F × TokenBreakdown)
          → let t = lines_done attrib ls (process_decoded f sub differ above attrib o s) in
            (t.1 ≡ tally s.1 (decoded_then o (lines_in unmarshal_usage ls)))
            × (t.0.by_child ≡ s.0.by_child)
      decoded rest none s = rest s
      decoded rest (some u) s = rest (process_decoded f sub differ above attrib (some u) s)

  jsonl_lem :
      (usage attribution : Option Str) (acc : Accum F)
      → let t =
          process_usage_jsonl f sub differ above unmarshal_usage unmarshal_record usage attribution
            acc in
        (t.1 ≡ tokens_in unmarshal_usage usage) × (t.0.by_child ≡ acc.by_child)
  unfolding process_usage_jsonl
  jsonl_lem none attribution acc = (refl, refl)
  jsonl_lem (some text) attribution acc =
      lines_lem (read_attribution_map unmarshal_record attribution) (split_on 10 [] text)
        (acc, no_tokens)

  json_lem :
      (u : Option (UsageJson F)) (acc : Accum F)
      → let t = process_usage_json f sub differ above u acc in
        (t.1 ≡ cost_in (f.of_int64 0) u) × (t.0.by_child ≡ acc.by_child)
  unfolding process_usage_json
  json_lem none acc = (refl, refl)
  json_lem (some u) acc = (refl, refl)

  abbrev entry_of : NodeFiles F → ChildUsage F
  entry_of = node_entry (f.of_int64 0) unmarshal_usage

  name_lem :
      (r : Option (Results F)) (cost : F) (t : TokenBreakdown)
      → ◌≡◌ {A = ChildUsage F}
          (record {
            child_name = name_of f sub differ above unmarshal_usage unmarshal_record r;
            child_depth = depth_of f sub differ above unmarshal_usage unmarshal_record r;
            child_cost = cost;
            child_tokens = t;
          })
          (record {
            child_name = name_in r;
            child_depth = depth_in r;
            child_cost = cost;
            child_tokens = t;
          })
  name_lem none cost t = refl
  name_lem (some r) cost t = refl

  visit_lem :
      (files : NodeFiles F) (acc : Accum F)
      → (visit_node f sub differ above unmarshal_usage unmarshal_record files acc).by_child
        ≡ acc.by_child ++ entry_of files ∷ []
  unfolding visit_node
  visit_lem files acc =
      let first = process_usage_json f sub differ above files.usage_json acc in
      let (tokens, kept) = jsonl_lem files.usage_jsonl files.attribution_jsonl first.0 in
      let (cost, same) = json_lem files.usage_json acc in
      rw (tokens, kept, cost, same)
        (ap (λ e. acc.by_child ++ e ∷ [])
          (name_lem files.results_json (cost_in (f.of_int64 0) files.usage_json)
            (tokens_in unmarshal_usage files.usage_jsonl)))

  module _ (fs : Str → NodeFiles F) where
    abbrev step : ℕ → Str → Accum F → Option (Accum F)
    step = walk_usage_node f sub differ above unmarshal_usage unmarshal_record fs

    abbrev entries : List Str → List (ChildUsage F)
    entries = map (λ d. entry_of (fs d))

    children_lem :
        (n : ℕ)
        → ((dir : Str) (acc acc' : Accum F)
            → step n dir acc ≡ some acc'
            → (ds : List Str) × Walked fs dir ds × (acc'.by_child ≡ acc.by_child ++ entries ds))
        → (dir : Str) (cs : List Str) (acc acc' : Accum F)
        → walk_children f sub differ above unmarshal_usage unmarshal_record (step n) dir cs acc
          ≡ some acc'
        → (ds : List Str) × EachWalked fs dir cs ds × (acc'.by_child ≡ acc.by_child ++ entries ds)
    children_lem n ih dir [] acc acc' e =
        let same : acc ≡ acc' = cc e in
        ([], no_more, ap (λ a. a.by_child) (sym same) ∙ sym (append-nil acc.by_child))
    children_lem n ih dir (c ∷ cs) acc acc' e =
        elim (Option-cases (step n (join_path (dir ∷ codes "child" ∷ c ∷ [])) acc)) [
          | inl h ↦ absurd (ground (arith, h, e))
          | inr (mid, h) ↦
              let (ds, walked, first) = ih (join_path (dir ∷ codes "child" ∷ c ∷ [])) acc mid h in
              let (es, each, rest) = children_lem n ih dir cs mid acc' (cc (h, e)) in
              (
                ds ++ es,
                one_more walked each,
                rest
                    ∙ ap (λ x. x ++ entries es) first
                    ∙ append_assoc acc.by_child (entries ds) (entries es)
                    ∙ ap (λ x. acc.by_child ++ x) (sym (map_append (λ d. entry_of (fs d)) ds es)),
              )
        ]

    listed_lem :
        (r : Option (Results F))
        → children_of f sub differ above unmarshal_usage unmarshal_record r ≡ listed_children r
    listed_lem none = refl
    listed_lem (some r) = refl

    walk_lem :
        (n : ℕ) (dir : Str) (acc acc' : Accum F)
        → step n dir acc ≡ some acc'
        → (ds : List Str) × Walked fs dir ds × (acc'.by_child ≡ acc.by_child ++ entries ds)
    unfolding walk_usage_node
    walk_lem zero dir acc acc' e = absurd (ground (arith, e))
    walk_lem (suc n) dir acc acc' e =
        let after = visit_node f sub differ above unmarshal_usage unmarshal_record (fs dir) acc in
        let r = (fs dir).results_json in
        let kids = children_of f sub differ above unmarshal_usage unmarshal_record r in
        let (ds, each, same) = children_lem n (walk_lem n) dir kids after acc' e in
        (
          dir ∷ ds,
          node (subst (λ cs. EachWalked fs dir cs ds) (listed_lem r) each),
          same
              ∙ ap (λ x. x ++ entries ds) (visit_lem (fs dir) acc)
              ∙ append_assoc acc.by_child (entry_of (fs dir) ∷ []) (entries ds),
        )

    -- Where the walk returns, its nodes are those of the tree's directories.
    pub walk-NodesOf :
        (n : ℕ) (dir : Str) (acc acc' : Accum F)
        → step n dir acc ≡ some acc'
        → acc.by_child ≡ []
        → NodesOf (f.of_int64 0) unmarshal_usage fs dir acc'.by_child
    walk-NodesOf n dir acc acc' e none_yet =
        let (ds, walked, same) = walk_lem n dir acc acc' e in
        (ds, walked, same ∙ ap (λ x. x ++ entries ds) none_yet)
