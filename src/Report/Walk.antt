-- ===== src/Report/Walk.antt =====
-- internal/sandbox/usagereport.go: the walk over the tree: what each node keeps the walk keeps, and when
-- it returns.
use mathlib.Core.List.{Memᴰ}
use demesne.Base.{
  All, All-at, is_some, ℕ, zero, suc, ◌<◌, ◌≡◌, refl, ◌∙◌, ap, subst, inl, inr, Bool, true, Option,
  none, some, Option-cases, List, [], ◌∷◌, Str, codes, join_path, arith,
}
use demesne.Tracker.{UsageLine}
use demesne.Pricing.{Floats}
use demesne.Attribution.{AttributionRecord}
use demesne.Report.{NodeFiles, Accum, visit_node, walk_children, children_of, walk_usage_node}

module _ {F : Type 0} (f : Floats F) (sub : F → F → F) (differ : F → F → Bool)
    (above : F → F → Bool) (unmarshal_usage : Str → Option UsageLine)
    (unmarshal_record : Str → Option AttributionRecord) where
  abbrev step : (Str → NodeFiles F) → ℕ → Str → Accum F → Option (Accum F)
  step fs n dir acc =
      walk_usage_node f sub differ above unmarshal_usage unmarshal_record fs n dir acc

  abbrev each : (Str → NodeFiles F) → ℕ → Str → List Str → Accum F → Option (Accum F)
  each fs n dir cs acc =
      walk_children f sub differ above unmarshal_usage unmarshal_record (step fs n) dir cs acc

  module _ (P : Accum F → Type 0)
      (visit : (files : NodeFiles F) (acc : Accum F)
        → P acc
        → P (visit_node f sub differ above unmarshal_usage unmarshal_record files acc))
      (fs : Str → NodeFiles F) where
    children_keep :
        (n : ℕ)
        → ((dir : Str) (acc acc' : Accum F) → step fs n dir acc ≡ some acc' → P acc → P acc')
        → (dir : Str) (cs : List Str) (acc acc' : Accum F) → each fs n dir cs acc ≡ some acc'
        → P acc
        → P acc'
    children_keep n ih dir [] acc acc' e p = let h : acc ≡ acc' = cc e in subst P h p
    children_keep n ih dir (c ∷ cs) acc acc' e p =
        elim (Option-cases (step fs n (join_path (dir ∷ codes "child" ∷ c ∷ [])) acc)) [
          | inl h ↦ absurd (ground (arith, h, e))
          | inr (next, h) ↦
              children_keep n ih dir cs next acc' (cc (h, e))
                (ih (join_path (dir ∷ codes "child" ∷ c ∷ [])) acc next h p)
        ]

    -- What every node keeps, the whole walk keeps.
    pub walk_keeps :
        (n : ℕ) (dir : Str) (acc acc' : Accum F) → step fs n dir acc ≡ some acc' → P acc → P acc'
    unfolding walk_usage_node
    walk_keeps zero dir acc acc' e p = absurd (ground (arith, e))
    walk_keeps (suc n) dir acc acc' e p =
        children_keep n (walk_keeps n) dir
          (children_of f sub differ above unmarshal_usage unmarshal_record (fs dir).results_json)
          (visit_node f sub differ above unmarshal_usage unmarshal_record (fs dir) acc) acc' e
          (visit (fs dir) acc p)

  abbrev children_at : NodeFiles F → List Str
  children_at files =
      children_of f sub differ above unmarshal_usage unmarshal_record files.results_json

  -- Every child of every directory stands lower than the directory.
  abbrev pub Descends : (Str → NodeFiles F) → (Str → ℕ) → Type 0
  Descends fs rank =
      (dir : Str)
      → All (λ c. rank (join_path (dir ∷ codes "child" ∷ c ∷ [])) < rank dir) (children_at (fs dir))

  children_return :
      (fs : Str → NodeFiles F) (n : ℕ) (dir : Str)
      → (cs : List Str)
      → ((c : Str) (acc : Accum F)
          → Memᴰ c cs
          → is_some (step fs n (join_path (dir ∷ codes "child" ∷ c ∷ [])) acc) ≡ true)
      → (acc : Accum F) → is_some (each fs n dir cs acc) ≡ true
  children_return fs n dir [] ih acc = refl
  children_return fs n dir (c ∷ cs) ih acc =
      elim (Option-cases (step fs n (join_path (dir ∷ codes "child" ∷ c ∷ [])) acc)) [
        | inl h ↦ absurd (ground (arith, h, ih c acc (Memᴰ.head refl)))
        | inr (next, h) ↦
            let e : each fs n dir (c ∷ cs) acc ≡ each fs n dir cs next = cc h in
            ap is_some e ∙ children_return fs n dir cs (λ d a m. ih d a (Memᴰ.tail m)) next
      ]

  -- The walk returns where the children of a directory always stand lower than it in some ranking: fuel
  -- above the rank of the root suffices.
  pub walk_returns :
      (fs : Str → NodeFiles F) (rank : Str → ℕ)
      → Descends fs rank
      → (n : ℕ) (dir : Str) → rank dir < n
      → (acc : Accum F)
      → is_some (walk_usage_node f sub differ above unmarshal_usage unmarshal_record fs n dir acc)
        ≡ true
  unfolding walk_usage_node
  walk_returns fs rank d zero dir h acc = absurd (omega (arith, h))
  walk_returns fs rank d (suc n) dir h acc =
      children_return fs n dir (children_at (fs dir))
        (λ c a m.
          walk_returns fs rank d n (join_path (dir ∷ codes "child" ∷ c ∷ []))
            (let lower = All-at _ c (children_at (fs dir)) m (d dir) in omega (arith, lower, h)) a)
        (visit_node f sub differ above unmarshal_usage unmarshal_record (fs dir) acc)

  -- A results.json whose only child is named `..` is its own child: the walk goes round for ever,
  -- whatever fuel it is given.
  pub walk_loops :
      (fs : Str → NodeFiles F) (dir : Str)
      → join_path (dir ∷ codes "child" ∷ codes ".." ∷ []) ≡ dir
      → children_at (fs dir) ≡ codes ".." ∷ []
      → (n : ℕ) (acc : Accum F)
      → walk_usage_node f sub differ above unmarshal_usage unmarshal_record fs n dir acc ≡ none
  unfolding walk_usage_node
  walk_loops fs dir e h zero acc = refl
  walk_loops fs dir e h (suc n) acc =
      let next = visit_node f sub differ above unmarshal_usage unmarshal_record (fs dir) acc in
      cc (h, e, walk_loops fs dir e h n next)
