-- ===== src/Tracker/Snapshots.antt =====
-- internal/proxies/proxycommon/tracker.go: what usage.json holds, and that it does not depend on the
-- order in which a map is iterated.
use mathlib.Core.List.{Permᴰ}
use demesne.Base.{
  ◌≡◌, refl, ◌∙◌, ap, not, ◌||◌, Bool-cases, inl, inr, append-nil, Option, some, List, [], ◌∷◌,
  ◌++◌, map, if◌then◌else◌, Str, Map, lookup, str_Eq, is_empty, sort_strings-Permᴰ, arith,
}
use demesne.Tracker.{
  model_name, add_to, add64, UsageLine, Vendor, Outcome, Tracker, Event, used, parse_error,
  no_usage_block, get_or, reports, sum_costs, models, snapshot, persist, append_request, add,
  add_dropped_parse_error, add_dropped_no_usage_block, handle,
}

module _ {TC F R : Type 0} (v : Vendor TC F R) (marshal : UsageLine → Str) where
  reports_same :
      (ms : List Str) (a b : Map Str TC)
      → ((k : Str) → lookup k a ≡ lookup k b)
      → reports v marshal ms a ≡ reports v marshal ms b
  reports_same [] a b h = refl
  reports_same (m ∷ ms) a b h = cc (h m, reports_same ms a b h)

  sum_costs_same :
      (ms : List Str) (acc : F) (a b : Map Str TC)
      → ((k : Str) → lookup k a ≡ lookup k b)
      → sum_costs v marshal acc ms a ≡ sum_costs v marshal acc ms b
  sum_costs_same [] acc a b h = refl
  sum_costs_same (m ∷ ms) acc a b h =
      let cost = λ (o : Option TC). v.add_cost acc (v.cost m (get_or v.none_used o)) in
      ap (λ o. sum_costs v marshal (cost o) ms a) (h m)
      ∙ sum_costs_same ms (cost (lookup m b)) a b h

  -- Two trackers with equal drop counters whose maps hold the same entries, iterated in different
  -- orders, have the same snapshot, its aggregate cost included, although nothing is assumed of the
  -- addition of costs, not even that it commutes.
  pub snapshot_order :
      (s t : Tracker TC F R)
      → Permᴰ (map (λ e. e.0) s.per_model) (map (λ e. e.0) t.per_model)
      → ((k : Str) → lookup k s.per_model ≡ lookup k t.per_model)
      → s.dropped_parse_errors ≡ t.dropped_parse_errors
      → s.dropped_no_usage_block ≡ t.dropped_no_usage_block
      → snapshot v marshal s ≡ snapshot v marshal t
  unfolding snapshot
  snapshot_order s t p same e₁ e₂ = cc (
    sort_strings-Permᴰ p,
    reports_same (models v marshal s.per_model) s.per_model t.per_model same,
    sum_costs_same (models v marshal s.per_model) v.no_cost s.per_model t.per_model same,
  )

  persist_lem :
      (io : Outcome) (t : Tracker TC F R)
      → let t' = persist v marshal io t in
        (t'.usage_json ≡ (
          if is_empty t.usage_path || not io.replaced
          then t.usage_json
          else some (snapshot v marshal t')))
        × (t'.usage_jsonl ≡ t.usage_jsonl)
        × (t'.usage_path ≡ t.usage_path)
  unfolding persist snapshot
  persist_lem io t = ground arith

  append_request_lem :
      (io : Outcome) (model : Str) (tc : TC) (rid : Str) (t : Tracker TC F R)
      → let t' = append_request v marshal io model tc rid t in
        ((line : Str) × (t'.usage_jsonl
            ≡ (if is_empty t.usage_path then t.usage_jsonl else t.usage_jsonl ++ line)))
        × (t'.usage_json ≡ t.usage_json)
        × (t'.usage_path ≡ t.usage_path)
  unfolding append_request
  append_request_lem io model tc rid t =
      let line =
        marshal (record { request_id = rid; ts = io.now; model = model; tokens = v.tokens tc })
        ++ 10 ∷ [] in
      elim (Bool-cases io.appended) [
        | inl h ↦ (
          (
            line,
            elim (Bool-cases (is_empty t.usage_path)) [
              | inl e ↦ rw (e, append_request)
              | inr e ↦ rw (e, h, append_request)
            ],
          ),
          ground arith,
          ground arith,
        )
        | inr h ↦ (([], ground (arith, append-nil t.usage_jsonl)), ground arith, ground arith)
      ]

  -- After any call usage.json holds the snapshot of the state that the call ends in, or, without a
  -- path or where the write fails, what it held before; the ledger only grows, and not without a path.
  pub usage_json_current :
      (io : Outcome) (e : Event TC) (t : Tracker TC F R)
      → let t' = handle v marshal io e t in
        (t'.usage_json ≡ (
          if is_empty t.usage_path || not io.replaced
          then t.usage_json
          else some (snapshot v marshal t')))
        × ((line : Str) × (t'.usage_jsonl
              ≡ (if is_empty t.usage_path then t.usage_jsonl else t.usage_jsonl ++ line)))
        × (t'.usage_path ≡ t.usage_path)
  unfolding add add_dropped_parse_error add_dropped_no_usage_block
  usage_json_current io (used model tc rid) t =
      let name = model_name v marshal model in
      let s = record t { per_model = add_to v marshal name tc t.per_model } in
      let q = append_request_lem io name tc rid s in
      let p = persist_lem io (append_request v marshal io name tc rid s) in
      (ground (arith, p.0, q.1, q.2), (q.0.0, ground (arith, p.1, q.0.1)), ground (arith, p.2, q.2))
  usage_json_current io parse_error t =
      let s = record t { dropped_parse_errors = add64 t.dropped_parse_errors 1 } in
      let p = persist_lem io s in (p.0, ([], ground (arith, p.1, append-nil t.usage_jsonl)), p.2)
  usage_json_current io no_usage_block t =
      let s = record t { dropped_no_usage_block = add64 t.dropped_no_usage_block 1 } in
      let p = persist_lem io s in (p.0, ([], ground (arith, p.1, append-nil t.usage_jsonl)), p.2)
