-- ===== src/Tracker/Totals.antt =====
-- internal/proxies/proxycommon/tracker.go: the totals per model.
use demesne.Base.{
  ℕ, ◌≡◌, refl, ◌∙◌, true, false, Bool-cases, inl, inr, Option, some, List, [], ◌∷◌, ◌++◌,
  if◌then◌else◌, Str, str_eq, str_eq_iff, lookup, str_Eq, is_empty, arith, lookup-insert,
}
use demesne.Tracker.{
  UsageLine, Vendor, Outcome, Tracker, Event, used, parse_error, no_usage_block, get_or, model_name,
  add_to, add64, persist, append_request, add, add_dropped_parse_error, add_dropped_no_usage_block,
  run,
}

module _ {TC F R : Type 0} (v : Vendor TC F R) (marshal : UsageLine → Str) where
  -- The reference: the requests of one model, folded in order.
  pub credited : Str → List (Outcome × Event TC) → Option TC → Option TC
  credited m [] total = total
  credited m ((io, used model tc rid) ∷ es) total =
      if str_eq (model_name v marshal model) m
      then credited m es (some (v.combine (get_or v.none_used total) tc))
      else credited m es total
  credited m ((io, parse_error) ∷ es) total = credited m es total
  credited m ((io, no_usage_block) ∷ es) total = credited m es total

  pub count_drops : List (Outcome × Event TC) → ℕ × ℕ → ℕ × ℕ
  count_drops [] n = n
  count_drops ((io, used model tc rid) ∷ es) n = count_drops es n
  count_drops ((io, parse_error) ∷ es) (p, u) = count_drops es (add64 p 1, u)
  count_drops ((io, no_usage_block) ∷ es) (p, u) = count_drops es (p, add64 u 1)

  pub add_lem :
      (io : Outcome) (model : Str) (tc : TC) (rid : Str) (t : Tracker TC F R)
      → let t' = add v marshal io model tc rid t in
        (t'.per_model ≡ add_to v marshal (model_name v marshal model) tc t.per_model)
        × (t'.dropped_parse_errors ≡ t.dropped_parse_errors)
        × (t'.dropped_no_usage_block ≡ t.dropped_no_usage_block)
  unfolding add persist append_request
  add_lem io model tc rid t = ground arith

  persist_keeps :
      (io : Outcome) (t : Tracker TC F R)
      → ((persist v marshal io t).usage_jsonl ≡ t.usage_jsonl)
        × ((persist v marshal io t).usage_path ≡ t.usage_path)
  unfolding persist
  persist_keeps io t = ground arith

  append_file :
      (io : Outcome) (model : Str) (tc : TC) (rid : Str) (t : Tracker TC F R)
      → io.appended ≡ true
      → is_empty t.usage_path ≡ false
      → ((append_request v marshal io model tc rid t).usage_jsonl
          ≡ t.usage_jsonl
            ++ (marshal
                  (record { request_id = rid; ts = io.now; model = model; tokens = v.tokens tc })
                ++ 10 ∷ []))
        × ((append_request v marshal io model tc rid t).usage_path ≡ t.usage_path)
  unfolding append_request
  append_file io model tc rid t h k = (rw (k, h, append_request), rw (k, h, append_request))

  -- The line of a request, appended to a ledger that can be written.
  pub add_file :
      (io : Outcome) (model : Str) (tc : TC) (rid : Str) (t : Tracker TC F R)
      → io.appended ≡ true
      → is_empty t.usage_path ≡ false
      → ((add v marshal io model tc rid t).usage_jsonl
          ≡ t.usage_jsonl
            ++ (marshal (record {
              request_id = rid;
              ts = io.now;
              model = model_name v marshal model;
              tokens = v.tokens tc;
            })
                ++ 10 ∷ []))
        × ((add v marshal io model tc rid t).usage_path ≡ t.usage_path)
  unfolding add
  add_file io model tc rid t h k =
      let name = model_name v marshal model in
      let s = record t { per_model = add_to v marshal name tc t.per_model } in
      let p = persist_keeps io (append_request v marshal io name tc rid s) in
      let q = append_file io name tc rid s h k in (p.0 ∙ q.0, p.1 ∙ q.1)

  pub parse_error_lem :
      (io : Outcome) (t : Tracker TC F R)
      → let t' = add_dropped_parse_error v marshal io t in
        (t'.per_model ≡ t.per_model)
        × (t'.dropped_parse_errors ≡ add64 t.dropped_parse_errors 1)
        × (t'.dropped_no_usage_block ≡ t.dropped_no_usage_block)
        × (t'.usage_jsonl ≡ t.usage_jsonl)
        × (t'.usage_path ≡ t.usage_path)
  unfolding add_dropped_parse_error persist
  parse_error_lem io t = ground arith

  pub no_usage_block_lem :
      (io : Outcome) (t : Tracker TC F R)
      → let t' = add_dropped_no_usage_block v marshal io t in
        (t'.per_model ≡ t.per_model)
        × (t'.dropped_parse_errors ≡ t.dropped_parse_errors)
        × (t'.dropped_no_usage_block ≡ add64 t.dropped_no_usage_block 1)
        × (t'.usage_jsonl ≡ t.usage_jsonl)
        × (t'.usage_path ≡ t.usage_path)
  unfolding add_dropped_no_usage_block persist
  no_usage_block_lem io t = ground arith

  -- Whatever becomes of the files, the total of a model is what it held with the requests of the model
  -- combined into it in the order of the calls, an empty model counting as "unknown" and other models
  -- changing nothing, and the drop counters have counted the dropped requests of either kind.
  pub totals_exact :
      (es : List (Outcome × Event TC)) (t : Tracker TC F R) (m : Str)
      → let t' = run v marshal es t in
        (lookup m t'.per_model ≡ credited m es (lookup m t.per_model))
        × ((t'.dropped_parse_errors, t'.dropped_no_usage_block)
            ≡ count_drops es (t.dropped_parse_errors, t.dropped_no_usage_block))
  unfolding credited count_drops
  totals_exact [] t m = (refl, refl)
  totals_exact ((io, used model tc rid) ∷ es) t m =
      let l = add_lem io model tc rid t in
      let ih = totals_exact es (add v marshal io model tc rid t) m in
      let name = model_name v marshal model in
      let total = v.combine (get_or v.none_used (lookup name t.per_model)) tc in
      elim (Bool-cases (str_eq name m)) [
        | inl e ↦ (
          rw e (cc (ih.0, l.0, lookup-insert name m total t.per_model, e, (str_eq_iff name m).0 e)),
          cc (ih.1, l.1, l.2),
        )
        | inr e ↦
            (rw e (cc (ih.0, l.0, lookup-insert name m total t.per_model, e)), cc (ih.1, l.1, l.2))
      ]
  totals_exact ((io, parse_error) ∷ es) t m =
      let l = parse_error_lem io t in
      let ih = totals_exact es (add_dropped_parse_error v marshal io t) m in
      (cc (ih.0, l.0), cc (ih.1, l.1, l.2))
  totals_exact ((io, no_usage_block) ∷ es) t m =
      let l = no_usage_block_lem io t in
      let ih = totals_exact es (add_dropped_no_usage_block v marshal io t) m in
      (cc (ih.0, l.0), cc (ih.1, l.1, l.2))
