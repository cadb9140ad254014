-- ===== src/Results/Ledger.antt =====
-- internal/proxies/proxycommon/tracker.go and internal/sandbox/results.go: what the host reads from
-- usage.jsonl is what the proxy counted.
use demesne.Base.{
  ◌≡◌, refl, sym, ◌∙◌, ap, inl, inr, true, false, Bool-cases, Option, none, some, List, [], ◌∷◌,
  ◌++◌, append_assoc, Str, str_eq, codes, Map, lookup, insert, lookup-insert, str_Eq, is_empty,
  index_byte, split_on, split_on-part, All,
}
use demesne.Tracker.{
  TokenBreakdown, UsageLine, Vendor, Outcome, Tracker, Event, used, parse_error, no_usage_block,
  get_or, model_name, new_tracker, add, add_dropped_parse_error, add_dropped_no_usage_block, run,
  add_to,
}
use demesne.Tracker.Totals.{add_lem, add_file, parse_error_lem, no_usage_block_lem}
use demesne.Results.{no_tokens, add_tokens, tokens_of, add_line, sum_lines, read_per_model_tokens}

-- The text of a file with these lines, each with its line end.
pub text_of : List Str → Str
text_of [] = []
text_of (l ∷ ls) = l ++ 10 ∷ text_of ls

pub text_of-append : (ls ms : List Str) → text_of (ls ++ ms) ≡ text_of ls ++ text_of ms
unfolding text_of
text_of-append [] ms = refl
text_of-append (l ∷ ls) ms =
    ap (λ s. l ++ 10 ∷ s) (text_of-append ls ms)
    ∙ sym (append_assoc l (10 ∷ text_of ls) (text_of ms))

pub split_on-text_of :
    (ls : List Str)
    → All (λ l. index_byte 10 l ≡ none) ls
    → split_on 10 [] (text_of ls) ≡ ls ++ [] ∷ []
unfolding text_of split_on
split_on-text_of [] h = refl
split_on-text_of (l ∷ ls) h =
    split_on-part 10 [] l (text_of ls) h.0 ∙ ap (λ x. l ∷ x) (split_on-text_of ls h.1)

module _ (unmarshal : Str → Option UsageLine) where
  sum_lines-append :
      (ls ms : List Str) (totals : Map Str TokenBreakdown)
      → sum_lines unmarshal (ls ++ ms) totals
        ≡ sum_lines unmarshal ms (sum_lines unmarshal ls totals)
  unfolding sum_lines
  sum_lines-append [] ms totals = refl
  sum_lines-append (l ∷ ls) ms totals = elim (Bool-cases (is_empty l)) [
    | inl e ↦ rw (e, sum_lines) (sum_lines-append ls ms totals)
    | inr e ↦ rw (e, sum_lines) (sum_lines-append ls ms (add_line unmarshal (unmarshal l) totals))
  ]

  -- A text of whole lines is read as its lines.
  pub read_text_of :
      (ls : List Str)
      → All (λ l. index_byte 10 l ≡ none) ls
      → read_per_model_tokens unmarshal (some (text_of ls)) ≡ sum_lines unmarshal ls []
  unfolding read_per_model_tokens sum_lines
  read_text_of ls h =
      ap (λ x. sum_lines unmarshal x []) (split_on-text_of ls h) ∙ sum_lines-append ls ([] ∷ []) []

  -- Appending one line adds its tokens to its model.
  pub sum_lines_snoc :
      (ls : List Str) (l : Str) (u : UsageLine)
      → is_empty l ≡ false
      → unmarshal l ≡ some u
      → sum_lines unmarshal (ls ++ l ∷ []) []
        ≡ insert u.model
            (add_tokens (tokens_of u.model (sum_lines unmarshal ls [])) u.tokens)
            (sum_lines unmarshal ls [])
  unfolding sum_lines
  sum_lines_snoc ls l u h e = sum_lines-append ls (l ∷ []) [] ∙ rw (h, e, sum_lines)

-- Every request of these events names a model that JSON can carry, and its line reaches the file.
abbrev pub Recorded : {TC : Type 0} → (Str → Type 0) → Outcome × Event TC → Type 0
Recorded Valid (io, used model tc rid) = (io.appended ≡ true) × Valid model
Recorded Valid (io, parse_error) = Unit
Recorded Valid (io, no_usage_block) = Unit

module _ {TC F R : Type 0} (v : Vendor TC F R) (marshal : UsageLine → Str)
    (unmarshal : Str → Option UsageLine) (Valid : Str → Type 0)
    (valid_unknown : Valid (codes "unknown"))
    (decode : (l : UsageLine)
      → Valid l.model
      → (u : UsageLine) × (unmarshal (marshal l) ≡ some u)
        × (u.model ≡ l.model)
        × (u.tokens ≡ l.tokens))
    (one_line : (l : UsageLine) → index_byte 10 (marshal l) ≡ none)
    (nonempty : (l : UsageLine) → is_empty (marshal l) ≡ false)
    (tokens_zero : v.tokens v.none_used ≡ no_tokens)
    (tokens_combine : (a b : TC)
      → v.tokens (v.combine a b) ≡ add_tokens (v.tokens a) (v.tokens b)) where
  -- The file holds whole lines, and their sums are the totals.
  Balanced : Tracker TC F R → Type 0
  Balanced t =
      (ls : List Str) × (t.usage_jsonl ≡ text_of ls)
      × All (λ l. index_byte 10 l ≡ none) ls
      × ((m : Str)
          → tokens_of m (sum_lines unmarshal ls [])
            ≡ v.tokens (get_or v.none_used (lookup m t.per_model)))
      × (is_empty t.usage_path ≡ false)

  model_name_valid : (model : Str) → Valid model → Valid (model_name v marshal model)
  model_name_valid [] h = valid_unknown
  model_name_valid (c ∷ s) h = h

  sums_add :
      (ls : List Str) (name : Str) (tc : TC) (l : Str) (u : UsageLine) (totals : Map Str TC)
      → unmarshal l ≡ some u
      → is_empty l ≡ false
      → u.model ≡ name
      → u.tokens ≡ v.tokens tc
      → ((m : Str)
          → tokens_of m (sum_lines unmarshal ls [])
            ≡ v.tokens (get_or v.none_used (lookup m totals)))
      → (m : Str)
      → tokens_of m (sum_lines unmarshal (ls ++ l ∷ []) [])
        ≡ v.tokens (get_or v.none_used (lookup m (add_to v marshal name tc totals)))
  sums_add ls name tc l u totals d ne em et sums m =
      let old = sum_lines unmarshal ls [] in
      let sum = add_tokens (tokens_of u.model old) u.tokens in
      let total = v.combine (get_or v.none_used (lookup name totals)) tc in
      ap (tokens_of m) (sum_lines_snoc unmarshal ls l u ne d)
      ∙ ap (get_or no_tokens) (lookup-insert u.model m sum old)
      ∙ elim (Bool-cases (str_eq name m)) [
        | inl e ↦ cc (
          em,
          et,
          e,
          lookup-insert name m total totals,
          sums name,
          tokens_combine (get_or v.none_used (lookup name totals)) tc,
        )
        | inr e ↦ cc (em, e, lookup-insert name m total totals, sums m)
      ]

  All-concat :
      (ls : List Str) (l : Str)
      → All (λ l. index_byte 10 l ≡ none) ls
      → index_byte 10 l ≡ none
      → All (λ l. index_byte 10 l ≡ none) (ls ++ l ∷ [])
  All-concat [] x h k = (k, tt)
  All-concat (l ∷ ls) x h k = (h.0, All-concat ls x h.1 k)

  add-Balanced :
      (io : Outcome) (model : Str) (tc : TC) (rid : Str) (t : Tracker TC F R)
      → io.appended ≡ true
      → Valid model
      → Balanced t
      → Balanced (add v marshal io model tc rid t)
  unfolding Balanced text_of
  add-Balanced io model tc rid t h k (ls, file, whole, sums, path) =
      let name = model_name v marshal model in
      let l : UsageLine = record {
        request_id = rid;
        ts = io.now;
        model = name;
        tokens = v.tokens tc;
      } in
      let (u, d, em, et) = decode l (model_name_valid model k) in
      let (written, same_path) = add_file v marshal io model tc rid t h path in
      let totals = (add_lem v marshal io model tc rid t).0 in
      (
        ls ++ marshal l ∷ [],
        written
            ∙ ap (λ s. s ++ (marshal l ++ 10 ∷ [])) file
            ∙ sym (text_of-append ls (marshal l ∷ [])),
        All-concat ls (marshal l) whole (one_line l),
        (λ m.
            sums_add ls name tc (marshal l) u t.per_model d (nonempty l) em et sums m
            ∙ ap (λ x. v.tokens (get_or v.none_used (lookup m x))) (sym totals)),
        ap is_empty same_path ∙ path,
      )

  dropped-Balanced :
      (s t : Tracker TC F R)
      → s.usage_jsonl ≡ t.usage_jsonl
      → s.per_model ≡ t.per_model
      → s.usage_path ≡ t.usage_path
      → Balanced t
      → Balanced s
  unfolding Balanced
  dropped-Balanced s t e₁ e₂ e₃ (ls, file, whole, sums, path) = (
    ls,
    e₁ ∙ file,
    whole,
    (λ m. sums m ∙ ap (λ totals. v.tokens (get_or v.none_used (lookup m totals))) (sym e₂)),
    ap is_empty e₃ ∙ path,
  )

  run-Balanced :
      (es : List (Outcome × Event TC)) (t : Tracker TC F R)
      → All (Recorded Valid) es
      → Balanced t
      → Balanced (run v marshal es t)
  run-Balanced [] t h b = b
  run-Balanced ((io, used model tc rid) ∷ es) t h b =
      run-Balanced es (add v marshal io model tc rid t) h.1
        (add-Balanced io model tc rid t h.0.0 h.0.1 b)
  run-Balanced ((io, parse_error) ∷ es) t h b =
      let s = add_dropped_parse_error v marshal io t in
      let l = parse_error_lem v marshal io t in
      run-Balanced es s h.1 (dropped-Balanced s t l.3 l.0 l.4 b)
  run-Balanced ((io, no_usage_block) ∷ es) t h b =
      let s = add_dropped_no_usage_block v marshal io t in
      let l = no_usage_block_lem v marshal io t in
      run-Balanced es s h.1 (dropped-Balanced s t l.3 l.0 l.4 b)

  -- With a path, where every request's line was appended and its model is one that JSON can carry,
  -- the tokens of a model that the host reads from usage.jsonl are those of the proxy's total of the
  -- model, for any vendor whose `combine` adds the normalized tokens: no request is lost, counted
  -- twice or credited to another model, whatever became of usage.json.
  pub ledger_exact :
      (path : Str) (es : List (Outcome × Event TC)) (m : Str)
      → is_empty path ≡ false
      → All (Recorded Valid) es
      → let t = run v marshal es (new_tracker v marshal path) in
        tokens_of m (read_per_model_tokens unmarshal (some t.usage_jsonl))
        ≡ v.tokens (get_or v.none_used (lookup m t.per_model))
  unfolding Balanced text_of lookup sum_lines
  ledger_exact path es m h k =
      let (ls, file, whole, sums, _) =
        run-Balanced es (new_tracker v marshal path) k ([], refl, tt, (λ _. sym tokens_zero), h) in
      ap (λ s. tokens_of m (read_per_model_tokens unmarshal (some s))) file
      ∙ ap (tokens_of m) (read_text_of unmarshal ls whole)
      ∙ sums m
