-- ===== src/Results/Rollup/Tree.antt =====
-- internal/sandbox/results.go: results.json of a run, over the whole tree of its children.
use demesne.Base.{
  ◌≡◌, refl, sym, ◌∙◌, ap, Bool, true, false, if◌then◌else◌, Option, none, some, List, [], ◌∷◌,
  ◌++◌, Str, Map, lookup,
}
use demesne.Tracker.{TokenBreakdown, UsageLine}
use demesne.Results.{
  no_tokens, add_tokens, tokens_of, add_per_model_tokens, read_per_model_tokens, Results,
  ChildEntry, counted, sum_models, sum_child_per_model_tokens, write_results,
}
use demesne.Results.Rollup.{Words, add_tokens_assoc, add_tokens_comm}
use demesne.Results.Rollup.Maps.{
  Tidy, Tidy-nil, Tidy-read, Tidy-add_per_model_tokens, tokens_of-merge, add_tokens-none,
  add_tokens-Words, Tidy-at,
}

-- A run with its usage.jsonl, its own cost, and the runs that it spawned, each with whether its
-- results.json is there: none is written where the command fails or is cancelled, and none is there
-- while the run goes on. A file that lies among their directories is none of them.
mutual
  pub data Run (F : Type 0) : Type 0 where
    spawned : Str → Option Str → F → Runs F → Run F

  pub data Runs (F : Type 0) : Type 0 where
    no_runs : Runs F
    and_run : Bool → Run F → Runs F → Runs F
    and_file : Str → Runs F → Runs F

abbrev pub run_name : {F : Type 0} → Run F → Str
run_name (spawned name file cost kids) = name

-- The sum of a list of totals.
abbrev pub sum_tokens : List TokenBreakdown → TokenBreakdown
sum_tokens [] = no_tokens
sum_tokens (t ∷ ts) = add_tokens t (sum_tokens ts)

module _ {F : Type 0} (no_cost : F) (add_cost : F → F → F)
    (unmarshal : Str → Option UsageLine) where
  -- Each run writes its results.json when its children have written theirs.
  mutual
    pub results_of : Run F → Results F
    results_of (spawned name file cost kids) =
        (write_results no_cost add_cost unmarshal
          (record {
            layout_job = [];
            child_name = name;
            layout_depth = 0;
            usage_jsonl = file;
            child_dir = some (entries_of kids);
          })
          [] 0 cost).0

    pub entries_of : Runs F → List (ChildEntry F)
    entries_of no_runs = []
    entries_of (and_file name kids) =
        let rest = entries_of kids in
        record { entry_name = name; is_dir = false; entry_results = none } ∷ rest
    entries_of (and_run there r kids) =
        let rest = entries_of kids in
        let of_child = results_of r in
        record {
          entry_name = run_name r;
          is_dir = true;
          entry_results = if there then some of_child else none;
        }
        ∷ rest

  -- A model's tokens in the usage.jsonl of every run of the tree, down to the runs that left no
  -- results.json: neither those nor what is below them count.
  mutual
    pub own_tokens : Str → Run F → List TokenBreakdown
    own_tokens m (spawned name file cost kids) =
        tokens_of m (read_per_model_tokens unmarshal file) ∷ own_tokens_all m kids

    pub own_tokens_all : Str → Runs F → List TokenBreakdown
    own_tokens_all m no_runs = []
    own_tokens_all m (and_file name kids) = own_tokens_all m kids
    own_tokens_all m (and_run there r kids) =
        let of_child = own_tokens m r in
        let rest = own_tokens_all m kids in if there then of_child ++ rest else rest

sum_tokens-Words : (ts : List TokenBreakdown) → Words (sum_tokens ts)
sum_tokens-Words [] = (refl, refl, refl, refl)
sum_tokens-Words (t ∷ ts) = add_tokens-Words t (sum_tokens ts)

sum_tokens-append :
    (ts us : List TokenBreakdown)
    → sum_tokens (ts ++ us) ≡ add_tokens (sum_tokens ts) (sum_tokens us)
sum_tokens-append [] us = sym (
    add_tokens_comm no_tokens (sum_tokens us)
    ∙ add_tokens-none (sum_tokens us) (sum_tokens-Words us))
sum_tokens-append (t ∷ ts) us =
    ap (add_tokens t) (sum_tokens-append ts us)
    ∙ sym (add_tokens_assoc t (sum_tokens ts) (sum_tokens us))

module _ {F : Type 0} (no_cost : F) (add_cost : F → F → F)
    (unmarshal : Str → Option UsageLine) where
  results_of-Tidy : (r : Run F) → Tidy (results_of no_cost add_cost unmarshal r).per_model_tokens
  unfolding results_of write_results
  results_of-Tidy (spawned name file cost kids) =
      Tidy-add_per_model_tokens (read_per_model_tokens unmarshal file)
        (sum_child_per_model_tokens no_cost add_cost
          (some (entries_of no_cost add_cost unmarshal kids)))
        (Tidy-read unmarshal file)

  mutual
    unfolding results_of entries_of own_tokens own_tokens_all write_results
        sum_child_per_model_tokens lookup

    run_tokens :
        (m : Str) (r : Run F)
        → tokens_of m (results_of no_cost add_cost unmarshal r).per_model_tokens
          ≡ sum_tokens (own_tokens no_cost add_cost unmarshal m r)
    run_tokens m (spawned name file cost kids) =
        let own = read_per_model_tokens unmarshal file in
        let (tidy, sums) = kids_tokens m kids [] Tidy-nil in
        tokens_of-merge m own
          (sum_child_per_model_tokens no_cost add_cost
            (some (entries_of no_cost add_cost unmarshal kids)))
          (Tidy-read unmarshal file) tidy
        ∙ ap (add_tokens (tokens_of m own))
            (sums ∙ sym (sum_tokens-append [] (own_tokens_all no_cost add_cost unmarshal m kids)))

    kids_tokens :
        (m : Str) (kids : Runs F) (acc : Map Str TokenBreakdown)
        → Tidy acc
        → let all =
            sum_models no_cost add_cost acc
              (counted no_cost add_cost (entries_of no_cost add_cost unmarshal kids)) in
          Tidy all
          × (tokens_of m all
              ≡ add_tokens
                  (tokens_of m acc)
                  (sum_tokens (own_tokens_all no_cost add_cost unmarshal m kids)))
    kids_tokens m no_runs acc h = (h, sym (add_tokens-none (tokens_of m acc) (Tidy-at m acc h)))
    kids_tokens m (and_file name kids) acc h = kids_tokens m kids acc h
    kids_tokens m (and_run false kid kids) acc h = kids_tokens m kids acc h
    kids_tokens m (and_run true kid kids) acc h =
        let models = (results_of no_cost add_cost unmarshal kid).per_model_tokens in
        let rest =
          kids_tokens m kids (add_per_model_tokens acc models)
            (Tidy-add_per_model_tokens acc models h) in
        (
          rest.0,
          rest.1
              ∙ cc (
                tokens_of-merge m acc models h (results_of-Tidy kid),
                run_tokens m kid,
                add_tokens_assoc (tokens_of m acc)
                    (sum_tokens (own_tokens no_cost add_cost unmarshal m kid))
                    (sum_tokens (own_tokens_all no_cost add_cost unmarshal m kids)),
                sum_tokens-append (own_tokens no_cost add_cost unmarshal m kid)
                    (own_tokens_all no_cost add_cost unmarshal m kids),
              ),
        )

  -- In the results.json of a run, a model's tokens are the sum of its tokens in the usage.jsonl of
  -- the run and of every run below it in the tree, each counted once, save that a run that left no
  -- results.json and the runs below it count nothing.
  pub tree_tokens :
      (m : Str) (r : Run F)
      → tokens_of m (results_of no_cost add_cost unmarshal r).per_model_tokens
        ≡ sum_tokens (own_tokens no_cost add_cost unmarshal m r)
  tree_tokens m r = run_tokens m r
