-- ===== src/Results/Tests.antt =====
-- The ledger and the totals of a tree on concrete runs. A line is encoded with every number shifted,
-- so that no byte is a line end.
use demesne.Base.{
  ℕ, ◌+◌, ◌-◌, ◌*◌, ◌/◌, ◌≡◌, refl, true, false, Option, none, some, List, [], ◌∷◌, ◌++◌, Str,
  codes, str_Eq, lookup, index_byte, arith,
}
use demesne.Tracker.{UsageLine, Outcome, Event, used, parse_error, get_or, new_tracker, run}
use demesne.Pricing.{Floats}
use demesne.Results.{tokens_of, read_per_model_tokens}
use demesne.Results.Ledger.{ledger_exact}
use demesne.Results.Vendors.{vendor_ledgers}
use demesne.Results.Rollup.Tree.{
  Run, spawned, no_runs, and_run, and_file, results_of, own_tokens, sum_tokens, tree_tokens,
}
use demesne.Anthropic.{TokenCounts, vendor, zero_counts, normalize_tokens}
use demesne.Openai

abbrev cents : Floats ℕ
cents = record {
  of_int64 = λ n. n;
  of_cents = λ n. n;
  add_float = ◌+◌;
  mul_float = ◌*◌;
  div_float = ◌/◌;
}

abbrev shift : Str → Str
shift [] = []
shift (c ∷ s) = (c + 11) ∷ shift s

abbrev unshift : Str → Str
unshift [] = []
unshift (c ∷ s) = (c - 11) ∷ unshift s

abbrev encode : UsageLine → Str
encode l =
    (l.tokens.input + 11)
    ∷ (l.tokens.output + 11)
    ∷ (l.tokens.cache_creation + 11)
    ∷ (l.tokens.cache_read + 11)
    ∷ shift l.model

abbrev unencode : Str → Option UsageLine
unencode (i ∷ o ∷ w ∷ r ∷ s) = some (record {
  request_id = [];
  ts = [];
  model = unshift s;
  tokens = record { input = i - 11; output = o - 11; cache_creation = w - 11; cache_read = r - 11 };
})
unencode _ = none

unshift-shift : (s : Str) → unshift (shift s) ≡ s
unshift-shift [] = refl
unshift-shift (c ∷ s) = ground (arith, unshift-shift s)

unencode-encode :
    (l : UsageLine)
    → Unit {0}
    → (u : UsageLine) × (unencode (encode l) ≡ some u) × (u.model ≡ l.model) × (u.tokens ≡ l.tokens)
unencode-encode l h = (
  record { request_id = []; ts = []; model = unshift (shift l.model); tokens = l.tokens },
  ground arith,
  unshift-shift l.model,
  refl,
)

index_byte-shift : (s : Str) → index_byte 10 (shift s) ≡ none
unfolding index_byte
index_byte-shift [] = refl
index_byte-shift (c ∷ s) = ground (arith, index_byte-shift s)

index_byte-encode : (l : UsageLine) → index_byte 10 (encode l) ≡ none
unfolding index_byte
index_byte-encode l = ground (arith, index_byte-shift l.model)

abbrev io : Outcome
io = record { replaced = false; appended = true; now = codes "t" }

abbrev counts : TokenCounts
counts = record {
  input_tokens = 3;
  output_tokens = 5;
  cache_creation_input_tokens = 0;
  cache_read_input_tokens = 7;
}

abbrev events : List (Outcome × Event TokenCounts)
events =
    (io, used (codes "opus") counts (codes "r1"))
    ∷ (io, parse_error)
    ∷ (io, used [] counts (codes "r2"))
    ∷ (io, used (codes "opus") counts (codes "r3"))
    ∷ []

abbrev openai_counts : Openai.Counts
openai_counts = record {
  input_tokens = 3;
  output_tokens = 5;
  total_tokens = 8;
  cached_tokens = 1;
  reasoning_tokens = 2;
}

ledger_exact_example :
    let t = run (vendor cents) encode events (new_tracker (vendor cents) encode (codes "u")) in
    tokens_of (codes "opus") (read_per_model_tokens unencode (some t.usage_jsonl))
    ≡ normalize_tokens (get_or zero_counts (lookup (codes "opus") t.per_model))
ledger_exact_example =
    ledger_exact (vendor cents) encode unencode (λ _. Unit {0}) tt unencode-encode index_byte-encode
      (λ l. refl) refl (λ a b. refl) (codes "u") events (codes "opus") refl
      ((refl, tt), (tt, ((refl, tt), ((refl, tt), tt))))

vendor_ledgers_example :
    let a = run (vendor cents) encode events (new_tracker (vendor cents) encode (codes "u")) in
    let o =
      run
        (Openai.vendor cents)
        encode
        ((io, used (codes "gpt-5.5") openai_counts (codes "r")) ∷ [])
        (new_tracker (Openai.vendor cents) encode (codes "u")) in
    (tokens_of (codes "opus") (read_per_model_tokens unencode (some a.usage_jsonl))
      ≡ normalize_tokens (get_or zero_counts (lookup (codes "opus") a.per_model)))
    × (tokens_of (codes "opus") (read_per_model_tokens unencode (some o.usage_jsonl))
        ≡ Openai.normalize (get_or Openai.zero_counts (lookup (codes "opus") o.per_model)))
vendor_ledgers_example =
    vendor_ledgers cents encode unencode (λ _. Unit {0}) tt unencode-encode index_byte-encode
      (λ l. refl) (codes "u") events ((io, used (codes "gpt-5.5") openai_counts (codes "r")) ∷ [])
      (codes "opus") refl ((refl, tt), (tt, ((refl, tt), ((refl, tt), tt)))) ((refl, tt), tt)

-- A run of two children, one of which has a child.
abbrev line : Str → ℕ → Str
line model n =
    encode (record {
      request_id = [];
      ts = [];
      model = model;
      tokens = record { input = n; output = 1; cache_creation = 0; cache_read = 0 };
    })
    ++ 10 ∷ []

abbrev tree : Run ℕ
tree = spawned (codes "root") (some (line (codes "m") 1)) 0 (
    and_run true
      (spawned (codes "a") (some (line (codes "m") 2)) 0
        (and_run true (spawned (codes "b") (some (line (codes "m") 4)) 0 no_runs) no_runs))
      (and_run true (spawned (codes "c") none 0 no_runs) (
        and_run false (spawned (codes "d") (some (line (codes "m") 8)) 0 no_runs)
          (and_file (codes "e") no_runs))))

tree_tokens_example :
    tokens_of (codes "m") (results_of 0 ◌+◌ unencode tree).per_model_tokens
    ≡ sum_tokens (own_tokens 0 ◌+◌ unencode (codes "m") tree)
tree_tokens_example = tree_tokens 0 ◌+◌ unencode (codes "m") tree
