-- ===== src/Results/Vendors.antt =====
-- internal/proxies/anthropic/usage.go and internal/proxies/openai/usage.go: the ledgers of the two
-- vendors.
use demesne.Base.{
  ◌≡◌, refl, false, Option, none, some, List, Str, codes, lookup, str_Eq, index_byte, is_empty, All,
}
use demesne.Tracker.{UsageLine, Outcome, Event, get_or, new_tracker, run}
use demesne.Pricing.{Floats}
use demesne.Results.{tokens_of, read_per_model_tokens}
use demesne.Results.Ledger.{Recorded, ledger_exact}
use demesne.Anthropic
use demesne.Openai

module _ {F : Type 0} (f : Floats F) (marshal : UsageLine → Str)
    (unmarshal : Str → Option UsageLine) (Valid : Str → Type 0)
    (valid_unknown : Valid (codes "unknown"))
    (decode : (l : UsageLine)
      → Valid l.model
      → (u : UsageLine) × (unmarshal (marshal l) ≡ some u)
        × (u.model ≡ l.model)
        × (u.tokens ≡ l.tokens))
    (one_line : (l : UsageLine) → index_byte 10 (marshal l) ≡ none)
    (nonempty : (l : UsageLine) → is_empty (marshal l) ≡ false) where
  -- For both vendors: with a path, where every request's line was appended and its model is one that
  -- JSON can carry, a model's input, output and cache-read tokens, and for Anthropic its cache-creation
  -- tokens, that the host reads from usage.jsonl are those of the proxy's total of the model.
  pub vendor_ledgers :
      (path : Str) (xs : List (Outcome × Event Anthropic.TokenCounts))
      (os : List (Outcome × Event Openai.Counts)) (m : Str)
      → is_empty path ≡ false
      → All (Recorded Valid) xs
      → All (Recorded Valid) os
      → let a =
          run (Anthropic.vendor f) marshal xs (new_tracker (Anthropic.vendor f) marshal path) in
        let o = run (Openai.vendor f) marshal os (new_tracker (Openai.vendor f) marshal path) in
        (tokens_of m (read_per_model_tokens unmarshal (some a.usage_jsonl))
          ≡ Anthropic.normalize_tokens (get_or Anthropic.zero_counts (lookup m a.per_model)))
        × (tokens_of m (read_per_model_tokens unmarshal (some o.usage_jsonl))
            ≡ Openai.normalize (get_or Openai.zero_counts (lookup m o.per_model)))
  vendor_ledgers path xs os m h k l = (
    ledger_exact (Anthropic.vendor f) marshal unmarshal Valid valid_unknown decode one_line nonempty
        refl (λ a b. refl) path xs m h k,
    ledger_exact (Openai.vendor f) marshal unmarshal Valid valid_unknown decode one_line nonempty
        refl (λ a b. refl) path os m h l,
  )
