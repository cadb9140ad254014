-- ===== src/Pricing.antt =====
-- internal/proxies/proxycommon/pricing.go, and the catalogs of internal/proxies/anthropic/pricing.go
-- and internal/proxies/openai/pricing.go.
pub mod Lookup
mod Tests
use demesne.Base.{ℕ, Bool, Option, none, some, List, [], ◌∷◌, if◌then◌else◌, Str, codes, has_prefix}

-- A catalog entry: its alias, the prefix of the model ids, and `Price()`.
pub record CatalogEntry (P : Type 0) : Type 0 where
  pub alias : Str
  pub id_prefix : Str
  pub price : P

unfoldable pub lookup_pricing : {P : Type 0} → List (CatalogEntry P) → Str → Option P
lookup_pricing [] id = none
lookup_pricing (e ∷ es) id =
    let rest = lookup_pricing es id in if has_prefix id e.id_prefix then some e.price else rest

abbrev pub aliases : {P : Type 0} → List (CatalogEntry P) → List Str
aliases [] = []
aliases (e ∷ es) = e.alias ∷ aliases es

-- Rates in US cents for a million tokens.
pub record AnthropicPricing : Type 0 where
  pub input_per_mtok : ℕ
  pub output_per_mtok : ℕ
  pub cache_write_per_mtok : ℕ
  pub cache_read_per_mtok : ℕ

abbrev pub anthropic_catalog : List (CatalogEntry AnthropicPricing)
anthropic_catalog =
    record {
      alias = codes "sonnet";
      id_prefix = codes "claude-sonnet-5";
      price = record {
        input_per_mtok = 200;
        output_per_mtok = 1000;
        cache_write_per_mtok = 250;
        cache_read_per_mtok = 20;
      };
    }
    ∷ record {
      alias = codes "opus";
      id_prefix = codes "claude-opus-5";
      price = record {
        input_per_mtok = 400;
        output_per_mtok = 2000;
        cache_write_per_mtok = 500;
        cache_read_per_mtok = 20;
      };
    }
    ∷ record {
      alias = codes "fable";
      id_prefix = codes "claude-fable-5";
      price = record {
        input_per_mtok = 1000;
        output_per_mtok = 5000;
        cache_write_per_mtok = 1250;
        cache_read_per_mtok = 25;
      };
    }
    ∷ record {
      alias = codes "haiku";
      id_prefix = codes "claude-haiku-4-5";
      price = record {
        input_per_mtok = 100;
        output_per_mtok = 500;
        cache_write_per_mtok = 125;
        cache_read_per_mtok = 10;
      };
    }
    ∷ []

pub record OpenaiPricing : Type 0 where
  pub input_rate : ℕ
  pub output_rate : ℕ
  pub cached_input_rate : ℕ

abbrev pub openai_entry : Str → ℕ → ℕ → ℕ → CatalogEntry OpenaiPricing
openai_entry name input output cached = record {
  alias = name;
  id_prefix = name;
  price = record { input_rate = input; output_rate = output; cached_input_rate = cached };
}

abbrev pub openai_catalog : List (CatalogEntry OpenaiPricing)
openai_catalog =
    openai_entry (codes "gpt-6.1-sol") 200 1000 10
    ∷ openai_entry (codes "gpt-6-astra") 1000 5000 100
    ∷ openai_entry (codes "gpt-6-sol") 200 1000 20
    ∷ openai_entry (codes "gpt-6-luna") 10 50 1
    ∷ openai_entry (codes "gpt-5.6-sol") 400 2000 40
    ∷ openai_entry (codes "gpt-5.6-terra") 200 1200 20
    ∷ openai_entry (codes "gpt-5.6-luna") 20 120 2
    ∷ openai_entry (codes "gpt-5.5") 500 3000 50
    ∷ []

-- float64 as far as the costs use it: conversion of an int64, given as a word, a rate in cents, and
-- the operations, of which nothing is assumed.
pub record Floats (F : Type 0) : Type 0 where
  pub of_int64 : ℕ → F
  pub of_cents : ℕ → F
  pub add_float : F → F → F
  pub mul_float : F → F → F
  pub div_float : F → F → F

module _ {F : Type 0} (f : Floats F) where
  -- `float64(n)/perMTok*float64(rate)`
  abbrev pub tokens_cost : ℕ → ℕ → F
  tokens_cost n rate =
      f.mul_float (f.div_float (f.of_int64 n) (f.of_int64 1000000)) (f.of_cents rate)

  abbrev pub plus : F → F → F
  plus a b = f.add_float a b
