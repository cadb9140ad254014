-- ===== src/Pricing/Tests.antt =====
-- The catalogs on concrete ids.
use demesne.Base.{◌≡◌, codes}
use demesne.Pricing.{lookup_pricing, anthropic_catalog, openai_catalog}
use demesne.Pricing.Lookup.{price_of, longest_match, longest_price}

longest_price_example :
    (lookup_pricing anthropic_catalog (codes "claude-opus-5-5-20260101")
      ≡ price_of (longest_match anthropic_catalog (codes "claude-opus-5-5-20260101")))
    × (lookup_pricing openai_catalog (codes "claude-opus-5-5-20260101")
        ≡ price_of (longest_match openai_catalog (codes "claude-opus-5-5-20260101")))
longest_price_example = longest_price (codes "claude-opus-5-5-20260101")
