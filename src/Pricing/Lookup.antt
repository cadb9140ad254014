-- ===== src/Pricing/Lookup.antt =====
-- internal/proxies/proxycommon/pricing.go, `LookupPricing`, on the catalogs of both vendors.
use demesne.Base.{
  ◌≡◌, refl, inl, inr, Bool, true, false, not, ◌||◌, Bool-cases, Option, none, some, List, [], ◌∷◌,
  if◌then◌else◌, Str, has_prefix, length, ltb, All, arith,
}
use demesne.Pricing.{CatalogEntry, lookup_pricing, anthropic_catalog, openai_catalog}

-- Neither of two prefixes is a prefix of the other.
pub apart : Str → Str → Bool
apart s t = not (has_prefix s t || has_prefix t s)

-- No entry's prefix is a prefix of another's.
abbrev pub Unshadowed : {P : Type 0} → List (CatalogEntry P) → Type 0
Unshadowed [] = Unit
Unshadowed (e ∷ es) = All (λ d. apart e.id_prefix d.id_prefix ≡ true) es × Unshadowed es

-- An id has at most one of two prefixes that are apart.
pub one_prefix :
    (id s t : Str) → apart s t ≡ true → has_prefix id s ≡ true → has_prefix id t ≡ false
unfolding apart has_prefix
one_prefix id [] t h k = absurd (ground arith)
one_prefix id (a ∷ s) [] h k = absurd (ground arith)
one_prefix [] (a ∷ s) (b ∷ t) h k = absurd (ground arith)
one_prefix (c ∷ id) (a ∷ s) (b ∷ t) h k = ground (arith, one_prefix id s t)

-- The reference that the comments name: among the matching entries one with the longest prefix.
pub longest_match : {P : Type 0} → List (CatalogEntry P) → Str → Option (CatalogEntry P)
longest_match [] id = none
longest_match (e ∷ es) id =
    let rest = longest_match es id in
    if has_prefix id e.id_prefix
    then elim rest [
      | none ↦ some e
      | some d ↦ if ltb (length e.id_prefix) (length d.id_prefix) then some d else some e
    ]
    else rest

abbrev pub price_of : {P : Type 0} → Option (CatalogEntry P) → Option P
price_of none = none
price_of (some e) = some e.price

no_other_match :
    {P : Type 0} (id s : Str) (es : List (CatalogEntry P))
    → All (λ d. apart s d.id_prefix ≡ true) es
    → has_prefix id s ≡ true
    → longest_match es id ≡ none
unfolding longest_match
no_other_match id s [] h k = refl
no_other_match id s (e ∷ es) h k =
    rw (one_prefix id s e.id_prefix h.0 k, longest_match) (no_other_match id s es h.1 k)

-- On a catalog in which no prefix is a prefix of another, the first match is the longest one.
pub first_is_longest :
    {P : Type 0} (es : List (CatalogEntry P)) (id : Str)
    → Unshadowed es
    → lookup_pricing es id ≡ price_of (longest_match es id)
unfolding lookup_pricing longest_match
first_is_longest [] id h = refl
first_is_longest (e ∷ es) id h = elim (Bool-cases (has_prefix id e.id_prefix)) [
  | inl k ↦ rw (k, lookup_pricing, longest_match) (rw (no_other_match id e.id_prefix es h.0 k) refl)
  | inr k ↦ rw (k, lookup_pricing, longest_match) (first_is_longest es id h.1)
]

pub anthropic-Unshadowed : Unshadowed anthropic_catalog
unfolding apart has_prefix
anthropic-Unshadowed = ((refl, (refl, (refl, tt))), ((refl, (refl, tt)), ((refl, tt), (tt, tt))))

pub openai-Unshadowed : Unshadowed openai_catalog
unfolding apart has_prefix
openai-Unshadowed = (
  (refl, (refl, (refl, (refl, (refl, (refl, (refl, tt))))))),
  (
    (refl, (refl, (refl, (refl, (refl, (refl, tt)))))),
    (
      (refl, (refl, (refl, (refl, (refl, tt))))),
      (
        (refl, (refl, (refl, (refl, tt)))),
        ((refl, (refl, (refl, tt))), ((refl, (refl, tt)), ((refl, tt), (tt, tt)))),
      ),
    ),
  ),
)

-- For any model id both vendors' catalogs give the price of the entry with the longest matching
-- prefix, or none where no prefix matches, although the lookup stops at the first match.
pub longest_price :
    (id : Str)
    → (lookup_pricing anthropic_catalog id ≡ price_of (longest_match anthropic_catalog id))
      × (lookup_pricing openai_catalog id ≡ price_of (longest_match openai_catalog id))
longest_price id = (
  first_is_longest anthropic_catalog id anthropic-Unshadowed,
  first_is_longest openai_catalog id openai-Unshadowed,
)
