-- ===== src/Allowlist/Tests.antt =====
-- An override of two servers and a metadata key, decoded by a table.
use demesne.Base.{
  DistinctKeys, refl, Option, none, some, List, [], ◌∷◌, if◌then◌else◌, Str, codes, str_eq, Map,
  lookup, str_Eq,
}

abbrev unmarshal_text : Str → Option Str
unmarshal_text s = if str_eq s (codes "all") then some (codes "*") else none

abbrev unmarshal_list : Str → Option (List Str)
unmarshal_list s = if str_eq s (codes "none") then some [] else some (codes "get_me" ∷ [])

abbrev unmarshal_file : Str → Option (Map Str Str)
unmarshal_file s = none

abbrev overrides : Map Str Str
overrides =
    (codes "anki", codes "all") ∷ (codes "_doc", codes "x") ∷ (codes "mermaid", codes "none") ∷ []

overrides_distinct : DistinctKeys overrides
unfolding lookup str_eq
overrides_distinct = (refl, (refl, (refl, tt)))
