-- ===== src/Children/Tests.antt =====
-- Names, siblings and the registry, concretely.
use demesne.Base.{
  All, ◌≡◌, ◌&&◌, true, List, [], ◌∷◌, leb, length, Str, codes, str_eq_iff, Map, lookup, str_Eq,
  arith,
}
use demesne.Children.{SpawnContext}
use demesne.Children.Names.{is_dns_label}
use demesne.Children.Grants.{NoRepeat, reserve_all, is_free, granted_distinct}
use demesne.Children.Registry.{registers, deregisters, RegistryCall}

abbrev fresh : SpawnContext
fresh = record {
  workspace_host = [];
  out_host = [];
  depth = 0;
  bg_job_id = [];
  used_names = [];
  sibling_outputs = [];
}

abbrev asked : List Str
asked = codes "a" ∷ codes "b" ∷ codes "a" ∷ codes "A" ∷ []

granted_distinct_example :
    All (λ m. is_free fresh m ≡ true) (reserve_all asked fresh)
    × NoRepeat (reserve_all asked fresh)
    × All (λ m. (is_dns_label m && leb (length m) 40) ≡ true) (reserve_all asked fresh)
granted_distinct_example = granted_distinct asked fresh

abbrev ab : Map Str Str
ab = (codes "a", codes "/x") ∷ (codes "b", codes "/y") ∷ []

abbrev ba : Map Str Str
ba = (codes "b", codes "/y") ∷ (codes "a", codes "/x") ∷ []

same_entries : (k : Str) → lookup k ab ≡ lookup k ba
unfolding lookup
same_entries k = ground (arith, str_eq_iff (codes "a") k, str_eq_iff (codes "b") k)

abbrev calls : List (RegistryCall SpawnContext)
calls = registers (codes "j") fresh ∷ deregisters (codes "j") ∷ registers (codes "k") fresh ∷ []
