-- ===== src/Delivery/Tests.antt =====
-- Deliveries of concrete files.
use demesne.Base.{
  ◌≡◌, refl, Bool, true, false, some, List, [], ◌∷◌, Str, codes, str_eq, Map, lookup, insert,
  str_Eq, is_some, clean_path, join_path, filter_by, elements, split_on, join, base_name, ext_name,
  rel, trim_left, has_prefix, decimal, ok, arith,
}
use demesne.Delivery.{
  Delivery, new_delivery, unique_base, free_candidate, already_under, deliver_one, deliver_each,
}
use demesne.Delivery.Naming.{unique_base_ends}

abbrev taken : Map Str Bool
taken = (codes "a.png", true) ∷ (codes "a-1.png", true) ∷ []

unique_base_ends_example :
    (name : Str) × (unique_base (codes "a.png") taken ≡ some name)
    × (is_some (lookup name taken) ≡ false)
unique_base_ends_example = unique_base_ends (codes "a.png") taken (omega arith)

third : unique_base (codes "a.png") taken ≡ some (codes "a-2.png")
unfolding unique_base free_candidate lookup str_eq ext_name has_prefix decimal
third = refl

abbrev copies : Str → Str → Bool
copies src dst = true

abbrev sources : List Str
sources = codes "/t/a.png" ∷ codes "/u/a.png" ∷ codes "/w/generated/b.png" ∷ codes "/u/./a.png" ∷ []

abbrev delivered : Delivery
delivered = record {
  out =
      (codes "/t/a.png", codes "/workspace/generated/a.png")
      ∷ (codes "/u/a.png", codes "/workspace/generated/a-1.png")
      ∷ (codes "/w/generated/b.png", codes "/workspace/generated/b.png")
      ∷ [];
  used = (codes "a.png", true) ∷ (codes "a-1.png", true) ∷ (codes "b.png", true) ∷ [];
  copied = (codes "/u/a.png", codes "a-1.png") ∷ (codes "/t/a.png", codes "a.png") ∷ [];
}

-- A copy and a file that is there already end up under one path.
abbrev clashing : List Str
clashing = codes "/t/a.png" ∷ codes "/w/generated/sub/a.png" ∷ []

clash :
    deliver_each copies (codes "/w/generated") clashing new_delivery
    ≡ ok (record {
      out =
          (codes "/t/a.png", codes "/workspace/generated/a.png")
          ∷ (codes "/w/generated/sub/a.png", codes "/workspace/generated/a.png")
          ∷ [];
      used = (codes "a.png", true) ∷ [];
      copied = (codes "/t/a.png", codes "a.png") ∷ [];
    })
unfolding deliver_each deliver_one already_under rel unique_base free_candidate lookup insert str_eq
    ext_name base_name trim_left has_prefix decimal clean_path join_path filter_by elements split_on
    join
clash = refl
