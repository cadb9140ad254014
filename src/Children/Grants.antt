-- ===== src/Children/Grants.antt =====
-- internal/sandbox/children.go, `reserveName`: the names that one context grants.
use demesne.Base.{
  All, ◌≡◌, refl, sym, ◌∙◌, ap, inl, inr, Bool, true, false, not, ◌&&◌, Bool-cases, some, List, [],
  ◌∷◌, length, if◌then◌else◌, leb, Str, str_eq, lookup, insert, lookup-insert, is_some, Result, err,
  ok, bind_inversion, str_Eq,
}
use demesne.Children.{SpawnContext, NameError, validate_child_name, take_name, reserve_name}
use demesne.Children.Names.{is_dns_label, validate_inversion}

pub NoRepeat : List Str → Type 0
NoRepeat [] = Unit
NoRepeat (n ∷ ns) = All (λ m. str_eq n m ≡ false) ns × NoRepeat ns

-- The names that are granted when these are asked for one after the other.
pub reserve_all : List Str → SpawnContext → List Str
reserve_all [] ctx = []
reserve_all (n ∷ ns) ctx = elim (reserve_name n ctx) [
  | err e ↦ reserve_all ns ctx
  | ok granted ↦ n ∷ reserve_all ns granted
]

abbrev pub is_free : SpawnContext → Str → Bool
is_free ctx name = not (is_some (lookup name ctx.used_names))

take_inversion :
    (name : Str) (ctx granted : SpawnContext)
    → take_name name ctx ≡ ok granted
    → (is_free ctx name ≡ true) × (granted.used_names ≡ insert name true ctx.used_names)
take_inversion name ctx granted h = elim (Bool-cases (is_some (lookup name ctx.used_names))) [
  | inl e ↦ absurd (cc (e, h))
  | inr e ↦ (ap not e, cc (e, h))
]

pub reserve_inversion :
    (name : Str) (ctx granted : SpawnContext)
    → reserve_name name ctx ≡ ok granted
    → (is_free ctx name ≡ true)
      × (granted.used_names ≡ insert name true ctx.used_names)
      × ((is_dns_label name && leb (length name) 40) ≡ true)
unfolding reserve_name
reserve_inversion name ctx granted h =
    let (valid, e, k) =
      bind_inversion (validate_child_name name) (λ valid. take_name valid ctx) h in
    let (test, same) = validate_inversion name valid e in
    let taken = take_inversion name ctx granted (ap (λ n. take_name n ctx) same ∙ k) in
    (taken.0, taken.1, test)

pub reserve-siblings :
    (name : Str) (ctx granted : SpawnContext)
    → reserve_name name ctx ≡ ok granted
    → granted.sibling_outputs ≡ ctx.sibling_outputs
unfolding reserve_name
reserve-siblings name ctx granted h =
    let (valid, e, k) =
      bind_inversion (validate_child_name name) (λ valid. take_name valid ctx) h in
    elim (Bool-cases (is_some (lookup valid ctx.used_names))) [
      | inl t ↦ absurd (cc (t, k))
      | inr t ↦ cc (t, k)
    ]

pub reserve-out_host :
    (name : Str) (ctx granted : SpawnContext)
    → reserve_name name ctx ≡ ok granted
    → granted.out_host ≡ ctx.out_host
unfolding reserve_name
reserve-out_host name ctx granted h =
    let (valid, e, k) =
      bind_inversion (validate_child_name name) (λ valid. take_name valid ctx) h in
    elim (Bool-cases (is_some (lookup valid ctx.used_names))) [
      | inl t ↦ absurd (cc (t, k))
      | inr t ↦ cc (t, k)
    ]

still_free :
    (name m : Str) (ctx granted : SpawnContext)
    → granted.used_names ≡ insert name true ctx.used_names
    → is_free granted m ≡ true
    → (str_eq name m ≡ false) × (is_free ctx m ≡ true)
still_free name m ctx granted e h =
    let l = lookup-insert name m true ctx.used_names in
    let k : not (is_some (if str_eq name m then some true else lookup m ctx.used_names)) ≡ true =
      sym (ap (λ o. not (is_some o)) (ap (lookup m) e ∙ l)) ∙ h in
    elim (Bool-cases (str_eq name m)) [ inl q ↦ absurd (cc (q, k)) | inr q ↦ (q, cc (q, k)) ]

rest_still_free :
    (name : Str) (ms : List Str) (ctx granted : SpawnContext)
    → granted.used_names ≡ insert name true ctx.used_names
    → All (λ m. is_free granted m ≡ true) ms
    → All (λ m. str_eq name m ≡ false) ms × All (λ m. is_free ctx m ≡ true) ms
rest_still_free name [] ctx granted e h = (tt, tt)
rest_still_free name (m ∷ ms) ctx granted e h =
    let one = still_free name m ctx granted e h.0 in
    let rest = rest_still_free name ms ctx granted e h.1 in ((one.0, rest.0), (one.1, rest.1))

-- However often names are asked for in one context, the ones granted are pairwise different, were
-- free at the start, and are each a DNS-1123 label of at most 40 characters.
pub granted_distinct :
    (ns : List Str) (ctx : SpawnContext)
    → All (λ m. is_free ctx m ≡ true) (reserve_all ns ctx)
      × NoRepeat (reserve_all ns ctx)
      × All (λ m. (is_dns_label m && leb (length m) 40) ≡ true) (reserve_all ns ctx)
unfolding reserve_all NoRepeat
granted_distinct [] ctx = (tt, tt, tt)
granted_distinct (n ∷ ns) ctx =
    of_result (reserve_name n ctx) refl (granted_distinct ns ctx) (granted_distinct ns)
  where
    Good : List Str → Type 0
    Good ms =
        All (λ m. is_free ctx m ≡ true) ms
        × NoRepeat ms
        × All (λ m. (is_dns_label m && leb (length m) 40) ≡ true) ms

    of_result :
        (r : Result NameError SpawnContext)
        → reserve_name n ctx ≡ r
        → Good (reserve_all ns ctx)
        → ((granted : SpawnContext)
            → All (λ m. is_free granted m ≡ true) (reserve_all ns granted)
              × NoRepeat (reserve_all ns granted)
              × All (λ m. (is_dns_label m && leb (length m) 40) ≡ true) (reserve_all ns granted))
        → Good (elim r [ err e ↦ reserve_all ns ctx | ok granted ↦ n ∷ reserve_all ns granted ])
    of_result (err e) q h k = h
    of_result (ok granted) q h k =
        let (free, used, good) = reserve_inversion n ctx granted q in
        let (a, b, c) = k granted in
        let (apart, were_free) = rest_still_free n (reserve_all ns granted) ctx granted used a in
        ((free, were_free), (apart, b), (good, c))
