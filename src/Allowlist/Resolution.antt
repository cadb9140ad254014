-- ===== src/Allowlist/Resolution.antt =====
-- internal/mcpproxy/allowlist.go: what an override file makes of each server.
use demesne.Base.{
  ◌≡◌, refl, sym, ◌∙◌, ap, ◌⊎◌, inl, inr, Bool, true, false, ◌&&◌, ◌||◌, Bool-cases, Option, none,
  some, List, [], ◌∷◌, if◌then◌else◌, Str, codes, str_eq, str_eq_iff, has_prefix, Map, lookup,
  lookup-insert, lookup-delete, str_Eq, DistinctKeys, Result, err, ok,
}
use demesne.Allowlist.{
  ServerAllowlist, AllowlistError, parse_override_entry, set_entry, apply_entries,
}

abbrev pub ok_or :
    Option ServerAllowlist → Result AllowlistError (Option ServerAllowlist) → Option ServerAllowlist
ok_or d (err e) = d
ok_or d (ok entry) = entry

abbrev pub is_ok {ℓ κ} : {E : Type ℓ} {A : Type κ} → Result E A → Bool
is_ok (err e) = false
is_ok (ok a) = true

module _ (unmarshal_text : Str → Option Str) (unmarshal_list : Str → Option (List Str))
    (unmarshal_file : Str → Option (Map Str Str)) where
  -- What one server's entry, if there is one, makes of its default.
  abbrev pub overridden : Str → Option Str → Option ServerAllowlist → Option ServerAllowlist
  overridden name none d = d
  overridden name (some raw) d =
      if has_prefix name (codes "_")
      then d
      else ok_or d (parse_override_entry unmarshal_text unmarshal_list unmarshal_file name raw)

  abbrev pub all_parse : Map Str Str → Bool
  all_parse [] = true
  all_parse ((name, raw) ∷ f) =
      (has_prefix name (codes "_")
        || is_ok (parse_override_entry unmarshal_text unmarshal_list unmarshal_file name raw))
      && all_parse f

  lookup-set_entry :
      (name s : Str) (entry : Option ServerAllowlist) (base : Map Str ServerAllowlist)
      → lookup s (set_entry unmarshal_text unmarshal_list unmarshal_file name entry base)
        ≡ (if str_eq name s then entry else lookup s base)
  lookup-set_entry name s none base = lookup-delete name s base
  lookup-set_entry name s (some a) base = lookup-insert name s a base

  succeeds_lem :
      (f : Map Str Str) (base : Map Str ServerAllowlist)
      → is_ok (apply_entries unmarshal_text unmarshal_list unmarshal_file f base) ≡ all_parse f
  unfolding apply_entries
  succeeds_lem [] base = refl
  succeeds_lem ((name, raw) ∷ f) base =
      of_parse (has_prefix name (codes "_"))
        (parse_override_entry unmarshal_text unmarshal_list unmarshal_file name raw)
        (succeeds_lem f)
    where
      of_parse :
          (b : Bool) (p : Result AllowlistError (Option ServerAllowlist))
          → ((m : Map Str ServerAllowlist)
              → is_ok (apply_entries unmarshal_text unmarshal_list unmarshal_file f m)
                ≡ all_parse f)
          → is_ok (
              if b
              then apply_entries unmarshal_text unmarshal_list unmarshal_file f base
              else elim p as (λ _. Result AllowlistError (Map Str ServerAllowlist)) [
                | err e ↦ err e
                | ok entry ↦
                    apply_entries unmarshal_text unmarshal_list unmarshal_file f
                      (set_entry unmarshal_text unmarshal_list unmarshal_file name entry base)
              ])
            ≡ (b || is_ok p) && all_parse f
      of_parse true p ih = ih base
      of_parse false (err e) ih = refl
      of_parse false (ok entry) ih =
          ih (set_entry unmarshal_text unmarshal_list unmarshal_file name entry base)

  by_key_lem :
      (f : Map Str Str) (base out : Map Str ServerAllowlist) (s : Str)
      → DistinctKeys f
      → apply_entries unmarshal_text unmarshal_list unmarshal_file f base ≡ ok out
      → lookup s out ≡ overridden s (lookup s f) (lookup s base)
  unfolding apply_entries lookup
  by_key_lem [] base out s h e = cc e
  by_key_lem ((name, raw) ∷ f) base out s h e =
      of_parse (has_prefix name (codes "_")) refl
        (parse_override_entry unmarshal_text unmarshal_list unmarshal_file name raw) refl
        (λ m. by_key_lem f m out s h.1) e
    where
      absent : name ≡ s → lookup s f ≡ none
      absent q = ap (λ x. lookup x f) (sym q) ∙ h.0

      of_parse :
          (b : Bool)
          → has_prefix name (codes "_") ≡ b
          → (p : Result AllowlistError (Option ServerAllowlist))
          → parse_override_entry unmarshal_text unmarshal_list unmarshal_file name raw ≡ p
          → ((m : Map Str ServerAllowlist)
              → apply_entries unmarshal_text unmarshal_list unmarshal_file f m ≡ ok out
              → lookup s out ≡ overridden s (lookup s f) (lookup s m))
          → (if b
              then apply_entries unmarshal_text unmarshal_list unmarshal_file f base
              else elim p as (λ _. Result AllowlistError (Map Str ServerAllowlist)) [
                | err e ↦ err e
                | ok entry ↦
                    apply_entries unmarshal_text unmarshal_list unmarshal_file f
                      (set_entry unmarshal_text unmarshal_list unmarshal_file name entry base)
              ])
            ≡ ok out
          → lookup s out
            ≡ overridden s (if str_eq name s then some raw else lookup s f) (lookup s base)
      of_parse true hb p hp ih k = elim (Bool-cases (str_eq name s)) [
        | inl q ↦
            let same = (str_eq_iff name s).0 q in
            rw q (
              ih base k
              ∙ ap (λ o. overridden s o (lookup s base)) (absent same)
              ∙ rw (ap (λ x. has_prefix x (codes "_")) (sym same) ∙ hb) refl)
        | inr q ↦ rw q (ih base k)
      ]
      of_parse false hb (err e) hp ih k = absurd (cc k)
      of_parse false hb (ok entry) hp ih k =
          let m = set_entry unmarshal_text unmarshal_list unmarshal_file name entry base in
          let l = lookup-set_entry name s entry base in
          elim (Bool-cases (str_eq name s)) [
            | inl q ↦
                let same = (str_eq_iff name s).0 q in
                rw q (
                  ih m k
                  ∙ ap (λ o. overridden s o (lookup s m)) (absent same)
                  ∙ l
                  ∙ rw q (
                      rw (ap (λ x. has_prefix x (codes "_")) (sym same) ∙ hb) (
                        rw
                          (ap
                              (λ x.
                                parse_override_entry unmarshal_text unmarshal_list unmarshal_file x
                                  raw)
                              (sym same)
                            ∙ hp)
                          refl)))
            | inr q ↦ rw q (ih m k ∙ ap (λ o. overridden s (lookup s f) o) (l ∙ rw q refl))
          ]

  -- The override succeeds just where every entry, "_" keys aside, parses; then each server has what its
  -- own entry says, nothing where that is the empty list, and its default where it has no entry or its
  -- key begins with "_". So neither depends on the order in which the file's entries are iterated.
  pub override_by_key :
      (f : Map Str Str) (base : Map Str ServerAllowlist) (s : Str)
      → DistinctKeys f
      → let r = apply_entries unmarshal_text unmarshal_list unmarshal_file f base in
        (is_ok r ≡ all_parse f)
        × ((is_ok r ≡ false)
            ⊎ ((out : Map Str ServerAllowlist) × (r ≡ ok out)
                × (lookup s out ≡ overridden s (lookup s f) (lookup s base))))
  override_by_key f base s h = (
    succeeds_lem f base,
    of_result (apply_entries unmarshal_text unmarshal_list unmarshal_file f base) refl,
  )
    where
      of_result :
          (r : Result AllowlistError (Map Str ServerAllowlist))
          → apply_entries unmarshal_text unmarshal_list unmarshal_file f base ≡ r
          → (is_ok r ≡ false)
            ⊎ ((out : Map Str ServerAllowlist) × (r ≡ ok out)
                × (lookup s out ≡ overridden s (lookup s f) (lookup s base)))
      of_result (err e) q = inl refl
      of_result (ok out) q = inr (out, refl, by_key_lem f base out s h q)
