-- ===== src/Children/Registry.antt =====
-- internal/sandbox/children.go, `ChildRegistry`: a lookup sees the last operation on its key.
use demesne.Base.{
  ◌≡◌, refl, ◌∙◌, ap, Option, none, some, List, [], ◌∷◌, if◌then◌else◌, Str, str_eq, lookup-insert,
  lookup-delete, str_Eq,
}
use demesne.Children.{ChildRegistry, register, lookup_run, deregister}

-- One call of Register or Deregister.
pub data RegistryCall {ℓ} (C : Type ℓ) : Type ℓ where
  registers : Str → C → RegistryCall C
  deregisters : Str → RegistryCall C

module _ {ℓ} {C : Type ℓ} where
  abbrev pub apply_call : RegistryCall C → ChildRegistry C → ChildRegistry C
  apply_call (registers job c) r = register job c r
  apply_call (deregisters job) r = deregister job r

  abbrev pub apply_calls : List (RegistryCall C) → ChildRegistry C → ChildRegistry C
  apply_calls [] r = r
  apply_calls (k ∷ ks) r = apply_calls ks (apply_call k r)

  -- What the last call on a job left for it.
  pub last_on : Str → Option C → List (RegistryCall C) → Option C
  last_on job o [] = o
  last_on job o (registers j c ∷ ks) = last_on job (if str_eq j job then some c else o) ks
  last_on job o (deregisters j ∷ ks) = last_on job (if str_eq j job then none else o) ks

  -- In any sequence of calls, a lookup finds what the last call on its job left: the context it
  -- registered, or nothing where it deregistered, and calls on other jobs change nothing.
  pub registry_last :
      (ks : List (RegistryCall C)) (r : ChildRegistry C) (job : Str)
      → lookup_run job (apply_calls ks r) ≡ last_on job (lookup_run job r) ks
  unfolding last_on lookup_run register deregister
  registry_last [] r job = refl
  registry_last (registers j c ∷ ks) r job =
      registry_last ks (register j c r) job
      ∙ ap (λ o. last_on job o ks) (lookup-insert j job c r.entries)
  registry_last (deregisters j ∷ ks) r job =
      registry_last ks (deregister j r) job
      ∙ ap (λ o. last_on job o ks) (lookup-delete j job r.entries)
