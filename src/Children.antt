-- ===== src/Children.antt =====
-- internal/sandbox/children.go: the names and outputs of a run's children, and the registry of live
-- runs.
pub mod Names
pub mod Grants
pub mod Siblings
pub mod Registry
mod Tests
use demesne.Base.{
  ℕ, suc, ◌+◌, Bool, true, false, ◌&&◌, ◌||◌, Option, none, some, List, [], ◌∷◌, ◌++◌, map, length,
  if◌then◌else◌, ◌==◌, ltb, leb, Str, codes, str_eq, Map, lookup, insert, delete, str_Eq, is_some,
  sort_strings, Result, err, ok, ◌>>=◌,
}

-- The fields that the operations read. `used_names` is a map to Bool of which only true is stored.
pub record SpawnContext : Type 0 where
  pub workspace_host : Str
  pub out_host : Str
  pub depth : ℕ
  pub bg_job_id : Str
  pub used_names : Map Str Bool
  pub sibling_outputs : Map Str Str

pub data NameError : Type 0 where
  name_required : NameError
  name_too_long : NameError
  invalid_name : Str → NameError
  name_in_use : Str → NameError

abbrev pub is_name_char : ℕ → Bool
is_name_char c = leb 97 c && leb c 122 || leb 48 c && leb c 57

-- The loop over the characters: `i` is the index of the next one, `n` the length of the name. A
-- character of more than one byte is invalid by its first byte.
unfoldable pub valid_chars : ℕ → ℕ → Str → Bool
valid_chars i n [] = true
valid_chars i n (c ∷ s) =
    let rest = valid_chars (suc i) n s in
    if is_name_char c || c == 45 && (ltb 0 i && ltb (suc i) n) then rest else false

unfoldable pub validate_child_name : Str → Result NameError Str
validate_child_name [] = err name_required
validate_child_name (c ∷ s) =
    if ltb 40 (length (c ∷ s))
    then err name_too_long
    else if valid_chars 0 (length (c ∷ s)) (c ∷ s)
    then ok (c ∷ s)
    else err (invalid_name (c ∷ s))

-- The unlocked part, with the name valid.
abbrev pub take_name : Str → SpawnContext → Result NameError SpawnContext
take_name name ctx =
    if is_some (lookup name ctx.used_names)
    then err (name_in_use name)
    else ok (record ctx { used_names = insert name true ctx.used_names })

unfoldable pub reserve_name : Str → SpawnContext → Result NameError SpawnContext
reserve_name name ctx = validate_child_name name >>= (λ valid. take_name valid ctx)

abbrev pub prior_siblings : SpawnContext → Map Str Str
prior_siblings ctx = ctx.sibling_outputs

abbrev pub record_sibling : Str → Str → SpawnContext → SpawnContext
record_sibling name out ctx = record ctx { sibling_outputs = insert name out ctx.sibling_outputs }

pub previous_job_names : Map Str Str → List Str
previous_job_names siblings = sort_strings (map (λ e. e.0) siblings)

pub record Volume : Type 0 where
  pub volume_name : Str
  pub host_path : Str
  pub mount_path : Str
  pub read_only : Bool

abbrev pub host_of : Option Str → Str
host_of none = []
host_of (some host) = host

abbrev pub volumes_for : List Str → Map Str Str → List Volume
volumes_for [] siblings = []
volumes_for (name ∷ names) siblings =
    record {
      volume_name = codes "prevjob-" ++ name;
      host_path = host_of (lookup name siblings);
      mount_path = codes "/in/previous-jobs/" ++ name;
      read_only = true;
    }
    ∷ volumes_for names siblings

unfoldable pub previous_job_volumes : Map Str Str → List Volume
previous_job_volumes siblings = volumes_for (previous_job_names siblings) siblings

-- The registry, by job id, of contexts of any type.
pub record ChildRegistry {ℓ} (C : Type ℓ) : Type ℓ where
  pub entries : Map Str C

module _ {ℓ} {C : Type ℓ} where
  abbrev pub new_child_registry : ChildRegistry C
  new_child_registry = record { entries = [] }

  pub register : Str → C → ChildRegistry C → ChildRegistry C
  register job c r = record { entries = insert job c r.entries }

  pub lookup_run : Str → ChildRegistry C → Option C
  lookup_run job r = lookup job r.entries

  pub deregister : Str → ChildRegistry C → ChildRegistry C
  deregister job r = record { entries = delete job r.entries }
