-- ===== src/Owner.antt =====
-- internal/sandbox/owner.go and internal/sandbox/reaper.go: the owner label of a sandbox, and the
-- startup reaper.
pub mod Labels
pub mod Stat
pub mod Reaping
mod Tests
use demesne.Base.{
  ℕ, zero, suc, ◌+◌, Bool, true, false, not, Option, none, some, List, [], ◌∷◌, ◌++◌, length,
  if◌then◌else◌, ◌==◌, ltb, Str, codes, str_eq, is_empty, split_on, trim_right, trim_space, fields,
  parse_uint, decimal, Result, err, ok, ◌>>=◌, require, ℤ, pos, negsuc,
}

pub data StatError : Type 0 where
  no_paren : StatError
  too_few_fields : ℕ → StatError
  bad_starttime : StatError

-- `s[strings.LastIndex(s, ")") + 1:]`, `none` without a ')'.
abbrev pub after_last_paren : Str → Option Str
after_last_paren [] = none
after_last_paren (c ∷ s) =
    let rest = after_last_paren s in
    elim rest [ none ↦ (if c == 41 then some s else none) | some t ↦ some t ]

abbrev pub nth_field : ℕ → List Str → Str
nth_field n [] = []
nth_field zero (w ∷ ws) = w
nth_field (suc n) (w ∷ ws) = nth_field n ws

abbrev pub starttime_field : List Str → Result StatError ℕ
starttime_field ws =
    if ltb (length ws) 20
    then err (too_few_fields (length ws))
    else require (parse_uint (nth_field 19 ws)) bad_starttime

-- `data` is the contents of /proc/<pid>/stat.
pub parse_starttime_from_stat : Str → Result StatError ℕ
parse_starttime_from_stat stat =
    require (after_last_paren (trim_right (λ c. c == 10) stat)) no_paren
    >>= (λ rest. starttime_field (fields (trim_space rest)))

pub data OwnerError : Type 0 where
  no_boot_id : OwnerError
  negative_pid : OwnerError
  no_starttime : OwnerError

-- A file that cannot be read is `none`.
abbrev pub read_boot_id : Option Str → Option Str
read_boot_id none = none
read_boot_id (some s) = some (trim_space s)

abbrev pub read_starttime_ticks : (ℕ → Option Str) → ℕ → Option ℕ
read_starttime_ticks stat pid = elim (stat pid) [
  | none ↦ none
  | some s ↦ elim (parse_starttime_from_stat s) [ err e ↦ none | ok n ↦ some n ]
]

abbrev pub owner_label : Str → ℕ → ℕ → Str
owner_label boot pid st = boot ++ 95 ∷ (decimal pid ++ 95 ∷ decimal st)

abbrev pub owner_of_pid : Str → (ℕ → Option Str) → ℤ → Result OwnerError Str
owner_of_pid boot stat (negsuc n) = err negative_pid
owner_of_pid boot stat (pos pid) =
    require (read_starttime_ticks stat pid) no_starttime >>= (λ st. ok (owner_label boot pid st))

pub compute_owner : Option Str → (ℕ → Option Str) → ℤ → Result OwnerError Str
compute_owner boot_file stat getpid =
    require (read_boot_id boot_file) no_boot_id >>= (λ boot. owner_of_pid boot stat getpid)

pub data Verdict : Type 0 where
  verdict_keep : Verdict
  verdict_reap : Verdict
  verdict_skip : Verdict

abbrev pub classify_parts : Str → Option ℕ → Option ℕ → Str → (ℕ → ℕ → Bool) → Verdict
classify_parts boot none st current alive = verdict_skip
classify_parts boot (some pid) none current alive = verdict_skip
classify_parts boot (some pid) (some st) current alive =
    if not (str_eq boot current)
    then verdict_reap
    else if alive pid st
    then verdict_keep
    else verdict_reap

abbrev pub classify_split : List Str → Str → (ℕ → ℕ → Bool) → Verdict
classify_split (boot ∷ pid ∷ st ∷ []) current alive =
    if is_empty boot
    then verdict_skip
    else classify_parts boot (parse_uint pid) (parse_uint st) current alive
classify_split _ current alive = verdict_skip

pub classify_owner : Str → Str → (ℕ → ℕ → Bool) → Verdict
classify_owner label current alive =
    if is_empty label then verdict_skip else classify_split (split_on 95 [] label) current alive

-- Whether the process that the label names runs now.
pub process_alive : (ℕ → Option Str) → ℕ → ℕ → Bool
process_alive stat pid starttime = elim (read_starttime_ticks stat pid) [
  | none ↦ false
  | some got ↦ got == starttime
]

-- A listed sandbox with what the world answers for it: the process table when it is classified,
-- and whether its sidecar and the sandbox itself are removed, should the reaper try.
pub record Candidate : Type 0 where
  pub id : Str
  pub owner : Str
  pub alive : ℕ → ℕ → Bool
  pub sidecar_goes : Bool
  pub sandbox_goes : Bool

pub data Call : Type 0 where
  sidecar_remove : Str → Call
  destroy_sandbox : Str → Call

pub data ReapError : Type 0 where
  boot_id_unread : ReapError
  list_failed : ReapError
  sidecar_failed : Str → ReapError
  destroy_failed : Str → ReapError

pub record Reaped : Type 0 where
  pub reaped : ℕ
  pub errs : List ReapError
  pub calls : List Call

abbrev pub reap_one : Candidate → Reaped → Reaped
reap_one c r = record {
  reaped = if c.sandbox_goes then suc r.reaped else r.reaped;
  errs =
      (if c.sidecar_goes then r.errs else r.errs ++ sidecar_failed c.id ∷ [])
      ++ (if c.sandbox_goes then [] else destroy_failed c.id ∷ []);
  calls = r.calls ++ sidecar_remove c.id ∷ destroy_sandbox c.id ∷ [];
}

abbrev pub reap_verdict : Verdict → Candidate → Reaped → Reaped
reap_verdict verdict_keep c r = r
reap_verdict verdict_skip c r = r
reap_verdict verdict_reap c r = reap_one c r

pub reap_each : Str → List Candidate → Reaped → Reaped
reap_each boot [] r = r
reap_each boot (c ∷ cs) r =
    reap_each boot cs (reap_verdict (classify_owner c.owner boot c.alive) c r)

-- `list` is what the enumeration returns, `none` for an error.
pub reap_orphans : Option Str → Option (List Candidate) → Reaped
reap_orphans boot_file list = elim (read_boot_id boot_file) [
  | none ↦ record { reaped = 0; errs = boot_id_unread ∷ []; calls = [] }
  | some boot ↦ elim list [
    | none ↦ record { reaped = 0; errs = list_failed ∷ []; calls = [] }
    | some cs ↦ reap_each boot cs (record { reaped = 0; errs = []; calls = [] })
  ]
]

-- The pages of the lifecycle API as they are asked for, up to an error or a last page.
pub data Pages : Type 0 where
  failed : Pages
  last_page : List Candidate → Pages
  page : List Candidate → Pages → Pages

abbrev pub all_pages : Pages → Option (List Candidate)
all_pages failed = none
all_pages (last_page cs) = some cs
all_pages (page cs ps) =
    let rest = all_pages ps in elim rest [ none ↦ none | some ds ↦ some (cs ++ ds) ]

abbrev pub owned : List Candidate → List Candidate
owned [] = []
owned (c ∷ cs) = let rest = owned cs in if is_empty c.owner then rest else c ∷ rest

pub reaper_list : Pages → Option (List Candidate)
reaper_list ps = elim (all_pages ps) [ none ↦ none | some cs ↦ some (owned cs) ]
