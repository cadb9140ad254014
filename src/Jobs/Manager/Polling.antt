-- ===== src/Jobs/Manager/Polling.antt =====
-- internal/sandbox/jobs.go: `Status`, what a caller sees of a job meanwhile, and how it agrees with
-- `Wait`.
use demesne.Base.{
  ℕ, ◌≡◌, refl, sym, ◌∙◌, inl, inr, Bool, false, not, ◌&&◌, Bool-cases, Option, none, some, [], ◌∷◌,
  ◌⊎◌, if◌then◌else◌, is_empty, join_path, Str, ℤ, pos, sub_ℕ, lookup, str_Eq, Result, ok, err,
}
use demesne.Tails.{FileView, tail_file}
use demesne.Jobs.{JobId, Instant, Usd, JobStatus, job_state_to_status, is_terminal, Job, JobOutcome}
use demesne.Jobs.Manager.{
  Manager, new_job_manager, JobError, job_not_found, contains, WaitResult, WaitCall, wait_fire,
  job_done,
}
use demesne.Jobs.Manager.Order.{new_job_manager-IsWellFormed}
use demesne.Jobs.Manager.Waiting.{Ended, Reach, Reach-IsWellFormed, waits_for, wait_answers}
use demesne.Jobs.Manager.Settled.{Reach-Ended}

abbrev pub status_stdout_tail_bytes : ℕ
status_stdout_tail_bytes = 16384

-- The elapsed time is in nanoseconds.
pub record StatusResult : Type 0 where
  pub job_id : JobId
  pub status : JobStatus
  pub elapsed : ℤ
  pub stdout_tail : Str
  pub cost_usd : Usd
  pub total_usage_usd : Usd
  pub exit_code : ℤ
  pub message : Str

-- What the files of a run hold at that moment: the cost in a directory's usage.json, the total in its
-- results.json, `none` where the file is missing or malformed, and the file at a path.
pub record RunFiles : Type 0 where
  pub usage_cost : Str → Option Usd
  pub results_total : Str → Option Usd
  pub file_at : Str → FileView

abbrev pub usd_or_zero : Option Usd → Usd
usd_or_zero none = pos 0
usd_or_zero (some c) = c

abbrev pub text_or_blank : Option Str → Str
text_or_blank none = []
text_or_blank (some s) = s

-- A directory named "" is not read.
abbrev pub read_usage_snapshot : RunFiles → Str → Usd
read_usage_snapshot f dir = if is_empty dir then pos 0 else usd_or_zero (f.usage_cost dir)

abbrev pub initial_status : Instant → Job → StatusResult
initial_status now j = record {
  job_id = j.id;
  status = job_state_to_status j.state;
  elapsed = sub_ℕ now j.started_at;
  stdout_tail = [];
  cost_usd = pos 0;
  total_usage_usd = pos 0;
  exit_code = j.outcome.exit_code;
  message = [];
}

abbrev pub with_costs : RunFiles → Job → StatusResult → StatusResult
with_costs f j res =
    if not (is_terminal j.state) && not (is_empty j.results_host)
    then record res { cost_usd = read_usage_snapshot f j.results_host }
    else record res {
      cost_usd = read_usage_snapshot f j.out_host;
      total_usage_usd = usd_or_zero (f.results_total j.out_host);
    }

abbrev pub with_tail : RunFiles → Job → Bool → StatusResult → StatusResult
with_tail f j include_tail res =
    if include_tail
    then record res {
      stdout_tail = text_or_blank (
          tail_file (f.file_at (join_path (j.out_host ∷ j.stdout_basename ∷ [])))
            status_stdout_tail_bytes);
    }
    else res

abbrev pub status_of : RunFiles → Instant → Bool → Job → StatusResult
status_of f now include_tail j =
    let res = initial_status now j in
    if is_empty j.out_host then res else with_tail f j include_tail (with_costs f j res)

abbrev pub status_found :
    RunFiles → Instant → Bool → JobId → Option Job → Result JobError StatusResult
status_found f now include_tail id none = err (job_not_found id)
status_found f now include_tail id (some j) = ok (status_of f now include_tail j)

-- The pointer is looked up in the registry; the object is read after that.
unfoldable pub job_status :
    RunFiles → Instant → Bool → JobId → Manager → Result JobError StatusResult
job_status f now include_tail id m =
    if contains id m.jobs
    then status_found f now include_tail id (lookup id m.objects)
    else err (job_not_found id)

-- What `Status` says after an answer of `Wait`.
abbrev pub Told : RunFiles → Instant → Bool → JobId → Manager → WaitResult → Type 0
Told f now include_tail id m r =
    ((contains id m.jobs ≡ false) × (job_status f now include_tail id m ≡ err (job_not_found id)))
    ⊎ ((s : StatusResult) × (job_status f now include_tail id m ≡ ok s)
        × (s.status ≡ r.status)
        × ((o : JobOutcome) × (r.outcome ≡ some o) × (s.exit_code ≡ o.exit_code)))

-- What the files hold changes neither the status nor the exit code.
status_of-outcome :
    (f : RunFiles) (now : Instant) (include_tail : Bool) (j : Job)
    → ((status_of f now include_tail j).status ≡ job_state_to_status j.state)
      × ((status_of f now include_tail j).exit_code ≡ j.outcome.exit_code)
status_of-outcome f now include_tail j = elim (Bool-cases (is_empty j.out_host)) [
  | inl e ↦ rw e (refl, refl)
  | inr e ↦ elim (Bool-cases include_tail) [
    | inl t ↦ elim (Bool-cases (not (is_terminal j.state) && not (is_empty j.results_host))) [
      | inl c ↦ rw (e, t, c) (refl, refl)
      | inr c ↦ rw (e, t, c) (refl, refl)
    ]
    | inr t ↦ elim (Bool-cases (not (is_terminal j.state) && not (is_empty j.results_host))) [
      | inl c ↦ rw (e, t, c) (refl, refl)
      | inr c ↦ rw (e, t, c) (refl, refl)
    ]
  ]
]

job_status-Told :
    (f : RunFiles) (now : Instant) (include_tail : Bool) (id : JobId) (m : Manager) (r : WaitResult)
    → Ended m r id
    → Told f now include_tail id m r
unfolding job_status
job_status-Told f now include_tail id m r (j, found, closed, ended, same, outcome) =
    elim (Bool-cases (contains id m.jobs)) [
      | inr c ↦ inl (c, rw c refl)
      | inl c ↦
          let (its_status, its_code) = status_of-outcome f now include_tail j in
          inr (
            status_of f now include_tail j,
            rw (c, found) refl,
            its_status ∙ sym same,
            (j.outcome, outcome, its_code),
          )
    ]

answered-Ended :
    (m : Manager) (c : WaitCall) (r : WaitResult)
    → Reach new_job_manager m
    → wait_fire c job_done m ≡ some (ok r)
    → Ended m r (waits_for c)
answered-Ended m c r h e = elim (wait_answers m c job_done r h e) [
  | inl ended ↦ ended
  | inr (wrong, status, slow) ↦ absurd (cc wrong)
]

-- Once `Wait` has answered, in a registry that can be reached, that a job ended, `Status` gives the
-- same status and the exit code of the same outcome in every registry that is reached from there,
-- whatever the files hold, for as long as the job is registered; then it is not found.
pub status_agrees :
    (f : RunFiles) (now : Instant) (include_tail : Bool) (c : WaitCall) (m n : Manager)
    (r : WaitResult)
    → Reach new_job_manager m
    → wait_fire c job_done m ≡ some (ok r)
    → Reach m n
    → Told f now include_tail (waits_for c) n r
status_agrees f now include_tail c m n r reached answered later =
    job_status-Told f now include_tail (waits_for c) n r (
      Reach-Ended (waits_for c) r later (Reach-IsWellFormed reached new_job_manager-IsWellFormed)
        (answered-Ended m c r reached answered))
