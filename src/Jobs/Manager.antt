-- ===== src/Jobs/Manager.antt =====
-- internal/sandbox/jobs.go: the registry of jobs, `JobManager`.
pub mod Order
pub mod Cancelling
pub mod Subtree
pub mod Cancel
pub mod Reaping
pub mod Orphans
pub mod Waiting
pub mod Settled
pub mod Polling
mod Tests
use mathlib.Core.Option
use demesne.Base.{
  ℕ, zero, suc, ◌+◌, ◌-◌, ◌*◌, ◌≡◌, Bool, true, false, not, ◌&&◌, Option, none, some, List, [], ◌∷◌,
  ◌++◌, ltb, ◌==◌, if◌then◌else◌, length, Str, codes, str_eq, Map, lookup, insert, delete, ℤ, pos,
  sub_ℕ, ltb_ℤ, Result, ok, err, str_Eq,
}
use demesne.Jobs.{
  JobId, Instant, Usd, JobStatus, running, job_state_to_status, is_terminal, state_running, Job,
  JobOutcome, Action, cancel_swap, cancel_stamp, cancel_signal, act, new_job,
}

abbrev pub second : ℕ
second = 1_000_000_000

abbrev pub job_ttl : ℕ
job_ttl = 3600 * second

abbrev pub default_wait_timeout : ℤ
default_wait_timeout = pos (30 * 60 * second)

abbrev pub max_wait_timeout : ℤ
max_wait_timeout = pos (48 * 3600 * second)

-- A job's object outlives its entry in the registry, since callers hold pointers to it: `objects`
-- is the heap, the newest object first, and `jobs` holds the keys of the map `m.jobs`.
pub record Manager : Type 0 where
  pub objects : Map JobId Job
  pub jobs : List JobId
  pub children : Map JobId (List JobId)
  pub root_cancelled : Bool

pub data JobError : Type 0 where
  job_not_found : JobId → JobError
  ctx_error : JobError

abbrev pub new_job_manager : Manager
new_job_manager = record { objects = []; jobs = []; children = []; root_cancelled = false }

pub contains : JobId → List JobId → Bool
contains id [] = false
contains id (i ∷ l) = if str_eq i id then true else contains id l

without : JobId → List JobId → List JobId
without id [] = []
without id (i ∷ l) = let rest = without id l in if str_eq i id then rest else i ∷ rest

abbrev pub children_of : JobId → Manager → List JobId
children_of id m = Option.get_or (lookup id m.children) []

-- A write through the pointer to one job.
pub update : JobId → (Job → Job) → Map JobId Job → Map JobId Job
update id f [] = []
update id f ((i, j) ∷ l) = if str_eq i id then (i, f j) ∷ l else (i, j) ∷ update id f l

-- `Start`, with the minted id and the time that the clock gives.
pub start : JobId → Instant → JobId → Str → Bool → Manager → Manager
start id now parent tool notify m = record m {
  objects = (id, new_job id parent tool notify now) ∷ m.objects;
  jobs = id ∷ m.jobs;
  children =
      if str_eq parent []
      then m.children
      else insert parent (children_of parent m ++ id ∷ []) m.children;
}

-- One atomic action on one job.
pub act_on : JobId → Action → Manager → Manager
act_on id a m = record m { objects = update id (act a) m.objects }

abbrev pub state_of : JobId → Manager → ℕ
state_of id m = Option.get_or (Option.map (λ (j : Job). j.state) (lookup id m.objects)) 0

-- The part of `cancelSubtree` that follows the loop over the children: it goes on only if its
-- swap wins.
pub cancel_node : Instant → JobId → Manager → Manager
cancel_node now id m =
    if state_of id m == state_running
    then act_on id cancel_signal (act_on id (cancel_stamp now) (act_on id cancel_swap m))
    else m

pub cancel_each : (JobId → Manager → Manager) → List JobId → Manager → Manager
cancel_each visit [] m = m
cancel_each visit (c ∷ l) m = cancel_each visit l (visit c m)

-- The fuel bounds the depth of the recursion.
pub cancel_subtree : ℕ → Instant → JobId → Manager → Manager
cancel_subtree zero now id m = m
cancel_subtree (suc f) now id m =
    let below = cancel_each (cancel_subtree f now) (children_of id m) m in
    if contains id m.jobs then cancel_node now id below else m

pub record CancelResult : Type 0 where
  pub job_id : JobId
  pub status : JobStatus

-- `Cancel`; as many objects bound the depth of the tree.
pub cancel : Instant → JobId → Manager → Manager × Result JobError CancelResult
cancel now id m =
    if contains id m.jobs
    then (let m' = cancel_subtree (suc (length m.objects)) now id m in
        (m', ok (record { job_id = id; status = job_state_to_status (state_of id m') })))
    else (m, err (job_not_found id))

-- The test of `reapExpired`; `-` stops at 0, where no instant lies before the cutoff.
is_expired : Instant → Job → Bool
is_expired now j =
    is_terminal j.state && (not (j.finished_at == 0) && ltb j.finished_at (now - job_ttl))

pub expired_at : Instant → JobId → Manager → Bool
unfolding is_expired
expired_at now id m = elim (lookup id m.objects) [ none ↦ false | some j ↦ is_expired now j ]

drop_job : JobId → Manager → Manager
drop_job id m = record m { jobs = without id m.jobs; children = delete id m.children }

reap_loop : Instant → List JobId → Manager → Manager
reap_loop now [] m = m
reap_loop now (id ∷ l) m = reap_loop now l (if expired_at now id m then drop_job id m else m)

-- `reapExpired`
pub reap_expired : Instant → Manager → Manager
unfolding reap_loop expired_at drop_job
reap_expired now m = reap_loop now m.jobs m

-- The clamping of `Wait`.
pub wait_timeout : ℤ → ℤ
wait_timeout timeout =
    let t = if ltb_ℤ (pos 0) timeout then timeout else default_wait_timeout in
    if ltb_ℤ max_wait_timeout t then max_wait_timeout else t

pub record WaitResult : Type 0 where
  pub job_id : JobId
  pub status : JobStatus
  pub message : Str
  pub outcome : Option JobOutcome

-- What a call of `Wait` blocks on: the closed channel alone, or the three branches of `select`.
-- It holds the pointer to the job, which is its id here, and not the registry's entry.
pub data WaitCall : Type 0 where
  fast_path : JobId → WaitCall
  selecting : JobId → ℤ → WaitCall

pub wait_begin : JobId → ℤ → Manager → Result JobError WaitCall
unfolding wait_timeout
wait_begin id timeout m =
    if contains id m.jobs
    then ok
        (if is_terminal (state_of id m) then fast_path id else selecting id (wait_timeout timeout))
    else err (job_not_found id)

pub data Branch : Type 0 where
  job_done timer ctx_done : Branch

-- Called once `done` is closed.
build_wait_result : Job → WaitResult
build_wait_result j = record {
  job_id = j.id;
  status = job_state_to_status j.state;
  message = [];
  outcome = some j.outcome;
}

still_running : JobId → WaitResult
still_running id = record {
  job_id = id;
  status = running;
  message = codes "still running; call sandbox_wait again";
  outcome = none;
}

answer_if_done : Option Job → Option (Result JobError WaitResult)
unfolding build_wait_result
answer_if_done none = none
answer_if_done (some j) = if j.done then some (ok (build_wait_result j)) else none

-- A receive from `j.done`.
wait_on_done : JobId → Manager → Option (Result JobError WaitResult)
wait_on_done id m = answer_if_done (lookup id m.objects)

-- The branch that fires, at the manager as it is then; `none` where the branch cannot fire.
pub wait_fire : WaitCall → Branch → Manager → Option (Result JobError WaitResult)
wait_fire (fast_path id) job_done m = wait_on_done id m
wait_fire (fast_path id) _ m = none
wait_fire (selecting id t) job_done m = wait_on_done id m
wait_fire (selecting id t) timer m = some (ok (still_running id))
wait_fire (selecting id t) ctx_done m = some (err ctx_error)
