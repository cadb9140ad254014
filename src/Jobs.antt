-- ===== src/Jobs.antt =====
-- internal/sandbox/jobs.go: one background job, its goroutine and the calls that cancel it, as the
-- atomic actions that can interleave.
pub mod Settling
pub mod Race
pub mod Manager
mod Tests
use demesne.Base.{
  ℕ, ◌≡◌, Bool, true, false, ◌||◌, List, [], ◌∷◌, ◌==◌, if◌then◌else◌, Str, codes, ℤ, pos, str_eq,
}

abbrev pub JobId : Type 0
JobId = Str

-- An instant, in nanoseconds since Go's zero time; 0 is the zero time, `IsZero`.
abbrev pub Instant : Type 0
Instant = ℕ

-- An amount of money, in units of 10^-8 US dollars.
abbrev pub Usd : Type 0
Usd = ℤ

-- The values of the atomic `state` field.
abbrev pub state_running : ℕ
state_running = 0

abbrev pub state_succeeded : ℕ
state_succeeded = 1

abbrev pub state_failed : ℕ
state_failed = 2

abbrev pub state_cancelled : ℕ
state_cancelled = 3

pub data JobStatus : Type 0 where
  running succeeded failed cancelled : JobStatus

unfoldable pub job_state_to_status : ℕ → JobStatus
job_state_to_status s =
    if s == state_succeeded
    then succeeded
    else if s == state_failed
    then failed
    else if s == state_cancelled
    then cancelled
    else running

unfoldable pub is_terminal : ℕ → Bool
is_terminal s = s == state_succeeded || s == state_failed || s == state_cancelled

abbrev pub tool_sandbox_agent : Str
tool_sandbox_agent = codes "sandbox_agent"

abbrev pub tool_sandbox_research : Str
tool_sandbox_research = codes "sandbox_research"

unfoldable pub stdout_basename_for_tool : Str → Str
stdout_basename_for_tool tool =
    if str_eq tool tool_sandbox_agent || str_eq tool tool_sandbox_research
    then codes "transcript.jsonl"
    else codes "stdout.log"

pub record JobOutcome : Type 0 where
  pub result_text : Str
  pub output_path : Str
  pub exit_code : ℤ
  pub cost_usd : Usd
  pub total_usage_usd : Usd

abbrev pub zero_outcome : JobOutcome
zero_outcome = record {
  result_text = [];
  output_path = [];
  exit_code = pos 0;
  cost_usd = pos 0;
  total_usage_usd = pos 0;
}

-- Where the job's goroutine stands.
pub data Phase : Type 0 where
  executing : Phase  -- inside run(jobCtx, hooks)
  swapped : ℕ → JobOutcome → Phase  -- its swap won; the outcome is not written yet
  recorded : ℕ → Phase  -- outcome and finishedAt are written
  panicked : Phase  -- recovered, its swap to failed won
  panic_recorded : Phase
  exiting : Phase  -- the deferred calls are left
  exited : Phase  -- close(j.done) was made

-- Where the call of `cancelSubtree` whose swap won stands.
pub data Canceller : Type 0 where
  idle won stamped signalled : Canceller

pub record Job : Type 0 where
  pub id : JobId
  pub tool : Str
  pub stdout_basename : Str
  pub state : ℕ
  pub ctx_cancelled : Bool  -- j.cancel() was called
  pub done : Bool  -- the channel is closed
  pub started_at : Instant
  pub parent : JobId
  pub notify : Bool  -- the notifier is not nil
  pub out_host : Str
  pub results_host : Str
  pub finished_at : Instant
  pub outcome : JobOutcome
  pub phase : Phase
  pub canceller : Canceller
  pub notified : List JobStatus  -- the calls of the notifier, the latest first

-- atomic.CompareAndSwapInt32(&j.state, old, new), and what follows when it wins or loses
unfoldable pub compare_and_swap : ℕ → ℕ → (Job → Job) → (Job → Job) → Job → Job
compare_and_swap old new then_do else_do j =
    if j.state == old then then_do (record j { state = new }) else else_do j

-- `if j.notify != nil { j.notify(j.id, status) }`
unfoldable pub call_notify : JobStatus → Job → Job
call_notify status j = if j.notify then record j { notified = status ∷ j.notified } else j

-- The atomic actions on one job.
pub data Action : Type 0 where
  output_ready : Str → Str → Action  -- the hook OnOutputReady
  run_returns : JobOutcome → Bool → Action  -- run returned; true for a non-nil error
  run_panics : Action
  write_result : Instant → Action
  tell : Action
  close_done : Action
  cancel_swap : Action
  cancel_stamp : Instant → Action
  cancel_signal : Action

-- The goroutine of `Start`, from the hook to its deferred calls.
goroutine : Phase → Action → Job → Job
unfolding compare_and_swap call_notify job_state_to_status
goroutine executing (output_ready out results) j = record j {
  out_host = out;
  results_host = results;
}
goroutine executing (run_returns outcome err) j =
    let new_state = if err then state_failed else state_succeeded in
    compare_and_swap state_running new_state (λ k. record k { phase = swapped new_state outcome })
      (λ k. record k { phase = exiting }) j
goroutine executing run_panics j =
    compare_and_swap state_running state_failed (λ k. record k { phase = panicked })
      (λ k. record k { phase = exiting }) j
goroutine (swapped new_state outcome) (write_result now) j = record j {
  outcome = outcome;
  finished_at = now;
  phase = recorded new_state;
}
goroutine (recorded new_state) tell j = record (call_notify (job_state_to_status new_state) j) {
  phase = exiting;
}
goroutine panicked (write_result now) j = record j { finished_at = now; phase = panic_recorded }
goroutine panic_recorded tell j = record (call_notify failed j) { phase = exiting }
goroutine exiting close_done j = record j { done = true; phase = exited }
goroutine _ _ j = j

-- The last part of `cancelSubtree`, on one node.
cancelling : Canceller → Action → Job → Job
unfolding compare_and_swap call_notify
cancelling _ cancel_swap j =
    compare_and_swap state_running state_cancelled (λ k. record k { canceller = won }) (λ k. k) j
cancelling won (cancel_stamp now) j = record j { finished_at = now; canceller = stamped }
cancelling stamped cancel_signal j =
    record (call_notify cancelled (record j { ctx_cancelled = true })) { canceller = signalled }
cancelling _ _ j = j

abbrev pub is_cancelling : Action → Bool
is_cancelling cancel_swap = true
is_cancelling (cancel_stamp now) = true
is_cancelling cancel_signal = true
is_cancelling _ = false

unfoldable pub act : Action → Job → Job
unfolding goroutine cancelling
act a j = if is_cancelling a then cancelling j.canceller a j else goroutine j.phase a j

unfoldable pub act_all : List Action → Job → Job
act_all [] j = j
act_all (a ∷ rest) j = act_all rest (act a j)

-- The object that `Start` builds.
unfoldable pub new_job : JobId → JobId → Str → Bool → Instant → Job
new_job id parent tool notify now = record {
  id = id;
  tool = tool;
  stdout_basename = stdout_basename_for_tool tool;
  state = state_running;
  ctx_cancelled = false;
  done = false;
  started_at = now;
  parent = parent;
  notify = notify;
  out_host = [];
  results_host = [];
  finished_at = 0;
  outcome = zero_outcome;
  phase = executing;
  canceller = idle;
  notified = [];
}
