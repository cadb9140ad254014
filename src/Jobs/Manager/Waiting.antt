-- ===== src/Jobs/Manager/Waiting.antt =====
-- internal/sandbox/jobs.go: the registry under interleaved calls, and what `Wait` answers.
use demesne.Base.{
  suc, length, ◌≡◌, ◌≢◌, refl, ◌⊎◌, inl, inr, Bool, true, Option, none, some, lookup, Bool-cases,
  arith, str_Eq, ℤ, pos, ◌≤ℤ◌, Str, Result, ok,
}
use demesne.Jobs.{JobId, Instant, Job, running, is_terminal, job_state_to_status, Action}
use demesne.Jobs.Settling.{IsConsistent-done}
use demesne.Jobs.Manager.{
  Manager, new_job_manager, JobError, contains, start, act_on, reap_expired, WaitCall, fast_path,
  selecting, WaitResult, Branch, job_done, timer, ctx_done, wait_fire, cancel, wait_timeout,
  wait_on_done, answer_if_done, still_running, max_wait_timeout,
}
use demesne.Jobs.Manager.Order.{
  IsWellFormed, IsFresh, new_job_manager-IsWellFormed, act_on-IsWellFormed, start-IsWellFormed,
}
use demesne.Jobs.Manager.Cancelling.{cancel_subtree_keeps}
use demesne.Jobs.Manager.Orphans.{reap_expired-IsWellFormed}

-- The steps that callers, goroutines and the reaper make in any order.
pub data Step (m : Manager) : Manager → Type 0 where
  starts :
      (id : JobId) (now : Instant) (parent : JobId) (tool : Str) (notify : Bool)
      → IsFresh id m
      → id ≢ parent
      → Step m (start id now parent tool notify m)
  acts : (id : JobId) (a : Action) → Step m (act_on id a m)
  reaps : (now : Instant) → Step m (reap_expired now m)
  shuts_down : Step m (record m { root_cancelled = true })

pub data Reach (m : Manager) : Manager → Type 0 where
  here : Reach m m
  next : {k n : Manager} → Reach m k → Step k n → Reach m n

Step-IsWellFormed : {m n : Manager} → Step m n → IsWellFormed m → IsWellFormed n
Step-IsWellFormed {m} (starts id now parent tool notify f ne) w =
    start-IsWellFormed id parent now tool notify m f ne w
Step-IsWellFormed {m} (acts id a) w = act_on-IsWellFormed id a m w
Step-IsWellFormed {m} (reaps now) w = reap_expired-IsWellFormed now m w
Step-IsWellFormed shuts_down w = record {
  live = w.live;
  consistent = w.consistent;
  edges = w.edges;
}

-- Every registry that a new manager can reach is well formed: each registered job has an object, each
-- object is consistent, and each child was started after its parent.
pub Reach-IsWellFormed : {m n : Manager} → Reach m n → IsWellFormed m → IsWellFormed n
Reach-IsWellFormed here w = w
Reach-IsWellFormed (next r s) w = Step-IsWellFormed s (Reach-IsWellFormed r w)

-- Whatever timeout is asked for, the wait is at least one nanosecond and at most 48 hours; a timeout
-- within these bounds, however short, is taken as it is.
pub wait_timeout_bounds :
    (t : ℤ)
    → (pos 1 ≤ℤ wait_timeout t)
      × (wait_timeout t ≤ℤ max_wait_timeout)
      × (pos 1 ≤ℤ t → t ≤ℤ max_wait_timeout → wait_timeout t ≡ t)
unfolding wait_timeout
wait_timeout_bounds t = (ground arith, ground arith, λ h k. ground arith)

-- What a caller may conclude from an answer: the job ended so, with this outcome.
abbrev pub Ended : Manager → WaitResult → JobId → Type 0
Ended m r id =
    (j : Job) × (lookup id m.objects ≡ some j)
    × (j.done ≡ true)
    × (is_terminal j.state ≡ true)
    × (r.status ≡ job_state_to_status j.state)
    × (r.outcome ≡ some j.outcome)

answer_lem :
    (id : JobId) (m : Manager) (r : WaitResult) (o : Option Job)
    → IsWellFormed m
    → lookup id m.objects ≡ o
    → answer_if_done o ≡ some (ok r)
    → Ended m r id
unfolding answer_if_done
answer_lem id m r none w e h = absurd (cc)
answer_lem id m r (some j) w e h = elim (Bool-cases j.done) [
  | inr d ↦ absurd (ground arith)
  | inl d ↦ (j, e, d, IsConsistent-done j (w.consistent id j e) d, ground arith, ground arith)
]

abbrev pub waits_for : WaitCall → JobId
waits_for (fast_path id) = id
waits_for (selecting id t) = id

timer_status :
    (id : JobId) (r : WaitResult)
    → ◌≡◌ {A = Option (Result JobError WaitResult)} (some (ok (still_running id))) (some (ok r))
    → r.status ≡ running
unfolding still_running
timer_status id r e = ground arith

-- In every registry that can be reached, an answer of `Wait` without error is either the timer's
-- "still running", which a call on the fast path never gets, or the status and the outcome of a job
-- whose goroutine has ended in a terminal state.
pub wait_answers :
    (m : Manager) (c : WaitCall) (b : Branch) (r : WaitResult)
    → Reach new_job_manager m
    → wait_fire c b m ≡ some (ok r)
    → (Ended m r (waits_for c))
      ⊎ ((b ≡ timer) × (r.status ≡ running) × ((id : JobId) → c ≢ fast_path id))
unfolding wait_fire wait_on_done
wait_answers m (fast_path id) job_done r h e = inl (
    answer_lem id m r (lookup id m.objects) (Reach-IsWellFormed h new_job_manager-IsWellFormed) refl
      e)
wait_answers m (fast_path id) timer r h e = absurd (cc)
wait_answers m (fast_path id) ctx_done r h e = absurd (cc)
wait_answers m (selecting id t) job_done r h e = inl (
    answer_lem id m r (lookup id m.objects) (Reach-IsWellFormed h new_job_manager-IsWellFormed) refl
      e)
wait_answers m (selecting id t) timer r h e = inr (refl, timer_status id r e, λ i p. cc)
wait_answers m (selecting id t) ctx_done r h e = absurd (cc)

-- `Cancel` is a sequence of the atomic steps, so it may interleave with all other calls.
pub cancel-Reach : (now : Instant) (id : JobId) (m : Manager) → Reach m (cancel now id m).0
unfolding cancel
cancel-Reach now id m = elim (Bool-cases (contains id m.jobs)) [
  | inl r ↦ rw r (
      cancel_subtree_keeps (Reach m) (λ i a k _ h. next h (acts i a)) (suc (length m.objects)) now
        id m here)
  | inr r ↦ rw r here
]
