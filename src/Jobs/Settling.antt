-- ===== src/Jobs/Settling.antt =====
-- internal/sandbox/jobs.go: what holds of one job whatever the order of its goroutine's and its
-- cancellers' actions.
use demesne.Base.{
  ◌≤◌, ◌≡◌, refl, ◌⊎◌, inl, inr, sym, subst, ◌∙◌, Bool, true, false, List, [], ◌∷◌, arith, length,
  All, Str, if◌then◌else◌,
}
use demesne.Jobs.{
  Job, JobId, Instant, zero_outcome, JobStatus, Phase, Canceller, Action, act, act_all, new_job,
  state_running, state_succeeded, state_failed, state_cancelled, job_state_to_status, is_terminal,
  cancelled,
}

abbrev pub told : Job → JobStatus → List JobStatus
told j s = if j.notify then s ∷ [] else []

abbrev pub signalled_by : Canceller → Bool
signalled_by Canceller.signalled = true
signalled_by _ = false

abbrev pub is_exited : Phase → Bool
is_exited Phase.exited = true
is_exited _ = false

-- The places of the goroutine of a job that was cancelled.
abbrev pub leaves : Phase → Bool
leaves Phase.executing = true
leaves Phase.exiting = true
leaves Phase.exited = true
leaves _ = false

-- What the goroutine's place and the canceller's place say of the other fields.
abbrev pub Fits : Phase → Canceller → Job → Type 0
Fits Phase.executing Canceller.idle j =
    (j.state ≡ state_running)
    × (j.notified ≡ [])
    × (j.finished_at ≡ 0)
    × (j.outcome ≡ zero_outcome)
    × (j.done ≡ false)
    × (j.ctx_cancelled ≡ false)
Fits (Phase.swapped s oc) Canceller.idle j =
    (j.state ≡ s)
    × ((s ≡ state_succeeded) ⊎ (s ≡ state_failed))
    × (j.notified ≡ [])
    × (j.done ≡ false)
    × (j.ctx_cancelled ≡ false)
Fits (Phase.recorded s) Canceller.idle j =
    (j.state ≡ s)
    × ((s ≡ state_succeeded) ⊎ (s ≡ state_failed))
    × (j.notified ≡ [])
    × (j.done ≡ false)
    × (j.ctx_cancelled ≡ false)
Fits Phase.panicked Canceller.idle j =
    (j.state ≡ state_failed)
    × (j.notified ≡ [])
    × (j.done ≡ false)
    × (j.outcome ≡ zero_outcome)
    × (j.ctx_cancelled ≡ false)
Fits Phase.panic_recorded Canceller.idle j =
    (j.state ≡ state_failed)
    × (j.notified ≡ [])
    × (j.done ≡ false)
    × (j.outcome ≡ zero_outcome)
    × (j.ctx_cancelled ≡ false)
Fits Phase.exiting Canceller.idle j =
    ((j.state ≡ state_succeeded) ⊎ (j.state ≡ state_failed))
    × (j.notified ≡ told j (job_state_to_status j.state))
    × (j.done ≡ false)
    × (j.ctx_cancelled ≡ false)
Fits Phase.exited Canceller.idle j =
    ((j.state ≡ state_succeeded) ⊎ (j.state ≡ state_failed))
    × (j.notified ≡ told j (job_state_to_status j.state))
    × (j.done ≡ true)
    × (j.ctx_cancelled ≡ false)
Fits p c j =
    (j.state ≡ state_cancelled)
    × (j.outcome ≡ zero_outcome)
    × (j.notified ≡ (if signalled_by c then told j cancelled else []))
    × (j.ctx_cancelled ≡ signalled_by c)
    × (j.done ≡ is_exited p)
    × (leaves p ≡ true)

pub record IsConsistent (j : Job) : Type 0 where
  pub fits : Fits j.phase j.canceller j

pub new_job-IsConsistent :
    (id parent : JobId) (tool : Str) (notify : Bool) (now : Instant)
    → IsConsistent (new_job id parent tool notify now)
unfolding new_job
new_job-IsConsistent id parent tool notify now = ground arith

act-Fits :
    (p : Phase) (c : Canceller) (a : Action) (j : Job)
    → j.phase ≡ p
    → j.canceller ≡ c
    → Fits p c j
    → Fits (act a j).phase (act a j).canceller (act a j)
unfolding act
act-Fits p c a j hp hc h = ground arith

Fits-done :
    (p : Phase) (c : Canceller) (j : Job) → Fits p c j → j.done ≡ true → is_terminal j.state ≡ true
unfolding is_terminal
Fits-done p c j h d = ground arith

Fits-state :
    (p : Phase) (c : Canceller) (j : Job)
    → Fits p c j
    → (j.state ≡ state_running) ⊎ (is_terminal j.state ≡ true)
unfolding is_terminal
Fits-state p c j h = ground arith

pub act-IsConsistent : (a : Action) (j : Job) → IsConsistent j → IsConsistent (act a j)
act-IsConsistent a j h = record { fits = act-Fits j.phase j.canceller a j refl refl h.fits }

pub IsConsistent-state :
    (j : Job) → IsConsistent j → (j.state ≡ state_running) ⊎ (is_terminal j.state ≡ true)
IsConsistent-state j h = Fits-state j.phase j.canceller j h.fits

pub IsConsistent-done : (j : Job) → IsConsistent j → j.done ≡ true → is_terminal j.state ≡ true
IsConsistent-done j h = Fits-done j.phase j.canceller j h.fits

act_done :
    (p : Phase) (c : Canceller) (a : Action) (j : Job)
    → j.phase ≡ p
    → j.canceller ≡ c
    → Fits p c j
    → j.done ≡ true
    → ((act a j).done ≡ true) × ((act a j).state ≡ j.state) × ((act a j).outcome ≡ j.outcome)
unfolding act
act_done p c a j hp hc h d = ground arith

-- Once `done` is closed, no action changes what a waiter reads.
pub act_keeps_done :
    (a : Action) (j : Job)
    → IsConsistent j
    → j.done ≡ true
    → ((act a j).done ≡ true) × ((act a j).state ≡ j.state) × ((act a j).outcome ≡ j.outcome)
act_keeps_done a j h d = act_done j.phase j.canceller a j refl refl h.fits d

pub act_all-IsConsistent : (l : List Action) (j : Job) → IsConsistent j → IsConsistent (act_all l j)
unfolding act_all
act_all-IsConsistent [] j h = h
act_all-IsConsistent (a ∷ l) j h = act_all-IsConsistent l (act a j) (act-IsConsistent a j h)

act_keeps_terminal : (a : Action) (j : Job) → is_terminal j.state ≡ true → (act a j).state ≡ j.state
unfolding act is_terminal
act_keeps_terminal a j h = ground arith

pub act-is_terminal :
    (a : Action) (j : Job) → is_terminal j.state ≡ true → is_terminal (act a j).state ≡ true
act-is_terminal a j h = rw (act_keeps_terminal a j h) h

-- A terminal state is final: no action of the goroutine or of a canceller changes it.
pub terminal_absorbs :
    (l : List Action) (j : Job) → is_terminal j.state ≡ true → (act_all l j).state ≡ j.state
unfolding act_all
terminal_absorbs [] j h = refl
terminal_absorbs (a ∷ l) j h =
    let e = act_keeps_terminal a j h in terminal_absorbs l (act a j) (rw e h) ∙ e

Fits-notified :
    (p : Phase) (c : Canceller) (j : Job)
    → Fits p c j
    → (j.notified ≡ [])
      ⊎ ((j.notified ≡ job_state_to_status j.state ∷ []) × (is_terminal j.state ≡ true))
unfolding is_terminal job_state_to_status
Fits-notified p c j h = ground arith

abbrev pub TellsOnce : Job → List JobStatus → Type 0
TellsOnce j l =
    (length l ≤ 1) × All (λ s. (s ≡ job_state_to_status j.state) × (is_terminal j.state ≡ true)) l

Fits-TellsOnce : (p : Phase) (c : Canceller) (j : Job) → Fits p c j → TellsOnce j j.notified
Fits-TellsOnce p c j h = elim (Fits-notified p c j h) [
  | inl e ↦ subst (TellsOnce j) (sym e) (omega arith, tt)
  | inr e ↦ subst (TellsOnce j) (sym e.0) (omega arith, ((refl, e.1), tt))
]

-- However the actions on a started job interleave, its notifier is called at most once, and then
-- with the job's status, which is terminal.
pub notified_once :
    (id parent : JobId) (tool : Str) (notify : Bool) (now : Instant) (l : List Action)
    → let j = act_all l (new_job id parent tool notify now) in TellsOnce j j.notified
notified_once id parent tool notify now l =
    let j = act_all l (new_job id parent tool notify now) in
    Fits-TellsOnce j.phase j.canceller j
      (act_all-IsConsistent l _ (new_job-IsConsistent id parent tool notify now)).fits

-- A job whose `done` channel is closed is in a terminal state.
pub done-is_terminal :
    (id parent : JobId) (tool : Str) (notify : Bool) (now : Instant) (l : List Action)
    → let j = act_all l (new_job id parent tool notify now) in
      j.done ≡ true → is_terminal j.state ≡ true
done-is_terminal id parent tool notify now l =
    let j = act_all l (new_job id parent tool notify now) in
    Fits-done j.phase j.canceller j
      (act_all-IsConsistent l _ (new_job-IsConsistent id parent tool notify now)).fits
