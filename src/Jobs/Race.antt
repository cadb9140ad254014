-- ===== src/Jobs/Race.antt =====
-- internal/sandbox/jobs.go: who wins the race for a job's terminal state, and what that fixes.
use demesne.Base.{
  ℕ, ◌≡◌, refl, sym, subst, ◌∙◌, Bool, true, false, List, [], ◌∷◌, arith, if◌then◌else◌,
}
use demesne.Jobs.Settling.{
  Fits, IsConsistent, IsConsistent-done, act-IsConsistent, act_all-IsConsistent, terminal_absorbs,
}
use demesne.Jobs.{
  Job, Instant, JobOutcome, zero_outcome, Phase, Canceller, Action, act, act_all, state_running,
  state_succeeded, state_failed, state_cancelled, is_terminal, run_returns, run_panics,
  write_result, tell, output_ready, is_cancelling, close_done, cancel_swap,
}

running_unclaimed :
    (p : Phase) (c : Canceller) (j : Job)
    → Fits p c j
    → j.state ≡ state_running
    → (c ≡ Canceller.idle) × (j.done ≡ false)
running_unclaimed p c j h s = ground arith

returned_state-is_terminal :
    (err : Bool) → is_terminal (if err then state_failed else state_succeeded) ≡ true
unfolding is_terminal
returned_state-is_terminal err = ground arith

cancel_swap_state :
    (j : Job) → j.state ≡ state_running → (act cancel_swap j).state ≡ state_cancelled
unfolding act
cancel_swap_state j h = ground arith

cancelled_is_terminal :
    (j : Job) → j.state ≡ state_running → is_terminal (act cancel_swap j).state ≡ true
unfolding act is_terminal
cancelled_is_terminal j h = ground arith

cancelled_outcome :
    (p : Phase) (c : Canceller) (j : Job)
    → Fits p c j
    → j.state ≡ state_cancelled
    → j.outcome ≡ zero_outcome
cancelled_outcome p c j h s = ground arith

-- The actions that end `run`.
abbrev pub Ends : Action → Type 0
Ends (run_returns oc err) = Unit {0}
Ends run_panics = Unit {0}
Ends a = ⊥

-- What the result of `run` fixes once its swap has won: the state, and the outcome that is written.
abbrev Returned : ℕ → JobOutcome → Phase → Job → Type 0
Returned s oc (Phase.swapped s' oc') j = (j.state ≡ s) × (s' ≡ s) × (oc' ≡ oc) × (j.done ≡ false)
Returned s oc (Phase.recorded s') j = (j.state ≡ s) × (s' ≡ s) × (j.outcome ≡ oc) × (j.done ≡ false)
Returned s oc Phase.exiting j = (j.state ≡ s) × (j.outcome ≡ oc)
Returned s oc Phase.exited j = (j.state ≡ s) × (j.outcome ≡ oc)
Returned s oc p j = ⊥

act-Returned :
    (s : ℕ) (oc : JobOutcome) (p : Phase) (a : Action) (j : Job)
    → is_terminal s ≡ true
    → j.phase ≡ p
    → j.canceller ≡ Canceller.idle
    → Returned s oc p j
    → ((act a j).canceller ≡ Canceller.idle) × Returned s oc (act a j).phase (act a j)
unfolding act is_terminal
act-Returned s oc p a j t hp hc h = ground arith

act_all-Returned :
    (s : ℕ) (oc : JobOutcome) (l : List Action) (j : Job)
    → is_terminal s ≡ true
    → j.canceller ≡ Canceller.idle
    → Returned s oc j.phase j
    → ((act_all l j).canceller ≡ Canceller.idle) × Returned s oc (act_all l j).phase (act_all l j)
unfolding act_all
act_all-Returned s oc [] j t hc h = (hc, h)
act_all-Returned s oc (a ∷ l) j t hc h =
    let next = act-Returned s oc j.phase a j t refl hc h in
    act_all-Returned s oc l (act a j) t next.0 next.1

abbrev pub returned_state : Bool → ℕ
returned_state err = if err then state_failed else state_succeeded

run_returns-Returned :
    (oc : JobOutcome) (err : Bool) (j : Job)
    → j.phase ≡ Phase.executing
    → j.state ≡ state_running
    → j.canceller ≡ Canceller.idle
    → j.done ≡ false
    → ((act (run_returns oc err) j).canceller ≡ Canceller.idle)
      × Returned
          (returned_state err)
          oc
          (act (run_returns oc err) j).phase
          (act (run_returns oc err) j)
unfolding act
run_returns-Returned oc err j hp hs hc hd = ground arith

Returned-done :
    (s : ℕ) (oc : JobOutcome) (p : Phase) (j : Job)
    → Returned s oc p j
    → (j.state ≡ s) × (j.done ≡ true → j.outcome ≡ oc)
Returned-done s oc p j h = ground arith

-- When `run` returns before any cancellation, the job's state is decided by the error alone, and
-- nothing that happens later changes it; whoever sees `done` closed sees the outcome of that run.
pub return_wins :
    (oc : JobOutcome) (err : Bool) (l : List Action) (j : Job)
    → IsConsistent j
    → j.phase ≡ Phase.executing
    → j.state ≡ state_running
    → let k = act_all (run_returns oc err ∷ l) j in
      (k.state ≡ returned_state err) × (k.done ≡ true → k.outcome ≡ oc)
unfolding act_all
return_wins oc err l j h hp hs =
    let (idle, fresh) = running_unclaimed j.phase j.canceller j h.fits hs in
    let first = run_returns-Returned oc err j hp hs idle fresh in
    let k = act_all l (act (run_returns oc err) j) in
    Returned-done (returned_state err) oc k.phase k
      (act_all-Returned (returned_state err) oc l (act (run_returns oc err) j)
        (returned_state-is_terminal err) first.0 first.1).1

-- A cancellation that comes first keeps the job cancelled, and whatever `run` returns is dropped.
pub cancel_wins :
    (l : List Action) (j : Job)
    → IsConsistent j
    → j.state ≡ state_running
    → let k = act_all (cancel_swap ∷ l) j in
      (k.state ≡ state_cancelled) × (k.outcome ≡ zero_outcome)
unfolding act_all
cancel_wins l j h hs =
    let k = act_all l (act cancel_swap j) in
    let settled = terminal_absorbs l (act cancel_swap j) (cancelled_is_terminal j hs) in
    let e = settled ∙ cancel_swap_state j hs in
    (
      e,
      cancelled_outcome k.phase k.canceller k
          (act_all-IsConsistent l _ (act-IsConsistent cancel_swap j h)).fits e,
    )

-- An action that is not the goroutine's own: a part of a cancellation, or the hook that the run
-- itself calls.
abbrev pub is_aside : Action → Bool
is_aside (output_ready out results) = true
is_aside a = is_cancelling a

-- A sequence in which the goroutine takes these actions in this order, with any others between them.
pub data Mixed : List Action → List Action → Type 0 where
  over : Mixed [] []
  own : {gs l : List Action} (g : Action) → Mixed gs l → Mixed (g ∷ gs) (g ∷ l)
  aside : {gs l : List Action} (a : Action) → is_aside a ≡ true → Mixed gs l → Mixed gs (a ∷ l)

aside_keeps :
    (a : Action) (j : Job)
    → is_aside a ≡ true
    → ((act a j).phase ≡ j.phase) × ((act a j).done ≡ j.done)
unfolding act
aside_keeps a j h = ground arith

-- The places from which the rest of the goroutine's actions end it.
abbrev ToWrite : Phase → Type 0
ToWrite (Phase.swapped s oc) = Unit
ToWrite Phase.panicked = Unit
ToWrite Phase.exiting = Unit
ToWrite p = ⊥

abbrev ToTell : Phase → Type 0
ToTell (Phase.recorded s) = Unit
ToTell Phase.panic_recorded = Unit
ToTell Phase.exiting = Unit
ToTell p = ⊥

own_end : (a : Action) (j : Job) → Ends a → j.phase ≡ Phase.executing → ToWrite (act a j).phase
unfolding act
own_end a j e h = ground arith

own_write :
    (now : Instant) (p : Phase) (j : Job)
    → j.phase ≡ p
    → ToWrite p
    → ToTell (act (write_result now) j).phase
unfolding act
own_write now p j h w = ground arith

own_tell : (p : Phase) (j : Job) → j.phase ≡ p → ToTell p → (act tell j).phase ≡ Phase.exiting
unfolding act
own_tell p j h w = ground arith

own_close : (j : Job) → j.phase ≡ Phase.exiting → (act close_done j).done ≡ true
unfolding act
own_close j h = ground arith

after_all : (l : List Action) (j : Job) → Mixed [] l → j.done ≡ true → (act_all l j).done ≡ true
unfolding act_all
after_all [] j over d = d
after_all (b ∷ l) j (aside a h m) d = after_all l (act a j) m ((aside_keeps a j h).1 ∙ d)

from_close :
    (l : List Action) (j : Job)
    → Mixed (close_done ∷ []) l
    → j.phase ≡ Phase.exiting
    → (act_all l j).done ≡ true
unfolding act_all
from_close [] j m h = elim m [ ]
from_close (b ∷ l) j (own g m) h = after_all l (act close_done j) m (own_close j h)
from_close (b ∷ l) j (aside a k m) h = from_close l (act a j) m ((aside_keeps a j k).0 ∙ h)

from_tell :
    (l : List Action) (j : Job)
    → Mixed (tell ∷ close_done ∷ []) l
    → ToTell j.phase
    → (act_all l j).done ≡ true
unfolding act_all
from_tell [] j m h = elim m [ ]
from_tell (b ∷ l) j (own g m) h = from_close l (act tell j) m (own_tell j.phase j refl h)
from_tell (b ∷ l) j (aside a k m) h =
    from_tell l (act a j) m (subst ToTell (sym (aside_keeps a j k).0) h)

from_write :
    (now : Instant) (l : List Action) (j : Job)
    → Mixed (write_result now ∷ tell ∷ close_done ∷ []) l
    → ToWrite j.phase
    → (act_all l j).done ≡ true
unfolding act_all
from_write now [] j m h = elim m [ ]
from_write now (b ∷ l) j (own g m) h =
    from_tell l (act (write_result now) j) m (own_write now j.phase j refl h)
from_write now (b ∷ l) j (aside a k m) h =
    from_write now l (act a j) m (subst ToWrite (sym (aside_keeps a j k).0) h)

from_end :
    (e : Action) (now : Instant) (l : List Action) (j : Job)
    → Ends e
    → Mixed (e ∷ write_result now ∷ tell ∷ close_done ∷ []) l
    → j.phase ≡ Phase.executing
    → (act_all l j).done ≡ true
unfolding act_all
from_end e now [] j ends m h = elim m [ ]
from_end e now (b ∷ l) j ends (own g m) h = from_write now l (act e j) m (own_end e j ends h)
from_end e now (b ∷ l) j ends (aside a k m) h =
    from_end e now l (act a j) ends m ((aside_keeps a j k).0 ∙ h)

-- Where `run` returns or panics and the goroutine goes on to its end, in this order and with any
-- actions of cancellers and any calls of the hook between its own, `done` is closed, and the job is
-- in a terminal state.
pub goroutine_exits :
    (e : Action) (now : Instant) (l : List Action) (j : Job)
    → Ends e
    → IsConsistent j
    → j.phase ≡ Phase.executing
    → Mixed (e ∷ write_result now ∷ tell ∷ close_done ∷ []) l
    → ((act_all l j).done ≡ true) × (is_terminal (act_all l j).state ≡ true)
goroutine_exits e now l j ends h hp m =
    let closed = from_end e now l j ends m hp in
    (closed, IsConsistent-done (act_all l j) (act_all-IsConsistent l j h) closed)
