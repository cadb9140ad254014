-- ===== src/Jobs/Tests.antt =====
-- internal/sandbox/jobs.go: runs of one job, and the theorems about it at concrete inputs.
use demesne.Base.{◌≡◌, refl, true, false, List, [], ◌∷◌, codes}
use demesne.Jobs.{
  Job, JobOutcome, zero_outcome, Action, run_returns, run_panics, write_result, tell, close_done,
  cancel_swap, cancel_stamp, cancel_signal, act, act_all, new_job, state_succeeded, state_cancelled,
  succeeded, cancelled, is_terminal,
}
use demesne.Jobs.Settling.{new_job-IsConsistent, TellsOnce, notified_once, done-is_terminal}
use demesne.Jobs.Race.{return_wins, returned_state, goroutine_exits, over, own, aside}

abbrev fresh : Job
fresh = new_job (codes "job-1") [] (codes "sandbox_script") true 5

abbrev outcome : JobOutcome
outcome = record zero_outcome { result_text = codes "hello" }

abbrev finishing : List Action
finishing = write_result 9 ∷ tell ∷ close_done ∷ []

abbrev late_cancel : List Action
late_cancel = run_returns outcome false ∷ cancel_swap ∷ cancel_stamp 8 ∷ cancel_signal ∷ finishing

abbrev early_cancel : List Action
early_cancel =
    cancel_swap ∷ run_returns outcome false ∷ cancel_stamp 8 ∷ close_done ∷ cancel_signal ∷ []

late_cancel_run :
    let j = act_all late_cancel fresh in
    (j.state ≡ state_succeeded)
    × (j.notified ≡ succeeded ∷ [])
    × (j.outcome ≡ outcome)
    × (j.ctx_cancelled ≡ false)
    × (j.done ≡ true)
unfolding act_all act new_job
late_cancel_run = (refl, refl, refl, refl, refl)

early_cancel_run :
    let j = act_all early_cancel fresh in
    (j.state ≡ state_cancelled)
    × (j.notified ≡ cancelled ∷ [])
    × (j.outcome ≡ zero_outcome)
    × (j.ctx_cancelled ≡ true)
    × (j.done ≡ true)
unfolding act_all act new_job
early_cancel_run = (refl, refl, refl, refl, refl)

notified_once_example : TellsOnce (act_all late_cancel fresh) (act_all late_cancel fresh).notified
notified_once_example = notified_once (codes "job-1") [] (codes "sandbox_script") true 5 late_cancel

done-is_terminal_example : is_terminal (act_all early_cancel fresh).state ≡ true
unfolding act_all act new_job
done-is_terminal_example =
    done-is_terminal (codes "job-1") [] (codes "sandbox_script") true 5 early_cancel refl

return_wins_example :
    let k = act_all late_cancel fresh in
    (k.state ≡ returned_state false) × (k.done ≡ true → k.outcome ≡ outcome)
unfolding new_job
return_wins_example =
    return_wins outcome false (cancel_swap ∷ cancel_stamp 8 ∷ cancel_signal ∷ finishing) fresh
      (new_job-IsConsistent (codes "job-1") [] (codes "sandbox_script") true 5) refl refl

goroutine_exits_example :
    let l = cancel_swap ∷ run_panics ∷ write_result 9 ∷ cancel_stamp 8 ∷ tell ∷ close_done ∷ [] in
    ((act_all l fresh).done ≡ true) × (is_terminal (act_all l fresh).state ≡ true)
unfolding new_job
goroutine_exits_example =
    goroutine_exits run_panics 9
      (cancel_swap ∷ run_panics ∷ write_result 9 ∷ cancel_stamp 8 ∷ tell ∷ close_done ∷ []) fresh tt
      (new_job-IsConsistent (codes "job-1") [] (codes "sandbox_script") true 5) refl
      (aside cancel_swap refl (
        own run_panics
          (own (write_result 9) (aside (cancel_stamp 8) refl (own tell (own close_done over))))))
