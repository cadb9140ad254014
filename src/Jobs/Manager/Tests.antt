-- ===== src/Jobs/Manager/Tests.antt =====
-- internal/sandbox/jobs.go: a tree of three jobs, and the theorems about the registry on it.
use mathlib.Core.List.{Memᴰ}
use demesne.Base.{
  ◌≡◌, ◌≢◌, refl, true, false, [], arith, codes, lookup, some, if◌then◌else◌, ◌⊎◌, str_Eq, str_eq,
  insert, none,
}
use demesne.Jobs.{
  cancel_swap, JobId, Job, zero_outcome, run_returns, write_result, tell, close_done, act, new_job,
  state_cancelled, is_terminal, running, Instant, succeeded,
}
use demesne.Jobs.Manager.{
  Manager, new_job_manager, start, act_on, cancel, update, contains, state_of, reap_expired,
  expired_at, wait_fire, wait_on_done, answer_if_done, fast_path, job_done, timer, WaitResult,
}
use demesne.Tails.{missing}
use demesne.Jobs.Manager.Polling.{RunFiles, Told, status_agrees}
use demesne.Jobs.Manager.Order.{IsWellFormed, new_job_manager-IsWellFormed}
use demesne.Jobs.Manager.Subtree.{Below, self, child}
use demesne.Jobs.Manager.Cancel.{cancel_settles}
use demesne.Jobs.Manager.Orphans.{orphan_survives}
use demesne.Jobs.Manager.Waiting.{
  Reach, here, next, starts, acts, Reach-IsWellFormed, wait_answers, Ended,
}

abbrev root : JobId
root = codes "job-1"

abbrev middle : JobId
middle = codes "job-2"

abbrev leaf : JobId
leaf = codes "job-3"

abbrev other : JobId
other = codes "job-4"

abbrev m1 : Manager
m1 = start root 10 [] (codes "sandbox_agent") true new_job_manager

abbrev m2 : Manager
m2 = start middle 20 root (codes "sandbox_agent") true m1

abbrev m3 : Manager
m3 = start leaf 30 middle (codes "sandbox_script") true m2

abbrev tree : Manager
tree = start other 40 [] (codes "sandbox_script") true m3

to_m1 : Reach new_job_manager m1
unfolding lookup str_eq
to_m1 = next here (
    starts root 10 [] (codes "sandbox_agent") true (record { unborn = refl; childless = refl })
      (ground arith))

to_m2 : Reach new_job_manager m2
unfolding start lookup str_eq insert
to_m2 = next to_m1 (
    starts middle 20 root (codes "sandbox_agent") true (record { unborn = refl; childless = refl })
      (ground arith))

to_m3 : Reach new_job_manager m3
unfolding start lookup str_eq insert
to_m3 = next to_m2 (
    starts leaf 30 middle (codes "sandbox_script") true (record { unborn = refl; childless = refl })
      (ground arith))

to_tree : Reach new_job_manager tree
unfolding start lookup str_eq insert
to_tree = next to_m3 (
    starts other 40 [] (codes "sandbox_script") true (record { unborn = refl; childless = refl })
      (ground arith))

tree-IsWellFormed : IsWellFormed tree
tree-IsWellFormed = Reach-IsWellFormed to_tree new_job_manager-IsWellFormed

Reach-IsWellFormed_example : IsWellFormed tree
Reach-IsWellFormed_example = Reach-IsWellFormed to_tree new_job_manager-IsWellFormed

leaf-Below : Below tree leaf root
unfolding start contains lookup insert str_eq
leaf-Below = child middle refl (Memᴰ.head refl) (child leaf refl (Memᴰ.head refl) (self refl refl))

cancel_settles_example :
    state_of leaf (cancel 50 root tree).0
    ≡ (if is_terminal (state_of leaf tree) then state_of leaf tree else state_cancelled)
cancel_settles_example = cancel_settles 50 root leaf tree tree-IsWellFormed leaf-Below

other_apart : ¬ Below tree other leaf
unfolding start contains lookup insert str_eq
other_apart (self p r) = ground arith
other_apart (child c r h b) = elim h [ ]

-- The tree after the middle job has succeeded.
abbrev finished : Manager
finished = act_on middle close_done (
    act_on middle tell
      (act_on middle (write_result 100) (act_on middle (run_returns zero_outcome false) tree)))

to_finished : Reach new_job_manager finished
to_finished =
    next (next (next (next to_tree (acts middle _)) (acts middle _)) (acts middle _))
      (acts middle _)

finished-IsWellFormed : IsWellFormed finished
finished-IsWellFormed = Reach-IsWellFormed to_finished new_job_manager-IsWellFormed

abbrev sweep : Instant
sweep = 4_000_000_000_000

abbrev middle_finished : Job
middle_finished = act close_done (
    act tell (
      act (write_result 100) (
        act (run_returns zero_outcome false)
          (new_job middle root (codes "sandbox_agent") true 20))))

orphan_survives_example :
    Below finished leaf root
    × (state_of leaf (cancel 4001 root (reap_expired sweep finished)).0 ≡ state_of leaf finished)
unfolding start contains lookup insert str_eq act_on update act new_job expired_at is_terminal
orphan_survives_example =
    orphan_survives sweep 4001 root middle leaf finished finished-IsWellFormed (refl, refl, refl)
      refl refl refl (ground arith)

abbrev answered : WaitResult
answered = record { job_id = middle; status = succeeded; message = []; outcome = some zero_outcome }

wait_answers_example :
    (Ended finished answered middle)
    ⊎ ((job_done ≡ timer)
        × (answered.status ≡ running)
        × ((id : JobId) → fast_path middle ≢ fast_path id))
unfolding start contains lookup insert str_eq act_on update act new_job wait_fire wait_on_done
    answer_if_done
wait_answers_example = wait_answers finished (fast_path middle) job_done answered to_finished refl

abbrev no_files : RunFiles
no_files = record { usage_cost = λ d. none; results_total = λ d. none; file_at = λ p. missing }

-- A registry after the answer: the leaf is cancelled.
abbrev later : Manager
later = act_on leaf cancel_swap finished

status_agrees_example : Told no_files 130 true middle later answered
unfolding start contains lookup insert str_eq act_on update act new_job wait_fire wait_on_done
    answer_if_done
status_agrees_example =
    status_agrees no_files 130 true (fast_path middle) finished later answered to_finished refl
      (next here (acts leaf cancel_swap))
