-- ===== src/Jobs/Manager/Settled.antt =====
-- internal/sandbox/jobs.go: what `Wait` has answered of an ended job stays so in every later registry.
use demesne.Base.{
  ◌≡◌, refl, sym, ◌∙◌, ap, subst, inl, inr, Bool-cases, none, some, lookup, str_eq, str_eq_iff,
  str_Eq, Str, Bool,
}
use demesne.Jobs.{JobId, Instant, Action, act, job_state_to_status}
use demesne.Jobs.Settling.{act_keeps_done, act-is_terminal}
use demesne.Jobs.Manager.{Manager, start, act_on, WaitResult}
use demesne.Jobs.Manager.Order.{IsWellFormed, IsFresh, lookup-update}
use demesne.Jobs.Manager.Reaping.{objects-reap_expired}
use demesne.Jobs.Manager.Waiting.{
  Step, starts, acts, reaps, shuts_down, Reach, here, next, Ended, Reach-IsWellFormed,
}

acted-Ended :
    (d : JobId) (a : Action) (id : JobId) (m : Manager) (r : WaitResult)
    → IsWellFormed m
    → Ended m r id
    → Ended (act_on d a m) r id
unfolding act_on
acted-Ended d a id m r w (j, found, closed, ended, status, outcome) =
    elim (Bool-cases (str_eq d id)) [
      | inr n ↦ (
        j,
        lookup-update d id (act a) m.objects ∙ rw (n, found) refl,
        closed,
        ended,
        status,
        outcome,
      )
      | inl y ↦
          let (still, state, kept) = act_keeps_done a j (w.consistent id j found) closed in
          (
            act a j,
            lookup-update d id (act a) m.objects ∙ rw (y, found) refl,
            still,
            act-is_terminal a j ended,
            status ∙ ap job_state_to_status (sym state),
            outcome ∙ ap some (sym kept),
          )
    ]

started-Ended :
    (d : JobId) (now : Instant) (parent : JobId) (tool : Str) (notify : Bool) (id : JobId)
    (m : Manager) (r : WaitResult)
    → IsFresh d m
    → Ended m r id
    → Ended (start d now parent tool notify m) r id
unfolding start lookup
started-Ended d now parent tool notify id m r f (j, found, closed, ended, status, outcome) =
    elim (Bool-cases (str_eq d id)) [
      | inl y ↦ absurd (
          let same : d ≡ id = (str_eq_iff d id).0 y in
          let none_there : lookup id m.objects ≡ none =
            subst (λ (k : JobId). lookup k m.objects ≡ none) same f.unborn in
          cc (none_there, found))
      | inr n ↦ (j, rw n found, closed, ended, status, outcome)
    ]

Step-Ended :
    {m n : Manager} (id : JobId) (r : WaitResult)
    → Step m n
    → IsWellFormed m
    → Ended m r id
    → Ended n r id
Step-Ended {m} id r (starts d now parent tool notify f ne) w e =
    started-Ended d now parent tool notify id m r f e
Step-Ended {m} id r (acts d a) w e = acted-Ended d a id m r w e
Step-Ended {m} id r (reaps now) w (j, found, closed, ended, status, outcome) =
    (j, rw objects-reap_expired found, closed, ended, status, outcome)
Step-Ended id r shuts_down w e = e

-- Whatever the callers, the goroutines and the reaper do next.
pub Reach-Ended :
    {m n : Manager} (id : JobId) (r : WaitResult)
    → Reach m n
    → IsWellFormed m
    → Ended m r id
    → Ended n r id
Reach-Ended id r here w e = e
Reach-Ended id r (next h s) w e =
    Step-Ended id r s (Reach-IsWellFormed h w) (Reach-Ended id r h w e)
