-- ===== src/Jobs/Manager/Reaping.antt =====
-- internal/sandbox/jobs.go, `reapExpired`: which jobs leave the registry.
use demesne.Base.{
  ◌+◌, ◌<◌, ◌≡◌, ◌≢◌, refl, ◌∙◌, ap, ◌↔◌, Bool, true, false, not, ◌&&◌, Option, none, some, List,
  [], ◌∷◌, if◌then◌else◌, str_eq, str_eq_iff, lookup, lookup-delete, arith, str_Eq,
}
use demesne.Jobs.{JobId, Instant, is_terminal, Job}
use demesne.Jobs.Manager.{
  Manager, contains, without, expired_at, is_expired, drop_job, reap_loop, reap_expired, job_ttl,
}

contains-without :
    (id d : JobId) (l : List JobId)
    → contains d (without id l) ≡ (if str_eq id d then false else contains d l)
unfolding contains without
contains-without id d [] = ground arith
contains-without id d (i ∷ l) =
    ground (arith, str_eq_iff i id, str_eq_iff i d, str_eq_iff id d, contains-without id d l)

-- The loop tests each job by the heap, which it does not write.
expired_at-drop_job :
    (now : Instant) (d : JobId) (b : Bool) (id : JobId) (m : Manager)
    → expired_at now d (if b then drop_job id m else m) ≡ expired_at now d m
unfolding expired_at drop_job
expired_at-drop_job now d true id m = refl
expired_at-drop_job now d false id m = refl

contains-drop_job :
    (now : Instant) (d : JobId) (b : Bool) (id : JobId) (m : Manager)
    → contains d (if b then drop_job id m else m).jobs
      ≡ (if b then (if str_eq id d then false else contains d m.jobs) else contains d m.jobs)
unfolding drop_job
contains-drop_job now d true id m = contains-without id d m.jobs
contains-drop_job now d false id m = refl

children-drop_job :
    (d : JobId) (b : Bool) (id : JobId) (m : Manager)
    → lookup d (if b then drop_job id m else m).children
      ≡ (if b then (if str_eq id d then none else lookup d m.children) else lookup d m.children)
unfolding drop_job
children-drop_job d true id m = lookup-delete id d m.children
children-drop_job d false id m = refl

module _ (now : Instant) (d : JobId) where
  contains-reap_loop :
      (l : List JobId) (m : Manager)
      → contains d (reap_loop now l m).jobs
        ≡ (contains d m.jobs && not (contains d l && expired_at now d m))
  unfolding reap_loop contains
  contains-reap_loop [] m = ground arith
  contains-reap_loop (id ∷ l) m =
      let b = expired_at now id m in
      let k = if b then drop_job id m else m in
      ground (
        arith,
        contains-reap_loop l k,
        contains-drop_job now d b id m,
        expired_at-drop_job now d b id m,
        str_eq_iff id d,
        same_expiry id m,
      )
    where
      same_expiry : (id : JobId) (m : Manager) → id ≡ d → expired_at now id m ≡ expired_at now d m
      same_expiry id m e = ap (λ (i : JobId). expired_at now i m) e

  children-reap_loop :
      (l : List JobId) (m : Manager)
      → lookup d (reap_loop now l m).children
        ≡ (if contains d l && expired_at now d m then none else lookup d m.children)
  unfolding reap_loop contains
  children-reap_loop [] m = ground arith
  children-reap_loop (id ∷ l) m =
      let b = expired_at now id m in
      let k = if b then drop_job id m else m in
      ground (
        arith,
        children-reap_loop l k,
        children-drop_job d b id m,
        expired_at-drop_job now d b id m,
        str_eq_iff id d,
        same_expiry id m,
      )
    where
      same_expiry : (id : JobId) (m : Manager) → id ≡ d → expired_at now id m ≡ expired_at now d m
      same_expiry id m e = ap (λ (i : JobId). expired_at now i m) e

objects-drop_job :
    (b : Bool) (id : JobId) (m : Manager) → (if b then drop_job id m else m).objects ≡ m.objects
unfolding drop_job
objects-drop_job true id m = refl
objects-drop_job false id m = refl

objects-reap_loop :
    (now : Instant) (l : List JobId) (m : Manager) → (reap_loop now l m).objects ≡ m.objects
unfolding reap_loop drop_job
objects-reap_loop now [] m = refl
objects-reap_loop now (id ∷ l) m =
    let b = expired_at now id m in
    objects-reap_loop now l (if b then drop_job id m else m) ∙ objects-drop_job b id m

pub objects-reap_expired : (now : Instant) (m : Manager) → (reap_expired now m).objects ≡ m.objects
unfolding reap_expired
objects-reap_expired now m = objects-reap_loop now m.jobs m

pub contains-reap_expired :
    (now : Instant) (d : JobId) (m : Manager)
    → contains d (reap_expired now m).jobs ≡ (contains d m.jobs && not (expired_at now d m))
unfolding reap_expired
contains-reap_expired now d m = ground (arith, contains-reap_loop now d m.jobs m)

pub children-reap_expired :
    (now : Instant) (d : JobId) (m : Manager)
    → lookup d (reap_expired now m).children
      ≡ (if contains d m.jobs && expired_at now d m then none else lookup d m.children)
unfolding reap_expired
children-reap_expired now d m = children-reap_loop now d m.jobs m

is_expired_iff :
    (now : Instant) (j : Job)
    → (is_expired now j ≡ true)
      ↔ ((is_terminal j.state ≡ true) × (j.finished_at ≢ 0) × (j.finished_at + job_ttl < now))
unfolding is_expired
is_expired_iff now j = ground arith

-- A sweep at `now` removes a registered job exactly when its state is terminal, its end time has been
-- recorded, and that time lies more than the TTL before `now`. The job's object is left as it was.
pub reap_exact :
    (now : Instant) (d : JobId) (j : Job) (m : Manager)
    → contains d m.jobs ≡ true
    → lookup d m.objects ≡ some j
    → ((contains d (reap_expired now m).jobs ≡ false)
        ↔ ((is_terminal j.state ≡ true) × (j.finished_at ≢ 0) × (j.finished_at + job_ttl < now)))
      × (lookup d (reap_expired now m).objects ≡ some j)
unfolding expired_at
reap_exact now d j m r e =
    let gone = contains-reap_expired now d m in
    let (to, from) = is_expired_iff now j in
    let same = ap (λ (o : Option Job). elim o [ none ↦ false | some k ↦ is_expired now k ]) e in
    (
      (λ h. to (ground (arith, gone, same)), λ h. ground (arith, gone, same, from h)),
      rw objects-reap_expired e,
    )
