-- ===== src/Jobs/Manager/Cancel.antt =====
-- internal/sandbox/jobs.go, `Cancel`: what a caller may rely on.
use mathlib.Core.List.{Memᴰ}
use demesne.Base.{
  ℕ, zero, suc, ◌≡◌, refl, ◌∙◌, ap, ◌⊎◌, inl, inr, true, false, List, [], ◌∷◌, ◌==◌, if◌then◌else◌,
  length, str_eq, str_eq_iff, lookup, Bool-cases, arith, str_Eq, Result, ok, err,
}
use demesne.Jobs.{JobId, Instant, is_terminal, job_state_to_status, state_running, state_cancelled}
use demesne.Jobs.Manager.{
  Manager, contains, children_of, act_on, cancel_node, cancel_each, cancel_subtree, cancel,
  state_of, job_not_found, JobError, CancelResult,
}
use demesne.Jobs.Manager.Order.{lookup-update, IsWellFormed}
use demesne.Jobs.Manager.Cancelling.{Extends, Extends-refl, cancel_subtree-Extends}
use demesne.Jobs.Manager.Subtree.{
  Below, self, child, IsTerminalAt, Extends-Below, cancel_subtree_reaches,
}

settled_state :
    (x y : ℕ)
    → is_terminal y ≡ true
    → ((y ≡ x) ⊎ ((x ≡ state_running) × (y ≡ state_cancelled)))
    → y ≡ (if is_terminal x then x else state_cancelled)
unfolding is_terminal
settled_state x y t h = ground arith

pub Below-registered : (m : Manager) (d id : JobId) → Below m d id → contains id m.jobs ≡ true
Below-registered m d id (self p r) = r
Below-registered m d id (child c r h b) = r

-- After `Cancel`, every job of the tree below `id` that was running is cancelled, and every job of it
-- that was already terminal keeps its state; the depth of the tree is no limit.
pub cancel_settles :
    (now : Instant) (id d : JobId) (m : Manager)
    → IsWellFormed m
    → Below m d id
    → state_of d (cancel now id m).0
      ≡ (if is_terminal (state_of d m) then state_of d m else state_cancelled)
unfolding cancel
cancel_settles now id d m w b =
    let f = suc (length m.objects) in
    rw (Below-registered m d id b) (
      settled_state (state_of d m) (state_of d (cancel_subtree f now id m))
        (unfold IsTerminalAt in cancel_subtree_reaches f now d id m w (omega arith) b)
        ((cancel_subtree-Extends f now id m m (Extends-refl m w)).states d))

cancel_node_frame :
    (now : Instant) (d id : JobId) (k : Manager)
    → (lookup d (cancel_node now id k).objects ≡ lookup d k.objects) ⊎ (id ≡ d)
unfolding cancel_node act_on
cancel_node_frame now d id k = elim (Bool-cases (str_eq id d)) [
  | inl e ↦ inr ((str_eq_iff id d).0 e)
  | inr e ↦ inl (elim (Bool-cases (state_of id k == state_running)) [
    | inl r ↦ rw r (simp (lookup-update, e))
    | inr r ↦ rw r
  ])
]

cancel_each_frame :
    (visit : JobId → Manager → Manager) (d id : JobId) (m : Manager) (l : List JobId) (k : Manager)
    → contains id m.jobs ≡ true
    → ((c : JobId) → Memᴰ c l → Memᴰ c (children_of id m))
    → ((c : JobId) (n : Manager) → Extends m n → Extends m (visit c n))
    → ((c : JobId) (n : Manager)
        → Extends m n
        → (lookup d (visit c n).objects ≡ lookup d n.objects) ⊎ Below m d c)
    → Extends m k
    → (lookup d (cancel_each visit l k).objects ≡ lookup d k.objects) ⊎ Below m d id
unfolding cancel_each
cancel_each_frame visit d id m [] k r sub keeps one e = inl refl
cancel_each_frame visit d id m (c ∷ l) k r sub keeps one e = elim (one c k e) [
  | inr b ↦ inr (child c r (sub c (Memᴰ.head refl)) b)
  | inl p ↦
      elim (cancel_each_frame visit d id m l (visit c k) r (λ x h. sub x (Memᴰ.tail h)) keeps one
        (keeps c k e)) [ inl q ↦ inl (q ∙ p) | inr b ↦ inr b ]
]

cancel_subtree_frame :
    (f : ℕ) (now : Instant) (d id : JobId) (m k : Manager)
    → Extends m k
    → (lookup d (cancel_subtree f now id k).objects ≡ lookup d k.objects) ⊎ Below m d id
unfolding cancel_subtree
cancel_subtree_frame zero now d id m k e = inl refl
cancel_subtree_frame (suc f) now d id m k e = elim (Bool-cases (contains id k.jobs)) [
  | inr r ↦ inl (rw r)
  | inl r ↦
      let below = cancel_each (cancel_subtree f now) (children_of id k) k in
      elim (cancel_each_frame (cancel_subtree f now) d id k (children_of id k) k r (λ c h. h)
        (λ c n i. cancel_subtree-Extends f now c k n i)
        (λ c n i.
          frame_at k c n i (cancel_subtree_frame f now d c n n (Extends-refl n i.well_formed)))
        (Extends-refl k e.well_formed)) [
          | inr b ↦ inr (Extends-Below m k d id e b)
          | inl p ↦ elim (cancel_node_frame now d id below) [
            | inl q ↦ inl (rw r (q ∙ p))
            | inr q ↦ inr (Extends-Below m k d id e (self q r))
          ]
        ]
]
  where
    frame_at :
        (k : Manager) (c : JobId) (n : Manager)
        → Extends k n
        → (lookup d (cancel_subtree f now c n).objects ≡ lookup d n.objects) ⊎ Below n d c
        → (lookup d (cancel_subtree f now c n).objects ≡ lookup d n.objects) ⊎ Below k d c
    frame_at k c n i (inl p) = inl p
    frame_at k c n i (inr b) = inr (Extends-Below k n d c i b)

-- `Cancel` changes no field of a job that is not in the tree below `id`, and it leaves the registry
-- and the parent-child links as they are.
pub cancel_frame :
    (now : Instant) (id d : JobId) (m : Manager)
    → IsWellFormed m
    → ¬ Below m d id
    → let k = (cancel now id m).0 in
      (lookup d k.objects ≡ lookup d m.objects) × (k.jobs ≡ m.jobs) × (k.children ≡ m.children)
unfolding cancel
cancel_frame now id d m w n = elim (Bool-cases (contains id m.jobs)) [
  | inr r ↦ rw r (refl, refl, refl)
  | inl r ↦
      let f = suc (length m.objects) in
      let e = cancel_subtree-Extends f now id m m (Extends-refl m w) in
      rw r (elim (cancel_subtree_frame f now d id m m (Extends-refl m w)) [
        | inl p ↦ (p, e.jobs, e.children)
        | inr b ↦ absurd (n b)
      ])
]

-- Nothing is left to do where every job of the tree is terminal.
cancel_each_idle :
    (visit : JobId → Manager → Manager) (l : List JobId) (m : Manager)
    → ((c : JobId) → Memᴰ c l → visit c m ≡ m)
    → cancel_each visit l m ≡ m
unfolding cancel_each
cancel_each_idle visit [] m h = refl
cancel_each_idle visit (c ∷ l) m h =
    rw (h c (Memᴰ.head refl)) (cancel_each_idle visit l m (λ x k. h x (Memᴰ.tail k)))

cancel_node_idle :
    (now : Instant) (id : JobId) (m : Manager) → IsTerminalAt id m → cancel_node now id m ≡ m
unfolding cancel_node IsTerminalAt is_terminal
cancel_node_idle now id m t = ground arith

cancel_subtree_idle :
    (f : ℕ) (now : Instant) (id : JobId) (m : Manager)
    → ((d : JobId) → Below m d id → IsTerminalAt d m)
    → cancel_subtree f now id m ≡ m
unfolding cancel_subtree
cancel_subtree_idle zero now id m h = refl
cancel_subtree_idle (suc f) now id m h = elim (Bool-cases (contains id m.jobs)) [
  | inr r ↦ rw r
  | inl r ↦ rw r (
      rw
        (cancel_each_idle (cancel_subtree f now) (children_of id m) m
          (λ c k. cancel_subtree_idle f now c m (λ d b. h d (child c r k b))))
        (cancel_node_idle now id m (h id (self refl r))))
]

abbrev answer : JobId → Manager → Manager × Result JobError CancelResult
answer id k = (k, ok (record { job_id = id; status = job_state_to_status (state_of id k) }))

cancel_registered :
    (now : Instant) (id : JobId) (m : Manager)
    → contains id m.jobs ≡ true
    → cancel now id m ≡ answer id (cancel_subtree (suc (length m.objects)) now id m)
unfolding cancel
cancel_registered now id m r = rw r

cancel_unregistered :
    (now : Instant) (id : JobId) (m : Manager)
    → contains id m.jobs ≡ false
    → cancel now id m ≡ (m, err (job_not_found id))
unfolding cancel
cancel_unregistered now id m r = rw r

-- A second `Cancel` of the same job changes nothing and answers as the first did.
pub cancel_idempotent :
    (now later : Instant) (id : JobId) (m : Manager)
    → IsWellFormed m
    → cancel later id (cancel now id m).0 ≡ cancel now id m
cancel_idempotent now later id m w = elim (Bool-cases (contains id m.jobs)) [
  | inr r ↦ rw (cancel_unregistered now id m r) (cancel_unregistered later id m r)
  | inl r ↦
      let f = suc (length m.objects) in
      let k = cancel_subtree f now id m in
      let e = cancel_subtree-Extends f now id m m (Extends-refl m w) in
      let still =
        cancel_subtree_idle (suc (length k.objects)) later id k (λ d b.
          cancel_subtree_reaches f now d id m w (omega arith) (Extends-Below m k d id e b)) in
      rw (cancel_registered now id m r)
        (cancel_registered later id k (rw e.jobs r) ∙ ap (answer id) still)
]
