-- ===== src/Jobs/Manager/Subtree.antt =====
-- internal/sandbox/jobs.go, `cancelSubtree` and `Cancel`: a cancellation reaches the whole tree below
-- the job, and nothing else.
use mathlib.Core.List.{Memᴰ}
use mathlib.Core.Option
use demesne.Base.{
  ℕ, zero, suc, ◌+◌, ◌<◌, ◌≡◌, sym, subst, ◌⊎◌, inl, inr, true, some, List, [], ◌∷◌, length,
  str_eq_refl, Map, lookup, arith, str_Eq,
}
use demesne.Jobs.{
  JobId, Instant, is_terminal, Job, state_running, Action, cancel_swap, cancel_stamp, cancel_signal,
  act,
}
use demesne.Jobs.Settling.{IsConsistent-state}
use demesne.Jobs.Manager.{
  Manager, contains, children_of, act_on, cancel_node, cancel_each, cancel_subtree, state_of,
}
use demesne.Jobs.Manager.Order.{rank, lookup-update, rank-le-length, IsWellFormed}
use demesne.Jobs.Manager.Cancelling.{
  Extends, Extends-refl, act_on-Extends, cancel_subtree-Extends, cancel_each_keeps,
  cancel_node_keeps,
}

-- `id` is `d` or an ancestor of it, every job on the way being registered.
pub data Below (m : Manager) (d : JobId) : JobId → Type 0 where
  self : {id : JobId} → id ≡ d → contains id m.jobs ≡ true → Below m d id
  child :
      {id : JobId} (c : JobId)
      → contains id m.jobs ≡ true
      → Memᴰ c (children_of id m)
      → Below m d c
      → Below m d id

unfoldable pub IsTerminalAt : JobId → Manager → Type 0
IsTerminalAt d m = is_terminal (state_of d m) ≡ true

Below-Extends : (m k : Manager) (d id : JobId) → Extends m k → Below m d id → Below k d id
Below-Extends m k d id e (self p r) = self p (rw e.jobs r)
Below-Extends m k d id e (child c r h b) =
    child c (rw e.jobs r)
      (subst (λ (x : Map JobId (List JobId)). Memᴰ c (Option.get_or (lookup id x) []))
        (sym e.children) h)
      (Below-Extends m k d c e b)

pub Extends-Below : (m k : Manager) (d id : JobId) → Extends m k → Below k d id → Below m d id
Extends-Below m k d id e (self p r) = self p (rw (← e.jobs) r)
Extends-Below m k d id e (child c r h b) =
    child c (rw (← e.jobs) r)
      (subst (λ (x : Map JobId (List JobId)). Memᴰ c (Option.get_or (lookup id x) [])) e.children h)
      (Extends-Below m k d c e b)

Extends-terminal : (m k : Manager) (d : JobId) → Extends m k → IsTerminalAt d m → IsTerminalAt d k
unfolding is_terminal IsTerminalAt
Extends-terminal m k d e h = ground (arith, e.states d)

Extends-Extends :
    (m k : Manager)
    → Extends m k
    → (f : ℕ) (now : Instant) (id : JobId) → Extends k (cancel_subtree f now id k)
Extends-Extends m k e f now id = cancel_subtree-Extends f now id k k (Extends-refl k e.well_formed)

swapped_is_terminal :
    (now : Instant) (j : Job)
    → j.state ≡ state_running
    → is_terminal (act cancel_signal (act (cancel_stamp now) (act cancel_swap j))).state ≡ true
unfolding act is_terminal
swapped_is_terminal now j h = ground arith

lookup-act_on :
    (id : JobId) (a : Action) (m : Manager) (j : Job)
    → lookup id m.objects ≡ some j
    → lookup id (act_on id a m).objects ≡ some (act a j)
unfolding act_on
lookup-act_on id a m j e = ground (arith, lookup-update id id (act a) m.objects, str_eq_refl id)

-- The node itself is terminal afterwards.
cancel_node_terminal :
    (now : Instant) (id : JobId) (m : Manager) (j : Job)
    → lookup id m.objects ≡ some j
    → (j.state ≡ state_running) ⊎ (is_terminal j.state ≡ true)
    → IsTerminalAt id (cancel_node now id m)
unfolding cancel_node IsTerminalAt
cancel_node_terminal now id m j e (inl s) =
    let e1 = lookup-act_on id cancel_swap m j e in
    let m1 = act_on id cancel_swap m in
    let e2 = lookup-act_on id (cancel_stamp now) m1 (act cancel_swap j) e1 in
    let m2 = act_on id (cancel_stamp now) m1 in
    let e3 = lookup-act_on id cancel_signal m2 (act (cancel_stamp now) (act cancel_swap j)) e2 in
    rw (e, s, e3) (swapped_is_terminal now j s)
cancel_node_terminal now id m j e (inr t) = unfold is_terminal in ground arith

-- A visit that makes `d` terminal below one child is enough, as no later visit undoes it.
cancel_each_reaches :
    (f : ℕ) (now : Instant) (d c : JobId) (l : List JobId) (m k : Manager)
    → Extends m k
    → Memᴰ c l
    → ((n : Manager) → Extends m n → IsTerminalAt d (cancel_subtree f now c n))
    → IsTerminalAt d (cancel_each (cancel_subtree f now) l k)
unfolding cancel_each
cancel_each_reaches f now d c [] m k e h reach = elim h [ ]
cancel_each_reaches f now d c (x ∷ l) m k e (Memᴰ.head p) reach =
    let n = cancel_subtree f now x k in
    let en = cancel_subtree-Extends f now x m k e in
    Extends-terminal n _ d
      (cancel_each_keeps (Extends n) (act_on-Extends n) (cancel_subtree f now)
        (λ y i. cancel_subtree-Extends f now y n i) l n (Extends-refl n en.well_formed))
      (subst (λ (y : JobId). IsTerminalAt d (cancel_subtree f now y k)) p (reach k e))
cancel_each_reaches f now d c (x ∷ l) m k e (Memᴰ.tail h) reach =
    cancel_each_reaches f now d c l m (cancel_subtree f now x k)
      (cancel_subtree-Extends f now x m k e) h reach

deeper :
    (f : ℕ) (id c : JobId) (m n : Manager)
    → Extends m n
    → rank id m.objects < rank c m.objects
    → length m.objects < suc f + rank id m.objects
    → length n.objects < f + rank c n.objects
deeper f id c m n e h fits = omega (arith, e.size, e.ranks c)

pub cancel_subtree_reaches :
    (f : ℕ) (now : Instant) (d id : JobId) (m : Manager)
    → IsWellFormed m
    → length m.objects < f + rank id m.objects
    → Below m d id
    → IsTerminalAt d (cancel_subtree f now id m)
unfolding cancel_subtree
cancel_subtree_reaches zero now d id m w fits b =
    absurd (omega (arith, rank-le-length id m.objects))
cancel_subtree_reaches (suc f) now d id m w fits (self p r) =
    let k = cancel_each (cancel_subtree f now) (children_of id m) m in
    let e =
      cancel_each_keeps (Extends m) (act_on-Extends m) (cancel_subtree f now)
        (λ y n i. cancel_subtree-Extends f now y m n i) (children_of id m) m (Extends-refl m w) in
    let (j, at) = e.well_formed.live id (rw e.jobs r) in
    rw r (
      subst (λ (x : JobId). IsTerminalAt x (cancel_node now id k)) p
        (cancel_node_terminal now id k j at
          (IsConsistent-state j (e.well_formed.consistent id j at))))
cancel_subtree_reaches (suc f) now d id m w fits (child c r h b) =
    let k = cancel_each (cancel_subtree f now) (children_of id m) m in
    let e =
      cancel_each_keeps (Extends m) (act_on-Extends m) (cancel_subtree f now)
        (λ y n i. cancel_subtree-Extends f now y m n i) (children_of id m) m (Extends-refl m w) in
    rw r (
      Extends-terminal k (cancel_node now id k) d
        (cancel_node_keeps (Extends k) (act_on-Extends k) now id k (Extends-refl k e.well_formed))
        (cancel_each_reaches f now d c (children_of id m) m m (Extends-refl m w) h (λ n i.
          cancel_subtree_reaches f now d c n i.well_formed
            (deeper f id c m n i (w.edges id c h) fits) (Below-Extends m n d c i b))))
