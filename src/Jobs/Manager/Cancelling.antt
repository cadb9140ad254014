-- ===== src/Jobs/Manager/Cancelling.antt =====
-- internal/sandbox/jobs.go, `cancelSubtree` and `Cancel`: which jobs a cancellation reaches.
use mathlib.Core.Option
use demesne.Base.{
  ℕ, zero, suc, ◌≡◌, refl, ◌∙◌, ◌⊎◌, inl, inr, Bool, true, false, Option, none, some, List, [], ◌∷◌,
  ◌==◌, if◌then◌else◌, length, str_eq, lookup, Bool-cases, arith, str_Eq,
}
use demesne.Jobs.{JobId, Instant, is_cancelling, Job, state_running, state_cancelled, Action, act}
use demesne.Jobs.Manager.{
  Manager, contains, children_of, act_on, cancel_node, cancel_each, cancel_subtree, state_of,
}
use demesne.Jobs.Manager.Order.{
  rank, lookup-update, length-update, rank-update, IsWellFormed, act_on-IsWellFormed,
}

-- What every action of a cancellation keeps, the whole call keeps.
module _ (P : Manager → Type 0)
    (step : (id : JobId) (a : Action) (m : Manager)
      → is_cancelling a ≡ true
      → P m
      → P (act_on id a m)) where
  pub cancel_node_keeps :
      (now : Instant) (id : JobId) (m : Manager) → P m → P (cancel_node now id m)
  unfolding cancel_node
  cancel_node_keeps now id m h = elim (Bool-cases (state_of id m == state_running)) [
    | inl e ↦ rw e (step id _ _ refl (step id _ _ refl (step id _ _ refl h)))
    | inr e ↦ rw e h
  ]

  pub cancel_each_keeps :
      (visit : JobId → Manager → Manager)
      → ((c : JobId) (m : Manager) → P m → P (visit c m))
      → (l : List JobId) (m : Manager) → P m
      → P (cancel_each visit l m)
  unfolding cancel_each
  cancel_each_keeps visit k [] m h = h
  cancel_each_keeps visit k (c ∷ l) m h = cancel_each_keeps visit k l (visit c m) (k c m h)

  pub cancel_subtree_keeps :
      (f : ℕ) (now : Instant) (id : JobId) (m : Manager) → P m → P (cancel_subtree f now id m)
  unfolding cancel_subtree
  cancel_subtree_keeps zero now id m h = h
  cancel_subtree_keeps (suc f) now id m h = elim (Bool-cases (contains id m.jobs)) [
    | inl e ↦ rw e (
        cancel_node_keeps now id _ (
          cancel_each_keeps (cancel_subtree f now) (cancel_subtree_keeps f now) (children_of id m) m
            h))
    | inr e ↦ rw e h
  ]

pub state_of-act_on :
    (id d : JobId) (a : Action) (m : Manager)
    → state_of d (act_on id a m) ≡ (
        if str_eq id d
        then Option.get_or (Option.map (λ (j : Job). (act a j).state) (lookup d m.objects)) 0
        else state_of d m)
unfolding act_on
state_of-act_on id d a m = ground (arith, lookup-update id d (act a) m.objects)

-- What a cancellation leaves as it was, and how it may change a state.
pub record Extends (m k : Manager) : Type 0 where
  pub jobs : k.jobs ≡ m.jobs
  pub children : k.children ≡ m.children
  pub size : length k.objects ≡ length m.objects
  pub ranks : (d : JobId) → rank d k.objects ≡ rank d m.objects
  pub states :
      (d : JobId)
      → (state_of d k ≡ state_of d m)
        ⊎ ((state_of d m ≡ state_running) × (state_of d k ≡ state_cancelled))
  pub well_formed : IsWellFormed k

pub cancelling_state :
    (a : Action) (j : Job)
    → is_cancelling a ≡ true
    → ((act a j).state ≡ j.state)
      ⊎ ((j.state ≡ state_running) × ((act a j).state ≡ state_cancelled))
unfolding act
cancelling_state a j h = ground arith

act_on_state :
    (id d : JobId) (a : Action) (m : Manager)
    → is_cancelling a ≡ true
    → (state_of d (act_on id a m) ≡ state_of d m)
      ⊎ ((state_of d m ≡ state_running) × (state_of d (act_on id a m) ≡ state_cancelled))
act_on_state id d a m h = rw state_of-act_on (go (lookup d m.objects) (str_eq id d))
  where
    go :
        (o : Option Job) (b : Bool)
        → let old = Option.get_or (Option.map (λ (j : Job). j.state) o) 0 in
          let new =
            if b then Option.get_or (Option.map (λ (j : Job). (act a j).state) o) 0 else old in
          (new ≡ old) ⊎ ((old ≡ state_running) × (new ≡ state_cancelled))
    go none true = inl refl
    go none false = inl refl
    go (some j) true = cancelling_state a j h
    go (some j) false = inl refl

then_state :
    (x y z : ℕ)
    → ((y ≡ x) ⊎ ((x ≡ state_running) × (y ≡ state_cancelled)))
    → ((z ≡ y) ⊎ ((y ≡ state_running) × (z ≡ state_cancelled)))
    → (z ≡ x) ⊎ ((x ≡ state_running) × (z ≡ state_cancelled))
then_state x y z h k = ground arith

pub act_on-Extends :
    (m : Manager) (id : JobId) (a : Action) (k : Manager)
    → is_cancelling a ≡ true
    → Extends m k
    → Extends m (act_on id a k)
act_on-Extends m id a k h e = record {
  jobs = unfold act_on in e.jobs;
  children = unfold act_on in e.children;
  size = unfold act_on in length-update id (act a) k.objects ∙ e.size;
  ranks = λ d. unfold act_on in rank-update id d (act a) k.objects ∙ e.ranks d;
  states = λ d. then_state _ _ _ (e.states d) (act_on_state id d a k h);
  well_formed = act_on-IsWellFormed id a k e.well_formed;
}

pub Extends-refl : (m : Manager) → IsWellFormed m → Extends m m
Extends-refl m w = record {
  jobs = refl;
  children = refl;
  size = refl;
  ranks = λ d. refl;
  states = λ d. inl refl;
  well_formed = w;
}

pub cancel_subtree-Extends :
    (f : ℕ) (now : Instant) (id : JobId) (m k : Manager)
    → Extends m k
    → Extends m (cancel_subtree f now id k)
cancel_subtree-Extends f now id m k e =
    cancel_subtree_keeps (Extends m) (act_on-Extends m) f now id k e
