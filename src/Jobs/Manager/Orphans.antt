-- ===== src/Jobs/Manager/Orphans.antt =====
-- internal/sandbox/jobs.go: what `reapExpired` does to the tree that `cancelSubtree` walks.
use mathlib.Core.List.{Memᴰ}
use mathlib.Core.Option
use mathlib.Core.Bool.{false≢true}
use demesne.Base.{
  ◌≡◌, ◌≢◌, refl, sym, ◌∙◌, ap, subst, Bool, true, false, ◌&&◌, Option, none, List, [], ◌∷◌,
  if◌then◌else◌, lookup, arith, str_Eq, Map,
}
use demesne.Jobs.{JobId, Instant, Job}
use demesne.Jobs.Manager.{
  Manager, contains, children_of, expired_at, reap_expired, cancel, state_of,
}
use demesne.Jobs.Manager.Order.{IsWellFormed}
use demesne.Jobs.Manager.Subtree.{Below, self, child}
use demesne.Jobs.Manager.Cancel.{cancel_frame, Below-registered}
use demesne.Jobs.Manager.Reaping.{
  objects-reap_expired, contains-reap_expired, children-reap_expired,
}

still_registered :
    (now : Instant) (id : JobId) (m : Manager)
    → contains id (reap_expired now m).jobs ≡ true
    → contains id m.jobs ≡ true
still_registered now id m h = ground (arith, contains-reap_expired now id m)

-- A sweep takes links away and adds none.
link_was_there :
    (now : Instant) (p c : JobId) (m : Manager)
    → Memᴰ c (children_of p (reap_expired now m))
    → Memᴰ c (children_of p m)
link_was_there now p c m h = go (contains p m.jobs && expired_at now p m) (
    subst (λ (o : Option (List JobId)). Memᴰ c (Option.get_or o [])) (children-reap_expired now p m)
      h)
  where
    go :
        (b : Bool)
        → Memᴰ c (Option.get_or (if b then none else lookup p m.children) [])
        → Memᴰ c (children_of p m)
    go true k = elim k [ ]
    go false k = k

pub reap_expired-IsWellFormed :
    (now : Instant) (m : Manager) → IsWellFormed m → IsWellFormed (reap_expired now m)
reap_expired-IsWellFormed now m w = record {
  live = λ id h.
      let (j, e) = w.live id (still_registered now id m h) in (j, rw objects-reap_expired e);
  consistent = λ id j e. w.consistent id j (rw objects-reap_expired at e);
  edges = λ p c h. rw objects-reap_expired (w.edges p c (link_was_there now p c m h));
}

-- A swept job is no step of a path.
unreachable :
    (now : Instant) (p c y : JobId) (m : Manager)
    → contains p m.jobs ≡ true
    → expired_at now p m ≡ true
    → y ≡ p
    → ¬ Below (reap_expired now m) c y
unreachable now p c y m r x q b = false≢true (
    sym swept
    ∙ Below-registered (reap_expired now m) c p (subst (Below (reap_expired now m) c) q b))
  where
    swept : contains p (reap_expired now m).jobs ≡ false
    swept = ground (arith, contains-reap_expired now p m)

cut_off :
    (now : Instant) (g p c : JobId) (m : Manager)
    → children_of g m ≡ p ∷ []
    → contains p m.jobs ≡ true
    → expired_at now p m ≡ true
    → g ≢ c
    → ¬ Below (reap_expired now m) c g
cut_off now g p c m e r x n (self q h) = n q
cut_off now g p c m e r x n (child y h k b) = elim (subst (Memᴰ y) e (link_was_there now g y m k)) [
  | Memᴰ.head q ↦ unreachable now p c y m r x q b
  | Memᴰ.tail t ↦ elim t [ ]
]

-- In a well-formed registry with registered jobs `g`, `p` and `c`, where `p` is the only child of `g`,
-- `c` the only child of `p`, and `p` is due to be swept: `c` is in the tree below `g`, but after the
-- sweep a cancellation of `g` leaves the state of `c` as it was.
pub orphan_survives :
    (now later : Instant) (g p c : JobId) (m : Manager)
    → IsWellFormed m
    → (contains g m.jobs ≡ true) × (contains p m.jobs ≡ true) × (contains c m.jobs ≡ true)
    → children_of g m ≡ p ∷ []
    → children_of p m ≡ c ∷ []
    → expired_at now p m ≡ true
    → g ≢ c
    → Below m c g × (state_of c (cancel later g (reap_expired now m)).0 ≡ state_of c m)
orphan_survives now later g p c m w (rg, rp, rc) eg ep x n =
    let k = reap_expired now m in
    let frame =
      cancel_frame later g c k (reap_expired-IsWellFormed now m w)
        (cut_off now g p c m eg rp x n) in
    (
      child p rg (rw eg (Memᴰ.head refl)) (child c rp (rw ep (Memᴰ.head refl)) (self refl rc)),
      ap (λ (o : Option Job). Option.get_or (Option.map (λ (j : Job). j.state) o) 0)
          (frame.0 ∙ ap (λ (l : Map JobId Job). lookup c l) (objects-reap_expired now m)),
    )
