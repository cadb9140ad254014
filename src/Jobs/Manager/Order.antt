-- ===== src/Jobs/Manager/Order.antt =====
-- internal/sandbox/jobs.go: the heap of jobs in the order in which they were started, and the
-- invariant of the registry.
use mathlib.Core.List.{Memᴰ}
use mathlib.Core.Option
use mathlib.Core.Option.{some-injective}
use demesne.Base.{
  ℕ, suc, ◌≤◌, ◌<◌, ◌≡◌, refl, sym, ◌∙◌, subst, ap, ◌≢◌, ◌⊎◌, inl, inr, Bool, true, false, Option,
  none, some, List, [], ◌∷◌, ◌++◌, if◌then◌else◌, length, Str, str_eq, str_eq_iff, str_eq_refl, Map,
  lookup, lookup-insert, Bool-cases, arith, str_Eq,
}
use demesne.Jobs.{JobId, Instant, Job, Action, act}
use demesne.Jobs.Settling.{IsConsistent, act-IsConsistent, new_job-IsConsistent}
use demesne.Jobs.Manager.{Manager, new_job_manager, contains, children_of, update, act_on, start}

abbrev pub Objects : Type 0
Objects = Map JobId Job

pub lookup-update :
    (id d : JobId) (f : Job → Job) (l : Objects)
    → lookup d (update id f l) ≡ (if str_eq id d then Option.map f (lookup d l) else lookup d l)
unfolding lookup update
lookup-update id d f [] = ground arith
lookup-update id d f ((i, j) ∷ l) =
    ground (arith, str_eq_iff i id, str_eq_iff i d, str_eq_iff id d, lookup-update id d f l)

-- Where an object stands in the heap, counted from the oldest; 0 for no object.
pub rank : JobId → Objects → ℕ
rank id [] = 0
rank id ((i, j) ∷ l) = if str_eq i id then suc (length l) else rank id l

pub rank-le-length : (id : JobId) (l : Objects) → rank id l ≤ length l
unfolding rank
rank-le-length id [] = omega arith
rank-le-length id ((i, j) ∷ l) = ground (arith, rank-le-length id l)

pub length-update : (id : JobId) (f : Job → Job) (l : Objects) → length (update id f l) ≡ length l
unfolding update
length-update id f [] = refl
length-update id f ((i, j) ∷ l) = ground (arith, length-update id f l)

pub rank-update : (id d : JobId) (f : Job → Job) (l : Objects) → rank d (update id f l) ≡ rank d l
unfolding rank update
rank-update id d f [] = refl
rank-update id d f ((i, j) ∷ l) = ground (arith, rank-update id d f l, length-update id f l)

-- What holds of the registry between any two actions.
pub record IsWellFormed (m : Manager) : Type 0 where
  pub live : (id : JobId) → contains id m.jobs ≡ true → (j : Job) × (lookup id m.objects ≡ some j)
  pub consistent : (id : JobId) (j : Job) → lookup id m.objects ≡ some j → IsConsistent j
  pub edges : (p c : JobId) → Memᴰ c (children_of p m) → rank p m.objects < rank c m.objects

lookup-act_on-IsConsistent :
    (id d : JobId) (a : Action) (l : Objects) (j : Job)
    → ((k : Job) → lookup d l ≡ some k → IsConsistent k)
    → lookup d (update id (act a) l) ≡ some j
    → IsConsistent j
lookup-act_on-IsConsistent id d a l j h e =
    go (lookup d l) (str_eq id d) refl (sym (lookup-update id d (act a) l) ∙ e)
  where
    go :
        (o : Option Job) (b : Bool)
        → lookup d l ≡ o
        → (if b then Option.map (act a) o else o) ≡ some j
        → IsConsistent j
    go none true eo e' = cc
    go none false eo e' = cc
    go (some k) true eo e' =
        subst IsConsistent (some-injective _ _ e') (act-IsConsistent a k (h k eo))
    go (some k) false eo e' = h j (eo ∙ e')

update_live :
    (id d : JobId) (f : Job → Job) (l : Objects)
    → ((j : Job) × (lookup d l ≡ some j))
    → (j : Job) × (lookup d (update id f l) ≡ some j)
update_live id d f l (j, e) =
    ((if str_eq id d then f j else j), ground (arith, lookup-update id d f l))

pub act_on-IsWellFormed :
    (id : JobId) (a : Action) (m : Manager) → IsWellFormed m → IsWellFormed (act_on id a m)
unfolding act_on
act_on-IsWellFormed id a m w = record {
  live = λ d h. update_live id d (act a) m.objects (w.live d h);
  consistent = λ d j e. lookup-act_on-IsConsistent id d a m.objects j (w.consistent d) e;
  edges = λ p c h. simp rank-update (w.edges p c h);
}

pub new_job_manager-IsWellFormed : IsWellFormed new_job_manager
unfolding contains lookup
new_job_manager-IsWellFormed = record {
  live = λ id h. absurd (cc);
  consistent = λ id j h. absurd (cc);
  edges = λ p c h. elim h [ ];
}

-- The minted id is new: no object has it, and nothing was started below it.
pub record IsFresh (id : JobId) (m : Manager) : Type 0 where
  pub unborn : lookup id m.objects ≡ none
  pub childless : lookup id m.children ≡ none

rank_unborn : (id : JobId) (l : Objects) → lookup id l ≡ none → rank id l ≡ 0
unfolding rank lookup
rank_unborn id [] h = refl
rank_unborn id ((i, j) ∷ l) h = ground (arith, rank_unborn id l)

lookup-fresh :
    (id d : JobId) (n : Job) (l : Objects) (j : Job)
    → ((k : Job) → lookup d l ≡ some k → IsConsistent k)
    → IsConsistent n
    → lookup d ((id, n) ∷ l) ≡ some j
    → IsConsistent j
unfolding lookup
lookup-fresh id d n l j h hn e = elim (Bool-cases (str_eq id d)) [
  | inl p ↦ subst IsConsistent (some-injective _ _ (rw p at e)) hn
  | inr p ↦ h j (rw p at e)
]

live_fresh :
    (id d : JobId) (n : Job) (m : Manager)
    → ((contains d m.jobs ≡ true) → (j : Job) × (lookup d m.objects ≡ some j))
    → contains d (id ∷ m.jobs) ≡ true
    → (j : Job) × (lookup d ((id, n) ∷ m.objects) ≡ some j)
unfolding lookup contains
live_fresh id d n m h e = elim (Bool-cases (str_eq id d)) [
  | inl p ↦ (n, rw p)
  | inr p ↦ rw p (h (rw p at e))
]

Memᴰ_concat : (c id : JobId) (l : List JobId) → Memᴰ c (l ++ id ∷ []) → Memᴰ c l ⊎ (c ≡ id)
Memᴰ_concat c id [] (Memᴰ.head e) = inr e
Memᴰ_concat c id [] (Memᴰ.tail h) = elim h [ ]
Memᴰ_concat c id (x ∷ l) (Memᴰ.head e) = inl (Memᴰ.head e)
Memᴰ_concat c id (x ∷ l) (Memᴰ.tail h) = elim (Memᴰ_concat c id l h) [
  | inl k ↦ inl (Memᴰ.tail k)
  | inr e ↦ inr e
]

rank_fresh :
    (id p c : JobId) (n : Job) (m : Manager)
    → IsFresh id m
    → rank p m.objects < rank c m.objects
    → id ≢ p
    → rank p ((id, n) ∷ m.objects) < rank c ((id, n) ∷ m.objects)
unfolding rank
rank_fresh id p c n m f h ne =
    ground (arith, str_eq_iff id p, str_eq_iff id c, rank_unborn id m.objects f.unborn)

-- The children that `Start` leaves under each id.
children_of-start :
    (id parent p : JobId) (now : Instant) (tool : Str) (notify : Bool) (m : Manager)
    → children_of p (start id now parent tool notify m) ≡ (
        if str_eq parent []
        then children_of p m
        else if str_eq parent p
        then children_of parent m ++ id ∷ []
        else children_of p m)
unfolding start
children_of-start id parent p now tool notify m =
    ground (arith, lookup-insert parent p (children_of parent m ++ id ∷ []) m.children)

childless-ne : (id p c : JobId) (m : Manager) → IsFresh id m → Memᴰ c (children_of p m) → id ≢ p
childless-ne id p c m f h e =
    elim (subst (λ (o : Option (List JobId)). Memᴰ c (Option.get_or o []))
      (ap (λ (i : JobId). lookup i m.children) (sym e) ∙ f.childless) h) [ ]

rank_newest :
    (id p : JobId) (n : Job) (l : Objects) → id ≢ p → rank p ((id, n) ∷ l) < rank id ((id, n) ∷ l)
unfolding rank
rank_newest id p n l ne = ground (arith, str_eq_iff id p, str_eq_refl id, rank-le-length p l)

edges_start :
    (id parent p c : JobId) (n : Job) (b d : Bool) (m : Manager)
    → IsFresh id m
    → id ≢ parent
    → IsWellFormed m
    → (d ≡ true → parent ≡ p)
    → Memᴰ c (
        if b
        then children_of p m
        else if d
        then children_of parent m ++ id ∷ []
        else children_of p m)
    → rank p ((id, n) ∷ m.objects) < rank c ((id, n) ∷ m.objects)
edges_start id parent p c n true d m f ne w k h =
    rank_fresh id p c n m f (w.edges p c h) (childless-ne id p c m f h)
edges_start id parent p c n false false m f ne w k h =
    rank_fresh id p c n m f (w.edges p c h) (childless-ne id p c m f h)
edges_start id parent p c n false true m f ne w k h =
    elim (Memᴰ_concat c id (children_of parent m) h) [
      | inl old ↦ rw (← k refl) (rank_fresh id parent c n m f (w.edges parent c old) ne)
      | inr e ↦ rw (e, ← k refl) (rank_newest id parent n m.objects ne)
    ]

pub start-IsWellFormed :
    (id parent : JobId) (now : Instant) (tool : Str) (notify : Bool) (m : Manager)
    → IsFresh id m
    → id ≢ parent
    → IsWellFormed m
    → IsWellFormed (start id now parent tool notify m)
start-IsWellFormed id parent now tool notify m f ne w = record {
  live = λ d h. unfold start in live_fresh id d _ m (w.live d) (unfold start in h);
  consistent = λ d j e.
      lookup-fresh id d _ m.objects j (w.consistent d)
        (new_job-IsConsistent id parent tool notify now) (unfold start in e);
  edges = λ p c h.
      unfold start in
      edges_start id parent p c _ (str_eq parent []) (str_eq parent p) m f ne w
        (str_eq_iff parent p).0
        (subst (Memᴰ c) (children_of-start id parent p now tool notify m) h);
}
