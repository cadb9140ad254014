-- ===== src/Owner/Reaping.antt =====
-- internal/sandbox/reaper.go, `ReapOrphans`: what is destroyed, and what is reported.
use demesne.Base.{
  ℕ, suc, ◌+◌, ◌≡◌, refl, sym, ◌∙◌, ap, inl, inr, Bool, true, false, Bool-cases, Option, none, some,
  List, [], ◌∷◌, ◌++◌, append_assoc, append-nil, if◌then◌else◌, Str, trim_space, arith,
}
use demesne.Owner.{
  Verdict, verdict_keep, verdict_reap, verdict_skip, classify_owner, Candidate, Call,
  sidecar_remove, destroy_sandbox, ReapError, boot_id_unread, list_failed, sidecar_failed,
  destroy_failed, Reaped, reap_one, reap_verdict, reap_each, read_boot_id, reap_orphans, Pages,
  failed, last_page, page, all_pages, owned, reaper_list,
}

abbrev pub is_reap : Verdict → Bool
is_reap verdict_keep = false
is_reap verdict_skip = false
is_reap verdict_reap = true

-- The candidates that are confirmed dead, in the order of the list.
pub dead : Str → List Candidate → List Candidate
dead boot [] = []
dead boot (c ∷ cs) =
    let rest = dead boot cs in
    if is_reap (classify_owner c.owner boot c.alive) then c ∷ rest else rest

abbrev pub calls_for : List Candidate → List Call
calls_for [] = []
calls_for (c ∷ cs) = sidecar_remove c.id ∷ destroy_sandbox c.id ∷ calls_for cs

abbrev pub gone : List Candidate → ℕ
gone [] = 0
gone (c ∷ cs) = let n = gone cs in if c.sandbox_goes then suc n else n

abbrev pub failures : List Candidate → List ReapError
failures [] = []
failures (c ∷ cs) =
    let rest = failures cs in
    let at_end = if c.sandbox_goes then rest else destroy_failed c.id ∷ rest in
    if c.sidecar_goes then at_end else sidecar_failed c.id ∷ at_end

failures_of_one :
    (c : Candidate) (r : Reaped) (rest : List ReapError)
    → (reap_one c r).errs ++ rest
      ≡ r.errs
        ++ (let at_end = if c.sandbox_goes then rest else destroy_failed c.id ∷ rest in
            if c.sidecar_goes then at_end else sidecar_failed c.id ∷ at_end)
failures_of_one c r rest = elim (Bool-cases c.sandbox_goes) [
  | inl e ↦ elim (Bool-cases c.sidecar_goes) [
    | inl k ↦ rw (e, k) (ap (λ x. x ++ rest) (append-nil r.errs))
    | inr k ↦
        rw (e, k)
          (ap (λ x. x ++ rest) (append-nil (r.errs ++ sidecar_failed c.id ∷ []))
            ∙ append_assoc r.errs (sidecar_failed c.id ∷ []) rest)
  ]
  | inr e ↦ elim (Bool-cases c.sidecar_goes) [
    | inl k ↦ rw (e, k) (append_assoc r.errs (destroy_failed c.id ∷ []) rest)
    | inr k ↦
        rw (e, k)
          (append_assoc (r.errs ++ sidecar_failed c.id ∷ []) (destroy_failed c.id ∷ []) rest
            ∙ append_assoc r.errs (sidecar_failed c.id ∷ []) (destroy_failed c.id ∷ rest))
  ]
]

reap_each_lem :
    (boot : Str) (cs : List Candidate) (r : Reaped)
    → let r' = reap_each boot cs r in
      (r'.calls ≡ r.calls ++ calls_for (dead boot cs))
      × (r'.reaped ≡ r.reaped + gone (dead boot cs))
      × (r'.errs ≡ r.errs ++ failures (dead boot cs))
unfolding reap_each dead
reap_each_lem boot [] r = (sym (append-nil r.calls), omega arith, sym (append-nil r.errs))
reap_each_lem boot (c ∷ cs) r =
    of_verdict (classify_owner c.owner boot c.alive) (reap_each_lem boot cs)
  where
    of_verdict :
        (v : Verdict)
        → ((s : Reaped)
            → let r' = reap_each boot cs s in
              (r'.calls ≡ s.calls ++ calls_for (dead boot cs))
              × (r'.reaped ≡ s.reaped + gone (dead boot cs))
              × (r'.errs ≡ s.errs ++ failures (dead boot cs)))
        → let r' = reap_each boot cs (reap_verdict v c r) in
          let all = if is_reap v then c ∷ dead boot cs else dead boot cs in
          (r'.calls ≡ r.calls ++ calls_for all)
          × (r'.reaped ≡ r.reaped + gone all)
          × (r'.errs ≡ r.errs ++ failures all)
    of_verdict verdict_keep ih = ih r
    of_verdict verdict_skip ih = ih r
    of_verdict verdict_reap ih =
        let h = ih (reap_one c r) in
        (
          h.0
              ∙ append_assoc r.calls (sidecar_remove c.id ∷ destroy_sandbox c.id ∷ [])
                  (calls_for (dead boot cs)),
          ground (arith, h.1),
          h.2 ∙ failures_of_one c r (failures (dead boot cs)),
        )

zero_add : (n : ℕ) → 0 + n ≡ n
zero_add n = omega arith

-- Only the sandboxes that are confirmed dead are touched, each once and in order, its sidecar before
-- the sandbox itself; the count is that of those destroyed, with an error for each other one and for
-- each sidecar that stayed; and where the boot id or the list cannot be read, nothing is touched and
-- just that is reported.
pub reap_exact_dead :
    (boot_file : Option Str) (list : Option (List Candidate))
    → let r = reap_orphans boot_file list in
      ◌≡◌ {A = ℕ × List ReapError × List Call}
        (r.reaped, r.errs, r.calls)
        (elim (read_boot_id boot_file) [
          | none ↦ (0, boot_id_unread ∷ [], [])
          | some boot ↦ elim list [
            | none ↦ (0, list_failed ∷ [], [])
            | some cs ↦ (gone (dead boot cs), failures (dead boot cs), calls_for (dead boot cs))
          ]
        ])
unfolding reap_orphans
reap_exact_dead none list = refl
reap_exact_dead (some b) none = refl
reap_exact_dead (some b) (some cs) =
    let l = reap_each_lem (trim_space b) cs (record { reaped = 0; errs = []; calls = [] }) in
    cc (l.0, l.1, l.2, zero_add (gone (dead (trim_space b) cs)))

-- Every page was read, up to the last.
abbrev pub all_read : Pages → Bool
all_read failed = false
all_read (last_page cs) = true
all_read (page cs ps) = all_read ps

abbrev pub items : Pages → List Candidate
items failed = []
items (last_page cs) = cs
items (page cs ps) = cs ++ items ps

all_pages_lem : (ps : Pages) → all_pages ps ≡ (if all_read ps then some (items ps) else none)
all_pages_lem failed = refl
all_pages_lem (last_page cs) = refl
all_pages_lem (page cs ps) = ground (arith, all_pages_lem ps)

-- A page that cannot be read, however late, leaves every sandbox of the earlier pages alone: the
-- reaper then calls nothing. With all pages read it is as if one page listed all the sandboxes.
pub list_fail_closed :
    (boot_file : Option Str) (ps : Pages)
    → (reap_orphans boot_file (reaper_list ps)).calls
      ≡ (if all_read ps then (reap_orphans boot_file (some (owned (items ps)))).calls else [])
unfolding reaper_list reap_orphans
list_fail_closed none ps = ground arith
list_fail_closed (some b) ps = ground (arith, all_pages_lem ps)
